-- ===== src/Server/Requests.antt =====
-- core/kserver_commands.cpp: the operations of the server. `T` is the state that a request sees;
-- `none` stands for an exception of `get_session` and the use of a null pointer.
pub mod Answers
pub mod Subscription
use koheron_server.Base.{
  ℕ, ◌-◌, ◌%◌, ◌^◌, Option, none, some, List, [], ◌∷◌, ltb, leb, ◌==◌, if◌then◌else◌, ◌>>=◌, ℤ, pos,
  negsuc, minus_one, is_neg, of_bits, to_bits, Bool, true, false,
}
use koheron_server.PubSub.{Subscribers, subscribe_request, emit, emit_text}
use koheron_server.Sessions.{Session, Pool, lookup, get_current_ids}

-- What `snprintf` returned and the text that it left.
abbrev pub Formatted : Type 0
Formatted = ℤ × List ℕ

-- The operations' numbers.
abbrev pub get_version_num : ℕ
get_version_num = 0

abbrev pub get_cmds_num : ℕ
get_cmds_num = 1

abbrev pub get_stats_num : ℕ
get_stats_num = 2

abbrev pub get_dev_status_num : ℕ
get_dev_status_num = 3

abbrev pub get_running_sessions_num : ℕ
get_running_sessions_num = 4

abbrev pub subscribe_pubsub_num : ℕ
subscribe_pubsub_num = 5

abbrev pub pubsub_ping_num : ℕ
pubsub_ping_num = 6

abbrev pub server_channel : ℕ
server_channel = 0

abbrev pub ping_num : ℕ
ping_num = 0

abbrev pub ping_text_num : ℕ
ping_text_num = 1

-- What a request asks of the other parts. `send` is `GET_SESSION.send<1, operation>(text)` and
-- `send_event` sends an event of the server's channel, given by its number, to the session with an id. The texts
-- of the version and of the devices come from the build.
pub record Host (T : Type 0) : Type 0 where
  pub send : ℕ → List ℕ → T → Option (ℤ × T)
  pub send_event : ℕ → ℕ → T → Option (ℤ × T)
  pub deserialize_channel : T → Option (ℤ × ℕ × T)
  pub pool : T → Pool
  pub subscribers : T → Subscribers
  pub set_subscribers : Subscribers → T → T
  pub interrupted : T → Bool
  pub version : List ℕ
  pub devices_json : List ℕ
  pub uptime : T → Formatted
  pub listener_stats : List (T → Formatted)
  pub describe : ℕ → Session → T → Formatted

abbrev pub ks_dev_write_str_len : ℕ
ks_dev_write_str_len = 1024

-- `ret < 0` or `ret >= KS_DEV_WRITE_STR_LEN`
abbrev pub is_unfit : ℤ → Bool
is_unfit (negsuc n) = true
is_unfit (pos n) = leb ks_dev_write_str_len n

-- An int in an `unsigned int`, whose test `< 0` follows.
abbrev pub to_unsigned : ℤ → ℕ
to_unsigned r = to_bits (2 ^ 31) r

-- "EOKS\n" and "EORS\n"
abbrev pub end_of_stats : List ℕ
end_of_stats = 69 ∷ 79 ∷ 75 ∷ 83 ∷ 10 ∷ []

abbrev pub end_of_sessions : List ℕ
end_of_sessions = 69 ∷ 79 ∷ 82 ∷ 83 ∷ 10 ∷ []

module _ {T : Type 0} (host : Host T) where
  -- `send_listener_stats<sock_type>(cmd, kserver, listener)`
  unfoldable pub send_listener_stats : Formatted → T → Option (ℤ × T)
  send_listener_stats (ret, send_str) t =
      if is_unfit ret
      then some (minus_one, t)
      else (host.send get_stats_num send_str t >>= λ (r, t').
          if ltb (to_unsigned r) 0
          then some (minus_one, t')
          else some (of_bits (2 ^ 31) (to_unsigned r), t'))

  -- The end of `GET_STATS`, from the listeners on.
  unfoldable pub send_all_stats : List (T → Formatted) → T → Option (ℤ × T)
  unfolding send_listener_stats
  send_all_stats [] t = host.send get_stats_num end_of_stats t >>= λ (r, t').
      if ltb (to_unsigned r) 0 then some (minus_one, t') else some (pos 0, t')
  send_all_stats (stats ∷ listeners) t = send_listener_stats (stats t) t >>= λ (r, t').
      if ltb (to_unsigned r) 0 then some (minus_one, t') else send_all_stats listeners t'

  -- GET_STATS
  unfoldable pub get_stats : T → Option (ℤ × T)
  unfolding send_all_stats
  get_stats t =
      let (ret, send_str) = host.uptime t in
      if is_unfit ret
      then some (minus_one, t)
      else (host.send get_stats_num send_str t >>= λ (r, t').
          if ltb (to_unsigned r) 0
          then some (minus_one, t')
          else send_all_stats host.listener_stats t')

  -- The rest of GET_RUNNING_SESSIONS for the ids that are left.
  unfoldable pub send_sessions : List ℕ → T → Option (ℤ × T)
  send_sessions [] t = host.send get_running_sessions_num end_of_sessions t >>= λ (r, t').
      if ltb (to_unsigned r) 0 then some (minus_one, t') else some (pos 0, t')
  send_sessions (id ∷ ids) t = lookup id (host.pool t) >>= λ pointer. pointer >>= λ session.
      let (ret, send_str) = host.describe id session t in
      if is_unfit ret
      then some (minus_one, t)
      else (host.send get_running_sessions_num send_str t >>= λ (r, t').
          if ltb (to_unsigned r) 0 then some (minus_one, t') else send_sessions ids t')

  -- GET_RUNNING_SESSIONS
  unfoldable pub get_running_sessions : T → Option (ℤ × T)
  unfolding send_sessions
  get_running_sessions t = send_sessions (get_current_ids (host.pool t)) t

  -- SUBSCRIBE_PUBSUB
  unfoldable pub subscribe_pubsub : ℕ → T → Option (ℤ × T)
  subscribe_pubsub sess_id t = host.deserialize_channel t >>= λ (err, channel, t').
      if is_neg err
      then some (minus_one, t')
      else let (r, subs) = subscribe_request channel sess_id (host.subscribers t') in
        some (r, host.set_subscribers subs t')

  -- PUBSUB_PING: `PING` and `PING_TEXT`, the latter of the 17 characters "Ping from server\n".
  unfoldable pub pubsub_ping : T → Option (ℤ × T)
  pubsub_ping t =
      emit (host.send_event ping_num) (host.interrupted t) server_channel (host.subscribers t) t
      >>= λ (r, t').
          emit_text (host.send_event ping_text_num) (host.interrupted t') (pos 17) server_channel
            (host.subscribers t') t'
          >>= λ (r', t''). some (pos 0, t'')

  -- `execute(cmd)`, for the session of the command.
  unfoldable pub execute : ℕ → ℕ → T → Option (ℤ × T)
  unfolding get_stats get_running_sessions subscribe_pubsub pubsub_ping
  execute sess_id operation t =
      if operation == get_version_num
      then host.send get_version_num host.version t
      else if operation == get_cmds_num
      then host.send get_cmds_num host.devices_json t
      else if operation == get_stats_num
      then get_stats t
      else if operation == get_dev_status_num
      then some (pos 0, t)
      else if operation == get_running_sessions_num
      then get_running_sessions t
      else if operation == subscribe_pubsub_num
      then subscribe_pubsub sess_id t
      else if operation == pubsub_ping_num
      then pubsub_ping t
      else some (minus_one, t)
