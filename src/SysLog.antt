-- ===== src/SysLog.antt =====
-- core/syslog.hpp, core/syslog.tpp and the functions of core/string_utils.hpp that it calls: where a
-- message goes, also to the subscribers of a channel, over sessions that log their own failures.
-- What `emit` prints itself about a format is left out.
pub mod Sends
pub mod Routes
pub mod Failures
use Prim.Native.String.{String, ◌++◌}
use koheron_server.Base.{
  ℕ, zero, suc, ◌≤◌, leb, ltb, Option, none, some, List, [], ◌∷◌, if◌then◌else◌, ◌>>=◌, ℤ, pos,
  negsuc, minus_one, is_neg, Bool, true, false,
}
use koheron_server.Config.{Config}
use koheron_server.PubSub.{Subscribers, contains, emit_text}
use koheron_server.Tcp.Session.{write}

-- `enum severity`
pub data Severity : Type 0 where
  panic critical error warning info debug : Severity

abbrev pub number_of : Severity → ℕ
number_of panic = 0
number_of critical = 1
number_of error = 2
number_of warning = 3
number_of info = 4
number_of debug = 5

-- The priorities of syslog.h.
pub data Priority : Type 0 where
  log_alert log_crit log_err log_warning log_notice log_debug : Priority

-- `log_array`
abbrev pub to_priority : Severity → Priority
to_priority panic = log_alert
to_priority critical = log_crit
to_priority error = log_err
to_priority warning = log_warning
to_priority info = log_notice
to_priority debug = log_debug

abbrev pub severity_msg : Severity → String
severity_msg panic = "KSERVER PANIC"
severity_msg critical = "KSERVER CRITICAL"
severity_msg error = "KSERVER ERROR"
severity_msg warning = "KSERVER WARNING"
severity_msg info = "KSERVER INFO"
severity_msg debug = "KSERVER DEBUG"

-- An argument of a format.
pub data Argument : Type 0 where
  number : ℤ → Argument
  text : String → Argument

-- What a function of the printf family is given: a format with arguments, or "%s" and a text.
pub data Format : Type 0 where
  formatted : String → List Argument → Format
  verbatim : String → Format

-- `printf`, `fprintf`, `snprintf` and `syslog` of core/string_utils.hpp: a message without arguments
-- is no format.
abbrev pub forward : String → List Argument → Format
forward fmt [] = verbatim fmt
forward fmt (a ∷ args) = formatted fmt (a ∷ args)

-- What was printed and sent, the last one first, the formatting buffer, and the clients' side of the
-- sockets. `is_open` tells whether `openlog` was called and `closelog` was not. `sent` has the
-- messages that were given to the system call, with the session's id.
pub record Log (W : Type 0) : Type 0 where
  pub out_err : List Format
  pub out : List Format
  pub system : List (Priority × Format)
  pub fmt_buffer : String
  pub sent : List (ℕ × String)
  pub is_open : Bool
  pub world : W

-- What the C library and the operating system do: `snprintf` gives its result and what is in the
-- buffer then, `size` is that of the command that carries a text, and `sys_write` is the system call
-- `write` on a session's socket.
pub record Platform (W : Type 0) : Type 0 where
  pub snprintf : Format → ℤ × String
  pub size : String → ℕ
  pub sys_write : ℕ → String → W → ℤ × W

abbrev pub syslog_channel : ℕ
syslog_channel = 1

-- What `Session<TCP>::write` prints once the system call gave `r` for a command of `bytes` bytes.
abbrev pub write_message : ℕ → ℤ → Severity × String × List Argument
write_message bytes (pos zero) = (error, "TCPSocket::write: Connection closed by client\n", [])
write_message bytes (negsuc n) = (error, "TCPSocket::write: Can't write to client\n", [])
write_message bytes (pos (suc n)) =
    if is_neg (write bytes (pos (suc n)))
    then (error, "TCPSocket::write: Some bytes have not been sent\n", [])
    else (debug, "[S] [%u bytes]\n", number (pos bytes) ∷ [])

module _ {W : Type 0} (host : Platform W) where
  open host use {snprintf, size, sys_write}

  -- The text in the formatting buffer is sent to session `sid`, over TCP or a Unix socket. `log` is
  -- `print`, and `ids` are those of the pool; `none` if `get_session` throws.
  unfoldable pub send_text :
      (Severity → String → List Argument → Log W → Option (Log W))
      → List ℕ
      → ℕ
      → Log W
      → Option (ℤ × Log W)
  unfolding write
  send_text log ids sid st =
      let (r, world) = sys_write sid st.fmt_buffer st.world in
      let (severity, message, args) = write_message (size st.fmt_buffer) r in
      if contains sid ids
      then (log severity message args
            (record st { sent = (sid, st.fmt_buffer) ∷ st.sent; world = world })
          >>= λ st'. some (write (size st.fmt_buffer) r, st'))
      else none

  -- `print_msg<severity>`
  unfoldable pub print_msg : Config → Severity → String → List Argument → Log W → Log W
  print_msg config severity message args st =
      if leb (number_of severity) 3
      then record st {
        out_err = forward ((severity_msg severity ++ ": ") ++ message) args ∷ st.out_err;
      }
      else if config.verbose
      then record st { out = forward message args ∷ st.out }
      else st

  -- `call_syslog<severity>`
  unfoldable pub call_syslog : Config → Severity → String → List Argument → Log W → Log W
  call_syslog config severity message args st =
      if leb (number_of severity) 4
      then (if config.syslog
          then record st { system = (to_priority severity, forward message args) ∷ st.system }
          else st)
      else st

  -- `emit_error<severity>`, where `interrupted` is that of the signal handler.
  unfoldable pub emit_error :
      (Severity → String → List Argument → Log W → Option (Log W))
      → Bool
      → Subscribers
      → List ℕ
      → Severity
      → String
      → List Argument
      → Log W
      → Option (ℤ × Log W)
  emit_error log interrupted subs ids severity message args st =
      let (ret, buffer) = snprintf (forward message args) in
      if leb (number_of severity) 4
      then emit_text (send_text log ids) interrupted ret syslog_channel subs
          (if interrupted then st else record st { fmt_buffer = buffer })
      else some (pos 0, st)

  module _ (config : Config) (interrupted : Bool) (subs : Subscribers) (ids : List ℕ) where
    -- `print<severity>(msg, args...)`; the fuel bounds how deep messages are about messages.
    unfoldable pub print : ℕ → Severity → String → List Argument → Log W → Option (Log W)
    print zero severity message args st = none
    print (suc fuel) severity message args st =
        emit_error (print fuel) interrupted subs ids severity message args
          (call_syslog config severity message args (print_msg config severity message args st))
        >>= λ (err, st'). some st'

    -- `close()`
    unfoldable pub close : ℕ → Log W → Option (Log W)
    close fuel st =
        if config.syslog
        then (print fuel info "Close syslog ...\n" [] st >>= λ st'.
            some (record st' { is_open = false }))
        else some st

-- `SysLog::SysLog`, on a host in the state `world`; the mask lets every priority up to LOG_NOTICE
-- through, which are all that `print` uses.
abbrev pub new_log : {W : Type 0} → Config → W → Log W
new_log config world = record {
  out_err = [];
  out = [];
  system = [];
  fmt_buffer = "";
  sent = [];
  is_open = config.syslog;
  world = world;
}
