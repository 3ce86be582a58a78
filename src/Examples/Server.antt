-- ===== src/Examples/Server.antt =====
-- A server with two sessions: its requests, which are written to a list, and its end.
use mathlib.Core.Option
use koheron_server.Server.Notify.{notify_systemd_ready, named, notify_systemd_ready-named}
use koheron_server.Base.{
  arith, ℕ, ◌+◌, ◌%◌, ◌^◌, ◌≡◌, refl, some, List, [], ◌∷◌, ltb, ◌==◌, ◌&&◌, if◌then◌else◌, count, ℤ,
  pos, minus_one, true, false,
}
use koheron_server.PubSub.{Subscribers, channels_count, channel}
use koheron_server.Listener.{new_endpoint, init}
use koheron_server.Server.{Listeners, Each, Round}
use koheron_server.Server.Requests.{
  Host, get_stats_num, get_stats, get_running_sessions, subscribe_pubsub_num, execute,
}
use koheron_server.Server.Requests.Answers.{
  send_each_stats, send_each_session, get_stats-each, get_running_sessions-each,
}
use koheron_server.Server.Requests.Subscription.{execute-subscribe}
use koheron_server.Sessions.History.{History-IsValid}
use koheron_server.Examples.Management.{with_subscriber, first_deleted, before_deletion}

-- The texts that were sent, the last one first, and the subscribers.
abbrev World : Type 0
World = List (List ℕ) × Subscribers

-- Every send answers with an error, and a client asks for channel 65537.
abbrev host : Host World
host = record {
  send = λ op text (texts, subs). some (minus_one, (text ∷ texts, subs));
  send_event = λ event sid t. some (pos 1, t);
  deserialize_channel = λ t. some (pos 4, 2 ^ 16 + 1, t);
  pool = λ t. with_subscriber.session_pool;
  subscribers = λ (texts, subs). subs;
  set_subscribers = λ subs (texts, old). (texts, subs);
  interrupted = λ t. false;
  version = 118 ∷ [];
  devices_json = 91 ∷ 93 ∷ [];
  uptime = λ t. (pos 2, 85 ∷ 10 ∷ []);
  listener_stats = (λ t. (pos 2, 84 ∷ 10 ∷ [])) ∷ (λ t. (pos 1024, [])) ∷ [];
  describe = λ id s t. (pos 3, id ∷ s.comm_fd ∷ 10 ∷ []);
}

abbrev answer : ℕ → List ℕ → World → ℤ
answer op text t = minus_one

abbrev after : ℕ → List ℕ → World → World
after op text (texts, subs) = (text ∷ texts, subs)

abbrev start_world : World
start_world = ([], with_subscriber.subscribers)

get_stats-each_example :
    get_stats host start_world
    ≡ some (
      pos 0,
      send_each_stats after host.listener_stats
          (after get_stats_num (host.uptime start_world).1 start_world),
    )
get_stats-each_example = get_stats-each host answer after (λ op text t. refl) start_world refl

get_running_sessions-each_example :
    get_running_sessions host start_world
    ≡ some (pos 0, send_each_session after host.describe with_subscriber.session_pool start_world)
get_running_sessions-each_example =
    get_running_sessions-each host answer after (λ op text t. refl) (λ op text t. refl)
      (λ id s t. refl) start_world before_deletion refl

execute-subscribe_example :
    (t'' : World) × (execute host 1 subscribe_pubsub_num start_world
      ≡ some (if ltb ((2 ^ 16 + 1) % 2 ^ 16) channels_count then pos 0 else minus_one, t''))
    × ((a k : ℕ)
        → count a (channel k (host.subscribers t''))
          ≡ count a (channel k (host.subscribers start_world))
            + (if ltb ((2 ^ 16 + 1) % 2 ^ 16) channels_count
                  && ((2 ^ 16 + 1) % 2 ^ 16 == k
                      && (1 == a && count 1 (channel k (host.subscribers start_world)) == 0))
                then 1
                else 0))
execute-subscribe_example =
    execute-subscribe host 1 4 (2 ^ 16 + 1) start_world start_world (λ subs t. refl) refl
      (History-IsValid before_deletion).channels

-- TCP and WebSocket listeners, and none on a Unix socket.
abbrev workers : Each ℕ
workers = record { for_tcp = 10; for_websock = 10; for_unix = 0 }

abbrev created : Each ℤ
created = record { for_tcp = pos 3; for_websock = pos 4; for_unix = minus_one }

abbrev listened : Each ℤ
listened = record { for_tcp = pos 0; for_websock = pos 0; for_unix = pos 0 }

abbrev listeners : Listeners
listeners = record {
  tcp_listener = (init (pos 3) (new_endpoint 10)).1;
  websock_listener = (init (pos 4) (new_endpoint 10)).1;
  unix_listener = (init minus_one (new_endpoint 0)).1;
}

-- The listeners get ready in the second of three rounds, and a signal comes before the third.
abbrev rounds : List Round
rounds =
    record {
      ready = record { for_tcp = true; for_websock = false; for_unix = false };
      interrupted = false;
      exit_all = false;
      manager = with_subscriber;
    }
    ∷ record {
      ready = record { for_tcp = true; for_websock = true; for_unix = false };
      interrupted = false;
      exit_all = false;
      manager = with_subscriber;
    }
    ∷ record {
      ready = record { for_tcp = true; for_websock = true; for_unix = false };
      interrupted = true;
      exit_all = false;
      manager = first_deleted;
    }
    ∷ []

-- The path "@run".
notify_systemd_ready-named_example :
    ((notify_systemd_ready (64 ∷ 114 ∷ 117 ∷ 110 ∷ []) 42 (pos 9) true).closed ≡ 9 ∷ [])
    × ((notify_systemd_ready (64 ∷ 114 ∷ 117 ∷ 110 ∷ []) 42 (pos 9) true).freed ≡ true)
    × (Option.map named (notify_systemd_ready (64 ∷ 114 ∷ 117 ∷ 110 ∷ []) 42 (pos 9) true).message
        ≡ some (0 ∷ 114 ∷ 117 ∷ 110 ∷ []))
notify_systemd_ready-named_example =
    notify_systemd_ready-named 64 (114 ∷ 117 ∷ 110 ∷ []) 42 9 true (omega arith)
