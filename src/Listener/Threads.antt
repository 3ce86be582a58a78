-- ===== src/Listener/Threads.antt =====
-- `comm_thread_call` and `session_thread_call` of core/listening_channel.cpp, and the counters that
-- their threads share. `num_threads` is atomic; the fields of `ListenerStats` are plain ints, whose
-- changes load and store.
use koheron_server.Base.{
  ℕ, ◌+◌, ◌-◌, ◌%◌, ◌^◌, List, [], ◌∷◌, ◌++◌, ltb, if◌then◌else◌, ℤ, pos, negsuc, Bool, true, false,
  ◌≡◌,
}

-- `ListenerStats` and `num_threads`; `closed` counts the descriptors that sessions closed.
pub record Shared : Type 0 where
  pub num_threads : ℕ
  pub opened_sessions_num : ℕ
  pub total_sessions_num : ℕ
  pub total_requests_num : ℕ
  pub closed : ℕ

-- What a session's thread does next; a number is what it loaded, or the requests that it served.
pub data Phase : Type 0 where
  spawned counted : Phase
  opening : ℕ → Phase
  opened : Phase
  totalling : ℕ → Phase
  ready : Phase
  ran : ℕ → Phase
  adding : ℕ → ℕ → Phase
  added deleted discounted : Phase
  closing : ℕ → Phase
  finished : Phase

abbrev pub increment : ℕ → ℕ
increment n = (n + 1) % 2 ^ 32

abbrev pub decrement : ℕ → ℕ
decrement n = (n + 2 ^ 32 - 1) % 2 ^ 32

-- The next step of `session_thread_call`, where `run()` serves the given number of requests. The
-- session is created and run in one step; `delete_session` closes its descriptor.
unfoldable pub advance : ℕ → Phase → Shared → Phase × Shared
advance served spawned s = (counted, record s { num_threads = increment s.num_threads })
advance served counted s = (opening s.opened_sessions_num, s)
advance served (opening n) s = (opened, record s { opened_sessions_num = increment n })
advance served opened s = (totalling s.total_sessions_num, s)
advance served (totalling n) s = (ready, record s { total_sessions_num = increment n })
advance served ready s = (ran served, s)
advance served (ran requests) s = (adding requests s.total_requests_num, s)
advance served (adding requests n) s =
    (added, record s { total_requests_num = (n + requests) % 2 ^ 32 })
advance served added s = (deleted, record s { closed = s.closed + 1 })
advance served deleted s = (discounted, record s { num_threads = decrement s.num_threads })
advance served discounted s = (closing s.opened_sessions_num, s)
advance served (closing n) s = (finished, record s { opened_sessions_num = decrement n })
advance served finished s = (finished, s)

-- `accepted` counts the descriptors that `open_communication` returned, `abandoned` those that no
-- thread was given. `listening` tells that the loop of `comm_thread_call` runs.
pub record Channel : Type 0 where
  pub shared : Shared
  pub threads : List Phase
  pub listening : Bool
  pub exit_comm : Bool
  pub accepted : ℕ
  pub abandoned : ℕ

-- a < b for ints given by their patterns.
abbrev pub lt_int : ℕ → ℕ → Bool
lt_int a b = ltb ((a + 2 ^ 31) % 2 ^ 32) ((b + 2 ^ 31) % 2 ^ 32)

-- `is_max_threads()`
unfoldable pub is_max_threads : ℕ → ℕ → Bool
is_max_threads worker_connections num_threads = lt_int worker_connections (increment num_threads)

-- The rest of a round once `open_communication` returned `comm_fd`. The descriptor of a client that
-- is refused is not closed.
unfoldable pub comm_round : ℕ → ℤ → Channel → Channel
unfolding is_max_threads
comm_round worker_connections (negsuc n) ch =
    if ch.exit_comm then record ch { listening = false } else ch
comm_round worker_connections (pos comm_fd) ch =
    if ch.exit_comm
    then record ch { listening = false; accepted = ch.accepted + 1; abandoned = ch.abandoned + 1 }
    else if is_max_threads worker_connections ch.shared.num_threads
    then record ch { accepted = ch.accepted + 1; abandoned = ch.abandoned + 1 }
    else record ch { accepted = ch.accepted + 1; threads = spawned ∷ ch.threads }

abbrev pub start_channel : Channel
start_channel = record {
  shared = record {
    num_threads = 0;
    opened_sessions_num = 0;
    total_sessions_num = 0;
    total_requests_num = 0;
    closed = 0;
  };
  threads = [];
  listening = true;
  exit_comm = false;
  accepted = 0;
  abandoned = 0;
}

-- A thread at `p` takes its next step, between other threads.
abbrev pub stepped : ℕ → List Phase → Phase → List Phase → Channel → Channel
stepped served front p back ch =
    let (p', s) = advance served p ch.shared in
    record ch { shared = s; threads = front ++ (p' ∷ back) }

-- One step of the channel, of whichever thread. `Chance` is what holds when a client is accepted.
pub data Step (worker_connections : ℕ) (Chance : Channel → Type 0) (ch ch' : Channel) : Type 0 where
  accepts :
      (comm_fd : ℤ)
      → ch.listening ≡ true
      → Chance ch
      → ch' ≡ comm_round worker_connections comm_fd ch
      → Step worker_connections Chance ch ch'
  stops :
      ch.listening ≡ true
      → ch.exit_comm ≡ true
      → ch' ≡ record ch { listening = false }
      → Step worker_connections Chance ch ch'
  exits : ch' ≡ record ch { exit_comm = true } → Step worker_connections Chance ch ch'
  advances :
      (served : ℕ) (front : List Phase) (p : Phase) (back : List Phase)
      → ch.threads ≡ front ++ (p ∷ back)
      → ch' ≡ stepped served front p back ch
      → Step worker_connections Chance ch ch'

-- The channels that are reached, with any order of the threads' steps.
pub data Reach (worker_connections : ℕ) (Chance : Channel → Type 0) : Channel → Type 0 where
  begin : Reach worker_connections Chance start_channel
  next :
      {ch ch' : Channel}
      → Reach worker_connections Chance ch
      → Step worker_connections Chance ch ch'
      → Reach worker_connections Chance ch'
