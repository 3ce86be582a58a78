-- ===== src/Server.antt =====
-- core/kserver.cpp, with `KServer` of core/kserver.hpp: the construction of the server, the start
-- and the end of its listeners and the loop of `run`. The operations of core/kserver_commands.cpp
-- are in Requests.
pub mod Requests
pub mod Life
pub mod Notify
use koheron_server.Base.{
  ℕ, ◌+◌, Option, none, some, List, [], ◌∷◌, ◌++◌, ltb, if◌then◌else◌, ◌&&◌, ◌||◌, not, ℤ, pos,
  minus_one, is_neg, Bool, true, false,
}
use koheron_server.Sessions.{Kind, tcp, unix, websock, Manager, get_current_ids}
use koheron_server.Listener.{Endpoint, new_endpoint, init, start_worker, shutdown, join_worker}

pub record Listeners : Type 0 where
  pub tcp_listener : Endpoint
  pub websock_listener : Endpoint
  pub unix_listener : Endpoint

-- A value for each listener: its configured workers, or what a system call answered.
pub record Each (A : Type 0) : Type 0 where
  pub for_tcp : A
  pub for_websock : A
  pub for_unix : A

-- `KServer(config)`, from what the handler of signals and the devices return and what the creation
-- of each listening socket would return. `none` stands for `exit(EXIT_FAILURE)`.
unfoldable pub new_server : ℤ → ℤ → Each ℤ → Each ℕ → Option Listeners
new_server sig_handler dev_manager created workers =
    let (tcp_result, tcp_end) = init created.for_tcp (new_endpoint workers.for_tcp) in
    let (websock_result, websock_end) =
      init created.for_websock (new_endpoint workers.for_websock) in
    let (unix_result, unix_end) = init created.for_unix (new_endpoint workers.for_unix) in
    if is_neg sig_handler
    then none
    else if is_neg dev_manager
    then none
    else if is_neg tcp_result
    then none
    else if is_neg websock_result
    then none
    else if is_neg unix_result
    then none
    else some (record {
      tcp_listener = tcp_end;
      websock_listener = websock_end;
      unix_listener = unix_end;
    })

-- The kind of a listener, if it is so.
abbrev pub listed : Bool → Kind → List Kind
listed b kind = if b then kind ∷ [] else []

-- `start_listeners_workers()`, with the threads that it started.
unfoldable pub start_listeners_workers : Each ℤ → Listeners → ℤ × List Kind
start_listeners_workers listened l =
    let (tcp_result, tcp_started) = start_worker listened.for_tcp l.tcp_listener in
    let (websock_result, websock_started) = start_worker listened.for_websock l.websock_listener in
    let (unix_result, unix_started) = start_worker listened.for_unix l.unix_listener in
    if is_neg tcp_result
    then (minus_one, [])
    else if is_neg websock_result
    then (minus_one, listed tcp_started tcp)
    else if is_neg unix_result
    then (minus_one, listed tcp_started tcp ++ listed websock_started websock)
    else (
      pos 0,
      listed tcp_started tcp ++ (listed websock_started websock ++ listed unix_started unix),
    )

-- `join_listeners_workers()`: the threads that it waits for.
unfoldable pub join_listeners_workers : Listeners → List Kind
join_listeners_workers l =
    listed (join_worker l.tcp_listener) tcp
    ++ (listed (join_worker l.websock_listener) websock
        ++ listed (join_worker l.unix_listener) unix)

-- `close_listeners()`: the descriptors that it closes.
unfoldable pub close_listeners : Listeners → List ℤ
close_listeners l =
    shutdown l.tcp_listener ++ (shutdown l.websock_listener ++ shutdown l.unix_listener)

-- What the loop of `run` finds in a round: the flags of the listeners' threads, the signals, and
-- the manager as `delete_all` finds it when it takes the ids.
pub record Round : Type 0 where
  pub ready : Each Bool
  pub interrupted : Bool
  pub exit_all : Bool
  pub manager : Manager

-- `is_ready()`
unfoldable pub is_ready : Listeners → Each Bool → Bool
is_ready l flags =
    (if ltb 0 l.tcp_listener.worker_connections then flags.for_tcp else true)
    && ((if ltb 0 l.websock_listener.worker_connections then flags.for_websock else true)
        && (if ltb 0 l.unix_listener.worker_connections then flags.for_unix else true))

-- What `run` did: `deleted` lists the ids that `delete_all` called `delete_session` with, in order,
-- `closed` the listening descriptors it closed, `joined` the threads it waited for and `notified`
-- says how often it notified systemd. The listeners may create sessions after `delete_all` took the
-- ids; those are not among them.
pub record Ended : Type 0 where
  pub result : ℤ
  pub exit_comm : Bool
  pub deleted : List ℕ
  pub closed : List ℤ
  pub joined : List Kind
  pub notified : ℕ

-- The end of the server in a round that it is told to.
unfoldable pub kill : Listeners → ℕ → Manager → Ended
kill l notified m = record {
  result = pos 0;
  exit_comm = true;
  deleted = get_current_ids m.session_pool;
  closed = close_listeners l;
  joined = join_listeners_workers l;
  notified = notified;
}

-- The loop of `run`, over the rounds that there are; `none` if it goes on behind them.
unfoldable pub run_rounds : Bool → Listeners → List Round → Bool → ℕ → Option Ended
unfolding is_ready kill
run_rounds notify_systemd l [] ready_notified notified = none
run_rounds notify_systemd l (r ∷ rounds) ready_notified notified =
    let now = not ready_notified && is_ready l r.ready in
    let notified' = if now && notify_systemd then notified + 1 else notified in
    let rest = run_rounds notify_systemd l rounds (ready_notified || now) notified' in
    if r.interrupted || r.exit_all then some (kill l notified' r.manager) else rest

-- `run()`
unfoldable pub run_server : Bool → Each ℤ → Listeners → List Round → Option Ended
unfolding start_listeners_workers run_rounds
run_server notify_systemd listened l rounds =
    if is_neg (start_listeners_workers listened l).0
    then some (record {
      result = minus_one;
      exit_comm = false;
      deleted = [];
      closed = [];
      joined = [];
      notified = 0;
    })
    else run_rounds notify_systemd l rounds false 0
