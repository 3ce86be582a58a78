-- ===== src/Sessions/Owners.antt =====
-- Whose session is whose, under any order of the threads' steps.
use koheron_server.Base.{
  ℕ, ◌+◌, ◌^◌, ◌<◌, ◌≡◌, ◌≢◌, refl, sym, ap, ◌∙◌, some, List, [], ◌∷◌, ◌++◌, arith, ◌==◌,
  if◌then◌else◌, true, false, All, subst, Bool-cases, inl, inr, max,
}
use koheron_server.Sessions.{
  Kind, kind_of, Pool, Manager, new_manager, lookup, create_session, is_current_id, delete_session,
}
use koheron_server.Sessions.Pool.{held, held-insert, lookup-erase}
use koheron_server.Sessions.Invariant.{
  IsValid, total, new_id-fresh, create_session_fresh, held-delete_session,
}
use koheron_server.Sessions.History as H
use koheron_server.PubSub.{Subscribers, no_subscribers, unsubscribe}
use koheron_server.Sessions.Threads.{
  Thread, starting, running, finished, System, new_system, after_create, after_subscribe, after_end,
  ThreadStep, spawns, creates, subscribes, ends, kills, deletes, Reach, begin, next,
}

-- How many threads run a session with the id.
abbrev pub serving : ℕ → List Thread → ℕ
serving i [] = 0
serving i (running sid kind fd ∷ ts) = (if sid == i then 1 else 0) + serving i ts
serving i (starting kind fd ∷ ts) = serving i ts
serving i (finished ∷ ts) = serving i ts

-- The id of a running thread is bound to its own session.
abbrev pub Bound : Pool → Thread → Type 0
Bound pool (starting kind fd) = Unit {0}
Bound pool (running sid kind fd) =
    lookup sid pool ≡ some (some (record { kind = kind_of kind; comm_fd = fd }))
Bound pool finished = Unit {0}

serving-append :
    (i : ℕ) (front back : List Thread)
    → serving i (front ++ back) ≡ serving i front + serving i back
serving-append i [] back = omega arith
serving-append i (starting kind fd ∷ ts) back = serving-append i ts back
serving-append i (running sid kind fd ∷ ts) back = omega (arith, serving-append i ts back)
serving-append i (finished ∷ ts) back = serving-append i ts back

-- A change of the pool that concerns one id only does not touch the threads without that id.
Bound-kept :
    (id : ℕ) (pool pool' : Pool) (ts : List Thread)
    → ((j : ℕ) → id ≢ j → lookup j pool' ≡ lookup j pool)
    → serving id ts ≡ 0
    → All (Bound pool) ts
    → All (Bound pool') ts
Bound-kept id pool pool' [] same z b = tt
Bound-kept id pool pool' (starting kind fd ∷ ts) same z b =
    (tt, Bound-kept id pool pool' ts same z b.1)
Bound-kept id pool pool' (running sid kind fd ∷ ts) same z b =
    (same sid (ground arith) ∙ b.0, Bound-kept id pool pool' ts same (omega arith) b.1)
Bound-kept id pool pool' (finished ∷ ts) same z b = (tt, Bound-kept id pool pool' ts same z b.1)

module _ (P : Thread → Type 0) where
  All-split :
      (front : List Thread) (t : Thread) (back : List Thread)
      → All P (front ++ (t ∷ back))
      → All P front × P t × All P back
  All-split [] t back h = (tt, h.0, h.1)
  All-split (x ∷ front) t back h = let (f, p, b) = All-split front t back h.1 in ((h.0, f), p, b)

  All-join :
      (front : List Thread) (t : Thread) (back : List Thread)
      → All P front
      → P t
      → All P back
      → All P (front ++ (t ∷ back))
  All-join [] t back f p b = (p, b)
  All-join (x ∷ front) t back f p b = (f.0, All-join front t back f.1 p b)

-- The manager without its subscribers, which no operation on the pool depends on.
abbrev pub calm : Manager → Manager
calm m = record m { subscribers = no_subscribers }

calm-create_session :
    (kind : Kind) (fd : ℕ) (m : Manager)
    → create_session kind fd (calm m)
      ≡ ((create_session kind fd m).0, calm (create_session kind fd m).1)
unfolding create_session
calm-create_session kind fd m = refl

calm-delete_session :
    (id : ℕ) (m : Manager) → delete_session id (calm m) ≡ calm (delete_session id m)
unfolding delete_session unsubscribe
calm-delete_session id m = elim (Bool-cases (is_current_id m id)) [
  | inl here ↦ rw here refl
  | inr other ↦ rw other refl
]

-- Until the server is killed, the ids of the pool are those of the running threads, each bound to
-- the session of its thread.
pub record IsOwned (s : System) : Type 0 where
  pub peak : ℕ
  pub history : H.History peak (calm s.manager)
  pub held_once : (i : ℕ) → held i s.manager.session_pool ≡ serving i s.threads
  pub bound : All (Bound s.manager.session_pool) s.threads

new_system-IsOwned : IsOwned new_system
unfolding new_system new_manager
new_system-IsOwned = record { peak = 0; history = H.start; held_once = λ i. refl; bound = tt }

held-create_session :
    (kind : Kind) (fd : ℕ) (m : Manager) (i : ℕ)
    → IsValid (calm m)
    → let (id, after) = create_session kind fd m in
      held i after.session_pool ≡ held i m.session_pool + (if id == i then 1 else 0)
unfolding create_session
held-create_session kind fd m i v = held-insert i _ _ m.session_pool (new_id-fresh (calm m) v)

lookup-delete_session :
    (id j : ℕ) (m : Manager)
    → id ≢ j
    → lookup j (delete_session id m).session_pool ≡ lookup j m.session_pool
unfolding delete_session
lookup-delete_session id j m ne = elim (Bool-cases (is_current_id m id)) [
  | inl here ↦ rw here (lookup-erase j id m.session_pool ne)
  | inr other ↦ rw other refl
]

if_ne {ℓ} : {A : Type ℓ} (i j : ℕ) (x y : A) → i ≢ j → (if i == j then x else y) ≡ y
if_ne i j x y ne = let e : (i == j) ≡ false = ground arith in rw e refl

if_self {ℓ} : {A : Type ℓ} (i : ℕ) (x y : A) → (if i == i then x else y) ≡ x
if_self i x y = let e : (i == i) ≡ true = ground arith in rw e refl

-- `create_session` binds an id that was free, whatever the subscribers.
create_session-calm :
    (kind : Kind) (fd : ℕ) (m : Manager) (i : ℕ)
    → IsValid (calm m)
    → m.num_sess + 1 < 2 ^ 32
    → let (id, m') = create_session kind fd m in
      (held id m.session_pool ≡ 0)
      × (lookup i m'.session_pool ≡ (
          if id == i
          then some (some (record { kind = kind_of kind; comm_fd = fd }))
          else lookup i m.session_pool))
unfolding create_session
create_session-calm kind fd m i v room = create_session_fresh kind fd (calm m) v room i

module _ (s : System) (owned : IsOwned s) where
  valid : IsValid (calm s.manager)
  valid = H.History-IsValid owned.history

  after_create-IsOwned :
      (kind : Kind) (fd : ℕ) (front back : List Thread)
      → s.threads ≡ front ++ (starting kind fd ∷ back)
      → total s.manager + 1 < 2 ^ 31
      → IsOwned (after_create kind fd front back s)
  after_create-IsOwned kind fd front back e room =
      let (sid, m) = create_session kind fd s.manager in
      let enough : s.manager.num_sess + 1 < 2 ^ 32 = omega arith in
      let fresh = λ (i : ℕ). create_session-calm kind fd s.manager i valid enough in
      let (f, p, b) =
        All-split (Bound s.manager.session_pool) front (starting kind fd) back
          (subst (All (Bound s.manager.session_pool)) e owned.bound) in
      let apart : serving sid front + serving sid back ≡ 0 = omega (
        arith,
        fresh sid,
        owned.held_once sid,
        ap (serving sid) e,
        serving-append sid front (starting kind fd ∷ back),
      ) in
      let same = λ (j : ℕ) (ne : sid ≢ j). (fresh j).1 ∙ if_ne sid j _ _ ne in
      record {
        peak = max owned.peak m.num_sess;
        history =
            subst (λ p. H.History (max owned.peak p.1.num_sess) p.1)
              (calm-create_session kind fd s.manager)
              (H.next owned.history (H.create kind fd room));
        held_once = λ i. omega (
          arith,
          held-create_session kind fd s.manager i valid,
          owned.held_once i,
          ap (serving i) e,
          serving-append i front (starting kind fd ∷ back),
          serving-append i front (running sid kind fd ∷ back),
        );
        bound =
            All-join (Bound m.session_pool) front (running sid kind fd) back
              (Bound-kept sid s.manager.session_pool m.session_pool front same (omega arith) f)
              ((fresh sid).1 ∙ if_self sid _ _)
              (Bound-kept sid s.manager.session_pool m.session_pool back same (omega arith) b);
      }

  after_end-IsOwned :
      (sid : ℕ) (kind : Kind) (fd : ℕ) (front back : List Thread)
      → s.threads ≡ front ++ (running sid kind fd ∷ back)
      → IsOwned (after_end sid front back s)
  after_end-IsOwned sid kind fd front back e =
      let m = delete_session sid s.manager in
      let (f, p, b) =
        All-split (Bound s.manager.session_pool) front (running sid kind fd) back
          (subst (All (Bound s.manager.session_pool)) e owned.bound) in
      let apart : serving sid front + serving sid back ≡ 0 = ground (
        arith,
        valid.ids sid,
        owned.held_once sid,
        ap (serving sid) e,
        serving-append sid front (running sid kind fd ∷ back),
      ) in
      let same = λ (j : ℕ) (ne : sid ≢ j). lookup-delete_session sid j s.manager ne in
      record {
        peak = max owned.peak m.num_sess;
        history =
            subst (λ n. H.History (max owned.peak n.num_sess) n) (calm-delete_session sid s.manager)
              (H.next owned.history (H.delete sid));
        held_once = λ i. ground (
          arith,
          held-delete_session sid s.manager i,
          owned.held_once i,
          valid.ids i,
          ap (serving i) e,
          serving-append i front (running sid kind fd ∷ back),
          serving-append i front (finished ∷ back),
        );
        bound =
            All-join (Bound m.session_pool) front finished back
              (Bound-kept sid s.manager.session_pool m.session_pool front same (omega arith) f) tt
              (Bound-kept sid s.manager.session_pool m.session_pool back same (omega arith) b);
      }

  after_subscribe-IsOwned : (subs : Subscribers) → IsOwned (after_subscribe subs s)
  after_subscribe-IsOwned subs = record {
    peak = owned.peak;
    history = owned.history;
    held_once = owned.held_once;
    bound = owned.bound;
  }

-- What holds until the main thread calls `delete_all`.
abbrev Inv : System → Type 0
Inv s = s.killed ≡ false → (s.doomed ≡ []) × IsOwned s

spawned-IsOwned :
    (s : System) (kind : Kind) (fd : ℕ)
    → IsOwned s
    → IsOwned (record s { threads = starting kind fd ∷ s.threads })
spawned-IsOwned s kind fd o = record {
  peak = o.peak;
  history = o.history;
  held_once = o.held_once;
  bound = (tt, o.bound);
}

ThreadStep-Inv : {s s' : System} → ThreadStep s s' → Inv s → Inv s'
ThreadStep-Inv {s} (spawns kind fd e) inv =
    subst Inv (sym e) (λ k. ((inv k).0, spawned-IsOwned s kind fd (inv k).1))
ThreadStep-Inv {s} (creates kind fd front back t room e) inv =
    subst Inv (sym e) (λ k. ((inv k).0, after_create-IsOwned s (inv k).1 kind fd front back t room))
ThreadStep-Inv {s} (subscribes subs sid kind fd front back t e) inv =
    subst Inv (sym e) (λ k. ((inv k).0, after_subscribe-IsOwned s (inv k).1 subs))
ThreadStep-Inv {s} (ends sid kind fd front back t e) inv =
    subst Inv (sym e) (λ k. ((inv k).0, after_end-IsOwned s (inv k).1 sid kind fd front back t))
ThreadStep-Inv (kills alive e) inv = subst Inv (sym e) (λ k. absurd (cc))
ThreadStep-Inv (deletes id ids d e) inv = subst Inv (sym e) (λ k. let f = (inv k).0 in absurd (cc))

Reach-Inv : {s : System} → Reach s → Inv s
unfolding new_system
Reach-Inv begin = λ k. (refl, new_system-IsOwned)
Reach-Inv (next r st) = ThreadStep-Inv st (Reach-Inv r)

-- Whatever the order in which the threads of all sessions take their steps, as long as ids stay
-- below 2 ^ 31 and the main thread has not called `delete_all`: the id of each running thread is
-- bound to the thread's own session, no other thread runs a session with that id, and an id stands
-- in the pool as often as threads run a session with it.
pub Reach-own_session :
    {s : System} (sid : ℕ) (kind : Kind) (fd : ℕ) (front back : List Thread)
    → Reach s
    → s.killed ≡ false
    → s.threads ≡ front ++ (running sid kind fd ∷ back)
    → (lookup sid s.manager.session_pool
        ≡ some (some (record { kind = kind_of kind; comm_fd = fd })))
      × (serving sid (front ++ back) ≡ 0)
      × ((i : ℕ) → held i s.manager.session_pool ≡ serving i s.threads)
Reach-own_session {s} sid kind fd front back r alive e =
    let owned = (Reach-Inv r alive).1 in
    let parts =
      All-split (Bound s.manager.session_pool) front (running sid kind fd) back
        (subst (All (Bound s.manager.session_pool)) e owned.bound) in
    (
      parts.1,
      ground (
        arith,
        (H.History-IsValid owned.history).ids sid,
        owned.held_once sid,
        ap (serving sid) e,
        serving-append sid front (running sid kind fd ∷ back),
        serving-append sid front back,
      ),
      owned.held_once,
    )
