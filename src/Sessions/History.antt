-- ===== src/Sessions/History.antt =====
-- The session manager over any history of operations, and the deletion of all sessions.
use koheron_server.Base.{
  ℕ, ◌+◌, ◌-◌, ◌%◌, ◌^◌, ◌≤◌, ◌<◌, ◌≡◌, refl, ap, ◌∙◌, Option, some, List, [], ◌∷◌, arith, length,
  count, Bool-cases, inl, inr, max,
}
use koheron_server.PubSub.{channel, subscribe}
use koheron_server.PubSub.Counts.{subscribe-count, length-subscribe}
use koheron_server.Sessions.{
  Kind, Session, Pool, Manager, new_manager, lookup, get_current_ids, is_current_id, create_session,
  choose_id, delete_session, delete_each, delete_all,
}
use koheron_server.Sessions.Pool.{held, lookup-held, length-erase}
use koheron_server.Sessions.Invariant.{
  IsValid, total, new_manager-IsValid, create_session-IsValid, delete_session-IsValid,
  held-delete_session, is_current_id-held,
}

-- One operation on the manager. Only a session of the pool subscribes, since a session subscribes
-- by a command of its own. An int holds every id that is given out.
pub data Step (m : Manager) : Manager → Type 0 where
  create : (kind : Kind) (fd : ℕ) → total m + 1 < 2 ^ 31 → Step m (create_session kind fd m).1
  delete : (id : ℕ) → Step m (delete_session id m)
  subscribes :
      (c sid : ℕ)
      → 0 < held sid m.session_pool
      → Step m (record m { subscribers = (subscribe c sid m.subscribers).1 })

-- The histories that lead to a manager, with the largest number of sessions open at once.
pub data History : ℕ → Manager → Type 0 where
  start : History 0 new_manager
  next :
      {peak : ℕ} {m m' : Manager} → History peak m → Step m m' → History (max peak m'.num_sess) m'

subscribe-IsValid :
    (m : Manager) (k sid : ℕ)
    → IsValid m
    → 0 < held sid m.session_pool
    → IsValid (record m { subscribers = (subscribe k sid m.subscribers).1 })
subscribe-IsValid m k sid v h = record {
  ids = v.ids;
  size = v.size;
  channels = omega (arith, v.channels, length-subscribe k sid m.subscribers);
  subscribed = λ c i. ground (
    arith,
    v.subscribed c i,
    v.subscribed c sid,
    v.channels,
    subscribe-count i sid c k m.subscribers,
  );
}

Step-IsValid : {m m' : Manager} → IsValid m → m.num_sess < 2 ^ 31 → Step m m' → IsValid m'
Step-IsValid v r (create kind fd h) = create_session-IsValid kind fd _ v (omega arith)
Step-IsValid v r (delete id) = delete_session-IsValid id _ v (omega arith)
Step-IsValid v r (subscribes c sid h) = subscribe-IsValid _ c sid v h

create-num_sess :
    (kind : Kind) (fd : ℕ) (m : Manager)
    → m.num_sess + 1 < 2 ^ 32
    → (create_session kind fd m).1.num_sess ≡ m.num_sess + 1
unfolding create_session
create-num_sess kind fd m h = omega arith

create-total :
    (kind : Kind) (fd : ℕ) (m : Manager)
    → IsValid m
    → total m + 1 < 2 ^ 31
    → total (create_session kind fd m).1 ≡ max (total m) (create_session kind fd m).1.num_sess
unfolding create_session
create-total kind fd m v h = go m.reusable_ids refl
  where
    go :
        (r : List ℕ)
        → m.reusable_ids ≡ r
        → (m.num_sess + 1) % 2 ^ 32 + length (choose_id r m.num_sess).1
          ≡ max (total m) ((m.num_sess + 1) % 2 ^ 32)
    go [] e = omega (arith, ap length e)
    go (x ∷ r) e = omega (arith, ap length e)

delete-total :
    (id : ℕ) (m : Manager)
    → IsValid m
    → m.num_sess < 2 ^ 31
    → (total (delete_session id m) ≡ total m) × ((delete_session id m).num_sess ≤ m.num_sess)
unfolding delete_session
delete-total id m v h = elim (Bool-cases (is_current_id m id)) [
  | inr other ↦ rw other (refl, omega arith)
  | inl here ↦
      let there : 0 < held id m.session_pool = ground (arith, is_current_id-held m id) in
      let fewer = length-erase id m.session_pool there in
      rw here (omega (arith, fewer, v.size), omega (arith, fewer, v.size))
]

Step-total :
    {m m' : Manager}
    → IsValid m
    → total m < 2 ^ 31
    → Step m m'
    → (total m' ≡ max (total m) m'.num_sess) × (total m' < 2 ^ 31)
Step-total {m} v r (create kind fd h) = let e = create-total kind fd m v h in (e, create_below)
  where
    create_below : total (create_session kind fd m).1 < 2 ^ 31
    create_below =
        omega (arith, create-total kind fd m v h, create-num_sess kind fd m (omega arith))
Step-total {m} v r (delete id) =
    let d = delete-total id m v (omega arith) in (omega (arith, d), omega (arith, d))
Step-total v r (subscribes c sid h) = (omega arith, r)

History-facts :
    {peak : ℕ} {m : Manager} → History peak m → IsValid m × (total m ≡ peak) × (total m < 2 ^ 31)
unfolding new_manager
History-facts start = (new_manager-IsValid, refl, omega arith)
History-facts (next {m' = m'} h st) =
    let (v, p, r) = History-facts h in
    let (t, b) = Step-total v r st in
    (Step-IsValid v (omega arith) st, t ∙ ap (λ (k : ℕ). max k m'.num_sess) p, b)

-- After any history of creations, deletions and subscriptions of sessions, in which ids stay below
-- 2 ^ 31, the invariant holds: the ids in use and the reusable ids are the numbers below their
-- count, each once, the counter is the size of the pool, and only sessions of the pool are
-- subscribed, each at most once a channel.
pub History-IsValid : {peak : ℕ} {m : Manager} → History peak m → IsValid m
History-IsValid h = (History-facts h).0

-- Ids are reused so well that after any such history every id in use is below the largest number
-- of sessions that were open at once.
pub History-id_lt :
    {peak : ℕ} {m : Manager} (id : ℕ) → History peak m → 0 < held id m.session_pool → id < peak
History-id_lt id h u = let (v, p, r) = History-facts h in ground (arith, v.ids id, p)

-- After any such history every subscriber of every channel has a session, so `get_session` does
-- not throw in `emit`.
pub History-subscriber :
    {peak : ℕ} {m : Manager} (c sid : ℕ)
    → History peak m
    → 0 < count sid (channel c m.subscribers)
    → (w : Option Session) × (lookup sid m.session_pool ≡ some w)
History-subscriber {m = m} c sid h u =
    lookup-held sid m.session_pool (omega (arith, (History-IsValid h).subscribed c sid))

empty_of_held : (m : Pool) → ((i : ℕ) → held i m ≡ 0) → m ≡ []
empty_of_held [] h = refl
empty_of_held ((k, w) ∷ m) h = absurd (ground (arith, h k))

held-delete_each :
    (ids : List ℕ) (m : Manager) (i : ℕ)
    → held i (delete_each ids m).session_pool ≡ held i m.session_pool - count i ids
unfolding delete_each
held-delete_each [] m i = omega arith
held-delete_each (id ∷ ids) m i =
    ground (arith, held-delete_each ids (delete_session id m) i, held-delete_session id m i)

History-delete_each :
    (ids : List ℕ) (m : Manager) (peak : ℕ)
    → History peak m
    → (p : ℕ) × History p (delete_each ids m)
unfolding delete_each
History-delete_each [] m peak h = (peak, h)
History-delete_each (id ∷ ids) m peak h =
    History-delete_each ids (delete_session id m) _ (next h (delete id))

-- `delete_all` leaves no session, whatever such a history was: the pool is empty, the counter is 0
-- (the assertion at its end) and no channel has a subscriber.
pub delete_all-empty :
    {peak : ℕ} {m : Manager} (c i : ℕ)
    → History peak m
    → ((delete_all m).session_pool ≡ [])
      × ((delete_all m).num_sess ≡ 0)
      × (count i (channel c (delete_all m).subscribers) ≡ 0)
unfolding delete_all
delete_all-empty {m = m} c i h =
    let ids = get_current_ids m.session_pool in
    let (p, after) = History-delete_each ids m _ h in
    let v = History-IsValid after in
    let none_held = λ (j : ℕ). held-delete_each ids m j in
    let empty = empty_of_held (delete_each ids m).session_pool (λ j. omega (arith, none_held j)) in
    (empty, v.size ∙ ap length empty, omega (arith, v.subscribed c i, none_held i))
