-- ===== src/Sessions/Invariant.antt =====
-- What holds between two operations: the ids of the pool and the reusable ids are the numbers below
-- their count, each once, and only sessions of the pool are subscribed.
use koheron_server.Base.{
  ℕ, zero, suc, ◌+◌, ◌-◌, ◌%◌, ◌^◌, ◌≤◌, ◌<◌, ◌≡◌, refl, Option, some, List, [], ◌∷◌, arith, ltb,
  ◌==◌, if◌then◌else◌, length, count, Bool-cases, inl, inr,
}
use koheron_server.PubSub.{channels_count, channel, no_subscribers}
use koheron_server.PubSub.Counts.{contains-count, count-unsubscribe, length-unsubscribe}
use koheron_server.Sessions.{
  Kind, kind_of, Session, Manager, new_manager, insert, lookup, get_current_ids, is_current_id,
  choose_id, create_session, delete_session,
}
use koheron_server.Sessions.Pool.{
  held, held-insert, held-erase, length-insert, length-erase, lookup-insert,
}

-- The ids that were ever given out.
abbrev pub total : Manager → ℕ
total m = m.num_sess + length m.reusable_ids

pub record IsValid (m : Manager) : Type 0 where
  pub ids :
      (i : ℕ) → held i m.session_pool + count i m.reusable_ids ≡ (if ltb i (total m) then 1 else 0)
  pub size : m.num_sess ≡ length m.session_pool
  pub channels : length m.subscribers ≡ channels_count
  pub subscribed : (c i : ℕ) → count i (channel c m.subscribers) ≤ held i m.session_pool

pub new_manager-IsValid : IsValid new_manager
unfolding new_manager
new_manager-IsValid = record {
  ids = λ i. ground arith;
  size = refl;
  channels = refl;
  subscribed = λ c i. none_subscribed c i;
}
  where
    none_subscribed : (c i : ℕ) → count i (channel c no_subscribers) ≤ 0
    none_subscribed zero i = omega arith
    none_subscribed (suc zero) i = omega arith
    none_subscribed (suc (suc zero)) i = omega arith
    none_subscribed (suc (suc (suc c))) i = omega arith

-- The id that is chosen is not in the pool.
pub new_id-fresh :
    (m : Manager) → IsValid m → held (choose_id m.reusable_ids m.num_sess).0 m.session_pool ≡ 0
new_id-fresh m v = fresh m.reusable_ids refl
  where
    fresh : (r : List ℕ) → m.reusable_ids ≡ r → held (choose_id r m.num_sess).0 m.session_pool ≡ 0
    fresh [] e = ground (arith, v.ids m.num_sess, e)
    fresh (x ∷ r) e = ground (arith, v.ids x, e)

module _ (kind : Kind) (fd : ℕ) (m : Manager) (v : IsValid m) (room : m.num_sess + 1 < 2 ^ 32) where
  added-ids :
      (id : ℕ) (ids r : List ℕ) (i : ℕ)
      → m.reusable_ids ≡ r
      → choose_id r m.num_sess ≡ (id, ids)
      → held id m.session_pool ≡ 0
      → held i (insert id (some (record { kind = kind_of kind; comm_fd = fd })) m.session_pool)
          + count i ids
        ≡ (if ltb i ((m.num_sess + 1) % 2 ^ 32 + length ids) then 1 else 0)
  added-ids id ids [] i e c h = ground (
    arith,
    v.ids i,
    e,
    held-insert i id (some (record { kind = kind_of kind; comm_fd = fd })) m.session_pool h,
  )
  added-ids id ids (x ∷ r) i e c h = ground (
    arith,
    v.ids i,
    e,
    held-insert i id (some (record { kind = kind_of kind; comm_fd = fd })) m.session_pool h,
  )

  -- `create_session` keeps the invariant while the counter of sessions does not wrap.
  pub create_session-IsValid : IsValid (create_session kind fd m).1
  unfolding create_session
  create_session-IsValid = record {
    ids = λ i.
        added-ids (choose_id m.reusable_ids m.num_sess).0 (choose_id m.reusable_ids m.num_sess).1
          m.reusable_ids i refl refl fresh;
    size = omega (arith, v.size, length-insert id w m.session_pool fresh);
    channels = v.channels;
    subscribed = λ c i. omega (arith, v.subscribed c i, held-insert i id w m.session_pool fresh);
  }
    where
      id : ℕ
      id = (choose_id m.reusable_ids m.num_sess).0

      w : Option Session
      w = some (record { kind = kind_of kind; comm_fd = fd })

      fresh : held id m.session_pool ≡ 0
      fresh = new_id-fresh m v

  -- Where the invariant holds and the counter does not wrap, the id that `create_session` returns
  -- was not in use; it is bound to the new session afterwards, and every other id to what it was
  -- bound to before.
  pub create_session_fresh :
      (i : ℕ)
      → let (id, after) = create_session kind fd m in
        (held id m.session_pool ≡ 0)
        × (lookup i after.session_pool ≡ (
            if id == i
            then some (some (record { kind = kind_of kind; comm_fd = fd }))
            else lookup i m.session_pool))
  unfolding create_session
  create_session_fresh i = (new_id-fresh m v, lookup-insert i _ _ m.session_pool (new_id-fresh m v))

pub is_current_id-held :
    (m : Manager) (id : ℕ) → is_current_id m id ≡ ltb 0 (held id m.session_pool)
is_current_id-held m id = contains-count id (get_current_ids m.session_pool)

module _ (id : ℕ) (m : Manager) where
  -- After `delete_session(id)` the id is not in the pool, and every other id as before.
  pub held-delete_session :
      (i : ℕ)
      → held i (delete_session id m).session_pool
        ≡ held i m.session_pool - (if id == i then 1 else 0)
  unfolding delete_session
  held-delete_session i = ground (arith, is_current_id-held m id, held-erase i id m.session_pool)

  module _ (v : IsValid m) where
    -- `delete_session` keeps the invariant, whether or not the id is in use.
    pub delete_session-IsValid : m.num_sess < 2 ^ 32 → IsValid (delete_session id m)
    unfolding delete_session
    delete_session-IsValid r = elim (Bool-cases (is_current_id m id)) [
      | inr other ↦ rw other v
      | inl here ↦
          let there : 0 < held id m.session_pool = ground (arith, is_current_id-held m id) in
          let fewer = length-erase id m.session_pool there in
          let down : (m.num_sess + 2 ^ 32 - 1) % 2 ^ 32 ≡ m.num_sess - 1 =
            omega (arith, fewer, v.size) in
          rw (here, down)
            (record {
              ids = λ i.
                  ground (arith, v.ids i, v.ids id, fewer, v.size, held-erase i id m.session_pool);
              size = omega (arith, fewer, v.size);
              channels = omega (arith, v.channels, length-unsubscribe id m.subscribers);
              subscribed = λ c i. omega (
                arith,
                v.subscribed c i,
                held-erase i id m.session_pool,
                count-unsubscribe i id c m.subscribers,
              );
            })
    ]

    -- Where the invariant holds and the counter is below 2 ^ 32, a deleted session is subscribed
    -- to no channel.
    pub delete_session-unsubscribed :
        (c : ℕ) → m.num_sess < 2 ^ 32 → count id (channel c (delete_session id m).subscribers) ≡ 0
    delete_session-unsubscribed c r =
        ground (arith, (delete_session-IsValid r).subscribed c id, held-delete_session id, v.ids id)
