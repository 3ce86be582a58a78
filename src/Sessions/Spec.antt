-- ===== src/Sessions/Spec.antt =====
-- What the session manager promises, with no pool, no reusable ids and no order of subscribers: a
-- map from ids to sessions and, for each channel, a set of ids.
use mathlib.Core.Path.{fun_ext}
use koheron_server.Base.{
  ℕ, ◌+◌, ◌^◌, ◌≤◌, ◌<◌, ◌≡◌, ◌≢◌, refl, Option, none, some, [], ◌∷◌, arith, ltb, ◌==◌,
  if◌then◌else◌, Bool, false, ◌||◌, ◌&&◌, count, Bool-cases, inl, inr,
}
use koheron_server.PubSub.{channels_count, channel, subscribe}
use koheron_server.PubSub.Counts.{count-unsubscribe, subscribe-count}
use koheron_server.Sessions.{
  Kind, tcp, unix, websock, kind_of, Session, Pool, Manager, new_manager, lookup, erase,
  create_session, delete_session, is_current_id,
}
use koheron_server.Sessions.Pool.{held, lookup-erase}
use koheron_server.Sessions.Invariant.{IsValid, create_session_fresh, is_current_id-held}
use koheron_server.Sessions.History.{
  Step, create, delete, subscribes, History, start, next, History-IsValid,
}

pub record Spec : Type 0 where
  pub session : ℕ → Option (Option Session)
  pub subscribed : ℕ → ℕ → Bool

-- No session and no subscription.
abbrev pub nothing : Spec
nothing = record { session = λ i. none; subscribed = λ c i. false }

-- A session with an id that was free.
abbrev pub opened : ℕ → Session → Spec → Spec
opened id s a = record a { session = λ i. if id == i then some (some s) else a.session i }

-- A session ends, with its subscriptions.
abbrev pub closed : ℕ → Spec → Spec
closed id a = record {
  session = λ i. if id == i then none else a.session i;
  subscribed = λ c i. if id == i then false else a.subscribed c i;
}

abbrev pub subscribed_to : ℕ → ℕ → Spec → Spec
subscribed_to k id a = record a { subscribed = λ c i. (k == c && id == i) || a.subscribed c i }

-- What a client of the manager asks for: a session of a kind on a descriptor, for which it gets an
-- id, the end of a session, or a subscription to a channel.
pub data Operation : Type 0 where
  opens : ℕ → Kind → ℕ → Operation
  closes : ℕ → Operation
  subscribes_to : ℕ → ℕ → Operation

-- Just what each operation does. A subscription to a channel that is none changes nothing.
abbrev pub SpecStep : Operation → Spec → Spec → Type 0
SpecStep (opens id kind fd) a b =
    (a.session id ≡ none) × (b ≡ opened id (record { kind = kind_of kind; comm_fd = fd }) a)
SpecStep (closes id) a b = b ≡ closed id a
SpecStep (subscribes_to k id) a b = b ≡ (if ltb k channels_count then subscribed_to k id a else a)

-- What a step of the manager was asked for, with the id that `create_session` returned.
abbrev pub operation_of : {m m' : Manager} → Step m m' → Operation
operation_of {m} (create kind fd below) = opens (create_session kind fd m).0 kind fd
operation_of (delete id) = closes id
operation_of (subscribes c id held_id) = subscribes_to c id

-- What a manager stands for.
abbrev pub view : Manager → Spec
view m = record {
  session = λ i. lookup i m.session_pool;
  subscribed = λ c i. ltb 0 (count i (channel c m.subscribers));
}

-- A manager with another pool and other subscribers stands for a state that agrees everywhere.
spec_ext :
    (a b : Spec)
    → ((i : ℕ) → a.session i ≡ b.session i)
    → ((c i : ℕ) → a.subscribed c i ≡ b.subscribed c i)
    → a ≡ b
spec_ext a b h k =
    λ j. record { session = fun_ext h j; subscribed = fun_ext (λ c. fun_ext (k c)) j }

pub lookup-free : (k : ℕ) (m : Pool) → held k m ≡ 0 → lookup k m ≡ none
unfolding lookup
lookup-free k [] h = refl
lookup-free k ((j, w) ∷ m) h = ground (arith, lookup-free k m)

lookup-erase_self : (k : ℕ) (m : Pool) → held k m ≤ 1 → lookup k (erase k m) ≡ none
unfolding lookup erase
lookup-erase_self k [] h = refl
lookup-erase_self k ((j, w) ∷ m) h = ground (arith, lookup-free k m, lookup-erase_self k m)

delete-session :
    (id : ℕ) (m : Manager)
    → IsValid m
    → (i : ℕ)
    → lookup i (delete_session id m).session_pool
      ≡ (if id == i then none else lookup i m.session_pool)
unfolding delete_session
delete-session id m v i = elim (Bool-cases (is_current_id m id)) [
  | inl here ↦ rw here (
      ground
        (arith, v.ids id, lookup-erase_self id m.session_pool, lookup-erase i id m.session_pool))
  | inr other ↦ rw other (ground (arith, is_current_id-held m id, lookup-free id m.session_pool))
]

delete-subscribed :
    (id : ℕ) (m : Manager)
    → IsValid m
    → (c i : ℕ)
    → ltb 0 (count i (channel c (delete_session id m).subscribers))
      ≡ (if id == i then false else ltb 0 (count i (channel c m.subscribers)))
unfolding delete_session
delete-subscribed id m v c i = elim (Bool-cases (is_current_id m id)) [
  | inl here ↦
      rw here (ground (arith, count-unsubscribe i id c m.subscribers, v.subscribed c id, v.ids id))
  | inr other ↦ rw other (ground (arith, is_current_id-held m id, v.subscribed c id))
]

view-create :
    (kind : Kind) (fd : ℕ) (m : Manager)
    → IsValid m
    → m.num_sess + 1 < 2 ^ 32
    → SpecStep
        (opens (create_session kind fd m).0 kind fd)
        (view m)
        (view (create_session kind fd m).1)
view-create kind fd m v room =
    let id = (create_session kind fd m).0 in
    let s : Session = record { kind = kind_of kind; comm_fd = fd } in
    (
      lookup-free id m.session_pool (create_session_fresh kind fd m v room 0).0,
      spec_ext (view (create_session kind fd m).1) (opened id s (view m))
          (λ i. (create_session_fresh kind fd m v room i).1) (λ c i. unfold create_session in refl),
    )

view-delete :
    (id : ℕ) (m : Manager) → IsValid m → SpecStep (closes id) (view m) (view (delete_session id m))
view-delete id m v =
    spec_ext (view (delete_session id m)) (closed id (view m)) (delete-session id m v)
      (delete-subscribed id m v)

view-subscribe :
    (k id : ℕ) (m : Manager)
    → IsValid m
    → SpecStep
        (subscribes_to k id)
        (view m)
        (view (record m { subscribers = (subscribe k id m.subscribers).1 }))
view-subscribe k id m v = elim (Bool-cases (ltb k channels_count)) [
  | inl valid ↦ rw valid (
      spec_ext (view (record m { subscribers = (subscribe k id m.subscribers).1 }))
        (subscribed_to k id (view m)) (λ i. refl)
        (λ c i. ground (arith, (subscribe-count i id c k m.subscribers v.channels).1)))
  | inr none_such ↦ rw none_such (
      spec_ext (view (record m { subscribers = (subscribe k id m.subscribers).1 })) (view m)
        (λ i. refl) (λ c i. ground (arith, (subscribe-count i id c k m.subscribers v.channels).1)))
]

-- Whatever the history of a manager, every operation on it does to what the manager stands for just
-- what the specification says of that operation: `create_session` binds the id that it returns,
-- which was free, to a session of the kind and descriptor asked for, `delete_session` ends just the
-- session with the given id and its subscriptions, and a subscription adds just the pair of the
-- channel and the id, or nothing if there is no such channel.
pub Step-SpecStep :
    {peak : ℕ} {m m' : Manager}
    → History peak m
    → (st : Step m m') → SpecStep (operation_of st) (view m) (view m')
Step-SpecStep h (create kind fd below) = view-create kind fd _ (History-IsValid h) (omega arith)
Step-SpecStep h (delete id) = view-delete id _ (History-IsValid h)
Step-SpecStep h (subscribes c id held_id) = view-subscribe c id _ (History-IsValid h)

Step-none_null :
    {peak : ℕ} {m m' : Manager} (i : ℕ)
    → History peak m
    → Step m m'
    → lookup i m.session_pool ≢ some none
    → lookup i m'.session_pool ≢ some none
Step-none_null {m = m} i h (create kind fd below) made e =
    ground (arith, (create_session_fresh kind fd m (History-IsValid h) (omega arith) i).1)
Step-none_null {m = m} i h (delete id) made e =
    ground (arith, delete-session id m (History-IsValid h) i)
Step-none_null i h (subscribes c id held_id) made e = made e

-- No session of the pool is a null pointer, whatever the history of its manager.
pub History-none_null :
    {peak : ℕ} {m : Manager} (i : ℕ) → History peak m → lookup i m.session_pool ≢ some none
History-none_null i start e = unfold new_manager lookup in ground (arith, e)
History-none_null i (next h st) e = Step-none_null i h st (History-none_null i h) e

kind_of-ne-unix : (kind : Kind) → kind_of kind ≢ unix
kind_of-ne-unix tcp = λ e. cc
kind_of-ne-unix unix = λ e. cc
kind_of-ne-unix websock = λ e. cc

Step-no_unix :
    {peak : ℕ} {m m' : Manager} (i : ℕ)
    → History peak m
    → Step m m'
    → ((s : Session) → lookup i m.session_pool ≡ some (some s) → s.kind ≢ unix)
    → (s : Session) → lookup i m'.session_pool ≡ some (some s)
    → s.kind ≢ unix
Step-no_unix {m = m} i h (create kind fd below) known s e u = ground (
  arith,
  (create_session_fresh kind fd m (History-IsValid h) (omega arith) i).1,
  known s,
  kind_of-ne-unix kind,
)
Step-no_unix {m = m} i h (delete id) known s e u =
    ground (arith, delete-session id m (History-IsValid h) i, known s)
Step-no_unix i h (subscribes c id held_id) known s e u = known s e u

-- No session of the pool has the kind UNIX, whatever the history of its manager and whichever
-- channels the sessions came from, so the case UNIX of a `switch` on `kind` is never taken.
pub History-no_unix :
    {peak : ℕ} {m : Manager} (i : ℕ) (s : Session)
    → History peak m
    → lookup i m.session_pool ≡ some (some s)
    → s.kind ≢ unix
History-no_unix i s start e u = unfold new_manager lookup in ground (arith, e)
History-no_unix i s (next h st) e u = Step-no_unix i h st (λ s e. History-no_unix i s h e) s e u
