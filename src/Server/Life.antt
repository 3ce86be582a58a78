-- ===== src/Server/Life.antt =====
-- The life of the server from its construction to the end of `run`.
use koheron_server.Base.{
  ℕ, ◌≡◌, Option, none, some, List, [], ◌∷◌, ◌++◌, ltb, if◌then◌else◌, ◌||◌, true, ℤ, is_neg, Bool,
  false,
}
use koheron_server.Sessions.{Manager}
use koheron_server.Sessions.History.{History}
use koheron_server.Server.{Listeners, Each, Round, is_ready}

-- No call of `listen` gave an error.
pub record AllListen (listened : Each ℤ) : Type 0 where
  pub tcp_listens : is_neg listened.for_tcp ≡ false
  pub websock_listens : is_neg listened.for_websock ≡ false
  pub unix_listens : is_neg listened.for_unix ≡ false

-- The descriptor of a listener that the configuration gives workers.
abbrev pub opened : ℕ → ℤ → List ℤ
opened n created = if ltb 0 n then created ∷ [] else []

abbrev pub all_opened : Each ℕ → Each ℤ → List ℤ
all_opened workers created =
    opened workers.for_tcp created.for_tcp
    ++ (opened workers.for_websock created.for_websock ++ opened workers.for_unix created.for_unix)

-- Whether the listeners are ready in a round up to the first one that stops the server.
abbrev pub any_ready : Listeners → List Round → Bool
any_ready l [] = false
any_ready l (r ∷ rounds) =
    is_ready l r.ready || (if r.interrupted || r.exit_all then false else any_ready l rounds)

-- The manager in the first round that stops the server.
abbrev pub stopped_with : List Round → Option Manager
stopped_with [] = none
stopped_with (r ∷ rounds) =
    if r.interrupted || r.exit_all then some r.manager else stopped_with rounds

abbrev pub count_of : Bool → ℕ
count_of b = if b then 1 else 0

abbrev pub is_bound {ℓ} : {A : Type ℓ} → Option A → Bool
is_bound none = false
is_bound (some x) = true
