-- ===== src/Sessions/Pool.antt =====
-- The pool as a map: how often a key stands in it and what it is bound to.
use koheron_server.Base.{
  ℕ, ◌+◌, ◌-◌, ◌<◌, ◌≤◌, ◌≡◌, ◌≢◌, refl, Option, none, some, [], ◌∷◌, ◌++◌, arith, ◌==◌,
  if◌then◌else◌, length, count, Bool-cases, inl, inr,
}
use koheron_server.Sessions.{Session, Pool, insert, erase, lookup, get_current_ids}

-- How often an id stands in the pool.
abbrev pub held : ℕ → Pool → ℕ
held i m = count i (get_current_ids m)

pub held-insert :
    (i k : ℕ) (v : Option Session) (m : Pool)
    → held k m ≡ 0
    → held i (insert k v m) ≡ held i m + (if k == i then 1 else 0)
unfolding insert
held-insert i k v [] h = ground arith
held-insert i k v ((j, w) ∷ m) h = ground (arith, held-insert i k v m)

pub held-erase : (i k : ℕ) (m : Pool) → held i (erase k m) ≡ held i m - (if k == i then 1 else 0)
unfolding erase
held-erase i k [] = ground arith
held-erase i k ((j, w) ∷ m) = ground (arith, held-erase i k m)

pub length-insert :
    (k : ℕ) (v : Option Session) (m : Pool) → held k m ≡ 0 → length (insert k v m) ≡ length m + 1
unfolding insert
length-insert k v [] h = ground arith
length-insert k v ((j, w) ∷ m) h = ground (arith, length-insert k v m)

pub length-erase : (k : ℕ) (m : Pool) → 0 < held k m → length (erase k m) + 1 ≡ length m
unfolding erase
length-erase k [] h = absurd (omega arith)
length-erase k ((j, w) ∷ m) h = ground (arith, length-erase k m)

pub lookup-insert :
    (i k : ℕ) (v : Option Session) (m : Pool)
    → held k m ≡ 0
    → lookup i (insert k v m) ≡ (if k == i then some v else lookup i m)
unfolding insert lookup
lookup-insert i k v [] h = refl
lookup-insert i k v ((j, w) ∷ m) h = ground (arith, lookup-insert i k v m, lookup-none k m)
  where
    lookup-none : (k : ℕ) (m : Pool) → held k m ≡ 0 → lookup k m ≡ none
    lookup-none k [] h = refl
    lookup-none k ((j, w) ∷ m) h = ground (arith, lookup-none k m)

pub lookup-erase : (i k : ℕ) (m : Pool) → k ≢ i → lookup i (erase k m) ≡ lookup i m
unfolding erase lookup
lookup-erase i k [] h = refl
lookup-erase i k ((j, w) ∷ m) h = ground (arith, lookup-erase i k m)

pub lookup-held : (k : ℕ) (m : Pool) → 0 < held k m → (w : Option Session) × (lookup k m ≡ some w)
unfolding lookup
lookup-held k [] h = absurd (omega arith)
lookup-held k ((j, w) ∷ m) h = elim (Bool-cases (j == k)) [
  | inl here ↦ (w, rw here)
  | inr other ↦ let (v, e) = lookup-held k m (ground arith) in (v, rw other e)
]

pub held-append : (i : ℕ) (m n : Pool) → held i (m ++ n) ≡ held i m + held i n
held-append i [] n = omega arith
held-append i ((j, w) ∷ m) n = ground (arith, held-append i m n)

pub lookup-append :
    (k : ℕ) (w : Option Session) (front back : Pool)
    → held k (front ++ ((k, w) ∷ back)) ≤ 1
    → lookup k (front ++ ((k, w) ∷ back)) ≡ some w
unfolding lookup
lookup-append k w [] back h = ground arith
lookup-append k w ((j, v) ∷ front) back h =
    ground (arith, lookup-append k w front back, held-append k front ((k, w) ∷ back))
