-- ===== src/Devices/Order.antt =====
-- The order in which devices are made, whatever they need, and what it says of cycles.
use koheron_server.Base.{ℕ, ◌≤◌, ◌<◌, ◌≡◌, Option, some, List, [], ◌∷◌, count, true, All}
use koheron_server.Devices.{start, Devices}

-- `d` needs `e`, itself or through others.
pub data Needs (needs : ℕ → List ℕ) : ℕ → ℕ → Type 0 where
  direct : {d e : ℕ} → 0 < count e (needs d) → Needs needs d e
  through : {d e f : ℕ} → 0 < count e (needs d) → Needs needs e f → Needs needs d f

-- In a list of the devices that were made, the last one first, each stands behind those it needs.
abbrev pub IsOrdered : (ℕ → List ℕ) → List ℕ → Type 0
IsOrdered needs [] = Unit {0}
IsOrdered needs (d ∷ ds) = All (λ e. 0 < count e ds) (needs d) × IsOrdered needs ds

-- The devices were made in order, and those that the container holds were made.
pub record IsSound (needs : ℕ → List ℕ) (s : Devices) : Type 0 where
  pub ordered : IsOrdered needs s.constructed
  pub were_made : (d : ℕ) → s.container_started d ≡ true → 0 < count d s.constructed

-- Devices are only added to those that were made.
abbrev Grows : Devices → Devices → Type 0
Grows s s' = (e : ℕ) → count e s.constructed ≤ count e s'.constructed

abbrev Keeps : (ℕ → List ℕ) → (ℕ → Devices → Option Devices) → Type 0
Keeps needs start =
    (d : ℕ) (s s' : Devices) → start d s ≡ some s' → IsSound needs s → IsSound needs s' × Grows s s'
