-- ===== src/Devices/Start.antt =====
-- Devices whose needs have no cycle are started once and in order.
use koheron_server.Base.{
  subst, ◌+◌, ◌-◌, zero, ℕ, zero, suc, ◌≤◌, ◌<◌, ◌≡◌, refl, sym, ap, ◌∙◌, Option, none, some, List,
  [], ◌∷◌, arith, leb, ◌==◌, if◌then◌else◌, count, ◌>>=◌, ℤ, pos, Bool, true, false, Bool-cases,
  inl, inr, All,
}
use koheron_server.Devices.{
  Flags, set_flag, index_range, select, start, execute_dev, Devices, get, get_each, made, alloc,
  after_alloc, alloc_device, execute,
}

-- Between two calls: the two records of started devices agree, each started device was made once,
-- and no other, and what a started device needs is started.
pub record IsConsistent (needs : ℕ → List ℕ) (s : Devices) : Type 0 where
  pub agree : (d : ℕ) → s.is_started d ≡ s.container_started d
  pub once : (d : ℕ) → count d s.constructed ≡ (if s.container_started d then 1 else 0)
  pub closed : (d : ℕ) → s.is_started d ≡ true → All (λ e. s.is_started e ≡ true) (needs d)

-- The recursion over the devices comes to the one with the given number.
select-dev {ℓ} :
    {A : Type ℓ} (act : ℕ → A) (first n dev : ℕ)
    → first ≤ dev
    → dev ≤ first + n
    → select act first (index_range (suc first) n) dev ≡ act dev
select-dev act first zero dev h k = ap act (omega arith)
select-dev act first (suc n) dev h k = elim (Bool-cases (dev == first)) [
  | inl same ↦ let e : dev ≡ first = ground arith in rw same (ap act (sym e))
  | inr other ↦ rw other (select-dev act (suc first) n dev (ground arith) (omega arith))
]

start-dev {ℓ} :
    {A : Type ℓ} (device_num : ℕ) (alloc : ℕ → A) (dev : ℕ)
    → 2 ≤ dev
    → dev < device_num
    → start device_num alloc dev ≡ alloc dev
unfolding start
start-dev device_num alloc dev h k = select-dev alloc 2 (device_num - 3) dev h (omega arith)

execute_dev-dev {ℓ} :
    {A : Type ℓ} (device_num : ℕ) (run : ℕ → A) (dev : ℕ)
    → 2 ≤ dev
    → dev < device_num
    → execute_dev device_num run dev ≡ run dev
unfolding execute_dev
execute_dev-dev device_num run dev h k = select-dev run 2 (device_num - 3) dev h (omega arith)

-- What starting devices leaves: started devices stay so, and nothing else changes.
pub record Extends (needs : ℕ → List ℕ) (s s' : Devices) : Type 0 where
  pub consistent : IsConsistent needs s'
  pub kept : (d : ℕ) → s.is_started d ≡ true → s'.is_started d ≡ true
  pub starting : (d : ℕ) → s'.is_starting d ≡ s.is_starting d
  pub busy : (d : ℕ) → s.is_starting d ≡ true → s'.is_started d ≡ s.is_started d
  pub exit_all : s'.exit_all ≡ s.exit_all

-- The devices that a device needs have a lower rank.
abbrev pub AreRanked : (ℕ → List ℕ) → (ℕ → ℕ) → Type 0
AreRanked needs rank = (d : ℕ) → All (λ e. rank e < rank d) (needs d)

-- Devices below a rank start, unless one that they may need is starting.
abbrev Starts : (ℕ → List ℕ) → (ℕ → ℕ) → (ℕ → Devices → Option Devices) → ℕ → Type 0
Starts needs rank start r =
    (d : ℕ) (s : Devices)
    → rank d < r
    → IsConsistent needs s
    → ((e : ℕ) → rank e ≤ rank d → s.is_starting e ≡ false)
    → (s' : Devices) × (start d s ≡ some s') × (s'.is_started d ≡ true) × Extends needs s s'

if-true {ℓ} : {A : Type ℓ} (b : Bool) (x y : A) → b ≡ true → (if b then x else y) ≡ x
if-true true x y h = refl
if-true false x y h = ground arith

if-false {ℓ} : {A : Type ℓ} (b : Bool) (x y : A) → b ≡ false → (if b then x else y) ≡ y
if-false false x y h = refl
if-false true x y h = ground arith

Extends-refl : {needs : ℕ → List ℕ} (s : Devices) → IsConsistent needs s → Extends needs s s
Extends-refl s c = record {
  consistent = c;
  kept = λ d h. h;
  starting = λ d. refl;
  busy = λ d h. refl;
  exit_all = refl;
}

Extends-trans :
    {needs : ℕ → List ℕ} (s s' s'' : Devices)
    → Extends needs s s'
    → Extends needs s' s''
    → Extends needs s s''
Extends-trans s s' s'' a b = record {
  consistent = b.consistent;
  kept = λ d h. b.kept d (a.kept d h);
  starting = λ d. b.starting d ∙ a.starting d;
  busy = λ d h. b.busy d (a.starting d ∙ h) ∙ a.busy d h;
  exit_all = b.exit_all ∙ a.exit_all;
}

-- The reference that `get` returns is to an object once the device is started.
referenced :
    (d : ℕ) (m : Option Devices) (s' : Devices)
    → m ≡ some s'
    → s'.container_started d ≡ true
    → (m >>= λ s. if s.container_started d then some s else none) ≡ some s'
referenced d m s' e k = rw e (if-true (s'.container_started d) (some s') none k)

get-Extends :
    {needs : ℕ → List ℕ} (rank : ℕ → ℕ) (start : ℕ → Devices → Option Devices) (r d : ℕ)
    (s : Devices)
    → Starts needs rank start r
    → rank d < r
    → IsConsistent needs s
    → ((e : ℕ) → rank e < r → s.is_starting e ≡ false)
    → (s' : Devices) × (get start d s ≡ some s') × (s'.is_started d ≡ true) × Extends needs s s'
get-Extends rank start r d s starts h c idle = elim (Bool-cases (s.is_started d)) [
  | inl e ↦ (
    s,
    referenced d (if s.is_started d then some s else start d s) s
        (if-true (s.is_started d) (some s) (start d s) e) (sym (c.agree d) ∙ e),
    e,
    Extends-refl s c,
  )
  | inr e ↦
      let (s', run, on, ext) = starts d s h c (λ e' h'. idle e' (omega arith)) in
      (
        s',
        referenced d (if s.is_started d then some s else start d s) s'
            (if-false (s.is_started d) (some s) (start d s) e ∙ run)
            (sym (ext.consistent.agree d) ∙ on),
        on,
        ext,
      )
]

get_each-Extends :
    {needs : ℕ → List ℕ} (rank : ℕ → ℕ) (start : ℕ → Devices → Option Devices) (r : ℕ) (ds : List ℕ)
    (s : Devices)
    → Starts needs rank start r
    → All (λ e. rank e < r) ds
    → IsConsistent needs s
    → ((e : ℕ) → rank e < r → s.is_starting e ≡ false)
    → (s' : Devices) × (get_each start ds s ≡ some s')
      × All (λ e. s'.is_started e ≡ true) ds
      × Extends needs s s'
get_each-Extends rank start r [] s starts below c idle = (s, refl, tt, Extends-refl s c)
get_each-Extends rank start r (d ∷ ds) s starts below c idle =
    let (s₁, run, on, ext) = get-Extends rank start r d s starts below.0 c idle in
    let (s₂, run', ons, ext') =
      get_each-Extends rank start r ds s₁ starts below.1 ext.consistent
        (λ e h. ext.starting e ∙ idle e h) in
    (s₂, rw run run', (ext'.kept d on, ons), Extends-trans s s₁ s₂ ext ext')

-- The state in which the constructor of a device runs.
abbrev entered : ℕ → Devices → Devices
entered d s = record s { is_starting = set_flag d true s.is_starting }

abbrev left : ℕ → Devices → Devices
left d s = record (made d s) { is_started = set_flag d true s.is_started }

set_flag-All :
    (d : ℕ) (flags : Flags) (ds : List ℕ)
    → All (λ e. flags e ≡ true) ds
    → All (λ e. set_flag d true flags e ≡ true) ds
set_flag-All d flags [] h = tt
set_flag-All d flags (x ∷ ds) h = (ground (arith, h.0), set_flag-All d flags ds h.1)

made-Extends :
    {needs : ℕ → List ℕ} (d : ℕ) (s s₂ : Devices)
    → s.is_started d ≡ false
    → s.is_starting d ≡ false
    → All (λ e. s₂.is_started e ≡ true) (needs d)
    → Extends needs (entered d s) s₂
    → Extends needs s (left d s₂)
made-Extends {needs} d s s₂ off idle ons ext = record {
  consistent = record {
    agree = λ e. ground (arith, ext.consistent.agree e);
    once = λ e. ground (arith, ext.consistent.once e, ext.consistent.agree d, ext.busy d, off);
    closed = λ e h. elim (Bool-cases (d == e)) [
      | inl same ↦
          let eq : d ≡ e = ground arith in
          subst (λ (k : ℕ). All (λ e'. (left d s₂).is_started e' ≡ true) (needs k)) eq
            (set_flag-All d s₂.is_started (needs d) ons)
      | inr other ↦
          set_flag-All d s₂.is_started (needs e) (ext.consistent.closed e (ground (arith, h)))
    ];
  };
  kept = λ e h. ground (arith, ext.kept e h);
  starting = λ e. ground (arith, ext.starting e, idle);
  busy = λ e h. ground (arith, ext.busy e, idle, h);
  exit_all = ext.exit_all;
}

alloc-made :
    (needs : ℕ → List ℕ) (start : ℕ → Devices → Option Devices) (d : ℕ) (s s₂ : Devices)
    → s.container_started d ≡ false
    → s.is_starting d ≡ false
    → get_each start (needs d) (entered d s) ≡ some s₂
    → alloc needs start d s ≡ some (pos 0, made d s₂)
alloc-made needs start d s s₂ off still run =
    if-false (s.container_started d) _ _ off
    ∙ if-false (s.is_starting d) _ _ still
    ∙ ap (◌>>= λ s'. some (pos 0, made d s')) run

module _ (needs : ℕ → List ℕ) (rank : ℕ → ℕ) (ranked : AreRanked needs rank) where
  alloc_device-Starts : (fuel : ℕ) → Starts needs rank (alloc_device needs fuel) fuel
  unfolding alloc_device
  alloc_device-Starts zero d s h c idle = absurd (omega arith)
  alloc_device-Starts (suc fuel) d s h c idle = elim (Bool-cases (s.is_started d)) [
    | inl e ↦ (s, if-true (s.is_started d) (some s) _ e, e, Extends-refl s c)
    | inr e ↦
        let off = sym (c.agree d) ∙ e in
        let still = idle d (omega arith) in
        let (s₂, run, ons, ext) =
          get_each-Extends rank (alloc_device needs fuel) (rank d) (needs d) (entered d s)
            (λ d' s' h' c' idle'. alloc_device-Starts fuel d' s' (omega arith) c' idle') (ranked d)
            (record { agree = c.agree; once = c.once; closed = c.closed })
            (λ e' h'. ground (arith, idle e' (omega arith))) in
        (
          left d s₂,
          if-false (s.is_started d) (some s) _ e
              ∙ ap (◌>>= λ r. some (after_alloc needs d r))
                  (alloc-made needs (alloc_device needs fuel) d s s₂ off still run),
          ground arith,
          made-Extends d s s₂ e still ons ext,
        )
  ]

  -- A device that is started already needs no start.
  start-alloc :
      (fuel dev device_num : ℕ) (s : Devices)
      → 2 ≤ dev
      → dev < device_num
      → 0 < fuel
      → (if s.is_started dev
          then some s
          else start device_num (λ d. alloc_device needs fuel d s) dev)
        ≡ alloc_device needs fuel dev s
  unfolding alloc_device
  start-alloc zero dev device_num s h k f = absurd (omega arith)
  start-alloc (suc fuel) dev device_num s h k f = elim (Bool-cases (s.is_started dev)) [
    | inl on ↦ rw on refl
    | inr off ↦
        if-false (s.is_started dev) _ _ off
        ∙ start-dev device_num (λ d. alloc_device needs (suc fuel) d s) dev h k
  ]

  -- If no device needs itself through others, none is starting and devices that are started have
  -- what they need, then a command to a device is executed by that device, which is started first if
  -- need be. Afterwards it is started and so is each device that it needs, and what a started device
  -- needs is started; it has been made just once, devices started before stay started, and the
  -- server is not told to exit. The fuel has to be above the device's rank.
  pub execute-runs :
      {T : Type 0} (serve : T → ℤ × T) (run : ℕ → T → ℤ × T) (device_num fuel dev : ℕ) (s : Devices)
      (t : T)
      → 2 ≤ dev
      → dev < device_num
      → rank dev < fuel
      → IsConsistent needs s
      → ((d : ℕ) → s.is_starting d ≡ false)
      → (s' : Devices) × (execute needs serve run device_num fuel dev (s, t)
          ≡ some ((run dev t).0, s', (run dev t).1))
        × (s'.is_started dev ≡ true)
        × All (λ e. s'.is_started e ≡ true) (needs dev)
        × (count dev s'.constructed ≡ 1)
        × Extends needs s s'
  unfolding execute
  execute-runs {T} serve run device_num fuel dev s t h k f c idle =
      let (s', ran, on, ext) = alloc_device-Starts fuel dev s f c (λ e _. idle e) in
      let step : Devices → Option (ℤ × Devices × T) = λ s₁.
        if s₁.is_started dev
        then (let (r, t') = execute_dev device_num (λ d. run d t) dev in some (r, s₁, t'))
        else none in
      let runs =
        if-false (dev == 0) _ _ (ground arith)
        ∙ if-false (dev == 1) _ _ (ground arith)
        ∙ if-false (leb device_num dev) _ _ (ground arith)
        ∙ ap (◌>>= step) (start-alloc fuel dev device_num s h k (omega arith) ∙ ran)
        ∙ if-true (s'.is_started dev) _ _ on
        ∙ ap (λ (r : ℤ × T). some (r.0, s', r.1))
            (execute_dev-dev device_num (λ d. run d t) dev h k) in
      (
        s',
        runs,
        on,
        ext.consistent.closed dev on,
        ground (arith, ext.consistent.once dev, ext.consistent.agree dev, on),
        ext,
      )

-- A device that is got while it is starting, as in a circular dependency, is not started again: the
-- pointer to it, still null, is used.
pub get-circular :
    (needs : ℕ → List ℕ) (fuel d : ℕ) (s : Devices)
    → s.is_started d ≡ false
    → s.container_started d ≡ false
    → s.is_starting d ≡ true
    → get (alloc_device needs (suc fuel)) d s ≡ none
unfolding alloc_device
get-circular needs fuel d s off c_off starting =
    ap (◌>>= λ s'. if s'.container_started d then some s' else none) (
      if-false (s.is_started d) (some s) _ off
      ∙ if-false (s.is_started d) (some s) _ off
      ∙ ap (◌>>= λ r. some (after_alloc needs d r))
          (if-false (s.container_started d) _ _ c_off ∙ if-true (s.is_starting d) _ _ starting))
    ∙ if-false (s.container_started d) _ _ c_off
