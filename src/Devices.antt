-- ===== src/Devices.antt =====
-- core/devices_manager.hpp and core/devices_manager.cpp: devices that are started when they are
-- first used. The devices and what their constructors ask of the context are generated or written
-- by the user: `needs` lists, for a device, those that its constructor gets, in order. `none` stands
-- for the use of a null pointer, an index out of range and no fuel.
pub mod Start
pub mod Order
use koheron_server.Base.{
  ℕ, zero, suc, ◌-◌, Option, none, some, List, [], ◌∷◌, ltb, leb, ◌==◌, if◌then◌else◌, ◌>>=◌, ℤ,
  pos, negsuc, minus_one, Bool, true, false, not,
}

-- A flag for each device.
abbrev pub Flags : Type 0
Flags = ℕ → Bool

abbrev pub set_flag : ℕ → Bool → Flags → Flags
set_flag k b flags d = if k == d then b else flags d

-- `DeviceManager` with its `DevicesContainer`. `constructed` lists the devices that were made, the
-- last one first; a device's pointer is null as long as the container's flag is not set.
pub record Devices : Type 0 where
  pub is_started : Flags
  pub container_started : Flags
  pub is_starting : Flags
  pub constructed : List ℕ
  pub exit_all : Bool

-- `DeviceManager::get<dev>()`, where `alloc` is `alloc_device`: the reference is to no object if the
-- device was not made.
abbrev pub get : (ℕ → Devices → Option Devices) → ℕ → Devices → Option Devices
get alloc dev s = (if s.is_started dev then some s else alloc dev s) >>= λ s'.
    if s'.container_started dev then some s' else none

-- What the constructor of a device gets.
abbrev pub get_each : (ℕ → Devices → Option Devices) → List ℕ → Devices → Option Devices
get_each alloc [] s = some s
get_each alloc (dev ∷ devs) s = get alloc dev s >>= get_each alloc devs

-- `make_unique<device_t<dev>>(ctx)` returned.
abbrev pub made : ℕ → Devices → Devices
made dev s = record s {
  constructed = dev ∷ s.constructed;
  is_starting = set_flag dev false s.is_starting;
  container_started = set_flag dev true s.container_started;
}

-- `make_index_sequence_in_range`, from the first number on.
abbrev pub index_range : ℕ → ℕ → List ℕ
index_range first zero = []
index_range first (suc n) = first ∷ index_range (suc first) n

-- `start_impl<dev0, devs...>` and `execute_dev_impl<dev0, devs...>`: the first device that the test
-- finds, or the last one without a test.
abbrev pub select {ℓ} : {A : Type ℓ} → (ℕ → A) → ℕ → List ℕ → ℕ → A
select act dev0 [] dev = act dev0
select act dev0 (d ∷ devs) dev =
    let rest = select act d devs dev in if dev == dev0 then act dev0 else rest

-- `start(dev, ...)`, over the devices from 2 on.
unfoldable pub start {ℓ} : {A : Type ℓ} → ℕ → (ℕ → A) → ℕ → A
start device_num alloc dev = select alloc 2 (index_range 3 (device_num - 3)) dev

-- `execute_dev(dev_abs, cmd, ...)`, from the kind of the device.
unfoldable pub execute_dev {ℓ} : {A : Type ℓ} → ℕ → (ℕ → A) → ℕ → A
execute_dev device_num run kind = select run 2 (index_range 3 (device_num - 3)) kind

module _ (needs : ℕ → List ℕ) where
  -- `DevicesContainer::alloc<dev>()`
  abbrev pub alloc : (ℕ → Devices → Option Devices) → ℕ → Devices → Option (ℤ × Devices)
  alloc start dev s =
      if s.container_started dev
      then some (pos 0, s)
      else if s.is_starting dev
      then some (minus_one, s)
      else (get_each start (needs dev) (record s { is_starting = set_flag dev true s.is_starting })
          >>= λ s'. some (pos 0, made dev s'))

  -- The end of `alloc_device`.
  abbrev pub after_alloc : ℕ → ℤ × Devices → Devices
  after_alloc dev (negsuc n, s) = record s { exit_all = true }
  after_alloc dev (pos n, s) = record s { is_started = set_flag dev true s.is_started }

  -- `alloc_device<dev>()`; the fuel bounds how deep devices need each other.
  unfoldable pub alloc_device : ℕ → ℕ → Devices → Option Devices
  alloc_device zero dev s = none
  alloc_device (suc fuel) dev s =
      if s.is_started dev
      then some s
      else (alloc (alloc_device fuel) dev s >>= λ r. some (after_alloc dev r))

  -- `execute(cmd)` for a command to the device `dev` of `device_num`: device 0 is no device, 1 is
  -- the server, whose own execution is `serve`, and `run` is the execution by another device. The
  -- device that was started last for `dev` has the kind `dev`.
  unfoldable pub execute :
      {T : Type 0}
      → (T → ℤ × T)
      → (ℕ → T → ℤ × T)
      → ℕ
      → ℕ
      → ℕ
      → Devices × T
      → Option (ℤ × Devices × T)
  execute serve run device_num fuel dev (s, t) =
      if dev == 0
      then some (pos 0, s, t)
      else if dev == 1
      then (let (r, t') = serve t in some (r, s, t'))
      else if leb device_num dev
      then none
      else ((if s.is_started dev then some s else start device_num (λ d. alloc_device fuel d s) dev)
          >>= λ s'.
              if s'.is_started dev
              then (let (r, t') = execute_dev device_num (λ d. run d t) dev in some (r, s', t'))
              else none)

-- `DeviceManager::DeviceManager` and `DevicesContainer::DevicesContainer`
abbrev pub new_devices : Devices
new_devices = record {
  is_started = λ d. false;
  container_started = λ d. false;
  is_starting = λ d. false;
  constructed = [];
  exit_all = false;
}
