-- ===== src/Signals.antt =====
-- core/signal_handler.cpp and core/signal_handler.hpp: which signals the server handles and how, and
-- how a line of a backtrace is taken apart. What `sigaction` answers is an argument.
pub mod Delivery
pub mod Backtrace
pub mod Crash
use koheron_server.Base.{
  ℕ, suc, ◌+◌, ◌-◌, Option, none, some, List, [], ◌∷◌, ltb, ◌==◌, if◌then◌else◌, take, drop, ℤ, pos,
  minus_one, is_neg, Bool, true, false,
}

pub data Signal : Type 0 where
  sigint sigterm sigpipe sigtstp sigsegv sigbus sigabrt : Signal

-- `exit_signal_handler`, SIG_IGN and `crash_signal_handler`.
pub data Action : Type 0 where
  exit_signal ignore crash_signal : Action

-- The actions that were set, the last one first.
abbrev pub Actions : Type 0
Actions = List (Signal × Action)

-- One action for several signals, up to the first that cannot be set.
abbrev pub set_each : (Signal → ℤ) → Action → List Signal → Actions → ℤ × Actions
set_each sigaction action [] set = (pos 0, set)
set_each sigaction action (s ∷ signals) set =
    let rest = set_each sigaction action signals ((s, action) ∷ set) in
    if is_neg (sigaction s) then (minus_one, set) else rest

-- `set_interrup_signals()`, `set_ignore_signals()` and `set_crash_signals()`
unfoldable pub set_interrup_signals : (Signal → ℤ) → Actions → ℤ × Actions
set_interrup_signals sigaction set = set_each sigaction exit_signal (sigint ∷ sigterm ∷ []) set

unfoldable pub set_ignore_signals : (Signal → ℤ) → Actions → ℤ × Actions
set_ignore_signals sigaction set = set_each sigaction ignore (sigpipe ∷ sigtstp ∷ []) set

unfoldable pub set_crash_signals : (Signal → ℤ) → Actions → ℤ × Actions
set_crash_signals sigaction set =
    set_each sigaction crash_signal (sigsegv ∷ sigbus ∷ sigabrt ∷ []) set

-- `init(kserver)`
unfoldable pub init : (Signal → ℤ) → ℤ × Actions
unfolding set_interrup_signals set_ignore_signals set_crash_signals
init sigaction =
    let (err₁, set₁) = set_interrup_signals sigaction [] in
    let (err₂, set₂) = set_ignore_signals sigaction set₁ in
    let (err₃, set₃) = set_crash_signals sigaction set₂ in
    if is_neg err₁
    then (minus_one, set₁)
    else if is_neg err₂
    then (minus_one, set₂)
    else if is_neg err₃
    then (minus_one, set₃)
    else (pos 0, set₃)

-- `s_interrupted`, and how many crashes were logged.
pub record Flag : Type 0 where
  pub s_interrupted : Bool
  pub crashes : ℕ

-- `exit_signal_handler(s)`
abbrev pub exit_signal_handler : Flag → Flag
exit_signal_handler f = record f { s_interrupted = true }

-- `crash_signal_handler(sig)`, which does nothing once the server is interrupted.
abbrev pub crash_signal_handler : Flag → Flag
crash_signal_handler f =
    if f.s_interrupted then f else record { s_interrupted = true; crashes = suc f.crashes }

-- A signal is delivered.
unfoldable pub handle : Action → Flag → Flag
handle exit_signal f = exit_signal_handler f
handle ignore f = f
handle crash_signal f = crash_signal_handler f

-- The indices at which the loop of the crash handler stands when it meets '(' (40), '+' (43) and
-- ')' (41), at which it ends; the last ones count.
pub record Marks : Type 0 where
  pub mangled_name : Option ℕ
  pub offset_begin : Option ℕ
  pub offset_end : Option ℕ

unfoldable pub find_marks : ℕ → List ℕ → Marks → Marks
find_marks p [] m = m
find_marks p (c ∷ message) m =
    let opened = find_marks (suc p) message (record m { mangled_name = some p }) in
    let plus = find_marks (suc p) message (record m { offset_begin = some p }) in
    let other = find_marks (suc p) message m in
    if c == 40
    then opened
    else if c == 43
    then plus
    else if c == 41
    then record m { offset_end = some p }
    else other

-- The texts that start at the indices once each of them was overwritten by '\0': the object, the
-- mangled name, the offset and the rest.
abbrev pub cut : List ℕ → ℕ → ℕ → ℕ → List ℕ × List ℕ × List ℕ × List ℕ
cut message name begin end = (
  take name message,
  take (begin - suc name) (drop (suc name) message),
  take (end - suc begin) (drop (suc begin) message),
  drop (suc end) message,
)

-- A line can be processed if all marks were met, the name before the offset.
abbrev pub cut_marked :
    List ℕ → Option ℕ → Option ℕ → Option ℕ → Option (List ℕ × List ℕ × List ℕ × List ℕ)
cut_marked message (some name) (some begin) (some end) =
    if ltb name begin then some (cut message name begin end) else none
cut_marked message _ _ _ = none

-- A line of `backtrace_symbols`, taken apart if it could be processed.
unfoldable pub split_message : List ℕ → Option (List ℕ × List ℕ × List ℕ × List ℕ)
unfolding find_marks
split_message message =
    let m =
      find_marks 0 message
        (record { mangled_name = none; offset_begin = none; offset_end = none }) in
    cut_marked message m.mangled_name m.offset_begin m.offset_end
