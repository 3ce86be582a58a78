-- ===== src/Signals/Delivery.antt =====
-- Whether the server is interrupted, after any sequence of signals.
use koheron_server.Base.{
  ◌≡◌, refl, ap, ◌∙◌, List, [], ◌∷◌, arith, if◌then◌else◌, ◌||◌, ℤ, is_neg, Bool, true, false,
}
use koheron_server.Signals.{
  Signal, sigint, sigterm, sigpipe, sigtstp, sigsegv, sigbus, sigabrt, Action, exit_signal, ignore,
  crash_signal, Actions, init, set_interrup_signals, set_ignore_signals, set_crash_signals, Flag,
  handle,
}

same : Signal → Signal → Bool
same sigint sigint = true
same sigterm sigterm = true
same sigpipe sigpipe = true
same sigtstp sigtstp = true
same sigsegv sigsegv = true
same sigbus sigbus = true
same sigabrt sigabrt = true
same _ _ = false

-- The action for a signal that was set last; a signal that was not set is not delivered here.
unfoldable pub action_of : Signal → Actions → Action
unfolding same
action_of s [] = ignore
action_of s ((t, action) ∷ set) = if same s t then action else action_of s set

-- Signals that are delivered one after the other.
abbrev pub deliver_all : Actions → List Signal → Flag → Flag
deliver_all set [] f = f
deliver_all set (s ∷ signals) f = deliver_all set signals (handle (action_of s set) f)

-- The signals that are meant to be ignored.
abbrev pub is_ignored : Signal → Bool
is_ignored sigpipe = true
is_ignored sigtstp = true
is_ignored _ = false

-- Some signal of the list is meant to end the server.
abbrev pub any_ends : List Signal → Bool
any_ends [] = false
any_ends (s ∷ signals) = (if is_ignored s then false else true) || any_ends signals

-- The actions of a handler that was set up.
abbrev all_set : Actions
all_set =
    (sigabrt, crash_signal)
    ∷ (sigbus, crash_signal)
    ∷ (sigsegv, crash_signal)
    ∷ (sigtstp, ignore)
    ∷ (sigpipe, ignore)
    ∷ (sigterm, exit_signal)
    ∷ (sigint, exit_signal)
    ∷ []

init-all_set :
    (sigaction : Signal → ℤ) → is_neg (init sigaction).0 ≡ false → (init sigaction).1 ≡ all_set
unfolding init set_interrup_signals set_ignore_signals set_crash_signals
init-all_set sigaction h = ground arith

handle-interrupted :
    (s : Signal) (f : Flag)
    → (handle (action_of s all_set) f).s_interrupted
      ≡ f.s_interrupted || (if is_ignored s then false else true)
unfolding handle action_of same
handle-interrupted sigint f = ground arith
handle-interrupted sigterm f = ground arith
handle-interrupted sigpipe f = ground arith
handle-interrupted sigtstp f = ground arith
handle-interrupted sigsegv f = ground arith
handle-interrupted sigbus f = ground arith
handle-interrupted sigabrt f = ground arith

deliver-interrupted :
    (signals : List Signal) (f : Flag)
    → (deliver_all all_set signals f).s_interrupted ≡ f.s_interrupted || any_ends signals
deliver-interrupted [] f = ground arith
deliver-interrupted (s ∷ signals) f =
    let g = handle (action_of s all_set) f in
    ground (arith, deliver-interrupted signals g, handle-interrupted s f)

handle-crashes : (a : Action) (f : Flag) → f.s_interrupted ≡ true → (handle a f).crashes ≡ f.crashes
unfolding handle
handle-crashes exit_signal f h = refl
handle-crashes ignore f h = refl
handle-crashes crash_signal f h = ground arith

-- If `init` succeeds, then after any sequence of the seven signals that it sets the server is
-- interrupted just if it was before or one of the signals is SIGINT, SIGTERM, SIGSEGV, SIGBUS or
-- SIGABRT.
pub init-interrupted :
    (sigaction : Signal → ℤ) (signals : List Signal) (f : Flag)
    → is_neg (init sigaction).0 ≡ false
    → (deliver_all (init sigaction).1 signals f).s_interrupted ≡ f.s_interrupted || any_ends signals
init-interrupted sigaction signals f h =
    ap (λ (set : Actions). (deliver_all set signals f).s_interrupted) (init-all_set sigaction h)
    ∙ deliver-interrupted signals f
