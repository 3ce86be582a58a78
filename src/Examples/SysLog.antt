-- ===== src/Examples/SysLog.antt =====
-- Messages to the log: on one host every `write` to session 3 fails, on the other each `write` fails
-- as long as there are faults, which are counted.
use Prim.Native.String.{String}
use koheron_server.Base.{
  ℕ, ◌-◌, ◌≤◌, ◌≡◌, refl, none, some, List, [], ◌∷◌, arith, ltb, ◌==◌, if◌then◌else◌, ℤ, pos,
  minus_one, true, false,
}
use koheron_server.Config.{default_config}
use koheron_server.PubSub.{Subscribers, contains}
use koheron_server.PubSub.Emission.{fits_buffer}
use koheron_server.Tcp.Session.{write}
use koheron_server.SysLog.{
  warning, info, error, Format, formatted, verbatim, Log, Platform, write_message, print, new_log,
}
use koheron_server.SysLog.Sends.{fails}
use koheron_server.SysLog.Failures.{Exhausts, print_endless, print-returns}
use koheron_server.SysLog.Routes.{Stays, print-routes, print_overwritten}

abbrev gone_writes : ℕ → String → ℕ → ℤ × ℕ
gone_writes sid text w = if sid == 3 then (minus_one, w) else (pos 1, w)

abbrev flaky_writes : ℕ → String → ℕ → ℤ × ℕ
flaky_writes sid text w = if ltb 0 w then (minus_one, w - 1) else (pos 1, w)

abbrev show : Format → ℤ × String
show (formatted fmt args) = (pos 20, fmt)
show (verbatim text) = (pos 10, text)

abbrev gone : Platform ℕ
gone = record { snprintf = show; size = λ text. 1; sys_write = gone_writes }

abbrev flaky : Platform ℕ
flaky = record { snprintf = show; size = λ text. 1; sys_write = flaky_writes }

abbrev quiet_log : ℕ → Log ℕ
quiet_log w = new_log default_config w

abbrev listening : List ℕ → Subscribers
listening sids = [] ∷ sids ∷ [] ∷ []

show-fits : (f : Format) → fits_buffer (show f).0 ≡ true
show-fits (formatted fmt args) = refl
show-fits (verbatim text) = refl

gone-fails : (text : String) (w : ℕ) → fails gone (3 ∷ []) 3 text w ≡ true
unfolding write
gone-fails text w = refl

print_endless_example :
    print gone default_config false (listening (3 ∷ [])) (3 ∷ []) 5 info "Hello\n" [] (quiet_log 0)
    ≡ none
unfolding contains
print_endless_example =
    print_endless gone default_config (listening (3 ∷ [])) (3 ∷ []) 3 show-fits (refl, tt)
      (omega arith) gone-fails 5 info "Hello\n" [] (quiet_log 0) refl

flaky-Exhausts : Exhausts flaky default_config (listening (4 ∷ 5 ∷ [])) (4 ∷ 5 ∷ []) (λ w. w)
unfolding write
flaky-Exhausts = record {
  fewer = λ sid text w h. ground (arith, h);
  no_more = λ sid text w. ground arith;
}

print-returns_example :
    (st' : Log ℕ) × (print flaky default_config false
        (listening (4 ∷ 5 ∷ []))
        (4 ∷ 5 ∷ [])
        6
        error
        "Hello\n"
        []
        (quiet_log 3)
      ≡ some st')
    × (st'.world ≤ 3)
unfolding contains
print-returns_example =
    print-returns flaky default_config (listening (4 ∷ 5 ∷ [])) (4 ∷ 5 ∷ []) (λ w. w) flaky-Exhausts
      show-fits (refl, (refl, tt)) 6 error "Hello\n" [] (quiet_log 3) (omega arith)

flaky-Stays : Stays flaky default_config (listening (4 ∷ 5 ∷ [])) (4 ∷ 5 ∷ []) (λ w. w ≡ 0)
unfolding write
flaky-Stays sid text w h = (ground (arith, h), ground (arith, h))

print-routes_example :
    (st' : Log ℕ) × (print flaky default_config false
        (listening (4 ∷ 5 ∷ []))
        (4 ∷ 5 ∷ [])
        2
        warning
        "Hello\n"
        []
        (quiet_log 0)
      ≡ some st')
    × (st'.out_err ≡ verbatim "KSERVER WARNING: Hello\n" ∷ [])
    × (st'.system ≡ [])
    × (st'.sent ≡ (5, "Hello\n") ∷ (4, "Hello\n") ∷ [])
unfolding contains
print-routes_example =
    print-routes flaky default_config (listening (4 ∷ 5 ∷ [])) (4 ∷ 5 ∷ []) (λ w. w ≡ 0) flaky-Stays
      show-fits (refl, (refl, tt)) 1 warning "Hello\n" [] (quiet_log 0) (omega arith) refl

first_fails : fails flaky (4 ∷ 5 ∷ []) 4 "Hello\n" 1 ≡ true
unfolding write
first_fails = refl

print_overwritten_example :
    (trouble : String) × (st' : Log ℕ) × (write_message 1 minus_one ≡ (error, trouble, []))
    × (print flaky default_config false
          (listening (4 ∷ 5 ∷ []))
          (4 ∷ 5 ∷ [])
          3
          info
          "Hello\n"
          []
          (quiet_log 1)
        ≡ some st')
    × (st'.sent ≡ (5, trouble) ∷ (5, trouble) ∷ (4, trouble) ∷ (4, "Hello\n") ∷ [])
unfolding contains
print_overwritten_example =
    print_overwritten flaky default_config (listening (4 ∷ 5 ∷ [])) (4 ∷ 5 ∷ []) (λ w. w ≡ 0)
      flaky-Stays show-fits 4 (5 ∷ []) refl (refl, (refl, tt)) 1 info "Hello\n" [] (quiet_log 1)
      (omega arith) refl first_fails refl
