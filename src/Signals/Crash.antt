-- ===== src/Signals/Crash.antt =====
-- `crash_signal_handler` of core/signal_handler.cpp: what it gives to the log. What
-- `backtrace_symbols` and `__cxa_demangle` answer are arguments; texts are lists of bytes.
use Prim.Native.String.{String}
use koheron_server.Base.{
  ℕ, suc, ◌≡◌, refl, ap, Option, none, some, List, [], ◌∷◌, ◌++◌, if◌then◌else◌, true, false, All,
}
use koheron_server.Signals.{
  Signal, sigsegv, sigbus, sigabrt, Flag, crash_signal_handler, split_message,
}
use koheron_server.Signals.Backtrace.{IsPlain, split_message-line}

abbrev pub sig_name : Signal → String
sig_name sigbus = "(Bus Error)"
sig_name sigsegv = "(Segmentation Fault)"
sig_name sigabrt = "(Abort)"
sig_name _ = "(Unidentify signal)"

-- What is logged: the crash, that there are no symbols, or a line's number with its object, its
-- function, the offset and the rest.
pub data Report : Type 0 where
  crash : Signal → String → Report
  no_symbols : Report
  frame : ℕ → List ℕ → List ℕ → List ℕ → List ℕ → Report

-- The demangled name, or the mangled one where demangling fails.
abbrev pub real_name : (List ℕ → Option (List ℕ)) → List ℕ → List ℕ
real_name demangle name = elim (demangle name) [ none ↦ name | some real ↦ real ]

module _ (demangle : List ℕ → Option (List ℕ)) where
  abbrev report_line : ℕ → Option (List ℕ × List ℕ × List ℕ × List ℕ) → List Report → List Report
  report_line i none later = later
  report_line i (some (object, name, offset, rest)) later =
      frame i object (real_name demangle name) offset rest ∷ later

  -- The loop over the messages, from number `i` on.
  report_lines : ℕ → List (List ℕ) → List Report
  report_lines i [] = []
  report_lines i (message ∷ messages) =
      report_line i (split_message message) (report_lines (suc i) messages)

  abbrev report_symbols : Option (List (List ℕ)) → List Report
  report_symbols none = no_symbols ∷ []
  report_symbols (some messages) = report_lines 0 messages

  -- `crash_signal_handler(sig)`, with what it logs.
  unfoldable pub crash_reports : Signal → Option (List (List ℕ)) → Flag → Flag × List Report
  unfolding report_lines
  crash_reports sig messages f =
      if f.s_interrupted
      then (f, [])
      else (crash_signal_handler f, crash sig (sig_name sig) ∷ report_symbols messages)

-- A line of a backtrace by its parts.
pub record Line : Type 0 where
  pub object : List ℕ
  pub name : List ℕ
  pub offset : List ℕ
  pub rest : List ℕ

abbrev pub text_of : Line → List ℕ
text_of l = l.object ++ (40 ∷ (l.name ++ (43 ∷ (l.offset ++ (41 ∷ l.rest)))))

abbrev pub texts_of : List Line → List (List ℕ)
texts_of [] = []
texts_of (l ∷ ls) = text_of l ∷ texts_of ls

abbrev pub ArePlain : Line → Type 0
ArePlain l = IsPlain l.object × IsPlain l.name × IsPlain l.offset

abbrev pub frames : (List ℕ → Option (List ℕ)) → ℕ → List Line → List Report
frames demangle i [] = []
frames demangle i (l ∷ ls) =
    frame i l.object (real_name demangle l.name) l.offset l.rest ∷ frames demangle (suc i) ls

report_lines-frames :
    (demangle : List ℕ → Option (List ℕ)) (i : ℕ) (ls : List Line)
    → All ArePlain ls
    → report_lines demangle i (texts_of ls) ≡ frames demangle i ls
unfolding report_lines
report_lines-frames demangle i [] h = refl
report_lines-frames demangle i (l ∷ ls) h =
    let (p, q, r) = h.0 in
    rw
      (
        split_message-line l.object l.name l.offset l.rest p q r,
        report_lines-frames demangle (suc i) ls h.1,
      )
      refl

-- If every line of the backtrace has the form "object(name+offset)rest", and neither the object nor
-- the name nor the offset has a zero byte or one of '(', '+' and ')', then the first crash of a
-- server that is not interrupted is logged with its signal's name and then the lines in order,
-- numbered from 0, with the function's real name where it can be found; a crash after that, as of
-- the same fault again, logs nothing and changes nothing.
pub crash_reports-frames :
    (demangle : List ℕ → Option (List ℕ)) (sig sig' : Signal) (ls : List Line)
    (again : Option (List (List ℕ))) (f : Flag)
    → f.s_interrupted ≡ false
    → All ArePlain ls
    → let (f', reports) = crash_reports demangle sig (some (texts_of ls)) f in
      (reports ≡ crash sig (sig_name sig) ∷ frames demangle 0 ls)
      × (f'.s_interrupted ≡ true)
      × (crash_reports demangle sig' again f' ≡ (f', []))
unfolding crash_reports
crash_reports-frames demangle sig sig' ls again f running plain =
    rw running
      (ap (◌∷◌ (crash sig (sig_name sig))) (report_lines-frames demangle 0 ls plain), refl, refl)
