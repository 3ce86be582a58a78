-- ===== src/SysLog/Failures.antt =====
-- What becomes of a message if the system call `write` fails for a subscriber of the log.
use Prim.Native.String.{String}
use koheron_server.Base.{
  ◌==◌, subst, ℕ, zero, suc, ◌+◌, ◌≤◌, ◌<◌, ◌≡◌, refl, leb, Option, none, some, List, [], ◌∷◌,
  arith, ℤ, pos, true, false, count, Bool-cases, inl, inr, All,
}
use koheron_server.Config.{Config}
use koheron_server.PubSub.{Subscribers, contains, channel, emit_loop, emit}
use koheron_server.PubSub.Emission.{fits_buffer, emit_text-eq-emit}
use koheron_server.Tcp.Session.{write}
use koheron_server.SysLog.Sends.{
  emit_loop-stuck, emit_loop-returns, fails, send_text-fails, send_text-sends, send_text-stuck,
}
use koheron_server.SysLog.{
  Severity, error, debug, number_of, Argument, Format, forward, Log, Platform, syslog_channel,
  send_text, print_msg, call_syslog, emit_error, print,
}

module _ {W : Type 0} (host : Platform W) (config : Config) (subs : Subscribers)
    (ids : List ℕ) where
  open host use {snprintf, size, sys_write}

  -- Every message fits into the formatting buffer.
  abbrev pub AllFit : Type 0
  AllFit = (f : Format) → fits_buffer (snprintf f).0 ≡ true

  pub emit_error-emit :
      AllFit
      → (log : Severity → String → List Argument → Log W → Option (Log W)) (severity : Severity)
        (message : String) (args : List Argument) (st : Log W)
      → leb (number_of severity) 4 ≡ true
      → emit_error host log false subs ids severity message args st
        ≡ emit_loop
            (send_text host log ids)
            (channel syslog_channel subs)
            (pos 0)
            (record st { fmt_buffer = (snprintf (forward message args)).1 })
  unfolding emit_error emit
  emit_error-emit fit log severity message args st h =
      rw (h, emit_text-eq-emit, fit (forward message args)) refl

  has_session :
      (sid : ℕ) (sids : List ℕ)
      → All (λ s. contains s ids ≡ true) sids
      → 0 < count sid sids
      → contains sid ids ≡ true
  has_session sid [] here c = absurd (omega arith)
  has_session sid (x ∷ sids) here c = elim (Bool-cases (x == sid)) [
    | inl same ↦ let e : x ≡ sid = ground arith in subst (λ (s : ℕ). contains s ids ≡ true) e here.0
    | inr other ↦ has_session sid sids here.1 (ground arith)
  ]

  -- While the server is not interrupted: if every subscriber of the log's channel has a session, so
  -- that `get_session` does not throw, every message fits into the buffer, and on the socket of some
  -- subscriber every `write` fails, then no fuel is enough for a message that is no debug message.
  -- Each failure is a message to the same subscriber, so that `print` calls itself without end.
  pub print_endless :
      (sid : ℕ)
      → AllFit
      → All (λ s. contains s ids ≡ true) (channel syslog_channel subs)
      → 0 < count sid (channel syslog_channel subs)
      → ((text : String) (w : W) → fails host ids sid text w ≡ true)
      → (fuel : ℕ) (severity : Severity) (message : String) (args : List Argument) (st : Log W)
      → leb (number_of severity) 4 ≡ true
      → print host config false subs ids fuel severity message args st ≡ none
  unfolding print
  print_endless sid fit here c bad zero severity message args st h = refl
  print_endless sid fit here c bad (suc fuel) severity message args st h =
      rw (emit_error-emit fit, h)
        (rw
          (emit_loop-stuck _ sid (channel syslog_channel subs) (pos 0) _
            (λ t.
              send_text-stuck host ids _ sid t
                (has_session sid (channel syslog_channel subs) here c) (bad t.fmt_buffer t.world)
                (λ m t'. print_endless sid fit here c bad fuel error m [] t' refl))
            c)
          refl)

  -- The faults that the clients' sides still have in them: each `write` that fails takes one at
  -- least, and no `write` brings new ones.
  pub record Exhausts (faults : W → ℕ) : Type 0 where
    pub fewer :
        (sid : ℕ) (text : String) (w : W)
        → fails host ids sid text w ≡ true
        → faults (sys_write sid text w).1 < faults w
    pub no_more : (sid : ℕ) (text : String) (w : W) → faults (sys_write sid text w).1 ≤ faults w

  pub world-prepared :
      (severity : Severity) (message : String) (args : List Argument) (t : Log W)
      → (call_syslog host config severity message args
          (print_msg host config severity message args t)).world
        ≡ t.world
  unfolding print_msg call_syslog
  world-prepared severity message args t = ground arith

  pub emit_error-debug :
      (log : Severity → String → List Argument → Log W → Option (Log W)) (severity : Severity)
      (message : String) (args : List Argument) (t : Log W)
      → leb (number_of severity) 4 ≡ false
      → emit_error host log false subs ids severity message args t ≡ some (pos 0, t)
  unfolding emit_error
  emit_error-debug log severity message args t low = rw low refl

  pub print-debug :
      (fuel : ℕ) (message : String) (args : List Argument) (t : Log W)
      → 0 < fuel
      → (t' : Log W) × (print host config false subs ids fuel debug message args t ≡ some t')
        × (t'.world ≡ t.world)
        × (t'.sent ≡ t.sent)
        × (t'.fmt_buffer ≡ t.fmt_buffer)
        × (t'.out_err ≡ t.out_err)
        × (t'.system ≡ t.system)
  unfolding print emit_error print_msg call_syslog
  print-debug zero message args t h = absurd (omega arith)
  print-debug (suc fuel) message args t h = elim (Bool-cases config.verbose) [
    | inl loud ↦ (
      record t { out = forward message args ∷ t.out },
      rw loud refl,
      refl,
      refl,
      refl,
      refl,
      refl,
    )
    | inr quiet ↦ (t, rw quiet refl, refl, refl, refl, refl, refl)
  ]

  module _ (faults : W → ℕ) (exhausts : Exhausts faults) where
    -- The two messages of `write` return, the error while the fuel `f` exceeds the faults.
    abbrev Logs : ℕ → (Severity → String → List Argument → Log W → Option (Log W)) → Type 0
    Logs f log =
        ((message : String) (t : Log W)
          → faults t.world + 1 < f
          → (t' : Log W) × (log error message [] t ≡ some t') × (faults t'.world ≤ faults t.world))
        × ((message : String) (args : List Argument) (t : Log W)
            → 0 < f
            → (t' : Log W) × (log debug message args t ≡ some t') × (t'.world ≡ t.world))

    send_text-returns :
        (f k : ℕ) (log : Severity → String → List Argument → Log W → Option (Log W))
        → Logs f log
        → k < f
        → (sid : ℕ) (t : Log W) → contains sid ids ≡ true
        → faults t.world ≤ k
        → (r : ℤ) × (t' : Log W) × (send_text host log ids sid t ≡ some (r, t'))
          × (faults t'.world ≤ k)
    send_text-returns f k log logs kf sid t here few =
        let result = write (size t.fmt_buffer) (sys_write sid t.fmt_buffer t.world).0 in
        let tried = record t {
          sent = (sid, t.fmt_buffer) ∷ t.sent;
          world = (sys_write sid t.fmt_buffer t.world).1;
        } in
        elim (Bool-cases (fails host ids sid t.fmt_buffer t.world)) [
          | inl bad ↦
              let (m, _, e) = send_text-fails host ids log sid t here bad in
              let down = exhausts.fewer sid t.fmt_buffer t.world bad in
              let (t', e', le) = logs.0 m tried (omega (arith, down)) in
              (result, t', rw e (rw e' refl), omega (arith, down, le))
          | inr good ↦
              let (m, args, e) = send_text-sends host ids log sid t here good in
              let (t', e', same) = logs.1 m args tried (omega arith) in
              let down = exhausts.no_more sid t.fmt_buffer t.world in
              (result, t', rw e (rw e' refl), rw same (omega (arith, down)))
        ]

    -- If every subscriber of the log's channel has a session, every message fits and no `write`
    -- brings new faults while each that fails takes one, then `print` returns, whatever the
    -- message: two levels more than there are faults are enough.
    pub print-returns :
        AllFit
        → All (λ sid. contains sid ids ≡ true) (channel syslog_channel subs)
        → (fuel : ℕ) (severity : Severity) (message : String) (args : List Argument) (st : Log W)
        → faults st.world + 1 < fuel
        → (st' : Log W) × (print host config false subs ids fuel severity message args st
            ≡ some st')
          × (faults st'.world ≤ faults st.world)
    unfolding print
    print-returns fit here zero severity message args st h = absurd (omega arith)
    print-returns fit here (suc fuel) severity message args st h =
        let ready =
          call_syslog host config severity message args
            (print_msg host config severity message args st) in
        let same : ready.world ≡ st.world = world-prepared severity message args st in
        elim (Bool-cases (leb (number_of severity) 4)) [
          | inr low ↦ (
            ready,
            rw
                (emit_error-debug (print host config false subs ids fuel) severity message args
                  ready low)
                refl,
            rw same (omega arith),
          )
          | inl high ↦
              let (r, t', e, le) =
                emit_loop-returns (send_text host (print host config false subs ids fuel) ids)
                  {Fine = λ t. faults t.world ≤ faults st.world}
                  {Member = λ sid. contains sid ids ≡ true}
                  (send_text-returns fuel (faults st.world) (print host config false subs ids fuel)
                    (
                      λ m t few. print-returns fit here fuel error m [] t few,
                      λ m args t some_fuel.
                          let (t', e, w, s, b, o, y) = print-debug fuel m args t some_fuel in
                          (t', e, w),
                    )
                    (omega arith))
                  (channel syslog_channel subs) (pos 0)
                  (record ready { fmt_buffer = (snprintf (forward message args)).1 }) here
                  (rw same (omega arith)) in
              (t', rw (emit_error-emit fit, high) (rw e refl), le)
        ]
