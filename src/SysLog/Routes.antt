-- ===== src/SysLog/Routes.antt =====
-- Where a message goes.
use Prim.Native.String.{String, ◌++◌}
use koheron_server.Base.{
  ℕ, suc, ◌<◌, ◌≡◌, refl, ap, ◌∙◌, leb, some, List, [], ◌∷◌, arith, if◌then◌else◌, ℤ, pos, is_neg,
  true, false, ◌&&◌, Bool-cases, inl, inr, All,
}
use koheron_server.Config.{Config}
use koheron_server.PubSub.{Subscribers, contains, channel, emit_loop}
use koheron_server.Tcp.Session.{write}
use koheron_server.SysLog.Sends.{fails, send_text-fails, send_text-sends}
use koheron_server.SysLog.Failures.{
  AllFit, print-debug, emit_error-emit, emit_error-debug, world-prepared,
}
use koheron_server.SysLog.{
  write_message, Severity, error, number_of, severity_msg, to_priority, Argument, forward, verbatim,
  Log, Platform, syslog_channel, send_text, print_msg, call_syslog, print,
}

-- The texts that were sent once each of the sessions was sent one more.
abbrev pub sent_each : String → List ℕ → List (ℕ × String) → List (ℕ × String)
sent_each text [] sent = sent
sent_each text (sid ∷ sids) sent = sent_each text sids ((sid, text) ∷ sent)

-- What `print` has done before it emits.
prepared_fields :
    {W : Type 0} (host : Platform W) (config : Config) (severity : Severity) (message : String)
    (args : List Argument) (t : Log W)
    → let ready =
        call_syslog host config severity message args
          (print_msg host config severity message args t) in
      (ready.out_err ≡ (
        if leb (number_of severity) 3
        then forward ((severity_msg severity ++ ": ") ++ message) args ∷ t.out_err
        else t.out_err))
      × (ready.system ≡ (
          if leb (number_of severity) 4 && config.syslog
          then (to_priority severity, forward message args) ∷ t.system
          else t.system))
      × (ready.sent ≡ t.sent)
unfolding print_msg call_syslog
prepared_fields host config severity message args t = (ground arith, ground arith, ground arith)

module _ {W : Type 0} (host : Platform W) (config : Config) (subs : Subscribers)
    (ids : List ℕ) where
  open host use {snprintf, size, sys_write}

  -- No `write` fails any more.
  abbrev pub Stays : (W → Type 0) → Type 0
  Stays Healthy =
      (sid : ℕ) (text : String) (w : W)
      → Healthy w
      → (fails host ids sid text w ≡ false) × Healthy (sys_write sid text w).1

  module _ (Healthy : W → Type 0) (stays : Stays Healthy) where
    -- A run of sends that do not fail.
    emit_loop-sends :
        (fuel : ℕ) (sids : List ℕ) (err : ℤ) (t : Log W)
        → 0 < fuel
        → All (λ sid. contains sid ids ≡ true) sids
        → Healthy t.world
        → (r : ℤ) × (t' : Log W) × (emit_loop
              (send_text host (print host config false subs ids fuel) ids)
              sids
              err
              t
            ≡ some (r, t'))
          × Healthy t'.world
          × (t'.sent ≡ sent_each t.fmt_buffer sids t.sent)
          × (t'.fmt_buffer ≡ t.fmt_buffer)
          × (t'.out_err ≡ t.out_err)
          × (t'.system ≡ t.system)
    unfolding emit_loop
    emit_loop-sends fuel [] err t f here h = (err, t, refl, h, refl, refl, refl, refl)
    emit_loop-sends fuel (sid ∷ sids) err t f here h =
        let (good, h') = stays sid t.fmt_buffer t.world h in
        let tried = record t {
          sent = (sid, t.fmt_buffer) ∷ t.sent;
          world = (sys_write sid t.fmt_buffer t.world).1;
        } in
        let r = write (size t.fmt_buffer) (sys_write sid t.fmt_buffer t.world).0 in
        let (m, args, e) =
          send_text-sends host ids (print host config false subs ids fuel) sid t here.0 good in
        let (t', e', w, s, b, o, y) = print-debug host config subs ids fuel m args tried f in
        let (r', t'', e'', h'', s', b', o', y') =
          emit_loop-sends fuel sids (if is_neg r then r else err) t' f here.1 (rw w h') in
        (r', t'', rw e (rw e' e''), h'', s' ∙ rw (b, s) refl, b' ∙ b, o' ∙ o, y' ∙ y)

    -- What `print` has done once it emitted the message `text`, without a failure.
    abbrev Emitted : String → Log W → Log W → Type 0
    Emitted said ready t =
        Healthy t.world
        × (t.sent ≡ sent_each said (channel syslog_channel subs) ready.sent)
        × (t.fmt_buffer ≡ said)
        × (t.out_err ≡ ready.out_err)
        × (t.system ≡ ready.system)

    print-emits :
        AllFit host config subs ids
        → All (λ sid. contains sid ids ≡ true) (channel syslog_channel subs)
        → (fuel : ℕ) (severity : Severity) (message : String) (args : List Argument) (st : Log W)
        → 0 < fuel
        → leb (number_of severity) 4 ≡ true
        → Healthy st.world
        → (t : Log W) × (print host config false subs ids (suc fuel) severity message args st
            ≡ some t)
          × Emitted
              (snprintf (forward message args)).1
              (call_syslog host config severity message args
                (print_msg host config severity message args st))
              t
    unfolding print
    print-emits fit here fuel severity message args st f high h =
        let ready =
          call_syslog host config severity message args
            (print_msg host config severity message args st) in
        let (r, t, e, h', s, b, o, y) =
          emit_loop-sends fuel (channel syslog_channel subs) (pos 0)
            (record ready { fmt_buffer = (snprintf (forward message args)).1 }) f here
            (rw (world-prepared host config subs ids severity message args st) h) in
        (t, rw (emit_error-emit host config subs ids fit, high) (rw e refl), (h', s, b, o, y))

    -- While the server is not interrupted, no `write` fails, every subscriber of the log's channel
    -- has a session and every message fits, `print` returns: a message of severity WARNING or
    -- higher is printed to stderr behind its severity's name, one that is no debug message goes to
    -- the system's log if that is configured and its text to each subscriber once, and nothing else
    -- is written there.
    pub print-routes :
        AllFit host config subs ids
        → All (λ sid. contains sid ids ≡ true) (channel syslog_channel subs)
        → (fuel : ℕ) (severity : Severity) (message : String) (args : List Argument) (st : Log W)
        → 0 < fuel
        → Healthy st.world
        → (st' : Log W) × (print host config false subs ids (suc fuel) severity message args st
            ≡ some st')
          × (st'.out_err ≡ (
              if leb (number_of severity) 3
              then forward ((severity_msg severity ++ ": ") ++ message) args ∷ st.out_err
              else st.out_err))
          × (st'.system ≡ (
              if leb (number_of severity) 4 && config.syslog
              then (to_priority severity, forward message args) ∷ st.system
              else st.system))
          × (st'.sent ≡ (
              if leb (number_of severity) 4
              then sent_each
                  (snprintf (forward message args)).1
                  (channel syslog_channel subs)
                  st.sent
              else st.sent))
    unfolding print
    print-routes fit here fuel severity message args st f h =
        let ready =
          call_syslog host config severity message args
            (print_msg host config severity message args st) in
        let text = (snprintf (forward message args)).1 in
        let (errs, logged, kept) = prepared_fields host config severity message args st in
        elim (Bool-cases (leb (number_of severity) 4)) [
          | inr low ↦ (
            ready,
            rw
                (emit_error-debug host config subs ids (print host config false subs ids fuel)
                  severity message args ready low)
                refl,
            errs,
            logged,
            rw low kept,
          )
          | inl high ↦
              let (t, e, (h', s, b, o, y)) =
                print-emits fit here fuel severity message args st f high h in
              (
                t,
                e,
                o ∙ errs,
                y ∙ logged,
                rw high (s ∙ ap (sent_each text (channel syslog_channel subs)) kept),
              )
        ]

    -- The formatting buffer is one for all messages. While the server is not interrupted, every
    -- subscriber of the log's channel has a session and every message fits: if the `write` of a
    -- message that is no debug message fails for the first subscriber, and no `write` after it, then
    -- the message is written to the first subscriber only. What is written after it is the text of
    -- the error that `Session<TCP>::write` prints about the failure: first to each subscriber, and
    -- then once more to each but the first, in place of the message.
    pub print_overwritten :
        AllFit host config subs ids
        → (sid : ℕ) (sids : List ℕ) → channel syslog_channel subs ≡ sid ∷ sids
        → All (λ s. contains s ids ≡ true) (sid ∷ sids)
        → (fuel : ℕ) (severity : Severity) (message : String) (args : List Argument) (st : Log W)
        → 0 < fuel
        → leb (number_of severity) 4 ≡ true
        → let said = (snprintf (forward message args)).1 in
          fails host ids sid said st.world ≡ true
          → Healthy (sys_write sid said st.world).1
          → (trouble : String) × (st' : Log W) × (write_message
                (size said)
                (sys_write sid said st.world).0
              ≡ (error, trouble, []))
            × (print host config false subs ids (suc (suc fuel)) severity message args st
                ≡ some st')
            × (let failed = (snprintf (verbatim trouble)).1 in
                st'.sent
                ≡ sent_each failed sids (sent_each failed (sid ∷ sids) ((sid, said) ∷ st.sent)))
    unfolding print emit_loop
    print_overwritten fit sid sids c here fuel severity message args st f high bad heal =
        let said = (snprintf (forward message args)).1 in
        let ready =
          call_syslog host config severity message args
            (print_msg host config severity message args st) in
        let same : ready.world ≡ st.world =
          world-prepared host config subs ids severity message args st in
        let (errs, logged, kept) = prepared_fields host config severity message args st in
        let result = write (size said) (sys_write sid said ready.world).0 in
        let tried = record ready {
          fmt_buffer = said;
          sent = (sid, said) ∷ ready.sent;
          world = (sys_write sid said ready.world).1;
        } in
        let (m, w, e) =
          send_text-fails host ids (print host config false subs ids (suc fuel)) sid
            (record ready { fmt_buffer = said }) here.0 (rw same bad) in
        let (t, e', (h', s, b, o, y)) =
          print-emits fit (rw c here) fuel error m [] tried f refl (rw same heal) in
        let failed = (snprintf (verbatim m)).1 in
        let (r, t', e'', h'', s', b', o', y') =
          emit_loop-sends (suc fuel) sids (if is_neg result then result else pos 0) t (omega arith)
            here.1 h' in
        (
          m,
          t',
          rw same at w,
          rw (emit_error-emit host config subs ids fit, high, c) (rw e (rw e' (rw e'' refl))),
          s'
              ∙ ap (λ (x : String). sent_each x sids t.sent) b
              ∙ ap (sent_each failed sids) (
                  rw c at s
                  ∙ ap (sent_each failed (sid ∷ sids)) (
                      (prepared_fields host config error m [] tried).2
                      ∙ ap (λ (l : List (ℕ × String)). (sid, said) ∷ l) kept)),
        )
