-- ===== src/SysLog/Sends.antt =====
-- How `emit` goes on by what its sends do, and what a send to a session prints.
use Prim.Native.String.{String}
use koheron_server.Base.{
  ℕ, zero, suc, ◌<◌, ◌≡◌, refl, Option, none, some, List, [], ◌∷◌, arith, if◌then◌else◌, ◌>>=◌, ℤ,
  pos, negsuc, is_neg, Bool, true, false, count, ◌==◌, Bool-cases, inl, inr, All, Option-cases,
}
use koheron_server.PubSub.{contains, emit_loop}
use koheron_server.Tcp.Session.{write, is_not_pos}
use koheron_server.SysLog.{
  Severity, error, debug, Argument, number, Log, Platform, write_message, send_text,
}

module _ {T : Type 0} (send : ℕ → T → Option (ℤ × T)) where
  -- A send that never returns keeps `emit` from returning.
  pub emit_loop-stuck :
      (sid : ℕ) (sids : List ℕ) (err : ℤ) (t : T)
      → ((t : T) → send sid t ≡ none)
      → 0 < count sid sids
      → emit_loop send sids err t ≡ none
  unfolding emit_loop
  emit_loop-stuck sid [] err t h c = absurd (omega arith)
  emit_loop-stuck sid (x ∷ sids) err t h c = elim (Bool-cases (x == sid)) [
    | inl same ↦ let e : x ≡ sid = ground arith in rw (e, h t) refl
    | inr other ↦ elim (Option-cases (send x t)) [
      | inl stop ↦ rw stop refl
      | inr ((r, t'), go) ↦
          rw go (emit_loop-stuck sid sids (if is_neg r then r else err) t' h (ground arith))
    ]
  ]

  -- Sends that return, and keep what they are to keep, let `emit` return.
  pub emit_loop-returns :
      {Fine : T → Type 0} {Member : ℕ → Type 0}
      → ((sid : ℕ) (t : T)
          → Member sid
          → Fine t
          → (r : ℤ) × (t' : T) × (send sid t ≡ some (r, t')) × Fine t')
      → (sids : List ℕ) (err : ℤ) (t : T) → All Member sids
      → Fine t
      → (r : ℤ) × (t' : T) × (emit_loop send sids err t ≡ some (r, t')) × Fine t'
  unfolding emit_loop
  emit_loop-returns sends [] err t m h = (err, t, refl, h)
  emit_loop-returns sends (x ∷ sids) err t m h =
      let (r, t', e, h') = sends x t m.0 h in
      let (r', t'', e', h'') =
        emit_loop-returns sends sids (if is_neg r then r else err) t' m.1 h' in
      (r', t'', rw e e', h'')

module _ {W : Type 0} (host : Platform W) (ids : List ℕ) where
  open host use {size, sys_write}

  -- What the system call answers to session `sid` is an error, nothing or too little.
  abbrev pub fails : ℕ → String → W → Bool
  fails sid text w = is_not_pos (write (size text) (sys_write sid text w).0)

  write_message-fails :
      (bytes : ℕ) (r : ℤ)
      → is_not_pos (write bytes r) ≡ true
      → (message : String) × (write_message bytes r ≡ (error, message, []))
  unfolding write
  write_message-fails bytes (pos zero) h = (_, refl)
  write_message-fails bytes (negsuc n) h = (_, refl)
  write_message-fails bytes (pos (suc n)) h = elim (Bool-cases (suc n == bytes)) [
    | inl all ↦ let e : bytes ≡ suc n = ground arith in absurd (ground arith)
    | inr part ↦ ("TCPSocket::write: Some bytes have not been sent\n", rw part refl)
  ]

  write_message-sends :
      (bytes : ℕ) (r : ℤ)
      → is_not_pos (write bytes r) ≡ false
      → (message : String) × (args : List Argument) × (write_message bytes r
          ≡ (debug, message, args))
  unfolding write
  write_message-sends bytes (pos zero) h = absurd (cc)
  write_message-sends bytes (negsuc n) h = absurd (cc)
  write_message-sends bytes (pos (suc n)) h = elim (Bool-cases (suc n == bytes)) [
    | inl all ↦ ("[S] [%u bytes]\n", number (pos bytes) ∷ [], rw all refl)
    | inr part ↦ absurd (ground arith)
  ]

  -- A send that fails is an error message first.
  pub send_text-fails :
      (log : Severity → String → List Argument → Log W → Option (Log W)) (sid : ℕ) (t : Log W)
      → contains sid ids ≡ true
      → fails sid t.fmt_buffer t.world ≡ true
      → (message : String) × (write_message
            (size t.fmt_buffer)
            (sys_write sid t.fmt_buffer t.world).0
          ≡ (error, message, []))
        × (send_text host log ids sid t ≡ (
            log error message [] (record t {
              sent = (sid, t.fmt_buffer) ∷ t.sent;
              world = (sys_write sid t.fmt_buffer t.world).1;
            })
            >>= λ st'.
                some (write (size t.fmt_buffer) (sys_write sid t.fmt_buffer t.world).0, st')))
  unfolding send_text
  send_text-fails log sid t here bad =
      let (message, e) =
        write_message-fails (size t.fmt_buffer) (sys_write sid t.fmt_buffer t.world).0 bad in
      (message, e, rw (here, e) refl)

  -- A send that does not fail is a debug message first.
  pub send_text-sends :
      (log : Severity → String → List Argument → Log W → Option (Log W)) (sid : ℕ) (t : Log W)
      → contains sid ids ≡ true
      → fails sid t.fmt_buffer t.world ≡ false
      → (message : String) × (args : List Argument) × (send_text host log ids sid t ≡ (
          log debug message args (record t {
            sent = (sid, t.fmt_buffer) ∷ t.sent;
            world = (sys_write sid t.fmt_buffer t.world).1;
          })
          >>= λ st'. some (write (size t.fmt_buffer) (sys_write sid t.fmt_buffer t.world).0, st')))
  unfolding send_text
  send_text-sends log sid t here good =
      let (message, args, e) =
        write_message-sends (size t.fmt_buffer) (sys_write sid t.fmt_buffer t.world).0 good in
      (message, args, rw (here, e) refl)

  pub send_text-stuck :
      (log : Severity → String → List Argument → Log W → Option (Log W)) (sid : ℕ) (t : Log W)
      → contains sid ids ≡ true
      → fails sid t.fmt_buffer t.world ≡ true
      → ((message : String) (t' : Log W) → log error message [] t' ≡ none)
      → send_text host log ids sid t ≡ none
  send_text-stuck log sid t here bad stuck =
      let (m, _, e) = send_text-fails log sid t here bad in rw e (rw (stuck m) refl)
