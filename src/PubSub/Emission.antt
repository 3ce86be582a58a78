-- ===== src/PubSub/Emission.antt =====
-- Who receives an event, and what `emit` returns.
use koheron_server.Base.{
  ℕ, ◌+◌, ◌*◌, ◌≡◌, refl, List, [], ◌∷◌, arith, leb, ltb, if◌then◌else◌, length, Option, some, ℤ,
  pos, negsuc, minus_one, is_neg, Bool, true, false, ◌||◌, Bool-cases, inl, inr, ◌%◌, ◌^◌, ◌<◌,
}
use koheron_server.PubSub.{
  Subscribers, channel, emit_loop, emit, emit_text, subscribe_request, subscribe, channels_count,
}

-- Some session of the list answers with an error.
abbrev pub any_error : (ℕ → ℤ) → List ℕ → Bool
any_error answer [] = false
any_error answer (sid ∷ sids) = is_neg (answer sid) || any_error answer sids

-- The state after a send to each session, in order.
abbrev pub send_each : {T : Type 0} → (ℕ → T → T) → List ℕ → T → T
send_each deliver [] t = t
send_each deliver (sid ∷ sids) t = send_each deliver sids (deliver sid t)

module _ {T : Type 0} (send : ℕ → T → Option (ℤ × T)) (answer : ℕ → ℤ) (deliver : ℕ → T → T)
    (alive : ℕ → Bool)
    (sends : (sid : ℕ) (t : T)
      → alive sid ≡ true
      → send sid t ≡ some (answer sid, deliver sid t)) where
  abbrev pub AllAlive : List ℕ → Type 0
  AllAlive [] = Unit {0}
  AllAlive (sid ∷ sids) = (alive sid ≡ true) × AllAlive sids

  emit_loop-each :
      (sids : List ℕ) (err : ℤ) (t : T)
      → AllAlive sids
      → (r : ℤ) × (emit_loop send sids err t ≡ some (r, send_each deliver sids t))
        × (is_neg r ≡ is_neg err || any_error answer sids)
  unfolding emit_loop
  emit_loop-each [] err t h = (err, refl, ground arith)
  emit_loop-each (sid ∷ sids) err t h =
      let err' = if is_neg (answer sid) then answer sid else err in
      let (r, run, neg) = emit_loop-each sids err' (deliver sid t) h.1 in
      (r, rw (sends sid t h.0) run, ground (arith, neg))

  -- While the server runs, an event goes to each subscriber of its channel once, in the order of
  -- subscription and whether or not the earlier sends failed, and `emit` returns a negative value
  -- just if a send did, provided that each subscriber has a session.
  pub emit-each :
      (c : ℕ) (subs : Subscribers) (t : T)
      → AllAlive (channel c subs)
      → (r : ℤ) × (emit send false c subs t ≡ some (r, send_each deliver (channel c subs) t))
        × (is_neg r ≡ any_error answer (channel c subs))
  unfolding emit
  emit-each c subs t h = emit_loop-each (channel c subs) (pos 0) t h

-- What `snprintf` returned leaves room in the buffer of 1024 bytes.
abbrev pub fits_buffer : ℤ → Bool
fits_buffer (pos n) = ltb n 1024
fits_buffer (negsuc n) = false

-- The string overload of `emit` does what `emit` does if the server is interrupted or the formatted
-- text fits into the buffer; otherwise it returns -1 and sends nothing.
pub emit_text-eq-emit :
    {T : Type 0} (send : ℕ → T → Option (ℤ × T)) (interrupted : Bool) (ret : ℤ) (c : ℕ)
    (subs : Subscribers) (t : T)
    → emit_text send interrupted ret c subs t ≡ (
        if interrupted || fits_buffer ret
        then emit send interrupted c subs t
        else some (minus_one, t))
unfolding emit_text emit
emit_text-eq-emit send true ret c subs t = refl
emit_text-eq-emit send false (negsuc n) c subs t = refl
emit_text-eq-emit send false (pos n) c subs t = elim (Bool-cases (leb 1024 n)) [
  | inl over ↦ let e : ltb n 1024 ≡ false = ground arith in rw (over, e) refl
  | inr fits ↦
      let e : ltb n 1024 ≡ true = ground arith in rw (fits, e) (no_subscriber (channel c subs))
]
  where
    no_subscriber :
        (sids : List ℕ)
        → (if ltb 0 (length sids) then emit_loop send sids (pos 0) t else some (pos 0, t))
          ≡ emit_loop send sids (pos 0) t
    no_subscriber [] = refl
    no_subscriber (sid ∷ sids) = ground arith

-- A client that names a channel by a number of 2 ^ 16 or more, whose low 16 bits are a channel's
-- number, is not refused but subscribed to that channel.
pub subscribe_request_wraps :
    (k c sid : ℕ) (subs : Subscribers)
    → c < channels_count
    → ((subscribe_request (k * 2 ^ 16 + c) sid subs).0 ≡ pos 0)
      × ((subscribe_request (k * 2 ^ 16 + c) sid subs).1 ≡ (subscribe c sid subs).1)
unfolding subscribe_request
subscribe_request_wraps k c sid subs h =
    let low : (k * 2 ^ 16 + c) % 2 ^ 16 ≡ c = omega arith in
    rw low (unfold subscribe in ground arith)
