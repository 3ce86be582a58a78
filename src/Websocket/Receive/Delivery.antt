-- ===== src/Websocket/Receive/Delivery.antt =====
-- `read_n_bytes` on a socket that delivers what is asked for.
use koheron_server.Base.{
  ℕ, zero, suc, ◌+◌, ◌-◌, ◌≤◌, ◌<◌, ◌≡◌, ◌≢◌, refl, sym, ap, ◌∙◌, subst, List, [], ◌∷◌, ◌++◌, arith,
  length, take, drop, ℤ, pos, Bool, true, false, append_assoc, append-nil, take-append, drop-past,
  drop-drop, length-append, length-drop,
}
use koheron_server.Tcp.Receive.{ReadResult, received, Delivers, append-split}
use koheron_server.Websocket.Receive.{
  Outcome, done, ◌>>=◌, WebSocket, store, on_read, read_loop, read_n_bytes, kserver_read_str_len,
}

-- The buffer holds the bytes `got`, and then what lies behind them.
pub record Holds {S : Type 0} (w : WebSocket S) (got tail : List ℕ) : Type 0 where
  pub text : w.read_str ≡ got ++ tail
  pub size : w.read_str_len ≡ length got

placed :
    (got g tail : List ℕ)
    → take (length got) (got ++ tail) ++ (g ++ drop (length got + length g) (got ++ tail))
      ≡ (got ++ g) ++ drop (length g) tail
placed got g tail =
    rw (take-append got tail, drop-past got tail (length g))
      (sym (append_assoc got g (drop (length g) tail)))

store-Holds :
    {S : Type 0} (g : List ℕ) (s : S) (w : WebSocket S) (got tail : List ℕ)
    → Holds w got tail
    → length g ≤ length tail
    → (w' : WebSocket S) × (store g s w ≡ done w')
      × Holds w' (got ++ g) (drop (length g) tail)
      × (w'.socket ≡ s)
      × (w'.header ≡ w.header)
      × (w'.connection_closed ≡ w.connection_closed)
store-Holds g s w got tail h fits =
    let n = w.read_str_len in
    let room : n + length g ≤ length w.read_str =
      omega (arith, h.size, ap length h.text, length-append got tail) in
    (
      record w {
        socket = s;
        read_str = take n w.read_str ++ (g ++ drop (n + length g) w.read_str);
        read_str_len = n + length g;
      },
      ground (arith, room),
      record {
        text = rw (h.size, h.text) (placed got g tail);
        size = omega (arith, h.size, length-append got g);
      },
      refl,
      refl,
      refl,
    )

module _ {S : Type 0} (read : S → ℕ → ReadResult × S) where
  on_read-received :
      (g : List ℕ) (s : S) (remaining : ℕ) (w : WebSocket S)
      (again : ℕ → WebSocket S → Outcome (ℤ × WebSocket S))
      → 0 < length g
      → on_read read (received g, s) remaining w again
        ≡ (store g s w >>= λ w'. again (remaining - length g) w')
  on_read-received [] s remaining w again h = absurd (omega arith)
  on_read-received (b ∷ g) s remaining w again h = refl

  module _ (d : Delivers read) where
    -- What a successful read of `bytes` leaves.
    abbrev pub Read : WebSocket S → List ℕ → List ℕ → List ℕ → WebSocket S → Type 0
    Read w got tail rest w' =
        Holds w' got tail
        × (d.content w'.socket ≡ rest)
        × (w'.header ≡ w.header)
        × (w'.connection_closed ≡ w.connection_closed)

    read_loop-delivers :
        (fuel : ℕ) (first : Bool) (bytes rest got tail : List ℕ) (w : WebSocket S)
        → Holds w got tail
        → d.content w.socket ≡ bytes ++ rest
        → length bytes < fuel
        → length bytes ≤ length tail
        → length got + length bytes ≢ kserver_read_str_len
        → (w' : WebSocket S) × (read_loop read fuel first (length bytes) w ≡ done (pos 0, w'))
          × Read w (got ++ bytes) (drop (length bytes) tail) rest w'
    unfolding read_loop
    read_loop-delivers zero first bytes rest got tail w h c f k o = absurd (omega arith)
    read_loop-delivers (suc fuel) first [] rest got tail w h c f k o =
        (w, ground (arith, h.size, o), (rw (append-nil got) h, c, refl, refl))
    read_loop-delivers (suc fuel) first (x ∷ xs) rest got tail w h c f k o =
        let again = read_loop read fuel false in
        let (g, s₁, e, some_byte, most, parts) =
          d.delivers w.socket (suc (length xs)) (omega arith) (rw c (omega arith)) in
        let (left, p, q) =
          append-split g (d.content s₁) (x ∷ xs) rest (sym parts ∙ c) (omega arith) in
        let counts : length g + length left ≡ suc (length xs) =
          omega (arith, ap length p, length-append g left) in
        let (w₁, stored, h₁, at, head₁, open₁) = store-Holds g s₁ w got tail h (omega arith) in
        let (w', run, (h', c', head', open')) =
          read_loop-delivers fuel false left rest (got ++ g) (drop (length g) tail) w₁ h₁
            (ap d.content at ∙ q) (omega arith) (omega (arith, length-drop (length g) tail))
            (λ full. o (omega (arith, full, length-append got g, counts))) in
        let next : suc (length xs) - length g ≡ length left = omega arith in
        (
          w',
          ap (λ (r : ReadResult × S). on_read read r (suc (length xs)) w again) e
              ∙ on_read-received g s₁ (suc (length xs)) w again some_byte
              ∙ ap
                  (λ (o : Outcome (WebSocket S)). o >>= λ w'. again (suc (length xs) - length g) w')
                  stored
              ∙ ap (λ (m : ℕ). again m w₁) next
              ∙ run,
          (rejoin g left w' p h' counts, c', head' ∙ head₁, open' ∙ open₁),
        )
      where
        rejoin :
            (g left : List ℕ) (w' : WebSocket S)
            → x ∷ xs ≡ g ++ left
            → Holds w' ((got ++ g) ++ left) (drop (length left) (drop (length g) tail))
            → length g + length left ≡ suc (length xs)
            → Holds w' (got ++ (x ∷ xs)) (drop (suc (length xs)) tail)
        rejoin g left w' p held counts =
            subst (Holds w' (got ++ (x ∷ xs)))
              (drop-drop (length g) (length left) tail ∙ ap (λ n. drop n tail) counts)
              (subst (λ got'. Holds w' got' (drop (length left) (drop (length g) tail)))
                (append_assoc got g left ∙ ap (got ++◌) (sym p)) held)

    -- From a socket that delivers `bytes` and then `rest`, a read of as many bytes as `bytes` has
    -- puts just these behind the bytes `got` of the buffer, if there is room and the counter does
    -- not end at KSERVER_READ_STR_LEN.
    pub read_n_bytes-delivers :
        (fuel : ℕ) (bytes rest got tail : List ℕ) (w : WebSocket S)
        → Holds w got tail
        → d.content w.socket ≡ bytes ++ rest
        → length bytes < fuel
        → length bytes ≤ length tail
        → length got + length bytes ≢ kserver_read_str_len
        → (w' : WebSocket S) × (read_n_bytes read fuel (pos (length bytes)) w ≡ done (pos 0, w'))
          × Read w (got ++ bytes) (drop (length bytes) tail) rest w'
    unfolding read_n_bytes
    read_n_bytes-delivers fuel bytes rest got tail w h c f k o =
        read_loop-delivers fuel true bytes rest got tail w h c f k o
