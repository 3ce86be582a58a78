-- ===== src/Transport/Items.antt =====
-- What the bytes of a command say, read without a session.
use koheron_server.Base.{
  ℕ, ◌*◌, ◌/◌, ◌≤◌, ◌≡◌, refl, sym, Option, none, some, List, [], ◌∷◌, ◌++◌, arith, leb, ◌&&◌,
  if◌then◌else◌, ◌>>=◌, is_neg, length, take, drop, Bool, true, false, Bool-cases, inl, inr,
  take-append-drop, length-take, >>=-eq-some, drop-append,
}
use koheron_server.Serializer.Scalar.{uint32, size_of}
use koheron_server.Serializer.Tuple.{required_buffer_size, deserialize}
use koheron_server.Buffer.{Buffer}
use koheron_server.Tcp.Receive.{to_int}
use koheron_server.Websocket.Session.{cmd_payload_buffer_len}
use koheron_server.Websocket.Session.Arguments.{At}
use koheron_server.Transport.{Request, tuple, string, vector, array, Item, values, bytes}

-- The next `n` bytes and the rest, if there are as many and the payload's limit allows them.
abbrev pub chunk : ℕ → List ℕ → Option (List ℕ × List ℕ)
chunk n bs =
    if leb n (length bs) && leb n cmd_payload_buffer_len then some (take n bs, drop n bs) else none

-- The number in front of a string or a vector, and the bytes behind it.
abbrev pub counted : List ℕ → Option (ℕ × List ℕ)
counted bs = chunk 4 bs >>= λ (front, rest). deserialize 0 (uint32 ∷ []) front >>= λ n.
    if leb n.0 cmd_payload_buffer_len then some (n.0, rest) else none

abbrev pub as_bytes : List ℕ × List ℕ → Option (Item × List ℕ)
as_bytes (bs, rest) = some (bytes bs, rest)

-- What the bytes say, read without a session: the next item and the bytes behind it.
unfoldable pub item : (ℕ → Bool) → Request → List ℕ → Option (Item × List ℕ)
item can_resize (tuple ts) bs = chunk (required_buffer_size ts) bs >>= λ (front, rest).
    deserialize 0 ts front >>= λ vs. some (values ts vs, rest)
item can_resize string bs =
    counted bs >>= λ (n, rest). if can_resize n then (chunk n rest >>= as_bytes) else none
item can_resize (vector size) bs = counted bs >>= λ (n, rest).
    if can_resize (n / size) then (chunk (n / size * size) rest >>= as_bytes) else none
item can_resize (array t n) bs = chunk (size_of t * n) bs >>= as_bytes

unfoldable pub items : (ℕ → Bool) → List Request → List ℕ → Option (List Item × List ℕ)
items can_resize [] bs = some ([], bs)
items can_resize (r ∷ rs) bs = item can_resize r bs >>= λ (i, rest).
    items can_resize rs rest >>= λ (is, rest'). some (i ∷ is, rest')

pub some_pair :
    {A B : Type 0} {a c : A} {b d : B}
    → ◌≡◌ {A = Option (A × B)} (some (a, b)) (some (c, d))
    → (a ≡ c) × (b ≡ d)
some_pair e = (cc, cc)

pub chunk-parts :
    (n : ℕ) (bs : List ℕ) {front rest : List ℕ}
    → chunk n bs ≡ some (front, rest)
    → (bs ≡ front ++ rest) × (length front ≡ n) × (n ≤ cmd_payload_buffer_len)
chunk-parts n bs {front} {rest} e =
    elim (Bool-cases (leb n (length bs) && leb n cmd_payload_buffer_len)) [
      | inr no_room ↦ absurd (ground (arith, e, no_room))
      | inl room ↦
          let same : some (take n bs, drop n bs) ≡ some (front, rest) = rw room at e in
          let (f, r) = some_pair same in
          (
            rw (← f, ← r) (sym (take-append-drop n bs)),
            rw (← f) (ground (arith, length-take n bs, room)),
            ground (arith, room),
          )
    ]

pub to_int-small : (n : ℕ) → n ≤ cmd_payload_buffer_len → is_neg (to_int n) ≡ false
to_int-small n h = ground arith

-- The parts of what `counted` gives.
pub counted-parts :
    (bs : List ℕ) {n : ℕ} {rest : List ℕ}
    → counted bs ≡ some (n, rest)
    → (front : List ℕ) × (chunk 4 bs ≡ some (front, rest))
      × (deserialize 0 (uint32 ∷ []) front ≡ some (n, tt))
      × (n ≤ cmd_payload_buffer_len)
counted-parts bs {n} {rest} e =
    let ((front, rest'), first, e₁) = >>=-eq-some (chunk 4 bs) _ e in
    let ((len, u), number, e₂) = >>=-eq-some (deserialize 0 (uint32 ∷ []) front) _ e₁ in
    elim (Bool-cases (leb len cmd_payload_buffer_len)) [
      | inr over ↦ absurd (ground (arith, e₂, over))
      | inl within ↦
          let same : some (len, rest') ≡ some (n, rest) = rw within at e₂ in
          let (l, r) = some_pair same in
          (front, rw (← r) first, rw (← l) number, rw (← l) (ground (arith, within)))
    ]

-- The parts of what a string or a vector gives once its length is known.
pub body-parts :
    (ok : Bool) (m : ℕ) (bs : List ℕ) {i : Item} {rest : List ℕ}
    → (if ok then (chunk m bs >>= as_bytes) else none) ≡ some (i, rest)
    → (front : List ℕ) × (ok ≡ true) × (chunk m bs ≡ some (front, rest)) × (bytes front ≡ i)
body-parts false m bs e = absurd (cc)
body-parts true m bs e =
    let ((front, behind), first, e₁) = >>=-eq-some (chunk m bs) _ e in
    let (same, r) = some_pair e₁ in (front, refl, rw (← r) first, same)

pub length-zero : (bs : List ℕ) → length bs ≡ 0 → bs ≡ []
length-zero [] e = refl
length-zero (x ∷ bs) e = absurd (omega arith)

pub At-begin : (b : Buffer) (rest : List ℕ) → At b rest → drop b.position b.bytes ≡ rest
At-begin b rest a = rw (a.text, a.place) (drop-append a.front rest)
