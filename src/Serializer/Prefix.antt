-- ===== src/Serializer/Prefix.antt =====
-- `extract` and `deserialize` read nothing behind the bytes that they need.
use koheron_server.Base.{
  ℕ, zero, suc, ◌+◌, ◌≡◌, refl, Option, none, some, List, [], ◌∷◌, ◌++◌, drop, ◌>>=◌, ◌⊎◌, inl, inr,
}
use mathlib.Core.Option
use koheron_server.Serializer.Scalar.{
  Scalar, size_of, uint8, int8, uint16, int16, uint32, int32, uint64, int64, float, double, boolean,
  extract, extract_u8, extract_u16, extract_u32, extract_u64,
}
use koheron_server.Serializer.Tuple.{Tuple, deserialize}

-- A reader gives nothing on `xs`, or the same on whatever starts with `xs`.
abbrev Stays {ℓ} : {A : Type ℓ} → (List ℕ → Option A) → List ℕ → List ℕ → Type ℓ
Stays f xs ys = (f xs ≡ none) ⊎ (f (xs ++ ys) ≡ f xs)

u8-Stays : (xs ys : List ℕ) → Stays extract_u8 xs ys
u8-Stays [] ys = inl refl
u8-Stays (a ∷ xs) ys = inr refl

u16-Stays : (xs ys : List ℕ) → Stays extract_u16 xs ys
u16-Stays [] ys = inl refl
u16-Stays (a ∷ []) ys = inl refl
u16-Stays (a ∷ b ∷ xs) ys = inr refl

u32-Stays : (xs ys : List ℕ) → Stays extract_u32 xs ys
u32-Stays [] ys = inl refl
u32-Stays (a ∷ []) ys = inl refl
u32-Stays (a ∷ b ∷ []) ys = inl refl
u32-Stays (a ∷ b ∷ c ∷ []) ys = inl refl
u32-Stays (a ∷ b ∷ c ∷ d ∷ xs) ys = inr refl

u64-Stays : (xs ys : List ℕ) → Stays extract_u64 xs ys
u64-Stays [] ys = inl refl
u64-Stays (a ∷ []) ys = inl refl
u64-Stays (a ∷ b ∷ []) ys = inl refl
u64-Stays (a ∷ b ∷ c ∷ []) ys = inl refl
u64-Stays (a ∷ b ∷ c ∷ d ∷ xs) ys = elim (u32-Stays xs ys) [
  | inl e ↦ inl (rw e refl)
  | inr e ↦ inr (rw e refl)
]

map-Stays :
    {A B : Type 0} (g : A → B) (f : List ℕ → Option A) (xs ys : List ℕ)
    → Stays f xs ys
    → Stays (λ zs. Option.map g (f zs)) xs ys
map-Stays g f xs ys (inl e) = inl (rw e refl)
map-Stays g f xs ys (inr e) = inr (rw e refl)

extract-Stays : (t : Scalar) (xs ys : List ℕ) → Stays (extract t) xs ys
unfolding extract
extract-Stays uint8 xs ys = u8-Stays xs ys
extract-Stays int8 xs ys = map-Stays _ extract_u8 xs ys (u8-Stays xs ys)
extract-Stays uint16 xs ys = u16-Stays xs ys
extract-Stays int16 xs ys = map-Stays _ extract_u16 xs ys (u16-Stays xs ys)
extract-Stays uint32 xs ys = u32-Stays xs ys
extract-Stays int32 xs ys = map-Stays _ extract_u32 xs ys (u32-Stays xs ys)
extract-Stays uint64 xs ys = u64-Stays xs ys
extract-Stays int64 xs ys = map-Stays _ extract_u64 xs ys (u64-Stays xs ys)
extract-Stays float xs ys = u32-Stays xs ys
extract-Stays double xs ys = u64-Stays xs ys
extract-Stays boolean xs ys = map-Stays _ extract_u8 xs ys (u8-Stays xs ys)

drop-append_some : (n : ℕ) (xs ys : List ℕ) → (zs : List ℕ) × (drop n (xs ++ ys) ≡ drop n xs ++ zs)
drop-append_some zero xs ys = (ys, refl)
drop-append_some (suc n) [] ys = (drop (suc n) ys, refl)
drop-append_some (suc n) (x ∷ xs) ys = drop-append_some n xs ys

>>=-parts :
    {A B : Type 0} (m : Option A) (k : Option B) {w : A × B}
    → (m >>= λ v. k >>= λ us. some (v, us)) ≡ some w
    → (v : A) × (us : B) × (m ≡ some v) × (k ≡ some us) × (some (v, us) ≡ some w)
>>=-parts none k e = absurd (cc)
>>=-parts (some v) none e = absurd (cc)
>>=-parts (some v) (some us) e = (v, us, refl, refl, e)

-- A tuple that is read from some bytes is also read from them with more behind.
pub deserialize-more :
    (n : ℕ) (ts : List Scalar) (xs ys : List ℕ) {vs : Tuple ts}
    → deserialize n ts xs ≡ some vs
    → deserialize n ts (xs ++ ys) ≡ some vs
unfolding deserialize
deserialize-more n [] xs ys e = e
deserialize-more n (t ∷ ts) xs ys {vs} e =
    let (v, us, here, later, whole) =
      >>=-parts (extract t (drop n xs)) (deserialize (n + size_of t) ts xs) e in
    let (zs, split) = drop-append_some n xs ys in
    let next = deserialize-more (n + size_of t) ts xs ys later in
    elim (extract-Stays t (drop n xs) zs) [
      | inl stop ↦ absurd (cc)
      | inr same ↦ rw (split, same, here, next) whole
    ]
