-- ===== src/Serializer/Command/Wire.antt =====
-- What `build_command` puts on the wire: the header and then each argument's own bytes, whatever
-- the pack and the buffer held before.
use koheron_server.Base.{
  ℕ, suc, ◌+◌, ◌-◌, ◌%◌, ◌^◌, ◌≤◌, ◌<◌, ◌≡◌, refl, sym, ap, ◌∙◌, Bool, true, false, none, some,
  List, [], ◌∷◌, ◌++◌, arith, ltb, leb, ◌&&◌, length, take, drop, replicate, append_assoc,
  append-nil, length-append, length-drop, length-take, length-replicate, take-length,
  take-prefix_two, inl, inr, Bool-cases, leb→le,
}
use mathlib.Core.Option
use koheron_server.Serializer.Scalar.{Scalar, Value, uint32, size_of, append, length-append_scalar}
use koheron_server.Serializer.Tuple.{write_at-append, serialize-eq-encode, encode, length-encode}
use koheron_server.Serializer.Command.{
  Arg, scalar, container, array, c_string, Serializer, State, append_scalar, dump_scalar_pack,
  dump_container_to_buffer, dump_array_to_buffer, serialize_container, serialize_array,
  header_types, resize, put_header, finish_command, build_command,
}

-- A length-prefixed sequence of bytes.
abbrev pub sized_bytes : List ℕ → List ℕ
sized_bytes bytes = append uint32 (length bytes) ++ bytes

-- The bytes of one argument, and of all of them.
unfoldable pub arg_bytes : Arg → List ℕ
arg_bytes (scalar t v) = append t v
arg_bytes (container bytes) = sized_bytes bytes
arg_bytes (array bytes) = bytes
arg_bytes (c_string chars) = sized_bytes chars

unfoldable pub payload : List Arg → List ℕ
payload [] = []
payload (a ∷ args) = arg_bytes a ++ payload args

-- Each run of scalars fits into a pack of `cap` bytes of which `used` are in use.
unfoldable pub runs_fit : ℕ → ℕ → List Arg → Bool
runs_fit cap used [] = true
runs_fit cap used (scalar t v ∷ args) =
    leb (used + size_of t) cap && runs_fit cap (used + size_of t) args
runs_fit cap used (_ ∷ args) = runs_fit cap 0 args

-- The sizes that go into a uint32_t fit into it.
abbrev pub IsSized : Arg → Type 0
IsSized (scalar t v) = Unit {0}
IsSized (container bytes) = length bytes < 2 ^ 32
IsSized (array bytes) = Unit {0}
IsSized (c_string chars) = length chars < 2 ^ 32

abbrev pub AreSized : List Arg → Type 0
AreSized [] = Unit {0}
AreSized (a ∷ args) = IsSized a × AreSized args

abbrev pending : Serializer → List ℕ
pending s = take s.scal_size s.scal_data

-- What a state stands for: the buffer and the scalars that wait in the pack.
abbrev bytes_of : State → List ℕ
bytes_of (s, buffer) = buffer ++ pending s

emptied : Serializer → Serializer
emptied s = record s { scal_size = 0 }

dump-eq :
    (s : Serializer) (buffer : List ℕ)
    → dump_scalar_pack (s, buffer) ≡ (emptied s, bytes_of (s, buffer))
unfolding dump_scalar_pack emptied
dump-eq s buffer = elim (Bool-cases (ltb 0 s.scal_size)) [
  | inl e ↦ rw e
  | inr e ↦ let z : s.scal_size ≡ 0 = ground arith in rw e (ground (arith, z, append-nil buffer))
]

container-bytes :
    (buffer bytes : List ℕ)
    → length bytes < 2 ^ 32
    → dump_container_to_buffer buffer bytes ≡ buffer ++ sized_bytes bytes
unfolding dump_container_to_buffer
container-bytes buffer [] h = ap (◌++◌ buffer) (sym (append-nil (append uint32 0)))
container-bytes buffer (b ∷ bytes) h =
    let whole : suc (length bytes) % 2 ^ 32 ≡ suc (length bytes) = omega arith in
    rw whole (
      ground (
        arith,
        take-length bytes,
        append_assoc buffer (append uint32 (suc (length bytes))) (b ∷ bytes),
      ))

array-bytes : (buffer bytes : List ℕ) → dump_array_to_buffer buffer bytes ≡ buffer ++ bytes
unfolding dump_array_to_buffer
array-bytes buffer [] = sym (append-nil buffer)
array-bytes buffer (b ∷ bytes) = ground arith

-- A scalar that fits goes behind the scalars that wait.
append_scalar-pending :
    (t : Scalar) (v : Value t) (s : Serializer)
    → s.scal_size + size_of t ≤ length s.scal_data
    → (s' : Serializer) × (append_scalar t v s ≡ some s')
      × (pending s' ≡ pending s ++ append t v)
      × (s'.scal_size ≡ s.scal_size + size_of t)
      × (length s'.scal_data ≡ length s.scal_data)
unfolding append_scalar
append_scalar-pending t v s h = (
  record {
    scal_data = pending s ++ (append t v ++ drop (s.scal_size + length (append t v)) s.scal_data);
    scal_size = s.scal_size + size_of t;
  },
  ground (arith, length-append_scalar t v),
  take-prefix_two s.scal_size (size_of t) (pending s) (append t v) _ taken
      (length-append_scalar t v),
  refl,
  omega (
    arith,
    taken,
    length-append_scalar t v,
    length-append (pending s) (append t v ++ drop (s.scal_size + length (append t v)) s.scal_data),
    length-append (append t v) (drop (s.scal_size + length (append t v)) s.scal_data),
    length-drop (s.scal_size + length (append t v)) s.scal_data,
  ),
)
  where
    taken : length (pending s) ≡ s.scal_size
    taken = omega (arith, length-take s.scal_size s.scal_data)

container-state :
    (bytes : List ℕ) (s : Serializer) (buffer : List ℕ)
    → serialize_container bytes (s, buffer)
      ≡ (emptied s, dump_container_to_buffer (bytes_of (s, buffer)) bytes)
unfolding serialize_container
container-state bytes s buffer = rw (dump-eq s buffer)

container-eq :
    (bytes : List ℕ) (s : Serializer) (buffer : List ℕ)
    → length bytes < 2 ^ 32
    → serialize_container bytes (s, buffer) ≡ (emptied s, bytes_of (s, buffer) ++ sized_bytes bytes)
container-eq bytes s buffer h =
    rw (container-state bytes s buffer, container-bytes (bytes_of (s, buffer)) bytes h)

array-eq :
    (bytes : List ℕ) (s : Serializer) (buffer : List ℕ)
    → serialize_array bytes (s, buffer) ≡ (emptied s, bytes_of (s, buffer) ++ bytes)
unfolding serialize_array
array-eq bytes s buffer = rw (dump-eq s buffer, array-bytes (bytes_of (s, buffer)) bytes)

regroup : (xs ys zs : List ℕ) → ((xs ++ ys) ++ []) ++ zs ≡ xs ++ (ys ++ zs)
regroup xs ys zs = rw (append-nil, append_assoc)

-- With runs that fit, the arguments' bytes follow what the state stands for.
finish-bytes :
    (args : List Arg) (s : Serializer) (buffer : List ℕ) (cap : ℕ)
    → length s.scal_data ≡ cap
    → runs_fit cap s.scal_size args ≡ true
    → AreSized args
    → Option.map (λ st. st.1) (finish_command args (s, buffer))
      ≡ some (bytes_of (s, buffer) ++ payload args)
unfolding finish_command runs_fit payload arg_bytes emptied
finish-bytes [] s buffer cap e f z = rw (dump-eq s buffer) (ap some (sym (append-nil _)))
finish-bytes (scalar t v ∷ args) s buffer cap e f z =
    let (s', made, pend, size, len) = append_scalar-pending t v s (ground arith) in
    rw made (
      finish-bytes args s' buffer cap (omega arith) (ground arith) z.1
      ∙ ap some (
          rw (pend, append_assoc buffer (pending s ++ append t v) (payload args))
            (ground (
              arith,
              append_assoc (pending s) (append t v) (payload args),
              append_assoc buffer (pending s) (append t v ++ payload args),
            ))))
finish-bytes (container bytes ∷ args) s buffer cap e f z = rw (container-eq bytes s buffer z.0) (
    finish-bytes args (emptied s) _ cap e f z.1
    ∙ ap some (regroup (bytes_of (s, buffer)) (sized_bytes bytes) (payload args)))
finish-bytes (array bytes ∷ args) s buffer cap e f z = rw (array-eq bytes s buffer) (
    finish-bytes args (emptied s) _ cap e f z.1
    ∙ ap some (regroup (bytes_of (s, buffer)) bytes (payload args)))
finish-bytes (c_string bytes ∷ args) s buffer cap e f z = rw (container-eq bytes s buffer z.0) (
    finish-bytes args (emptied s) _ cap e f z.1
    ∙ ap some (regroup (bytes_of (s, buffer)) (sized_bytes bytes) (payload args)))

-- The header's bytes.
abbrev pub header : ℕ → ℕ → List ℕ
header class_id func_id = encode header_types (0, (class_id, (func_id, tt)))

length-resize : (n : ℕ) (buffer : List ℕ) → length (resize n buffer) ≡ n
length-resize n buffer = omega (
  arith,
  length-append (take n buffer) (replicate (n - length buffer) 0),
  length-take n buffer,
  length-replicate {A = ℕ} (n - length buffer) 0,
)

put_header-eq :
    (class_id func_id : ℕ) (buffer : List ℕ)
    → put_header class_id func_id buffer ≡ some (header class_id func_id)
unfolding put_header encode append
put_header-eq class_id func_id buffer =
    rw (serialize-eq-encode header_types (0, (class_id, (func_id, tt))) (replicate 8 0) refl) (
      let overwritten = write_at-append [] (header class_id func_id) (resize 8 buffer) [] 0 refl (
        length-resize 8 buffer ∙ sym (length-encode header_types (0, (class_id, (func_id, tt))))) in
      rw append-nil at overwritten)

-- A command that `build_command` builds is the header and the arguments' bytes, whatever the pack
-- and the buffer held before, provided that each run of scalars fits into the pack and each size
-- into a uint32_t.
pub build_command-eq-wire :
    (class_id func_id : ℕ) (args : List Arg) (s : Serializer) (buffer : List ℕ)
    → runs_fit (length s.scal_data) 0 args ≡ true
    → AreSized args
    → Option.map (λ st. st.1) (build_command class_id func_id args (s, buffer))
      ≡ some (header class_id func_id ++ payload args)
unfolding build_command payload
build_command-eq-wire class_id func_id [] s buffer f z =
    rw (put_header-eq class_id func_id buffer)
      (ap some (sym (append-nil (header class_id func_id))))
build_command-eq-wire class_id func_id (a ∷ args) s buffer f z =
    rw (put_header-eq class_id func_id buffer) (
      finish-bytes (a ∷ args) (record s { scal_size = 0 }) (header class_id func_id)
        (length s.scal_data) refl f z
      ∙ ap some
          (ap (λ (xs : List ℕ). xs ++ payload (a ∷ args)) (append-nil (header class_id func_id))))

append_scalar-none :
    (t : Scalar) (v : Value t) (s : Serializer)
    → length s.scal_data < s.scal_size + size_of t
    → append_scalar t v s ≡ none
unfolding append_scalar
append_scalar-none t v s h = ground (arith, length-append_scalar t v)

finish-none :
    (args : List Arg) (s : Serializer) (buffer : List ℕ)
    → runs_fit (length s.scal_data) s.scal_size args ≡ false
    → finish_command args (s, buffer) ≡ none
unfolding finish_command runs_fit emptied
finish-none [] s buffer f = cc
finish-none (scalar t v ∷ args) s buffer f =
    elim (Bool-cases (leb (s.scal_size + size_of t) (length s.scal_data))) [
      | inl fits ↦
          let (s', made, pend, size, len) = append_scalar-pending t v s (leb→le _ _ fits) in
          rw made (finish-none args s' buffer (rw (size, len) (ground arith)))
      | inr over ↦ rw (append_scalar-none t v s (ground arith))
    ]
finish-none (container bytes ∷ args) s buffer f =
    rw (container-state bytes s buffer) (finish-none args (emptied s) _ f)
finish-none (array bytes ∷ args) s buffer f =
    rw (array-eq bytes s buffer) (finish-none args (emptied s) _ f)
finish-none (c_string bytes ∷ args) s buffer f =
    rw (container-state bytes s buffer) (finish-none args (emptied s) _ f)

-- A run of scalars that is longer than the pack is written past the end of `scal_data`.
pub build_command_overflow :
    (class_id func_id : ℕ) (args : List Arg) (s : Serializer) (buffer : List ℕ)
    → runs_fit (length s.scal_data) 0 args ≡ false
    → build_command class_id func_id args (s, buffer) ≡ none
unfolding build_command runs_fit
build_command_overflow class_id func_id [] s buffer f = cc
build_command_overflow class_id func_id (a ∷ args) s buffer f =
    rw (put_header-eq class_id func_id buffer)
      (finish-none (a ∷ args) (record s { scal_size = 0 }) (header class_id func_id) f)
