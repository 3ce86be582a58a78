-- ===== src/Examples/Wire.antt =====
-- Scalars, tuples and commands as bytes.
use koheron_server.Base.{
  ℕ, ◌≡◌, refl, true, false, none, some, List, [], ◌∷◌, ◌++◌, arith, negsuc, ◌>>=◌,
}
use mathlib.Core.Option
use koheron_server.Serializer.Scalar.{Scalar, uint8, int8, uint16, uint32, double, boolean}
use koheron_server.Serializer.Tuple.{Tuple, serialize, deserialize, deserialize-serialize}
use koheron_server.Serializer.Command.{Arg, scalar, container, Serializer, build_command}
use koheron_server.Serializer.Command.Wire.{
  header, payload, runs_fit, build_command-eq-wire, build_command_overflow,
}

abbrev mixed : List Scalar
mixed = uint16 ∷ int8 ∷ boolean ∷ uint32 ∷ []

abbrev mixed_values : Tuple mixed
mixed_values = (513, (negsuc 4, (true, (70000, tt))))

abbrev old_memory : List ℕ
old_memory = 9 ∷ 8 ∷ 7 ∷ 6 ∷ 5 ∷ 4 ∷ 3 ∷ 2 ∷ []

deserialize-serialize_example :
    (serialize mixed mixed_values old_memory >>= λ bytes.
    deserialize 2 mixed (1 ∷ 2 ∷ bytes ++ 3 ∷ []))
    ≡ some mixed_values
deserialize-serialize_example =
    deserialize-serialize mixed mixed_values old_memory (1 ∷ 2 ∷ []) (3 ∷ []) refl
      (omega arith, (omega arith, (tt, (omega arith, tt))))

abbrev two_runs : List Arg
two_runs =
    scalar uint16 513 ∷ scalar boolean true ∷ container (10 ∷ 20 ∷ 30 ∷ []) ∷ scalar uint8 4 ∷ []

abbrev small_pack : Serializer
small_pack = record { scal_data = 1 ∷ 2 ∷ 3 ∷ []; scal_size = 2 }

two_runs_fit : runs_fit 3 0 two_runs ≡ true
unfolding runs_fit
two_runs_fit = refl

build_command-eq-wire_example :
    Option.map (λ st. st.1) (build_command 3 7 two_runs (small_pack, 5 ∷ 5 ∷ []))
    ≡ some (header 3 7 ++ payload two_runs)
build_command-eq-wire_example =
    build_command-eq-wire 3 7 two_runs small_pack (5 ∷ 5 ∷ []) two_runs_fit
      (tt, (tt, (omega arith, (tt, tt))))

-- A double and a byte do not fit into a pack of three bytes.
abbrev long_run : List Arg
long_run = scalar double 1 ∷ scalar uint8 4 ∷ []

long_run_overflows : runs_fit 3 0 long_run ≡ false
unfolding runs_fit
long_run_overflows = refl

build_command_overflow_example : build_command 3 7 long_run (small_pack, []) ≡ none
build_command_overflow_example =
    build_command_overflow 3 7 long_run small_pack [] long_run_overflows
