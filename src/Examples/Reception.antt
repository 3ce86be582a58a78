-- ===== src/Examples/Reception.antt =====
-- The reception of bytes, commands, vectors and strings over TCP.
use koheron_server.Base.{
  ℕ, ◌≡◌, refl, true, some, List, [], ◌∷◌, ◌++◌, arith, ℤ, pos, minus_one, leb,
}
use mathlib.Core.Option
use koheron_server.Serializer.Scalar.{uint16}
use koheron_server.Serializer.Command.{Arg, scalar, container, Serializer, build_command}
use koheron_server.Serializer.Command.Wire.{header, payload, runs_fit, build_command-eq-wire}
use koheron_server.Buffer.{Command, new_command, header_size}
use koheron_server.Tcp.Receive.{rcv_n_bytes, Ends, to_int, rcv_n_bytes-Ends, rcv_n_bytes-delivers}
use koheron_server.Tcp.Session.{read_command, get_pack_length}
use koheron_server.Tcp.Session.Arguments.{TakesAll, build_command-TakesAll}
use koheron_server.Examples.Sockets.{trickle, trickle-Delivers, trickle-Bounded, failing}

-- The peer closes after two of five bytes.
rcv_n_bytes-Ends_example :
    (code : ℤ) × (bytes : List ℕ) × (s' : List ℕ) × (rcv_n_bytes trickle 5 (1 ∷ 2 ∷ [])
      ≡ some (code, bytes, s'))
    × Ends trickle 5 code bytes s'
rcv_n_bytes-Ends_example = rcv_n_bytes-Ends trickle 5 (1 ∷ 2 ∷ []) trickle-Bounded

rcv_n_bytes-delivers_example :
    (s' : List ℕ) × (rcv_n_bytes trickle 2 (1 ∷ 2 ∷ 3 ∷ []) ≡ some (to_int 2, 1 ∷ 2 ∷ [], s'))
    × (s' ≡ 3 ∷ [])
rcv_n_bytes-delivers_example =
    rcv_n_bytes-delivers trickle trickle-Delivers (1 ∷ 2 ∷ []) (3 ∷ []) (1 ∷ 2 ∷ 3 ∷ []) refl

abbrev pub two_args : List Arg
two_args = scalar uint16 513 ∷ container (10 ∷ 20 ∷ []) ∷ []

abbrev pub small_pack : Serializer
small_pack = record { scal_data = 1 ∷ 2 ∷ []; scal_size = 1 }

abbrev pub old_memory : List ℕ
old_memory = 9 ∷ 8 ∷ 7 ∷ 6 ∷ 5 ∷ 4 ∷ 3 ∷ 2 ∷ []

pub two_args_fit : runs_fit 2 0 two_args ≡ true
unfolding runs_fit
two_args_fit = refl

pub two_args_built :
    Option.map (λ st. st.1) (build_command 3 7 two_args (small_pack, []))
    ≡ some (header 3 7 ++ payload two_args)
two_args_built =
    build_command-eq-wire 3 7 two_args small_pack [] two_args_fit (tt, (omega arith, tt))

no_length : get_pack_length failing (0 ∷ 0 ∷ 0 ∷ 0 ∷ []) tt ≡ some (minus_one, tt)
unfolding get_pack_length rcv_n_bytes failing
no_length = refl

build_command-TakesAll_example :
    (cmd : Command) × (s' : List ℕ) × (read_command trickle
        (pos 1)
        (new_command old_memory [])
        ((header 3 7 ++ payload two_args) ++ 99 ∷ [])
      ≡ some (pos header_size, cmd, s'))
    × (cmd.device ≡ 3)
    × (cmd.operation ≡ pos 7)
    × TakesAll trickle trickle-Delivers (λ n. leb n 1000) (0 ∷ 0 ∷ 0 ∷ 0 ∷ []) two_args s' (99 ∷ [])
build_command-TakesAll_example =
    build_command-TakesAll trickle trickle-Delivers (λ n. leb n 1000) (0 ∷ 0 ∷ 0 ∷ 0 ∷ []) 3 7
      two_args small_pack [] (header 3 7 ++ payload two_args) (pos 1) old_memory [] (99 ∷ [])
      ((header 3 7 ++ payload two_args) ++ 99 ∷ []) (omega arith) (omega arith) two_args_fit
      (tt, (omega arith, tt)) (omega arith, ((omega arith, refl), tt)) refl two_args_built refl
