-- ===== src/Listener/Setup.antt =====
-- The descriptors of listening and accepted sockets, and the life of a channel around its thread.
use koheron_server.Base.{
  ℕ, ◌≡◌, refl, [], ◌∷◌, arith, ltb, if◌then◌else◌, ◌&&◌, not, ◌⊎◌, ℤ, pos, negsuc, is_neg, Bool,
  true, false,
}
use koheron_server.Listener.{
  Closing, TcpAnswers, create_tcp_listening, create_unix_listening, OptionAnswers,
  set_comm_sock_opts, open_tcp_communication, new_endpoint, init, start_worker, shutdown,
  join_worker,
}

-- A descriptor that was opened is returned open, or closed once and an error is returned.
abbrev pub IsKept : ℤ → Closing → Type 0
IsKept (negsuc n) (result, closed) = (is_neg result ≡ true) × (closed ≡ [])
IsKept (pos fd) (result, closed) =
    ((result ≡ pos fd) × (closed ≡ [])) ⊎ ((is_neg result ≡ true) × (closed ≡ fd ∷ []))

create_tcp_listening-IsKept :
    (a : TcpAnswers) (opened : ℤ) → a.opened ≡ opened → IsKept opened (create_tcp_listening a)
unfolding create_tcp_listening
create_tcp_listening-IsKept a (negsuc n) e = rw e (refl, refl)
create_tcp_listening-IsKept a (pos fd) e = rw e (ground arith)

create_unix_listening-IsKept :
    (opened bound : ℤ) → IsKept opened (create_unix_listening opened bound)
unfolding create_unix_listening
create_unix_listening-IsKept (negsuc n) bound = (refl, refl)
create_unix_listening-IsKept (pos fd) bound = ground arith

open_tcp_communication-IsKept :
    (accepted : ℤ) (tcp_nodelay : Bool) (o : OptionAnswers)
    → IsKept accepted (open_tcp_communication accepted tcp_nodelay o)
unfolding open_tcp_communication set_comm_sock_opts
open_tcp_communication-IsKept (negsuc n) tcp_nodelay o = (refl, refl)
open_tcp_communication-IsKept (pos fd) tcp_nodelay o = ground arith

-- Whatever the system calls answer, `create_tcp_listening`, `create_unix_listening` and
-- `open_tcp_communication` return the descriptor that they opened and have closed none, or return
-- a negative number and have closed just that descriptor once, if there was one.
pub descriptors-IsKept :
    (a : TcpAnswers) (opened bound accepted : ℤ) (tcp_nodelay : Bool) (o : OptionAnswers)
    → IsKept a.opened (create_tcp_listening a)
      × IsKept opened (create_unix_listening opened bound)
      × IsKept accepted (open_tcp_communication accepted tcp_nodelay o)
descriptors-IsKept a opened bound accepted tcp_nodelay o = (
  create_tcp_listening-IsKept a a.opened refl,
  create_unix_listening-IsKept opened bound,
  open_tcp_communication-IsKept accepted tcp_nodelay o,
)

-- For a channel whose `init` returned no error: `start_worker` starts a thread, and `join_worker`
-- joins one, just if the configuration has workers for the channel, the starting only if `listen`
-- gave no error; and `shutdown` closes just the descriptor that `init` was given, or none.
pub init-shutdown :
    (created listened : ℤ) (n : ℕ)
    → is_neg (init created (new_endpoint n)).0 ≡ false
    → let e = (init created (new_endpoint n)).1 in
      ((start_worker listened e).1 ≡ (ltb 0 n && not (is_neg listened)))
      × (join_worker e ≡ ltb 0 n)
      × (shutdown e ≡ (if ltb 0 n then created ∷ [] else []))
unfolding init start_worker shutdown join_worker
init-shutdown created listened n h = ground arith
