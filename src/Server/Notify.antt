-- ===== src/Server/Notify.antt =====
-- `notify_systemd_ready` of core/kserver.cpp: the address and the message that systemd is sent, and
-- what becomes of the descriptor. Texts are lists of bytes; what `socket`, `malloc` and `sendmsg`
-- answered are arguments, and messages to the log are left out.
use mathlib.Core.Option
use koheron_server.Base.{
  subst, ℕ, ◌+◌, ◌-◌, ◌%◌, ◌^◌, ◌≤◌, ◌≡◌, refl, ap, Option, none, some, List, [], ◌∷◌, ◌++◌, arith,
  ltb, ◌==◌, if◌then◌else◌, length, take, replicate, ℤ, pos, negsuc, Bool, true, false, take-prefix,
  take-length, Bool-cases, inl, inr,
}

-- `sizeof(sun_path)` and `sizeof(struct sockaddr_un)`
abbrev pub sun_path_size : ℕ
sun_path_size = 108

abbrev pub sockaddr_un_size : ℕ
sockaddr_un_size = 110

-- `strncpy(sun_path, notify_socket, UMIN(len, sizeof(sun_path)))` into zeros.
abbrev pub copied : List ℕ → List ℕ
copied notify_socket =
    let n =
      if ltb (length notify_socket) sun_path_size then length notify_socket else sun_path_size in
    take n notify_socket ++ replicate (sun_path_size - n) 0

-- A leading '@' (64) becomes 0.
abbrev pub abstract_name : List ℕ → List ℕ
abstract_name [] = []
abstract_name (b ∷ bytes) = (if b == 64 then 0 else b) ∷ bytes

-- `sizeof(struct sockaddr_un) - (sizeof(sun_path) - len)`, a size_t, in a socklen_t.
abbrev pub name_length : ℕ → ℕ
name_length len =
    (sockaddr_un_size + 2 ^ 64 - (sun_path_size + 2 ^ 64 - len) % 2 ^ 64) % 2 ^ 64 % 2 ^ 32

-- The address and the length of the message.
pub record Message : Type 0 where
  pub sun_path : List ℕ
  pub msg_namelen : ℕ
  pub iov_len : ℕ

-- What happened: the message given to `sendmsg`, if any, whether its block was freed, and the
-- descriptors that were shut down and closed.
pub record Notified : Type 0 where
  pub message : Option Message
  pub freed : Bool
  pub closed : List ℕ

-- `state_len` is the length of the text that is sent, `allocated` whether `malloc` gave a block.
unfoldable pub notify_systemd_ready : List ℕ → ℕ → ℤ → Bool → Notified
notify_systemd_ready notify_socket state_len (negsuc n) allocated = record {
  message = none;
  freed = false;
  closed = [];
}
notify_systemd_ready notify_socket state_len (pos sd_notif_fd) allocated =
    if allocated
    then record {
      message = some (record {
        sun_path = abstract_name (copied notify_socket);
        msg_namelen = name_length (length notify_socket);
        iov_len = state_len;
      });
      freed = true;
      closed = sd_notif_fd ∷ [];
    }
    else record { message = none; freed = false; closed = sd_notif_fd ∷ [] }

-- The bytes of the path that a message's address names, behind the two of its family.
abbrev pub named : Message → List ℕ
named m = take (m.msg_namelen - 2) m.sun_path

copied-whole :
    (text : List ℕ) → length text ≤ sun_path_size → (zeros : List ℕ) × (copied text ≡ text ++ zeros)
copied-whole text h = elim (Bool-cases (ltb (length text) sun_path_size)) [
  | inl below ↦ (replicate (sun_path_size - length text) 0, rw (below, take-length text) refl)
  | inr full ↦
      let same : length text ≡ sun_path_size = ground arith in
      ([], rw full (ap (◌++ []) (subst (λ k. take k text ≡ text) same (take-length text))))
]

-- If the path of the socket of systemd is not empty and has at most 108 bytes, and a socket was
-- opened, then its descriptor is closed once, and the block is freed just if it was allocated. If it
-- was, a message is sent, once, to the address that names just the bytes of that path, in which a
-- leading '@' is a zero byte; if it was not, none is sent.
pub notify_systemd_ready-named :
    (b : ℕ) (bytes : List ℕ) (state_len sd_notif_fd : ℕ) (allocated : Bool)
    → length (b ∷ bytes) ≤ sun_path_size
    → let notified = notify_systemd_ready (b ∷ bytes) state_len (pos sd_notif_fd) allocated in
      (notified.closed ≡ sd_notif_fd ∷ [])
      × (notified.freed ≡ allocated)
      × (Option.map named notified.message
          ≡ (if allocated then some (abstract_name (b ∷ bytes)) else none))
unfolding notify_systemd_ready
notify_systemd_ready-named b bytes state_len fd false h = (refl, refl, refl)
notify_systemd_ready-named b bytes state_len fd true h =
    let (zeros, e) = copied-whole (b ∷ bytes) h in
    let size : name_length (length (b ∷ bytes)) - 2 ≡ length (b ∷ bytes) = omega arith in
    (
      refl,
      refl,
      ap some
          (rw (size, e) (take-prefix (length (b ∷ bytes)) (abstract_name (b ∷ bytes)) zeros refl)),
    )
