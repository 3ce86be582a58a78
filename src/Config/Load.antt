-- ===== src/Config/Load.antt =====
-- `load_file` of core/config.cpp as a whole: what every file keeps, and what a file that is
-- accepted establishes.
use Prim.Native.String.{String, len}
use text.Mathlib.Text.{◌==◌ as str_eq}
use mathlib.Core.Bool.{◌||◌}
use koheron_server.Base.{
  ◌≤◌, ◌≡◌, refl, Option, none, some, if◌then◌else◌, pos, negsuc, minus_one, Bool, true, false,
  arith, ◌⊎◌,
}
use koheron_server.Config.{
  Json, number, string, object, other, Fields, field, Config, Result, and_then,
  check_unixsocket_path, check_config, read_field, read_fields, load_file,
}
use koheron_server.Config.Kept.{load_file-keeps}

-- No file changes the notification socket's path, also one whose field `notify-socket` is accepted.
pub load_file-notify_socket :
    (source : Option Json) (c : Config) → (load_file source c).1.notify_socket ≡ c.notify_socket
load_file-notify_socket source c =
    load_file-keeps (λ c'. c'.notify_socket ≡ c.notify_socket)
      (record {
        verbose = λ c b h. h;
        tcp_nodelay = λ c b h. h;
        syslog = λ c b h. h;
        daemon = λ c b h. h;
        notify_systemd = λ c b h. h;
        path = λ c p e h. h;
        tcp_port = λ c n h. h;
        tcp_worker_connections = λ c n h. h;
        websock_port = λ c n h. h;
        websock_worker_connections = λ c n h. h;
        unixsock_worker_connections = λ c n h. h;
      })
      source c refl

-- The check either allows a path, which then has from 2 to 108 bytes, or reports the error -1.
pub check_unixsocket_path_bounds :
    (path : String)
    → ((check_unixsocket_path path ≡ pos 0) × (2 ≤ len path) × (len path ≤ 108))
      ⊎ (check_unixsocket_path path ≡ minus_one)
unfolding check_unixsocket_path
check_unixsocket_path_bounds path = ground arith

check_config-verbose :
    (c : Config) → (check_config c).daemon ≡ true → (check_config c).verbose ≡ false
unfolding check_config
check_config-verbose c d = go c.daemon refl d
  where
    go :
        (b : Bool)
        → c.daemon ≡ b
        → (if b then record c { verbose = false } else c).daemon ≡ true
        → (if b then record c { verbose = false } else c).verbose ≡ false
    go true e d = refl
    go false e d = ground arith

-- Where a file is accepted and the server is to be a daemon, it is not verbose, whatever the file
-- said about it and in whatever order.
pub load_file-daemon :
    (source : Option Json) (c : Config)
    → (load_file source c).0 ≡ pos 0
    → (load_file source c).1.daemon ≡ true
    → (load_file source c).1.verbose ≡ false
unfolding load_file
load_file-daemon (some (object fields)) c ok d = checked (read_fields fields c) ok d
  where
    checked :
        (r : Result)
        → (and_then r (λ c'. (pos 0, check_config c'))).0 ≡ pos 0
        → (and_then r (λ c'. (pos 0, check_config c'))).1.daemon ≡ true
        → (and_then r (λ c'. (pos 0, check_config c'))).1.verbose ≡ false
    checked (pos n, c') ok d = check_config-verbose c' d
    checked (negsuc n, c') ok d = ground arith
load_file-daemon (some (number n)) c ok d = ground arith
load_file-daemon (some (string s)) c ok d = ground arith
load_file-daemon (some other) c ok d = ground arith
load_file-daemon none c ok d = ground arith

-- A field with the key is among the members of an object.
pub data Has (key : String) : Fields → Type 0 where
  here : (value : Json) (rest : Fields) → Has key (field key value rest)
  there : (k : String) (value : Json) (rest : Fields) → Has key rest → Has key (field k value rest)

-- The keys of the configuration file.
abbrev pub is_known : String → Bool
is_known key =
    str_eq key "verbose"
    || str_eq key "tcp_nodelay"
    || str_eq key "daemon"
    || str_eq key "notify-systemd"
    || str_eq key "notify-socket"
    || str_eq key "logs"
    || str_eq key "TCP"
    || str_eq key "websocket"
    || str_eq key "unix"

read_field-unknown :
    (key : String) (value : Json) (c : Config)
    → is_known key ≡ false
    → read_field key value c ≡ (minus_one, c)
unfolding read_field
read_field-unknown key value c h = ground arith

and_then-fails :
    (r : Result) (next : Config → Result)
    → ((c : Config) → (next c).0 ≡ minus_one)
    → (and_then r next).0 ≡ minus_one
and_then-fails (pos n, c) next h = h c
and_then-fails (negsuc n, c) next h = refl

read_fields-unknown :
    (key : String) (members : Fields)
    → is_known key ≡ false
    → Has key members
    → (c : Config) → (read_fields members c).0 ≡ minus_one
unfolding read_fields
read_fields-unknown key _ h (here value rest) c = rw (read_field-unknown key value c h) refl
read_fields-unknown key _ h (there k value rest m) c =
    and_then-fails (read_field k value c) (read_fields rest) (read_fields-unknown key rest h m)

-- An object with a key that the server does not know, at any place, is refused.
pub load_file-unknown :
    (key : String) (members : Fields) (c : Config)
    → is_known key ≡ false
    → Has key members
    → (load_file (some (object members)) c).0 ≡ minus_one
unfolding load_file
load_file-unknown key members c h m =
    refused (read_fields members c) (read_fields-unknown key members h m c)
  where
    refused :
        (r : Result) → r.0 ≡ minus_one → (and_then r (λ c'. (pos 0, check_config c'))).0 ≡ minus_one
    refused (pos n, c') e = ground arith
    refused (negsuc n, c') e = refl
