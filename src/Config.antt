-- ===== src/Config.antt =====
-- core/config.hpp and core/config.cpp: the configuration and how a file is read into it. What
-- gason's `jsonParse` gives is data; the parser and the file system are not modelled.
pub mod Kept
pub mod Load
use Prim.Native.String.{String, len, slice}
use text.Mathlib.Text.{◌==◌ as str_eq}
use mathlib.Core.Bool.{◌||◌, ◌&&◌, not}
use koheron_server.Base.{
  ℕ, ◌/◌, ◌*◌, ◌^◌, ◌≡◌, Option, none, some, ltb, if◌then◌else◌, ℤ, pos, negsuc, minus_one, Bool,
  true, false,
}

-- A JSON value as the configuration reads it: a number as the unsigned int that `toNumber()`
-- becomes, and the values whose tag no field accepts as `other`.
mutual
  pub data Json : Type 0 where
    number : ℕ → Json
    string : String → Json
    object : Fields → Json
    other : Json

  pub data Fields : Type 0 where
    empty : Fields
    field : String → Json → Fields → Fields

-- `server_t`
pub data ServerType : Type 0 where
  tcp_server websock_server unixsock_server : ServerType

-- `KServerConfig`
pub record Config : Type 0 where
  pub verbose : Bool
  pub tcp_nodelay : Bool
  pub syslog : Bool
  pub daemon : Bool
  pub notify_systemd : Bool
  pub notify_socket : String
  pub tcp_port : ℕ
  pub tcp_worker_connections : ℕ
  pub websock_port : ℕ
  pub websock_worker_connections : ℕ
  pub unixsock_path : String
  pub unixsock_worker_connections : ℕ

-- The constructor, with the defaults of core/kserver_defs.hpp.
abbrev pub default_config : Config
default_config = record {
  verbose = false;
  tcp_nodelay = false;
  syslog = false;
  daemon = true;
  notify_systemd = false;
  notify_socket = "/run/systemd/notify";
  tcp_port = 36000;
  tcp_worker_connections = 10;
  websock_port = 8080;
  websock_worker_connections = 10;
  unixsock_path = "/var/run/kserver.sock";
  unixsock_worker_connections = 10;
}

-- UNIX_SOCKET_PATH_LEN
abbrev pub unix_socket_path_len : ℕ
unix_socket_path_len = 108

-- A status and the configuration, which keeps what was read before an error.
abbrev pub Result : Type 0
Result = ℤ × Config

-- `if (... < 0) return -1;`
abbrev pub and_then : Result → (Config → Result) → Result
and_then (pos n, c) next = next c
and_then (negsuc n, c) next = (minus_one, c)

unfoldable pub is_on : Json → ℤ
is_on (string s) = if str_eq s "ON" then pos 1 else if str_eq s "OFF" then pos 0 else minus_one
is_on _ = minus_one

-- The macro `READ_BOOL`, with the assignment to the field; `int` becomes `bool`.
abbrev pub read_bool : ℤ → (Bool → Config) → Config → Result
read_bool (negsuc n) assign c = (minus_one, c)
read_bool (pos n) assign c = (pos 0, assign (ltb 0 n))

unfoldable pub read_verbose : Json → Config → Result
read_verbose value c = read_bool (is_on value) (λ b. record c { verbose = b }) c

unfoldable pub read_tcp_nodelay : Json → Config → Result
read_tcp_nodelay value c = read_bool (is_on value) (λ b. record c { tcp_nodelay = b }) c

unfoldable pub read_daemon : Json → Config → Result
read_daemon value c = read_bool (is_on value) (λ b. record c { daemon = b }) c

unfoldable pub read_notify_systemd : Json → Config → Result
read_notify_systemd value c = read_bool (is_on value) (λ b. record c { notify_systemd = b }) c

-- The loop of `_read_log`.
unfoldable pub read_log_fields : Fields → Config → Result
read_log_fields empty c = (pos 0, c)
read_log_fields (field key value rest) c =
    if str_eq key "system_log"
    then and_then (read_bool (is_on value) (λ b. record c { syslog = b }) c) (read_log_fields rest)
    else (minus_one, c)

unfoldable pub read_log : Json → Config → Result
read_log (object fields) c = read_log_fields fields c
read_log _ c = (minus_one, c)

-- The tests of the first two characters and of `strlen`.
unfoldable pub check_unixsocket_path : String → ℤ
check_unixsocket_path path =
    if not (str_eq (slice path 0 1) "@" || str_eq (slice path 0 1) "/") || ltb (len path) 2
    then minus_one
    else if ltb unix_socket_path_len (len path)
    then minus_one
    else pos 0

-- `strcpy` also writes a zero byte behind the path. Behind the 108th byte that is the lowest byte of
-- the next member, `unixsock_worker_connections`, of which the array's text then runs on.
unfoldable pub end_path : String → Config → Config
end_path path c =
    if ltb (len path) unix_socket_path_len
    then c
    else record c { unixsock_worker_connections = c.unixsock_worker_connections / 2 ^ 8 * 2 ^ 8 }

-- `check_unixsocket_path(path)` and, if it allows it, `strcpy(unixsock_path, path)`.
unfoldable pub copy_path : String → Config → Result
unfolding end_path
copy_path path c = elim (check_unixsocket_path path) [
  | negsuc n ↦ (minus_one, c)
  | pos n ↦ (pos 0, end_path path (record c { unixsock_path = path }))
]

-- The branches of `_read_server`, one for each key.
unfoldable pub read_listen : ServerType → Json → Config → Result
read_listen tcp_server (number n) c = (pos 0, record c { tcp_port = n })
read_listen websock_server (number n) c = (pos 0, record c { websock_port = n })
read_listen unixsock_server (number n) c = (minus_one, c)
read_listen _ _ c = (minus_one, c)

unfoldable pub read_path : ServerType → Json → Config → Result
read_path unixsock_server (string path) c = copy_path path c
read_path _ _ c = (minus_one, c)

unfoldable pub read_worker_connections : ServerType → Json → Config → Result
read_worker_connections tcp_server (number n) c = (pos 0, record c { tcp_worker_connections = n })
read_worker_connections websock_server (number n) c =
    (pos 0, record c { websock_worker_connections = n })
read_worker_connections unixsock_server (number n) c =
    (pos 0, record c { unixsock_worker_connections = n })
read_worker_connections _ _ c = (minus_one, c)

unfoldable pub read_server_field : ServerType → String → Json → Config → Result
read_server_field serv_type key value c =
    if str_eq key "listen"
    then read_listen serv_type value c
    else if str_eq key "path"
    then read_path serv_type value c
    else if str_eq key "worker_connections"
    then read_worker_connections serv_type value c
    else (minus_one, c)

unfoldable pub read_server_fields : ServerType → Fields → Config → Result
read_server_fields serv_type empty c = (pos 0, c)
read_server_fields serv_type (field key value rest) c =
    and_then (read_server_field serv_type key value c) (read_server_fields serv_type rest)

-- `_read_server(value, serv_type)`; `_read_tcp`, `_read_websocket` and `_read_unixsocket` only
-- call it.
unfoldable pub read_server : Json → ServerType → Config → Result
read_server (object fields) serv_type c = read_server_fields serv_type fields c
read_server _ serv_type c = (minus_one, c)

-- The branch of `notify-socket` in `load_file`.
unfoldable pub read_notify_socket : Json → Config → Result
read_notify_socket (string path) c = copy_path path c
read_notify_socket _ c = (minus_one, c)

-- `_check_config()`
unfoldable pub check_config : Config → Config
check_config c = if c.daemon then record c { verbose = false } else c

-- One round of the loop of `load_file`.
unfoldable pub read_field : String → Json → Config → Result
read_field key value c =
    if str_eq key "verbose"
    then read_verbose value c
    else if str_eq key "tcp_nodelay"
    then read_tcp_nodelay value c
    else if str_eq key "daemon"
    then read_daemon value c
    else if str_eq key "notify-systemd"
    then read_notify_systemd value c
    else if str_eq key "notify-socket"
    then read_notify_socket value c
    else if str_eq key "logs"
    then read_log value c
    else if str_eq key "TCP"
    then read_server value tcp_server c
    else if str_eq key "websocket"
    then read_server value websock_server c
    else if str_eq key "unix"
    then read_server value unixsock_server c
    else (minus_one, c)

unfoldable pub read_fields : Fields → Config → Result
read_fields empty c = (pos 0, c)
read_fields (field key value rest) c = and_then (read_field key value c) (read_fields rest)

-- `load_file(filename)` behind the parser: `none` is a file that cannot be opened or a text that
-- is not JSON.
unfoldable pub load_file : Option Json → Config → Result
load_file (some (object fields)) c =
    and_then (read_fields fields c) (λ c'. (pos 0, check_config c'))
load_file _ c = (minus_one, c)
