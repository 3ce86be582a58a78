-- ===== src/Config/Kept.antt =====
-- `load_file` of core/config.cpp keeps what each assignment of a field keeps.
use Prim.Native.String.{String, len}
use text.Mathlib.Text.{◌==◌ as str_eq}
use koheron_server.Base.{
  ℕ, ◌≡◌, Option, none, some, ltb, if◌then◌else◌, ℤ, pos, negsuc, minus_one, Bool, true, false,
  arith, Bool-cases, inl, inr, ◌⊎◌,
}
use koheron_server.Config.{
  Json, number, string, object, other, Fields, empty, field, ServerType, tcp_server, websock_server,
  unixsock_server, Config, Result, and_then, is_on, read_bool, read_verbose, read_tcp_nodelay,
  read_daemon, read_notify_systemd, read_log_fields, read_log, check_unixsocket_path, end_path,
  unix_socket_path_len, copy_path, read_listen, read_path, read_worker_connections,
  read_server_field, read_server_fields, read_server, read_notify_socket, check_config, read_field,
  read_fields, load_file,
}

-- A predicate on configurations that holds of each branch holds of a conditional.
if-keeps :
    (P : Config → Type 0) (b : Bool) (x y : Result) → P x.1 → P y.1 → P (if b then x else y).1
if-keeps P true x y h k = h
if-keeps P false x y h k = k

and_then-keeps :
    (P : Config → Type 0) (r : Result) (next : Config → Result)
    → P r.1
    → ((c : Config) → P c → P (next c).1)
    → P (and_then r next).1
and_then-keeps P (pos n, c) next h k = k c h
and_then-keeps P (negsuc n, c) next h k = h

read_bool-keeps :
    (P : Config → Type 0) (status : ℤ) (assign : Bool → Config) (c : Config)
    → P c
    → ((b : Bool) → P (assign b))
    → P (read_bool status assign c).1
read_bool-keeps P (pos n) assign c h k = k (ltb 0 n)
read_bool-keeps P (negsuc n) assign c h k = h

-- A predicate that the assignments of the file's fields keep.
pub record Kept (P : Config → Type 0) : Type 0 where
  pub verbose : (c : Config) (b : Bool) → P c → P (record c { verbose = b })
  pub tcp_nodelay : (c : Config) (b : Bool) → P c → P (record c { tcp_nodelay = b })
  pub syslog : (c : Config) (b : Bool) → P c → P (record c { syslog = b })
  pub daemon : (c : Config) (b : Bool) → P c → P (record c { daemon = b })
  pub notify_systemd : (c : Config) (b : Bool) → P c → P (record c { notify_systemd = b })
  pub path :
      (c : Config) (p : String)
      → check_unixsocket_path p ≡ pos 0
      → P c
      → P (record c { unixsock_path = p })
  pub tcp_port : (c : Config) (n : ℕ) → P c → P (record c { tcp_port = n })
  pub tcp_worker_connections :
      (c : Config) (n : ℕ) → P c → P (record c { tcp_worker_connections = n })
  pub websock_port : (c : Config) (n : ℕ) → P c → P (record c { websock_port = n })
  pub websock_worker_connections :
      (c : Config) (n : ℕ) → P c → P (record c { websock_worker_connections = n })
  pub unixsock_worker_connections :
      (c : Config) (n : ℕ) → P c → P (record c { unixsock_worker_connections = n })

check-code :
    (p : String) → (check_unixsocket_path p ≡ pos 0) ⊎ (check_unixsocket_path p ≡ minus_one)
unfolding check_unixsocket_path
check-code p = ground arith

module _ (P : Config → Type 0) (kept : Kept P) where
  end_path-keeps : (p : String) (c : Config) → P c → P (end_path p c)
  unfolding end_path
  end_path-keeps p c h = elim (Bool-cases (ltb (len p) unix_socket_path_len)) [
    | inl fits ↦ rw fits h
    | inr full ↦ rw full (kept.unixsock_worker_connections c _ h)
  ]

  copy_path-keeps : (p : String) (c : Config) → P c → P (copy_path p c).1
  unfolding copy_path end_path
  copy_path-keeps p c h = elim (check-code p) [
    | inl e ↦ rw (e, copy_path) (end_path-keeps p _ (kept.path c p e h))
    | inr e ↦ rw (e, copy_path) h
  ]

  read_log_fields-keeps : (fields : Fields) (c : Config) → P c → P (read_log_fields fields c).1
  unfolding read_log_fields
  read_log_fields-keeps empty c h = h
  read_log_fields-keeps (field key value rest) c h =
      if-keeps P (str_eq key "system_log") _ _
        (and_then-keeps P (read_bool (is_on value) (λ b. record c { syslog = b }) c)
          (read_log_fields rest)
          (read_bool-keeps P (is_on value) (λ b. record c { syslog = b }) c h
            (λ b. kept.syslog c b h))
          (read_log_fields-keeps rest))
        h

  read_log-keeps : (value : Json) (c : Config) → P c → P (read_log value c).1
  unfolding read_log
  read_log-keeps (object fields) c h = read_log_fields-keeps fields c h
  read_log-keeps (number n) c h = h
  read_log-keeps (string s) c h = h
  read_log-keeps other c h = h

  read_path-keeps : (s : ServerType) (value : Json) (c : Config) → P c → P (read_path s value c).1
  unfolding read_path
  read_path-keeps unixsock_server (string p) c h = copy_path-keeps p c h
  read_path-keeps unixsock_server (number n) c h = h
  read_path-keeps unixsock_server (object fields) c h = h
  read_path-keeps unixsock_server other c h = h
  read_path-keeps tcp_server value c h = h
  read_path-keeps websock_server value c h = h

  read_listen-keeps :
      (s : ServerType) (value : Json) (c : Config) → P c → P (read_listen s value c).1
  unfolding read_listen
  read_listen-keeps tcp_server (number n) c h = kept.tcp_port c n h
  read_listen-keeps websock_server (number n) c h = kept.websock_port c n h
  read_listen-keeps unixsock_server (number n) c h = h
  read_listen-keeps tcp_server (string p) c h = h
  read_listen-keeps websock_server (string p) c h = h
  read_listen-keeps unixsock_server (string p) c h = h
  read_listen-keeps tcp_server (object fields) c h = h
  read_listen-keeps websock_server (object fields) c h = h
  read_listen-keeps unixsock_server (object fields) c h = h
  read_listen-keeps tcp_server other c h = h
  read_listen-keeps websock_server other c h = h
  read_listen-keeps unixsock_server other c h = h

  read_worker_connections-keeps :
      (s : ServerType) (value : Json) (c : Config) → P c → P (read_worker_connections s value c).1
  unfolding read_worker_connections
  read_worker_connections-keeps tcp_server (number n) c h = kept.tcp_worker_connections c n h
  read_worker_connections-keeps websock_server (number n) c h =
      kept.websock_worker_connections c n h
  read_worker_connections-keeps unixsock_server (number n) c h =
      kept.unixsock_worker_connections c n h
  read_worker_connections-keeps tcp_server (string p) c h = h
  read_worker_connections-keeps websock_server (string p) c h = h
  read_worker_connections-keeps unixsock_server (string p) c h = h
  read_worker_connections-keeps tcp_server (object fields) c h = h
  read_worker_connections-keeps websock_server (object fields) c h = h
  read_worker_connections-keeps unixsock_server (object fields) c h = h
  read_worker_connections-keeps tcp_server other c h = h
  read_worker_connections-keeps websock_server other c h = h
  read_worker_connections-keeps unixsock_server other c h = h

  read_server_fields-keeps :
      (s : ServerType) (fields : Fields) (c : Config) → P c → P (read_server_fields s fields c).1
  unfolding read_server_fields read_server_field
  read_server_fields-keeps s empty c h = h
  read_server_fields-keeps s (field key value rest) c h =
      and_then-keeps P (read_server_field s key value c) (read_server_fields s rest)
        (if-keeps P (str_eq key "listen") _ _ (read_listen-keeps s value c h) (
          if-keeps P (str_eq key "path") _ _ (read_path-keeps s value c h) (
            if-keeps P (str_eq key "worker_connections") _ _
              (read_worker_connections-keeps s value c h) h)))
        (read_server_fields-keeps s rest)

  read_server-keeps :
      (value : Json) (s : ServerType) (c : Config) → P c → P (read_server value s c).1
  unfolding read_server
  read_server-keeps (object fields) s c h = read_server_fields-keeps s fields c h
  read_server-keeps (number n) s c h = h
  read_server-keeps (string p) s c h = h
  read_server-keeps other s c h = h

  read_notify_socket-keeps : (value : Json) (c : Config) → P c → P (read_notify_socket value c).1
  unfolding read_notify_socket
  read_notify_socket-keeps (string p) c h = copy_path-keeps p c h
  read_notify_socket-keeps (number n) c h = h
  read_notify_socket-keeps (object fields) c h = h
  read_notify_socket-keeps other c h = h

  read_field-keeps : (key : String) (value : Json) (c : Config) → P c → P (read_field key value c).1
  unfolding read_field read_verbose read_tcp_nodelay read_daemon read_notify_systemd
  read_field-keeps key value c h =
      if-keeps P (str_eq key "verbose") _ _
        (read_bool-keeps P (is_on value) (λ b. record c { verbose = b }) c h
          (λ b. kept.verbose c b h))
        (if-keeps P (str_eq key "tcp_nodelay") _ _
          (read_bool-keeps P (is_on value) (λ b. record c { tcp_nodelay = b }) c h
            (λ b. kept.tcp_nodelay c b h))
          (if-keeps P (str_eq key "daemon") _ _
            (read_bool-keeps P (is_on value) (λ b. record c { daemon = b }) c h
              (λ b. kept.daemon c b h))
            (if-keeps P (str_eq key "notify-systemd") _ _
              (read_bool-keeps P (is_on value) (λ b. record c { notify_systemd = b }) c h
                (λ b. kept.notify_systemd c b h))
              (if-keeps P (str_eq key "notify-socket") _ _ (read_notify_socket-keeps value c h) (
                if-keeps P (str_eq key "logs") _ _ (read_log-keeps value c h) (
                  if-keeps P (str_eq key "TCP") _ _ (read_server-keeps value tcp_server c h) (
                    if-keeps P (str_eq key "websocket") _ _
                      (read_server-keeps value websock_server c h)
                      (if-keeps P (str_eq key "unix") _ _
                        (read_server-keeps value unixsock_server c h) h))))))))

  read_fields-keeps : (fields : Fields) (c : Config) → P c → P (read_fields fields c).1
  unfolding read_fields
  read_fields-keeps empty c h = h
  read_fields-keeps (field key value rest) c h =
      and_then-keeps P (read_field key value c) (read_fields rest) (read_field-keeps key value c h)
        (read_fields-keeps rest)

  choice : (b : Bool) (x y : Config) → P x → P y → P (if b then x else y)
  choice true x y h k = h
  choice false x y h k = k

  check_config-keeps : (c : Config) → P c → P (check_config c)
  unfolding check_config
  check_config-keeps c h =
      choice c.daemon (record c { verbose = false }) c (kept.verbose c false h) h

  pub load_file-keeps : (source : Option Json) (c : Config) → P c → P (load_file source c).1
  unfolding load_file
  load_file-keeps (some (object fields)) c h =
      and_then-keeps P (read_fields fields c) (λ c'. (pos 0, check_config c'))
        (read_fields-keeps fields c h) check_config-keeps
  load_file-keeps (some (number n)) c h = h
  load_file-keeps (some (string s)) c h = h
  load_file-keeps (some other) c h = h
  load_file-keeps none c h = h
