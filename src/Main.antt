-- ===== src/Main.antt =====
-- core/main.cpp: the options of the command line, the daemon and the exit code. What `getopt_long`
-- finds and what the system calls answer are arguments; a configuration file is what the parser
-- makes of it. Closing the standard descriptors and the output of `usage` are left out.
use koheron_server.Base.{
  zero, suc, ◌≡◌, refl, Option, none, some, List, [], ◌∷◌, arith, if◌then◌else◌, ℤ, pos, negsuc,
  is_neg, Bool, true, false, Bool-cases, Option-cases, inl, inr, subst, sym,
}
use koheron_server.Config.{Json, Config, default_config, load_file}
use koheron_server.Server.{Listeners, Each, new_server}

-- An option that `getopt_long` finds; `-l`, `-p`, `-d` and `-w` are among the others.
pub data CommandOption : Type 0 where
  verbose_option : CommandOption
  config_option : Option Json → CommandOption
  help_option : CommandOption
  other_option : CommandOption

-- The process goes on with a result, or `exit` is called, with EXIT_SUCCESS or not.
pub data Process (A : Type 0) : Type 0 where
  continues : A → Process A
  exits : Bool → Process A

unfoldable pub parse_options : List CommandOption → Config → Process Config
parse_options [] config = continues config
parse_options (verbose_option ∷ options) config =
    parse_options options (record config { verbose = true })
parse_options (config_option file ∷ options) config =
    let (err, config') = load_file file config in
    let rest = parse_options options config' in if is_neg err then exits false else rest
parse_options (help_option ∷ options) config = exits true
parse_options (other_option ∷ options) config = exits false

-- What `fork`, `setsid` and `chdir` answered.
pub record DaemonAnswers : Type 0 where
  pub process_id : ℤ
  pub sid : ℤ
  pub changed : ℤ

-- `daemonize()`: the parent exits, the child goes on.
unfoldable pub daemonize : DaemonAnswers → Process (Unit {0})
daemonize a = elim a.process_id [
  | negsuc n ↦ exits false
  | pos (suc n) ↦ exits true
  | pos zero ↦
      if is_neg a.sid then exits false else if is_neg a.changed then exits false else continues tt
]

-- What the constructor of the server gets from the handler of signals, the devices and the creation
-- of the listening sockets.
pub record ServerAnswers : Type 0 where
  pub sig_handler : ℤ
  pub dev_manager : ℤ
  pub created : Each ℤ

-- The configuration that the server was run with, if it was, and whether the exit code is
-- EXIT_SUCCESS.
abbrev pub Exit : Type 0
Exit = Option Config × Bool

-- `KServer server(config)`; `none` stands for its `exit(EXIT_FAILURE)`.
unfoldable pub construct : ServerAnswers → Config → Option Listeners
unfolding new_server
construct b config = new_server b.sig_handler b.dev_manager b.created (record {
  for_tcp = config.tcp_worker_connections;
  for_websock = config.websock_worker_connections;
  for_unix = config.unixsock_worker_connections;
})

abbrev run_constructed : Config → Option Listeners → Exit
run_constructed config none = (none, false)
run_constructed config (some listeners) = (some config, true)

abbrev run_with : ServerAnswers → Config → Process (Unit {0}) → Exit
run_with b config (exits success) = (none, success)
run_with b config (continues t) = run_constructed config (construct b config)

abbrev after_options : DaemonAnswers → ServerAnswers → Process Config → Exit
after_options a b (exits success) = (none, success)
after_options a b (continues config) =
    run_with b config (if config.daemon then daemonize a else continues tt)

-- `main`: the result of `server.run()` is not looked at.
unfoldable pub program : List CommandOption → DaemonAnswers → ServerAnswers → Exit
unfolding parse_options daemonize construct
program options a b = after_options a b (parse_options options default_config)

-- The child process, in a session of its own and in the root directory.
abbrev pub IsDetached : DaemonAnswers → Type 0
IsDetached a = (a.process_id ≡ pos 0) × (is_neg a.sid ≡ false) × (is_neg a.changed ≡ false)

-- What is known of a server that was run.
abbrev pub RunsWith : DaemonAnswers → ServerAnswers → Exit → Type 0
RunsWith a b (none, success) = Unit {0}
RunsWith a b (some config, success) =
    (success ≡ true)
    × (config.daemon ≡ true → IsDetached a)
    × ((l : Listeners) × (construct b config ≡ some l))

constructed-RunsWith :
    (a : DaemonAnswers) (b : ServerAnswers) (config : Config)
    → (config.daemon ≡ true → IsDetached a)
    → RunsWith a b (run_constructed config (construct b config))
constructed-RunsWith a b config h = elim (Option-cases (construct b config)) [
  | inl failed ↦ rw failed tt
  | inr (l, made) ↦
      subst (λ o. RunsWith a b (run_constructed config o)) (sym made) (refl, h, (l, made))
]

daemon-RunsWith :
    (a : DaemonAnswers) (b : ServerAnswers) (config : Config) (p : ℤ)
    → a.process_id ≡ p
    → RunsWith a b (run_with b config (daemonize a))
unfolding daemonize
daemon-RunsWith a b config (negsuc n) i = rw i tt
daemon-RunsWith a b config (pos (suc n)) i = rw i tt
daemon-RunsWith a b config (pos zero) i = elim (Bool-cases (is_neg a.sid)) [
  | inl failed ↦ rw (i, failed) tt
  | inr session ↦ elim (Bool-cases (is_neg a.changed)) [
    | inl failed ↦ rw (i, session, failed) tt
    | inr moved ↦
        let e : daemonize a ≡ continues tt = rw (i, session, moved) refl in
        subst (λ p. RunsWith a b (run_with b config p)) (sym e)
          (constructed-RunsWith a b config (λ d. (i, session, moved)))
  ]
]

run-RunsWith :
    (a : DaemonAnswers) (b : ServerAnswers) (config : Config) (daemon : Bool)
    → config.daemon ≡ daemon
    → RunsWith a b (run_with b config (if daemon then daemonize a else continues tt))
run-RunsWith a b config true e = daemon-RunsWith a b config a.process_id refl
run-RunsWith a b config false e = constructed-RunsWith a b config (λ d. ground (arith, e, d))

-- Whatever the options, the files and the answers of the system: if the server is run, then its
-- construction succeeded and, where it is to be a daemon, it runs in the child process, whose calls
-- of `setsid` and `chdir` succeeded; and the exit code is EXIT_SUCCESS, whatever `run` returned.
pub program-RunsWith :
    (options : List CommandOption) (a : DaemonAnswers) (b : ServerAnswers)
    → RunsWith a b (program options a b)
unfolding program
program-RunsWith options a b = parsed (parse_options options default_config)
  where
    parsed : (p : Process Config) → RunsWith a b (after_options a b p)
    parsed (exits success) = tt
    parsed (continues config) = run-RunsWith a b config config.daemon refl
