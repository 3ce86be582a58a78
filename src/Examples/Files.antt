-- ===== src/Examples/Files.antt =====
-- Configuration files.
use koheron_server.Base.{[], ◌∷◌, ◌≡◌, refl, true, some, pos}
use koheron_server.Config.{
  Json, number, string, object, Fields, empty, field, default_config, is_on, read_verbose,
  read_daemon, read_server, read_server_fields, read_server_field, read_listen, check_config,
  read_field, read_fields, load_file,
}
use koheron_server.Config.Load.{load_file-notify_socket}
use koheron_server.Main.{
  config_option, verbose_option, DaemonAnswers, ServerAnswers, program, RunsWith, program-RunsWith,
}

abbrev file : Json
file = object (
    field "daemon" (string "ON") (
      field "TCP" (object (field "listen" (number 36100) empty))
        (field "verbose" (string "ON") empty)))

accepted : (load_file (some file) default_config).0 ≡ pos 0
unfolding load_file read_fields read_field read_verbose read_daemon read_server read_server_fields
    read_server_field read_listen is_on
accepted = refl

is_daemon : (load_file (some file) default_config).1.daemon ≡ true
unfolding load_file read_fields read_field read_verbose read_daemon read_server read_server_fields
    read_server_field read_listen is_on check_config
is_daemon = refl

load_file-notify_socket_example :
    (load_file (some file) default_config).1.notify_socket ≡ default_config.notify_socket
load_file-notify_socket_example = load_file-notify_socket (some file) default_config

abbrev misspelt : Fields
misspelt = field "daemon" (string "OFF") (field "tcp" (number 1) empty)

-- The child process, whose calls succeed.
abbrev child : DaemonAnswers
child = record { process_id = pos 0; sid = pos 100; changed = pos 0 }

-- Every socket is created.
abbrev opened : ServerAnswers
opened = record {
  sig_handler = pos 0;
  dev_manager = pos 0;
  created = record { for_tcp = pos 3; for_websock = pos 4; for_unix = pos 5 };
}

program-RunsWith_example :
    RunsWith child opened (program (config_option (some file) ∷ verbose_option ∷ []) child opened)
program-RunsWith_example =
    program-RunsWith (config_option (some file) ∷ verbose_option ∷ []) child opened
