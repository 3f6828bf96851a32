-- ===== src/App/Cli.antt =====
-- src/main.rs: the two commands. The rights of the process, the runtime and the text of an error are
-- parameters; the log is that of src/logging.rs.
use cortado.Base.{Bool, true, false, List, [], ◌∷◌, ◌++◌, Bytes, codes, Result, ok, err}
use cortado.Config.{Config}
use cortado.App.ConfigFile.{LoadError}
use cortado.App.Run.{RunError}
use cortado.App.Logging
use cortado.App.Logging.{Logger, LogMessage, info, error, log}

pub data Command : Type 0 where
  init run : Command

pub data CliError : Type 0 where
  not_root no_runtime : CliError
  config_failed : LoadError → CliError
  run_failed : RunError → CliError

-- What a command leaves: its result, its output and the messages that it has logged.
pub record Ended : Type 0 where
  pub result : Result CliError (Unit {0})
  pub out : List Bytes
  pub logged : List LogMessage

module _ (show_error : CliError → Bytes) (version : Bytes) where
  abbrev pub wrote : Bytes → List Bytes
  wrote path =
      (codes "wrote default configuration to " ++ path)
      ∷ codes "edit it, then run cortado run."
      ∷ []

  unfoldable pub cmd_init : Result LoadError Bytes → Ended
  cmd_init (err e) = record { result = err (config_failed e); out = []; logged = [] }
  cmd_init (ok path) = record { result = ok tt; out = wrote path; logged = [] }

  abbrev pub started : Config → Logger
  started cfg =
      log
        (info (
          codes "cortado "
          ++ (version
              ++ (codes " starting, proxy="
                  ++ (cfg.proxy_addr ++ (codes " tun=" ++ cfg.tun_name))))))
        (Logging.new cfg.verbose)

  abbrev pub finish : Logger → Result RunError (Unit {0}) → Ended
  finish l (ok tt) = record { result = ok tt; out = []; logged = l.sender }
  finish l (err e) = record {
    result = err (run_failed e);
    out = [];
    logged = (log (error (codes "fatal: " ++ show_error (run_failed e))) l).sender;
  }

  abbrev pub refused : CliError → Ended
  refused e = record { result = err e; out = []; logged = [] }

  -- `built` is whether there is a runtime, and `service` what `run` comes to.
  unfoldable pub cmd_run :
      Bool → Result LoadError Config → Bool → (Config → Result RunError (Unit {0})) → Ended
  cmd_run false loaded built service = refused not_root
  cmd_run true (err e) built service = refused (config_failed e)
  cmd_run true (ok cfg) false service = refused no_runtime
  cmd_run true (ok cfg) true service = finish (started cfg) (service cfg)

  -- The exit code, and what is printed as an error.
  unfoldable pub exit_of : Ended → Bool × List Bytes
  exit_of e = elim e.result [
    | ok u ↦ (true, [])
    | err why ↦ (false, (codes "cortado: " ++ show_error why) ∷ [])
  ]
