-- ===== src/Cli/Errors.antt =====
-- `CliError`. The texts of the errors of other crates are in the messages.
use triggerlane.Common.{String}
use triggerlane.Config.{ConfigError}
use triggerlane.Jsonl.Read.{IoError}
use triggerlane.Runtime.{Halt}
use triggerlane.Cli.Number.{Text}

pub data CliError : Type 0 where
  bind_addr events broker json : String → CliError
  request_timeout retention submission : Text → CliError
  config : ConfigError → CliError
  io : IoError → CliError
  runtime : Halt → CliError
