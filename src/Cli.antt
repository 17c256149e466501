-- ===== src/Cli.antt =====
-- crates/triggerlane-cli/src/main.rs: the numbers and durations of the environment (Number,
-- Duration), the errors (Errors), the choice of a broker (Broker), the subcommands (Commands), the
-- settings of the service (Settings), its worker loops (Serve), and the whole program (App).
pub mod Number
pub mod Duration
pub mod Errors
pub mod Broker
pub mod Commands
pub mod Settings
pub mod Serve
pub mod App
