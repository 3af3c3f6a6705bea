-- ===== src/Lib.antt =====
-- FRL online proxy: a server between Adobe desktop applications and COPS, the licensing server. It
-- takes activations and deactivations of applications, passes them to COPS, and keeps requests and
-- answers in an SQLite cache: to answer an activation when COPS cannot be reached, to collect requests
-- while the proxy is offline, and to forward them later from another machine.
--
-- The parts, and the files that model them:
-- - src/cops.rs, the requests and responses of COPS: `Cops` has the data, `Cops.Receive` has
--   `from_network` and what it calls, `Cops.Send` has `to_network`.
-- - src/cache.rs, the cache: `Cache.Keys` (`activation_id`, `deactivation_id`), `Cache.Tables` (the four
--   tables by their schemas, and the forms of SQL statement), `Cache.Store` and `Cache.Fetch` (the
--   functions that write and read the tables), `Cache.Open` (`Cache::from`, `db_init`, `close`,
--   `clear`), `Cache.Methods` (the methods that the proxy calls) and `Cache.Exchange` (`import`,
--   `export`). `Cache.Contract` says what the cache promises without tables: for each request the answer
--   it would be given, and how each operation changes that.
-- - src/proxy.rs: `Proxy.Call` (`call_cops` and the responses of the proxy itself), `Proxy.Serve`
--   (`serve_req`), `Proxy.Forward` (`forward_stored_requests`) and
--   `Proxy.Shutdown` (`ctrl_c_handler`).
-- - src/proxy/plain.rs and src/proxy/secure.rs: `Proxy.Run` (`run_server` of both), `Proxy.Secure`
--   (`incoming` and `HyperAcceptor`). Both give hyper a service that runs `serve_req` on one shared
--   cache; how hyper interleaves the tasks is `Proxy.Concurrent`, a step relation, and
--   `Proxy.Concurrent.Schedule`, the same as a function of what the clients and the network do.
-- - src/settings.rs: `Settings` (the records), `Settings.Names` (the names of modes, destinations and
--   levels), `Settings.Validate` (`validate`), `Settings.Load` (`load_config`), `Settings.Prompts` and
--   `Settings.Configure` (`update_config_file`, a function for each group of questions).
-- - src/cli.rs: `Cli` (the command line). src/main.rs: `Main` (the commands, on the machine's files).
-- - src/logging.rs: `Logging` (`init`, `log_level`, and the one effect of logging that matters: the
--   arguments of `debug!` are evaluated when the level lets them through, and can panic).
--
-- How they interact: `serve_req` reads a request by `from_network`, stores it in the cache, calls COPS
-- unless the mode is store, stores the answer of a success, and answers a failure from the cache where
-- it can. `Proxy.Serve.resume` is its part after the wait for COPS; `Proxy.Concurrent` interleaves the
-- two parts of many requests, each of which calls the database once at most and is one step. A client
-- that leaves ends its task at the wait for COPS; the other waits of a task, for the database and for a
-- body, are short and inside a step.
-- `forward_stored_requests` does the same for the requests of the cache that have no answer.
-- `Main.main` loads the configuration, checks it and runs one command: the server or the forwarding,
-- the questions for a new configuration, or `clear`, `import` or `export` on the cache.
--
-- How the code is rendered. A Rust function that can fail is an `Outcome`: `Ok`, `Err`, or a panic,
-- which ends the task. A function that changes a state is an `Exec`, which passes the state on; what
-- was written before an error or a panic stays written. The cache holds a connection (`Cache.Engine`):
-- its tables, whether its pool is closed, and the faults of the steps to come, so that every theorem
-- over all connections covers every way in which steps of the database can fail. A transaction is
-- rolled back where its body does not return. A table is the list of its rows; `insert or replace`
-- deletes the row with the same unique key. Times are arguments; they are compared as texts, as SQLite
-- and Rust's `sort` do for the texts that the program writes: a date, a time and an offset, which the
-- numeric affinity of the columns leaves texts.
--
-- What the program takes from its crates and from the system is the record `World` of `Http`: parsing
-- and printing of JSON, URIs and query strings, the check of header values, the upstream proxy's
-- connector, and the network, whose reply is a response, an error, or nothing before the timeout. A
-- `HashMap` is an association list whose later entries replace earlier ones (`Prelude.Dict`). The file
-- system, the contents of a database file and the user's confirmation are arguments.
--
-- The crates `config` and `toml` are the record `ConfigCrate` of `Settings.Load`, the crate `fern` is the
-- record `Fern` of `Logging`, and the terminal of the crate `dialoguer` is the record `Terminal` of
-- `Settings.Prompts`, on a state of its own. The commands work on a `Machine` of a terminal and files, the log
-- files among them, which opening creates.
-- The crates hyper, tokio, native-tls and ctrlc are the record `Runtime` of `Proxy.Run`: how binding an
-- address, setting the handler of interrupts and making an acceptor of the certificate end, and what the
-- clients and the network do until the server ends. What a listener of the secure server gives is a
-- list of connections with the ends of their handshakes.
--
-- Loops are recursion on the lists that they go through. The one loop without a list, in which
-- `update_config_file` asks for the path of a certificate until there is a file, runs on a number of
-- tries, of which it needs one more than the user names wrong paths. The two counters of a forward
-- run are u64, and wrap around at 2 ^ 64. The count of `-d` is a u8 in the code and a natural number
-- here, since it is only compared with 1 and 2.
--
-- The tables have the program's columns, and in them values of the columns' types. On a database of
-- another schema, which the program does not check for, the readers of cache.rs panic in `row.get`; such
-- a database, and what the theorems on imports, exports and panics would say of it, is left out.
--
-- Not modelled: the libraries behind these records (hyper, TLS, the database itself), the text of log
-- lines and of messages to the user, what a failed creation or write leaves in a file, and the timeout
-- that debug builds read from the environment.
pub mod Prelude
pub mod Outcome
pub mod Http
pub mod Settings
pub mod Cli
pub mod Cops
pub mod Exec
pub mod Cache
pub mod Logging
pub mod Proxy
pub mod Main
mod Tests
