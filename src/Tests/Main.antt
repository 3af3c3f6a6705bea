-- ===== src/Tests/Main.antt =====
-- The theorems on the commands, on a machine without a database.
use mathlib.Core.Path.{subst}
use frl_online_proxy.Prelude.{
  arith, ◌≡◌, ◌≢◌, refl, sym, lower, true, false, String, some, none, List, [], ◌∷◌,
}
use frl_online_proxy.Outcome.{Outcome, ok, err, panic, Report, ok-injective}
use frl_online_proxy.Cops.{Request}
use frl_online_proxy.Cache.Keys.{IsPlain}
use frl_online_proxy.Logging.{debug_body}
use frl_online_proxy.Tests.Serve.{reads-IsPlain}
use frl_online_proxy.Settings.{Settings, cache, forward}
use frl_online_proxy.Settings.Names.{mode_try_from}
use frl_online_proxy.Settings.Validate.{validate}
use frl_online_proxy.Cli.{Command, start, FrlProxy}
use frl_online_proxy.Http.{Bytes, utf8, whole}
use frl_online_proxy.Proxy.Run.{Runtime}
use frl_online_proxy.Proxy.Concurrent.Schedule.{sends, answers, logged_body}
use frl_online_proxy.Main.{Machine, Env, ssl_override, command, main}
use frl_online_proxy.Main.Keeping.{IsCleanMachine}
use frl_online_proxy.Main.Keeping.Commands.{HasPlainClients, main-IsCleanMachine}
use frl_online_proxy.Main.Refusals.{command-refused, command-absent, forwarded}
use frl_online_proxy.Main.Calm.{IsQuiet, clearing, command-ne-panic}
use frl_online_proxy.Tests.Samples.{activate_parts, world, granted, conf_in}
use frl_online_proxy.Tests.Configure.{user, is_cert, crates}

-- One activation is sent and answered.
abbrev runtime : Runtime
runtime = record {
  Identity = Unit;
  parse_addr = λ host. ok tt;
  bind = λ host. ok tt;
  set_handler = ok tt;
  open_file = λ path. ok tt;
  read_file = λ path. ok (utf8 "");
  from_pkcs12 = λ content password. ok tt;
  acceptor = λ identity. ok tt;
  activities =
      sends activate_parts (whole (utf8 "{}")) "2021-03-01T00:00:10.000+0000"
      ∷ answers 0 (ok granted) "2021-03-01T00:00:11.000+0000"
      ∷ [];
  ended = ok tt;
}

abbrev env : Env (List String)
env = record {
  world = world granted;
  crates = crates;
  term = user;
  exists = is_cert;
  fern = record { log_file = λ path. ok tt; apply = λ d l. ok tt };
  answer = ok true;
  runtime = runtime;
  now = "2021-03-01T00:00:10.000+0000";
  tries = 2;
}

abbrev machine : Machine (List String)
machine = record {
  terminal = [];
  config = some "toml";
  db = record { content = none; faults = [] };
  other = record { content = none; faults = [] };
  logs = [];
}

no_cert : validate is_cert (ssl_override (some true) (conf_in cache)) ≢ ok tt
unfolding validate
no_cert h = cc

-- A start with `--ssl`, where no certificate is configured.
command-refused_example :
    ((command env (start none (some true)) (conf_in cache) machine).0 ≢ ok tt)
    × ((command env (start none (some true)) (conf_in cache) machine).1 ≡ machine)
command-refused_example =
    command-refused env (start none (some true)) (conf_in cache) machine
      λ (used, e, v). no_cert (subst (λ c. validate is_cert c ≡ ok tt) (sym (ok-injective e)) v)

command-absent_example :
    ((command env (start (some "FOR") none) (conf_in cache) machine).0 ≢ ok tt)
    × ((command env (start (some "FOR") none) (conf_in cache) machine).1 ≡ record machine {
      logs = (command env (start (some "FOR") none) (conf_in cache) machine).1.logs;
    })
unfolding mode_try_from lower
command-absent_example =
    command-absent env (start (some "FOR") none) (conf_in cache) machine
      (forwarded {moded = conf_in forward} refl refl) refl

quiet : IsQuiet env
quiet = record { log_file = λ path e. cc; apply = λ d l e. cc; answer = λ e. cc }

command-ne-panic_example : (command env (Command.clear false) (conf_in cache) machine).0 ≢ panic
command-ne-panic_example =
    command-ne-panic env quiet (Command.clear false) clearing (conf_in cache) machine

-- What the client sends is understood as the activation, or its body cannot be logged.
admitted-IsPlain :
    (conf : Settings) (now : String) (bytes : Bytes) (req : Request) (o : Outcome Report (Unit {0}))
    → logged_body (world granted) conf activate_parts now bytes o ≡ some req
    → IsPlain req
admitted-IsPlain conf now bytes req (ok a) h = reads-IsPlain now bytes req (ground arith)
admitted-IsPlain conf now bytes req (err e) h = cc
admitted-IsPlain conf now bytes req panic h = cc

plain_clients : HasPlainClients env
plain_clients = record {
  plain = λ conf. (
    λ req h.
        admitted-IsPlain conf "2021-03-01T00:00:10.000+0000" (utf8 "{}") req
          (debug_body conf (utf8 "{}")) h,
    (tt, tt),
  );
}

-- The server is started, in the configured mode.
abbrev arguments : FrlProxy
arguments = record {
  config_file = "proxy-conf.toml";
  debug = 0;
  log_to = none;
  cmd = start none none;
}

main-IsCleanMachine_example : IsCleanMachine (main env arguments machine).1
main-IsCleanMachine_example = main-IsCleanMachine env arguments machine plain_clients (tt, tt)
