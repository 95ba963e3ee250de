-- ===== src/Start/Tests.antt =====
-- A start of the server at the small fleet.
use wsms_gateway.Base.{none, some, false, true, ◌+◌}
use wsms_gateway.Base.Int.{pos}
use wsms_gateway.Text.{codes}
use wsms_gateway.Store.{Boot}
use wsms_gateway.Start.{Host}
use wsms_gateway.Start.Comes.{Comes}
use wsms_gateway.Admin.Console.{ConsoleEnv}

abbrev first_start : Boot
first_start = record {
  now = 100000;
  new_id = λ n. n + 500;
  random = λ n. some (codes "rnd");
  hash = λ s. some s;
  digest = λ s. s;
  counts = true;
  stores = λ n. true;
}

abbrev console_env : ConsoleEnv
console_env = record {
  now = 100000;
  new_id = λ n. n + 700;
  token = λ n. codes "t";
  hash = λ s. some s;
  digest = λ s. s;
  seal = λ s. some s;
  stores = λ n. true;
  pick = true;
  prefixes = none;
  default_ttl_ms = 600000;
  parse_duration = λ s. none;
  htmx = false;
}

abbrev host : Host
host = record {
  connects = true;
  migrates = true;
  indexes = true;
  fails = λ p. false;
  settles = true;
  answers = true;
  now = 100000;
  client = first_start;
  token = first_start;
  console = console_env;
  has_waker = false;
  retention_days = pos 30;
  cutoff = λ days. 50000;
}
