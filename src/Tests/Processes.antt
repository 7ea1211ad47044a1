-- ===== src/Tests/Processes.antt =====
-- The start and the end of the application and the runs of `env.py`, at concrete inputs.
use civio.Base.{
  ◌≡◌, refl, Bool, true, false, none, some, Option, [], ◌∷◌, any, keep, Text, if◌then◌else◌, arith,
}
use civio.Errors.Classes.{other}
use civio.Errors.Outcome.{ok, err}
use civio.Action.{Action, throw}
use civio.Config.{Settings}
use civio.Tests.Scenario.{settings}
use civio.Process.Logging.{
  Logging, from_library, configure_logging, passed, is_renderer, rendered_once, is_local,
  is_enabled, console_renderer, json_renderer,
}
use civio.Process.Lifespan.{
  RedisClient, ClosesPool, Process, started, lifespan, IsShutDown, lifespan-IsShutDown, create_app,
  otp_send, otp_verify, refresh, logout, health,
}
use civio.Process.Alembic.{Alembic, KeepsOptions, has_percent, has_raw_percent, env}
use civio.Process.Alembic.Protocol.{IsSettled, env-IsSettled, is_migrated, env_raw_percent}

abbrev unset : Logging
unset = record {
  structlog = none;
  handlers = [];
  root_level = 30;
  levels = λ n. 0;
  own_handlers = λ n. [];
  propagates = λ n. true;
  disabled = λ n. false;
}

rendered_once_example :
    keep is_renderer (
      passed
        (configure_logging settings unset)
        ("sqlalchemy.engine" ∷ "sqlalchemy" ∷ [])
        30
        from_library)
    ≡ (if is_enabled (configure_logging settings unset) ("sqlalchemy.engine" ∷ "sqlalchemy" ∷ []) 30
        then (if is_local settings.environment then console_renderer true else json_renderer) ∷ []
        else [])
rendered_once_example =
    rendered_once settings unset ("sqlalchemy.engine" ∷ "sqlalchemy" ∷ []) 30 from_library
      ((refl, refl), ((refl, refl), tt))

-- A client that is open or closed.
abbrev pool : RedisClient
pool = record { Client = Bool; aclose = λ c. (ok tt, true); is_closed = λ c. c }

pool-ClosesPool : ClosesPool pool
pool-ClosesPool = record { aclose-closed = λ c h. refl }

abbrev process : Process pool
process = record { logging = unset; client = false; lines = [] }

-- A server that fails while it serves.
abbrev crash : Action (Process pool) (Unit {0})
crash = throw (other "RuntimeError")

lifespan-IsShutDown_example :
    IsShutDown pool
      (crash (started pool settings process).1)
      (pool.aclose (crash (started pool settings process).1).1.client).0
      (lifespan pool settings crash process)
lifespan-IsShutDown_example = lifespan-IsShutDown pool pool-ClosesPool settings crash process

routes :
    create_app.routes
    ≡ ("POST", "/api/v1/auth/otp/send", otp_send)
      ∷ ("POST", "/api/v1/auth/otp/verify", otp_verify)
      ∷ ("POST", "/api/v1/auth/refresh", refresh)
      ∷ ("POST", "/api/v1/auth/logout", logout)
      ∷ ("GET", "/health", health)
      ∷ []
unfolding create_app
routes = refl

-- Options in memory, and migrations that fail.
abbrev failing : Alembic
failing = record {
  Config = Option Text;
  set_url = λ c url. if has_raw_percent url then err (other "ValueError") else ok (some url);
  get_url = λ c. c;
  has_config_file = true;
  is_offline_mode = false;
  outcome = λ c. if is_migrated c then err (other "ProgrammingError") else ok tt;
}

has_raw_percent_none : (url : Text) → has_percent url ≡ false → has_raw_percent url ≡ false
has_raw_percent_none [] h = refl
has_raw_percent_none (c ∷ []) h = ground arith
has_raw_percent_none (c ∷ d ∷ s) h = ground (arith, has_raw_percent_none (d ∷ s))

failing-KeepsOptions : KeepsOptions failing
failing-KeepsOptions = record {
  set_plain = λ c url h. (some url, rw (has_raw_percent_none url h) refl, refl);
  set_raw = λ c url h. rw h refl;
}

env-IsSettled_example :
    IsSettled (env failing settings (record { config = none; calls = [] })).1.calls
env-IsSettled_example = env-IsSettled failing settings none

-- `p%40ss`
abbrev encoded : Settings
encoded = record settings { database_url = 112 ∷ 37 ∷ 52 ∷ 48 ∷ 115 ∷ 115 ∷ [] }

env_raw_percent_example :
    ((env failing encoded (record { config = none; calls = [] })).0 ≡ err (other "ValueError"))
    × (any (is_migrated) (env failing encoded (record { config = none; calls = [] })).1.calls
        ≡ false)
env_raw_percent_example = env_raw_percent failing failing-KeepsOptions encoded none refl
