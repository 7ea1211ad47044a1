-- ===== src/Process/Alembic.antt =====
-- `migrations/env.py`: the DSN of the settings, and the two modes in which the migrations run.
-- Alembic's configuration, the engine and the migrations themselves are parameters; a state has the
-- configuration and the calls so far, newest first.
pub mod Protocol
use civio.Base.{
  ℕ, ◌+◌, ◌≡◌, refl, String, str_eq, Bool, true, false, ◌&&◌, Option, none, some, List, [], ◌∷◌,
  any, not, Text, length, keep, ◌==◌, if◌then◌else◌, ap, sym, ◌∙◌, arith,
}
use civio.Errors.Classes.{Exn, other}
use civio.Errors.Outcome.{Outcome, ok, err, Outcome-cases}
use civio.Action.{Action, ◌>>=◌, ◌>>◌, pure, lift, gets, modify}
use civio.Config.{Settings}

abbrev pub has_percent : Text → Bool
has_percent s = any (λ c. c == 37) s

-- A `%` that is neither doubled nor before a parenthesis.
abbrev pub has_raw_percent : Text → Bool
has_raw_percent [] = false
has_raw_percent (c ∷ []) = c == 37
has_raw_percent (c ∷ d ∷ s) =
    let rest = has_raw_percent (d ∷ s) in
    let after = has_raw_percent s in
    if c == 37 then (if d == 37 then after else if d == 40 then rest else true) else rest

-- The arguments of `context.configure`; `url` in the offline mode, the connection in the other.
pub record Options : Type 0 where
  pub url : Option Text
  pub connection : Bool
  pub target_metadata : String
  pub literal_binds : Bool
  pub paramstyle : Option String
  pub compare_type : Bool
  pub compare_server_default : Bool

-- A block of `begin_transaction` and a connection are left with or without an exception.
pub data Call : Type 0 where
  file_config engine_created connected began migrated closed disposed : Call
  configured : Options → Call
  left_transaction : Bool → Call

-- What `env.py` uses: the options of the section `main`, and how each
-- call ends. The file of the configuration is taken to be read without an error.
pub record Alembic : Type 1 where
  pub Config : Type 0
  pub set_url : Config → Text → Outcome Config
  pub get_url : Config → Option Text
  pub has_config_file : Bool
  pub is_offline_mode : Bool
  pub outcome : Call → Outcome (Unit {0})

-- Documented: an option is read back as it was set, and a `%` in it must be escaped.
pub record KeepsOptions (A : Alembic) : Type 0 where
  pub set_plain :
      (c : A.Config) (url : Text)
      → has_percent url ≡ false
      → (d : A.Config) × (A.set_url c url ≡ ok d) × (A.get_url d ≡ some url)
  pub set_raw :
      (c : A.Config) (url : Text)
      → has_raw_percent url ≡ true
      → A.set_url c url ≡ err (other "ValueError")

module _ (A : Alembic) where
  pub record Env : Type 0 where
    pub config : A.Config
    pub calls : List Call

  abbrev note : Call → Action Env (Unit {0})
  note c = modify λ e. record e { calls = c ∷ e.calls }

  -- A call that opens something, which it does not if it fails.
  abbrev pub call : Call → Action Env (Unit {0})
  call c = lift (A.outcome c) >> note c

  -- A call that has its effect, or ends what was open, also if it fails.
  abbrev pub attempt : Call → Action Env (Unit {0})
  attempt c = note c >> lift (A.outcome c)

  abbrev raising : Exn → Outcome (Unit {0}) × Env → Outcome (Unit {0}) × Env
  raising x (ok done, e) = (err x, e)
  raising x (err y, e) = (err y, e)

  -- The end of a `with` block: `__exit__` after a success or after an exception, which goes on unless the
  -- exit raises another.
  abbrev pub leave : Call → Call → Outcome (Unit {0}) × Env → Outcome (Unit {0}) × Env
  leave good bad (ok done, e) = attempt good e
  leave good bad (err x, e) = raising x (attempt bad e)

  -- `with context.begin_transaction(): context.run_migrations()`
  abbrev pub in_transaction : Action Env (Unit {0})
  in_transaction = do
    call began
    λ e. leave (left_transaction true) (left_transaction false) (attempt migrated e)

  abbrev pub offline_options : Option Text → Options
  offline_options url = record {
    url = url;
    connection = false;
    target_metadata = "Base.metadata";
    literal_binds = true;
    paramstyle = some "named";
    compare_type = true;
    compare_server_default = true;
  }

  unfoldable pub run_migrations_offline : Action Env (Unit {0})
  run_migrations_offline = do
    url ← gets (λ e. A.get_url e.config)
    call (configured (offline_options url))
    in_transaction

  abbrev pub online_options : Options
  online_options = record {
    url = none;
    connection = true;
    target_metadata = "Base.metadata";
    literal_binds = false;
    paramstyle = none;
    compare_type = true;
    compare_server_default = true;
  }

  unfoldable pub do_run_migrations : Action Env (Unit {0})
  do_run_migrations = call (configured online_options) >> in_transaction

  -- The engine, `async with connectable.connect()`, and `dispose` after it
  unfoldable pub run_async_migrations : Action Env (Unit {0})
  unfolding do_run_migrations
  run_async_migrations = do
    call engine_created
    call connected
    λ e. leave closed closed (do_run_migrations e)
    attempt disposed

  -- The DSN of the settings becomes an option.
  abbrev pub inject_url : Settings → Action Env (Unit {0})
  inject_url settings = do
    if A.has_config_file then note file_config else pure tt
    config ← λ e. (A.set_url e.config settings.database_url, e)
    modify (λ e. record e { config = config })

  unfoldable pub env : Settings → Action Env (Unit {0})
  unfolding run_migrations_offline run_async_migrations
  env settings =
      inject_url settings
      >> (if A.is_offline_mode then run_migrations_offline else run_async_migrations)
