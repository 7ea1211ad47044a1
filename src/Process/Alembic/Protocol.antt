-- ===== src/Process/Alembic/Protocol.antt =====
-- The order of the calls of `env.py`, and what it does with the DSN.
use civio.Base.{
  ◌≡◌, refl, Bool, true, false, ◌&&◌, Option, none, some, List, [], ◌∷◌, any, not, if◌then◌else◌,
  inl, inr, Bool-cases, sym, subst,
}
use civio.Errors.Classes.{other}
use civio.Errors.Outcome.{Outcome, ok, err, Outcome-cases}
use civio.Action.{◌>>◌, proceed}
use civio.Config.{Settings}
use civio.Process.Alembic.{
  Alembic, KeepsOptions, Call, Options, file_config, engine_created, began, migrated, connected,
  closed, disposed, configured, left_transaction, Env, has_raw_percent, env, run_migrations_offline,
  do_run_migrations, run_async_migrations, call, attempt, leave, in_transaction, offline_options,
  online_options,
}

-- What is open at a moment of a run.
pub record Phase : Type 0 where
  pub is_connected : Bool
  pub is_configured : Bool
  pub in_block : Bool

abbrev pub idle : Phase
idle = record { is_connected = false; is_configured = false; in_block = false }

abbrev allowed : Bool → Phase → Option Phase
allowed true p = some p
allowed false p = none

-- A connection is opened and closed outside of a transaction, the engine disposed of without a
-- connection; a transaction begins in a configured context, and the migrations run in a transaction.
abbrev pub step : Call → Phase → Option Phase
step file_config p = some p
step engine_created p = some p
step connected p = allowed (not p.is_connected && not p.in_block) (record p { is_connected = true })
step (configured o) p = allowed (not p.in_block) (record p { is_configured = true })
step began p = allowed (p.is_configured && not p.in_block) (record p { in_block = true })
step migrated p = allowed p.in_block p
step (left_transaction done) p = allowed p.in_block (record p { in_block = false })
step closed p = allowed (p.is_connected && not p.in_block) (record p { is_connected = false })
step disposed p = allowed (not p.is_connected && not p.in_block) p

abbrev stepped : Call → Option Phase → Option Phase
stepped c none = none
stepped c (some p) = step c p

-- The calls in order, from the first, which is the last of the list.
abbrev pub replay : List Call → Option Phase
replay [] = some idle
replay (c ∷ cs) = stepped c (replay cs)

-- Every call was allowed where it was made; after the last a connection is open or not, and no transaction.
abbrev pub IsReady : Bool → List Call → Type 0
IsReady b cs = (p : Phase) × (replay cs ≡ some p) × (p.is_connected ≡ b) × (p.in_block ≡ false)

-- Every call was allowed where it was made, and nothing is open after the last.
abbrev pub IsSettled : List Call → Type 0
IsSettled = IsReady false

abbrev pub is_migrated : Call → Bool
is_migrated migrated = true
is_migrated _ = false

module _ (A : Alembic) where
  in_transaction-IsReady :
      (b : Bool) (e : Env A)
      → replay e.calls ≡ some (record { is_connected = b; is_configured = true; in_block = false })
      → IsReady b (in_transaction A e).1.calls
  in_transaction-IsReady b e h = elim (Outcome-cases (A.outcome began)) [
    | inl (x, o) ↦ rw o (_, h, refl, refl)
    | inr (done, o) ↦ elim (Outcome-cases (A.outcome migrated)) [
      | inl (x, m) ↦ elim (Outcome-cases (A.outcome (left_transaction false))) [
        | inl (y, l) ↦ rw (o, m, l, h) (_, refl, refl, refl)
        | inr (gone, l) ↦ rw (o, m, l, h) (_, refl, refl, refl)
      ]
      | inr (ran, m) ↦ rw (o, m, h) (_, refl, refl, refl)
    ]
  ]

  -- The context is configured, and the migrations run in a transaction.
  configured-IsReady :
      (b : Bool) (options : Options) (e : Env A)
      → replay e.calls ≡ some (record { is_connected = b; is_configured = false; in_block = false })
      → IsReady b ((call A (configured options) >> in_transaction A) e).1.calls
  configured-IsReady b options e h = elim (Outcome-cases (A.outcome (configured options))) [
    | inl (x, o) ↦ rw o (_, h, refl, refl)
    | inr (done, o) ↦ rw o (in_transaction-IsReady b _ (rw h refl))
  ]

  leave-calls :
      (c : Call) (x : Outcome (Unit {0}) × Env A) → (leave A c c x).1.calls ≡ c ∷ x.1.calls
  leave-calls c (ok done, e) = refl
  leave-calls c (err x, e) = elim (Outcome-cases (A.outcome c)) [
    | inl (y, o) ↦ rw o refl
    | inr (done, o) ↦ rw o refl
  ]

  closed-IsReady : (cs : List Call) → IsReady true cs → IsReady false (closed ∷ cs)
  closed-IsReady cs (p, h, open_, out) =
      (record p { is_connected = false }, rw (h, open_, out) refl, refl, out)

  offline-IsSettled :
      (e : Env A) → replay e.calls ≡ some idle → IsSettled (run_migrations_offline A e).1.calls
  unfolding run_migrations_offline
  offline-IsSettled e h = configured-IsReady false (offline_options A (A.get_url e.config)) e h

  disposed-IsReady :
      (x : Outcome (Unit {0}) × Env A)
      → IsReady false x.1.calls
      → IsReady false (proceed (λ _. attempt A disposed) x).1.calls
  disposed-IsReady (err y, e) r = r
  disposed-IsReady (ok done, e) (p, h, shut, out) = (p, rw (h, shut, out) refl, shut, out)

  -- What follows on an open connection: the migrations, its end, and the end of the engine.
  connected-IsReady :
      (e : Env A)
      → replay e.calls
        ≡ some (record { is_connected = true; is_configured = false; in_block = false })
      → IsReady false
          (proceed
            (λ _. attempt A disposed)
            (leave A closed closed (do_run_migrations A e))).1.calls
  unfolding do_run_migrations
  connected-IsReady e h = disposed-IsReady (leave A closed closed (do_run_migrations A e)) (
      subst (IsReady false) (sym (leave-calls closed (do_run_migrations A e))) (
        closed-IsReady (do_run_migrations A e).1.calls
          (configured-IsReady true (online_options A) e h)))

  online-IsSettled :
      (e : Env A) → replay e.calls ≡ some idle → IsSettled (run_async_migrations A e).1.calls
  unfolding run_async_migrations do_run_migrations
  online-IsSettled e h = elim (Outcome-cases (A.outcome engine_created)) [
    | inl (x, n) ↦ rw n (_, h, refl, refl)
    | inr (made, n) ↦ elim (Outcome-cases (A.outcome connected)) [
      | inl (x, c) ↦ rw (n, c, h) (_, refl, refl, refl)
      | inr (open_, c) ↦
          rw (n, c)
            (connected-IsReady (record e { calls = connected ∷ engine_created ∷ e.calls })
              (rw h refl))
    ]
  ]

  online_or_offline-IsSettled :
      (b : Bool) (e : Env A)
      → replay e.calls ≡ some idle
      → IsSettled ((if b then run_migrations_offline A else run_async_migrations A) e).1.calls
  online_or_offline-IsSettled true e h = offline-IsSettled e h
  online_or_offline-IsSettled false e h = online-IsSettled e h

  -- In either mode, whichever calls fail, those that end a transaction, a connection or the engine included,
  -- if only the configuration file is read: a run of `env.py` migrates only in a transaction of a configured
  -- context, leaves that transaction, and closes the connection that it opened.
  pub env-IsSettled :
      (settings : Settings) (config : A.Config)
      → IsSettled (env A settings (record { config = config; calls = [] })).1.calls
  unfolding env
  env-IsSettled settings config = elim (Bool-cases A.has_config_file) [
    | inl f ↦ elim (Outcome-cases (A.set_url config settings.database_url)) [
      | inl (x, u) ↦ rw (f, u) (_, refl, refl, refl)
      | inr (d, u) ↦ rw (f, u) (online_or_offline-IsSettled A.is_offline_mode _ refl)
    ]
    | inr f ↦ elim (Outcome-cases (A.set_url config settings.database_url)) [
      | inl (x, u) ↦ rw (f, u) (_, refl, refl, refl)
      | inr (d, u) ↦ rw (f, u) (online_or_offline-IsSettled A.is_offline_mode _ refl)
    ]
  ]

  -- With a `%` in the DSN that is not escaped, as in a password with percent-encoded characters, `env.py`
  -- ends with a `ValueError` before any migration, in either mode.
  pub env_raw_percent :
      KeepsOptions A
      → (settings : Settings) (config : A.Config) → has_raw_percent settings.database_url ≡ true
      → ((env A settings (record { config = config; calls = [] })).0 ≡ err (other "ValueError"))
        × (any is_migrated (env A settings (record { config = config; calls = [] })).1.calls
            ≡ false)
  unfolding env
  env_raw_percent L settings config raw = elim (Bool-cases A.has_config_file) [
    | inl f ↦ rw (f, L.set_raw config settings.database_url raw) (refl, refl)
    | inr f ↦ rw (f, L.set_raw config settings.database_url raw) (refl, refl)
  ]
