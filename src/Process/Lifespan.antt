-- ===== src/Process/Lifespan.antt =====
-- `_lifespan` and `create_app` of `main.py`, with `close_redis` of `core/redis_client.py`. The Redis
-- client is a parameter.
use civio.Base.{◌≡◌, refl, String, ◌<>◌, Bool, true, List, [], ◌∷◌, ◌++◌, map, ◌⊎◌, inl, inr}
use civio.Errors.Classes.{Exn}
use civio.Errors.Outcome.{Outcome, ok, err}
use civio.Errors.Handlers.{PyClass, Handler, register_handlers}
use civio.Action.{Action, modify, ◌>>◌, proceed}
use civio.Config.{Settings}
use civio.Process.Logging.{Logging, configure_logging}

-- The client with its pool of connections. Documented: `aclose` that returns has closed the pool.
pub record RedisClient : Type 1 where
  pub Client : Type 0
  pub aclose : Client → Outcome (Unit {0}) × Client
  pub is_closed : Client → Bool

pub record ClosesPool (R : RedisClient) : Type 0 where
  pub aclose-closed : (c : R.Client) → (R.aclose c).0 ≡ ok tt → R.is_closed (R.aclose c).1 ≡ true

-- The middleware for CORS and the routes with their paths, in the order of their registration.
pub record Cors : Type 0 where
  pub allow_origins : List String
  pub allow_credentials : Bool
  pub allow_methods : List String
  pub allow_headers : List String

pub data Endpoint : Type 0 where
  otp_send otp_verify refresh logout health : Endpoint

pub record App : Type 0 where
  pub title : String
  pub version : String
  pub middleware : List Cors
  pub handlers : List (PyClass × Handler)
  pub routes : List (String × String × Endpoint)

-- The router of `api/v1/auth.py` under its prefix.
abbrev pub auth_router : List (String × String × Endpoint)
auth_router =
    ("POST", "/auth" <> "/otp/send", otp_send)
    ∷ ("POST", "/auth" <> "/otp/verify", otp_verify)
    ∷ ("POST", "/auth" <> "/refresh", refresh)
    ∷ ("POST", "/auth" <> "/logout", logout)
    ∷ []

-- `include_router(router, prefix=prefix)`
abbrev pub included : String → List (String × String × Endpoint) → List (String × String × Endpoint)
included prefix routes = map (λ r. (r.0, prefix <> r.1, r.2)) routes

-- `api_router` of `api/v1/__init__.py`
abbrev pub api_router : List (String × String × Endpoint)
api_router = included "" auth_router

unfoldable pub create_app : App
create_app = record {
  title = "Civio Cloud API";
  version = "0.1.0";
  middleware =
      (record {
        allow_origins = "*" ∷ [];
        allow_credentials = true;
        allow_methods = "*" ∷ [];
        allow_headers = "*" ∷ [];
      })
      ∷ [];
  handlers = register_handlers;
  routes = included "/api/v1" api_router ++ (("GET", "/health", health) ∷ []);
}

module _ (R : RedisClient) where
  pub record Process : Type 0 where
    pub logging : Logging
    pub client : R.Client
    pub lines : List String

  -- `log.info`, newest line first
  abbrev info : String → Action Process (Unit {0})
  info line = modify λ p. record p { lines = line ∷ p.lines }

  abbrev closed : Outcome (Unit {0}) × R.Client → Process → Outcome (Unit {0}) × Process
  closed (r, c) p = (r, record p { client = c })

  -- The one client of the process, for the requests
  abbrev pub get_redis : Process → R.Client
  get_redis p = p.client

  -- `close_redis`
  unfoldable pub close_redis : Action Process (Unit {0})
  close_redis p = closed (R.aclose p.client) p

  abbrev ended : {A : Type 0} → Outcome A → Outcome (Unit {0}) × Process → Outcome A × Process
  ended r (ok done, p) = (r, p)
  ended r (err e, p) = (err e, p)

  -- `try: m finally: last`; an exception of `last` takes the place of the outcome.
  abbrev finally : {A : Type 0} → Action Process A → Action Process (Unit {0}) → Action Process A
  finally m last p = let (r, q) = m p in ended r (last q)

  abbrev pub started : Settings → Action Process (Unit {0})
  started settings =
      modify (λ p. record p { logging = configure_logging settings p.logging })
      >> info "app_starting"

  -- `_lifespan` around `body`, what the server does at its `yield`
  unfoldable pub lifespan : {A : Type 0} → Settings → Action Process A → Action Process A
  unfolding close_redis
  lifespan settings body = started settings >> finally body (close_redis >> info "app_stopped")

  -- How the process ends and what it leaves, from what the body left and how closing the pool went.
  abbrev pub IsShutDown :
      {A : Type 0} → Outcome A × Process → Outcome (Unit {0}) → Outcome A × Process → Type 0
  IsShutDown left close (r, p) =
      ((R.is_closed p.client ≡ true) × (p.lines ≡ "app_stopped" ∷ left.1.lines) × (r ≡ left.0))
      ⊎ ((e : Exn) × (close ≡ err e) × (r ≡ err e))

  finally_closed :
      {A : Type 0} (r : Outcome A) (q : Process) (x : Outcome (Unit {0}) × R.Client)
      → (x.0 ≡ ok tt → R.is_closed x.1 ≡ true)
      → IsShutDown (r, q) x.0 (ended r (proceed (λ done. info "app_stopped") (closed x q)))
  finally_closed r q (ok tt, c) closes = inl (closes refl, refl, refl)
  finally_closed r q (err e, c) closes = inr (e, refl, refl)

  -- However the body of `_lifespan` ends: either the pool is closed, `app_stopped` is logged after the
  -- lines of the body, and the process ends as the body ended; or closing the pool raised an exception,
  -- with which the process ends.
  pub lifespan-IsShutDown :
      ClosesPool R
      → {A : Type 0} (settings : Settings) (body : Action Process A) (p : Process)
      → IsShutDown
          (body (started settings p).1)
          (R.aclose (body (started settings p).1).1.client).0
          (lifespan settings body p)
  unfolding lifespan close_redis
  lifespan-IsShutDown L settings body p =
      let (r, q) = body (started settings p).1 in
      finally_closed r q (R.aclose q.client) (L.aclose-closed q.client)
