-- ===== src/Config.antt =====
-- `civio-cloud/src/core/config.py`: the settings, their defaults, and the check of the secret.
-- Reading and converting the variables is the settings library's; a variable that is absent is `none`.
use civio.Base.{ℕ, ◌≡◌, ◌≤◌, Option, none, some, Text, length, ltb, arith, if◌then◌else◌}
use civio.Errors.Classes.{other}
use civio.Errors.Outcome.{Outcome, ok, err, ◌>>=◌, or_raise}

pub data Environment : Type 0 where
  local staging production : Environment

pub data PaymentProvider : Type 0 where
  ecpay newebpay stripe : PaymentProvider

pub record Settings : Type 0 where
  pub environment : Environment
  pub database_url : Text
  pub redis_url : Text
  pub rabbitmq_url : Text
  pub jwt_secret : Text
  pub jwt_access_ttl_min : ℕ
  pub jwt_refresh_ttl_days : ℕ
  pub otp_ttl_sec : ℕ
  pub sip_domain_suffix : Text
  pub opensips_auth_shared_secret : Text
  pub asterisk_ami_user : Text
  pub asterisk_ami_secret : Text
  pub payment_provider : PaymentProvider

-- The variables as they were found, converted to the types of the fields.
pub record Variables : Type 0 where
  pub environment : Option Environment
  pub database_url : Option Text
  pub redis_url : Option Text
  pub rabbitmq_url : Option Text
  pub jwt_secret : Option Text
  pub jwt_access_ttl_min : Option ℕ
  pub jwt_refresh_ttl_days : Option ℕ
  pub otp_ttl_sec : Option ℕ
  pub sip_domain_suffix : Option Text
  pub opensips_auth_shared_secret : Option Text
  pub asterisk_ami_user : Option Text
  pub asterisk_ami_secret : Option Text
  pub payment_provider : Option PaymentProvider

-- `_validate_jwt_secret`
unfoldable pub validate_jwt_secret : Text → Outcome Text
validate_jwt_secret value = if ltb (length value) 32 then err (other "ValueError") else ok value

abbrev default {ℓ} : {A : Type ℓ} → A → Option A → A
default d none = d
default d (some a) = a

abbrev required : Option Text → Outcome Text
required v = or_raise v (other "ValidationError")

abbrev checked : Outcome Text → Outcome Text
checked (ok v) = ok v
checked (err e) = err (other "ValidationError")

-- `Settings()`: a field that is missing or refused by its check makes a `ValidationError`.
unfoldable pub load_settings : Variables → Outcome Settings
unfolding validate_jwt_secret
load_settings v = do
  database_url ← required v.database_url
  redis_url ← required v.redis_url
  rabbitmq_url ← required v.rabbitmq_url
  raw_secret ← required v.jwt_secret
  jwt_secret ← checked (validate_jwt_secret raw_secret)
  sip_domain_suffix ← required v.sip_domain_suffix
  shared_secret ← required v.opensips_auth_shared_secret
  ami_user ← required v.asterisk_ami_user
  ami_secret ← required v.asterisk_ami_secret
  ok (record {
    environment = default local v.environment;
    database_url = database_url;
    redis_url = redis_url;
    rabbitmq_url = rabbitmq_url;
    jwt_secret = jwt_secret;
    jwt_access_ttl_min = default 15 v.jwt_access_ttl_min;
    jwt_refresh_ttl_days = default 7 v.jwt_refresh_ttl_days;
    otp_ttl_sec = default 300 v.otp_ttl_sec;
    sip_domain_suffix = sip_domain_suffix;
    opensips_auth_shared_secret = shared_secret;
    asterisk_ami_user = ami_user;
    asterisk_ami_secret = ami_secret;
    payment_provider = default ecpay v.payment_provider;
  })

-- Settings that load have a secret of at least 32 characters, the one that was given, and each TTL is
-- the variable's or its default.
pub load_settings_sound :
    (v : Variables) {s : Settings}
    → load_settings v ≡ ok s
    → (32 ≤ length s.jwt_secret)
      × (v.jwt_secret ≡ some s.jwt_secret)
      × (s.otp_ttl_sec ≡ default 300 v.otp_ttl_sec)
      × (s.jwt_access_ttl_min ≡ default 15 v.jwt_access_ttl_min)
      × (s.jwt_refresh_ttl_days ≡ default 7 v.jwt_refresh_ttl_days)
unfolding load_settings
load_settings_sound v h = ground arith
