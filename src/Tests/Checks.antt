-- ===== src/Tests/Checks.antt =====
-- The theorems on tokens, codes, requests, errors, settings and tables, at concrete inputs.
use civio.Base.{◌↔◌, ◌≡◌, refl, none, some, [], ◌∷◌, Text, All, arith, length, ◌+◌, ◌≤◌}
use civio.Errors.Outcome.{ok, err}
use civio.Errors.Classes.{raised, text, token_expired_error}
use civio.Config.{Variables, load_settings, load_settings_sound}
use civio.Models.Enums.{verified, admin, staff, owner}
use mathlib.Core.List.{Memᴰ}
use civio.Dependencies.Roles.{require_role-iff-Mem}
use civio.AuthService.Defs.{refresh_tokens}
use civio.AuthService.LogIn.{pair_of}
use civio.AuthService.Refresh.{Renewed, refresh_tokens-Renewed, refresh_tokens-refresh_token}
use civio.Dependencies.Defs.{require_role, get_current_user}
use civio.Dependencies.Laws.{Admitted, get_current_user-Admitted}
use civio.Security.Tokens.{access, build_token, decode_token, is_reserved}
use civio.Security.Tokens.Laws.{IsPlain, decode_token-build_token}
use civio.Security.Otp.{generate_otp}
use civio.Security.Otp.Laws.{IsCode, generate_otp-IsCode}
use civio.Schema.Agreement.{IsSame, Resolves, declared-IsSame, foreign_keys-Resolves}
use civio.Schema.Entities.{call_log, created, class_of, earlier}
use civio.Models.Mapping.{declared}
use civio.Repositories.UserRepo.{get}
use civio.Tests.Sample.{
  sample, sample-IsLawful, open_jwt, open_jwt-IsLawful, strict, strict-IsExact,
}
use civio.Tests.Scenario.{settings, resident, readings, quiet, bearer}

renewed :
    refresh_tokens sample settings
      (pair_of sample settings (resident 2 verified) readings).refresh_token
      1_000_000
      readings
      quiet
    ≡ (ok (pair_of sample settings (resident 2 verified) readings), quiet)
renewed =
    refresh_tokens-refresh_token sample sample-IsLawful settings (resident 2 verified) readings
      quiet (resident 2 verified) 1_000_000 readings refl refl (ground arith)

refresh_tokens-Renewed_example :
    Renewed sample settings quiet
      (pair_of sample settings (resident 2 verified) readings).refresh_token
      1_000_000
      readings
      (pair_of sample settings (resident 2 verified) readings)
      quiet
refresh_tokens-Renewed_example =
    refresh_tokens-Renewed sample settings quiet
      (pair_of sample settings (resident 2 verified) readings).refresh_token 1_000_000 readings
      renewed

admitted :
    get_current_user sample settings (some bearer) 1_000_000 quiet.rows
    ≡ (ok (resident 2 verified), quiet.rows)
unfolding get_current_user decode_token get
admitted = refl

get_current_user-Admitted_example :
    Admitted sample settings quiet.rows (some bearer) 1_000_000 (resident 2 verified) quiet.rows
get_current_user-Admitted_example =
    get_current_user-Admitted sample settings quiet.rows (some bearer) 1_000_000 admitted

role_claim-IsPlain : IsPlain (("role", text "owner") ∷ [])
unfolding is_reserved
role_claim-IsPlain = record { unreserved = refl; no_nbf = refl; no_aud = refl; no_at_hash = refl }

decode_token-build_token_example :
    (token : _) × (build_token open_jwt settings "ii" access 900
        (("role", text "owner") ∷ [])
        5_000_000
        "a"
      ≡ ok token)
    × (decode_token open_jwt strict settings token 906_000_000
        ≡ err (raised token_expired_error "token expired"))
    × (905 ≡ 5 + 900)
decode_token-build_token_example =
    decode_token-build_token open_jwt open_jwt-IsLawful strict strict-IsExact settings "ii" access
      900 (("role", text "owner") ∷ []) 5_000_000 "a" 906_000_000 role_claim-IsPlain

generate_otp-IsCode_example : (code : Text) × (generate_otp 6 42 ≡ ok code) × IsCode 6 42 code
generate_otp-IsCode_example = generate_otp-IsCode 6 42 (omega arith) (omega arith) (omega arith)

abbrev variables : Variables
variables = record {
  environment = none;
  database_url = some settings.database_url;
  redis_url = some settings.redis_url;
  rabbitmq_url = some settings.rabbitmq_url;
  jwt_secret = some settings.jwt_secret;
  jwt_access_ttl_min = none;
  jwt_refresh_ttl_days = none;
  otp_ttl_sec = none;
  sip_domain_suffix = some settings.sip_domain_suffix;
  opensips_auth_shared_secret = some settings.opensips_auth_shared_secret;
  asterisk_ami_user = some settings.asterisk_ami_user;
  asterisk_ami_secret = some settings.asterisk_ami_secret;
  payment_provider = none;
}

loaded : load_settings variables ≡ ok settings
unfolding load_settings
loaded = refl

load_settings_sound_example :
    (32 ≤ length settings.jwt_secret)
    × (variables.jwt_secret ≡ some settings.jwt_secret)
    × (settings.otp_ttl_sec ≡ 300)
    × (settings.jwt_access_ttl_min ≡ 15)
    × (settings.jwt_refresh_ttl_days ≡ 7)
load_settings_sound_example = load_settings_sound variables loaded

declared-IsSame_example : IsSame (created call_log) (declared (class_of call_log))
declared-IsSame_example = declared-IsSame call_log

foreign_keys-Resolves_example :
    All (Resolves (created call_log) (earlier call_log)) (created call_log).foreign_keys
foreign_keys-Resolves_example = foreign_keys-Resolves call_log

require_role-iff-Mem_example :
    (require_role (admin ∷ staff ∷ []) (resident 2 verified) ≡ ok (resident 2 verified))
    ↔ Memᴰ owner (admin ∷ staff ∷ [])
require_role-iff-Mem_example = require_role-iff-Mem (admin ∷ staff ∷ []) (resident 2 verified)
