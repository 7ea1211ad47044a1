-- ===== src/Tests/Scenario.antt =====
-- A community of one resident, and the challenges that the examples use.
use civio.Base.{ℕ, true, none, List, [], ◌∷◌, Text, codes}
use civio.Config.{Settings, local, ecpay}
use civio.Models.Enums.{AuthStatus, verified, owner}
use civio.Models.User.{User}
use civio.AuthService.Data.{Challenge, Readings}
use civio.AuthService.Defs.{World, challenge_key}
use civio.AuthService.LogIn.{pair_of}
use civio.Dependencies.Defs.{Credentials}
use civio.Tests.Sample.{sample, row_session, map_redis, OpenToken}

abbrev pub settings : Settings
settings = record {
  environment = local;
  database_url = codes "postgresql://db/civio";
  redis_url = codes "redis://cache";
  rabbitmq_url = codes "amqp://queue";
  jwt_secret = codes "0123456789abcdef0123456789abcdef";
  jwt_access_ttl_min = 15;
  jwt_refresh_ttl_days = 7;
  otp_ttl_sec = 300;
  sip_domain_suffix = codes "sip.local";
  opensips_auth_shared_secret = codes "shared";
  asterisk_ami_user = codes "ami";
  asterisk_ami_secret = codes "secret";
  payment_provider = ecpay;
}

abbrev pub mobile : Text
mobile = codes "0912345678"

abbrev pub resident : ℕ → AuthStatus → User
resident id status = record {
  id = id;
  community_id = 3;
  name = codes "Lin";
  mobile = mobile;
  email = none;
  role = owner;
  auth_status = status;
  call_policy_group = none;
  friendship_enabled = true;
  user_metadata = [];
  created_at = 0;
  updated_at = 0;
}

abbrev pub readings : Readings
readings = record {
  read_at = 10;
  write_at = 11;
  access_at = 10;
  access_jti = "a";
  refresh_at = 10;
  refresh_jti = "b";
}

abbrev pub late : Readings
late = record readings { read_at = 400 }

-- The challenge 7 of user 2, with one wrong code counted.
abbrev pub challenge : Challenge
challenge = record { mobile = mobile; code = codes "123456"; attempts = 1; user_ids = "ii" ∷ [] }

abbrev pub world_of : List User → World sample settings
world_of us = record { store = λ k. none; rows = row_session.begin us }

abbrev pub quiet : World sample settings
quiet = world_of (resident 2 verified ∷ [])

-- The same with the challenge in the store until second 300.
abbrev pub challenged : World sample settings
challenged = record quiet {
  store = map_redis.setex quiet.store 0 (challenge_key sample settings 7) 300 challenge;
}

abbrev pub bearer : Credentials OpenToken
bearer = record {
  scheme = codes "Bearer";
  credentials = (pair_of sample settings (resident 2 verified) readings).access_token;
}
