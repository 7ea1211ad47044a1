-- ===== src/Tests/Writes.antt =====
-- The repository of any model, and the reachable states of Redis, at concrete data.
use civio.Base.{if◌then◌else◌, ℕ, ◌==◌, refl, none, some, [], ◌∷◌, codes, arith, String}
use civio.Models.Enums.{verified}
use civio.Models.User.{user_id}
use civio.Repositories.Refinement.{updating, run, Done, run-Done}
use civio.Repositories.UserRepo.{list_by_mobile}
use civio.Security.Otp.{generate_otp, zero_padded}
use civio.AuthService.Defs.{World, verify_otp, send_otp, challenge_key}
use civio.AuthService.Soundness.{IsSound, InTime, here, next, send, verify, Reach-IsSound}
use civio.Tests.Sample.{sample, sample-IsLawful}
use civio.Tests.SampleOrm.{Users, user_orm, user_orm-IsLawful, settled-IsClean, nothing}
use civio.Tests.Scenario.{settings, mobile, resident, readings, quiet}

abbrev shown : ℕ → String
shown i = "id"

abbrev users : Users
users = record {
  ids = 2 ∷ [];
  look = λ i. if i == 2 then some (resident 2 verified) else none;
  waiting = nothing;
}

run-Done_example :
    Done user_orm user_id user_orm-IsLawful "User" shown
      (updating 5 [] tt)
      users
      (run user_orm user_id user_orm-IsLawful "User" shown (updating 5 [] tt) users)
run-Done_example =
    run-Done user_orm user_id user_orm-IsLawful "User" shown (updating 5 [] tt) users
      (settled-IsClean users refl)

abbrev challenged_once : World sample settings
challenged_once = (send_otp sample settings mobile 7 42 0 1 quiet).1

abbrev guessed_once : World sample settings
guessed_once = (verify_otp sample settings 7 (codes "000000") readings challenged_once).1

in_time : InTime sample sample-IsLawful settings challenged_once 7 readings
unfolding send_otp challenge_key list_by_mobile generate_otp zero_padded
in_time = refl

Reach-IsSound_example : IsSound sample sample-IsLawful settings guessed_once.store
Reach-IsSound_example =
    Reach-IsSound sample sample-IsLawful settings {w = quiet} (λ k. refl)
      (next (next here (send mobile 7 42 0 1 (omega arith) refl))
        (verify 7 (codes "000000") readings in_time refl))
