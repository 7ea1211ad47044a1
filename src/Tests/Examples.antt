-- ===== src/Tests/Examples.antt =====
-- The theorems at concrete inputs.
use civio.Base.{◌≡◌, refl, none, some, [], ◌∷◌, codes, arith, ◌≤◌}
use civio.Errors.Outcome.{ok, err}
use civio.Errors.Classes.{raised, raised_with, validation_error, authentication_error, num}
use civio.Models.Enums.{pending, verified}
use civio.AuthService.Data.{max_attempts, compare_digest, parse_uuids}
use civio.AuthService.Defs.{World, challenge_key, send_otp, verify_otp, choose_user}
use civio.AuthService.Steps.{Holds, rejected}
use civio.AuthService.LogIn.{pair_of}
use civio.AuthService.Guessing.{Budget, History, begin, call, rejections-le-max_attempts}
use civio.AuthService.Success.{Redeemed, verify_otp-Redeemed}
use civio.AuthService.Lifecycle.{
  verify_otp-send_otp, verify_otp_ambiguous, verify_otp_expired, verify_otp_once,
}
use civio.AuthService.Race.{
  Undercounted, finish_all, begin_verify, finish_verify, finish_all-Undercounted,
  finish_verify_revives,
}
use civio.Repositories.UserRepo.{get, list_by_mobile}
use civio.Security.Otp.{zero_padded}
use civio.Security.Tokens.{create_access_token, create_refresh_token, is_reserved}
use civio.Api.Defs.{OtpVerifyRequest, Backend, get_auth_service, otp_verify}
use civio.Api.Transactions.{Ended, otp_verify-Ended}
use civio.Tests.Sample.{sample, sample-IsLawful, row_session, map_redis}
use civio.Tests.Scenario.{
  settings, mobile, resident, readings, late, challenge, world_of, challenged,
}

challenged-Holds : Holds sample sample-IsLawful settings challenged 7 challenge (some 300)
unfolding challenge_key
challenged-Holds = refl

abbrev guessed : World sample settings
guessed = (verify_otp sample settings 7 (codes "000000") readings challenged).1

one_guess : History sample sample-IsLawful settings 7 challenged 1 guessed
unfolding verify_otp compare_digest
one_guess = call begin (codes "000000") readings (rejected 1) refl refl

rejections-le-max_attempts_example :
    (2 ≤ max_attempts) × Budget sample sample-IsLawful settings guessed 7 2
rejections-le-max_attempts_example =
    rejections-le-max_attempts sample sample-IsLawful settings challenge (some 300) challenged-Holds
      (omega arith) one_guess

abbrev redeemed : World sample settings
redeemed = (verify_otp sample settings 7 (codes "123456") readings challenged).1

right_code :
    verify_otp sample settings 7 (codes "123456") readings challenged
    ≡ (ok (pair_of sample settings (resident 2 verified) readings), redeemed)
unfolding verify_otp compare_digest parse_uuids choose_user get create_access_token is_reserved
    create_refresh_token
right_code = refl

verify_otp-Redeemed_example :
    Redeemed sample sample-IsLawful settings challenged 7
      (codes "123456")
      readings
      (pair_of sample settings (resident 2 verified) readings)
      redeemed
verify_otp-Redeemed_example =
    verify_otp-Redeemed sample sample-IsLawful settings challenged (resident 2 verified ∷ []) refl 7
      (codes "123456") readings right_code

round_trip :
    let (r, w') =
      send_otp sample settings mobile 8 42 1_000_000 1 (world_of (resident 2 pending ∷ [])) in
    (r ≡ ok (record { challenge_id = 8; mobile = mobile; expires_at = 301_000_000 }))
    × ((verify_otp sample settings 8 (codes "000042") readings w').0
        ≡ ok (pair_of sample settings (resident 2 pending) readings))
unfolding list_by_mobile zero_padded
round_trip =
    verify_otp-send_otp sample sample-IsLawful settings (world_of (resident 2 pending ∷ []))
      (resident 2 pending ∷ []) mobile 8 42 1_000_000 1 (resident 2 pending) readings refl refl
      (λ e. cc e) (_, refl) (omega arith) (omega arith) (omega arith)

verify_otp_ambiguous_example :
    let w' =
      (send_otp sample settings mobile 8 42 0 1
        (world_of (resident 2 verified ∷ resident 4 verified ∷ []))).1 in
    let (r, w'') = verify_otp sample settings 8 (codes "000042") readings w' in
    (r
      ≡ err (
          raised_with validation_error "mobile matches multiple users; community selection required"
            (("user_count", num 2) ∷ [])))
    × (map_redis.entry w''.store (challenge_key sample settings 8) ≡ none)
    × (w''.rows ≡ row_session.begin (resident 2 verified ∷ resident 4 verified ∷ []))
unfolding list_by_mobile zero_padded
verify_otp_ambiguous_example =
    verify_otp_ambiguous sample sample-IsLawful settings
      (world_of (resident 2 verified ∷ resident 4 verified ∷ [])) mobile 8 42 0 1
      (resident 2 verified) (resident 4 verified) [] readings refl (omega arith) (omega arith)
      (omega arith)

too_late :
    verify_otp sample settings 7 (codes "123456") late challenged
    ≡ (err (raised authentication_error "otp challenge expired or not found"), challenged)
too_late =
    verify_otp_expired sample sample-IsLawful settings challenged 7 challenge 300 (codes "123456")
      late challenged-Holds (omega arith)

verify_otp_once_example :
    verify_otp sample settings 7 (codes "123456") readings redeemed
    ≡ (err (raised authentication_error "otp challenge expired or not found"), redeemed)
verify_otp_once_example =
    verify_otp_once sample sample-IsLawful settings challenged (resident 2 verified ∷ []) 7
      (codes "123456") readings redeemed (codes "123456") readings refl right_code refl

finish_all-Undercounted_example :
    Undercounted sample sample-IsLawful settings 7 challenge
      (some 300)
      ((codes "000000", readings) ∷ (codes "111111", readings) ∷ [])
      (finish_all sample settings
        (begin_verify sample settings challenged 7 (codes "000000", readings)
          ∷ begin_verify sample settings challenged 7 (codes "111111", readings)
          ∷ [])
        challenged)
unfolding compare_digest
finish_all-Undercounted_example =
    finish_all-Undercounted sample sample-IsLawful settings challenged 7 challenge (some 300)
      (codes "000000", readings) ((codes "111111", readings) ∷ []) challenged-Holds (omega arith)
      ((refl, refl, refl), ((refl, refl, refl), tt))

finish_verify_revives_example :
    let (r, revived) =
      finish_verify sample settings
        (begin_verify sample settings challenged 7 (codes "000000", readings))
        redeemed in
    (r ≡ rejected 1)
    × Holds sample sample-IsLawful settings revived 7 (record challenge { attempts = 2 }) none
unfolding compare_digest
finish_verify_revives_example =
    finish_verify_revives sample sample-IsLawful settings challenged (resident 2 verified ∷ []) 7
      challenge (some 300) (codes "000000", readings) readings refl challenged-Holds (omega arith)
      (refl, refl, refl) right_code

abbrev request : OtpVerifyRequest
request = record { challenge_id = 7; code = codes "123456" }

abbrev backend : Backend sample settings
backend = record { store = challenged.store; database = resident 2 pending ∷ [] }

otp_verify-Ended_example :
    Ended sample sample-IsLawful settings backend.database
      (verify_otp sample settings 7
        (codes "123456")
        readings
        (get_auth_service sample settings backend)).1
      (otp_verify sample settings request readings backend)
    × ((otp_verify sample settings request readings backend).1.store
        ≡ (verify_otp sample settings 7
            (codes "123456")
            readings
            (get_auth_service sample settings backend)).1.store)
otp_verify-Ended_example = otp_verify-Ended sample sample-IsLawful settings request readings backend
