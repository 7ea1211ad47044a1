-- ===== src/Api/Requests.antt =====
-- The validation of `OtpVerifyRequest` in `schemas/auth.py`, and the endpoint `logout` of
-- `api/v1/auth.py`. Which characters `\d` matches, the removal of white space and the reading of a
-- UUID are the packages'.
use civio.Base.{
  ℕ, ◌^◌, ◌<◌, ◌≡◌, refl, Bool, true, false, ◌&&◌, Option, none, some, [], ◌∷◌, Text, length, All,
  ◌==◌, arith,
}
use civio.Errors.Classes.{request_validation}
use civio.Errors.Outcome.{Outcome, ok, err}
use civio.Api.Defs.{OtpVerifyRequest}
use civio.Models.User.{User}
use civio.Security.Otp.{generate_otp, otp_length}
use civio.Security.Otp.Laws.{IsDigit, generate_otp-IsCode}

-- `logout`, once `get_current_user` has returned the user: the status of its answer, which changes nothing.
abbrev pub logout : User → ℕ
logout user = 204

module _ (strip : Text → Text) (is_decimal : ℕ → Bool) (parse_uuid : Text → Option ℕ) where
  abbrev all_decimal : Text → Bool
  all_decimal [] = true
  all_decimal (c ∷ s) = is_decimal c && all_decimal s

  -- `^\d{6}$`
  unfoldable pub is_code : Text → Bool
  is_code s = (length s == 6) && all_decimal s

  -- The errors of both fields are collected.
  abbrev verify_request : Option ℕ → Text → Bool → Outcome OtpVerifyRequest
  verify_request (some id) code true = ok (record { challenge_id = id; code = code })
  verify_request (some id) code false = err (request_validation ("code" ∷ []))
  verify_request none code true = err (request_validation ("challenge_id" ∷ []))
  verify_request none code false = err (request_validation ("challenge_id" ∷ "code" ∷ []))

  -- `OtpVerifyRequest` from the fields of a request
  unfoldable pub load_otp_verify : Text → Text → Outcome OtpVerifyRequest
  unfolding is_code
  load_otp_verify raw_id raw_code =
      verify_request (parse_uuid raw_id) (strip raw_code) (is_code (strip raw_code))

  all_decimal_digits :
      ((c : ℕ) → IsDigit c → is_decimal c ≡ true)
      → (s : Text) → All IsDigit s
      → all_decimal s ≡ true
  all_decimal_digits h [] all = refl
  all_decimal_digits h (c ∷ s) (d, all) = rw (h c d) (all_decimal_digits h s all)

  -- Every code that `generate_otp` draws is accepted by the endpoint that verifies it, as it was
  -- drawn, zeros in front included, if `\d` matches the ASCII digits and a text of digits has no white
  -- space to remove.
  pub load_otp_verify-generate_otp :
      ((c : ℕ) → IsDigit c → is_decimal c ≡ true)
      → ((s : Text) → All IsDigit s → strip s ≡ s)
      → (raw_id : Text) (id draw : ℕ) → parse_uuid raw_id ≡ some id
      → draw < 10 ^ otp_length
      → (code : Text) × (generate_otp otp_length draw ≡ ok code)
        × (load_otp_verify raw_id code ≡ ok (record { challenge_id = id; code = code }))
  unfolding load_otp_verify is_code
  load_otp_verify-generate_otp decimal kept raw_id id draw parsed small =
      let (code, drawn, c) =
        generate_otp-IsCode otp_length draw (omega arith) (omega arith) small in
      (
        code,
        drawn,
        rw (kept code c.numeric, parsed, c.long, all_decimal_digits decimal code c.numeric) refl,
      )
