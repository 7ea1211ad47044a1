-- ===== src/Tests/Forms.antt =====
-- The validation of a request at concrete texts.
use civio.Base.{
  ◌↔◌, some, All, is_digit, ℕ, ◌≡◌, refl, ◌==◌, if◌then◌else◌, false, [], ◌∷◌, Text, codes, arith,
}
use civio.Errors.Outcome.{ok}
use civio.Api.Requests.{load_otp_verify, load_otp_verify-generate_otp}
use civio.Security.Otp.{generate_otp, otp_length}
use civio.Security.Otp.Laws.{IsDigit}
use civio.Api.Schemas.{load_otp_send, ends_in_line_feed, IsMobile, load_otp_send-iff-IsMobile}

abbrev trimmed : ℕ → Text → Text
trimmed c [] = if c == 10 then [] else c ∷ []
trimmed c (d ∷ s) = c ∷ d ∷ s

-- Removes the line feeds at the end.
abbrev trim : Text → Text
trim [] = []
trim (c ∷ s) = trimmed c (trim s)

trimmed_end :
    (c : ℕ) (s : Text) → ends_in_line_feed s ≡ false → ends_in_line_feed (trimmed c s) ≡ false
trimmed_end c [] h = ground arith
trimmed_end c (d ∷ s) h = h

trim_end : (s : Text) → ends_in_line_feed (trim s) ≡ false
trim_end [] = refl
trim_end (c ∷ s) = trimmed_end c (trim s) (trim_end s)

abbrev typed : Text
typed = codes "+886912345678\n"

abbrev cleaned : Text
cleaned = codes "+886912345678"

load_otp_send-iff-IsMobile_example :
    (load_otp_send trim typed ≡ ok (record { mobile = cleaned })) ↔ IsMobile cleaned
load_otp_send-iff-IsMobile_example = load_otp_send-iff-IsMobile trim trim_end typed

accepted : load_otp_send trim typed ≡ ok (record { mobile = cleaned })
unfolding load_otp_send
accepted = refl

trim_digits : (s : Text) → All IsDigit s → trim s ≡ s
trim_digits [] all = refl
trim_digits (c ∷ []) (d, all) = ground arith
trim_digits (c ∷ d ∷ s) (_, all) = rw (trim_digits (d ∷ s) all) refl

-- Every text names challenge 7.
load_otp_verify-generate_otp_example :
    (code : Text) × (generate_otp otp_length 42 ≡ ok code)
    × (load_otp_verify trim is_digit (λ s. some 7) [] code
        ≡ ok (record { challenge_id = 7; code = code }))
load_otp_verify-generate_otp_example =
    load_otp_verify-generate_otp trim is_digit (λ s. some 7) (λ c h. h) trim_digits [] 7 42 refl
      (omega arith)
