-- ===== src/Api/Schemas.antt =====
-- The validation of `OtpSendRequest` in `schemas/auth.py`. A text is a list of code points; removing the
-- white space around it is pydantic's.
use civio.Base.{
  subst, ◌∙◌, ==_iff, ℕ, suc, ◌≤◌, ◌≡◌, ◌⊎◌, ◌↔◌, inl, inr, refl, sym, ap, Bool, true, false, ◌&&◌,
  Option, none, some, [], ◌∷◌, Text, is_digit, length, All, leb, ◌==◌, if◌then◌else◌, arith,
  Option-cases, Bool-cases,
}
use civio.Errors.Classes.{request_validation}
use civio.Errors.Outcome.{Outcome, ok, err}
use civio.Api.Defs.{OtpSendRequest}
use civio.Security.Otp.Laws.{IsDigit}

-- `\+?`
abbrev without_plus : Text → Text
without_plus [] = []
without_plus (c ∷ s) = if c == 43 then s else c ∷ s

-- The number of digits up to `$`, which is the end or a line feed at the end.
abbrev digits_to_end : Text → Option ℕ
digits_to_end [] = some 0
digits_to_end (c ∷ []) = if is_digit c then some 1 else if c == 10 then some 0 else none
digits_to_end (c ∷ d ∷ s) =
    let rest = digits_to_end (d ∷ s) in
    if is_digit c then elim rest [ none ↦ none | some n ↦ some (suc n) ] else none

abbrev in_range : Option ℕ → Bool
in_range none = false
in_range (some n) = leb 8 n && leb n 15

-- `_MOBILE_PATTERN.match(v)`
unfoldable pub is_mobile : Text → Bool
is_mobile v = in_range (digits_to_end (without_plus v))

-- `OtpSendRequest` from the field `mobile` of a request; an error names the field and nothing more.
unfoldable pub load_otp_send : (strip : Text → Text) → Text → Outcome OtpSendRequest
unfolding is_mobile
load_otp_send strip raw =
    if leb 8 (length (strip raw)) && leb (length (strip raw)) 16 && is_mobile (strip raw)
    then ok (record { mobile = strip raw })
    else err (request_validation ("mobile" ∷ []))

abbrev pub ends_in_line_feed : Text → Bool
ends_in_line_feed [] = false
ends_in_line_feed (c ∷ []) = c == 10
ends_in_line_feed (c ∷ d ∷ s) = ends_in_line_feed (d ∷ s)

digits_to_end-All :
    (s : Text) {n : ℕ}
    → ends_in_line_feed s ≡ false
    → digits_to_end s ≡ some n
    → All IsDigit s × (length s ≡ n)
digits_to_end-All [] e h = (tt, ground arith)
digits_to_end-All (c ∷ []) e h = ((ground arith, tt), ground arith)
digits_to_end-All (c ∷ d ∷ s) {n} e h = elim (Option-cases (digits_to_end (d ∷ s))) [
  | inl stuck ↦ absurd (ground (arith, stuck, h))
  | inr (m, counted) ↦
      let (all, len) = digits_to_end-All (d ∷ s) e counted in
      ((ground (arith, counted, h), all), ground (arith, counted, h, len))
]

-- The digits of a mobile, with or without a plus sign before them.
pub record IsMobile (v : Text) : Type 0 where
  pub digits : Text
  pub written : (v ≡ digits) ⊎ (v ≡ 43 ∷ digits)
  pub numeric : All IsDigit digits
  pub enough : 8 ≤ length digits
  pub few : length digits ≤ 15

in_range-IsMobile :
    (v ds : Text) (o : Option ℕ)
    → (v ≡ ds) ⊎ (v ≡ 43 ∷ ds)
    → ends_in_line_feed ds ≡ false
    → digits_to_end ds ≡ o
    → in_range o ≡ true
    → IsMobile v
in_range-IsMobile v ds none w e d h = cc
in_range-IsMobile v ds (some n) w e d h =
    let (all, len) = digits_to_end-All ds e d in
    record {
      digits = ds;
      written = w;
      numeric = all;
      enough = ground (arith, len, h);
      few = ground (arith, len, h);
    }

after_plus : (v : Text) → (v ≡ without_plus v) ⊎ (v ≡ 43 ∷ without_plus v)
after_plus [] = inl refl
after_plus (c ∷ s) = elim (Bool-cases (c == 43)) [
  | inl plus ↦ inr (rw plus (ap (λ x. x ∷ s) ((==_iff c 43).0 plus)))
  | inr other ↦ inl (rw other refl)
]

without_plus-end :
    (v : Text) → ends_in_line_feed v ≡ false → ends_in_line_feed (without_plus v) ≡ false
without_plus-end [] e = refl
without_plus-end (c ∷ []) e = elim (Bool-cases (c == 43)) [
  | inl plus ↦ rw plus refl
  | inr other ↦ rw other e
]
without_plus-end (c ∷ d ∷ s) e = elim (Bool-cases (c == 43)) [
  | inl plus ↦ rw plus e
  | inr other ↦ rw other e
]

-- A request is accepted only with a mobile, stripped of the white space around it, that is 8 to 15
-- ASCII digits with or without a plus sign before them, provided that stripping leaves no line feed at
-- the end.
load_otp_send-IsMobile :
    (strip : Text → Text)
    → ((t : Text) → ends_in_line_feed (strip t) ≡ false)
    → (raw : Text) {r : OtpSendRequest} → load_otp_send strip raw ≡ ok r
    → (r.mobile ≡ strip raw) × IsMobile r.mobile
unfolding load_otp_send
load_otp_send-IsMobile strip stripped raw {r} h =
    let same : strip raw ≡ r.mobile = ground arith in
    (
      sym same,
      subst IsMobile same (
          in_range-IsMobile (strip raw) (without_plus (strip raw))
            (digits_to_end (without_plus (strip raw))) (after_plus (strip raw))
            (without_plus-end (strip raw) (stripped raw)) refl (ground arith)),
    )

digits_to_end-length : (s : Text) → All IsDigit s → digits_to_end s ≡ some (length s)
digits_to_end-length [] all = refl
digits_to_end-length (c ∷ []) (digit, all) = rw digit refl
digits_to_end-length (c ∷ d ∷ s) (digit, all) = rw (digit, digits_to_end-length (d ∷ s) all) refl

without_plus-digits : (s : Text) → All IsDigit s → without_plus s ≡ s
without_plus-digits [] all = refl
without_plus-digits (c ∷ s) (digit, all) = elim (Bool-cases (c == 43)) [
  | inl plus ↦ absurd (ground (arith, plus, digit))
  | inr other ↦ rw other refl
]

without_plus-written :
    (v ds : Text) → All IsDigit ds → (v ≡ ds) ⊎ (v ≡ 43 ∷ ds) → without_plus v ≡ ds
without_plus-written v ds all (inl same) = ap without_plus same ∙ without_plus-digits ds all
without_plus-written v ds all (inr signed) = ap without_plus signed

IsMobile-length : (v : Text) (m : IsMobile v) → (8 ≤ length v) × (length v ≤ 16)
IsMobile-length v m = elim m.written [
  | inl same ↦ rw same (m.enough, omega (arith, m.few))
  | inr signed ↦ rw signed (omega (arith, m.enough), omega (arith, m.few))
]

-- A mobile that, stripped of the white space around it, is 8 to 15 ASCII digits with or without a plus
-- sign before them is accepted.
IsMobile-load_otp_send :
    (strip : Text → Text) (raw : Text)
    → IsMobile (strip raw)
    → load_otp_send strip raw ≡ ok (record { mobile = strip raw })
unfolding load_otp_send
IsMobile-load_otp_send strip raw m =
    let (low, high) = IsMobile-length (strip raw) m in
    rw
      (
        without_plus-written (strip raw) m.digits m.numeric m.written,
        digits_to_end-length m.digits m.numeric,
      )
      (ground (arith, low, high, m.enough, m.few))

-- A request is accepted, with its mobile stripped of the white space around it, exactly when the
-- stripped mobile is 8 to 15 ASCII digits with or without a plus sign before them, provided that
-- stripping leaves no line feed at the end.
pub load_otp_send-iff-IsMobile :
    (strip : Text → Text)
    → ((t : Text) → ends_in_line_feed (strip t) ≡ false)
    → (raw : Text)
    → (load_otp_send strip raw ≡ ok (record { mobile = strip raw })) ↔ IsMobile (strip raw)
load_otp_send-iff-IsMobile strip stripped raw =
    (λ h. (load_otp_send-IsMobile strip stripped raw h).1, IsMobile-load_otp_send strip raw)
