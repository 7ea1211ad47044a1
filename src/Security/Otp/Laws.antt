-- ===== src/Security/Otp/Laws.antt =====
-- Every code has the asked length, consists of digits, and stands for the number drawn.
use native.Mathlib.Nat.{pow-suc}
use civio.Base.{
  ℕ, zero, suc, ◌+◌, ◌-◌, ◌*◌, ◌/◌, ◌%◌, ◌^◌, ◌≤◌, ◌<◌, ◌≡◌, refl, true, [], ◌∷◌, ◌++◌, arith, Text,
  is_digit, length, length-append, length-replicate, replicate, All, ltb, Bool-cases, inl, inr, ◌⊎◌,
  ◌↔◌,
}
use civio.Errors.Classes.{other}
use civio.Errors.Outcome.{ok, err}
use civio.Security.Otp.{digits, decimal, zero_padded, generate_otp}

-- `int(s)` for a text of digits.
abbrev value_from : ℕ → Text → ℕ
value_from acc [] = acc
value_from acc (c ∷ s) = value_from (acc * 10 + (c - b'0')) s

abbrev pub value : Text → ℕ
value = value_from 0

abbrev pub IsDigit : ℕ → Type 0
IsDigit c = is_digit c ≡ true

value_from-append :
    (acc : ℕ) (s : Text) (c : ℕ) → value_from acc (s ++ c ∷ []) ≡ value_from acc s * 10 + (c - b'0')
value_from-append acc [] c = refl
value_from-append acc (d ∷ s) c = value_from-append (acc * 10 + (d - b'0')) s c

value-digits : (fuel n : ℕ) → n < fuel → value (digits fuel n) ≡ n
unfolding digits
value-digits zero n h = absurd (omega arith)
value-digits (suc fuel) n h = elim (Bool-cases (ltb n 10)) [
  | inl small ↦ rw small (omega arith)
  | inr large ↦ rw large (
      ground (
        arith,
        value_from-append 0 (digits fuel (n / 10)) (b'0' + n % 10),
        value-digits fuel (n / 10),
      ))
]

value-zeros : (k : ℕ) (s : Text) → value (replicate k b'0' ++ s) ≡ value s
value-zeros zero s = refl
value-zeros (suc k) s = value-zeros k s

All-IsDigit_append : (s t : Text) → All IsDigit s → All IsDigit t → All IsDigit (s ++ t)
All-IsDigit_append [] t hs ht = ht
All-IsDigit_append (c ∷ s) t hs ht = (hs.0, All-IsDigit_append s t hs.1 ht)

All-IsDigit_zeros : (k : ℕ) → All IsDigit (replicate k b'0')
All-IsDigit_zeros zero = tt
All-IsDigit_zeros (suc k) = (refl, All-IsDigit_zeros k)

All-IsDigit-digits : (fuel n : ℕ) → All IsDigit (digits fuel n)
unfolding digits
All-IsDigit-digits zero n = tt
All-IsDigit-digits (suc fuel) n = elim (Bool-cases (ltb n 10)) [
  | inl small ↦ rw small (ground arith, tt)
  | inr large ↦ rw large (
      All-IsDigit_append (digits fuel (n / 10)) _ (All-IsDigit-digits fuel (n / 10))
        (ground arith, tt))
]

-- A number below `10 ^ width` has at most `width` digits.
length-digits : (width fuel n : ℕ) → 0 < width → n < 10 ^ width → length (digits fuel n) ≤ width
unfolding digits
length-digits width zero n w h = omega arith
length-digits zero (suc fuel) n w h = absurd (omega arith)
length-digits (suc zero) (suc fuel) n w h = ground arith
length-digits (suc (suc width)) (suc fuel) n w h = elim (Bool-cases (ltb n 10)) [
  | inl small ↦ rw small (omega arith)
  | inr large ↦ rw large (
      omega (
        arith,
        length-append (digits fuel (n / 10)) ((b'0' + n % 10) ∷ []),
        length-digits (suc width) fuel (n / 10) (omega arith)
            (omega (arith, pow-suc 10 (suc width))),
      ))
]

length-zero_padded :
    (width n : ℕ) → 0 < width → n < 10 ^ width → length (zero_padded width n) ≡ width
unfolding zero_padded decimal
length-zero_padded width n w h = omega (
  arith,
  length-append (replicate (width - length (digits (suc n) n)) b'0') (digits (suc n) n),
  length-replicate {A = ℕ} (width - length (digits (suc n) n)) b'0',
  length-digits width (suc n) n w h,
)

-- What a code of `len` digits drawn as `draw` is.
pub record IsCode (len draw : ℕ) (code : Text) : Type 0 where
  pub long : length code ≡ len
  pub numeric : All IsDigit code
  pub denotes : value code ≡ draw

-- A code consists of digits, whatever number it was drawn as.
pub All-IsDigit-zero_padded : (len draw : ℕ) → All IsDigit (zero_padded len draw)
unfolding zero_padded decimal
All-IsDigit-zero_padded len draw =
    All-IsDigit_append _ _ (All-IsDigit_zeros _) (All-IsDigit-digits (suc draw) draw)

pub zero_padded-IsCode :
    (len draw : ℕ) → 0 < len → draw < 10 ^ len → IsCode len draw (zero_padded len draw)
unfolding zero_padded decimal
zero_padded-IsCode len draw w h = record {
  long = length-zero_padded len draw w h;
  numeric = All-IsDigit-zero_padded len draw;
  denotes = rw value-zeros (value-digits (suc draw) draw (omega arith));
}

-- For a length from 4 to 10 and a number drawn below `10 ^ length`, the code is returned, has exactly
-- that length, consists of digits, and stands for the number.
pub generate_otp-IsCode :
    (len draw : ℕ)
    → 4 ≤ len
    → len ≤ 10
    → draw < 10 ^ len
    → (code : Text) × (generate_otp len draw ≡ ok code) × IsCode len draw code
unfolding generate_otp
generate_otp-IsCode len draw lo hi h =
    (zero_padded len draw, ground arith, zero_padded-IsCode len draw (omega arith) h)

-- A `ValueError` is raised exactly for a length below 4 or above 10.
pub generate_otp_refuses :
    (len draw : ℕ) → (generate_otp len draw ≡ err (other "ValueError")) ↔ ((len < 4) ⊎ (10 < len))
unfolding generate_otp
generate_otp_refuses len draw = ground arith
