-- ===== src/Security/Otp.antt =====
-- `generate_otp` of `core/security.py`, with the format specification `{n:0{length}d}` written out.
pub mod Laws
use civio.Base.{ℕ, zero, suc, ◌+◌, ◌-◌, ◌/◌, ◌%◌, ◌^◌, List, [], ◌∷◌, ◌++◌, Bool, ◌&&◌}
use civio.Base.{Text, length, replicate, ltb, leb, not, if◌then◌else◌}
use civio.Errors.Classes.{other}
use civio.Errors.Outcome.{Outcome, ok, err}

-- The decimal digits of `n`, most significant first; `suc n` rounds are enough for any `n`.
unfoldable pub digits : ℕ → ℕ → Text
digits zero n = []
digits (suc fuel) n =
    let front = digits fuel (n / 10) in
    if ltb n 10 then (b'0' + n) ∷ [] else front ++ ((b'0' + n % 10) ∷ [])

-- `format(n, "d")`
unfoldable pub decimal : ℕ → Text
unfolding digits
decimal n = digits (suc n) n

-- `format(n, f"0{width}d")`: zeros in front up to the width.
unfoldable pub zero_padded : ℕ → ℕ → Text
unfolding decimal
zero_padded width n = replicate (width - length (decimal n)) b'0' ++ decimal n

-- The default of the parameter `length`.
abbrev pub otp_length : ℕ
otp_length = 6

-- `draw` is what `secrets.randbelow(10**length)` returned.
unfoldable pub generate_otp : ℕ → ℕ → Outcome Text
unfolding zero_padded
generate_otp len draw =
    if not (leb 4 len && leb len 10) then err (other "ValueError") else ok (zero_padded len draw)
