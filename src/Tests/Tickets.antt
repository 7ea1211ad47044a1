-- ===== src/Tests/Tickets.antt =====
-- The machine of a challenge, beside a service that runs.
use civio.Base.{◌≡◌, refl, ap, true, Option, some, [], ◌∷◌, codes, subst}
use civio.Models.Enums.{verified}
use civio.Platform.Redis.{is_ahead, kept_expiry}
use civio.AuthService.Defs.{challenge_key, verify_otp}
use civio.AuthService.Machine.{Ticket, Course}
use civio.AuthService.Machine.Runs.{Shows, IsPrompt, start, call, Calls-Course}
use civio.Tests.Sample.{sample, sample-IsLawful}
use civio.Tests.Scenario.{settings, resident, readings, challenge, challenged}

abbrev ticket : Ticket
ticket = record { challenge = challenge; expires = some 300 }

challenged-IsPrompt : IsPrompt sample sample-IsLawful settings challenged 7 readings
unfolding challenge_key
challenged-IsPrompt k shown ahead =
    subst (λ e. is_ahead readings.write_at e ≡ true) (ap kept_expiry shown) refl

Calls-Course_example :
    (k : Option Ticket) × Course sample.Token
      (some ticket)
      k
      ((verify_otp sample settings 7 (codes "999999") readings challenged).0 ∷ [])
    × Shows sample sample-IsLawful settings
        (verify_otp sample settings 7 (codes "999999") readings challenged).1
        7
        k
unfolding challenge_key
Calls-Course_example =
    Calls-Course sample sample-IsLawful settings 7 (some ticket) {w₀ = challenged} refl (
      call start challenged refl (resident 2 verified ∷ []) refl (codes "999999") readings
        challenged-IsPrompt)
