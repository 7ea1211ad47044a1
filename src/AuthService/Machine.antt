-- ===== src/AuthService/Machine.antt =====
-- A challenge as a machine of its own, without Redis, JSON and the database: what `verify_otp` does to it.
pub mod Runs
use civio.Base.{
  ℕ, ◌+◌, ◌≤◌, ◌<◌, ◌≡◌, ◌⊎◌, inl, inr, refl, sym, subst, ap, ◌∙◌, String, Bool, true, false,
  Option, none, some, List, [], ◌∷◌, Text, arith, leb, leb→le, Bool-cases, eq_refl,
}
use civio.Errors.Classes.{Exn, raised, authentication_error}
use civio.Errors.Outcome.{Outcome, ok, err, Outcome-cases}
use civio.Config.{Settings}
use civio.Platform.Redis.{is_ahead}
use civio.AuthService.Data.{
  Challenge, TokenPair, max_attempts, compare_digest, parse_uuids, Readings, Platform, IsLawful,
}
use civio.AuthService.Defs.{World, challenge_key, choose_user, verify_otp}
use civio.AuthService.Steps.{
  rejected, Holds, counted-Holds, burned-absent, verify_absent, verify_wrong, verify_capped,
  verify_malformed, verify_right,
}
use civio.AuthService.Guessing.{is_rejection, IsQuiet, parsed-IsQuiet}
use civio.AuthService.Success.{Redeemed, verify_otp-Redeemed}
use civio.Action.{◌>>=◌, lift}

pub record Ticket : Type 0 where
  pub challenge : Challenge
  pub expires : Option ℕ

abbrev pub missed : Ticket → Ticket
missed k = record k { challenge = record k.challenge { attempts = k.challenge.attempts + 1 } }

module _ (Token : Type 0) (code : Text) (t : Readings) where
  -- A ticket that the call finds: there, not expired, with attempts left.
  pub record IsOpen (before : Option Ticket) (k : Ticket) : Type 0 where
    pub there : before ≡ some k
    pub ahead : is_ahead t.read_at k.expires ≡ true
    pub left : k.challenge.attempts < max_attempts

  -- A call of the machine with this code: the ticket before, the answer, and the ticket after.
  pub data Next (before : Option Ticket) (r : Outcome (TokenPair Token)) (after : Option Ticket)
      : Type 0 where
    missing :
        before ≡ none
        → r ≡ err (raised authentication_error "otp challenge expired or not found")
        → after ≡ none
        → Next before r after
    expired :
        (k : Ticket)
        → before ≡ some k
        → is_ahead t.read_at k.expires ≡ false
        → r ≡ err (raised authentication_error "otp challenge expired or not found")
        → after ≡ before
        → Next before r after
    exhausted :
        (k : Ticket)
        → before ≡ some k
        → is_ahead t.read_at k.expires ≡ true
        → max_attempts ≤ k.challenge.attempts
        → r ≡ err (raised authentication_error "too many otp attempts")
        → after ≡ none
        → Next before r after
    unusable :
        (k : Ticket) (x : Exn)
        → IsOpen before k
        → compare_digest k.challenge.code code ≡ err x
        → r ≡ err x
        → after ≡ before
        → Next before r after
    miss :
        (k : Ticket)
        → IsOpen before k
        → compare_digest k.challenge.code code ≡ ok false
        → r ≡ rejected k.challenge.attempts
        → after ≡ some (missed k)
        → Next before r after
    failed :
        (k : Ticket) (x : Exn)
        → IsOpen before k
        → compare_digest k.challenge.code code ≡ ok true
        → r ≡ err x
        → is_rejection r ≡ false
        → after ≡ before
        → Next before r after
    used :
        (k : Ticket)
        → IsOpen before k
        → compare_digest k.challenge.code code ≡ ok true
        → is_rejection r ≡ false
        → after ≡ none
        → Next before r after

-- Calls of the machine from a ticket, with their answers, the last one first.
pub data Course (Token : Type 0) (k₀ : Option Ticket)
    : Option Ticket → List (Outcome (TokenPair Token)) → Type 0 where
  stay : Course Token k₀ k₀ []
  go :
      {k k' : Option Ticket} {rs : List (Outcome (TokenPair Token))}
      → Course Token k₀ k rs
      → (code : Text) (t : Readings) (r : Outcome (TokenPair Token)) → Next Token code t k r k'
      → Course Token k₀ k' (r ∷ rs)
