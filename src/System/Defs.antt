-- ===== src/System/Defs.antt =====
-- The states of the server and what a request does to them. Other programs write the database, so that every
-- request finds one of its own; two calls of `verify_otp` interleave as in `AuthService.Race`.
use civio.Base.{ℕ, ◌≡◌, ◌⊎◌, none, List, [], ◌∷◌, ◌++◌, String, Text}
use mathlib.Core.List.{Memᴰ}
use civio.Errors.Classes.{Exn}
use civio.Errors.Outcome.{Outcome, ok, err}
use civio.Config.{Settings}
use civio.Models.User.{User}
use civio.Repositories.UserRepo.{list_by_mobile}
use civio.Security.Otp.{otp_length, zero_padded}
use civio.Security.Tokens.{decode_token}
use civio.AuthService.Data.{OtpChallenge, TokenPair, Readings, Platform}
use civio.AuthService.Defs.{World, send_otp, refresh_tokens}
use civio.AuthService.Race.{Waiting, begin_verify, finish_verify}

-- What happened: a code was sent for a challenge to a mobile that these users had, and a code was
-- accepted for a challenge, for these tokens.
pub data Event (Token : Type 0) : Type 0 where
  sent : (id : ℕ) (mobile code : Text) (users : List User) → Event Token
  logged_in : (id : ℕ) (code : Text) (pair : TokenPair Token) → Event Token

module _ (P : Platform) (settings : Settings) where
  open P use {Token, redis, session, jwt, validator}

  -- The store of Redis, the calls of `verify_otp` that have read it and wait, the tokens that were handed
  -- out, and what happened, the last event first.
  pub record System : Type 0 where
    pub store : redis.Store
    pub waiting : List (Waiting P settings)
    pub issued : List (TokenPair Token)
    pub log : List (Event Token)

  -- A request in a session on this database
  abbrev pub world : System → session.Database → World P settings
  world x d = record { store = x.store; rows = session.begin d }

  abbrev pub after_send : System → Event Token → Outcome OtpChallenge × World P settings → System
  after_send x e (ok c, w) = record x { store = w.store; log = e ∷ x.log }
  after_send x e (err raised, w) = record x { store = w.store }

  abbrev pub after_verify :
      System
      → List (Waiting P settings)
      → Waiting P settings
      → Outcome (TokenPair Token) × World P settings
      → System
  after_verify x rest c (ok pair, w) = record {
    store = w.store;
    waiting = rest;
    issued = pair ∷ x.issued;
    log = logged_in c.id c.code pair ∷ x.log;
  }
  after_verify x rest c (err raised, w) = record x { store = w.store; waiting = rest }

  abbrev pub after_refresh : System → Outcome (TokenPair Token) × World P settings → System
  after_refresh x (ok pair, w) = record x { store = w.store; issued = pair ∷ x.issued }
  after_refresh x (err raised, w) = record x { store = w.store }

  -- Nobody makes tokens but the server: a token that is presented was handed out, or does not decode.
  abbrev pub IsPresentable : System → Token → ℕ → Type 0
  IsPresentable x token now =
      ((pair : TokenPair Token) × Memᴰ pair x.issued
        × ((token ≡ pair.access_token) ⊎ (token ≡ pair.refresh_token)))
      ⊎ ((e : Exn) × (decode_token jwt validator settings token now ≡ err e))

  -- Tokens count as handed out even if the commit after them fails.
  pub data Step (x y : System) : Type 0 where
    send :
        (d : session.Database) (mobile : Text) (id draw now set_at : ℕ)
        → y
          ≡ after_send x
              (sent id mobile
                (zero_padded otp_length draw)
                (list_by_mobile session (session.begin d) mobile))
              (send_otp P settings mobile id draw now set_at (world x d))
        → Step x y
    begin :
        (d : session.Database) (id : ℕ) (code : Text) (t : Readings)
        → y ≡ record x { waiting = begin_verify P settings (world x d) id (code, t) ∷ x.waiting }
        → Step x y
    finish :
        (d : session.Database) (before after : List (Waiting P settings)) (c : Waiting P settings)
        → x.waiting ≡ before ++ (c ∷ after)
        → y ≡ after_verify x (before ++ after) c (finish_verify P settings c (world x d))
        → Step x y
    renew :
        (d : session.Database) (token : Token) (decode_at : ℕ) (t : Readings)
        → IsPresentable x token decode_at
        → y ≡ after_refresh x (refresh_tokens P settings token decode_at t (world x d))
        → Step x y
    lapse : (key : String) → y ≡ record x { store = redis.delete x.store key } → Step x y

  pub data Reach (x : System) : System → Type 0 where
    here : Reach x x
    next : {y z : System} → Reach x y → Step y z → Reach x z

  -- The server at its first start
  pub record IsInitial (x : System) : Type 0 where
    pub empty : (k : String) → redis.entry x.store k ≡ none
    pub nobody : x.waiting ≡ []
    pub no_tokens : x.issued ≡ []
    pub no_events : x.log ≡ []
