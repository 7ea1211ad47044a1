-- ===== src/System/Provenance.antt =====
-- Where everything comes from that the server goes by: what Redis holds and what calls have read was sent,
-- and tokens were handed out for a code that was sent.
use mathlib.Core.List.{Memᴰ}
use text.Mathlib.TextLemmas.{append_cancel_left}
use civio.Base.{
  ℕ, ◌+◌, ◌≡◌, refl, sym, ap, ◌∙◌, String, some, List, [], ◌∷◌, ◌++◌, map, Text, All, All-imp,
}
use civio.Config.{Settings}
use civio.Models.User.{User}
use civio.Platform.Redis.Entries.{Every}
use civio.AuthService.Data.{Challenge, TokenPair, Readings, Platform, IsLawful}
use civio.AuthService.Defs.{challenge_key}
use civio.AuthService.LogIn.{pair_of}
use civio.AuthService.Race.{Waiting}
use civio.Security.Otp.Laws.{IsDigit}
use civio.System.Defs.{Event, sent, logged_in, System}

-- A code that was sent consists of digits, and the users that it was sent for have the mobile that it was
-- sent to.
abbrev pub IsProper : {Token : Type 0} → Event Token → Type 0
IsProper (sent id mobile code users) = All IsDigit code × All (λ u. u.mobile ≡ mobile) users
IsProper (logged_in id code pair) = Unit

module _ (P : Platform) (L : IsLawful P) (settings : Settings) where
  open P use {Token, Doc, redis, session, uuid, json}

  -- A text under a key of Redis is a challenge that was sent, with its code and its users.
  pub record IsSourced (log : List (Event Token)) (key : String) (doc : Doc) : Type 0 where
    pub id : ℕ
    pub mobile : Text
    pub code : Text
    pub users : List User
    pub was_sent : Memᴰ (sent id mobile code users) log
    pub under : challenge_key P settings id ≡ key
    pub payload : Challenge
    pub written : doc ≡ json.dumps payload
    pub same_code : payload.code ≡ code
    pub same_users : payload.user_ids ≡ map (λ u. uuid.show u.id) users

  -- A code was sent to a mobile that only this user had, and was accepted afterwards for the same challenge.
  pub record IsAuthentic (log : List (Event Token)) (user_id : ℕ) : Type 0 where
    pub id : ℕ
    pub mobile : Text
    pub code : Text
    pub user : User
    pub same_user : user.id ≡ user_id
    pub same_mobile : user.mobile ≡ mobile
    pub pair : TokenPair Token
    pub since : List (Event Token)
    pub before : List (Event Token)
    pub was_accepted : log ≡ since ++ (logged_in id code pair ∷ before)
    pub was_sent : Memᴰ (sent id mobile code (user ∷ [])) before

  -- Tokens are those of a user who is authentic.
  pub record IsEarned (log : List (Event Token)) (pair : TokenPair Token) : Type 0 where
    pub user : User
    pub t : Readings
    pub of_user : pair ≡ pair_of P settings user t
    pub authentic : IsAuthentic log user.id

  abbrev pub IsStoreSourced : List (Event Token) → redis.Store → Type 0
  IsStoreSourced log = Every redis L.redis (λ k e. IsSourced log k e.value)

  abbrev pub IsReadSourced : List (Event Token) → Waiting P settings → Type 0
  IsReadSourced log c =
      (doc : Doc) → c.raw ≡ some doc → IsSourced log (challenge_key P settings c.id) doc

  pub record IsTraced (x : System P settings) : Type 0 where
    pub stored : IsStoreSourced x.log x.store
    pub read : All (IsReadSourced x.log) x.waiting
    pub earned : All (IsEarned x.log) x.issued
    pub proper : All IsProper x.log

  pub challenge_key-injective :
      (i j : ℕ) → challenge_key P settings i ≡ challenge_key P settings j → i ≡ j
  unfolding challenge_key
  challenge_key-injective i j h = some-injective (
      sym (L.uuid.parse-show i)
      ∙ ap uuid.parse (append_cancel_left "otp:" (uuid.show i) (uuid.show j) h)
      ∙ L.uuid.parse-show j)
    where
      some-injective : {a b : ℕ} → some a ≡ some b → a ≡ b
      some-injective e = cc

  -- The count of wrong codes does not matter.
  pub IsSourced-counted :
      {log : List (Event Token)} {k : String} {doc : Doc} (s : IsSourced log k doc)
      → IsSourced log k (json.dumps (record s.payload { attempts = s.payload.attempts + 1 }))
  IsSourced-counted s = record {
    id = s.id;
    mobile = s.mobile;
    code = s.code;
    users = s.users;
    was_sent = s.was_sent;
    under = s.under;
    payload = record s.payload { attempts = s.payload.attempts + 1 };
    written = refl;
    same_code = s.same_code;
    same_users = s.same_users;
  }

  -- A longer log keeps what a shorter one shows.
  module _ (e : Event Token) (log : List (Event Token)) where
    IsSourced-later : {k : String} {doc : Doc} → IsSourced log k doc → IsSourced (e ∷ log) k doc
    IsSourced-later s = record {
      id = s.id;
      mobile = s.mobile;
      code = s.code;
      users = s.users;
      was_sent = Memᴰ.tail s.was_sent;
      under = s.under;
      payload = s.payload;
      written = s.written;
      same_code = s.same_code;
      same_users = s.same_users;
    }

    IsAuthentic-later : {u : ℕ} → IsAuthentic log u → IsAuthentic (e ∷ log) u
    IsAuthentic-later a = record {
      id = a.id;
      mobile = a.mobile;
      code = a.code;
      user = a.user;
      same_user = a.same_user;
      same_mobile = a.same_mobile;
      pair = a.pair;
      since = e ∷ a.since;
      before = a.before;
      was_accepted = ap (λ l. e ∷ l) a.was_accepted;
      was_sent = a.was_sent;
    }

    IsEarned-later : {pair : TokenPair Token} → IsEarned log pair → IsEarned (e ∷ log) pair
    IsEarned-later i = record {
      user = i.user;
      t = i.t;
      of_user = i.of_user;
      authentic = IsAuthentic-later i.authentic;
    }

  pub later-IsStoreSourced :
      (e : Event Token) (log : List (Event Token)) {s : redis.Store}
      → IsStoreSourced log s
      → IsStoreSourced (e ∷ log) s
  later-IsStoreSourced e log stored k n h = IsSourced-later e log (stored k n h)

  pub later-IsReadSourced :
      (e : Event Token) (log : List (Event Token)) (cs : List (Waiting P settings))
      → All (IsReadSourced log) cs
      → All (IsReadSourced (e ∷ log)) cs
  later-IsReadSourced e log cs all =
      All-imp _ _ (λ c h doc r. IsSourced-later e log (h doc r)) cs all

  pub later-IsEarned :
      (e : Event Token) (log : List (Event Token)) (ps : List (TokenPair Token))
      → All (IsEarned log) ps
      → All (IsEarned (e ∷ log)) ps
  later-IsEarned e log ps all = All-imp _ _ (λ p h. IsEarned-later e log h) ps all
