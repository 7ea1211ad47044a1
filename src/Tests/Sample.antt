-- ===== src/Tests/Sample.antt =====
-- A small implementation of the packages, which meets their documented laws.
use civio.Base.{
  ℕ, zero, suc, ◌+◌, ◌≡◌, refl, ap, ◌∙◌, String, Bool, true, false, ◌&&◌, Option, none, some, List,
  [], ◌∷◌, Text, text_eq, text_eq_refl, All, arith, ltb, eq_refl, str_eq, ◌==◌, inl, inr,
  Bool-cases, if◌then◌else◌,
}
use civio.Base.Dict.{lookup}
use civio.Errors.Classes.{Value, text, num}
use civio.Errors.Handlers.{detail, Dispatcher, IsMroDispatcher}
use civio.Errors.Laws.{first_registered}
use civio.Errors.Outcome.{ok}
use civio.Platform.Uuid
use civio.Platform.Uuid.{Uuid}
use civio.Platform.Json.{Json}
use civio.Platform.Jwt
use civio.Platform.Jwt.{Claims, Decoded, claims, expired, jwt_error, Jwt, Validator, IsExact}
use civio.Platform.Redis
use civio.Platform.Redis.{Redis, Entry, live, value_of, kept_expiry}
use civio.Platform.Session
use civio.Platform.Session.{Session, Query, Matches, updated}
use civio.Models.User.{User, user_id}
use civio.AuthService.Data.{Challenge, Platform, IsLawful}

abbrev pub dispatcher : Dispatcher
dispatcher = record {
  find = first_registered;
  http_exception_handler = λ s d. record { status_code = s; content = detail d };
}

pub dispatcher-IsMro : IsMroDispatcher dispatcher
dispatcher-IsMro = record {
  find-nil = λ t. refl;
  find-cons = λ t c cs. refl;
  answers = λ s d. refl;
}

abbrev show_unary : ℕ → String
show_unary zero = String.[]
show_unary (suc n) = String.◌∷◌ "i" (show_unary n)

abbrev parse_unary : String → Option ℕ
parse_unary String.[] = some zero
parse_unary (String.◌∷◌ c s) = elim (parse_unary s) [ none ↦ none | some n ↦ some (suc n) ]

abbrev pub unary_uuid : Uuid
unary_uuid = record { show = show_unary; parse = parse_unary }

parse-show_unary : (n : ℕ) → parse_unary (show_unary n) ≡ some n
parse-show_unary zero = refl
parse-show_unary (suc n) = ground (arith, parse-show_unary n)

pub unary_uuid-IsLawful : Uuid.IsLawful unary_uuid
unary_uuid-IsLawful = record { parse-show = parse-show_unary }

-- JSON texts stand for the dict that they spell.
abbrev pub plain_json : {A : Type 0} → Json A A
plain_json = record { dumps = λ a. a; loads = λ a. some a }

-- A token shows its claims, the secret and the algorithm.
pub record OpenToken : Type 0 where
  pub claims : Claims
  pub secret : Text
  pub alg : String

abbrev exp_of : Option Value → ℕ
exp_of (some (num n)) = n
exp_of _ = 0

abbrev is_member : String → List String → Bool
is_member s [] = false
is_member s (t ∷ ts) = if str_eq s t then true else is_member s ts

abbrev pub open_jwt : Jwt OpenToken
open_jwt = record {
  encode = λ c secret alg. record { claims = c; secret = secret; alg = alg };
  decode = λ t secret algs now.
      if text_eq t.secret secret && is_member t.alg algs
      then (if ltb (exp_of (lookup "exp" t.claims)) now then expired else Decoded.claims t.claims)
      else jwt_error "Signature verification failed.";
}

pub open_jwt-IsLawful : Jwt.IsLawful open_jwt
open_jwt-IsLawful = record {
  decode-encode = λ c secret alg sub jti iat exp now s. rw (text_eq_refl, eq_refl, s.has_exp);
}

abbrev str_only : Value → Option String
str_only (text s) = some s
str_only _ = none

abbrev int_only : Value → Option ℕ
int_only (num n) = some n
int_only _ = none

abbrev pub strict : Validator
strict = record { as_str = str_only; as_int = int_only; describe = λ c. "validation error" }

pub strict-IsExact : IsExact strict
strict-IsExact = record { as_str-text = λ s. refl; as_int-num = λ n. refl }

-- A store is the entry of each key.
abbrev pub map_redis : {V : Type 0} → Redis V
map_redis {V} = record {
  Store = String → Option (Entry V);
  entry = λ s k. s k;
  get = λ s now k. value_of (live now (s k));
  setex = λ s now k ttl v j.
      if str_eq j k then some (record { value = v; expires = some (now + ttl) }) else s j;
  set_keepttl = λ s now k v j.
      if str_eq j k
      then some (record { value = v; expires = kept_expiry (live now (s k)) })
      else s j;
  delete = λ s k j. if str_eq j k then none else s j;
}

pub map_redis-IsLawful : {V : Type 0} → Redis.IsLawful (map_redis {V = V})
map_redis-IsLawful = record {
  get-entry = λ s now k. refl;
  entry-setex = λ s now ttl k j v. refl;
  entry-set_keepttl = λ s now k j v. refl;
  entry-delete = λ s k j. refl;
}

-- The committed rows, and the instances as the session sees them.
abbrev find_user : ℕ → List User → Option User
find_user i [] = none
find_user i (u ∷ us) = if u.id == i then some u else find_user i us

pub record Rows : Type 0 where
  pub committed : List User
  pub look : ℕ → Option User

abbrev pub matches : List (User → Bool) → User → Bool
matches [] u = true
matches (c ∷ cs) u = if c u then matches cs u else false

abbrev picked : List (User → Bool) → Option User → List User → List User
picked cs none rest = rest
picked cs (some u) rest = if matches cs u then u ∷ rest else rest

-- The rows of the table whose instance meets the conditions.
abbrev select : (ℕ → Option User) → List (User → Bool) → List User → List User
select look cs [] = []
select look cs (r ∷ rs) = picked cs (look r.id) (select look cs rs)

abbrev apply_all : (ℕ → Option User) → List User → List User
apply_all look [] = []
apply_all look (r ∷ rs) =
    let rest = apply_all look rs in elim (look r.id) [ none ↦ rest | some u ↦ u ∷ rest ]

abbrev pub row_session : Session User
row_session = record {
  Database = List User;
  State = Rows;
  begin = λ d. record { committed = d; look = λ i. find_user i d };
  base = λ s. s.committed;
  get = λ s i. s.look i;
  execute = λ s q. select s.look q.wheres s.committed;
  assign = λ s i f. record s { look = λ j. if j == i then updated f (s.look i) else s.look j };
  flush = λ s. ok s;
  commit = λ s. ok (apply_all s.look s.committed);
  rollback = λ s. s.committed;
}

find_user-key : (i : ℕ) (d : List User) {r : User} → find_user i d ≡ some r → r.id ≡ i
find_user-key i [] h = cc
find_user-key i (u ∷ d) {r} h = ground (arith, find_user-key i d {r = r})

pub matches-Matches : (cs : List (User → Bool)) (u : User) → matches cs u ≡ true → Matches cs u
matches-Matches [] u h = tt
matches-Matches (c ∷ cs) u h = (ground arith, matches-Matches cs u (ground arith))

abbrev IsFound : List User → List (User → Bool) → User → Type 0
IsFound d cs r = Matches cs r × (find_user r.id d ≡ some r)

picked-IsFound :
    (d : List User) (cs : List (User → Bool)) (o : Option User) (rest : List User)
    → ((u : User) → o ≡ some u → find_user u.id d ≡ some u)
    → All (IsFound d cs) rest
    → All (IsFound d cs) (picked cs o rest)
picked-IsFound d cs none rest f h = h
picked-IsFound d cs (some u) rest f h = elim (Bool-cases (matches cs u)) [
  | inl good ↦ rw good ((matches-Matches cs u good, f u refl), h)
  | inr bad ↦ rw bad h
]

select-IsFound :
    (d : List User) (cs : List (User → Bool)) (rs : List User)
    → All (IsFound d cs) (select (λ i. find_user i d) cs rs)
select-IsFound d cs [] = tt
select-IsFound d cs (r ∷ rs) =
    picked-IsFound d cs (find_user r.id d) (select (λ i. find_user i d) cs rs)
      (λ u found. ap (λ i. find_user i d) (find_user-key r.id d found) ∙ found)
      (select-IsFound d cs rs)

pub row_session-IsLawful : Session.IsLawful row_session user_id
row_session-IsLawful = record {
  get-key = λ d i h. find_user-key i d h;
  get-assign = λ s i j f. refl;
  get-flush = λ s j h. cc;
  flush-other = λ s h. cc;
  execute-sound = λ d q. select-IsFound d q.wheres d;
  base-begin = λ d. refl;
  base-assign = λ s i f. refl;
  base-flush = λ s h. cc;
  rollback-base = λ s. refl;
}

abbrev pub sample : Platform
sample = record {
  Token = OpenToken;
  Doc = Challenge;
  redis = map_redis;
  session = row_session;
  uuid = unary_uuid;
  json = plain_json;
  jwt = open_jwt;
  validator = strict;
}

pub sample-IsLawful : IsLawful sample
sample-IsLawful = record {
  redis = map_redis-IsLawful;
  session = row_session-IsLawful;
  uuid = unary_uuid-IsLawful;
  json = record { loads-dumps = λ a. refl };
  jwt = open_jwt-IsLawful;
  validator = strict-IsExact;
}
