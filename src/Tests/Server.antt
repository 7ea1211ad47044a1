-- ===== src/Tests/Server.antt =====
-- The theorems on the server as a whole, and on the tokens of a login, at a first login.
use mathlib.Core.List.{Memᴰ}
use civio.Base.{◌≡◌, refl, inl, sym, subst, none, some, List, [], ◌∷◌, codes, arith, map}
use civio.Errors.Classes.{raised, authentication_error}
use civio.Errors.Outcome.{ok, err}
use civio.Models.Enums.{pending, verified}
use civio.Models.User.{User}
use civio.Repositories.UserRepo.{list_by_mobile, get}
use civio.Security.Otp.{zero_padded, generate_otp}
use civio.Security.Tokens.{decode_token, create_access_token, create_refresh_token, is_reserved}
use civio.AuthService.Data.{TokenPair, compare_digest, parse_uuids}
use civio.AuthService.Defs.{refresh_tokens, send_otp, verify_raw, challenge_key}
use civio.AuthService.LogIn.{pair_of}
use civio.AuthService.Race.{Waiting, begin_verify, finish_verify, finish_all}
use civio.AuthService.Reuse.{IsOpen, finish_all-Reused}
use civio.Dependencies.Defs.{get_current_user}
use civio.Dependencies.Logins.{pair_of_uses}
use civio.System.Defs.{
  System, world, after_verify, send, begin, finish, Reach, here, next, IsInitial,
}
use civio.System.Authentic.{IsLetIn, get_current_user-IsLetIn}
use civio.System.Liveness.{sending, get_current_user-after_send}
use civio.System.Answers.{IsAnswered, Reach-IsAnswered}
use civio.Api.Refusals.{IsOkOrRefused}
use civio.Api.Defs.{Backend, finished, otp_send, renew_tokens}
use civio.Tests.Sample.{
  dispatcher, dispatcher-IsMro, sample, sample-IsLawful, row_session, OpenToken,
}
use civio.Tests.Scenario.{
  settings, mobile, resident, readings, quiet, bearer, challenge, challenged,
}

abbrev database : List User
database = resident 2 verified ∷ []

abbrev pair : TokenPair OpenToken
pair = pair_of sample settings (resident 2 verified) readings

pair_of_uses_example :
    (get_current_user sample settings (some bearer) 1_000_000 quiet.rows
      ≡ (ok (resident 2 verified), quiet.rows))
    × (refresh_tokens sample settings pair.refresh_token 1_000_000 readings quiet
        ≡ (ok pair, quiet))
    × (get_current_user sample settings
          (some (record { scheme = codes "Bearer"; credentials = pair.refresh_token }))
          1_000_000
          quiet.rows
        ≡ (err (raised authentication_error "refresh token cannot authorise requests"), quiet.rows))
    × (refresh_tokens sample settings pair.access_token 1_000_000 readings quiet
        ≡ (err (raised authentication_error "access token cannot be used to refresh"), quiet))
pair_of_uses_example =
    pair_of_uses sample sample-IsLawful settings (resident 2 verified) readings quiet
      (resident 2 verified) (codes "Bearer") 1_000_000 readings refl refl refl (omega arith)
      (omega arith)

abbrev first_start : System sample settings
first_start = record { store = λ k. none; waiting = []; issued = []; log = [] }

first_start-IsInitial : IsInitial sample settings first_start
first_start-IsInitial = record {
  empty = λ k. refl;
  nobody = refl;
  no_tokens = refl;
  no_events = refl;
}

-- A code is sent, its check begins, and its check goes on.
abbrev asked : System sample settings
asked = sending sample sample-IsLawful settings first_start database mobile 7 123_456 0 5

abbrev call : Waiting sample settings
call =
    begin_verify sample settings (world sample settings asked database) 7 (codes "123456", readings)

abbrev reading : System sample settings
reading = record asked { waiting = call ∷ [] }

abbrev admitting : System sample settings
admitting =
    after_verify sample settings reading [] call
      (finish_verify sample settings call (world sample settings reading database))

first_read : Reach sample settings first_start reading
unfolding send_otp begin_verify list_by_mobile generate_otp
first_read =
    next (next here (send database mobile 7 123_456 0 5 refl))
      (begin database 7 (codes "123456") readings refl)

Reach-IsAnswered_example :
    let w = world sample settings reading database in
    let b : Backend sample settings = record { store = reading.store; database = database } in
    let checked = finish_verify sample settings call w in
    IsAnswered dispatcher dispatcher-IsMro sample sample-IsLawful settings w checked.1
      (finished sample settings checked).0
    × IsAnswered dispatcher dispatcher-IsMro sample sample-IsLawful settings w
        (send_otp sample settings mobile 8 1 2 3 w).1
        (otp_send sample settings (record { mobile = mobile }) 8 1 2 3 b).0
    × IsAnswered dispatcher dispatcher-IsMro sample sample-IsLawful settings w w
        (renew_tokens sample settings
          (record { refresh_token = pair.access_token })
          1_000_000
          readings
          b).0
    × IsOkOrRefused dispatcher dispatcher-IsMro
        (get_current_user sample settings none 1_000_000 (row_session.begin database)).0
unfolding begin_verify
Reach-IsAnswered_example =
    Reach-IsAnswered dispatcher dispatcher-IsMro sample sample-IsLawful settings (omega arith)
      first_start-IsInitial first_read database call (Memᴰ.head refl) refl
      (record { mobile = mobile }) 8 1 2 3 (record { refresh_token = pair.access_token }) 1_000_000
      readings none

first_login : Reach sample settings first_start admitting
unfolding send_otp list_by_mobile generate_otp
first_login =
    next
      (next (next here (send database mobile 7 123_456 0 5 refl))
        (begin database 7 (codes "123456") readings refl))
      (finish database [] [] call refl refl)

handed_out : admitting.issued ≡ pair ∷ []
unfolding send_otp list_by_mobile finish_verify verify_raw begin_verify challenge_key zero_padded
    get generate_otp compare_digest parse_uuids create_access_token is_reserved create_refresh_token
handed_out = refl

let_in :
    get_current_user sample settings (some bearer) 1_000_000 (row_session.begin database)
    ≡ (ok (resident 2 verified), row_session.begin database)
unfolding get_current_user decode_token get
let_in = refl

get_current_user-IsLetIn_example :
    IsLetIn sample sample-IsLawful settings admitting bearer 1_000_000 (resident 2 verified)
get_current_user-IsLetIn_example =
    get_current_user-IsLetIn sample sample-IsLawful settings first_start-IsInitial first_login
      database bearer 1_000_000
      (inl (pair, subst (Memᴰ pair) (sym handed_out) (Memᴰ.head refl), inl refl)) let_in

-- A first login: the user is pending until the code is checked. The server sends them another code before.
abbrev newcomers : List User
newcomers = resident 2 pending ∷ []

only_newcomer :
    list_by_mobile row_session (row_session.begin newcomers) mobile ≡ resident 2 pending ∷ []
unfolding list_by_mobile
only_newcomer = refl

abbrev invited : System sample settings
invited = sending sample sample-IsLawful settings first_start newcomers mobile 7 123_456 0 5

abbrev invited_twice : System sample settings
invited_twice = sending sample sample-IsLawful settings invited newcomers mobile 8 654_321 0 6

get_current_user-after_send_example :
    (z : System sample settings) × Reach sample settings invited_twice z
    × Memᴰ pair z.issued
    × (get_current_user sample settings (some bearer) 1_000_000 (row_session.begin database)
        ≡ (ok (resident 2 verified), row_session.begin database))
get_current_user-after_send_example =
    get_current_user-after_send sample sample-IsLawful settings first_start newcomers mobile 7
      123_456 0 5 (resident 2 pending) only_newcomer (omega arith) (omega arith)
      (next here (send newcomers mobile 8 654_321 0 6 refl))
      (tt, λ (e : 7 ≡ 8). absurd (omega arith)) newcomers (resident 2 pending) readings
      (omega arith) refl (λ e. cc) (_, refl) database (resident 2 verified) (codes "Bearer")
      1_000_000 refl refl refl (omega arith)

challenge-IsOpen :
    IsOpen sample sample-IsLawful settings challenged 7 challenge (some 300) (resident 2 verified)
unfolding compare_digest parse_uuids challenge_key
challenge-IsOpen = record {
  held = refl;
  left = omega arith;
  comparable = refl;
  only = refl;
  found = refl;
  is_verified = refl;
}

finish_all-Reused_example :
    (finish_all sample settings
      (map
        (λ t. begin_verify sample settings challenged 7 (challenge.code, t))
        (readings ∷ readings ∷ []))
      challenged).0
    ≡ ok pair ∷ ok pair ∷ []
finish_all-Reused_example =
    finish_all-Reused sample sample-IsLawful settings challenged 7 challenge (some 300)
      (resident 2 verified) (readings ∷ readings ∷ []) challenge-IsOpen (refl, (refl, tt))
