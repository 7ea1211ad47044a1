-- ===== src/System/Authentic.antt =====
-- The provenance of what the states of a server hold, from its first start on, and what lies behind a user
-- whom it lets in.
use mathlib.Core.List.{Memᴰ}
use civio.Base.{ℕ, ◌+◌, ◌*◌, ◌≤◌, ◌≡◌, refl, sym, subst, some, ◌++◌, All, All-middle}
use civio.Errors.Outcome.{ok}
use civio.Config.{Settings}
use civio.Models.User.{User}
use civio.Models.Enums.{verified}
use civio.Platform.Redis.Entries.{get-Read, Every-delete}
use civio.Security.Tokens.{decode_token, whole_seconds}
use civio.AuthService.Data.{TokenPair, Platform, IsLawful}
use civio.AuthService.Defs.{challenge_key}
use civio.AuthService.Race.{begin_verify}
use civio.Dependencies.Defs.{Credentials, get_current_user}
use civio.Dependencies.Laws.{get_current_user-Admitted}
use civio.System.Defs.{
  System, world, IsPresentable, Step, send, begin, finish, renew, lapse, Reach, here, next,
  IsInitial,
}
use civio.System.Provenance.{IsSourced, IsAuthentic, IsEarned, IsReadSourced, IsTraced}
use civio.System.Steps.{sent-IsTraced, verified-IsTraced}
use civio.System.Renewing.{presented-IsOwn, own_user, renewed-IsTraced}

module _ (P : Platform) (L : IsLawful P) (settings : Settings) where
  open P use {Token, Doc, redis, session, jwt, validator}

  pub IsInitial-IsTraced :
      (x : System P settings) → IsInitial P settings x → IsTraced P L settings x
  IsInitial-IsTraced x i = record {
    stored = λ k e h. cc (i.empty k, h);
    read = subst (All _) (sym i.nobody) tt;
    earned = subst (All _) (sym i.no_tokens) tt;
    proper = subst (All _) (sym i.no_events) tt;
  }

  begun-IsReadSourced :
      (x : System P settings)
      → IsTraced P L settings x
      → (d : session.Database) (id : ℕ) (g : _)
      → IsReadSourced P L settings x.log (begin_verify P settings (world P settings x d) id g)
  unfolding begin_verify
  begun-IsReadSourced x tr d id (code, t) doc h =
      let (e, held, alive, same) =
        get-Read redis L.redis x.store t.read_at (challenge_key P settings id) doc h in
      subst (IsSourced P L settings x.log (challenge_key P settings id)) same
        (tr.stored (challenge_key P settings id) e held)

  Step-IsTraced :
      {x y : System P settings}
      → Step P settings x y
      → IsTraced P L settings x
      → IsTraced P L settings y
  Step-IsTraced {x} (send d mobile id draw now set_at e) tr =
      rw e (sent-IsTraced P L settings x tr d mobile id draw now set_at _ refl)
  Step-IsTraced {x} (begin d id code t e) tr = rw e (record {
    stored = tr.stored;
    read = (begun-IsReadSourced x tr d id (code, t), tr.read);
    earned = tr.earned;
    proper = tr.proper;
  })
  Step-IsTraced {x} (finish d before after c found e) tr =
      let (mine, others) =
        All-middle (IsReadSourced P L settings x.log) before c after
          (subst (All (IsReadSourced P L settings x.log)) found tr.read) in
      rw e (verified-IsTraced P L settings x tr d c mine (before ++ after) _ others refl)
  Step-IsTraced {x} (renew d token decode_at t shown e) tr =
      rw e (renewed-IsTraced P L settings x tr d token decode_at t _ shown refl)
  Step-IsTraced {x} (lapse key e) tr = rw e (record {
    stored = Every-delete redis L.redis _ x.store key tr.stored;
    read = tr.read;
    earned = tr.earned;
    proper = tr.proper;
  })

  pub Reach-IsTraced :
      {x y : System P settings}
      → IsTraced P L settings x
      → Reach P settings x y
      → IsTraced P L settings y
  Reach-IsTraced tr here = tr
  Reach-IsTraced tr (next r s) = Step-IsTraced s (Reach-IsTraced tr r)

  -- What lies behind a request that is let in.
  pub record IsLetIn (y : System P settings) (given : Credentials Token) (now : ℕ) (user : User)
      : Type 0 where
    pub is_verified : user.auth_status ≡ verified
    pub authentic : IsAuthentic P L settings y.log user.id
    pub pair : TokenPair Token
    pub issued : Memᴰ pair y.issued
    pub earned : IsEarned P L settings y.log pair
    pub own : earned.user.id ≡ user.id
    pub by_access : given.credentials ≡ pair.access_token
    pub in_time :
        whole_seconds now ≤ whole_seconds earned.t.access_at + settings.jwt_access_ttl_min * 60

  -- However requests interleave and whatever else writes the database: if nobody makes tokens but the
  -- server, a user is let in only if a code was sent to a mobile that was theirs alone, was accepted
  -- afterwards for the same challenge, and the token is the access token of a pair that the server handed
  -- out to them no longer ago than its time to live. The user is verified in the database now.
  pub get_current_user-IsLetIn :
      {x y : System P settings}
      → IsInitial P settings x
      → Reach P settings x y
      → (d : session.Database) (given : Credentials Token) (now : ℕ)
      → IsPresentable P settings y given.credentials now
      → {user : User} {s' : session.State}
      → get_current_user P settings (some given) now (session.begin d) ≡ (ok user, s')
      → IsLetIn y given now user
  get_current_user-IsLetIn {y = y} i r d given now shown {user} h =
      let tr = Reach-IsTraced (IsInitial-IsTraced _ i) r in
      let a = get_current_user-Admitted P settings (session.begin d) (some given) now h in
      let same : a.given ≡ given = some-eq (sym a.present) in
      let o = presented-IsOwn P L settings y tr given.credentials now a.payload shown (
        subst
          (λ (c : Credentials Token).
            decode_token jwt validator settings c.credentials now ≡ ok a.payload)
          same a.decoded) in
      let own =
        own_user P L settings y tr d given.credentials now a.payload a.user_id user o a.subject
          a.found in
      record {
        is_verified = a.is_verified;
        authentic = subst (IsAuthentic P L settings y.log) own o.earned.authentic;
        pair = o.pair;
        issued = o.issued;
        earned = o.earned;
        own = own;
        by_access = (o.as_access a.of_access).0;
        in_time = (o.as_access a.of_access).1;
      }
    where
      some-eq : {b c : Credentials Token} → some b ≡ some c → b ≡ c
      some-eq e = cc
