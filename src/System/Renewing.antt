-- ===== src/System/Renewing.antt =====
-- The owners of the tokens that are presented to the server, and the step of `refresh`.
use mathlib.Core.List.{Memᴰ}
use civio.Base.{ℕ, ◌+◌, ◌*◌, ◌≤◌, ◌≡◌, inl, inr, sym, ap, subst, ◌∙◌, some, [], All-Mem}
use civio.Errors.Outcome.{Outcome, ok, err}
use civio.Config.{Settings}
use civio.Models.User.{User}
use civio.Security.Tokens.{access, refresh, TokenPayload, decode_token, whole_seconds}
use civio.Security.Tokens.Laws.{decoded_claims}
use civio.AuthService.Data.{TokenPair, Readings, Platform, IsLawful}
use civio.AuthService.Defs.{World, refresh_tokens, token_claims}
use civio.AuthService.Refresh.{refresh_tokens-Renewed, token_claims-IsPlain, no_claims-IsPlain}
use civio.AuthService.Effects.{refresh_tokens_world}
use civio.System.Defs.{System, world, after_refresh, IsPresentable}
use civio.System.Provenance.{IsAuthentic, IsEarned, IsStoreSourced, IsTraced}

module _ (P : Platform) (L : IsLawful P) (settings : Settings) where
  open P use {Token, session, uuid, jwt, validator}

  -- A token that decodes is the access or the refresh token of a pair that was handed out, and has not
  -- expired.
  pub record IsOwn (x : System P settings) (token : Token) (now : ℕ) (payload : TokenPayload)
      : Type 0 where
    pub pair : TokenPair Token
    pub issued : Memᴰ pair x.issued
    pub earned : IsEarned P L settings x.log pair
    pub open earned use {user, t}
    pub subject : payload.sub ≡ uuid.show user.id
    pub as_access :
        payload.type ≡ access
        → (token ≡ pair.access_token)
          × (whole_seconds now ≤ whole_seconds t.access_at + settings.jwt_access_ttl_min * 60)

  module _ (x : System P settings) (tr : IsTraced P L settings x) where
    access-IsOwn :
        (token : Token) (now : ℕ) (payload : TokenPayload) (pair : TokenPair Token)
        → Memᴰ pair x.issued
        → IsEarned P L settings x.log pair
        → token ≡ pair.access_token
        → decode_token jwt validator settings token now ≡ ok payload
        → IsOwn x token now payload
    access-IsOwn token now payload pair m i e h =
        let (same, early) =
          decoded_claims jwt L.jwt validator L.validator settings (uuid.show i.user.id) access
            (settings.jwt_access_ttl_min * 60) (token_claims P settings i.user) i.t.access_at
            i.t.access_jti now (token_claims-IsPlain P settings i.user)
            (subst (λ k. decode_token jwt validator settings k now ≡ ok payload)
              (e ∙ ap (λ (p : TokenPair Token). p.access_token) i.of_user) h) in
        record {
          pair = pair;
          issued = m;
          earned = i;
          subject = ap (λ (p : TokenPayload). p.sub) same;
          as_access = λ a. (e, early);
        }

    refresh-IsOwn :
        (token : Token) (now : ℕ) (payload : TokenPayload) (pair : TokenPair Token)
        → Memᴰ pair x.issued
        → IsEarned P L settings x.log pair
        → token ≡ pair.refresh_token
        → decode_token jwt validator settings token now ≡ ok payload
        → IsOwn x token now payload
    refresh-IsOwn token now payload pair m i e h =
        let (same, early) =
          decoded_claims jwt L.jwt validator L.validator settings (uuid.show i.user.id) refresh
            (settings.jwt_refresh_ttl_days * 86_400) [] i.t.refresh_at i.t.refresh_jti now
            no_claims-IsPlain
            (subst (λ k. decode_token jwt validator settings k now ≡ ok payload)
              (e ∙ ap (λ (p : TokenPair Token). p.refresh_token) i.of_user) h) in
        record {
          pair = pair;
          issued = m;
          earned = i;
          subject = ap (λ (p : TokenPayload). p.sub) same;
          as_access = λ a. cc (a, ap (λ (p : TokenPayload). p.type) same);
        }

    pub presented-IsOwn :
        (token : Token) (now : ℕ) (payload : TokenPayload)
        → IsPresentable P settings x token now
        → decode_token jwt validator settings token now ≡ ok payload
        → IsOwn x token now payload
    presented-IsOwn token now payload (inr (e, refused)) h = cc
    presented-IsOwn token now payload (inl (pair, m, inl e)) h =
        access-IsOwn token now payload pair m (All-Mem _ x.issued tr.earned m) e h
    presented-IsOwn token now payload (inl (pair, m, inr e)) h =
        refresh-IsOwn token now payload pair m (All-Mem _ x.issued tr.earned m) e h

    -- The user whom the subject of such a token names, in a database of now.
    pub own_user :
        (d : session.Database) (token : Token) (now : ℕ) (payload : TokenPayload) (id : ℕ)
        (u : User)
        → (o : IsOwn x token now payload) → uuid.parse payload.sub ≡ some id
        → session.get (session.begin d) id ≡ some u
        → o.user.id ≡ u.id
    own_user d token now payload id u o named found =
        the_same (sym (L.uuid.parse-show o.user.id) ∙ ap uuid.parse (sym o.subject) ∙ named)
        ∙ sym (L.session.get-key d id found)
      where
        the_same : {i j : ℕ} → some i ≡ some j → i ≡ j
        the_same e = cc

    pub renewed-IsTraced :
        (d : session.Database) (token : Token) (decode_at : ℕ) (t : Readings)
        (out : Outcome (TokenPair Token) × World P settings)
        → IsPresentable P settings x token decode_at
        → refresh_tokens P settings token decode_at t (world P settings x d) ≡ out
        → IsTraced P L settings (after_refresh P settings x out)
    renewed-IsTraced d token decode_at t (err e, w) shown done = record {
      stored =
          subst (IsStoreSourced P L settings x.log)
            (sym (
                ap (λ v. v.store)
                  (refresh_tokens_world P settings (world P settings x d) t token decode_at))
              ∙ ap (λ o. o.1.store) done)
            tr.stored;
      read = tr.read;
      earned = tr.earned;
      proper = tr.proper;
    }
    renewed-IsTraced d token decode_at t (ok pair, w) shown done =
        let r = refresh_tokens-Renewed P settings (world P settings x d) token decode_at t done in
        let o = presented-IsOwn token decode_at r.payload shown r.decoded in
        record {
          stored =
              subst (IsStoreSourced P L settings x.log) (ap (λ v. v.store) (sym r.unchanged))
                tr.stored;
          read = tr.read;
          earned = (
            record {
              user = r.user;
              t = t;
              of_user = r.issued;
              authentic =
                  subst (IsAuthentic P L settings x.log)
                    (own_user d token decode_at r.payload r.user_id r.user o r.subject r.found)
                    o.earned.authentic;
            },
            tr.earned,
          );
          proper = tr.proper;
        }
