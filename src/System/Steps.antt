-- ===== src/System/Steps.antt =====
-- The provenance over the steps of `send_otp` and `verify_otp`.
use mathlib.Core.List.{Memᴰ}
use civio.Base.{
  ◌==◌, Bool-cases, inl, inr, ℕ, ◌≡◌, refl, sym, ap, subst, ◌∙◌, Option, none, some, List, [], ◌∷◌,
  map, Text, All, All-imp, All-Mem, text_eq_iff,
}
use civio.Errors.Outcome.{Outcome, ok, err}
use civio.Config.{Settings}
use civio.Models.User.{User}
use civio.Platform.Redis.Entries.{Every-delete, Every-setex, Every-set_keepttl}
use civio.Repositories.UserRepo.{list_by_mobile, where_mobile}
use civio.Security.Otp.Laws.{All-IsDigit-zero_padded}
use civio.Security.Otp.{otp_length, zero_padded}
use civio.AuthService.Data.{TokenPair, Platform, IsLawful, parse_uuids}
use civio.AuthService.Defs.{World, challenge_key, send_otp}
use civio.AuthService.LogIn.{promoted}
use civio.AuthService.Lifecycle.{send_otp_found, send_otp_unset, parse_uuids-show}
use civio.AuthService.Lifecycle
use civio.AuthService.Race.{Waiting, finish_verify}
use civio.AuthService.Success.{Accepted, check_payload-Accepted}
use civio.System.Defs.{sent, logged_in, System, world, after_send, after_verify}
use civio.System.Writes.{Writes, check_payload-Writes, finish_absent, finish_read}
use civio.System.Provenance.{
  IsSourced, IsEarned, IsProper, IsStoreSourced, IsReadSourced, IsTraced, challenge_key-injective,
  IsSourced-counted, later-IsStoreSourced, later-IsReadSourced, later-IsEarned,
}

singleton :
    {id : ℕ} (users : List User)
    → map (λ u. u.id) users ≡ id ∷ []
    → (u : User) × (users ≡ u ∷ []) × (u.id ≡ id)
singleton [] h = cc
singleton (u ∷ []) h = (u, refl, cc)
singleton (u ∷ v ∷ us) h = cc

module _ (P : Platform) (L : IsLawful P) (settings : Settings) where
  open P use {Token, Doc, redis, session, uuid, json, jwt, validator}

  -- The users that a mobile finds have it.
  listed_mobiles :
      (d : session.Database) (mobile : Text)
      → All (λ u. u.mobile ≡ mobile) (list_by_mobile session (session.begin d) mobile)
  unfolding list_by_mobile
  listed_mobiles d mobile =
      All-imp _ _ (λ u h. (text_eq_iff u.mobile mobile).0 h.0.0) _
        (L.session.execute-sound d (where_mobile mobile))

  module _ (x : System P settings) (tr : IsTraced P L settings x) where
    pub sent-IsTraced :
        (d : session.Database) (mobile : Text) (id draw now set_at : ℕ) (users : List User)
        → list_by_mobile session (session.begin d) mobile ≡ users
        → IsTraced P L settings (
            after_send P settings x
              (sent id mobile (zero_padded otp_length draw) users)
              (send_otp P settings mobile id draw now set_at (world P settings x d)))
    unfolding send_otp
    sent-IsTraced d mobile id draw now set_at [] h = rw h tr
    sent-IsTraced d mobile id draw now set_at (u ∷ us) h =
        let w = world P settings x d in
        elim (Bool-cases (settings.otp_ttl_sec == 0)) [
          | inl dead ↦ rw (send_otp_unset P L settings w mobile id draw now set_at u us dead h) tr
          | inr lives ↦
              rw (send_otp_found P L settings w mobile id draw now set_at u us lives h) (record {
                stored =
                    Every-setex redis L.redis _ x.store set_at settings.otp_ttl_sec
                      (challenge_key P settings id) _
                      (later-IsStoreSourced P L settings _ x.log tr.stored)
                      (record {
                        id = id;
                        mobile = mobile;
                        code = zero_padded otp_length draw;
                        users = u ∷ us;
                        was_sent = Memᴰ.head refl;
                        under = refl;
                        payload = Lifecycle.sent P L settings mobile draw (u ∷ us);
                        written = refl;
                        same_code = refl;
                        same_users = refl;
                      });
                read = later-IsReadSourced P L settings _ x.log _ tr.read;
                earned = later-IsEarned P L settings _ x.log _ tr.earned;
                proper = (
                  (
                    All-IsDigit-zero_padded otp_length draw,
                    subst (All (λ v. v.mobile ≡ mobile)) h (listed_mobiles d mobile),
                  ),
                  tr.proper,
                );
              })
        ]

    -- A call of `verify_otp` that has read a challenge, or nothing.
    module _ (d : session.Database) (c : Waiting P settings)
        (read : IsReadSourced P L settings x.log c) where
      resumed_store :
          (o : Option Doc)
          → c.raw ≡ o
          → IsStoreSourced P L settings x.log
              (finish_verify P settings c (world P settings x d)).1.store
      resumed_store none h = rw (finish_absent P L settings (world P settings x d) c h) tr.stored
      resumed_store (some doc) h =
          let s = read doc h in
          rw (finish_read P L settings (world P settings x d) c s.payload (h ∙ ap some s.written)) (
            written s (
              check_payload-Writes P L settings (world P settings x d)
                (challenge_key P settings c.id) s.payload c.code c.t))
        where
          written :
              (s : IsSourced P L settings x.log (challenge_key P settings c.id) doc)
              → {s' : redis.Store}
              → Writes P L settings
                  (world P settings x d)
                  (challenge_key P settings c.id)
                  s.payload
                  c.t
                  s'
              → IsStoreSourced P L settings x.log s'
          written s (inl same) = rw same tr.stored
          written s (inr (inl gone)) = rw gone (Every-delete redis L.redis _ x.store _ tr.stored)
          written s (inr (inr counted)) = rw counted (
              Every-set_keepttl redis L.redis _ x.store c.t.write_at _ _ tr.stored
                (IsSourced-counted P L settings s))

      -- The code that was accepted is the one that was sent for this challenge, to the one user that it
      -- names.
      Accepted-IsEarned :
          {doc : Doc} (s : IsSourced P L settings x.log (challenge_key P settings c.id) doc)
          {pair : TokenPair Token} {w' : World P settings}
          → Accepted P L settings
              (world P settings x d)
              (challenge_key P settings c.id)
              s.payload
              c.code
              c.t
              pair
              w'
          → IsEarned P L settings (logged_in c.id c.code pair ∷ x.log) pair
      Accepted-IsEarned s {pair} a =
          let (u, only, same) = singleton s.users (
            only_ids (
              sym (ap (parse_uuids uuid) s.same_users ∙ parse_uuids-show P L settings s.users)
              ∙ a.only_user)) in
          let listed : All (λ v. v.mobile ≡ s.mobile) (u ∷ []) =
            subst (All (λ v. v.mobile ≡ s.mobile)) only
              (All-Mem IsProper x.log tr.proper s.was_sent).1 in
          let this : s.id ≡ c.id = challenge_key-injective P L settings s.id c.id s.under in
          let code : s.code ≡ c.code = sym s.same_code ∙ a.same_code in
          record {
            user = promoted P settings a.login.user;
            t = c.t;
            of_user = a.login.issued;
            authentic = record {
              id = s.id;
              mobile = s.mobile;
              code = s.code;
              user = u;
              same_user = same ∙ sym (L.session.get-key d a.id a.login.found);
              same_mobile = listed.0;
              pair = pair;
              since = [];
              before = x.log;
              was_accepted =
                  ap (λ event. event ∷ x.log)
                    (ap (λ i. logged_in i c.code pair) (sym this)
                      ∙ ap (λ k. logged_in s.id k pair) (sym code));
              was_sent = subst (λ us. Memᴰ (sent s.id s.mobile s.code us) x.log) only s.was_sent;
            };
          }
        where
          only_ids : {is js : List ℕ} → ok is ≡ ok js → is ≡ js
          only_ids e = cc

      resumed-IsEarned :
          (o : Option Doc)
          → c.raw ≡ o
          → (pair : TokenPair Token) (w' : World P settings)
          → finish_verify P settings c (world P settings x d) ≡ (ok pair, w')
          → IsEarned P L settings (logged_in c.id c.code pair ∷ x.log) pair
      resumed-IsEarned none h pair w' done =
          cc (finish_absent P L settings (world P settings x d) c h)
      resumed-IsEarned (some doc) h pair w' done =
          let s = read doc h in
          Accepted-IsEarned s (
            check_payload-Accepted P L settings (world P settings x d) d refl
              (challenge_key P settings c.id) s.payload c.code c.t
              (sym (
                  finish_read P L settings (world P settings x d) c s.payload
                    (h ∙ ap some s.written))
                ∙ done))

      pub verified-IsTraced :
          (rest : List (Waiting P settings)) (out : Outcome (TokenPair Token) × World P settings)
          → All (IsReadSourced P L settings x.log) rest
          → finish_verify P settings c (world P settings x d) ≡ out
          → IsTraced P L settings (after_verify P settings x rest c out)
      verified-IsTraced rest (ok pair, w) others done = record {
        stored = later-IsStoreSourced P L settings _ x.log (
            subst (IsStoreSourced P L settings x.log) (ap (λ o. o.1.store) done)
              (resumed_store c.raw refl));
        read = later-IsReadSourced P L settings _ x.log _ others;
        earned = (
          resumed-IsEarned c.raw refl pair w done,
          later-IsEarned P L settings _ x.log _ tr.earned,
        );
        proper = (tt, tr.proper);
      }
      verified-IsTraced rest (err e, w) others done = record {
        stored =
            subst (IsStoreSourced P L settings x.log) (ap (λ o. o.1.store) done)
              (resumed_store c.raw refl);
        read = others;
        earned = tr.earned;
        proper = tr.proper;
      }
