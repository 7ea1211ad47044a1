-- ===== src/Schema/Catalog/Frames.antt =====
-- What a script does is the same beside objects that it has nothing to do with.
use civio.Base.{
  any-append, keep-append, any_beside, any_or, either_false, ◌≡◌, refl, String, str_eq, Bool, true,
  false, ◌&&◌, ◌||◌, List, [], ◌∷◌, ◌++◌, map, any, keep, All, not, arith, inl, inr, Bool-cases,
  sym, ap, ◌∙◌,
}
use civio.Errors.Classes.{Exn}
use civio.Errors.Outcome.{ok, err, Outcome-cases}
use civio.Schema.Catalog.{
  Object, extension, enum_type, function, table, index, view, trigger, Target, drop_table,
  drop_view, drop_type, drop_function, Statement, create, create_missing, each_updated_at, drop,
  drop_if_exists, clash, names, is_part, depends, is_met, has_updated_at, updated_relation, stamped,
  add, add_all, remove, execute, run, every,
}

abbrev is_trigger : String → Object → Bool
is_trigger n (trigger m t f) = str_eq n m
is_trigger n _ = false

-- A statement has nothing to do with an object.
abbrev touches : Statement → Object → Bool
touches (create o) p = clash o p
touches (create_missing o) p = clash o p
touches (each_updated_at n f) p = has_updated_at p || is_trigger n p
touches (drop d) p = names d p || is_part d p || depends d p
touches (drop_if_exists d) p = names d p || is_part d p || depends d p

-- No statement of the script has to do with an object of the catalog.
abbrev pub is_apart : List Statement → List Object → Bool
is_apart [] c = true
is_apart (s ∷ ss) c = not (any (touches s) c) && is_apart ss c

every_beside :
    (p q : String → Bool) (ns : List String)
    → ((n : String) → p n ≡ true → q n ≡ true)
    → every p ns ≡ true
    → every q ns ≡ true
every_beside p q [] f h = refl
every_beside p q (n ∷ ns) f h = ground (arith, f n, every_beside p q ns f)

is_met-append :
    (o : Object) (c frame : List Object) → is_met o c ≡ true → is_met o (c ++ frame) ≡ true
is_met-append (extension n) c frame h = refl
is_met-append (enum_type n) c frame h = refl
is_met-append (function n) c frame h = refl
is_met-append (table n ts rs u) c frame h = ground (
  arith,
  every_beside _ _ ts (λ t. any_beside (names (drop_type t)) c frame),
  every_beside _ _ rs (λ r. any_beside (names (drop_table r)) c frame),
)
is_met-append (index n t) c frame h =
    ground
      (arith, any_beside (names (drop_table t)) c frame, any_beside (names (drop_view t)) c frame)
is_met-append (view n t u) c frame h = any_beside (names (drop_table t)) c frame h
is_met-append (trigger n t f) c frame h =
    ground (
      arith,
      any_beside (names (drop_table t)) c frame,
      any_beside (names (drop_function f)) c frame,
    )

err-ok {ℓ} : (A : Type ℓ) (x : Exn) (d : List Object) → err x ≡ ok d → A
err-ok A x d h = cc

same_frame : (c d frame : List Object) → ok c ≡ ok d → ok (c ++ frame) ≡ ok (d ++ frame)
same_frame c d frame h = cc

add-append :
    (o : Object) (c frame d : List Object)
    → add o c ≡ ok d
    → any (clash o) frame ≡ false
    → add o (c ++ frame) ≡ ok (d ++ frame)
add-append o c frame d h apart = elim (Bool-cases (any (clash o) c)) [
  | inl e ↦ err-ok _ _ d (rw e at h)
  | inr e ↦ elim (Bool-cases (is_met o c)) [
    | inl m ↦
        rw (any-append, e, apart, is_met-append o c frame m)
          (same_frame (o ∷ c) d frame (rw (e, m) at h))
    | inr m ↦ err-ok _ _ d (rw (e, m) at h)
  ]
]

add_all-append :
    (os : List Object) (c frame d : List Object)
    → add_all os c ≡ ok d
    → All (λ o. any (clash o) frame ≡ false) os
    → add_all os (c ++ frame) ≡ ok (d ++ frame)
add_all-append [] c frame d h apart = same_frame c d frame h
add_all-append (o ∷ os) c frame d h (a, apart) = elim (Outcome-cases (add o c)) [
  | inl (x, e) ↦ err-ok _ x d (rw e at h)
  | inr (b, e) ↦ rw (add-append o c frame b e a) (add_all-append os b frame d (rw e at h) apart)
]

keep_untouched :
    (d : Target) (frame : List Object)
    → any (λ o. names d o || is_part d o || depends d o) frame ≡ false
    → (any (names d) frame ≡ false)
      × (any (depends d) frame ≡ false)
      × (keep (λ o. not (names d o || is_part d o)) frame ≡ frame)
keep_untouched d [] h = (refl, refl, refl)
keep_untouched d (o ∷ frame) h =
    let t = own (names d o) (is_part d o) (depends d o) _ h in
    let rest = keep_untouched d frame t.3 in
    (rw t.0 rest.0, rw t.2 rest.1, rw (t.0, t.1) (ap (λ r. o ∷ r) rest.2))
  where
    own :
        (n p q b : Bool)
        → (((n || p) || q) || b) ≡ false
        → (n ≡ false) × (p ≡ false) × (q ≡ false) × (b ≡ false)
    own false false false false h = (refl, refl, refl, refl)
    own true p q b h = ground arith
    own false true q b h = ground arith
    own false false true b h = ground arith
    own false false false true h = ground arith

updated_relation_none : (o : Object) → has_updated_at o ≡ false → updated_relation o ≡ []
updated_relation_none (table n ts rs true) h = cc
updated_relation_none (table n ts rs false) h = refl
updated_relation_none (extension n) h = refl
updated_relation_none (enum_type n) h = refl
updated_relation_none (function n) h = refl
updated_relation_none (index n t) h = refl
updated_relation_none (view n t true) h = cc
updated_relation_none (view n t false) h = refl
updated_relation_none (trigger n t f) h = refl

stamped_none : (frame : List Object) → any has_updated_at frame ≡ false → stamped frame ≡ []
stamped_none [] h = refl
stamped_none (o ∷ frame) h =
    let t = either_false _ _ h in rw (updated_relation_none o t.0) (stamped_none frame t.1)

no_trigger :
    (n f t : String) (frame : List Object)
    → any (is_trigger n) frame ≡ false
    → any (clash (trigger n t f)) frame ≡ false
no_trigger n f t [] h = refl
no_trigger n f t (trigger m u g ∷ frame) h =
    let e = either_false (str_eq n m) (any (is_trigger n) frame) h in
    rw (e.0, no_trigger n f t frame e.1) refl
no_trigger n f t (extension m ∷ frame) h = no_trigger n f t frame h
no_trigger n f t (enum_type m ∷ frame) h = no_trigger n f t frame h
no_trigger n f t (function m ∷ frame) h = no_trigger n f t frame h
no_trigger n f t (table m ts rs u ∷ frame) h = no_trigger n f t frame h
no_trigger n f t (index m u ∷ frame) h = no_trigger n f t frame h
no_trigger n f t (view m u w ∷ frame) h = no_trigger n f t frame h

no_triggers :
    (n f : String) (frame : List Object)
    → any (is_trigger n) frame ≡ false
    → (ts : List String) → All (λ o. any (clash o) frame ≡ false) (map (λ t. trigger n t f) ts)
no_triggers n f frame h [] = tt
no_triggers n f frame h (t ∷ ts) = (no_trigger n f t frame h, no_triggers n f frame h ts)

stamped-append :
    (c frame : List Object) → any has_updated_at frame ≡ false → stamped (c ++ frame) ≡ stamped c
stamped-append [] frame h = stamped_none frame h
stamped-append (o ∷ c) frame h = rw (stamped-append c frame h) refl

create_missing_new :
    (o : Object) (c : List Object)
    → any (clash o) c ≡ false
    → execute (create_missing o) c ≡ add o c
unfolding execute
create_missing_new o c e = rw e refl

remove-append :
    (t : Target) (c frame d : List Object)
    → remove t c ≡ ok d
    → any (touches (drop t)) frame ≡ false
    → remove t (c ++ frame) ≡ ok (d ++ frame)
remove-append t c frame d h apart =
    let (n, p, k) = keep_untouched t frame apart in
    elim (Bool-cases (any (depends t) c)) [
      | inl e ↦ err-ok _ _ d (rw e at h)
      | inr e ↦ rw (any-append, e, p, keep-append, k) (same_frame _ d frame (rw e at h))
    ]

execute-append :
    (s : Statement) (c frame d : List Object)
    → execute s c ≡ ok d
    → any (touches s) frame ≡ false
    → execute s (c ++ frame) ≡ ok (d ++ frame)
unfolding execute
execute-append (create o) c frame d h apart = add-append o c frame d h apart
execute-append (create_missing o) c frame d h apart = elim (Bool-cases (any (clash o) c)) [
  | inl e ↦ rw (any-append, e) (same_frame c d frame (rw e at h))
  | inr e ↦
      create_missing_new o (c ++ frame) (rw (any-append, e) apart)
      ∙ add-append o c frame d (sym (create_missing_new o c e) ∙ h) apart
]
execute-append (each_updated_at n f) c frame d h apart =
    let (u, t) = any_or has_updated_at (is_trigger n) frame apart in
    rw (stamped-append c frame u)
      (add_all-append _ c frame d h (no_triggers n f frame t (stamped c)))
execute-append (drop t) c frame d h apart = elim (Bool-cases (any (names t) c)) [
  | inl e ↦ rw (any_beside (names t) c frame e) (remove-append t c frame d (rw e at h) apart)
  | inr e ↦ err-ok _ _ d (rw e at h)
]
execute-append (drop_if_exists t) c frame d h apart = elim (Bool-cases (any (names t) c)) [
  | inl e ↦ rw (any_beside (names t) c frame e) (remove-append t c frame d (rw e at h) apart)
  | inr e ↦ rw (any-append, e, (keep_untouched t frame apart).0) (same_frame c d frame (rw e at h))
]

both_apart : (b e : Bool) → (not b && e) ≡ true → (b ≡ false) × (e ≡ true)
both_apart b e h = ground arith

-- Beside objects that a script has nothing to do with, it succeeds as well, and leaves them as they are.
pub run-append :
    (ss : List Statement) (c frame d : List Object)
    → run ss c ≡ ok d
    → is_apart ss frame ≡ true
    → run ss (c ++ frame) ≡ ok (d ++ frame)
unfolding run
run-append [] c frame d h apart = same_frame c d frame h
run-append (s ∷ ss) c frame d h apart' =
    let (a, apart) = both_apart (any (touches s) frame) _ apart' in
    elim (Outcome-cases (execute s c)) [
      | inl (x, e) ↦ err-ok _ x d (rw e at h)
      | inr (b, e) ↦ rw (execute-append s c frame b e a) (run-append ss b frame d (rw e at h) apart)
    ]
