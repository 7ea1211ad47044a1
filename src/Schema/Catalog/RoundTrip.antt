-- ===== src/Schema/Catalog/RoundTrip.antt =====
-- `downgrade` undoes `upgrade`, whatever else the database holds.
use civio.Base.{
  ◌≡◌, refl, String, Bool, true, false, ◌&&◌, ◌||◌, eq_refl, List, [], ◌∷◌, ◌++◌, map, any,
  if◌then◌else◌, arith, inl, inr, Bool-cases, ap, ◌∙◌,
}
use civio.Errors.Outcome.{ok, err, ◌>>=◌, Outcome-cases}
use civio.Schema.Catalog.{Object, extension, Statement, create_missing, clash, execute, run, every}
use civio.Schema.Catalog.Frames.{is_apart, run-append}
use civio.Schema.Catalog.Scripts.{extensions, upgrade_tables, upgrade, downgrade}

-- The objects that `upgrade` makes in an empty database that has the extensions.
abbrev pub upgraded : List Object
upgraded = elim (run upgrade_tables []) [ ok c ↦ c | err x ↦ [] ]

upgraded_lem : run upgrade_tables [] ≡ ok upgraded
unfolding run execute
upgraded_lem = refl

downgraded_lem : run downgrade upgraded ≡ ok []
unfolding run execute downgrade
downgraded_lem = refl

abbrev has_extension : String → List Object → Bool
has_extension n c = any (clash (extension n)) c

abbrev with_extension : String → List Object → List Object
with_extension n c = if has_extension n c then c else extension n ∷ c

-- The catalog with the extensions that it lacks.
abbrev pub ensured : List String → List Object → List Object
ensured [] c = c
ensured (n ∷ ns) c = ensured ns (with_extension n c)

abbrev make_extensions : List String → List Statement
make_extensions ns = map (λ n. create_missing (extension n)) ns

execute-extension :
    (n : String) (c : List Object)
    → execute (create_missing (extension n)) c ≡ ok (with_extension n c)
unfolding execute
execute-extension n c = elim (Bool-cases (has_extension n c)) [
  | inl e ↦ rw e refl
  | inr e ↦ rw e refl
]

run-extensions :
    (ns : List String) (c : List Object) → run (make_extensions ns) c ≡ ok (ensured ns c)
unfolding run
run-extensions [] c = refl
run-extensions (n ∷ ns) c = rw (execute-extension n c) (run-extensions ns _)

or_true : (b : Bool) → (b || true) ≡ true
or_true true = refl
or_true false = refl

both_true : (a b : Bool) → (a && b) ≡ true → (a ≡ true) × (b ≡ true)
both_true a b h = ground arith

has_extension_kept :
    (m n : String) (c : List Object)
    → has_extension m c ≡ true
    → has_extension m (with_extension n c) ≡ true
has_extension_kept m n c h = elim (Bool-cases (has_extension n c)) [
  | inl e ↦ rw e h
  | inr e ↦ rw (e, h) (or_true _)
]

has_extension_own : (n : String) (c : List Object) → has_extension n (with_extension n c) ≡ true
has_extension_own n c = elim (Bool-cases (has_extension n c)) [
  | inl e ↦ rw e e
  | inr e ↦ rw (e, eq_refl n) refl
]

has_extension-ensured :
    (m : String) (ns : List String) (c : List Object)
    → has_extension m c ≡ true
    → has_extension m (ensured ns c) ≡ true
has_extension-ensured m [] c h = h
has_extension-ensured m (n ∷ ns) c h = has_extension-ensured m ns _ (has_extension_kept m n c h)

all_ensured :
    (ns : List String) (c : List Object) → every (λ n. has_extension n (ensured ns c)) ns ≡ true
all_ensured [] c = refl
all_ensured (n ∷ ns) c =
    rw (has_extension-ensured n ns _ (has_extension_own n c)) (all_ensured ns (with_extension n c))

ensured_id :
    (ns : List String) (c : List Object)
    → every (λ n. has_extension n c) ns ≡ true
    → ensured ns c ≡ c
ensured_id [] c h = refl
ensured_id (n ∷ ns) c h = let (a, b) = both_true (has_extension n c) _ h in rw a (ensured_id ns c b)

run-append_script :
    (xs ys : List Statement) (c : List Object) → run (xs ++ ys) c ≡ (run xs c >>= run ys)
unfolding run
run-append_script [] ys c = refl
run-append_script (x ∷ xs) ys c = elim (Outcome-cases (execute x c)) [
  | inl (e, h) ↦ rw h refl
  | inr (b, h) ↦ rw h (run-append_script xs ys b)
]

is_apart-cons :
    (ss : List Statement) (o : Object) (c : List Object)
    → is_apart ss (o ∷ []) ≡ true
    → is_apart ss c ≡ true
    → is_apart ss (o ∷ c) ≡ true
is_apart-cons [] o c h k = refl
is_apart-cons (s ∷ ss) o c h k = ground (arith, is_apart-cons ss o c)

is_apart_with :
    (ss : List Statement) (n : String) (c : List Object)
    → is_apart ss (extension n ∷ []) ≡ true
    → is_apart ss c ≡ true
    → is_apart ss (with_extension n c) ≡ true
is_apart_with ss n c h k = elim (Bool-cases (has_extension n c)) [
  | inl e ↦ rw e k
  | inr e ↦ rw e (is_apart-cons ss (extension n) c h k)
]

is_apart-ensured :
    (ss : List Statement) (ns : List String) (c : List Object)
    → every (λ n. is_apart ss (extension n ∷ [])) ns ≡ true
    → is_apart ss c ≡ true
    → is_apart ss (ensured ns c) ≡ true
is_apart-ensured ss [] c h k = k
is_apart-ensured ss (n ∷ ns) c h k =
    let (a, b) = both_true (is_apart ss (extension n ∷ [])) _ h in
    is_apart-ensured ss ns _ b (is_apart_with ss n c a k)

upgrade-ensured :
    (c : List Object)
    → is_apart upgrade_tables c ≡ true
    → run upgrade c ≡ ok (upgraded ++ ensured extensions c)
unfolding upgrade
upgrade-ensured c apart =
    run-append_script (make_extensions extensions) upgrade_tables c
    ∙ rw (run-extensions extensions c) (
        run-append upgrade_tables [] (ensured extensions c) upgraded upgraded_lem
          (is_apart-ensured upgrade_tables extensions c refl apart))

clear : every (λ n. is_apart downgrade (extension n ∷ [])) extensions ≡ true
unfolding downgrade
clear = refl

-- In a database whose objects neither have the names that the migration uses nor depend on what it
-- makes, and that has no other table or view with a column `updated_at`: `upgrade` succeeds and adds its
-- objects and the extensions that were missing; `downgrade` succeeds after it and leaves the
-- database as it was, with those extensions; and a second `upgrade` then does what the first did.
pub downgrade-upgrade :
    (c : List Object)
    → is_apart upgrade_tables c ≡ true
    → is_apart downgrade c ≡ true
    → (run upgrade c ≡ ok (upgraded ++ ensured extensions c))
      × (run downgrade (upgraded ++ ensured extensions c) ≡ ok (ensured extensions c))
      × (run upgrade (ensured extensions c) ≡ ok (upgraded ++ ensured extensions c))
downgrade-upgrade c up down = (
  upgrade-ensured c up,
  run-append downgrade upgraded (ensured extensions c) [] downgraded_lem
      (is_apart-ensured downgrade extensions c clear down),
  upgrade-ensured (ensured extensions c) (is_apart-ensured upgrade_tables extensions c refl up)
      ∙ ap (λ d. ok (upgraded ++ d))
          (ensured_id extensions (ensured extensions c) (all_ensured extensions c)),
)
