-- ===== src/Schema/Catalog.antt =====
-- The objects of the database's schema and the statements of the initial migration that make and drop
-- them. A function is named without its arguments; constraints and sequences that PostgreSQL names
-- itself are left out.
pub mod Frames
pub mod Scripts
pub mod RoundTrip
pub mod Upgraded
use civio.Base.{
  ◌≡◌, String, str_eq, Bool, true, false, ◌&&◌, ◌||◌, Option, none, some, List, [], ◌∷◌, ◌++◌, map,
  any, keep, All, not, if◌then◌else◌,
}
use civio.Errors.Classes.{other}
use civio.Errors.Outcome.{Outcome, ok, err, ◌>>=◌}

-- A table has the types of its columns, the tables that it refers to, and whether it has the column
-- `updated_at`; an index what it is on; a view its table, and whether `information_schema.columns` lists
-- it with that column (a materialized view is not listed); a trigger its table and its function.
pub data Object : Type 0 where
  extension enum_type function : String → Object
  table : String → List String → List String → Bool → Object
  index : String → String → Object
  view : String → String → Bool → Object
  trigger : String → String → String → Object

-- `IF NOT EXISTS` and `OR REPLACE` are `create_missing`. `each_updated_at` is the DO block, with the
-- name of the triggers and their function.
pub data Target : Type 0 where
  drop_table drop_index drop_view drop_type drop_function : String → Target

pub data Statement : Type 0 where
  create create_missing : Object → Statement
  each_updated_at : String → String → Statement
  drop drop_if_exists : Target → Statement

abbrev pub member : String → List String → Bool
member n ns = any (str_eq n) ns

-- The names that an object takes among relations, among types, and among functions and extensions.
abbrev relation_name : Object → Option String
relation_name (table n ts rs u) = some n
relation_name (index n t) = some n
relation_name (view n t u) = some n
relation_name _ = none

abbrev type_name : Object → Option String
type_name (table n ts rs u) = some n
type_name (view n t u) = some n
type_name (enum_type n) = some n
type_name _ = none

abbrev function_name : Object → Option String
function_name (function n) = some n
function_name _ = none

abbrev extension_name : Object → Option String
extension_name (extension n) = some n
extension_name _ = none

abbrev same_name : Option String → Option String → Bool
same_name (some a) (some b) = str_eq a b
same_name _ _ = false

abbrev same_trigger : Object → Object → Bool
same_trigger (trigger n t f) (trigger n' t' f') = str_eq n n' && str_eq t t'
same_trigger _ _ = false

-- The two cannot both exist.
abbrev pub clash : Object → Object → Bool
clash o p =
    same_name (relation_name o) (relation_name p)
    || same_name (type_name o) (type_name p)
    || same_name (function_name o) (function_name p)
    || same_name (extension_name o) (extension_name p)
    || same_trigger o p

-- What a target names.
abbrev pub names : Target → Object → Bool
names (drop_table n) (table m ts rs u) = str_eq n m
names (drop_index n) (index m t) = str_eq n m
names (drop_view n) (view m t u) = str_eq n m
names (drop_type n) (enum_type m) = str_eq n m
names (drop_function n) (function m) = str_eq n m
names _ _ = false

-- What goes with it: the indexes of a table or a view and the triggers of a table.
abbrev pub is_part : Target → Object → Bool
is_part (drop_table n) (index m t) = str_eq n t
is_part (drop_table n) (trigger m t f) = str_eq n t
is_part (drop_view n) (index m t) = str_eq n t
is_part _ _ = false

-- What keeps it from being dropped: the tables that refer to a table and the views over it, the tables
-- with a column of a type, the triggers that run a function.
abbrev pub depends : Target → Object → Bool
depends (drop_table n) (table m ts rs u) = not (str_eq n m) && member n rs
depends (drop_table n) (view m t u) = str_eq n t
depends (drop_type n) (table m ts rs u) = member n ts
depends (drop_function n) (trigger m t f) = str_eq n f
depends _ _ = false

abbrev exists : Target → List Object → Bool
exists d c = any (names d) c

abbrev pub every : (String → Bool) → List String → Bool
every p [] = true
every p (n ∷ ns) = p n && every p ns

-- What an object needs is there.
abbrev pub is_met : Object → List Object → Bool
is_met (table n ts rs u) c =
    every (λ t. exists (drop_type t) c) ts && every (λ r. exists (drop_table r) c) rs
is_met (index n t) c = exists (drop_table t) c || exists (drop_view t) c
is_met (view n t u) c = exists (drop_table t) c
is_met (trigger n t f) c = exists (drop_table t) c && exists (drop_function f) c
is_met _ c = true

abbrev pub has_updated_at : Object → Bool
has_updated_at (table n ts rs u) = u
has_updated_at (view n t u) = u
has_updated_at _ = false

abbrev pub updated_relation : Object → List String
updated_relation (table n ts rs true) = n ∷ []
updated_relation (view n t true) = n ∷ []
updated_relation _ = []

-- The tables and views that the query of the DO block finds; on a view the row trigger is an error.
abbrev pub stamped : List Object → List String
stamped [] = []
stamped (o ∷ c) = updated_relation o ++ stamped c

abbrev pub add : Object → List Object → Outcome (List Object)
add o c =
    if any (clash o) c
    then err (other "DuplicateObject")
    else if is_met o c
    then ok (o ∷ c)
    else err (other "UndefinedObject")

abbrev pub add_all : List Object → List Object → Outcome (List Object)
add_all [] c = ok c
add_all (o ∷ os) c = add o c >>= add_all os

abbrev pub remove : Target → List Object → Outcome (List Object)
remove d c =
    if any (depends d) c
    then err (other "DependentObjectsStillExist")
    else ok (keep (λ o. not (names d o || is_part d o)) c)

unfoldable pub execute : Statement → List Object → Outcome (List Object)
execute (create o) c = add o c
execute (create_missing o) c = if any (clash o) c then ok c else add o c
execute (each_updated_at n f) c = add_all (map (λ t. trigger n t f) (stamped c)) c
execute (drop d) c = if exists d c then remove d c else err (other "UndefinedObject")
execute (drop_if_exists d) c = if exists d c then remove d c else ok c

-- A migration runs in one transaction and stops at the first statement that fails.
unfoldable pub run : List Statement → List Object → Outcome (List Object)
unfolding execute
run [] c = ok c
run (s ∷ ss) c = execute s c >>= run ss
