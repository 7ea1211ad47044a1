-- ===== src/Base/Dict.antt =====
-- A Python dict with text keys, in insertion order.
use Prim.Native.String.{String}
use mathlib.Core.Path.{◌≡◌, refl}
use mathlib.Core.Option.{Option, none, some}
use mathlib.Core.List.{List, [], ◌∷◌}
use native.Mathlib.Omega.{arith}
use text.Mathlib.Text.{◌==◌ as str_eq}
use text.Mathlib.TextEquality.{eq_iff}
use civio.Base.Tests.{if◌then◌else◌}

module _ {ℓ} {V : Type ℓ} where
  abbrev pub lookup : String → List (String × V) → Option V
  lookup k [] = none
  lookup k ((j, v) ∷ d) = if str_eq k j then some v else lookup k d

  abbrev pub insert : String → V → List (String × V) → List (String × V)
  insert k v [] = (k, v) ∷ []
  insert k v ((j, w) ∷ d) = if str_eq k j then (j, v) ∷ d else (j, w) ∷ insert k v d

  -- `d.update(e)`; a dict holds no key twice, so the order of the writes is free.
  abbrev pub update : List (String × V) → List (String × V) → List (String × V)
  update d [] = d
  update d ((k, v) ∷ e) = insert k v (update d e)

  abbrev pub or_else : Option V → Option V → Option V
  or_else (some v) o = some v
  or_else none o = o

  pub lookup-insert :
      (j k : String) (v : V) (d : List (String × V))
      → lookup j (insert k v d) ≡ (if str_eq j k then some v else lookup j d)
  lookup-insert j k v [] = refl
  lookup-insert j k v ((i, w) ∷ d) =
      ground (arith, eq_iff k j, eq_iff j k, eq_iff k i, eq_iff j i, lookup-insert j k v d)

  pub lookup-update :
      (j : String) (d e : List (String × V))
      → lookup j (update d e) ≡ or_else (lookup j e) (lookup j d)
  lookup-update j d [] = refl
  lookup-update j d ((k, v) ∷ e) =
      ground (arith, lookup-insert j k v (update d e), lookup-update j d e)
