-- ===== src/Prelude/Dict.antt =====
-- std::map<std::string, V> as an association list with distinct keys. The code modelled here never
-- depends on the order in which a map is traversed.
use mathlib.Core.Path.{◌≡◌, refl}
use mathlib.Core.List.{List, [], ◌∷◌}
use mathlib.Core.Option.{Option, none, some}
use native.Mathlib.Omega.{arith}
use youyeetoo_rk3588_toolkit.Prelude.Tests.{if◌then◌else◌}
use youyeetoo_rk3588_toolkit.Prelude.Text.{Text, text_eq, text_eq_iff}

module _ {ℓ} {V : Type ℓ} where
  -- m.find(k)
  unfoldable pub lookup : Text → List (Text × V) → Option V
  lookup k [] = none
  lookup k ((j, v) ∷ m) = if text_eq j k then some v else lookup k m

  -- m[k] = v
  unfoldable pub insert : Text → V → List (Text × V) → List (Text × V)
  insert k v [] = (k, v) ∷ []
  insert k v ((j, w) ∷ m) = if text_eq j k then (k, v) ∷ m else (j, w) ∷ insert k v m

  pub lookup-insert :
      (k j : Text) (v : V) (m : List (Text × V))
      → lookup j (insert k v m) ≡ (if text_eq k j then some v else lookup j m)
  unfolding lookup insert
  lookup-insert k j v [] = refl
  lookup-insert k j v ((i, w) ∷ m) =
      ground (arith, text_eq_iff k j, text_eq_iff i k, text_eq_iff i j, lookup-insert k j v m)
