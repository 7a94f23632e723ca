-- ===== src/Base/Dict.antt =====
-- Go's maps with text keys as association lists. Deletion removes every entry of the key, so that
-- the laws need no side condition.
use Prim.Native.String.{String}
use text.Mathlib.Text.{◌==◌ as str_eq}
use text.Mathlib.TextEquality.{eq_iff}
use mathlib.Core.Path.{◌≡◌}
use mathlib.Core.List.{List, [], ◌∷◌}
use mathlib.Core.Bool.{Bool}
use mathlib.Core.Option.{Option, none, some}
use native.Mathlib.Omega.{arith}
use sylos_fs.Base.Tests.{if◌then◌else◌}

-- Is this the entry of the key?
abbrev pub is_at {ℓ} : {V : Type ℓ} → String → String × V → Bool
is_at key entry = str_eq key entry.0

module _ {ℓ} {V : Type ℓ} where
  unfoldable pub delete : String → List (String × V) → List (String × V)
  delete key [] = []
  delete key (entry ∷ others) =
      let kept = delete key others in if is_at key entry then kept else entry ∷ kept

  unfoldable pub lookup : String → List (String × V) → Option V
  lookup key [] = none
  lookup key (entry ∷ others) =
      let later = lookup key others in if is_at key entry then some entry.1 else later

  -- The entry takes the place of the first one with its key, or the last place.
  unfoldable pub insert : String → V → List (String × V) → List (String × V)
  insert key value [] = (key, value) ∷ []
  insert key value (entry ∷ others) =
      let longer = insert key value others in
      if is_at key entry then (key, value) ∷ others else entry ∷ longer

  pub lookup-delete :
      (key other : String) (d : List (String × V))
      → lookup other (delete key d) ≡ (if str_eq key other then none else lookup other d)
  unfolding lookup delete
  lookup-delete key other [] = ground arith
  lookup-delete key other (entry ∷ others) = ground (
    arith,
    lookup-delete key other others,
    eq_iff other entry.0,
    eq_iff key entry.0,
    eq_iff key other,
  )

  pub lookup-insert :
      (key other : String) (value : V) (d : List (String × V))
      → lookup other (insert key value d)
        ≡ (if str_eq key other then some value else lookup other d)
  unfolding lookup insert
  lookup-insert key other value [] = ground (arith, eq_iff other key, eq_iff key other)
  lookup-insert key other value (entry ∷ others) = ground (
    arith,
    lookup-insert key other value others,
    eq_iff other entry.0,
    eq_iff key entry.0,
    eq_iff key other,
    eq_iff other key,
  )
