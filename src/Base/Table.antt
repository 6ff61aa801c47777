-- ===== src/Base/Table.antt =====
-- A table keyed by texts: the rows of a database table under their primary key, or a `Map`.
use Prim.Native.String.{String}
use mathlib.Core.Path.{◌≡◌, refl}
use mathlib.Core.Logic.{◌≢◌, inl, inr}
use mathlib.Core.Option.{Option, none, some}
use mathlib.Core.List.{List, [], ◌∷◌}
use native.Mathlib.Omega.{arith}
use text.Mathlib.TextEquality.{eq_iff}
use text.Mathlib.TextPositions.{eq_refl}
use elonew.Base.Tests.{if◌then◌else◌, Bool-cases}
use elonew.Base.Text.{same}

abbrev pub Dict {ℓ} : Type ℓ → Type ℓ
Dict V = List (String × V)

module _ {ℓ} {V : Type ℓ} where
  unfoldable pub lookup : String → Dict V → Option V
  lookup k [] = none
  lookup k ((j, v) ∷ d) = if same j k then some v else lookup k d

  unfoldable pub insert : String → V → Dict V → Dict V
  insert k v [] = (k, v) ∷ []
  insert k v ((j, w) ∷ d) = if same j k then (k, v) ∷ d else (j, w) ∷ insert k v d

  pub lookup-insert :
      (k j : String) (v : V) (d : Dict V)
      → lookup j (insert k v d) ≡ (if same k j then some v else lookup j d)
  unfolding lookup insert
  lookup-insert k j v [] = refl
  lookup-insert k j v ((i, w) ∷ d) =
      ground (arith, eq_iff k j, eq_iff i k, eq_iff i j, lookup-insert k j v d)

module _ {ℓ} {V : Type ℓ} where
  pub lookup-insert_self : (k : String) (v : V) (d : Dict V) → lookup k (insert k v d) ≡ some v
  lookup-insert_self k v d = simp (lookup-insert, eq_refl)

  pub lookup-insert_ne :
      (k j : String) (v : V) (d : Dict V) → k ≢ j → lookup j (insert k v d) ≡ lookup j d
  lookup-insert_ne k j v d h = ground (arith, lookup-insert k j v d, eq_iff k j)

module _ {ℓ} {V : Type ℓ} where
  -- Of two writes under one key the second stays.
  pub insert-insert : (k : String) (v w : V) (d : Dict V) → insert k v (insert k w d) ≡ insert k v d
  unfolding insert
  insert-insert k v w [] = ground (arith, eq_refl k)
  insert-insert k v w ((j, u) ∷ d) = ground (arith, eq_refl k, insert-insert k v w d)

-- Every row of the table satisfies `P`.
abbrev pub Rows {ℓ κ} : {V : Type ℓ} → (V → Type κ) → Dict V → Type κ
Rows P [] = Unit
Rows P ((k, v) ∷ d) = P v × Rows P d

module _ {ℓ κ} {V : Type ℓ} (P : V → Type κ) where
  pub lookup-Rows : (k : String) (d : Dict V) {v : V} → Rows P d → lookup k d ≡ some v → P v
  unfolding lookup
  lookup-Rows k [] all found = cc found
  lookup-Rows k ((j, w) ∷ d) {v} all found = elim (Bool-cases (same j k)) [
    | inl hit ↦ (let e : w ≡ v = ground arith in rw e at all.0)
    | inr miss ↦ lookup-Rows k d all.1 (ground arith)
  ]

  pub insert-Rows : (k : String) (v : V) (d : Dict V) → P v → Rows P d → Rows P (insert k v d)
  unfolding insert
  insert-Rows k v [] p all = (p, tt)
  insert-Rows k v ((j, w) ∷ d) p all = elim (Bool-cases (same j k)) [
    | inl hit ↦ rw hit (p, all.1)
    | inr miss ↦ rw miss (all.0, insert-Rows k v d p all.1)
  ]

-- No key occurs twice, as in a table under a primary key or in a `Map`.
unfoldable pub IsMap {ℓ} : {V : Type ℓ} → Dict V → Type ℓ
IsMap [] = Unit
IsMap ((k, v) ∷ d) = (lookup k d ≡ none) × IsMap d

pub insert-IsMap {ℓ} :
    {V : Type ℓ} (k : String) (v : V) (d : Dict V) → IsMap d → IsMap (insert k v d)
unfolding IsMap insert lookup
insert-IsMap k v [] h = (refl, tt)
insert-IsMap k v ((j, w) ∷ d) h =
    ground (arith, eq_iff j k, eq_iff k j, lookup-insert k j v d, insert-IsMap k v d h.1)
