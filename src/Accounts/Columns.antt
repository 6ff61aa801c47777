-- ===== src/Accounts/Columns.antt =====
-- Tables with a unique column beside the primary key: the emails, names and tokens of users, and the
-- refresh tokens of sessions. A column may be null.
-- Code: packages/database/prisma/schema.prisma, the `@unique` columns of `User` and `AuthSession`
use mathlib.Core.Path.{subst}
use elonew.Base.{
  String, true, false, [], ◌∷◌, Option, none, some, holds_text, or_else, ◌≡◌, arith, eq_iff,
  eq_refl, Option-cases, Bool-cases, Dict, lookup, insert, inl, inr,
}
use elonew.Accounts.Store.{find_row}

module _ {ℓ} {V : Type ℓ} (id : V → String) (col : V → Option String) where
  -- `findUnique` on the column.
  abbrev pub row_of : String → Dict V → Option V
  row_of t d = find_row (λ r. holds_text (col r) t) d

  abbrev pub IsFree : Option String → Dict V → Type ℓ
  IsFree none d = Unit
  IsFree (some t) d = row_of t d ≡ none

  -- Rows stand under their ids, once each, and no two have one text in the column.
  unfoldable pub IsUnique : Dict V → Type ℓ
  IsUnique [] = Unit
  IsUnique ((k, r) ∷ d) = (id r ≡ k) × (lookup k d ≡ none) × IsFree (col r) d × IsUnique d

module _ {ℓ} {V : Type ℓ} (id : V → String) (col : V → Option String) where
  pub row_of-col : (t : String) (d : Dict V) {s : V} → row_of id col t d ≡ some s → col s ≡ some t
  unfolding find_row
  row_of-col t [] found = cc found
  row_of-col t ((k, r) ∷ d) {s} found = elim (Option-cases (col r)) [
    | inl e ↦ ground (arith, row_of-col t d {s = s})
    | inr (c, e) ↦ ground (arith, eq_iff c t, row_of-col t d {s = s})
  ]

  pub row_of-lookup :
      (t : String) (d : Dict V) {s : V}
      → IsUnique id col d
      → row_of id col t d ≡ some s
      → lookup (id s) d ≡ some s
  unfolding find_row IsUnique lookup
  row_of-lookup t [] h found = cc found
  row_of-lookup t ((k, r) ∷ d) {s} h found =
      ground (arith, eq_iff k (id s), row_of-lookup t d {s = s} h.3)

  holds_text-some : (o : Option String) (t : String) → holds_text o t ≡ true → o ≡ some t
  holds_text-some o t h = ground (arith, eq_iff (or_else o "") t)

  -- A row that stands in the table is found under its text.
  pub row_of-row :
      (t : String) (d : Dict V) (s : V)
      → IsUnique id col d
      → lookup (id s) d ≡ some s
      → col s ≡ some t
      → row_of id col t d ≡ some s
  unfolding find_row IsUnique lookup
  row_of-row t [] s h found e = cc found
  row_of-row t ((k, r) ∷ d) s h found e = elim (Bool-cases (holds_text (col r) t)) [
    | inl hit ↦
        let rest : row_of id col t d ≡ none =
          subst (λ o. IsFree id col o d) (holds_text-some (col r) t hit) h.2 in
        ground (arith, eq_iff k (id s), row_of-row t d s h.3)
    | inr miss ↦ ground (arith, eq_iff k (id s), eq_refl t, row_of-row t d s h.3)
  ]

  -- A row that gives its text away is not found under it.
  pub replaced :
      (t : String) (d : Dict V) {s : V} (s' : V)
      → IsUnique id col d
      → row_of id col t d ≡ some s
      → holds_text (col s') t ≡ false
      → row_of id col t (insert (id s) s' d) ≡ none
  unfolding find_row IsUnique insert lookup
  replaced t [] s' h found other = cc found
  replaced t ((k, r) ∷ d) {s} s' h found other = elim (Bool-cases (holds_text (col r) t)) [
    | inl hit ↦
        let rest : row_of id col t d ≡ none =
          subst (λ o. IsFree id col o d) (holds_text-some (col r) t hit) h.2 in
        ground (arith, eq_iff k (id s))
    | inr miss ↦
        ground (arith, eq_iff k (id s), row_of-lookup t d {s = s} h.3, replaced t d {s = s} s' h.3)
  ]

  -- A text that was free finds the row that took it.
  pub taken :
      (t k : String) (d : Dict V) (s' : V)
      → row_of id col t d ≡ none
      → col s' ≡ some t
      → row_of id col t (insert k s' d) ≡ some s'
  unfolding find_row insert
  taken t k [] s' free e = ground (arith, eq_refl t)
  taken t k ((j, r) ∷ d) s' free e = ground (arith, eq_refl t, taken t k d s')

  pub still_free :
      (t k : String) (d : Dict V) (s' : V)
      → row_of id col t d ≡ none
      → holds_text (col s') t ≡ false
      → row_of id col t (insert k s' d) ≡ none
  unfolding find_row insert
  still_free t k [] s' free e = ground arith
  still_free t k ((j, r) ∷ d) s' free e = ground (arith, still_free t k d s')

  -- A row that keeps its text is found under it.
  pub updated :
      (t : String) (d : Dict V) {s : V} (s' : V)
      → IsUnique id col d
      → row_of id col t d ≡ some s
      → col s' ≡ some t
      → row_of id col t (insert (id s) s' d) ≡ some s'
  unfolding find_row IsUnique insert lookup
  updated t [] s' h found e = cc found
  updated t ((k, r) ∷ d) {s} s' h found e =
      ground (
        arith,
        eq_refl t,
        eq_iff k (id s),
        row_of-lookup t d {s = s} h.3,
        updated t d {s = s} s' h.3,
      )

  -- Under another text nothing changes.
  pub undisturbed :
      (t : String) (d : Dict V) (s s' : V)
      → IsUnique id col d
      → lookup (id s) d ≡ some s
      → holds_text (col s) t ≡ false
      → holds_text (col s') t ≡ false
      → row_of id col t (insert (id s) s' d) ≡ row_of id col t d
  unfolding find_row IsUnique insert lookup
  undisturbed t [] s s' h found apart apart' = cc found
  undisturbed t ((k, r) ∷ d) s s' h found apart apart' =
      ground (arith, eq_iff k (id s), undisturbed t d s s' h.3)
