-- ===== src/Common/Action.antt =====
-- A use case runs over a state and may throw. The state comes back after a throw too: what was
-- written before it stays written, since the repositories commit one call at a time.
use elonew.Base.{◌≡◌, arith, Bool, true, false, Option, none, some}
use elonew.Common.Errors.{DomainError, Result, ok, err}

abbrev pub Action : Type 0 → Type 0 → Type 0
Action S A = S → Result A × S

module _ {S : Type 0} where
  abbrev pub pure : {A : Type 0} → A → Action S A
  pure a s = (ok a, s)

  abbrev pub throw : {A : Type 0} → DomainError → Action S A
  throw e s = (err e, s)

  abbrev pub gets : {A : Type 0} → (S → A) → Action S A
  gets f s = (ok (f s), s)

  abbrev pub modify : (S → S) → Action S (Unit {0})
  modify f s = (ok tt, f s)

  -- A call of an entity's method, which touches no table.
  abbrev pub attempt : {A : Type 0} → Result A → Action S A
  attempt r s = (r, s)

  -- `if (!value) throw e`
  abbrev pub or_throw : {A : Type 0} → Option A → DomainError → Action S A
  or_throw none e s = (err e, s)
  or_throw (some a) e s = (ok a, s)

  -- `if (c) throw e`
  abbrev pub throw_if : Bool → DomainError → Action S (Unit {0})
  throw_if true e s = (err e, s)
  throw_if false e s = (ok tt, s)

module _ {S : Type 0} where
  -- `prisma.$transaction`: a throw undoes what was written.
  abbrev pub transaction : {A : Type 0} → Action S A → Action S A
  transaction m s = let (r, s') = m s in elim r [ ok a ↦ (ok a, s') | err e ↦ (err e, s) ]

infixl 5 ◌>>=◌ ◌>>◌
abbrev pub ◌>>=◌ : {S A B : Type 0} → Action S A → (A → Action S B) → Action S B
◌>>=◌ m f s = let (r, s') = m s in elim r [ ok a ↦ f a s' | err e ↦ (err e, s') ]

abbrev pub ◌>>◌ : {S B : Type 0} → Action S (Unit {0}) → Action S B → Action S B
m >> k = m >>= λ _. k

-- Inversion of a run that returns: its first step has returned, and the rest returned after it.
pub bind-eq-ok :
    {S A B : Type 0} (m : Action S A) (f : A → Action S B) (s : S) {b : B}
    → ((m >>= f) s).0 ≡ ok b
    → (a : A) × ((m s).0 ≡ ok a) × ((f a (m s).1).0 ≡ ok b)
bind-eq-ok m f s h = ground arith
