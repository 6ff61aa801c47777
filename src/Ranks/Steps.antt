-- ===== src/Ranks/Steps.antt =====
-- The priced steps of the ranks, their indices, and the step after each.
-- Code: apps/web/src/modules/client-dashboard/model/rank-options.ts
use elonew.Base.{
  ℕ, zero, suc, ◌<◌, length, ◌+◌, String, Bool, true, false, ◌&&◌, ◌||◌, List, [], ◌∷◌, any, Option,
  none, some, same, ◌==◌, ◌≡◌, refl, inl, inr, arith, eq_iff, Option-cases, Bool-cases,
}
use elonew.Ranks.{
  Numerals, RankStep, rank_divisions, find_index, at, priced_rank_steps, is_rank_without_divisions,
  normalize_rank_division, get_rank_step_index,
}

find_index-at :
    (p : RankStep → Bool) (xs : List RankStep) {i : ℕ}
    → find_index p xs ≡ some i
    → (s : RankStep) × (at i xs ≡ some s) × (p s ≡ true)
find_index-at p [] h = ground arith
find_index-at p (x ∷ xs) {i} h = elim (Bool-cases (p x)) [
  | inl y ↦ (x, rw (let e : i ≡ 0 = ground arith in e) refl, y)
  | inr n ↦ elim (Option-cases (find_index p xs)) [
    | inl e ↦ ground arith
    | inr (j, e) ↦
        let (s, f, q) = find_index-at p xs {i = j} e in
        (s, rw (let g : i ≡ suc j = ground arith in g) f, q)
  ]
]

-- The division of a step is one of its league's.
unfoldable pub known : RankStep → Bool
known s = is_rank_without_divisions s.league || any (same s.division) rank_divisions

abbrev index_is : Option ℕ → ℕ → Bool
index_is none j = false
index_is (some i) j = i == j

-- A known step that is found at this index.
unfoldable pub stands_at : Option RankStep → ℕ → Bool
stands_at none j = false
stands_at (some t) j = known t && index_is (get_rank_step_index t.league t.division) j

stands_at-ok :
    (o : Option RankStep) (j : ℕ)
    → stands_at o j ≡ true
    → (t : RankStep) × (o ≡ some t)
      × (known t ≡ true)
      × (get_rank_step_index t.league t.division ≡ some j)
unfolding stands_at
stands_at-ok none j h = ground arith
stands_at-ok (some t) j h =
    (t, refl, ground (arith, h), go (get_rank_step_index t.league t.division) (ground (arith, h)))
  where
    go : (o : Option ℕ) → index_is o j ≡ true → o ≡ some j
    go none e = ground arith
    go (some i) e = ground arith

-- A step below the master's is known, and so is the step after it, which stands at the next index.
unfoldable continues : ℕ → RankStep → Bool
continues i s =
    is_rank_without_divisions s.league
    || (known s && stands_at (at (suc i) priced_rank_steps) (suc i))

continues-ok :
    (i : ℕ) (s : RankStep)
    → continues i s ≡ true
    → is_rank_without_divisions s.league ≡ false
    → (known s ≡ true) × (stands_at (at (suc i) priced_rank_steps) (suc i) ≡ true)
unfolding continues
continues-ok i s h low =
    go (is_rank_without_divisions s.league) (known s)
      (stands_at (at (suc i) priced_rank_steps) (suc i)) h low
  where
    go : (a b c : Bool) → a || (b && c) ≡ true → a ≡ false → (b ≡ true) × (c ≡ true)
    go a b c e f = (ground arith, ground arith)

-- A test of every step and its index.
abbrev all_from : (ℕ → RankStep → Bool) → ℕ → List RankStep → Bool
all_from c k [] = true
all_from c k (s ∷ ss) = c k s && all_from c (suc k) ss

steps_continue : all_from continues 0 priced_rank_steps ≡ true
unfolding priced_rank_steps get_rank_step_index continues known stands_at
steps_continue = refl

all_from-at :
    (c : ℕ → RankStep → Bool) (k : ℕ) (xs : List RankStep) (i : ℕ) {s : RankStep}
    → all_from c k xs ≡ true
    → at i xs ≡ some s
    → c (k + i) s ≡ true
all_from-at c k [] i h e = ground arith
all_from-at c k (x ∷ xs) zero {s} h e =
    let q : x ≡ s = ground arith in
    rw (← q, let z : k + 0 ≡ k = omega arith in z) (ground (arith, h))
all_from-at c k (x ∷ xs) (suc i) {s} h e =
    rw (let z : k + suc i ≡ suc k + i = omega arith in z)
      (all_from-at c (suc k) xs i {s = s} (ground (arith, h)) e)

-- The index of a master's step does not depend on the division.
pub index-master :
    (league d d' : String)
    → is_rank_without_divisions league ≡ true
    → get_rank_step_index league d ≡ get_rank_step_index league d'
unfolding get_rank_step_index
index-master league d d' h = rw h refl

-- The step of an index: its league, and its division where the league has divisions.
index-at :
    (league division : String) {i : ℕ}
    → get_rank_step_index league division ≡ some i
    → is_rank_without_divisions league ≡ false
    → at i priced_rank_steps ≡ some (record { league = league; division = division })
unfolding get_rank_step_index
index-at league division {i} h low =
    let (s, e, q) = find_index-at _ priced_rank_steps {i = i} h in
    let l : s.league ≡ league = ground (arith, q, eq_iff s.league league) in
    let d : s.division ≡ division = ground (arith, q, low, eq_iff s.division division) in
    cc (e, l, d)

find_index-bound :
    (p : RankStep → Bool) (xs : List RankStep) {i : ℕ} → find_index p xs ≡ some i → i < length xs
find_index-bound p [] h = ground arith
find_index-bound p (x ∷ xs) {i} h = elim (Bool-cases (p x)) [
  | inl y ↦ ground arith
  | inr n ↦ elim (Option-cases (find_index p xs)) [
    | inl e ↦ ground arith
    | inr (j, e) ↦ let b = find_index-bound p xs {i = j} e in ground (arith, b)
  ]
]

length-steps : length priced_rank_steps ≡ 29
unfolding priced_rank_steps
length-steps = refl

-- There are 29 steps, and the master's is the last.
pub index-bound :
    (league division : String) {i : ℕ} → get_rank_step_index league division ≡ some i → i < 29
unfolding get_rank_step_index
index-bound league division {i} h =
    let b = find_index-bound _ priced_rank_steps {i = i} h in omega (arith, b, length-steps)

pub index-last :
    (league division : String)
    → is_rank_without_divisions league ≡ true
    → get_rank_step_index league division ≡ some 28
unfolding get_rank_step_index priced_rank_steps
index-last league division m =
    let e : league ≡ "master" = ground (arith, m, eq_iff league "master") in rw e refl

-- A step with divisions is known, and so is the step after it, which stands at the next index.
pub index-continues :
    (league division : String) {i : ℕ}
    → get_rank_step_index league division ≡ some i
    → is_rank_without_divisions league ≡ false
    → (known (record { league = league; division = division }) ≡ true)
      × (stands_at (at (suc i) priced_rank_steps) (suc i) ≡ true)
index-continues league division {i} h low =
    let s : RankStep = record { league = league; division = division } in
    let c : continues i s ≡ true = rw⁻¹ (let z : 0 + i ≡ i = omega arith in z) (
      all_from-at continues 0 priced_rank_steps i {s = s} steps_continue
        (index-at league division h low)) in
    continues-ok i s c low

-- Normalising the division of a known step keeps its index.
pub normalized-index :
    (v : Numerals) (league division : String)
    → known (record { league = league; division = division }) ≡ true
    → get_rank_step_index league (normalize_rank_division v league division)
      ≡ get_rank_step_index league division
unfolding normalize_rank_division known
normalized-index v league division k = elim (Bool-cases (is_rank_without_divisions league)) [
  | inl m ↦ index-master league _ division m
  | inr n ↦
      let a : any (same division) rank_divisions ≡ true = ground (arith, k, n) in rw (n, a) refl
]

-- The step after one with divisions, with its division normalised, stands at the next index.
pub next-index :
    (v : Numerals) (league division : String) {i : ℕ}
    → get_rank_step_index league division ≡ some i
    → is_rank_without_divisions league ≡ false
    → (t : RankStep) × (at (suc i) priced_rank_steps ≡ some t)
      × (get_rank_step_index t.league (normalize_rank_division v t.league t.division)
          ≡ some (suc i))
next-index v league division {i} h low =
    let (t, e, k, x) = stands_at-ok _ (suc i) (index-continues league division h low).1 in
    (t, e, rw (normalized-index v t.league t.division k) x)
