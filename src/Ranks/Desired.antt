-- ===== src/Ranks/Desired.antt =====
-- What the order form makes of a desired rank.
-- Code: apps/web/src/modules/client-dashboard/model/rank-options.ts
use elonew.Base.{
  ℕ, suc, not, Bool, ◌+◌, ◌≤◌, ◌<◌, String, true, false, ◌&&◌, Option, some, same, ltb, leb, ◌≡◌,
  refl, ap, inl, inr, arith, eq_iff, Option-cases, Bool-cases, lt→ltb, ltb→lt, if◌then◌else◌,
}
use elonew.Base.Int.{pos, negsuc}
use elonew.Ranks.{
  Numerals, NumberValue, not_finite, integer, fractional, RankStep, master_rank_division,
  master_pdl_max, at, pdl_of, priced_rank_steps, is_rank_without_divisions,
  get_master_pdl_from_division, normalize_master_pdl_division, normalize_rank_division,
  get_rank_step_index, is_desired_rank_available, get_next_rank_step, normalize_desired_rank,
  normalized, is_after,
}
use elonew.Ranks.Steps.{
  known, index-master, index-continues, normalized-index, next-index, index-bound, index-last,
}

pdl_of-positive :
    (x : NumberValue) → 0 < pdl_of x → (n : ℕ) × (x ≡ integer (pos n)) × (n ≤ 250) × (pdl_of x ≡ n)
pdl_of-positive not_finite h = ground arith
pdl_of-positive (integer (pos n)) h = (n, refl, ground arith, ground arith)
pdl_of-positive (integer (negsuc n)) h = ground arith
pdl_of-positive (fractional z) h = ground arith

module _ (v : Numerals) where
  normalize-small :
      (n : ℕ) → n ≤ 250 → normalize_master_pdl_division v (integer (pos n)) ≡ v.print n
  unfolding normalize_master_pdl_division
  normalize-small n small =
      ap v.print (let e : (if leb n 250 then n else 250) ≡ n = ground arith in e)

  available-masters :
      (a b : RankStep)
      → is_rank_without_divisions a.league ≡ true
      → is_rank_without_divisions b.league ≡ true
      → is_desired_rank_available v a b
        ≡ ltb
            (get_master_pdl_from_division v a.division)
            (get_master_pdl_from_division v b.division)
  unfolding is_desired_rank_available
  available-masters a b m m' = rw (m, m') refl

  available-steps :
      (a b : RankStep)
      → (is_rank_without_divisions a.league && is_rank_without_divisions b.league) ≡ false
      → is_desired_rank_available v a b
        ≡ is_after
            (get_rank_step_index a.league a.division)
            (get_rank_step_index b.league b.division)
  unfolding is_desired_rank_available
  available-steps a b h = rw h refl

  next-master :
      (a : RankStep)
      → is_rank_without_divisions a.league ≡ true
      → get_next_rank_step v a ≡ record {
        league = "master";
        division =
            normalize_master_pdl_division v
              (integer (pos (get_master_pdl_from_division v a.division + 1)));
      }
  unfolding get_next_rank_step
  next-master a m = rw m refl

  next-step :
      (a : RankStep) {i : ℕ} {t : RankStep}
      → is_rank_without_divisions a.league ≡ false
      → get_rank_step_index a.league a.division ≡ some i
      → at (suc i) priced_rank_steps ≡ some t
      → get_next_rank_step v a ≡ t
  unfolding get_next_rank_step
  next-step a n e f = rw (n, e, f) refl

-- A PDL that is not 0 is that of a number.
pdl-positive :
    (v : Numerals) (division : String)
    → 0 < get_master_pdl_from_division v division
    → (n : ℕ) × (v.number division ≡ integer (pos n))
      × (n ≤ 250)
      × (get_master_pdl_from_division v division ≡ n)
unfolding get_master_pdl_from_division
pdl-positive v division h = elim (Bool-cases (same division master_rank_division)) [
  | inl y ↦ ground (arith, h, y)
  | inr n ↦ rw n (pdl_of-positive (v.number division) (rw n at h))
]

-- Where the index of a step comes after another, it is one, and the step is known.
after-known :
    (o : Option ℕ) (league division : String)
    → is_rank_without_divisions league ≡ false
    → is_after o (get_rank_step_index league division) ≡ true
    → known (record { league = league; division = division }) ≡ true
after-known o league division n h = elim (Option-cases (get_rank_step_index league division)) [
  | inl e ↦ ground (arith, e, h)
  | inr (j, e) ↦ (index-continues league division e n).0
]

-- A master's rank with the highest PDL.
abbrev pub is_top : Numerals → RankStep → Bool
is_top v s =
    is_rank_without_divisions s.league
    && leb master_pdl_max (get_master_pdl_from_division v s.division)

pdl_of-bound : (x : NumberValue) → pdl_of x ≤ master_pdl_max
pdl_of-bound not_finite = omega arith
pdl_of-bound (integer (pos n)) = ground arith
pdl_of-bound (integer (negsuc n)) = omega arith
pdl_of-bound (fractional z) = omega arith

-- Numerals are read back, and "MASTER" is none.
module _ (v : Numerals) (round : (n : ℕ) → n ≤ 250 → v.number (v.print n) ≡ integer (pos n))
    (word : v.number master_rank_division ≡ not_finite) where
  pdl-print : (n : ℕ) → n ≤ 250 → get_master_pdl_from_division v (v.print n) ≡ n
  unfolding get_master_pdl_from_division
  pdl-print n small = elim (Bool-cases (same (v.print n) master_rank_division)) [
    | inl y ↦
        let e : v.print n ≡ master_rank_division =
          ground (arith, y, eq_iff (v.print n) master_rank_division) in
        let q : integer (pos n) ≡ not_finite = cc (e, word, round n small) in ground (arith, q)
    | inr n_ ↦ rw (n_, round n small) (let e : pdl_of (integer (pos n)) ≡ n = ground arith in e)
  ]

  -- Normalising keeps the PDL of a master's division that has any.
  pdl-normalize :
      (league division : String)
      → is_rank_without_divisions league ≡ true
      → 0 < get_master_pdl_from_division v division
      → get_master_pdl_from_division v (normalize_rank_division v league division)
        ≡ get_master_pdl_from_division v division
  unfolding normalize_rank_division
  pdl-normalize league division master h =
      let (k, e, small, q) = pdl-positive v division h in
      rw (q, normalize_rank_division, master, e, normalize-small v k small) (pdl-print k small)

  normalize-print : (n : ℕ) → n ≤ 250 → normalize_rank_division v "master" (v.print n) ≡ v.print n
  unfolding normalize_rank_division
  normalize-print n small = rw (round n small) (normalize-small v n small)

  normalized_available :
      (current desired : RankStep)
      → is_desired_rank_available v current desired ≡ true
      → is_desired_rank_available v current (normalized v desired) ≡ true
  normalized_available current desired h =
      elim (Bool-cases (is_rank_without_divisions desired.league)) [
        | inr n ↦
            let low : (is_rank_without_divisions current.league
                  && is_rank_without_divisions desired.league)
                ≡ false =
              ground (arith, n) in
            let k = rw (available-steps v current desired low) at h in
            rw
              (
                available-steps v current (normalized v desired) low,
                normalized-index v desired.league desired.division
                    (after-known _ desired.league desired.division n k),
              )
              k
        | inl m ↦ elim (Bool-cases (is_rank_without_divisions current.league)) [
          | inl c ↦
              let k = ltb→lt _ _ (rw (available-masters v current desired c m) at h) in
              rw (available-masters v current (normalized v desired) c m) (
                lt→ltb _ _
                  (rw (pdl-normalize desired.league desired.division m (omega (arith, k))) k))
          | inr c ↦
              let low : (is_rank_without_divisions current.league
                    && is_rank_without_divisions desired.league)
                  ≡ false =
                ground (arith, c) in
              let k = rw (available-steps v current desired low) at h in
              rw (available-steps v current (normalized v desired) low) (
                rw
                  (index-master desired.league
                    (normalize_rank_division v desired.league desired.division) desired.division m)
                  k)
        ]
      ]

  next_available :
      (current : RankStep) {i : ℕ}
      → get_rank_step_index current.league current.division ≡ some i
      → (is_rank_without_divisions current.league ≡ true
          → get_master_pdl_from_division v current.division < 250)
      → is_desired_rank_available v current (normalized v (get_next_rank_step v current)) ≡ true
  next_available current {i} stands room =
      elim (Bool-cases (is_rank_without_divisions current.league)) [
        | inl m ↦
            let p = get_master_pdl_from_division v current.division in
            let small : p + 1 ≤ 250 = omega (arith, room m) in
            rw
              (
                next-master v current m,
                normalize-small v (p + 1) small,
                normalize-print (p + 1) small,
                available-masters v current
                    (record { league = "master"; division = v.print (p + 1) }) m refl,
                pdl-print (p + 1) small,
              )
              (lt→ltb p (p + 1) (omega arith))
        | inr n ↦
            let (t, e, k) = next-index v current.league current.division stands n in
            rw
              (
                next-step v current n stands e,
                available-steps v current (normalized v t) (ground (arith, n)),
                stands,
                k,
              )
              (lt→ltb i (suc i) (omega arith))
      ]

  below_top :
      (current desired : RankStep) {i : ℕ}
      → get_rank_step_index current.league current.division ≡ some i
      → (is_rank_without_divisions current.league ≡ true
          → get_master_pdl_from_division v current.division < master_pdl_max)
      → is_desired_rank_available v current (normalize_desired_rank v current desired) ≡ true
  unfolding normalize_desired_rank
  below_top current desired stands room =
      elim (Bool-cases (is_desired_rank_available v current desired)) [
        | inl y ↦ rw y (normalized_available current desired y)
        | inr n ↦ rw n (next_available current stands room)
      ]

  pdl-bound : (division : String) → get_master_pdl_from_division v division ≤ master_pdl_max
  unfolding get_master_pdl_from_division
  pdl-bound division = elim (Bool-cases (same division master_rank_division)) [
    | inl y ↦ rw y (omega arith)
    | inr n ↦ rw n (pdl_of-bound (v.number division))
  ]

  top_unavailable :
      (current desired : RankStep)
      → is_top v current ≡ true
      → is_desired_rank_available v current desired ≡ false
  top_unavailable current desired top =
      let m : is_rank_without_divisions current.league ≡ true = ground (arith, top) in
      let high : master_pdl_max ≤ get_master_pdl_from_division v current.division =
        ground (arith, top) in
      elim (Bool-cases (is_rank_without_divisions desired.league)) [
        | inl m' ↦
            let most = pdl-bound desired.division in
            rw (available-masters v current desired m m') (ground (arith, high, most))
        | inr n ↦
            rw
              (
                available-steps v current desired (ground (arith, n)),
                index-last current.league current.division m,
              )
              (elim (Option-cases (get_rank_step_index desired.league desired.division)) [
                | inl e ↦ rw e refl
                | inr (j, e) ↦
                    let b = index-bound desired.league desired.division e in
                    rw e (ground (arith, b))
              ])
      ]

  -- Where the current rank is one that the form knows, the desired rank that the form keeps, whatever
  -- the client asks for, is available above the current one exactly where the current one is not a
  -- master's with the highest PDL; numerals are read back as they are printed.
  pub desired_is_available :
      (current desired : RankStep) {i : ℕ}
      → get_rank_step_index current.league current.division ≡ some i
      → is_desired_rank_available v current (normalize_desired_rank v current desired)
        ≡ not (is_top v current)
  desired_is_available current desired stands = elim (Bool-cases (is_top v current)) [
    | inl top ↦ rw top (top_unavailable current (normalize_desired_rank v current desired) top)
    | inr low ↦ rw low (below_top current desired stands (λ m. ground (arith, low, m)))
  ]
