-- ===== src/Ranks/Tests.antt =====
-- Runs of the order form's ranks, and the theorem at a concrete input.
-- Code: apps/web/src/modules/client-dashboard/model/rank-options.ts
use Prim.Native.String.{char_at, count, slice, ◌++◌ as append}
use Prim.Native.Char.{code}
use elonew.Base.{
  ℕ, not, zero, suc, ◌+◌, ◌-◌, ◌*◌, ◌/◌, ◌%◌, ◌≤◌, ◌&&◌, String, Bool, true, false, ◌==◌, ltb, leb,
  ◌≡◌, refl, arith, if◌then◌else◌, Bool-cases, inl, inr,
}
use elonew.Base.Int.{pos, negsuc}
use elonew.Ranks.{
  Numerals, NumberValue, not_finite, integer, fractional, RankStep, priced_rank_steps,
  get_rank_step_index, is_desired_rank_available, normalize_desired_rank, normalize_rank_division,
  get_next_rank_step, get_master_pdl_from_division, normalize_master_pdl_division,
}
use elonew.Ranks.Desired.{is_top, desired_is_available}

abbrev digit : ℕ → String
digit n = slice "0123456789" n (suc n)

abbrev print_decimal : ℕ → String
print_decimal n =
    if ltb n 10
    then digit n
    else if ltb n 100
    then append (digit (n / 10)) (digit (n % 10))
    else append (digit (n / 100)) (append (digit (n / 10 % 10)) (digit (n % 10)))

abbrev are_digits : ℕ → String → Bool
are_digits zero s = true
are_digits (suc k) s =
    are_digits k s && (leb 48 (code (char_at s k)) && leb (code (char_at s k)) 57)

abbrev value : ℕ → String → ℕ
value zero s = 0
value (suc k) s = value k s * 10 + (code (char_at s k) - 48)

-- Texts of digits are read, and no others.
abbrev decimals : Numerals
decimals = record {
  number = λ s. if are_digits (count s) s then integer (pos (value (count s) s)) else not_finite;
  print = print_decimal;
}

abbrev is_number : NumberValue → ℕ → Bool
is_number (integer (pos m)) n = m == n
is_number _ n = false

is_number-ok : (x : NumberValue) (n : ℕ) → is_number x n ≡ true → x ≡ integer (pos n)
is_number-ok not_finite n h = ground arith
is_number-ok (integer (pos m)) n h = let e : m ≡ n = ground arith in rw e refl
is_number-ok (integer (negsuc m)) n h = ground arith
is_number-ok (fractional z) n h = ground arith

unfoldable reads_back : ℕ → Bool
reads_back n = is_number (decimals.number (decimals.print n)) n

abbrev all_read_back : ℕ → Bool
all_read_back zero = reads_back 0
all_read_back (suc k) = all_read_back k && reads_back (suc k)

all_read_back-at : (k n : ℕ) → all_read_back k ≡ true → n ≤ k → reads_back n ≡ true
all_read_back-at zero n h le = let e : n ≡ 0 = omega (arith, le) in rw e h
all_read_back-at (suc k) n h le = elim (Bool-cases (n == suc k)) [
  | inl y ↦ let e : n ≡ suc k = ground (arith, y) in rw e (ground (arith, h))
  | inr ne ↦ all_read_back-at k n (ground (arith, h)) (ground (arith, ne, le))
]

round : (n : ℕ) → n ≤ 250 → decimals.number (decimals.print n) ≡ integer (pos n)
unfolding reads_back
round n small = is_number-ok _ n (all_read_back-at 250 n refl small)

abbrev gold : RankStep
gold = record { league = "gold"; division = "II" }

-- A desired rank below the current one becomes the next step.
steps_up :
    normalize_desired_rank decimals gold (record { league = "silver"; division = "I" })
    ≡ record { league = "gold"; division = "I" }
unfolding normalize_desired_rank is_desired_rank_available get_rank_step_index priced_rank_steps
    get_next_rank_step normalize_rank_division
steps_up = refl

abbrev top : RankStep
top = record { league = "master"; division = "250" }

-- A master at the highest PDL keeps a desired rank that is not available.
top_is_kept :
    (normalize_desired_rank decimals top top ≡ top)
    × (is_desired_rank_available decimals top top ≡ false)
unfolding normalize_desired_rank is_desired_rank_available get_next_rank_step
    normalize_rank_division get_master_pdl_from_division normalize_master_pdl_division
top_is_kept = (refl, refl)

desired_is_available_example :
    is_desired_rank_available decimals gold
      (normalize_desired_rank decimals gold (record { league = "silver"; division = "I" }))
    ≡ not (is_top decimals gold)
unfolding get_rank_step_index priced_rank_steps
desired_is_available_example =
    desired_is_available decimals round refl gold (record { league = "silver"; division = "I" })
      {i = 14} refl
