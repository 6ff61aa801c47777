-- ===== src/Ranks.antt =====
-- The ranks that the client's order form offers:
-- apps/web/src/modules/client-dashboard/model/rank-options.ts, without labels, images and colours.
-- An index that is not found, -1 there, is `none`.
pub mod Steps
pub mod Desired
mod Tests
use mathlib.Core.Option
use elonew.Base.{
  ℕ, zero, suc, ◌+◌, String, Bool, false, ◌&&◌, List, [], ◌∷◌, ◌++◌, map, any, Option, none, some,
  same, or_else, if◌then◌else◌, ltb, leb,
}
use elonew.Base.Int.{ℤ, pos, negsuc}

-- What `Number` makes of a text: no finite number, an integer, or another number, by its integral
-- part.
pub data NumberValue : Type 0 where
  not_finite : NumberValue
  integer fractional : ℤ → NumberValue

-- `Number(text)`, and `String(number)` on the natural numbers.
pub record Numerals : Type 0 where
  pub number : String → NumberValue
  pub print : ℕ → String

pub record RankStep : Type 0 where
  pub league : String
  pub division : String

abbrev pub rank_divisions : List String
rank_divisions = "IV" ∷ "III" ∷ "II" ∷ "I" ∷ []

abbrev pub master_rank_division : String
master_rank_division = "MASTER"

abbrev pub master_pdl_max : ℕ
master_pdl_max = 250

abbrev rank_options : List String
rank_options =
    "iron" ∷ "bronze" ∷ "silver" ∷ "gold" ∷ "platinum" ∷ "emerald" ∷ "diamond" ∷ "master" ∷ []

abbrev pub is_rank_without_divisions : String → Bool
is_rank_without_divisions league = same league "master"

abbrev steps_of : String → List RankStep
steps_of league =
    if is_rank_without_divisions league
    then record { league = league; division = master_rank_division } ∷ []
    else map (λ division. record { league = league; division = division }) rank_divisions

abbrev flat_map : (String → List RankStep) → List String → List RankStep
flat_map f [] = []
flat_map f (x ∷ xs) = f x ++ flat_map f xs

unfoldable pub priced_rank_steps : List RankStep
priced_rank_steps = flat_map steps_of rank_options

-- `findIndex`
abbrev pub find_index : (RankStep → Bool) → List RankStep → Option ℕ
find_index p [] = none
find_index p (x ∷ xs) = if p x then some 0 else Option.map suc (find_index p xs)

-- `steps[i]`
abbrev pub at : ℕ → List RankStep → Option RankStep
at i [] = none
at zero (x ∷ xs) = some x
at (suc i) (x ∷ xs) = at i xs

abbrev last : List RankStep → Option RankStep
last [] = none
last (x ∷ []) = some x
last (x ∷ (y ∷ ys)) = last (y ∷ ys)

-- The PDL of a number that is one, 0 for any other.
abbrev pub pdl_of : NumberValue → ℕ
pdl_of (integer (pos n)) = if leb n master_pdl_max then n else 0
pdl_of _ = 0

unfoldable pub get_master_pdl_from_division : Numerals → String → ℕ
get_master_pdl_from_division v division =
    if same division master_rank_division then 0 else pdl_of (v.number division)

abbrev clamp : ℤ → ℕ
clamp (pos n) = if leb n master_pdl_max then n else master_pdl_max
clamp (negsuc _) = 0

unfoldable pub normalize_master_pdl_division : Numerals → NumberValue → String
normalize_master_pdl_division v not_finite = v.print 0
normalize_master_pdl_division v (integer z) = v.print (clamp z)
normalize_master_pdl_division v (fractional z) = v.print (clamp z)

unfoldable pub normalize_rank_division : Numerals → String → String → String
normalize_rank_division v league division =
    if is_rank_without_divisions league
    then normalize_master_pdl_division v (v.number division)
    else if any (same division) rank_divisions
    then division
    else "IV"

unfoldable pub get_rank_step_index : String → String → Option ℕ
get_rank_step_index league division =
    let normalized = if is_rank_without_divisions league then master_rank_division else division in
    find_index (λ s. same s.league league && same s.division normalized) priced_rank_steps

abbrev pub is_after : Option ℕ → Option ℕ → Bool
is_after (some current) (some desired) = ltb current desired
is_after (some current) none = false
is_after none _ = false

unfoldable pub is_desired_rank_available : Numerals → RankStep → RankStep → Bool
is_desired_rank_available v current desired =
    if is_rank_without_divisions current.league && is_rank_without_divisions desired.league
    then ltb (get_master_pdl_from_division v current.division)
        (get_master_pdl_from_division v desired.division)
    else is_after (get_rank_step_index current.league current.division)
        (get_rank_step_index desired.league desired.division)

abbrev next_index : Option ℕ → ℕ
next_index none = 0
next_index (some i) = suc i

unfoldable pub get_next_rank_step : Numerals → RankStep → RankStep
get_next_rank_step v current =
    if is_rank_without_divisions current.league
    then record {
      league = "master";
      division =
          normalize_master_pdl_division v
            (integer (pos (get_master_pdl_from_division v current.division + 1)));
    }
    else or_else
        (at (next_index (get_rank_step_index current.league current.division)) priced_rank_steps)
        (or_else (last priced_rank_steps) (record { league = "iron"; division = "IV" }))

abbrev pub normalized : Numerals → RankStep → RankStep
normalized v s = record {
  league = s.league;
  division = normalize_rank_division v s.league s.division;
}

unfoldable pub normalize_desired_rank : Numerals → RankStep → RankStep → RankStep
normalize_desired_rank v current desired =
    if is_desired_rank_available v current desired
    then normalized v desired
    else normalized v (get_next_rank_step v current)
