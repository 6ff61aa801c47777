-- ===== src/Orders/Coupons/Codes.antt =====
-- The codes that are generated for coupons.
-- Code: packages/shared/src/coupons/coupon.ts
use elonew.Base.{
  ℕ, String, ap, ◌∙◌, zero, suc, ◌<◌, Bool, true, false, ◌≡◌, refl, arith, Option, none, some,
  length, Bool-cases, leb, if◌then◌else◌, inl, inr,
}
use elonew.Orders.Coupons.{
  codes, is_code_char, all_code_chars, is_valid_coupon_code, generated_code_alphabet, with_char,
  generate_from, generate_coupon_code,
}
use Prim.Native.Char.{Char, code}
use text.Mathlib.Text.{char_at?}

is_letter : Option Char → Bool
is_letter none = false
is_letter (some c) = is_code_char (code c)

-- Whether the alphabet has letters and digits alone at the first `n` indices.
letters_before : ℕ → Bool
unfolding is_letter
letters_before zero = true
letters_before (suc n) =
    if is_letter (char_at? generated_code_alphabet n) then letters_before n else false

letter_at :
    (n index : ℕ)
    → index < n
    → letters_before n ≡ true
    → is_letter (char_at? generated_code_alphabet index) ≡ true
unfolding letters_before
letter_at zero index lt checked = elim lt [ ]
letter_at (suc n) index lt checked = elim (Bool-cases (leb n index)) [
  | inl last ↦ (let e : index ≡ n = ground arith in rw e (ground arith))
  | inr earlier ↦ letter_at n index (ground arith) (ground arith)
]

alphabet_checked : letters_before 36 ≡ true
unfolding letters_before
alphabet_checked = refl

with_char-valid :
    (o : Option Char) (rest : String)
    → is_letter o ≡ true
    → (length (codes (with_char o rest)) ≡ suc (length (codes rest)))
      × (all_code_chars (codes (with_char o rest)) ≡ all_code_chars (codes rest))
unfolding with_char all_code_chars is_letter
with_char-valid none rest h = cc h
with_char-valid (some c) rest h = (refl, rw h refl)

generate_from-valid :
    (random_int : ℕ → ℕ) (n i : ℕ)
    → ((j : ℕ) → random_int j < 36)
    → (length (codes (generate_from random_int n i)) ≡ n)
      × (all_code_chars (codes (generate_from random_int n i)) ≡ true)
unfolding generate_from all_code_chars
generate_from-valid random_int zero i below = (refl, refl)
generate_from-valid random_int (suc n) i below =
    let (long, chars) =
      with_char-valid (char_at? generated_code_alphabet (random_int i))
        (generate_from random_int n (suc i))
        (letter_at 36 (random_int i) (below i) alphabet_checked) in
    let (n_long, all) = generate_from-valid random_int n (suc i) below in
    (long ∙ ap suc n_long, chars ∙ all)

-- A generated code is a valid one, whatever the random indices into the alphabet.
pub generated_code_valid :
    (random_int : ℕ → ℕ)
    → ((j : ℕ) → random_int j < 36)
    → is_valid_coupon_code (generate_coupon_code random_int) ≡ true
unfolding is_valid_coupon_code generate_coupon_code
generated_code_valid random_int below =
    let (long, chars) = generate_from-valid random_int 10 0 below in rw (long, chars) refl
