-- ===== src/Inbox/Ids.antt =====
-- The comparison of ids by their code points, which is one that the notifications can be ordered by.
-- Code: apps/api/src/modules/notifications/infrastructure/repositories/prisma-notification.repository.ts
use elonew.Base.{
  String, Bool, true, false, ◌≡◌, ◌≢◌, refl, arith, ltb, ◌==◌, if◌then◌else◌, inl, inr, Bool-cases,
}
use elonew.Inbox.Sorted.{IsIdOrder}
use Prim.Native.Char.{code}
use text.Mathlib.TextEquality.{codes_equal}

unfoldable pub id_after : String → String → Bool
id_after String.[] t = false
id_after (String.◌∷◌ c s) String.[] = true
id_after (String.◌∷◌ c s) (String.◌∷◌ d t) =
    let rest = id_after s t in
    if ltb (code d) (code c) then true else if code c == code d then rest else false

id_after_irrefl : (a : String) → id_after a a ≡ false
unfolding id_after
id_after_irrefl String.[] = refl
id_after_irrefl (String.◌∷◌ c s) = ground (arith, id_after_irrefl s)

id_after_trans : (a b c : String) → id_after a b ≡ true → id_after b c ≡ true → id_after a c ≡ true
unfolding id_after
id_after_trans String.[] b c p q = cc p
id_after_trans (String.◌∷◌ x s) String.[] c p q = cc q
id_after_trans (String.◌∷◌ x s) (String.◌∷◌ y t) String.[] p q = refl
id_after_trans (String.◌∷◌ x s) (String.◌∷◌ y t) (String.◌∷◌ z u) p q =
    ground (arith, id_after_trans s t u)

id_after-total : (a b : String) → a ≢ b → id_after a b ≡ false → id_after b a ≡ true
unfolding id_after
id_after-total String.[] String.[] differ p = absurd (differ refl)
id_after-total String.[] (String.◌∷◌ y t) differ p = refl
id_after-total (String.◌∷◌ x s) String.[] differ p = cc p
id_after-total (String.◌∷◌ x s) (String.◌∷◌ y t) differ p = elim (Bool-cases (code x == code y)) [
  | inl level ↦
      let e : x ≡ y = codes_equal x y (ground arith) in
      let tails : s ≢ t = λ q. differ (cc (e, q)) in ground (arith, id_after-total s t)
  | inr uneven ↦ ground arith
]

-- Ids by their code points are in a strict total order.
pub id_after-IsIdOrder : IsIdOrder id_after
id_after-IsIdOrder = record {
  irrefl = id_after_irrefl;
  trans = id_after_trans;
  total = id_after-total;
}
