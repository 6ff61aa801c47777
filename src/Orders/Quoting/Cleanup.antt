-- ===== src/Orders/Quoting/Cleanup.antt =====
-- Which quotes a clean-up deletes.
-- Code: apps/api/src/modules/orders/application/use-cases/cleanup-expired-order-quotes
use elonew.Base.{
  ℕ, zero, suc, ◌+◌, ◌-◌, ◌<◌, String, true, ◌&&◌, List, [], ◌∷◌, Option, none, some, any, same,
  All, All-map, inl, inr, ◌≡◌, ◌⊎◌, refl, ◌∙◌, arith, eq_iff, eq_refl, leb, if◌then◌else◌,
  Bool-cases, Option-cases, Dict, lookup, IsMap,
}
use elonew.Orders.Quote.{OrderQuote}
use elonew.Orders.Quoting.{
  is_unused, is_expired_unused, expired_unused, insert_by_expiry, sort_by_expiry, first_ids,
  delete_unused, cleanup_expired_unused, cleanup_expired_order_quotes, retention_ms,
}
use elonew.Platform.World.{World}

-- A row of the table under its key.
abbrev IsRow : Dict OrderQuote → String × OrderQuote → Type 0
IsRow d e = lookup e.0 d ≡ some e.1

rows-IsRow : (d : Dict OrderQuote) → IsMap d → All (IsRow d) d
unfolding IsMap lookup
rows-IsRow [] h = tt
rows-IsRow ((k, q) ∷ d) h = (
  rw (eq_refl k) refl,
  All-map
      (λ e found. elim (Bool-cases (same k e.0)) [
        | inl hit ↦ absurd (cc (rw (← (eq_iff k e.0).0 hit) at found, h.0))
        | inr miss ↦ rw miss found
      ])
      d (rows-IsRow d h.1),
)

-- A row that a clean-up may take.
abbrev IsTaken : ℕ → Dict OrderQuote → String × OrderQuote → Type 0
IsTaken before d e = IsRow d e × (is_expired_unused before e.1 ≡ true)

expired-IsTaken :
    (before : ℕ) (d e : Dict OrderQuote)
    → All (IsRow d) e
    → All (IsTaken before d) (expired_unused before e)
unfolding expired_unused
expired-IsTaken before d [] all = tt
expired-IsTaken before d ((k, q) ∷ e) all = elim (Bool-cases (is_expired_unused before q)) [
  | inl hit ↦ rw hit ((all.0, hit), expired-IsTaken before d e all.1)
  | inr miss ↦ rw miss (expired-IsTaken before d e all.1)
]

module _ (P : String × OrderQuote → Type 0) where
  All-insert_by :
      (e : String × OrderQuote) (d : Dict OrderQuote) → P e → All P d → All P (insert_by_expiry e d)
  unfolding insert_by_expiry
  All-insert_by e [] p all = (p, tt)
  All-insert_by e (f ∷ d) p all = elim (Bool-cases (leb e.1.expires_at f.1.expires_at)) [
    | inl first ↦ rw first (p, all)
    | inr later ↦ rw later (all.0, All-insert_by e d p all.1)
  ]

  All-sort : (d : Dict OrderQuote) → All P d → All P (sort_by_expiry d)
  unfolding sort_by_expiry
  All-sort [] all = tt
  All-sort (e ∷ d) all = All-insert_by e (sort_by_expiry d) all.0 (All-sort d all.1)

  -- A listed id is that of a row of the list.
  listed :
      (k : String) (n : ℕ) (d : Dict OrderQuote)
      → All P d
      → any (same k) (first_ids n d) ≡ true
      → (q : OrderQuote) × P (k, q)
  unfolding first_ids
  listed k zero d all h = cc h
  listed k (suc n) [] all h = cc h
  listed k (suc n) ((j, q) ∷ d) all h = elim (Bool-cases (same k j)) [
    | inl hit ↦ (q, rw (← ((eq_iff k j).0 hit)) at all.0)
    | inr miss ↦ listed k n d all.1 (rw miss at h)
  ]

-- A row's fate under a deletion.
abbrev kept_of : String → List String → Option OrderQuote → Option OrderQuote
kept_of k ids none = none
kept_of k ids (some q) = if any (same k) ids && is_unused q then none else some q

lookup-delete :
    (k : String) (ids : List String) (d : Dict OrderQuote)
    → IsMap d
    → lookup k (delete_unused ids d) ≡ kept_of k ids (lookup k d)
unfolding delete_unused lookup IsMap
lookup-delete k ids [] h = refl
lookup-delete k ids ((j, q) ∷ d) h = elim (Bool-cases (same j k)) [
  | inl hit ↦
      let e : j ≡ k = (eq_iff j k).0 hit in
      let gone : lookup k d ≡ none = rw e at h.0 in
      rw e (elim (Bool-cases (any (same k) ids && is_unused q)) [
        | inl out ↦ rw (eq_refl k, out) (rw gone at (lookup-delete k ids d h.1))
        | inr stays ↦ rw (eq_refl k, stays, eq_refl k) refl
      ])
  | inr miss ↦ elim (Bool-cases (any (same j) ids && is_unused q)) [
    | inl out ↦ rw (out, miss) (lookup-delete k ids d h.1)
    | inr stays ↦ rw (stays, miss) (lookup-delete k ids d h.1)
  ]
]

-- Every row stands as it stood, or is gone, and then it had expired before the time and was not used.
pub cleanup-row :
    (before limit : ℕ) (k : String) (d : Dict OrderQuote)
    → IsMap d
    → (lookup k (cleanup_expired_unused before limit d).1 ≡ lookup k d)
      ⊎ ((q : OrderQuote) × (lookup k d ≡ some q)
          × (is_expired_unused before q ≡ true)
          × (lookup k (cleanup_expired_unused before limit d).1 ≡ none))
unfolding cleanup_expired_unused
cleanup-row before limit k d h =
    let ids = first_ids limit (sort_by_expiry (expired_unused before d)) in
    let fate = lookup-delete k ids d h in
    elim (Option-cases (lookup k d)) [
      | inl gone ↦ inl (rw gone (rw gone at fate))
      | inr (q, found) ↦ elim (Bool-cases (any (same k) ids && is_unused q)) [
        | inr stays ↦ inl (fate ∙ rw (found, stays) refl)
        | inl out ↦
            let all =
              All-sort (IsTaken before d) (expired_unused before d)
                (expired-IsTaken before d d (rows-IsRow d h)) in
            let (r, (row, taken)) =
              listed (IsTaken before d) k limit (sort_by_expiry (expired_unused before d)) all
                (ground arith) in
            let e : r ≡ q = cc (row, found) in
            inr (q, found, rw e at taken, fate ∙ rw (found, out) refl)
      ]
    ]

-- After a clean-up every quote stands as it stood, or is gone; one that is gone had expired more than
-- seven days before, was not used and had no order. The table has each id once.
pub cleanup_spares :
    (now limit : ℕ) (id : String) (w : World)
    → IsMap w.quotes
    → let (deleted, w') = cleanup_expired_order_quotes now limit w in
      (lookup id w'.quotes ≡ lookup id w.quotes)
      ⊎ ((q : OrderQuote) × (lookup id w.quotes ≡ some q)
          × (q.expires_at + retention_ms < now)
          × (q.consumed_at ≡ none)
          × (q.order_id ≡ none)
          × (lookup id w'.quotes ≡ none))
unfolding cleanup_expired_order_quotes
cleanup_spares now limit id w h = elim (cleanup-row (now - retention_ms) limit id w.quotes h) [
  | inl stays ↦ inl stays
  | inr (q, found, taken, gone) ↦ inr (q, found, ground arith, ground arith, ground arith, gone)
]
