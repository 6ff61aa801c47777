-- ===== src/Orders/Catalog/Versions.antt =====
-- One version is active, it can price every rank, and what was sold under a version does not change.
-- Code: apps/api/src/modules/orders, the pricing versions
use elonew.Base.{
  ℕ, suc, ◌≤◌, String, true, false, List, [], ◌∷◌, All, length, map, none, some, if◌then◌else◌, inl,
  inr, ◌⊎◌, ◌≡◌, refl, ◌∙◌, sym, arith, eq_iff, Bool-cases, Option-cases, Rows, lookup, insert,
  lookup-insert, insert-Rows,
}
use elonew.Common.Errors.{Result-cases, ok}
use elonew.Orders.PricingVersion.{Texts, OrderPricingStep, OrderPricingExtraRate}
use elonew.Orders.Catalog.Steps.{is_complete-sort}
use elonew.Orders.Catalog.{
  VersionRow, Versions, Formats, draft, active, is_active, is_draft, is_complete, active_rows,
  sort_steps, map_version, archived_row, archive_active, find_active,
  normalize_order_pricing_version_name, normalize_pricing_step, normalize_pricing_extra,
  create_draft_version, replace_draft, activate, assert_order_pricing_version_complete,
  create_order_pricing_version, update_order_pricing_version, activate_order_pricing_version,
}

-- What administrators ask for.
pub data Call : Type 0 where
  creates updates : String → ℕ → String → List OrderPricingStep → List OrderPricingExtraRate → Call
  activates : String → ℕ → Call

unfoldable pub run_call : Formats → Call → Versions → Versions
run_call f (creates id now name steps extras) d =
    (create_order_pricing_version f id now name steps extras d).1
run_call f (updates id now name steps extras) d =
    (update_order_pricing_version f id now name steps extras d).1
run_call f (activates id now) d = (activate_order_pricing_version f id now d).1

unfoldable pub run_calls : Formats → List Call → Versions → Versions
run_calls f [] d = d
run_calls f (c ∷ cs) d = run_calls f cs (run_call f c d)

-- A version that is no draft can price every rank.
abbrev pub IsSold : Texts → VersionRow → Type 0
IsSold texts r = if is_draft r then Unit else (is_complete texts r.steps r.extras ≡ true)

pub record IsCatalog (texts : Texts) (d : Versions) : Type 0 where
  pub one : length (active_rows d) ≤ 1
  pub sold : Rows (IsSold texts) d

active_rows-draft :
    (id : String) (r : VersionRow) (d : Versions)
    → is_active r ≡ false
    → length (active_rows (insert id r d)) ≤ length (active_rows d)
unfolding active_rows insert
active_rows-draft id r [] off = ground arith
active_rows-draft id r ((k, q) ∷ d) off = ground (arith, active_rows-draft id r d off)

active_rows-insert :
    (id : String) (r : VersionRow) (d : Versions)
    → length (active_rows (insert id r d)) ≤ suc (length (active_rows d))
unfolding active_rows insert
active_rows-insert id r [] = ground arith
active_rows-insert id r ((k, q) ∷ d) = ground (arith, active_rows-insert id r d)

active_rows-archive : (now : ℕ) (d : Versions) → active_rows (archive_active now d) ≡ []
unfolding active_rows archive_active
active_rows-archive now [] = refl
active_rows-archive now ((k, q) ∷ d) = ground (arith, active_rows-archive now d)

archive-Rows :
    (texts : Texts) (now : ℕ) (d : Versions)
    → Rows (IsSold texts) d
    → Rows (IsSold texts) (archive_active now d)
unfolding archive_active
archive-Rows texts now [] h = tt
archive-Rows texts now ((k, q) ∷ d) h = (ground (arith, h.0), archive-Rows texts now d h.1)

lookup-archive :
    (id : String) (now : ℕ) (d : Versions) {r : VersionRow}
    → lookup id d ≡ some r
    → lookup id (archive_active now d) ≡ some (archived_row now r)
unfolding lookup archive_active
lookup-archive id now [] found = cc found
lookup-archive id now ((k, q) ∷ d) {r} found = ground (arith, lookup-archive id now d {r = r})

-- What a call writes, if anything: a draft, in a free place or over another draft; or, with the active
-- version archived, a complete version over a draft.
DraftWritten : Versions → Versions → Type 0
DraftWritten d d' =
    (id : String) × (r : VersionRow) × (is_draft r ≡ true)
    × ((lookup id d ≡ none) ⊎ ((q : VersionRow) × (lookup id d ≡ some q) × (is_draft q ≡ true)))
    × (d' ≡ insert id r d)

Activated : Texts → Versions → Versions → Type 0
Activated texts d d' =
    (id : String) × (now : ℕ) × (r : VersionRow) × (is_draft r ≡ false)
    × (is_complete texts r.steps r.extras ≡ true)
    × ((q : VersionRow) × (lookup id d ≡ some q) × (is_draft q ≡ true))
    × (d' ≡ insert id r (archive_active now d))

Written : Texts → Versions → Versions → Type 0
Written texts d d' = (d' ≡ d) ⊎ (DraftWritten d d' ⊎ Activated texts d d')

run_call-Written : (f : Formats) (c : Call) (d : Versions) → Written f.texts d (run_call f c d)
unfolding run_call Written DraftWritten Activated create_order_pricing_version create_draft_version
    update_order_pricing_version replace_draft activate_order_pricing_version activate
    assert_order_pricing_version_complete is_complete
run_call-Written f (creates id now name steps extras) d =
    elim (Result-cases (normalize_order_pricing_version_name f name)) [
      | inr (e, bad) ↦ inl (ground arith)
      | inl (n, good) ↦ elim (Option-cases (lookup id d)) [
        | inr (q, taken) ↦ inl (ground arith)
        | inl free ↦ inr (
            inl (
              id,
              record {
                id = id;
                name = n;
                status = draft;
                created_at = now;
                updated_at = now;
                activated_at = none;
                steps = map (normalize_pricing_step f) steps;
                extras = map (normalize_pricing_extra f) extras;
              },
              refl,
              inl free,
              ground arith,
            ))
      ]
    ]
run_call-Written f (updates id now name steps extras) d =
    elim (Result-cases (normalize_order_pricing_version_name f name)) [
      | inr (e, bad) ↦ inl (ground arith)
      | inl (n, good) ↦ elim (Option-cases (lookup id d)) [
        | inl absent ↦ inl (ground arith)
        | inr (q, found) ↦ elim (Bool-cases (is_draft q)) [
          | inr sold ↦ inl (ground arith)
          | inl open_draft ↦ inr (
              inl (
                id,
                record q {
                  name = n;
                  steps = map (normalize_pricing_step f) steps;
                  extras = map (normalize_pricing_extra f) extras;
                  updated_at = now;
                },
                open_draft,
                inr (q, found, open_draft),
                ground arith,
              ))
        ]
      ]
    ]
run_call-Written f (activates id now) d = elim (Option-cases (lookup id d)) [
  | inl absent ↦ inl (ground arith)
  | inr (q, found) ↦ elim (Bool-cases (is_complete f.texts (sort_steps q.steps) q.extras)) [
    | inr incomplete ↦ inl (ground arith)
    | inl complete ↦ elim (Bool-cases (is_draft q)) [
      | inr sold ↦ inl (ground arith)
      | inl open_draft ↦ inr (
          inr (
            id,
            now,
            record q { status = active; activated_at = some now; updated_at = now },
            refl,
            sym (is_complete-sort f.texts q.steps q.extras) ∙ complete,
            (q, found, open_draft),
            ground arith,
          ))
    ]
  ]
]

-- A row that is sold stays as it is sold: a call leaves its name and its prices.
AsSold : VersionRow → VersionRow → Type 0
AsSold r r' =
    (r'.name ≡ r.name) × (r'.steps ≡ r.steps) × (r'.extras ≡ r.extras) × (is_draft r' ≡ false)

Written-IsCatalog :
    (texts : Texts) (d d' : Versions) → Written texts d d' → IsCatalog texts d → IsCatalog texts d'
unfolding Written DraftWritten Activated
Written-IsCatalog texts d d' (inl e) h = rw e h
Written-IsCatalog texts d d' (inr (inl (id, r, open_draft, free, e))) h = rw e (record {
  one = omega (arith, h.one, active_rows-draft id r d (ground arith));
  sold = insert-Rows (IsSold texts) id r d (ground arith) h.sold;
})
Written-IsCatalog texts d d' (inr (inr (id, now, r, sold, complete, was, e))) h = rw e (record {
  one = ground (arith, active_rows-insert id r (archive_active now d), active_rows-archive now d);
  sold =
      insert-Rows (IsSold texts) id r (archive_active now d) (ground arith)
        (archive-Rows texts now d h.sold);
})

Written-AsSold :
    (texts : Texts) (id : String) (d d' : Versions) {r : VersionRow}
    → Written texts d d'
    → lookup id d ≡ some r
    → is_draft r ≡ false
    → (r' : VersionRow) × (lookup id d' ≡ some r') × AsSold r r'
unfolding Written DraftWritten Activated AsSold
Written-AsSold texts id d d' {r} (inl e) found sold =
    (r, rw (e, found) refl, (refl, refl, refl, sold))
Written-AsSold texts id d d' {r} (inr (inl (j, q, open_draft, free, e))) found sold =
    (r, rw e (ground (arith, lookup-insert j id q d, eq_iff j id)), (refl, refl, refl, sold))
Written-AsSold texts id d d' {r} (inr (inr (j, now, q, closed, complete, was, e))) found sold = (
  archived_row now r,
  rw e (
      ground (
        arith,
        lookup-insert j id q (archive_active now d),
        eq_iff j id,
        lookup-archive id now d {r = r} found,
      )),
  ground arith,
)

run_calls-IsCatalog :
    (f : Formats) (cs : List Call) (d : Versions)
    → IsCatalog f.texts d
    → IsCatalog f.texts (run_calls f cs d)
unfolding run_calls
run_calls-IsCatalog f [] d h = h
run_calls-IsCatalog f (c ∷ cs) d h =
    run_calls-IsCatalog f cs (run_call f c d)
      (Written-IsCatalog f.texts d (run_call f c d) (run_call-Written f c d) h)

-- A version that has been activated keeps its name, its steps and its extras through any further
-- calls, whether it is still active or archived: what an order was priced by does not change.
pub sold_prices_stay :
    (f : Formats) (cs : List Call) (id : String) (d : Versions) {r : VersionRow}
    → lookup id d ≡ some r
    → is_draft r ≡ false
    → (r' : VersionRow) × (lookup id (run_calls f cs d) ≡ some r')
      × (r'.name ≡ r.name)
      × (r'.steps ≡ r.steps)
      × (r'.extras ≡ r.extras)
unfolding run_calls AsSold
sold_prices_stay f [] id d {r} found sold = (r, found, refl, refl, refl)
sold_prices_stay f (c ∷ cs) id d {r} found sold =
    let (q, kept, (name, steps, extras, still)) =
      Written-AsSold f.texts id d (run_call f c d) (run_call-Written f c d) found sold in
    let (r', later, name', steps', extras') =
      sold_prices_stay f cs id (run_call f c d) kept still in
    (r', later, name' ∙ name, steps' ∙ steps, extras' ∙ extras)

active_rows-sold :
    (texts : Texts) (d : Versions)
    → Rows (IsSold texts) d
    → All (λ r. is_complete texts r.steps r.extras ≡ true) (active_rows d)
unfolding active_rows
active_rows-sold texts [] h = tt
active_rows-sold texts ((k, r) ∷ d) h = elim (Bool-cases (is_active r)) [
  | inl on ↦ rw on (ground arith, active_rows-sold texts d h.1)
  | inr off ↦ rw off (active_rows-sold texts d h.1)
]

FindsComplete : Texts → Versions → Type 0
FindsComplete texts d =
    (find_active d ≡ (ok none, d))
    ⊎ ((r : VersionRow) × (find_active d ≡ (ok (some r), d))
        × (is_complete texts r.steps r.extras ≡ true))

sound_rows :
    (texts : Texts) (d : Versions) (rs : List VersionRow)
    → active_rows d ≡ rs
    → All (λ r. is_complete texts r.steps r.extras ≡ true) rs
    → length rs ≤ 1
    → FindsComplete texts d
unfolding find_active FindsComplete
sound_rows texts d [] e all le = inl (ground arith)
sound_rows texts d (r ∷ []) e all le =
    inr (map_version r, ground arith, is_complete-sort texts r.steps r.extras ∙ all.0)
sound_rows texts d (r ∷ q ∷ rs) e all le = absurd (omega arith)

-- Whatever administrators create, change and activate, starting without versions: there is never a
-- conflict between two active versions, and the active one, if there is one, has a step for each rank
-- of both services and a rate for each extra.
pub active_version_complete :
    (f : Formats) (cs : List Call)
    → let d = run_calls f cs [] in
      (find_active d ≡ (ok none, d))
      ⊎ ((r : VersionRow) × (find_active d ≡ (ok (some r), d))
          × (is_complete f.texts r.steps r.extras ≡ true))
unfolding active_rows FindsComplete
active_version_complete f cs =
    let h = run_calls-IsCatalog f cs [] (record { one = omega arith; sold = tt }) in
    let d = run_calls f cs [] in
    sound_rows f.texts d (active_rows d) refl (active_rows-sold f.texts d h.sold) h.one
