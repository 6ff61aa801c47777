-- ===== src/Throttling/Isolation.antt =====
-- The throttler's counters are kept apart: the comment of the storage, as a theorem on any
-- interleaving of requests.
-- Code: apps/api/src/common/http/window-throttler.storage.ts
use elonew.Base.{
  IsMap, ℕ, ◌≤◌, String, true, List, [], ◌∷◌, none, if◌then◌else◌, inl, inr, ◌≡◌, ◌≢◌, refl, ◌∙◌,
  arith, eq_iff, same, Bool-cases, Dict, lookup,
}
use mathlib.Core.Path.{subst}
use elonew.Throttling.Window.{ThrottleWindow, StorageRecord, increment}
use elonew.Throttling.Keys.{running, increment-IsMap, increment-own, increment-other}

-- One call of `increment`, at the time of the clock.
pub record Request : Type 0 where
  pub key : String
  pub ttl : ℕ
  pub limit : ℕ
  pub block_duration : ℕ
  pub now : ℕ

abbrev pub serve : Request → Dict ThrottleWindow → StorageRecord × Dict ThrottleWindow
serve r ws = increment r.key r.ttl r.limit r.block_duration r.now ws

-- The clock does not run backwards.
unfoldable pub InOrder : ℕ → List Request → Type 0
InOrder t [] = Unit
InOrder t (r ∷ rs) = (t ≤ r.now) × InOrder r.now rs

-- What a caller is told, in a run of everybody's requests.
unfoldable pub answers_to : String → List Request → Dict ThrottleWindow → List StorageRecord
answers_to k [] ws = []
answers_to k (r ∷ rs) ws =
    let rest = answers_to k rs (serve r ws).1 in
    if same r.key k then (serve r ws).0 ∷ rest else rest

unfoldable pub requests_of : String → List Request → List Request
requests_of k [] = []
requests_of k (r ∷ rs) = let rest = requests_of k rs in if same r.key k then r ∷ rest else rest

pub InOrder-le : (t u : ℕ) (rs : List Request) → t ≤ u → InOrder u rs → InOrder t rs
unfolding InOrder
InOrder-le t u [] le h = tt
InOrder-le t u (r ∷ rs) le h = (omega (arith, h.0), h.1)

-- A window seen now is what is seen later of it.
seen_later :
    (t later : ℕ) (k : String) (ws vs : Dict ThrottleWindow)
    → t ≤ later
    → running t k ws ≡ running t k vs
    → running later k ws ≡ running later k vs
seen_later t later k ws vs le e = ground arith

served_alike :
    (r : Request) (ws vs : Dict ThrottleWindow)
    → running r.now r.key ws ≡ running r.now r.key vs
    → ((serve r ws).0 ≡ (serve r vs).0)
      × (running r.now r.key (serve r ws).1 ≡ running r.now r.key (serve r vs).1)
served_alike r ws vs e =
    let a = increment-own r.key r.ttl r.limit r.block_duration r.now ws in
    let b = increment-own r.key r.ttl r.limit r.block_duration r.now vs in
    (rw (a.0, b.0, e), rw (a.1, b.1, e))

pub serve-IsMap : (r : Request) (ws : Dict ThrottleWindow) → IsMap ws → IsMap (serve r ws).1
serve-IsMap r ws h = increment-IsMap r.key r.ttl r.limit r.block_duration r.now ws h

pub served_other :
    (r : Request) (k : String) (ws : Dict ThrottleWindow) (later : ℕ)
    → r.key ≢ k
    → r.now ≤ later
    → IsMap ws
    → running later k (serve r ws).1 ≡ running later k ws
served_other r k ws later ne le h =
    increment-other r.key k r.ttl r.limit r.block_duration r.now later ws ne le h

-- The same, on the key that the request is known to carry.
served_own :
    (r : Request) (k : String) (ws vs : Dict ThrottleWindow)
    → r.key ≡ k
    → running r.now k ws ≡ running r.now k vs
    → ((serve r ws).0 ≡ (serve r vs).0)
      × (running r.now k (serve r ws).1 ≡ running r.now k (serve r vs).1)
served_own r k ws vs e =
    subst
      (λ j.
        running r.now j ws ≡ running r.now j vs
        → ((serve r ws).0 ≡ (serve r vs).0)
          × (running r.now j (serve r ws).1 ≡ running r.now j (serve r vs).1))
      e (served_alike r ws vs)

pub answers_own :
    (r : Request) (k : String) (rs : List Request) (ws : Dict ThrottleWindow)
    → same r.key k ≡ true
    → answers_to k (r ∷ rs) ws ≡ (serve r ws).0 ∷ answers_to k rs (serve r ws).1
unfolding answers_to
answers_own r k rs ws hit = rw hit

answers_agree :
    (k : String) (t : ℕ) (rs : List Request) (ws vs : Dict ThrottleWindow)
    → InOrder t rs
    → IsMap ws
    → IsMap vs
    → running t k ws ≡ running t k vs
    → answers_to k rs ws ≡ answers_to k (requests_of k rs) vs
unfolding InOrder answers_to requests_of
answers_agree k t [] ws vs o h g e = refl
answers_agree k t (r ∷ rs) ws vs o h g e =
    let seen = seen_later t r.now k ws vs o.0 e in
    elim (Bool-cases (same r.key k)) [
      | inl hit ↦
          let own = served_own r k ws vs ((eq_iff r.key k).0 hit) seen in
          rw (
            hit,
            own.0,
            answers_agree k r.now rs (serve r ws).1 (serve r vs).1 o.1 (serve-IsMap r ws h)
                (serve-IsMap r vs g) own.1,
            answers_own r k (requests_of k rs) vs hit,
          )
      | inr miss ↦ rw (
        miss,
        answers_agree k r.now rs (serve r ws).1 vs o.1 (serve-IsMap r ws h) g
            (served_other r k ws r.now (ground (arith, eq_iff r.key k)) (omega arith) h ∙ seen),
      )
    ]

-- Whatever other callers send in between, in any number and with any limits, a key is told exactly
-- what it would be told if its requests were the only ones ever and the map were empty, the sweep of
-- a full map included. No window of the key is running at the start, the clock does not run backwards,
-- and the map has no key twice.
pub answers_isolated :
    (k : String) (t : ℕ) (rs : List Request) (ws : Dict ThrottleWindow)
    → InOrder t rs
    → IsMap ws
    → running t k ws ≡ none
    → answers_to k rs ws ≡ answers_to k (requests_of k rs) []
unfolding IsMap lookup
answers_isolated k t rs ws o h e = answers_agree k t rs ws [] o h tt e
