-- ===== src/Chat/Paging.antt =====
-- What a reader collects who follows the cursors of a chat from page to page.
-- Code: apps/api/src/modules/chat/infrastructure/repositories/prisma-chat.repository.ts
use elonew.Base.{
  ℕ, zero, suc, ◌+◌, ◌<◌, ◌≤◌, String, true, List, [], ◌∷◌, ◌++◌, Option, none, some, All, inl, inr,
  is_some, ltb, length, false, ◌≡◌, ◌≢◌, refl, sym, ◌∙◌, ap, arith, same, Bool-cases, ltb→lt,
  lt→ltb, eq_iff, eq_refl,
}
use mathlib.Core.List.{append-nil, append_assoc}
use elonew.Common.Errors.{ok, err}
use elonew.Chat.Thread.{
  ChatMessage, Chats, messages_of, take, reverse, after_message, last_id, page_of, from_cursor,
  list_messages,
}

-- No two messages have the same id.
unfoldable pub Distinct : List ChatMessage → Type 0
Distinct [] = Unit
Distinct (m ∷ ms) = All (λ f. f.id ≢ m.id) ms × Distinct ms

unfoldable drop : ℕ → List ChatMessage → List ChatMessage
drop zero ms = ms
drop (suc n) [] = []
drop (suc n) (m ∷ ms) = drop n ms

Distinct-drop : (n : ℕ) (ms : List ChatMessage) → Distinct ms → Distinct (drop n ms)
unfolding Distinct drop
Distinct-drop zero ms h = h
Distinct-drop (suc n) [] h = tt
Distinct-drop (suc n) (m ∷ ms) h = Distinct-drop n ms h.1

after-absent :
    (id : String) (ms : List ChatMessage) → All (λ f. f.id ≢ id) ms → after_message id ms ≡ none
unfolding after_message
after-absent id [] h = refl
after-absent id (m ∷ ms) h = elim (Bool-cases (same m.id id)) [
  | inl at ↦ absurd (h.0 ((eq_iff m.id id).0 at))
  | inr other ↦ rw other (after-absent id ms h.1)
]

after-tail :
    (id : String) (m : ChatMessage) (ms : List ChatMessage)
    → All (λ f. f.id ≢ m.id) ms
    → is_some (after_message id ms) ≡ true
    → after_message id (m ∷ ms) ≡ after_message id ms
unfolding after_message
after-tail id m ms fresh h = elim (Bool-cases (same m.id id)) [
  | inl at ↦
      let gone : after_message id ms ≡ none =
        rw (← ((eq_iff m.id id).0 at)) (after-absent m.id ms fresh) in
      absurd (cc (h, gone))
  | inr other ↦ rw other refl
]

after-drop :
    (id : String) (n : ℕ) (ms : List ChatMessage)
    → Distinct ms
    → is_some (after_message id (drop n ms)) ≡ true
    → after_message id ms ≡ after_message id (drop n ms)
unfolding Distinct drop
after-drop id zero ms h at = refl
after-drop id (suc n) [] h at = refl
after-drop id (suc n) (m ∷ ms) h at =
    let step = after-drop id n ms h.1 at in after-tail id m ms h.0 (ap is_some step ∙ at) ∙ step

-- After the last message of a page comes what the page has left out.
after-page :
    (n : ℕ) (ms : List ChatMessage)
    → Distinct ms
    → n < length ms
    → (id : String) × (last_id (take (suc n) ms) ≡ some id)
      × (after_message id ms ≡ some (drop (suc n) ms))
unfolding Distinct drop take last_id after_message
after-page n [] h le = absurd (omega arith)
after-page zero (m ∷ ms) h le = (m.id, refl, rw (eq_refl m.id) refl)
after-page (suc n) (m ∷ ms) h le =
    let (id, last, found) = after-page n ms h.1 (omega arith) in
    (id, rw last refl, after-tail id m ms h.0 (rw found refl) ∙ found)

reverse-drop :
    (n : ℕ) (ms : List ChatMessage) → reverse (drop n ms) ++ reverse (take n ms) ≡ reverse ms
unfolding reverse drop take
reverse-drop zero ms = append-nil (reverse ms)
reverse-drop (suc n) [] = refl
reverse-drop (suc n) (m ∷ ms) =
    sym (append_assoc (reverse (drop n ms)) (reverse (take n ms)) (m ∷ []))
    ∙ ap (λ r. r ++ (m ∷ [])) (reverse-drop n ms)

take-take : (n : ℕ) (ms : List ChatMessage) → take n (take (suc n) ms) ≡ take n ms
unfolding take
take-take zero ms = refl
take-take (suc n) [] = refl
take-take (suc n) (m ∷ ms) = ap (λ r. m ∷ r) (take-take n ms)

length-drop : (n : ℕ) (ms : List ChatMessage) → n ≤ length ms → length (drop n ms) + n ≡ length ms
unfolding drop
length-drop zero ms le = omega arith
length-drop (suc n) [] le = absurd (omega arith)
length-drop (suc n) (m ∷ ms) le = omega (arith, length-drop n ms (omega arith))

take-all : (n : ℕ) (ms : List ChatMessage) → length ms ≤ n → take n ms ≡ ms
unfolding take
take-all zero [] le = refl
take-all zero (m ∷ ms) le = absurd (omega arith)
take-all (suc n) [] le = refl
take-all (suc n) (m ∷ ms) le = rw (take-all n ms (omega arith))

-- The row beyond the page tells whether there is more.
more : (n : ℕ) (ms : List ChatMessage) → ltb n (length (take (suc n) ms)) ≡ ltb n (length ms)
unfolding take
more zero [] = refl
more zero (m ∷ ms) = ground arith
more (suc n) [] = refl
more (suc n) (m ∷ ms) = ground (arith, more n ms)

-- Page after page, from a cursor to the first message of the chat, the older ones before the newer.
unfoldable pub read_pages : ℕ → String → ℕ → Option String → Chats → List ChatMessage
read_pages zero chat limit cursor c = []
read_pages (suc n) chat limit cursor c = elim (list_messages chat limit cursor c).0 [
  | err e ↦ []
  | ok page ↦
      elim page.next_cursor [ none ↦ [] | some id ↦ read_pages n chat limit (some id) c ]
      ++ page.items
]

-- The rest of the chat that a cursor leads to.
unfoldable Rest : List ChatMessage → Option String → List ChatMessage → Type 0
Rest all cursor rows =
    (from_cursor cursor all ≡ some rows)
    × Distinct rows
    × ((id : String)
        → is_some (after_message id rows) ≡ true
        → after_message id all ≡ after_message id rows)

Rest-next :
    (all rows : List ChatMessage) (cursor : Option String) (n : ℕ)
    → Rest all cursor rows
    → n < length rows
    → (id : String) × (last_id (take (suc n) rows) ≡ some id)
      × Rest all (some id) (drop (suc n) rows)
unfolding Rest from_cursor
Rest-next all rows cursor n (found, distinct, same_rest) lt =
    let (id, last, after) = after-page n rows distinct lt in
    (
      id,
      last,
      (
        same_rest id (rw after refl) ∙ after,
        Distinct-drop (suc n) rows distinct,
        λ j at.
            let step = after-drop j (suc n) rows distinct at in
            same_rest j (ap is_some step ∙ at) ∙ step,
      ),
    )

page_of-next :
    (limit : ℕ) (rows : List ChatMessage) (id : String)
    → limit < length rows
    → last_id (take limit rows) ≡ some id
    → (page_of limit rows).next_cursor ≡ some id
unfolding page_of
page_of-next limit rows id lt last =
    rw (more limit rows, lt→ltb limit (length rows) lt, take-take limit rows) last

page_of-items :
    (limit : ℕ) (rows : List ChatMessage) → (page_of limit rows).items ≡ reverse (take limit rows)
unfolding page_of
page_of-items limit rows = rw (take-take limit rows) refl

page_of-last :
    (limit : ℕ) (rows : List ChatMessage)
    → ltb limit (length rows) ≡ false
    → page_of limit rows ≡ record { items = reverse rows; next_cursor = none }
unfolding page_of
page_of-last limit rows few =
    rw (more limit rows, few, take-take limit rows, take-all limit rows (ground (arith, few))) refl

list_messages-rows :
    (chat : String) (limit : ℕ) (cursor : Option String) (c : Chats) (rows : List ChatMessage)
    → from_cursor cursor (messages_of chat c) ≡ some rows
    → (list_messages chat limit cursor c).0 ≡ ok (page_of limit rows)
unfolding list_messages
list_messages-rows chat limit cursor c rows found = rw found refl

read_pages-Rest :
    (n : ℕ) (chat : String) (k : ℕ) (cursor : Option String) (c : Chats) (rows : List ChatMessage)
    → Rest (messages_of chat c) cursor rows
    → length rows ≤ n
    → read_pages n chat (suc k) cursor c ≡ reverse rows
unfolding read_pages reverse Rest
read_pages-Rest zero chat k cursor c [] rest le = refl
read_pages-Rest zero chat k cursor c (m ∷ ms) rest le = absurd (omega arith)
read_pages-Rest (suc n) chat k cursor c rows rest le =
    elim (Bool-cases (ltb (suc k) (length rows))) [
      | inl big ↦
          let (id, last, next) =
            Rest-next (messages_of chat c) rows cursor k rest
              (omega (arith, ltb→lt (suc k) (length rows) big)) in
          let few : length (drop (suc k) rows) ≤ n =
            omega
              (arith, length-drop (suc k) rows (omega (arith, ltb→lt (suc k) (length rows) big))) in
          rw
            (
              read_pages,
              list_messages-rows chat (suc k) cursor c rows rest.0,
              page_of-next (suc k) rows id (ltb→lt (suc k) (length rows) big) last,
              read_pages-Rest n chat k (some id) c (drop (suc k) rows) next few,
              page_of-items (suc k) rows,
            )
            (reverse-drop (suc k) rows)
      | inr few ↦
          rw
            (
              read_pages,
              list_messages-rows chat (suc k) cursor c rows rest.0,
              page_of-last (suc k) rows few,
            )
            refl
    ]

-- A reader who follows the cursors of a chat without two messages of one id, with pages of at least
-- one message, collects every message once, in the order in which they were sent: as many pages as
-- there are messages are enough.
pub read_pages_complete :
    (chat : String) (limit : ℕ) (c : Chats)
    → 1 ≤ limit
    → Distinct (messages_of chat c)
    → read_pages (length (messages_of chat c)) chat limit none c ≡ reverse (messages_of chat c)
unfolding Rest from_cursor
read_pages_complete chat zero c le distinct = absurd (omega arith)
read_pages_complete chat (suc k) c le distinct =
    read_pages-Rest (length (messages_of chat c)) chat k none c (messages_of chat c)
      (refl, distinct, λ id at. refl) (omega arith)
