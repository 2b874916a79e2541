-- ===== src/MessageHandler/Pages.antt =====
-- One page of older messages in terms of the rows of the table.
use mathlib.Core.List.{Permᴰ}
use mathlib.Core.List.Permᴰ
use digital_square.Base.{
  ℕ, zero, suc, ◌≤◌, ◌<◌, ltb, ◌≡◌, inl, inr, refl, sym, ap, ◌∙◌, Bool, Bool-cases, ◌&&◌, Option,
  none, some, List, [], ◌∷◌, ◌++◌, map, reverse, length, take, keep, All, All-imp, All-take, arith,
}
use digital_square.Base.Pairs.{
  All-map, AllPairs, AllPairs-keep, AllPairs-reverse, drop, keep_all, take-map,
}
use digital_square.Models.{Message}
use digital_square.Repository.{bare, IsNewestFirst, IsNewest, older, is_visible}
use digital_square.Repository.Order.{IsOther, newest_unique}
use digital_square.MessageHandler.{MessageData, filter_message, filter_messages}
use digital_square.MessageHandler.Client.{oldest}

-- `a` was inserted before `b`, and was sent before it.
abbrev pub IsEarlier : Message → Message → Type 0
IsEarlier a b = (a.id < b.id) × (a.created_at < b.created_at)

abbrev IsLater : Message → Message → Type 0
IsLater a b = IsEarlier b a

pub filter_messages-map :
    (is_admin : Bool) (msgs : List Message)
    → filter_messages is_admin msgs ≡ map (filter_message is_admin) msgs
unfolding filter_messages
filter_messages-map is_admin [] = refl
filter_messages-map is_admin (m ∷ msgs) =
    ap (λ l. filter_message is_admin m ∷ l) (filter_messages-map is_admin msgs)

filter_messages-bare :
    (is_admin : Bool) (msgs : List Message)
    → filter_messages is_admin (map bare msgs) ≡ filter_messages is_admin msgs
unfolding filter_messages filter_message
filter_messages-bare is_admin [] = refl
filter_messages-bare is_admin (m ∷ msgs) =
    ap (λ l. filter_message is_admin m ∷ l) (filter_messages-bare is_admin msgs)

IsLater-IsNewestFirst :
    (rows : List Message) → AllPairs IsLater rows → IsNewestFirst (map bare rows)
IsLater-IsNewestFirst [] h = tt
IsLater-IsNewestFirst (row ∷ rows) (p, h) = (
  (All-map bare (λ r. r.created_at ≤ row.created_at) rows).1
      (All-imp _ _ (λ r q. omega (arith, q.1)) rows p),
  IsLater-IsNewestFirst rows h,
)

IsLater-IsOther : (rows : List Message) → AllPairs IsLater rows → AllPairs IsOther (map bare rows)
IsLater-IsOther [] h = tt
IsLater-IsOther (row ∷ rows) (p, h) = (
  (All-map bare (IsOther (bare row)) rows).1
      (All-imp _ _ (λ r q same. omega (arith, q.1, same)) rows p),
  IsLater-IsOther rows h,
)

bare-IsNewestFirst : (rows : List Message) → IsNewestFirst rows → IsNewestFirst (map bare rows)
bare-IsNewestFirst [] h = tt
bare-IsNewestFirst (row ∷ rows) (p, h) =
    ((All-map bare (λ r. r.created_at ≤ row.created_at) rows).1 p, bare-IsNewestFirst rows h)

-- The items of a page, when the rows are in the order of their times.
pub page_items :
    (is_admin : Bool) (limit before : ℕ) (rows found : List Message)
    → AllPairs IsEarlier rows
    → IsNewest limit (older before rows) found
    → filter_messages is_admin found
      ≡ filter_messages is_admin (take limit (reverse (older before rows)))
page_items is_admin limit before rows found h (ordered, p, sorted, taken) =
    let all = reverse (older before rows) in
    let later : AllPairs IsLater all =
      AllPairs-reverse IsEarlier _ (AllPairs-keep IsEarlier _ rows h) in
    let same : map bare ordered ≡ map bare all =
      newest_unique (map bare all) (map bare ordered)
        (Permᴰ.trans (Permᴰ.map bare (Permᴰ.reverse (older before rows))) p)
        (IsLater-IsOther all later) (IsLater-IsNewestFirst all later)
        (bare-IsNewestFirst ordered sorted) in
    ap (filter_messages is_admin) taken
    ∙ sym (filter_messages-bare is_admin (take limit ordered))
    ∙ ap (filter_messages is_admin)
        (sym (take-map bare limit ordered) ∙ ap (take limit) same ∙ take-map bare limit all)
    ∙ filter_messages-bare is_admin (take limit all)

pub older-keep :
    (before next : ℕ) (rows : List Message)
    → next ≤ before
    → older next rows ≡ keep (λ row. ltb row.id next) (older before rows)
older-keep before next [] h = refl
older-keep before next (row ∷ rows) h = ground (arith, older-keep before next rows h)

pub older-below :
    (before : ℕ) (rows : List Message) → All (λ row. row.id < before) (older before rows)
older-below before [] = tt
older-below before (row ∷ rows) = elim (Bool-cases (is_visible row && ltb row.id before)) [
  | inl q ↦ rw q (ground (arith, q), older-below before rows)
  | inr q ↦ rw q (older-below before rows)
]

abbrev pub last_id : List Message → Option ℕ
last_id [] = none
last_id (row ∷ []) = some row.id
last_id (row ∷ rows) = last_id rows

pub oldest-filter_message :
    (is_admin : Bool) (rows : List Message)
    → oldest (map (filter_message is_admin) rows) ≡ last_id rows
unfolding filter_message
oldest-filter_message is_admin [] = refl
oldest-filter_message is_admin (row ∷ []) = elim (Bool-cases row.deleted_at.valid) [
  | inr kept ↦ rw kept refl
  | inl deleted ↦
      rw deleted
        (elim (Bool-cases is_admin) [ inl known ↦ rw known refl | inr unknown ↦ rw unknown refl ])
]
oldest-filter_message is_admin (row ∷ next ∷ rows) = oldest-filter_message is_admin (next ∷ rows)

pub oldest-append :
    (shown items : List MessageData) (id : ℕ)
    → oldest items ≡ some id
    → oldest (shown ++ items) ≡ some id
oldest-append [] items id h = h
oldest-append (d ∷ []) [] id h = cc h
oldest-append (d ∷ []) (item ∷ items) id h = h
oldest-append (d ∷ e ∷ shown) items id h = oldest-append (e ∷ shown) items id h

pub last_id-below :
    (bound id : ℕ) (rows : List Message)
    → All (λ row. row.id < bound) rows
    → last_id rows ≡ some id
    → id < bound
last_id-below bound id [] h is_last = cc is_last
last_id-below bound id (row ∷ []) (p, h) is_last =
    let same : row.id ≡ id = cc is_last in omega (arith, p, same)
last_id-below bound id (row ∷ next ∷ rows) (p, h) is_last =
    last_id-below bound id (next ∷ rows) h is_last

all_below :
    (row : Message) (rows : List Message)
    → All (IsLater row) rows
    → keep (λ r. ltb r.id row.id) (row ∷ rows) ≡ rows
all_below row rows h =
    let rest : keep (λ r. ltb r.id row.id) rows ≡ rows =
      keep_all (λ r. ltb r.id row.id) rows (All-imp _ _ (λ r q. ground (arith, q.0)) rows h) in
    ground (arith, rest)

skip_above :
    (id : ℕ) (row : Message) (rows tail : List Message)
    → id < row.id
    → keep (λ r. ltb r.id id) rows ≡ tail
    → keep (λ r. ltb r.id id) (row ∷ rows) ≡ tail
skip_above id row rows tail above h = ground (arith, h)

-- A full page of rows has a last one, and the rows below its id are those behind the page.
pub last_of_full :
    (n : ℕ) (rows : List Message)
    → length (take (suc n) rows) ≡ suc n
    → AllPairs IsLater rows
    → (id : ℕ) × (last_id (take (suc n) rows) ≡ some id)
      × (keep (λ row. ltb row.id id) rows ≡ drop (suc n) rows)
last_of_full n [] full h = absurd (omega (arith, full))
last_of_full zero (row ∷ rows) full (p, h) = (row.id, refl, all_below row rows p)
last_of_full (suc n) (row ∷ []) full h = absurd (omega (arith, full))
last_of_full (suc n) (row ∷ next ∷ rows) full (p, h) =
    let (id, is_last, rest) = last_of_full n (next ∷ rows) (omega (arith, full)) h in
    let below : All (λ r. r.id < row.id) (next ∷ rows) = All-imp _ _ (λ r q. q.0) (next ∷ rows) p in
    let above =
      last_id-below row.id id (take (suc n) (next ∷ rows)) (All-take _ (suc n) (next ∷ rows) below)
        is_last in
    (id, is_last, skip_above id row (next ∷ rows) _ above rest)
