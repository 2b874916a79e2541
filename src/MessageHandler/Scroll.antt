-- ===== src/MessageHandler/Scroll.antt =====
-- From one page of older messages to the next.
use digital_square.Base.{
  ℕ, suc, ◌+◌, ◌*◌, ◌≤◌, ◌<◌, ◌=?◌, leb, ltb, ◌≡◌, inr, sym, ap, ◌∙◌, Bool, some, List, ◌++◌,
  append_assoc, reverse, length, take, take_all, All-take, arith,
}
use digital_square.Base.Pairs.{
  All-reverse, AllPairs, AllPairs-keep, AllPairs-reverse, drop, take_sum, length-drop, keep-reverse,
  take-map, drop-map,
}
use digital_square.Models.{Message}
use digital_square.Repository.{older}
use digital_square.MessageHandler.{MessageData, page_size, filter_message, filter_messages, page}
use digital_square.MessageHandler.Client.{Client, show}
use digital_square.MessageHandler.Pages.{
  IsEarlier, last_id, older-keep, older-below, last_id-below, last_of_full, filter_messages-map,
}

-- What is left of the rows behind a full page.
pub behind :
    (before : ℕ) (rows : List Message)
    → AllPairs IsEarlier rows
    → length (take page_size (reverse (older before rows))) ≡ page_size
    → (id : ℕ) × (last_id (take page_size (reverse (older before rows))) ≡ some id)
      × (reverse (older id rows) ≡ drop page_size (reverse (older before rows)))
behind before rows h full =
    let all = reverse (older before rows) in
    let (id, is_last, rest) =
      last_of_full 49 all full (AllPairs-reverse IsEarlier _ (AllPairs-keep IsEarlier _ rows h)) in
    let below =
      last_id-below before id (take page_size all)
        (All-take _ page_size all (All-reverse _ _ (older-below before rows))) is_last in
    (
      id,
      is_last,
      ap reverse (older-keep before id rows (omega (arith, below)))
          ∙ sym (keep-reverse (λ row. ltb row.id id) (older before rows))
          ∙ rest,
    )

pub filter_messages-take :
    (is_admin : Bool) (n : ℕ) (msgs : List Message)
    → filter_messages is_admin (take n msgs) ≡ take n (filter_messages is_admin msgs)
filter_messages-take is_admin n msgs =
    filter_messages-map is_admin (take n msgs)
    ∙ sym (take-map (filter_message is_admin) n msgs)
    ∙ ap (take n) (sym (filter_messages-map is_admin msgs))

pub filter_messages-drop :
    (is_admin : Bool) (n : ℕ) (msgs : List Message)
    → filter_messages is_admin (drop n msgs) ≡ drop n (filter_messages is_admin msgs)
filter_messages-drop is_admin n msgs =
    filter_messages-map is_admin (drop n msgs)
    ∙ sym (drop-map (filter_message is_admin) n msgs)
    ∙ ap (drop n) (sym (filter_messages-map is_admin msgs))

-- What `n` loads show of the items `whole`.
abbrev pub IsScrolled : List MessageData → Client → ℕ → Client → Type 0
IsScrolled whole c n end =
    (end.messages ≡ c.messages ++ take (n * page_size) whole)
    × (end.has_more ≡ leb (n * page_size) (length whole))

pub full_page :
    (n : ℕ) (whole tail : List MessageData) (c c' end : Client)
    → c' ≡ show c (inr (page (take page_size whole)))
    → page_size ≤ length whole
    → tail ≡ drop page_size whole
    → IsScrolled tail c' n end
    → IsScrolled whole c (suc n) end
full_page n whole tail c c' end same full rest (shown, more) =
    let one_more : page_size + n * page_size ≡ suc n * page_size = omega arith in
    let left = ap length rest ∙ length-drop page_size whole in
    (
      shown
          ∙ ap (λ d. d.messages ++ take (n * page_size) tail) same
          ∙ ap (λ t. (c.messages ++ take page_size whole) ++ take (n * page_size) t) rest
          ∙ append_assoc c.messages (take page_size whole)
              (take (n * page_size) (drop page_size whole))
          ∙ ap (λ l. c.messages ++ l) (sym (take_sum page_size (n * page_size) whole))
          ∙ ap (λ k. c.messages ++ take k whole) one_more,
      more ∙ ground (arith, left),
    )

pub short_page :
    (n : ℕ) (whole : List MessageData) (c end : Client)
    → end ≡ show c (inr (page (take page_size whole)))
    → length whole < page_size
    → IsScrolled whole c (suc n) end
short_page n whole c end same short =
    let all : take (suc n * page_size) whole ≡ whole =
      take_all (suc n * page_size) whole (omega arith) in
    let once : take page_size whole ≡ whole = take_all page_size whole (omega arith) in
    (
      ap (λ d. d.messages) same ∙ ap (λ l. c.messages ++ l) (once ∙ sym all),
      ap (λ d. d.has_more) same ∙ ap (λ l. length l =? page_size) once ∙ ground arith,
    )
