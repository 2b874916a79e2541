-- ===== src/MessageHandler/Paging.antt =====
-- Scrolling back through the history: what a client that asks for one page after the other gets
-- from message_handler.go, message_service.go and message_repository.go.
use digital_square.Base.{
  ℕ, zero, suc, ◌≤◌, leb, ◌≡◌, inl, inr, refl, sym, ap, subst, ◌∙◌, Bool, true, false, Bool-cases,
  Option-cases, some, List, append-nil, reverse, length, length-map, length-take, take, ◌==◌, arith,
  if◌then◌else◌,
}
use digital_square.Base.Pairs.{AllPairs}
use digital_square.Errors.{ok}
use digital_square.Models.{Message, role_admin}
use digital_square.Auth.{Claims}
use digital_square.Repository
use digital_square.Repository.{IsMessageTable, bare, IsNewestFirst, IsNewest, older, is_visible}
use digital_square.MessageService
use digital_square.MessageService.{Parts, State, send_message}
use digital_square.MessageHandler.{MessageData, page_size, filter_message, filter_messages, page}
use digital_square.MessageHandler.Client.{Client, oldest, show, ask, load_older, load}
use digital_square.MessageHandler.Pages.{
  IsEarlier, last_id, page_items, oldest-filter_message, oldest-append, filter_messages-map,
}
use digital_square.MessageHandler.Scroll.{
  behind, filter_messages-take, filter_messages-drop, full_page, short_page, IsScrolled,
}

module _ (P : Parts) (rows : P.table.State → List Message) (L : IsMessageTable P.table rows)
    (claims : Claims) where
  abbrev is_admin : Bool
  is_admin = claims.role == role_admin

  -- All that is older, as it is shown to the client.
  abbrev pub history : ℕ → List Message → List MessageData
  history before all = filter_messages is_admin (reverse (older before all))

  loaded :
      (c : Client) (s : State P) (before : ℕ) (found : List Message)
      → AllPairs IsEarlier (rows s.db)
      → c.has_more ≡ true
      → oldest c.messages ≡ some before
      → (P.table.find_before before page_size s.db).0 ≡ ok found
      → (load_older P claims c s).0
        ≡ show c (inr (page (take page_size (history before (rows s.db)))))
  unfolding load_older MessageService.get_messages_before Repository.get_messages_before
  loaded c s before found ordered more at got =
      let items =
        page_items is_admin page_size before (rows s.db) found ordered
          (L.before_newest before page_size s.db found got) in
      let same =
        items ∙ filter_messages-take is_admin page_size (reverse (older before (rows s.db))) in
      rw more (rw at (rw got (ap (λ d. show c (inr (page d))) same)))

  loaded_reads : (c : Client) (s : State P) → rows (load_older P claims c s).1.db ≡ rows s.db
  unfolding load_older MessageService.get_messages_before Repository.get_messages_before
  loaded_reads c s = elim (Bool-cases c.has_more) [
    | inr no_more ↦ rw no_more refl
    | inl more ↦ elim (Option-cases (oldest c.messages)) [
      | inl empty ↦ rw more (rw empty refl)
      | inr (id, at) ↦ rw more (rw at (L.before_reads id page_size s.db))
    ]
  ]

  stops : (n : ℕ) (c : Client) (s : State P) → c.has_more ≡ false → load P claims n c s ≡ (c, s)
  unfolding load load_older
  stops zero c s h = refl
  stops (suc n) c s h =
      let same = ap (λ b. if b then ask P claims c (oldest c.messages) s else (c, s)) h in
      ap (λ x. load P claims n x.0 x.1) same ∙ stops n c s h

  length-history :
      (before : ℕ) (all : List Message)
      → length (history before all) ≡ length (reverse (older before all))
  length-history before all =
      ap length (filter_messages-map is_admin (reverse (older before all)))
      ∙ length-map (filter_message is_admin) (reverse (older before all))

  oldest-page :
      (before id : ℕ) (all : List Message)
      → last_id (take page_size (reverse (older before all))) ≡ some id
      → oldest (take page_size (history before all)) ≡ some id
  oldest-page before id all is_last =
      let rows_taken = take page_size (reverse (older before all)) in
      ap oldest (
        sym (filter_messages-take is_admin page_size (reverse (older before all)))
        ∙ filter_messages-map is_admin rows_taken)
      ∙ oldest-filter_message is_admin rows_taken
      ∙ is_last

  next_loads :
      (n : ℕ) (c c' end : Client) (before : ℕ) (all : List Message)
      → AllPairs IsEarlier all
      → c' ≡ show c (inr (page (take page_size (history before all))))
      → ((id : ℕ)
          → c'.has_more ≡ true
          → oldest c'.messages ≡ some id
          → IsScrolled (history id all) c' n end)
      → (c'.has_more ≡ false → end ≡ c')
      → IsScrolled (history before all) c (suc n) end
  next_loads n c c' end before all ordered step again stopped =
      let whole = history before all in
      let taken = length-take page_size whole in
      elim (Bool-cases (leb page_size (length whole))) [
        | inr short ↦
            let last : c'.has_more ≡ false =
              ap (λ d. d.has_more) step ∙ ground (arith, taken, short) in
            short_page n whole c end (stopped last ∙ step) (ground (arith, short))
        | inl full ↦
            let count = length-history before all in
            let cut = length-take page_size (reverse (older before all)) in
            let enough : page_size ≤ length whole = ground (arith, full) in
            let (id, is_last, rest) =
              behind before all ordered (omega (arith, count, cut, enough)) in
            let more : c'.has_more ≡ true =
              ap (λ d. d.has_more) step ∙ ground (arith, taken, full) in
            let at : oldest c'.messages ≡ some id =
              ap (λ d. oldest d.messages) step
              ∙ oldest-append c.messages (take page_size whole) id
                  (oldest-page before id all is_last) in
            let tail =
              ap (filter_messages is_admin) rest
              ∙ filter_messages-drop is_admin page_size (reverse (older before all)) in
            full_page n whole (history id all) c c' end step enough tail (again id more at)
      ]

  module _
      (available : (before : ℕ) (t : P.table.State)
        → (found : List Message) × ((P.table.find_before before page_size t).0 ≡ ok found)) where
    -- When every query succeeds and the rows stand in the order of their ids and of their times,
    -- `n` loads of older messages append to what is shown exactly the `n` times 50 newest of the
    -- visible rows that are older than the last one shown, newest first, as the role may see them.
    -- The server says that there may be more exactly if there are at least `n` times 50 of them.
    pub load_shows :
        (n : ℕ) (c : Client) (s : State P) (before : ℕ)
        → AllPairs IsEarlier (rows s.db)
        → c.has_more ≡ true
        → oldest c.messages ≡ some before
        → IsScrolled (history before (rows s.db)) c n (load P claims n c s).0
    unfolding load
    load_shows zero c s before ordered more at = (sym (append-nil c.messages), more ∙ ground arith)
    load_shows (suc n) c s before ordered more at =
        let (found, got) = available before s.db in
        let step = loaded c s before found ordered more at got in
        let kept = loaded_reads c s in
        let (c', s') = load_older P claims c s in
        next_loads n c c' (load P claims n c' s').0 before (rows s.db) ordered step
          (λ id more' at'.
            subst (λ all. IsScrolled (history id all) c' n (load P claims n c' s').0) kept
              (load_shows n c' s' id (subst (AllPairs IsEarlier) (sym kept) ordered) more' at'))
          (λ done. ap (λ x. x.0) (stops n c' s' done))
