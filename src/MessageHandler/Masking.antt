-- ===== src/MessageHandler/Masking.antt =====
-- What a page of older messages shows of deleted ones.
use digital_square.Base.{
  ℕ, String, ◌≡◌, ◌⊎◌, inr, refl, subst, Bool, true, false, Option, none, some, List, [], ◌∷◌, All,
  ◌==◌,
}
use digital_square.Errors.{Result, ok, err}
use digital_square.Models.{Message, role_admin}
use digital_square.Auth.{Claims}
use digital_square.Repository
use digital_square.Repository.{IsMessageTable}
use digital_square.Repository.Order.{IsNewest-visible}
use digital_square.MessageService
use digital_square.MessageService.{Parts, State}
use digital_square.MessageHandler.{
  Page, page_size, filter_message, filter_messages, get_before, parse_uint, or_page, or_fetch, page,
}

-- The messages differ at most in the text of a deleted one, and in who deleted it.
abbrev pub Similar : Message → Message → Type 0
Similar a b =
    (a ≡ b)
    ⊎ ((a.deleted_at.valid ≡ true)
        × (b ≡ record a { content = b.content; deleted_by = b.deleted_by }))

abbrev pub AllSimilar : List Message → List Message → Type 0
AllSimilar [] [] = Unit
AllSimilar (a ∷ as_) (b ∷ bs) = Similar a b × AllSimilar as_ bs
AllSimilar _ _ = ⊥

shown :
    (is_admin : Bool) (msgs : List Message)
    → All (λ m. m.deleted_at.valid ≡ false) msgs
    → All (λ d. (d.deleted ≡ false) × (d.deleted_by ≡ none)) (filter_messages is_admin msgs)
unfolding filter_messages filter_message
shown is_admin [] h = tt
shown is_admin (m ∷ msgs) (p, h) = (rw p (refl, refl), shown is_admin msgs h)

module _ (P : Parts) (rows : P.table.State → List Message) (L : IsMessageTable P.table rows) where
  or_page-shown :
      (is_admin : Bool) (r : Result (List Message)) (p : Page)
      → ((found : List Message) → r ≡ ok found → All (λ m. m.deleted_at.valid ≡ false) found)
      → or_page is_admin r ≡ inr p
      → All (λ d. (d.deleted ≡ false) × (d.deleted_by ≡ none)) p.messages
  or_page-shown is_admin (err e) p visible h = cc h
  or_page-shown is_admin (ok found) p visible h =
      let same : page (filter_messages is_admin found) ≡ p = cc h in
      subst (λ q. All (λ d. (d.deleted ≡ false) × (d.deleted_by ≡ none)) q.messages) same
        (shown is_admin found (visible found refl))

  or_fetch-shown :
      (claims : Claims) (id : Option ℕ) (s : State P) (p : Page)
      → (or_fetch P claims id s).0 ≡ inr p
      → All (λ d. (d.deleted ≡ false) × (d.deleted_by ≡ none)) p.messages
  unfolding MessageService.get_messages_before Repository.get_messages_before
  or_fetch-shown claims none s p h = cc h
  or_fetch-shown claims (some id) s p h =
      or_page-shown (claims.role == role_admin) (P.table.find_before id page_size s.db).0 p
        (λ found got.
          IsNewest-visible page_size id (rows s.db) found
            (L.before_newest id page_size s.db found got))
        h

  -- No page of older messages that a user with claims gets has a deleted message, not even for an
  -- admin.
  pub get_before_shows :
      (claims : Claims) (id : String) (s : State P) (p : Page)
      → (get_before P (some claims) id s).0 ≡ inr p
      → All (λ d. (d.deleted ≡ false) × (d.deleted_by ≡ none)) p.messages
  unfolding get_before
  get_before_shows claims id s p h = or_fetch-shown claims (parse_uint id) s p h
