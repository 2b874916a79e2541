-- ===== src/MessageHandler/SentIds.antt =====
-- Asking for the messages before one that was just sent: message_service.go gives it no number,
-- and message_handler.go is asked with the number that the client was told.
use digital_square.Base.{
  String, ◌≡◌, inr, refl, ap, ◌∙◌, some, List, [], ◌∷◌, map, take, All, arith,
}
use digital_square.Base.Pairs.{All-Perm}
use digital_square.Errors.{ok}
use digital_square.Models.{Uuid, Time, Message}
use digital_square.Auth.{Claims}
use digital_square.Repository
use digital_square.Repository.{IsMessageTable, bare, IsNewestFirst, IsNewest, older, is_visible}
use digital_square.MessageService
use digital_square.MessageService.{Parts, State, send_message}
use digital_square.MessageService.Send.{send_message_effect}
use digital_square.Wal.{WriteFaults}
use digital_square.MessageHandler.{page_size, filter_messages, get_before, parse_uint, page}

module _ (P : Parts) (rows : P.table.State → List Message) (L : IsMessageTable P.table rows) where
  older_zero : (all : List Message) → older 0 all ≡ []
  older_zero [] = refl
  older_zero (row ∷ all) = ground (arith, older_zero all)

  none_left : (found : List Message) → All (λ row. ⊥) (map bare found) → found ≡ []
  none_left [] h = refl
  none_left (row ∷ found) (h, _) = absurd h

  -- Whoever asks for the messages before the number that a message has when it was just accepted
  -- gets, if the query succeeds, an empty page and that there are no more, whatever the table
  -- holds.
  pub get_before-send_message :
      (fresh : Uuid) (now : Time) (f : WriteFaults) (author : Uuid) (username content : String)
      (s t : State P) (msg : Message) (claims : Claims) (id : String) (found : List Message)
      → (send_message P fresh now f author username content s).0 ≡ ok msg
      → parse_uint id ≡ some msg.id
      → (P.table.find_before 0 page_size t.db).0 ≡ ok found
      → (get_before P (some claims) id t).0 ≡ inr (page [])
  unfolding filter_messages get_before MessageService.get_messages_before
      Repository.get_messages_before
  get_before-send_message fresh now f author username content s t msg claims id found done parsed
        got =
      let (new, _, _) = send_message_effect P fresh now f author username content s msg done in
      let zero_id : msg.id ≡ 0 = ap (λ m. m.id) new in
      let (ordered, p, _, taken) = L.before_newest 0 page_size t.db found got in
      let none_older : All (λ row. ⊥) (map bare (older 0 (rows t.db))) =
        rw (older_zero (rows t.db)) tt in
      let empty = none_left ordered (All-Perm (λ row. ⊥) p none_older) in
      let nothing : found ≡ [] = taken ∙ ap (take page_size) empty in
      rw parsed (rw zero_id (rw got (rw nothing refl)))
