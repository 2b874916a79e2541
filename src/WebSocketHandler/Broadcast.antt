-- ===== src/WebSocketHandler/Broadcast.antt =====
-- Who is told what about a message.
use digital_square.Base.{
  ℕ, String, ◌==◌, ◌≡◌, ◌≢◌, ◌⊎◌, inl, inr, refl, sym, ap, ◌∙◌, Bool, false, List, [], ◌∷◌, ◌++◌,
  map, keep, append_assoc, append-nil, eq_iff, Bool-cases,
}
use digital_square.Errors.{Error, text, Result, ok, err}
use digital_square.Action.{Result-cases}
use digital_square.Models.{Uuid, Time, Message, role_admin}
use digital_square.Wal.{WriteFaults}
use digital_square.MessageService
use digital_square.MessageService.{Parts, State}
use digital_square.MessageHandler.Masking.{Similar, AllSimilar}
use digital_square.WebSocketHandler.{
  WsRequest, WsResponse, Client, Hub, Server, write_json, ack_response, error_response, write_each,
  broadcast_to_all, broadcast_delete_event, deleted_response, message_response, delete_success,
  send_ack, send_error, sent, deleted_by, handle_send_message, handle_delete_message,
  initial_response,
}

not_equal : (a b : String) → a ≢ b → (a == b) ≡ false
not_equal a b h = elim (Bool-cases (a == b)) [
  | inl same ↦ absurd (h ((eq_iff a b).0 same))
  | inr other ↦ other
]

-- What these clients get when a response is written to each of them whose connection works.
abbrev pub deliveries : (ℕ → Bool) → List Client → WsResponse → List (ℕ × WsResponse)
deliveries works clients r = map (λ c. (c.conn, r)) (keep (λ c. works c.conn) clients)

-- The hub after more was written; its clients and their connections stay.
abbrev pub with_more : Hub → List (ℕ × WsResponse) → Hub
with_more hub more = record hub { outbox = hub.outbox ++ more }

pub with_more-append :
    (hub : Hub) (a b : List (ℕ × WsResponse))
    → with_more (with_more hub a) b ≡ with_more hub (a ++ b)
with_more-append hub a b = ap (λ o. record hub { outbox = o }) (append_assoc hub.outbox a b)

pub write_each-deliveries :
    (clients : List Client) (r : WsResponse) (hub : Hub)
    → write_each clients r hub ≡ with_more hub (deliveries hub.works clients r)
unfolding write_each
write_each-deliveries [] r hub = sym (ap (λ o. record hub { outbox = o }) (append-nil hub.outbox))
write_each-deliveries (c ∷ clients) r hub = elim (Bool-cases (hub.works c.conn)) [
  | inr broken ↦ rw broken (write_each-deliveries clients r hub)
  | inl works ↦
      let one = with_more hub ((c.conn, r) ∷ []) in
      rw works (
        write_each-deliveries clients r one
        ∙ with_more-append hub ((c.conn, r) ∷ []) (deliveries hub.works clients r))
]

write_json-deliveries :
    (client : Client) (r : WsResponse) (hub : Hub)
    → write_json client.conn r hub ≡ with_more hub (deliveries hub.works (client ∷ []) r)
unfolding write_each
write_json-deliveries client r hub = write_each-deliveries (client ∷ []) r hub

-- To write to each of some clients and then to one.
write_both :
    (clients : List Client) (client : Client) (r r' : WsResponse) (hub : Hub)
    → write_json client.conn r' (write_each clients r hub)
      ≡ with_more hub (deliveries hub.works clients r ++ deliveries hub.works (client ∷ []) r')
write_both clients client r r' hub =
    ap (write_json client.conn r') (write_each-deliveries clients r hub)
    ∙ write_json-deliveries client r' (with_more hub (deliveries hub.works clients r))
    ∙ with_more-append hub (deliveries hub.works clients r) (deliveries hub.works (client ∷ []) r')

module _ (P : Parts) (format : Time → String) where
  module _ (fresh : Uuid) (now : Time) (faults : WriteFaults) (client : Client) (req : WsRequest)
      (server : Server P) (given : req.content ≢ "") where
    abbrev sending : Result Message × State P
    sending =
        MessageService.send_message P fresh now faults client.user_id client.username req.content
          server.service

    abbrev after_send : Server P
    after_send = handle_send_message P format fresh now faults client req server

    -- When the text is not empty and the service takes the message, every client that is connected
    -- and can be written to gets it, and then its sender is told its id; nothing else is written.
    pub handle_send_message_tells :
        (msg : Message)
        → sending.0 ≡ ok msg
        → after_send.hub
          ≡ with_more server.hub (
              deliveries server.hub.works server.hub.clients (message_response P format client msg)
              ++ deliveries server.hub.works
                  (client ∷ [])
                  (ack_response req.temp_id msg.message_id "success" ""))
    unfolding handle_send_message send_ack broadcast_to_all
    handle_send_message_tells msg accepted =
        let not_empty : (req.content == "") ≡ false = not_equal req.content "" given in
        rw not_empty (
          ap (λ r. sent P format client req r server.hub) accepted
          ∙ write_both server.hub.clients client (message_response P format client msg)
              (ack_response req.temp_id msg.message_id "success" "") server.hub)

    -- When the service refuses it, only its sender is told anything, and that is an error.
    handle_send_message_refuses :
        (e : Error)
        → sending.0 ≡ err e
        → after_send.hub
          ≡ with_more server.hub (
              deliveries server.hub.works
                (client ∷ [])
                (ack_response req.temp_id "" "error" "failed to write to WAL"))
    unfolding handle_send_message send_ack
    handle_send_message_refuses e refused =
        let not_empty : (req.content == "") ≡ false = not_equal req.content "" given in
        rw not_empty (
          ap (λ r. sent P format client req r server.hub) refused
          ∙ write_json-deliveries client
              (ack_response req.temp_id "" "error" "failed to write to WAL") server.hub)

  module _ (now : Time) (client : Client) (req : WsRequest) (server : Server P)
      (given : req.message_id ≢ "") where
    abbrev deleting : Result (Unit {0}) × State P
    deleting =
        MessageService.delete_message P now req.message_id client.user_id
          (client.role == role_admin) server.service

    abbrev after_delete : Server P
    after_delete = handle_delete_message P format now client req server

    -- When a request names a message and the service deletes it, every client that can be written
    -- to is told so, and then the one who asked; when the service refuses, only he is told, and
    -- what the reason is.
    handle_delete_message_tells :
        ((deleting.0 ≡ ok tt)
          × (after_delete.hub
              ≡ with_more server.hub (
                  deliveries server.hub.works server.hub.clients
                    (deleted_response req.message_id (client.role == role_admin))
                  ++ deliveries server.hub.works
                      (client ∷ [])
                      (delete_success P format req.message_id))))
        ⊎ ((e : Error) × (deleting.0 ≡ err e)
            × (after_delete.hub
                ≡ with_more server.hub
                    (deliveries server.hub.works (client ∷ []) (error_response (text e)))))
    unfolding handle_delete_message broadcast_delete_event send_error
    handle_delete_message_tells =
        let not_empty : (req.message_id == "") ≡ false = not_equal req.message_id "" given in
        elim (Result-cases deleting.0) [
          | inl (_, done) ↦ inl (
            done,
            rw not_empty (
                ap
                  (λ r.
                    deleted_by P format client req.message_id (client.role == role_admin) r
                      server.hub)
                  done
                ∙ write_both server.hub.clients client
                    (deleted_response req.message_id (client.role == role_admin))
                    (delete_success P format req.message_id) server.hub),
          )
          | inr (e, refused) ↦ inr (
            e,
            refused,
            rw not_empty (
                ap
                  (λ r.
                    deleted_by P format client req.message_id (client.role == role_admin) r
                      server.hub)
                  refused
                ∙ write_json-deliveries client (error_response (text e)) server.hub),
          )
        ]

  initial_response_hides :
      (a b : Message)
      → Similar a b
      → initial_response P format false a ≡ initial_response P format false b
  unfolding initial_response
  initial_response_hides a b (inl same) = ap (initial_response P format false) same
  initial_response_hides a b (inr (deleted, same)) =
      rw deleted refl ∙ sym (ap (initial_response P format false) same)

  -- What a client who is no admin is sent of the history is the same whatever the texts of the
  -- deleted messages are and whoever deleted them.
  initial_responses_hide :
      (msgs others : List Message)
      → AllSimilar msgs others
      → map (initial_response P format false) msgs ≡ map (initial_response P format false) others
  initial_responses_hide [] [] h = refl
  initial_responses_hide [] (b ∷ bs) h = absurd h
  initial_responses_hide (a ∷ msgs) [] h = absurd h
  initial_responses_hide (a ∷ msgs) (b ∷ others) (p, h) =
      λ i. initial_response_hides a b p i ∷ initial_responses_hide msgs others h i
