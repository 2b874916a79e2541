-- ===== src/WebSocketHandler/Events.antt =====
-- The hub of websocket_handler.go over any sequence of what its goroutines do.
use digital_square.Base.{
  ℕ, String, ◌==◌, ◌=?◌, ◌≡◌, inl, inr, refl, ap, ◌∙◌, Bool, true, false, Bool-cases, List, [], ◌∷◌,
  ◌++◌, append-nil, arith,
}
use digital_square.Errors.{Result, ok, err}
use digital_square.Models.{Uuid, Time, Message}
use digital_square.Wal.{WriteFaults}
use digital_square.MessageService.{Parts}
use digital_square.WebSocketHandler.{
  WsRequest, WsResponse, Client, Hub, Server, write_json, write_each, broadcast_to_all,
  broadcast_delete_event, send_ack, send_error, sent, deleted_by, type_send, type_delete,
  handle_send_message, handle_delete_message, handle_request, write_history, history,
  send_initial_messages, connect, remove_client, close_client_gracefully, message_response,
}
use digital_square.WebSocketHandler.Order.{received, received-append}

module _ (P : Parts) (format : Time → String) where
  -- What the goroutines do to the server, in the order in which they do it.
  pub data HubEvent : Type 0 where
    arrives : Client → HubEvent
    asks : Uuid → Time → WriteFaults → Client → WsRequest → HubEvent
    catches_up : Client → HubEvent
    expires : Client → String → HubEvent
    leaves : ℕ → HubEvent

  abbrev pub run_event : HubEvent → Server P → Server P
  run_event (arrives client) server = record server { hub = connect client server.hub }
  run_event (asks fresh now faults client req) server =
      handle_request P format fresh now faults client req server
  run_event (catches_up client) server = send_initial_messages P format client server
  run_event (expires client reason) server = record server {
    hub = close_client_gracefully client reason server.hub;
  }
  run_event (leaves conn) server = record server { hub = remove_client conn server.hub }

  unfoldable pub run_events : List HubEvent → Server P → Server P
  run_events [] server = server
  run_events (e ∷ events) server = run_events events (run_event e server)

  -- Only connections that work were written to.
  pub record IsWritten (h h' : Hub) : Type 0 where
    pub clients : h'.clients ≡ h.clients
    pub works : h'.works ≡ h.works
    pub silent :
        (conn : ℕ) → h.works conn ≡ false → received conn h'.outbox ≡ received conn h.outbox

  IsWritten-refl : (h : Hub) → IsWritten h h
  IsWritten-refl h = record { clients = refl; works = refl; silent = λ conn broken. refl }

  IsWritten-trans : (a b c : Hub) → IsWritten a b → IsWritten b c → IsWritten a c
  IsWritten-trans a b c p q = record {
    clients = q.clients ∙ p.clients;
    works = q.works ∙ p.works;
    silent =
        λ conn broken. q.silent conn (ap (λ w. w conn) p.works ∙ broken) ∙ p.silent conn broken;
  }

  received-other :
      (conn c : ℕ) (r : WsResponse) (works : ℕ → Bool) (outbox : List (ℕ × WsResponse))
      → works c ≡ true
      → works conn ≡ false
      → received conn (outbox ++ (c, r) ∷ []) ≡ received conn outbox
  received-other conn c r works outbox up down = elim (Bool-cases (c =? conn)) [
    | inl same ↦ let e : c ≡ conn = ground (arith, same) in cc (up, down, ap works e)
    | inr other ↦
        let nothing : received conn ((c, r) ∷ []) ≡ [] = rw other refl in
        received-append conn outbox ((c, r) ∷ [])
        ∙ ap (λ l. received conn outbox ++ l) nothing
        ∙ append-nil (received conn outbox)
  ]

  pub write_json-IsWritten : (c : ℕ) (r : WsResponse) (h : Hub) → IsWritten h (write_json c r h)
  write_json-IsWritten c r h = elim (Bool-cases (h.works c)) [
    | inr broken ↦ rw broken (IsWritten-refl h)
    | inl up ↦ rw up (record {
      clients = refl;
      works = refl;
      silent = λ conn down. received-other conn c r h.works h.outbox up down;
    })
  ]

  write_each-IsWritten :
      (clients : List Client) (r : WsResponse) (h : Hub) → IsWritten h (write_each clients r h)
  unfolding write_each
  write_each-IsWritten [] r h = IsWritten-refl h
  write_each-IsWritten (c ∷ clients) r h =
      let one = write_json c.conn r h in
      IsWritten-trans h one (write_each clients r one) (write_json-IsWritten c.conn r h)
        (write_each-IsWritten clients r one)

  sent-IsWritten :
      (client : Client) (req : WsRequest) (r : Result Message) (h : Hub)
      → IsWritten h (sent P format client req r h)
  unfolding send_ack broadcast_to_all
  sent-IsWritten client req (err e) h = write_json-IsWritten client.conn _ h
  sent-IsWritten client req (ok msg) h =
      let told = broadcast_to_all (message_response P format client msg) h in
      IsWritten-trans h told _ (write_each-IsWritten h.clients _ h)
        (write_json-IsWritten client.conn _ told)

  deleted-IsWritten :
      (client : Client) (message_id : String) (by_admin : Bool) (r : Result (Unit {0})) (h : Hub)
      → IsWritten h (deleted_by P format client message_id by_admin r h)
  unfolding send_error broadcast_delete_event
  deleted-IsWritten client message_id by_admin (err e) h = write_json-IsWritten client.conn _ h
  deleted-IsWritten client message_id by_admin (ok _) h =
      let told = broadcast_delete_event message_id by_admin h in
      IsWritten-trans h told _ (write_each-IsWritten h.clients _ h)
        (write_json-IsWritten client.conn _ told)

  pub asks-IsWritten :
      (fresh : Uuid) (now : Time) (faults : WriteFaults) (client : Client) (req : WsRequest)
      (s : Server P)
      → IsWritten s.hub (handle_request P format fresh now faults client req s).hub
  unfolding handle_send_message handle_delete_message send_ack send_error
  asks-IsWritten fresh now faults client req s = elim (Bool-cases (req.type == type_send)) [
    | inl sends ↦ elim (Bool-cases (req.content == "")) [
      | inl empty ↦ rw sends (rw empty (write_json-IsWritten client.conn _ s.hub))
      | inr given ↦ rw sends (rw given (sent-IsWritten client req _ s.hub))
    ]
    | inr other ↦ elim (Bool-cases (req.type == type_delete)) [
      | inr unknown ↦ rw other (rw unknown (write_json-IsWritten client.conn _ s.hub))
      | inl deletes ↦ elim (Bool-cases (req.message_id == "")) [
        | inl empty ↦ rw other (rw deletes (rw empty (write_json-IsWritten client.conn _ s.hub)))
        | inr given ↦
            rw other (rw deletes (rw given (deleted-IsWritten client req.message_id _ _ s.hub)))
      ]
    ]
  ]

  write_history-IsWritten :
      (client : Client) (rs : List WsResponse) (h : Hub)
      → IsWritten h (write_history P format client rs h)
  write_history-IsWritten client [] h = IsWritten-refl h
  write_history-IsWritten client (r ∷ rs) h = elim (Bool-cases (h.works client.conn)) [
    | inr broken ↦ rw broken (IsWritten-refl h)
    | inl up ↦
        let one = record h { outbox = h.outbox ++ (client.conn, r) ∷ [] } in
        rw up (
          IsWritten-trans h one (write_history P format client rs one)
            (record {
              clients = refl;
              works = refl;
              silent = λ conn down. received-other conn client.conn r h.works h.outbox up down;
            })
            (write_history-IsWritten client rs one))
  ]

  pub history-IsWritten :
      (client : Client) (r : Result (List Message)) (h : Hub)
      → IsWritten h (history P format client r h)
  history-IsWritten client (err e) h = IsWritten-refl h
  history-IsWritten client (ok messages) h = write_history-IsWritten client _ h
