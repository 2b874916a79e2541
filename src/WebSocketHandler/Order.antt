-- ===== src/WebSocketHandler/Order.antt =====
-- The broadcasts of websocket_handler.go range over a Go map, whose order is not defined: what each
-- connection receives does not depend on it.
use mathlib.Core.List.{Permᴰ}
use mathlib.Core.List.Permᴰ
use digital_square.Base.{
  ℕ, String, ◌==◌, ◌=?◌, ◌≡◌, inl, inr, refl, sym, ap, subst, ◌∙◌, Bool, Bool-cases, List, [], ◌∷◌,
  ◌++◌, arith, if◌then◌else◌,
}
use digital_square.Errors.{Result, ok, err}
use digital_square.Models.{Uuid, Time, Message, role_admin}
use digital_square.Wal.{WriteFaults}
use digital_square.MessageService
use digital_square.MessageService.{Parts, State}
use digital_square.WebSocketHandler.{
  WsRequest, WsResponse, Client, Hub, Server, write_json, write_each, broadcast_to_all,
  broadcast_delete_event, send_ack, send_error, sent, deleted_by, type_send, type_delete,
  handle_send_message, handle_delete_message, handle_request, deleted_response, message_response,
}
use digital_square.WebSocketHandler.Broadcast.{deliveries, with_more, write_each-deliveries}

-- What was written to one connection, in order.
abbrev pub received : ℕ → List (ℕ × WsResponse) → List WsResponse
received conn [] = []
received conn ((c, r) ∷ written) =
    let rest = received conn written in if c =? conn then r ∷ rest else rest

pub received-append :
    (conn : ℕ) (a b : List (ℕ × WsResponse))
    → received conn (a ++ b) ≡ received conn a ++ received conn b
received-append conn [] b = refl
received-append conn ((c, r) ∷ a) b = ground (arith, received-append conn a b)

-- What one connection receives when a response is written for one more client.
abbrev copy : ℕ → (ℕ → Bool) → Client → WsResponse → List WsResponse → List WsResponse
copy conn works c r rest =
    if works c.conn then (if c.conn =? conn then r ∷ rest else rest) else rest

received-copy :
    (conn : ℕ) (works : ℕ → Bool) (c : Client) (xs : List Client) (r : WsResponse)
    → received conn (deliveries works (c ∷ xs) r)
      ≡ copy conn works c r (received conn (deliveries works xs r))
received-copy conn works c xs r = elim (Bool-cases (works c.conn)) [
  | inl yes_works ↦ rw yes_works refl
  | inr broken ↦ rw broken refl
]

copy_comm :
    (conn : ℕ) (works : ℕ → Bool) (a b : Client) (r : WsResponse) (rest : List WsResponse)
    → copy conn works a r (copy conn works b r rest)
      ≡ copy conn works b r (copy conn works a r rest)
copy_comm conn works a b r rest = ground arith

-- What one connection receives of a broadcast: the response, once for each of its clients.
received-deliveries :
    (conn : ℕ) (works : ℕ → Bool) {xs ys : List Client} (r : WsResponse)
    → Permᴰ xs ys
    → received conn (deliveries works xs r) ≡ received conn (deliveries works ys r)
received-deliveries conn works r Permᴰ.nil = refl
received-deliveries conn works r (Permᴰ.cons {a} {b} {l₁} {l₂} e p) =
    received-copy conn works a l₁ r
    ∙ (λ i. copy conn works (e i) r (received-deliveries conn works r p i))
    ∙ sym (received-copy conn works b l₂ r)
received-deliveries conn works r (Permᴰ.swap {a} {b} {a'} {b'} {l} e f) =
    let rest = received conn (deliveries works l r) in
    received-copy conn works a (b ∷ l) r
    ∙ ap (copy conn works a r) (received-copy conn works b l r)
    ∙ copy_comm conn works a b r rest
    ∙ (λ i. copy conn works (f i) r (copy conn works (e i) r rest))
    ∙ sym (ap (copy conn works a' r) (received-copy conn works b' l r))
    ∙ sym (received-copy conn works a' (b' ∷ l) r)
received-deliveries conn works r (Permᴰ.trans p q) =
    received-deliveries conn works r p ∙ received-deliveries conn works r q

-- The same has reached every connection, and the same clients are connected.
pub record AreAlike (h h' : Hub) : Type 0 where
  pub works : h.works ≡ h'.works
  pub clients : Permᴰ h.clients h'.clients
  pub told : (conn : ℕ) → received conn h.outbox ≡ received conn h'.outbox

more-AreAlike :
    (h h' : Hub) (a b : List (ℕ × WsResponse))
    → AreAlike h h'
    → ((conn : ℕ) → received conn a ≡ received conn b)
    → AreAlike (with_more h a) (with_more h' b)
more-AreAlike h h' a b alike same = record {
  works = alike.works;
  clients = alike.clients;
  told = λ conn.
      received-append conn h.outbox a
      ∙ (λ i. alike.told conn i ++ same conn i)
      ∙ sym (received-append conn h'.outbox b);
}

write_each-AreAlike :
    (xs ys : List Client) (r : WsResponse) (h h' : Hub)
    → Permᴰ xs ys
    → AreAlike h h'
    → AreAlike (write_each xs r h) (write_each ys r h')
write_each-AreAlike xs ys r h h' p alike = rw (write_each-deliveries xs r h) (
    rw (write_each-deliveries ys r h') (
      more-AreAlike h h' (deliveries h.works xs r) (deliveries h'.works ys r) alike (λ conn.
        received-deliveries conn h.works r p
        ∙ ap (λ w. received conn (deliveries w ys r)) alike.works)))

write_json-AreAlike :
    (client : Client) (r : WsResponse) (h h' : Hub)
    → AreAlike h h'
    → AreAlike (write_json client.conn r h) (write_json client.conn r h')
unfolding write_each
write_json-AreAlike client r h h' alike =
    write_each-AreAlike (client ∷ []) (client ∷ []) r h h' (Permᴰ.refl (client ∷ [])) alike

module _ (P : Parts) (format : Time → String) where
  abbrev pub AreAlikeServers : Server P → Server P → Type 0
  AreAlikeServers a b = (a.service ≡ b.service) × AreAlike a.hub b.hub

  sent-AreAlike :
      (client : Client) (req : WsRequest) (r : Result Message) (h h' : Hub)
      → AreAlike h h'
      → AreAlike (sent P format client req r h) (sent P format client req r h')
  unfolding send_ack broadcast_to_all
  sent-AreAlike client req (err e) h h' alike = write_json-AreAlike client _ h h' alike
  sent-AreAlike client req (ok msg) h h' alike =
      let response = message_response P format client msg in
      write_json-AreAlike client _ (write_each h.clients response h)
        (write_each h'.clients response h')
        (write_each-AreAlike h.clients h'.clients response h h' alike.clients alike)

  deleted-AreAlike :
      (client : Client) (message_id : String) (by_admin : Bool) (r : Result (Unit {0})) (h h' : Hub)
      → AreAlike h h'
      → AreAlike
          (deleted_by P format client message_id by_admin r h)
          (deleted_by P format client message_id by_admin r h')
  unfolding send_error broadcast_delete_event
  deleted-AreAlike client message_id by_admin (err e) h h' alike =
      write_json-AreAlike client _ h h' alike
  deleted-AreAlike client message_id by_admin (ok _) h h' alike =
      let response = deleted_response message_id by_admin in
      write_json-AreAlike client _ (write_each h.clients response h)
        (write_each h'.clients response h')
        (write_each-AreAlike h.clients h'.clients response h h' alike.clients alike)

  module _ (fresh : Uuid) (now : Time) (faults : WriteFaults) (client : Client) (req : WsRequest)
      (a b : Server P) (alike : AreAlikeServers a b) where
    send-AreAlike :
        AreAlikeServers
          (handle_send_message P format fresh now faults client req a)
          (handle_send_message P format fresh now faults client req b)
    unfolding handle_send_message send_ack
    send-AreAlike = elim (Bool-cases (req.content == "")) [
      | inl empty ↦ rw empty (alike.0, write_json-AreAlike client _ a.hub b.hub alike.1)
      | inr given ↦
          let run : State P → Result Message × State P =
            MessageService.send_message P fresh now faults client.user_id client.username
              req.content in
          rw given (
            ap (λ t. (run t).1) alike.0,
            subst
                (λ t.
                  AreAlike (sent P format client req (run a.service).0 a.hub)
                    (sent P format client req (run t).0 b.hub))
                alike.0 (sent-AreAlike client req (run a.service).0 a.hub b.hub alike.1),
          )
    ]

    delete-AreAlike :
        AreAlikeServers
          (handle_delete_message P format now client req a)
          (handle_delete_message P format now client req b)
    unfolding handle_delete_message send_error
    delete-AreAlike = elim (Bool-cases (req.message_id == "")) [
      | inl empty ↦ rw empty (alike.0, write_json-AreAlike client _ a.hub b.hub alike.1)
      | inr given ↦
          let is_admin = client.role == role_admin in
          let run : State P → Result (Unit {0}) × State P =
            MessageService.delete_message P now req.message_id client.user_id is_admin in
          rw given (
            ap (λ t. (run t).1) alike.0,
            subst
                (λ t.
                  AreAlike
                    (deleted_by P format client req.message_id is_admin (run a.service).0 a.hub)
                    (deleted_by P format client req.message_id is_admin (run t).0 b.hub))
                alike.0
                (deleted-AreAlike client req.message_id is_admin (run a.service).0 a.hub b.hub
                  alike.1),
          )
    ]

    -- Where two servers differ only in the order in which a loop meets the clients, and the same
    -- was written to every connection, they do after any request of a client: each connection has
    -- received the same in the same order, and the service is in the same state.
    pub handle_request-AreAlike :
        AreAlikeServers
          (handle_request P format fresh now faults client req a)
          (handle_request P format fresh now faults client req b)
    unfolding send_error
    handle_request-AreAlike = elim (Bool-cases (req.type == type_send)) [
      | inl sends ↦ rw sends send-AreAlike
      | inr other ↦ elim (Bool-cases (req.type == type_delete)) [
        | inl deletes ↦ rw other (rw deletes delete-AreAlike)
        | inr unknown ↦
            rw other (rw unknown (alike.0, write_json-AreAlike client _ a.hub b.hub alike.1))
      ]
    ]
