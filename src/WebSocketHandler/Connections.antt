-- ===== src/WebSocketHandler/Connections.antt =====
-- The connected clients, and the history that a new one is sent.
use digital_square.Base.{
  ℕ, String, ◌=?◌, ◌≡◌, refl, sym, ap, ◌∙◌, true, false, List, [], ◌∷◌, map, reverse, append-nil,
  ◌==◌, Bool-cases, inl, inr, ◌≢◌, ◌⊎◌, eq_iff, arith,
}
use digital_square.Errors.{Error, ok, err}
use digital_square.Action.{Result-cases}
use digital_square.MessageHandler.{placeholder}
use digital_square.Models.{Role, Time, Message, role_admin}
use digital_square.MessageService
use digital_square.MessageService.{Parts, State}
use digital_square.WebSocketHandler.{
  WsResponse, Client, Hub, Server, is_connected, others, remove_client, initial_response,
  write_history, history, send_initial_messages,
}
use digital_square.WebSocketHandler.Broadcast.{with_more, with_more-append}

pub is_connected-others :
    (conn : ℕ) (clients : List Client) → is_connected conn (others conn clients) ≡ false
is_connected-others conn [] = refl
is_connected-others conn (c ∷ clients) = elim (Bool-cases (c.conn =? conn)) [
  | inl same ↦ rw same (is_connected-others conn clients)
  | inr other ↦ rw other (rw other (is_connected-others conn clients))
]

-- After a connection was removed no client has it.
pub remove_client_forgets :
    (conn : ℕ) (hub : Hub) → is_connected conn (remove_client conn hub).clients ≡ false
remove_client_forgets conn hub = elim (Bool-cases (is_connected conn hub.clients)) [
  | inl there ↦ rw there (is_connected-others conn hub.clients)
  | inr gone ↦ rw gone gone
]

module _ (P : Parts) (format : Time → String) where
  write_history-works :
      (client : Client) (rs : List WsResponse) (hub : Hub)
      → hub.works client.conn ≡ true
      → write_history P format client rs hub ≡ with_more hub (map (λ r. (client.conn, r)) rs)
  write_history-works client [] hub works =
      sym (ap (λ o. record hub { outbox = o }) (append-nil hub.outbox))
  write_history-works client (r ∷ rs) hub works =
      let one = with_more hub ((client.conn, r) ∷ []) in
      rw works (
        write_history-works client rs one works
        ∙ with_more-append hub ((client.conn, r) ∷ []) (map (λ r. (client.conn, r)) rs))

  -- A text of a message that a client with this role may see: that of a deleted message is hidden
  -- from all but admins.
  abbrev IsVisibleText : Role → Message → String → Type 0
  IsVisibleText role msg text =
      (((msg.deleted_at.valid ≡ false) ⊎ (role ≡ role_admin)) × (text ≡ msg.content))
      ⊎ ((msg.deleted_at.valid ≡ true)
          × (role ≢ role_admin)
          × (((msg.is_deleted_by_admin ≡ true) × (text ≡ "This message was deleted by admin"))
              ⊎ ((msg.is_deleted_by_admin ≡ false) × (text ≡ "This message was deleted"))))

  pub record Shows (role : Role) (msg : Message) (r : WsResponse) : Type 0 where
    pub type : r.type ≡ "message"
    pub id : r.id ≡ msg.id
    pub message_id : r.message_id ≡ msg.message_id
    pub author : r.user_id ≡ P.uuid.to_string msg.user_id
    pub username : r.username ≡ msg.username
    pub timestamp : r.timestamp ≡ format msg.created_at
    pub deleted : r.deleted ≡ msg.deleted_at.valid
    pub deleted_by_admin : r.deleted_by_admin ≡ msg.is_deleted_by_admin
    pub text : IsVisibleText role msg r.content

  abbrev pub AllShow : Role → List Message → List WsResponse → Type 0
  AllShow role [] [] = Unit
  AllShow role (msg ∷ msgs) (r ∷ rs) = Shows role msg r × AllShow role msgs rs
  AllShow role _ _ = ⊥

  not_admin : (role : Role) → (role == role_admin) ≡ false → role ≢ role_admin
  not_admin role other e = let eq = eq_iff role role_admin in ground (arith, eq, e, other)

  hidden_text :
      (msg : Message)
      → ((msg.is_deleted_by_admin ≡ true)
          × (placeholder msg.is_deleted_by_admin ≡ "This message was deleted by admin"))
        ⊎ ((msg.is_deleted_by_admin ≡ false)
            × (placeholder msg.is_deleted_by_admin ≡ "This message was deleted"))
  hidden_text msg = elim (Bool-cases msg.is_deleted_by_admin) [
    | inl by_admin ↦ inl (by_admin, rw by_admin refl)
    | inr by_author ↦ inr (by_author, rw by_author refl)
  ]

  initial_text :
      (role : Role) (msg : Message)
      → IsVisibleText role msg (initial_response P format (role == role_admin) msg).content
  unfolding initial_response
  initial_text role msg = elim (Bool-cases msg.deleted_at.valid) [
    | inr kept ↦ inl (inl kept, rw kept refl)
    | inl deleted ↦ elim (Bool-cases (role == role_admin)) [
      | inl admin ↦ inl (inr ((eq_iff role role_admin).0 admin), rw deleted (rw admin refl))
      | inr other ↦ rw deleted (rw other (inr (refl, not_admin role other, hidden_text msg)))
    ]
  ]

  initial_responses-AllShow :
      (role : Role) (msgs : List Message)
      → AllShow role msgs (map (initial_response P format (role == role_admin)) msgs)
  unfolding initial_response
  initial_responses-AllShow role [] = tt
  initial_responses-AllShow role (msg ∷ msgs) = (
    record {
      type = refl;
      id = refl;
      message_id = refl;
      author = refl;
      username = refl;
      timestamp = refl;
      deleted = refl;
      deleted_by_admin = refl;
      text = initial_text role msg;
    },
    initial_responses-AllShow role msgs,
  )

  -- A new client whose connection works is sent nothing where the service answers with an error,
  -- and otherwise one response for each message of the answer, the last of them first, with the
  -- fields of the message; but where a message is deleted and the client is no admin, its text is
  -- replaced by one that says by whom it was deleted. No other client is sent anything.
  pub send_initial_messages_sends :
      (client : Client) (server : Server P)
      → server.hub.works client.conn ≡ true
      → let answer = (MessageService.get_recent_messages P 100 server.service).0 in
        let after = (send_initial_messages P format client server).hub in
        ((e : Error) × (answer ≡ err e) × (after ≡ server.hub))
        ⊎ ((msgs : List Message) × (rs : List WsResponse) × (answer ≡ ok msgs)
            × AllShow client.role (reverse msgs) rs
            × (after ≡ with_more server.hub (map (λ r. (client.conn, r)) rs)))
  send_initial_messages_sends client server works =
      elim (Result-cases (MessageService.get_recent_messages P 100 server.service).0) [
        | inr (e, failed) ↦ inl (e, failed, ap (λ r. history P format client r server.hub) failed)
        | inl (msgs, found) ↦ inr (
          msgs,
          map (initial_response P format (client.role == role_admin)) (reverse msgs),
          found,
          initial_responses-AllShow client.role (reverse msgs),
          ap (λ r. history P format client r server.hub) found
              ∙ write_history-works client _ server.hub works,
        )
      ]
