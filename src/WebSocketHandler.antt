-- ===== src/WebSocketHandler.antt =====
-- backend/internal/handler/websocket_handler.go: the connected clients and what is written to them.
-- A connection is a number; `outbox` is all that was written to connections, in order. A write to a
-- connection that does not work changes nothing and is only logged. Deadlines and pings are left out.
-- Session has the upgrade of the request and the loop over the reads.
pub mod Broadcast
pub mod Order
pub mod Events
pub mod Closed
pub mod Connections
pub mod Session
use digital_square.Base.{
  ℕ, String, ◌==◌, ◌=?◌, Bool, true, false, not, ◌&&◌, ◌||◌, Option, none, some, List, [], ◌∷◌,
  ◌++◌, map, keep, reverse, if◌then◌else◌,
}
use digital_square.Errors.{Error, text, Result, ok, err}
use digital_square.Models.{Uuid, Time, Role, Message, role_admin}
use digital_square.Wal.{WriteFaults}
use digital_square.Auth.{Claims}
use digital_square.MessageHandler.{placeholder}
use digital_square.MessageService
use digital_square.MessageService.{Parts, State}

abbrev type_send : String
type_send = "send_message"

abbrev type_delete : String
type_delete = "delete_message"

pub record WsRequest : Type 0 where
  pub type : String
  pub temp_id : String
  pub content : String
  pub message_id : String

pub record WsResponse : Type 0 where
  pub type : String
  pub id : ℕ
  pub message_id : String
  pub user_id : String
  pub username : String
  pub content : String
  pub timestamp : String
  pub error : String
  pub deleted : Bool
  pub deleted_by_admin : Bool
  pub temp_id : String
  pub status : String

abbrev no_response : WsResponse
no_response = record {
  type = "";
  id = 0;
  message_id = "";
  user_id = "";
  username = "";
  content = "";
  timestamp = "";
  error = "";
  deleted = false;
  deleted_by_admin = false;
  temp_id = "";
  status = "";
}

pub record Client : Type 0 where
  pub conn : ℕ
  pub user_id : Uuid
  pub username : String
  pub role : Role
  pub connected_at : Time

-- `clients` are in the order in which a loop over the map meets them.
pub record Hub : Type 0 where
  pub clients : List Client
  pub outbox : List (ℕ × WsResponse)
  pub works : ℕ → Bool

abbrev pub write_json : ℕ → WsResponse → Hub → Hub
write_json conn response hub =
    if hub.works conn then record hub { outbox = hub.outbox ++ (conn, response) ∷ [] } else hub

abbrev pub ack_response : String → String → String → String → WsResponse
ack_response temp_id message_id status error = record no_response {
  type = "ack";
  temp_id = temp_id;
  message_id = message_id;
  status = status;
  error = if status == "error" then error else "";
}

pub send_ack : Client → String → String → String → String → Hub → Hub
send_ack client temp_id message_id status error =
    write_json client.conn (ack_response temp_id message_id status error)

abbrev pub error_response : String → WsResponse
error_response error = record no_response { type = "error"; error = error }

pub send_error : Client → String → Hub → Hub
send_error client error = write_json client.conn (error_response error)

-- The loop of the two broadcasts.
pub write_each : List Client → WsResponse → Hub → Hub
write_each [] response hub = hub
write_each (client ∷ clients) response hub =
    write_each clients response (write_json client.conn response hub)

pub broadcast_to_all : WsResponse → Hub → Hub
broadcast_to_all response hub = write_each hub.clients response hub

abbrev pub deleted_response : String → Bool → WsResponse
deleted_response message_id by_admin = record no_response {
  type = "message_deleted";
  message_id = message_id;
  deleted_by_admin = by_admin;
}

pub broadcast_delete_event : String → Bool → Hub → Hub
broadcast_delete_event message_id by_admin hub =
    write_each hub.clients (deleted_response message_id by_admin) hub

-- `h.clients[conn] = client` replaces what the map has under the connection.
abbrev pub others : ℕ → List Client → List Client
others conn = keep (λ c. not (c.conn =? conn))

abbrev pub is_connected : ℕ → List Client → Bool
is_connected conn [] = false
is_connected conn (c ∷ clients) = c.conn =? conn || is_connected conn clients

-- A connection that is closed works no more.
abbrev pub remove_client : ℕ → Hub → Hub
remove_client conn hub =
    if is_connected conn hub.clients
    then record hub {
      clients = others conn hub.clients;
      works = λ c. if c =? conn then false else hub.works c;
    }
    else hub

abbrev pub client_of : ℕ → Time → Claims → Client
client_of conn now claims = record {
  conn = conn;
  user_id = claims.user_id;
  username = claims.username;
  role = claims.role;
  connected_at = now;
}

abbrev pub connect : Client → Hub → Hub
connect client hub = record hub { clients = client ∷ others client.conn hub.clients }

-- The text before the close frame.
abbrev pub close_client_gracefully : Client → String → Hub → Hub
close_client_gracefully client reason =
    write_json client.conn (record no_response { type = "session_expired"; error = reason })

pub record Server (P : Parts) : Type 0 where
  pub service : State P
  pub hub : Hub

module _ (P : Parts) (format : Time → String) where
  abbrev pub message_response : Client → Message → WsResponse
  message_response client msg = record no_response {
    type = "message";
    id = msg.id;
    message_id = msg.message_id;
    user_id = P.uuid.to_string client.user_id;
    username = client.username;
    content = msg.content;
    timestamp = format msg.created_at;
  }

  abbrev pub sent : Client → WsRequest → Result Message → Hub → Hub
  sent client req (err _) hub = send_ack client req.temp_id "" "error" "failed to write to WAL" hub
  sent client req (ok msg) hub =
      send_ack client req.temp_id msg.message_id "success" ""
        (broadcast_to_all (message_response client msg) hub)

  -- The uuid, the time and the faults of the disk are those of the call of `SendMessage`.
  pub handle_send_message : Uuid → Time → WriteFaults → Client → WsRequest → Server P → Server P
  handle_send_message fresh now faults client req server =
      let (r, s') =
        MessageService.send_message P fresh now faults client.user_id client.username req.content
          server.service in
      let handled : Server P = record { service = s'; hub = sent client req r server.hub } in
      let refused = send_ack client req.temp_id "" "error" "content cannot be empty" server.hub in
      if req.content == "" then record server { hub = refused } else handled

  abbrev pub delete_success : String → WsResponse
  delete_success message_id = record no_response {
    type = "delete_success";
    message_id = message_id;
  }

  abbrev pub deleted_by : Client → String → Bool → Result (Unit {0}) → Hub → Hub
  deleted_by client message_id is_admin (err e) hub = send_error client (text e) hub
  deleted_by client message_id is_admin (ok _) hub =
      write_json client.conn (delete_success message_id)
        (broadcast_delete_event message_id is_admin hub)

  pub handle_delete_message : Time → Client → WsRequest → Server P → Server P
  handle_delete_message now client req server =
      let is_admin = client.role == role_admin in
      let (r, s') =
        MessageService.delete_message P now req.message_id client.user_id is_admin server.service in
      let handled : Server P = record {
        service = s';
        hub = deleted_by client req.message_id is_admin r server.hub;
      } in
      let refused = send_error client "message_id is required" server.hub in
      if req.message_id == "" then record server { hub = refused } else handled

  -- The switch of `handleClient` on a request that was read.
  abbrev pub handle_request : Uuid → Time → WriteFaults → Client → WsRequest → Server P → Server P
  handle_request fresh now faults client req server =
      let unknown = send_error client "unknown message type" server.hub in
      if req.type == type_send
      then handle_send_message fresh now faults client req server
      else if req.type == type_delete
      then handle_delete_message now client req server
      else record server { hub = unknown }

  -- A message of the history, as a client with this role may see it.
  pub initial_response : Bool → Message → WsResponse
  initial_response is_admin msg = record no_response {
    type = "message";
    id = msg.id;
    message_id = msg.message_id;
    user_id = P.uuid.to_string msg.user_id;
    username = msg.username;
    content =
        if msg.deleted_at.valid && not is_admin
        then placeholder msg.is_deleted_by_admin
        else msg.content;
    timestamp = format msg.created_at;
    deleted = msg.deleted_at.valid;
    deleted_by_admin = msg.is_deleted_by_admin;
  }

  -- The loop over the messages, which the first write that does not work ends.
  abbrev pub write_history : Client → List WsResponse → Hub → Hub
  write_history client [] hub = hub
  write_history client (r ∷ rs) hub =
      let rest = write_history client rs (write_json client.conn r hub) in
      if hub.works client.conn then rest else hub

  abbrev pub history : Client → Result (List Message) → Hub → Hub
  history client (err _) hub = hub
  history client (ok messages) hub =
      write_history client (map (initial_response (client.role == role_admin)) (reverse messages))
        hub

  abbrev pub send_initial_messages : Client → Server P → Server P
  send_initial_messages client server =
      let (r, s') = MessageService.get_recent_messages P 100 server.service in
      record { service = s'; hub = history client r server.hub }
