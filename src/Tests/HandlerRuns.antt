-- ===== src/Tests/HandlerRuns.antt =====
-- The theorems of the handlers on concrete inputs.
use digital_square.Base.{
  ◌=?◌, reverse, ◌⊎◌, List, String, eq_iff, ◌≡◌, ◌≢◌, refl, true, some, [], ◌∷◌, ◌++◌, map, arith,
}
use digital_square.Errors.{Error, ok, err}
use digital_square.Models.{Message, no_message}
use digital_square.Wal.Contents.{no_write_faults}
use digital_square.Auth.{Claims}
use digital_square.MessageService
use digital_square.MessageService.{new_message}
use digital_square.MessageService.Send.{send_message_accepts}
use digital_square.WebSocketHandler.Connections.{AllShow, send_initial_messages_sends}
use digital_square.WebSocketHandler.{
  send_initial_messages, WsRequest, WsResponse, Client, Server, message_response, ack_response,
  handle_send_message, handle_request,
}
use mathlib.Core.List.{Permᴰ}
use digital_square.WebSocketHandler.Events.{arrives, asks, catches_up, leaves, run_events}
use digital_square.WebSocketHandler.Closed.{IsClosed, run_events-IsClosed}
use digital_square.WebSocketHandler.Order.{AreAlikeServers, handle_request-AreAlike}
use digital_square.WebSocketHandler.Broadcast.{deliveries, with_more, handle_send_message_tells}
use digital_square.Tests.Samples.{parts, empty_state, empty_log-Holds, hello, hello-IsStorable}

abbrev admin_claims : Claims
admin_claims = record {
  user_id = 7;
  email = "";
  username = "ann";
  role = "admin";
  expires_at = some 100;
  issued_at = some 10;
  not_before = some 10;
}

abbrev deleted_as : String → Message
deleted_as content = record no_message {
  content = content;
  deleted_at = record { time = 3; valid = true };
}

abbrev pub bob : Client
bob = record { conn = 1; user_id = 7; username = "ann"; role = "user"; connected_at = 0 }

abbrev eve : Client
eve = record { conn = 2; user_id = 8; username = "eve"; role = "user"; connected_at = 0 }

abbrev pub server : Server parts
server = record {
  service = empty_state;
  hub = record { clients = eve ∷ bob ∷ []; outbox = []; works = λ c. c =? 1 };
}

abbrev pub say_hello : WsRequest
say_hello = record { type = "send_message"; temp_id = "t"; content = "hello"; message_id = "" }

hello_given : say_hello.content ≢ ""
hello_given e = let eq = eq_iff "hello" "" in ground (arith, eq, e)

handle_send_message_tells_example :
    (handle_send_message parts (λ t. "") 1 5 no_write_faults bob say_hello server).hub
    ≡ with_more server.hub (
        deliveries server.hub.works server.hub.clients
          (message_response parts (λ t. "") bob (new_message parts 1 5 7 "ann" "hello"))
        ++ deliveries server.hub.works (bob ∷ []) (ack_response "t" "m1" "success" ""))
handle_send_message_tells_example =
    handle_send_message_tells parts (λ t. "") 1 5 no_write_faults bob say_hello server hello_given
      (new_message parts 1 5 7 "ann" "hello")
      (send_message_accepts parts 1 5 7 "ann" "hello" empty_state [] (omega arith) (omega arith)
        empty_log-Holds hello-IsStorable)

abbrev with_history : Server parts
with_history = record server {
  service = record empty_state { db = hello ∷ record hello { id = 2 } ∷ [] };
}

send_initial_messages_sends_example :
    let answer = (MessageService.get_recent_messages parts 100 with_history.service).0 in
    let after = (send_initial_messages parts (λ t. "") bob with_history).hub in
    ((e : Error) × (answer ≡ err e) × (after ≡ server.hub))
    ⊎ ((msgs : List Message) × (rs : List WsResponse) × (answer ≡ ok msgs)
        × AllShow parts (λ t. "") "user" (reverse msgs) rs
        × (after ≡ with_more server.hub (map (λ r. (1, r)) rs)))
send_initial_messages_sends_example =
    send_initial_messages_sends parts (λ t. "") bob with_history refl

-- The same clients, met in the other order.
abbrev other_order : Server parts
other_order = record server { hub = record server.hub { clients = bob ∷ eve ∷ [] } }

handle_request-AreAlike_example :
    AreAlikeServers parts
      (λ t. "")
      (handle_request parts (λ t. "") 1 5 no_write_faults bob say_hello server)
      (handle_request parts (λ t. "") 1 5 no_write_faults bob say_hello other_order)
handle_request-AreAlike_example =
    handle_request-AreAlike parts (λ t. "") 1 5 no_write_faults bob say_hello server other_order
      (refl, record { works = refl; clients = Permᴰ.swap refl refl; told = λ conn. refl })

-- Bob leaves, and then asks once more, while Eve arrives again and is sent the history.
run_events-IsClosed_example :
    IsClosed parts
      (λ t. "")
      1
      []
      (run_events parts
        (λ t. "")
        (leaves 1 ∷ asks 1 5 no_write_faults bob say_hello ∷ arrives eve ∷ catches_up eve ∷ [])
        server).hub
run_events-IsClosed_example =
    run_events-IsClosed parts (λ t. "") 1
      (asks 1 5 no_write_faults bob say_hello ∷ arrives eve ∷ catches_up eve ∷ []) server
      (((λ e. ground (arith, e)), tt), (tt, tt)) refl (tt, ((λ e. ground (arith, e)), (tt, tt)))
