-- ===== src/WebSocketHandler/Session.antt =====
-- `HandleWebSocket` and `handleClient` of websocket_handler.go: one connection from its upgrade to
-- its end. The claims are `none` where no middleware has set them, the connection is `none` where the
-- upgrade fails; the pings only make a read fail.
pub mod Lifetime
use digital_square.Base.{
  ℕ, ◌+◌, ◌*◌, leb, String, Bool, true, false, Option, none, some, List, [], ◌∷◌, if◌then◌else◌,
  ◌⊎◌, inl, inr,
}
use digital_square.Models.{Uuid, Time}
use digital_square.Wal.{WriteFaults}
use digital_square.Auth.{Claims}
use digital_square.Http.{Refusal}
use digital_square.MessageService.{Parts}
use digital_square.WebSocketHandler.{
  WsRequest, Client, Server, client_of, connect, remove_client, close_client_gracefully,
  handle_request, send_initial_messages,
}

-- 15 * time.Minute
abbrev pub max_session_lifetime : ℕ
max_session_lifetime = 15 * 60 * 1000000000

-- How a `ReadJSON` ended: when, what the other goroutines did to the server until then, and the
-- request, or `none` for an error; then what `SendMessage` reads of its surroundings.
pub record Read (P : Parts) : Type 0 where
  pub at : Time
  pub meanwhile : Server P → Server P
  pub request : Option WsRequest
  pub fresh : Uuid
  pub now : Time
  pub faults : WriteFaults

-- `waiting` is a session whose last read has not ended.
pub data End : Type 0 where
  expired closed waiting : End

abbrev pub is_over : Time → Time → Bool
is_over start now = leb (start + max_session_lifetime) now

module _ (P : Parts) where
  abbrev pub expire : Client → Server P → End × Server P
  expire client server = (
    expired,
    record server {
      hub = close_client_gracefully client "session expired after 15 minutes" server.hub;
    },
  )

  -- The deferred call of `removeClient`.
  abbrev pub cleaned : ℕ → End × Server P → End × Server P
  cleaned conn (waiting, server) = (waiting, server)
  cleaned conn (ended, server) = (ended, record server { hub = remove_client conn server.hub })

module _ (P : Parts) (format : Time → String) where
  abbrev pub handled : Client → Read P → WsRequest → Server P → Server P
  handled client r req server =
      handle_request P format r.fresh r.now r.faults client req (r.meanwhile server)

  abbrev pub after_read :
      Client → Read P → Option WsRequest → (Server P → End × Server P) → Server P → End × Server P
  after_read client r none next server = (closed, r.meanwhile server)
  after_read client r (some req) next server = next (handled client r req server)

  -- The loop, entered at `now`; the timer was set at `start`.
  pub handle_client : Client → Time → Time → List (Read P) → Server P → End × Server P
  handle_client client start now [] server =
      if is_over start now then expire P client server else (waiting, server)
  handle_client client start now (r ∷ rest) server =
      let next =
        after_read client r r.request (λ s. handle_client client start r.at rest s) server in
      if is_over start now then expire P client server else next

  -- The initial messages are sent by a goroutine, so by some `meanwhile` or after the session.
  pub handle_web_socket :
      Time → Option Claims → Option ℕ → List (Read P) → Server P → Refusal ⊎ (Option End × Server P)
  handle_web_socket now none upgrade reads server =
      inl (record { status = 401; error = "authentication required"; retry_after = none })
  handle_web_socket now (some claims) none reads server = inr (none, server)
  handle_web_socket now (some claims) (some conn) reads server =
      let client = client_of conn now claims in
      let connected = record server { hub = connect client server.hub } in
      let (end, s') = cleaned P conn (handle_client client now now reads connected) in
      inr (some end, s')
