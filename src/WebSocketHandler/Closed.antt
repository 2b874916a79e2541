-- ===== src/WebSocketHandler/Closed.antt =====
-- What a connection that has left the hub of websocket_handler.go is still sent: nothing.
use digital_square.Base.{
  ℕ, String, ◌=?◌, ◌≡◌, ◌≢◌, inl, inr, refl, sym, ap, subst, ◌∙◌, Bool, true, false, not,
  Bool-cases, List, [], ◌∷◌, keep, All, arith,
}
use digital_square.Base.Pairs.{AllPairs, AllPairs-keep}
use digital_square.Models.{Time}
use digital_square.MessageService
use digital_square.MessageService.{Parts, State}
use digital_square.WebSocketHandler.{
  WsResponse, Client, Hub, Server, remove_client, is_connected, others,
}
use digital_square.WebSocketHandler.Order.{received}
use digital_square.WebSocketHandler.Connections.{is_connected-others}
use digital_square.WebSocketHandler.Events.{
  HubEvent, arrives, asks, catches_up, expires, leaves, run_event, run_events, IsWritten,
  write_json-IsWritten, asks-IsWritten, history-IsWritten,
}

module _ (P : Parts) (format : Time → String) where
  abbrev HaveOtherConns : Client → Client → Type 0
  HaveOtherConns a b = a.conn ≢ b.conn

  is_connected-keep :
      (conn : ℕ) (p : Client → Bool) (clients : List Client)
      → is_connected conn clients ≡ false
      → is_connected conn (keep p clients) ≡ false
  is_connected-keep conn p [] h = refl
  is_connected-keep conn p (c ∷ clients) h =
      let rest = is_connected-keep conn p clients (ground (arith, h)) in ground (arith, h, rest)

  others-HaveOtherConns :
      (client : Client) (clients : List Client)
      → All (HaveOtherConns client) (others client.conn clients)
  others-HaveOtherConns client [] = tt
  others-HaveOtherConns client (c ∷ clients) = elim (Bool-cases (c.conn =? client.conn)) [
    | inl same ↦ rw same (others-HaveOtherConns client clients)
    | inr other ↦ rw other ((λ e. ground (arith, other, e)), others-HaveOtherConns client clients)
  ]

  -- The connection is closed: no client has it, and all clients have different ones.
  pub record IsClosed (conn : ℕ) (outbox : List WsResponse) (h : Hub) : Type 0 where
    pub distinct : AllPairs HaveOtherConns h.clients
    pub broken : h.works conn ≡ false
    pub gone : is_connected conn h.clients ≡ false
    pub told : received conn h.outbox ≡ outbox

  IsWritten-IsClosed :
      (conn : ℕ) (outbox : List WsResponse) (h h' : Hub)
      → IsWritten P format h h'
      → IsClosed conn outbox h
      → IsClosed conn outbox h'
  IsWritten-IsClosed conn outbox h h' w k = record {
    distinct = subst (AllPairs HaveOtherConns) (sym w.clients) k.distinct;
    broken = ap (λ f. f conn) w.works ∙ k.broken;
    gone = ap (is_connected conn) w.clients ∙ k.gone;
    told = w.silent conn k.broken ∙ k.told;
  }

  -- Nobody arrives with this connection.
  abbrev IsNotBy : ℕ → HubEvent P format → Type 0
  IsNotBy conn (arrives client) = client.conn ≢ conn
  IsNotBy conn _ = Unit

  IsClosed-event :
      (conn : ℕ) (outbox : List WsResponse) (e : HubEvent P format) (s : Server P)
      → IsNotBy conn e
      → IsClosed conn outbox s.hub
      → IsClosed conn outbox (run_event P format e s).hub
  IsClosed-event conn outbox (arrives client) s other k =
      let rest = is_connected-keep conn (λ c. not (c.conn =? client.conn)) s.hub.clients k.gone in
      record {
        distinct = (
          others-HaveOtherConns client s.hub.clients,
          AllPairs-keep HaveOtherConns (λ c. not (c.conn =? client.conn)) s.hub.clients k.distinct,
        );
        broken = k.broken;
        gone = ground (arith, rest, other);
        told = k.told;
      }
  IsClosed-event conn outbox (asks fresh now faults client req) s other k =
      IsWritten-IsClosed conn outbox s.hub _ (asks-IsWritten P format fresh now faults client req s)
        k
  IsClosed-event conn outbox (catches_up client) s other k =
      IsWritten-IsClosed conn outbox s.hub _
        (history-IsWritten P format client (MessageService.get_recent_messages P 100 s.service).0
          s.hub)
        k
  IsClosed-event conn outbox (expires client reason) s other k =
      IsWritten-IsClosed conn outbox s.hub _ (write_json-IsWritten P format client.conn _ s.hub) k
  IsClosed-event conn outbox (leaves c) s other k =
      elim (Bool-cases (is_connected c s.hub.clients)) [
        | inr unknown ↦ rw unknown k
        | inl there ↦ rw there (record {
          distinct = AllPairs-keep HaveOtherConns (λ x. not (x.conn =? c)) s.hub.clients k.distinct;
          broken = ground (arith, k.broken);
          gone = is_connected-keep conn (λ x. not (x.conn =? c)) s.hub.clients k.gone;
          told = k.told;
        })
      ]

  IsClosed-events :
      (conn : ℕ) (outbox : List WsResponse) (events : List (HubEvent P format)) (s : Server P)
      → All (IsNotBy conn) events
      → IsClosed conn outbox s.hub
      → IsClosed conn outbox (run_events P format events s).hub
  unfolding run_events
  IsClosed-events conn outbox [] s h k = k
  IsClosed-events conn outbox (e ∷ events) s (p, h) k =
      IsClosed-events conn outbox events (run_event P format e s) h
        (IsClosed-event conn outbox e s p k)

  -- Once a connection of the hub is removed, where no two clients have one connection, then
  -- whatever requests, arrivals of other connections, histories, expiries and removals follow,
  -- also for the client that left: the connection stays broken, no client has it, no two clients
  -- have one connection, and nothing more is received on it.
  pub run_events-IsClosed :
      (conn : ℕ) (events : List (HubEvent P format)) (s : Server P)
      → AllPairs HaveOtherConns s.hub.clients
      → is_connected conn s.hub.clients ≡ true
      → All (IsNotBy conn) events
      → IsClosed conn
          (received conn s.hub.outbox)
          (run_events P format (leaves conn ∷ events) s).hub
  unfolding run_events
  run_events-IsClosed conn events s distinct there others_only =
      let left = remove_client conn s.hub in
      IsClosed-events conn (received conn s.hub.outbox) events (record s { hub = left }) others_only
        (rw there (record {
          distinct =
              AllPairs-keep HaveOtherConns (λ x. not (x.conn =? conn)) s.hub.clients distinct;
          broken = ground arith;
          gone = is_connected-others conn s.hub.clients;
          told = refl;
        }))
