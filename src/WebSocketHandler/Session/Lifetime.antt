-- ===== src/WebSocketHandler/Session/Lifetime.antt =====
-- How long a session lasts, and what it leaves behind.
use digital_square.Base.{
  ℕ, String, ◌+◌, ◌≤◌, ◌≡◌, ◌≢◌, refl, sym, ap, ◌∙◌, subst, true, false, Bool-cases, Option, none,
  some, List, [], ◌∷◌, ◌++◌, if◌then◌else◌, ◌⊎◌, inl, inr, arith, Has,
}
use digital_square.Models.{Time}
use digital_square.Auth.{Claims}
use digital_square.MessageService.{Parts}
use digital_square.WebSocketHandler.{WsRequest, Client, Server, is_connected, client_of, connect}
use digital_square.WebSocketHandler.Connections.{remove_client_forgets}
use digital_square.WebSocketHandler.Session.{
  max_session_lifetime, Read, End, expired, closed, waiting, is_over, expire, handled, after_read,
  handle_client, cleaned, handle_web_socket,
}

module _ (P : Parts) (format : Time → String) (client : Client) (start : Time) where
  -- An iteration that the timer has run out for ends the session.
  handle_client-over :
      (now : Time) (reads : List (Read P)) (server : Server P)
      → is_over start now ≡ true
      → handle_client P format client start now reads server ≡ expire P client server
  unfolding handle_client
  handle_client-over now [] server over = rw over refl
  handle_client-over now (r ∷ reads) server over = rw over refl

  late_over :
      (r : Read P)
      → start + max_session_lifetime ≤ r.at
      → (reads : List (Read P)) (s : Server P)
      → handle_client P format client start r.at reads s ≡ expire P client s
  late_over r late reads s = handle_client-over r.at reads s (ground (arith, late))

  rest_ends :
      (r : Read P) (reads : List (Read P))
      → ((s : Server P)
          → Has (λ r. start + max_session_lifetime ≤ r.at) reads
          → (handle_client P format client start r.at reads s).0 ≢ waiting)
      → (start + max_session_lifetime ≤ r.at) ⊎ Has (λ r. start + max_session_lifetime ≤ r.at) reads
      → (s : Server P) → (handle_client P format client start r.at reads s).0 ≢ waiting
  rest_ends r reads by_rest (inl late) s e =
      let x = ap (λ x. x.0) (late_over r late reads s) in cc (x, e)
  rest_ends r reads by_rest (inr h) s e = by_rest s h e

  after_read-ends :
      (r : Read P) (request : Option WsRequest) (next : Server P → End × Server P)
      (server : Server P)
      → ((s : Server P) → (next s).0 ≢ waiting)
      → (after_read P format client r request next server).0 ≢ waiting
  after_read-ends r none next server ends e = cc e
  after_read-ends r (some req) next server ends e = ends (handled P format client r req server) e

  -- A session in which some read ends when its 15 minutes are over is not left waiting: it has
  -- ended by then, whatever the reads are and whatever happens meanwhile.
  pub handle_client_ends :
      (now : Time) (reads : List (Read P)) (server : Server P)
      → Has (λ r. start + max_session_lifetime ≤ r.at) reads
      → (handle_client P format client start now reads server).0 ≢ waiting
  unfolding handle_client
  handle_client_ends now [] server h = elim h [ ]
  handle_client_ends now (r ∷ reads) server h = elim (Bool-cases (is_over start now)) [
    | inl over ↦
        λ e. let x = ap (λ x. x.0) (handle_client-over now (r ∷ reads) server over) in cc (x, e)
    | inr early ↦
        let next : Server P → End × Server P =
          λ s. handle_client P format client start r.at reads s in
        let step : handle_client P format client start now (r ∷ reads) server
            ≡ after_read P format client r r.request next server =
          rw early refl in
        λ e.
          after_read-ends r r.request next server
            (rest_ends r reads (handle_client_ends r.at reads) h) (ap (λ x. x.0) (sym step) ∙ e)
  ]

  -- What is read after the first read that ends when the 15 minutes are over makes no difference.
  handle_client_bounded :
      (now : Time) (reads : List (Read P)) (last : Read P) (rest : List (Read P))
      (server : Server P)
      → start + max_session_lifetime ≤ last.at
      → handle_client P format client start now (reads ++ last ∷ rest) server
        ≡ handle_client P format client start now (reads ++ last ∷ []) server
  unfolding handle_client
  handle_client_bounded now [] last rest server late =
      ap
        (λ next.
          if is_over start now
          then expire P client server
          else after_read P format client last last.request next server)
        (λ k s. (late_over last late rest s ∙ sym (late_over last late [] s)) k)
  handle_client_bounded now (r ∷ reads) last rest server late =
      ap
        (λ next.
          if is_over start now
          then expire P client server
          else after_read P format client r r.request next server)
        (λ k s. handle_client_bounded r.at reads last rest s late k)

cleaned-removed :
    (P : Parts) (conn : ℕ) (run : End × Server P)
    → (cleaned P conn run).0 ≢ waiting
    → is_connected conn (cleaned P conn run).1.hub.clients ≡ false
cleaned-removed P conn (waiting, server) h = absurd (h refl)
cleaned-removed P conn (expired, server) h = remove_client_forgets conn server.hub
cleaned-removed P conn (closed, server) h = remove_client_forgets conn server.hub

-- When a session has ended, no client has its connection.
handle_web_socket_cleans :
    (P : Parts) (format : Time → String) (now : Time) (claims : Claims) (conn : ℕ)
    (reads : List (Read P)) (server after : Server P) (end : End)
    → handle_web_socket P format now (some claims) (some conn) reads server ≡ inr (some end, after)
    → end ≢ waiting
    → is_connected conn after.hub.clients ≡ false
unfolding handle_web_socket
handle_web_socket_cleans P format now claims conn reads server after end h ended =
    let client = client_of conn now claims in
    let run =
      handle_client P format client now now reads
        (record server { hub = connect client server.hub }) in
    let same_end : (cleaned P conn run).0 ≡ end = cc h in
    let same : (cleaned P conn run).1 ≡ after = cc h in
    subst (λ s. is_connected conn s.hub.clients ≡ false) same
      (cleaned-removed P conn run (λ e. ended (sym same_end ∙ e)))
