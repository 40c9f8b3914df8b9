-- ===== src/Server/Messages.antt =====
-- `handle_incoming_messages_`: what it keeps, whatever the clients have sent.
use yonaa.Base.{
  ◌≡◌, ◌∙◌, inl, inr, refl, List, [], ◌∷◌, not, true, false, Bool, Option-cases, pos, arith, ◌==◌,
  ◌||◌, ℕ, Bytes,
}
use yonaa.Os.Events.{Event, Trace}
use yonaa.Os.Platform.{Platform}
use yonaa.Os.Outcome.{R, return, ◌>>=◌}
use yonaa.Os.Ends.{Ends, Ends-bind}
use yonaa.Os.After.{After, After-if, After-bind, After-mono}
use yonaa.Buffer
use yonaa.Connection.{Connection, receive}
use yonaa.Poll.{SocketStatusInfo, poll, readable, has}
use yonaa.Poll.Group.{fds-poll}
use yonaa.Server.{
  ClientInfo, Server, Handlers, notify, remove_client, client_info_from_native_socket,
}
use yonaa.Server.Registry.{Fades-refl}
use yonaa.Server.Clients.{
  ids, sockets, members, Kept, Kept-refl, Kept-trans, notify-Keeps, remove_client-Kept,
}
use yonaa.Server.Network.{
  receive_from, set_conn, is_broken, handle_client, handle_event, handle_events,
  handle_incoming_messages,
}
use yonaa.Server.WellFormed.{IsWellFormed, Kept-IsWellFormed}

pub ids-set_conn :
    (fd : ℕ) (conn : Connection) (cs : List ClientInfo) → ids (set_conn fd conn cs) ≡ ids cs
ids-set_conn fd conn [] = refl
ids-set_conn fd conn (c ∷ cs) = ground (arith, ids-set_conn fd conn cs)

pub sockets-set_conn :
    (fd : ℕ) (conn : Connection) (cs : List ClientInfo) → sockets (set_conn fd conn cs) ≡ sockets cs
sockets-set_conn fd conn [] = refl
sockets-set_conn fd conn (c ∷ cs) = ground (arith, sockets-set_conn fd conn cs)

pub members-set_conn :
    (fd : ℕ) (conn : Connection) (cs : List ClientInfo) → members (set_conn fd conn cs) ≡ members cs
members-set_conn fd conn [] = refl
members-set_conn fd conn (c ∷ cs) = ground (arith, members-set_conn fd conn cs)

-- A relation that the parts of the handler keep, then the whole handler keeps.
module _ (P : Platform) (H : Handlers) (K : Server → Server → Type 0) (same : (s : Server) → K s s)
    (chain : (s t : Server) → K s t → (u : Server) → K t u → K s u)
    (removed : (s : Server) (id : ℕ) → K s (remove_client s id))
    (received : (s : Server) (ec fd : ℕ) (conn : Connection)
      → K s (record s { ec = ec; clients = set_conn fd conn s.clients }))
    (told : (id : ℕ) (bs : Bytes) (s : Server) (w : Trace)
      → After (K s) (notify P H.on_data_receive (Event.client_sent id bs) s w).0) where
  receive_from-After :
      (s : Server) (c : ClientInfo) (w : Trace) → After (K s) (receive_from P H s c w).0
  unfolding receive_from
  receive_from-After s c w =
      let (r, w') = receive P c.conn s.ec 0 w in
      let s' = record s { ec = r.2; clients = set_conn c.fd r.1 s.clients } in
      After-if (K s) (not (r.2 == 0) || (Buffer.size r.0 == 0)) _
        (notify P H.on_data_receive (Event.client_sent c.id r.0.bytes) s') w'
        (chain s s' (received s r.2 c.fd r.1) (remove_client s' c.id) (removed s' c.id))
        (After-mono (K s) _ (chain s s' (received s r.2 c.fd r.1)) (told c.id r.0.bytes s' w'))

  handle_client-After :
      (s : Server) (status : ℕ) (c : ClientInfo) (w : Trace)
      → After (K s) (handle_client P H s status c w).0
  unfolding handle_client
  handle_client-After s status c w =
      After-if (K s) (is_broken P H status) (return (remove_client s c.id)) _ w (removed s c.id) (
        After-if (K s) (has P status readable) (receive_from P H s c) (return s) w
          (receive_from-After s c w) (same s))

  handle_event-After :
      (s : Server) (event : SocketStatusInfo) (w : Trace)
      → After (K s) (handle_event P H s event w).0
  unfolding handle_event
  handle_event-After s event w =
      elim (Option-cases (client_info_from_native_socket event.socket_fd s.clients)) [
        | inl e ↦ rw (e, handle_event) (same s)
        | inr (c, e) ↦ rw (e, handle_event) (handle_client-After s event.status c w)
      ]

  pub handle_events-After :
      (events : List SocketStatusInfo) (s : Server) (w : Trace)
      → After (K s) (handle_events P H events s w).0
  unfolding handle_events
  handle_events-After [] s w = same s
  handle_events-After (event ∷ events) s w =
      go
        (After-bind (K s) (K s) (handle_event P H s event) (handle_events P H events) w
          (handle_event-After s event w)
          λ t w' k. After-mono (K s) _ (chain s t k) (handle_events-After events t w'))
        s.running
    where
      handled : R Server
      handled = handle_event P H s event >>= handle_events P H events

      go :
          After (K s) (handled w).0
          → (b : Bool)
          → After (K s) ((elim b as (λ _. R Server) [ false ↦ return s | true ↦ handled ]) w).0
      go k false = same s
      go k true = k

-- What each event keeps, then the loop over the events keeps.
pub handle_events-Ends {κ} :
    (P : Platform) (H : Handlers) (J : Server → Trace → Type κ)
    → ((s : Server) (event : SocketStatusInfo) (w : Trace)
        → J s w
        → Ends J (handle_event P H s event w))
    → (events : List SocketStatusInfo) (s : Server) (w : Trace) → J s w
    → Ends J (handle_events P H events s w)
unfolding handle_events
handle_events-Ends P H J keep [] s w h = h
handle_events-Ends P H J keep (event ∷ events) s w h =
    go
      (Ends-bind J J (handle_event P H s event) (handle_events P H events) w (keep s event w h)
        (handle_events-Ends P H J keep events))
      s.running
  where
    handled : R Server
    handled = handle_event P H s event >>= handle_events P H events

    go :
        Ends J (handled w)
        → (b : Bool) → Ends J ((elim b as (λ _. R Server) [ false ↦ return s | true ↦ handled ]) w)
    go k false = h
    go k true = k

pub set_conn-Kept :
    (s : Server) (ec fd : ℕ) (conn : Connection)
    → Kept s (record s { ec = ec; clients = set_conn fd conn s.clients })
set_conn-Kept s ec fd conn = (
  ids-set_conn fd conn s.clients,
  refl,
  refl,
  refl,
  sockets-set_conn fd conn s.clients,
  rw (members-set_conn fd conn s.clients) (Fades-refl (members s.clients)),
)

module _ (P : Platform) (H : Handlers) where
  -- The server as it was, but for the events that the poll has written into its group.
  abbrev pub polled_server : Server → Trace → Server
  polled_server s w = record s { poll_group = (poll P s.poll_group (pos 0) w).0.1 }

  pub handle_incoming_messages-Keeps :
      (s : Server) (w : Trace)
      → After (Kept (polled_server s w)) (handle_incoming_messages P H s w).0
  unfolding handle_incoming_messages
  handle_incoming_messages-Keeps s w =
      let (r, w') = poll P s.poll_group (pos 0) w in
      handle_events-After P H Kept Kept-refl Kept-trans remove_client-Kept set_conn-Kept
        (λ id bs. notify-Keeps P H.on_data_receive (Event.client_sent id bs)) r.0
        (polled_server s w) w'

  pub polled_server-IsWellFormed :
      (s : Server) (w : Trace) → IsWellFormed s → IsWellFormed (polled_server s w)
  polled_server-IsWellFormed s w h = (h.0, h.1, fds-poll P s.poll_group (pos 0) w ∙ h.2)

  -- Handling what the clients have sent keeps the invariant when it comes to its end, whatever the
  -- callbacks ask.
  handle_incoming_messages-IsWellFormed :
      (s : Server) (w : Trace)
      → IsWellFormed s
      → After IsWellFormed (handle_incoming_messages P H s w).0
  handle_incoming_messages-IsWellFormed s w h =
      After-mono IsWellFormed _
        (Kept-IsWellFormed (polled_server s w) (polled_server-IsWellFormed s w h))
        (handle_incoming_messages-Keeps s w)
