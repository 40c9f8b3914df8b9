-- ===== src/Server/Releasing.antt =====
-- `handle_incoming_messages_` closes the socket of a client only as it marks the client.
use yonaa.Base.{
  ℕ, pos, ◌≡◌, ◌≢◌, refl, ◌∷◌, not, some, none, Option-cases, inl, inr, arith, ◌==◌, ◌||◌, All-mono,
}
use yonaa.Os.Events.{Event, Trace}
use yonaa.Os.Platform.{Platform, RecvFits, SetsErrno}
use yonaa.Os.Descriptors.{is_open}
use yonaa.Os.Outcome.{return}
use yonaa.Os.Ends.{Ends, Ends-if, Ends-test, Ends-mono}
use yonaa.Buffer
use yonaa.Connection.{receive}
use yonaa.Connection.Descriptors.{receive-Leaves}
use yonaa.Poll.{SocketStatusInfo, poll, has, readable}
use yonaa.Server.{
  ClientInfo, Server, Handlers, remove_client, client_info_from_id, client_info_from_native_socket,
  mark, notify,
}
use yonaa.Server.Clients.{remove_client-Kept}
use yonaa.Server.Marks.{MarksSome, Marks-All, remove_client-Marks}
use yonaa.Server.Messages.{handle_events-Ends, polled_server, set_conn-Kept}
use yonaa.Server.Held.{
  IsHeld, HoldsUnmarked, found_held, found_known, known-set_conn, IsHeld-marked, IsHeld-set_conn,
}
use yonaa.Server.Holding.{sockets-Marks, ids-Marks, notify-open}
use yonaa.Server.Network.{
  set_conn, is_broken, receive_from, handle_client, handle_event, handle_incoming_messages,
}

remove_found :
    (s : Server) (id : ℕ)
    → client_info_from_id id s.clients ≢ none
    → (remove_client s id).clients ≡ mark id s.clients
unfolding remove_client
remove_found s id h = elim (Option-cases (client_info_from_id id s.clients)) [
  | inl e ↦ absurd (h e)
  | inr (c, e) ↦ rw (e, remove_client) refl
]

-- Requests, which mark clients and leave the descriptors as they are.
pub HoldsUnmarked-marked :
    (s : Server) (w : Trace)
    → HoldsUnmarked s w
    → (t : Server) (w' : Trace) → MarksSome s t × (is_open w' ≡ is_open w)
    → HoldsUnmarked t w'
HoldsUnmarked-marked s w h t w' (k, e) = (
  Marks-All (IsHeld w') (λ c l. (l.0, λ on. cc)) s.clients t.clients k
      (All-mono (IsHeld w) (λ c l. (l.0, rw e l.1)) s.clients h.0),
  rw (sockets-Marks s.clients t.clients k) h.1,
  rw (ids-Marks s.clients t.clients k) h.2,
)

module _ (P : Platform) (H : Handlers) (fits : RecvFits P) (errors : SetsErrno P) where
  receive_from-HoldsUnmarked :
      (s : Server) (fd : ℕ) (c : ClientInfo) (w : Trace)
      → client_info_from_native_socket fd s.clients ≡ some c
      → HoldsUnmarked s w
      → Ends HoldsUnmarked (receive_from P H s c w)
  unfolding receive_from
  receive_from-HoldsUnmarked s fd c w e h =
      let (r, w') = receive P c.conn s.ec 0 w in
      let s' = record s { ec = r.2; clients = set_conn c.fd r.1 s.clients } in
      let own = (found_held (IsHeld w) fd s.clients c e h.0).0 in
      let leaves = receive-Leaves P fits errors c.fd c.conn s.ec 0 w own in
      let k = set_conn-Kept s r.2 c.fd r.1 in
      let q = remove_client-Kept s' c.id in
      let sent = Event.client_sent c.id r.0.bytes in
      Ends-test HoldsUnmarked (not (r.2 == 0) || (Buffer.size r.0 == 0))
        (return (remove_client s' c.id)) (notify P H.on_data_receive sent s') w'
        (λ bad. (
          rw
              (remove_found s' c.id (λ n.
                found_known fd c r.1 s.clients e (known-set_conn fd c r.1 c.id c.fd s.clients n)))
              (IsHeld-marked fd c r.1 w w' leaves.1 leaves.0 s.clients e h.1 h.2 h.0),
          rw (q.4, k.4) h.1,
          rw (q.0, k.0) h.2,
        ))
        λ good.
          Ends-mono HoldsUnmarked (notify P H.on_data_receive sent s' w')
            (HoldsUnmarked-marked s' (sent ∷ w') (
              IsHeld-set_conn w w' (leaves.2 (ground arith)) c.fd r.1 leaves.0 s.clients h.0,
              rw k.4 h.1,
              rw k.0 h.2,
            ))
            (notify-open P H.on_data_receive sent s' w')

  handle_client-HoldsUnmarked :
      (s : Server) (status fd : ℕ) (c : ClientInfo) (w : Trace)
      → client_info_from_native_socket fd s.clients ≡ some c
      → HoldsUnmarked s w
      → Ends HoldsUnmarked (handle_client P H s status c w)
  unfolding handle_client
  handle_client-HoldsUnmarked s status fd c w e h =
      Ends-if HoldsUnmarked (is_broken P H status) (return (remove_client s c.id)) _ w
        (HoldsUnmarked-marked s w h (remove_client s c.id) w (remove_client-Marks s c.id, refl))
        (Ends-if HoldsUnmarked (has P status readable) (receive_from P H s c) (return s) w
          (receive_from-HoldsUnmarked s fd c w e h) h)

  handle_event-HoldsUnmarked :
      (s : Server) (event : SocketStatusInfo) (w : Trace)
      → HoldsUnmarked s w
      → Ends HoldsUnmarked (handle_event P H s event w)
  unfolding handle_event
  handle_event-HoldsUnmarked s event w h =
      elim (Option-cases (client_info_from_native_socket event.socket_fd s.clients)) [
        | inl e ↦ rw (e, handle_event) h
        | inr (c, e) ↦
            rw (e, handle_event)
              (handle_client-HoldsUnmarked s event.status event.socket_fd c w e h)
      ]

  pub handle_incoming_messages-HoldsUnmarked :
      (s : Server) (w : Trace)
      → HoldsUnmarked s w
      → Ends HoldsUnmarked (handle_incoming_messages P H s w)
  unfolding handle_incoming_messages poll
  handle_incoming_messages-HoldsUnmarked s w h =
      let (r, w') = poll P s.poll_group (pos 0) w in
      handle_events-Ends P H HoldsUnmarked (handle_event-HoldsUnmarked) r.0 (polled_server P H s w)
        w' h
