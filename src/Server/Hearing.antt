-- ===== src/Server/Hearing.antt =====
-- `handle_incoming_messages_` keeps the order of the callbacks: data come from clients that are
-- connected, and no more of them than the buffer has room for.
use yonaa.Base.{
  ℕ, pos, ◌≤◌, ◌≡◌, refl, List, [], ◌∷◌, false, not, some, Bool-cases, Option-cases, inl, inr,
  arith, ◌==◌, ◌||◌,
}
use mathlib.Core.List.{Memᴰ}
use yonaa.Os.Events.{Event, Trace}
use yonaa.Os.Platform.{Platform, RecvFits, SetsErrno}
use yonaa.Os.Outcome.{return}
use yonaa.Os.Ends.{Ends, Ends-if, Ends-test, Ends-mono}
use yonaa.Buffer
use yonaa.Buffer.{Buffer}
use yonaa.Connection.{receive, max_buffer_size}
use yonaa.Connection.Receiving.{receive-size}
use yonaa.Poll.{SocketStatusInfo, poll, has, readable}
use yonaa.Told.Quiet.{told-poll, told-receive}
use yonaa.Server.{
  ClientInfo, Server, Handlers, remove_client, client_info_from_native_socket, notify,
}
use yonaa.Server.Clients.{ids, remove_client-Kept}
use yonaa.Server.Messages.{handle_events-Ends, set_conn-Kept, polled_server}
use yonaa.Server.Network.{
  set_conn, is_broken, receive_from, handle_client, handle_event, handle_incoming_messages,
}
use yonaa.Server.Telling.{notify-told}
use yonaa.Server.Ordering.{IsTold, IsTold-same, IsTold-Kept}

found_joined :
    (fd : ℕ) (cs : List ClientInfo) (c : ClientInfo)
    → client_info_from_native_socket fd cs ≡ some c
    → Memᴰ c.id (ids cs)
found_joined fd [] c e = cc
found_joined fd (d ∷ cs) c e = elim (Bool-cases (d.fd == fd)) [
  | inl h ↦ Memᴰ.head (ground arith)
  | inr h ↦ Memᴰ.tail (found_joined fd cs c (ground arith))
]

-- Data from a client that is connected.
IsTold-sent :
    (s : Server) (w : Trace) (id : ℕ) (b : Buffer)
    → Memᴰ id (ids s.clients)
    → (Buffer.size b == 0) ≡ false
    → Buffer.size b ≤ max_buffer_size
    → IsTold s w
    → IsTold s (Event.client_sent id b.bytes ∷ w)
IsTold-sent s w id b m n l h = (h.0, h.1, (rw h.0 m, ground arith, l, h.2))

module _ (P : Platform) (H : Handlers) (fits : RecvFits P) (errors : SetsErrno P) where
  receive_from-IsTold :
      (s : Server) (c : ClientInfo) (w : Trace)
      → Memᴰ c.id (ids s.clients)
      → IsTold s w
      → Ends IsTold (receive_from P H s c w)
  unfolding receive_from
  receive_from-IsTold s c w m h =
      let (r, w') = receive P c.conn s.ec 0 w in
      let s' = record s { ec = r.2; clients = set_conn c.fd r.1 s.clients } in
      let k = set_conn-Kept s r.2 c.fd r.1 in
      let t = IsTold-Kept s w h s' w' (k, told-receive P c.conn s.ec 0 w) in
      let e = Event.client_sent c.id r.0.bytes in
      let quiet = receive-size P fits errors c.conn s.ec 0 w in
      Ends-test IsTold (not (r.2 == 0) || (Buffer.size r.0 == 0)) (return (remove_client s' c.id))
        (notify P H.on_data_receive e s') w'
        (λ bad. IsTold-Kept s' w' t (remove_client s' c.id) w' (remove_client-Kept s' c.id, refl))
        λ good.
          Ends-mono IsTold (notify P H.on_data_receive e s' w')
            (IsTold-Kept s' (e ∷ w')
              (IsTold-sent s' w' c.id r.0 (rw k.0 m) (ground arith) quiet.0 t))
            (notify-told P H.on_data_receive e s' w')

  handle_client-IsTold :
      (s : Server) (status : ℕ) (c : ClientInfo) (w : Trace)
      → Memᴰ c.id (ids s.clients)
      → IsTold s w
      → Ends IsTold (handle_client P H s status c w)
  unfolding handle_client
  handle_client-IsTold s status c w m h =
      Ends-if IsTold (is_broken P H status) (return (remove_client s c.id)) _ w
        (IsTold-Kept s w h (remove_client s c.id) w (remove_client-Kept s c.id, refl))
        (Ends-if IsTold (has P status readable) (receive_from P H s c) (return s) w
          (receive_from-IsTold s c w m h) h)

  handle_event-IsTold :
      (s : Server) (event : SocketStatusInfo) (w : Trace)
      → IsTold s w
      → Ends IsTold (handle_event P H s event w)
  unfolding handle_event
  handle_event-IsTold s event w h =
      elim (Option-cases (client_info_from_native_socket event.socket_fd s.clients)) [
        | inl e ↦ rw (e, handle_event) h
        | inr (c, e) ↦
            rw (e, handle_event)
              (handle_client-IsTold s event.status c w (found_joined event.socket_fd s.clients c e)
                h)
      ]

  pub handle_incoming_messages-IsTold :
      (s : Server) (w : Trace) → IsTold s w → Ends IsTold (handle_incoming_messages P H s w)
  unfolding handle_incoming_messages
  handle_incoming_messages-IsTold s w h =
      let (r, w') = poll P s.poll_group (pos 0) w in
      handle_events-Ends P H IsTold (handle_event-IsTold) r.0 (polled_server P H s w) w' (
        IsTold-same s (polled_server P H s w) w w' refl refl (told-poll P s.poll_group (pos 0) w) h)
