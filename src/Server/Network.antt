-- ===== src/Server/Network.antt =====
-- The handlers of the network thread of src/server.cpp. A loop that the environment may keep going
-- has a number of rounds.
use yonaa.Base.{
  ℕ, zero, suc, ◌+◌, ◌-◌, ◌%◌, ◌^◌, pos, List, [], ◌∷◌, ◌++◌, Bool, true, false, not, Option, none,
  some, ◌||◌, length, take, ◌==◌, if◌then◌else◌,
}
use yonaa.Os.Events.{Event}
use yonaa.Os.Platform.{Platform}
use yonaa.Os.Calls.{M}
use yonaa.Os.Calls
use yonaa.Os.Outcome.{R, return, halt, lift, ◌>>=◌, out_of_rounds, null_pointer}
use yonaa.Buffer
use yonaa.Connection.{
  Connection, native_socket, disconnect, destroy, receive, ReceiveFlags, receive_bits, unopened,
}
use yonaa.Acceptor.{has_pending_connection, accept}
use yonaa.Server.Emptied.{notify_at_null}
use yonaa.Poll.{
  SocketStatusInfo, bits, readable, error, hung_up, has, add_socket, remove_socket, poll,
}
use yonaa.Server.{
  ClientInfo, Server, Handlers, client_info_from_native_socket, remove_client, notify,
}

-- `next_available_id++` and `next_available_id--` on an `uint64_t`
abbrev pub next_id : ℕ → ℕ
next_id n = (n + 1) % 2 ^ 64

abbrev pub previous_id : ℕ → ℕ
previous_id n = (n + 2 ^ 64 - 1) % 2 ^ 64

-- The clients after an assignment to `conn` through the pointer to the first one with the socket.
abbrev pub set_conn : ℕ → Connection → List ClientInfo → List ClientInfo
set_conn fd conn [] = []
set_conn fd conn (c ∷ cs) =
    let rest = set_conn fd conn cs in if c.fd == fd then record c { conn = conn } ∷ cs else c ∷ rest

-- An element of `clients_` while `std::remove_if` and the loop after it run: `none` is a pointer
-- that was moved from.
abbrev pub Slot : Type 0
Slot = Option ClientInfo

-- `~unique_ptr<client_info>`
unfoldable pub destroy_slot : Slot → M Connection
destroy_slot none = Calls.pure unopened
destroy_slot (some c) = destroy c.conn

-- `std::remove_if` for the clients that are not connected. `gap` is the range from the end of the
-- clients kept so far to the client that is looked at. A client that is kept stays where it is as
-- long as the gap is empty; later it is moved to the start of the gap, which destroys what stands
-- there, and leaves a null pointer behind. The result is the clients kept and the range after them.
unfoldable pub remove_if : List Slot → List ClientInfo → R (List ClientInfo × List Slot)
remove_if gap [] = return ([], gap)
remove_if gap (c ∷ cs) = elim c.is_connected [
  | true ↦ elim gap [
    | [] ↦ do (kept, rest) ← remove_if [] cs; return (c ∷ kept, rest)
    | g ∷ gs ↦ do
      _ ← lift (destroy_slot g)
      (kept, rest) ← remove_if (gs ++ (none ∷ [])) cs
      return (c ∷ kept, rest)
  ]
  | false ↦ remove_if (gap ++ (some c ∷ [])) cs
]

-- Whether a null pointer is left in the vector, behind the clients that are in front of it.
abbrev pub has_null : List Slot → Bool
has_null [] = false
has_null (none ∷ slots) = true
has_null (some c ∷ slots) = has_null slots

-- The clients up to the first null pointer.
abbrev pub in_front : List Slot → List ClientInfo
in_front [] = []
in_front (none ∷ slots) = []
in_front (some c ∷ slots) = c ∷ in_front slots

abbrev pub set_conn_at : ℕ → Connection → List ClientInfo → List ClientInfo
set_conn_at i conn [] = []
set_conn_at zero conn (c ∷ cs) = record c { conn = conn } ∷ cs
set_conn_at (suc i) conn (c ∷ cs) = c ∷ set_conn_at i conn cs

module _ (P : Platform) (H : Handlers) where
  -- A round of `handle_incoming_connections_`, once a connection is pending.
  unfoldable pub accept_client : Server → R Server
  accept_client s = do
    (conn, ec) ← lift (accept P s.acceptor s.ec)
    let id = s.next_available_id
    let counted = record s { ec = ec; next_available_id = next_id id }
    let refused = (do
      _ ← lift (destroy conn)
      return (record counted { next_available_id = previous_id counted.next_available_id }))
    let c : ClientInfo = record {
      id = id;
      conn = conn;
      fd = native_socket conn;
      is_connected = true;
    }
    let added = record counted {
      clients = s.clients ++ (c ∷ []);
      poll_group = add_socket s.poll_group c.fd;
    }
    if ec == 0 then notify P H.on_client_connect (Event.client_connected id) added else refused

  -- `handle_incoming_connections_`
  unfoldable pub handle_incoming_connections : ℕ → Server → R Server
  handle_incoming_connections zero s = halt out_of_rounds
  handle_incoming_connections (suc rounds) s = elim s.running [
    | false ↦ return s
    | true ↦ do
      pending ← lift (has_pending_connection P s.acceptor)
      elim pending [
        | false ↦ return s
        | true ↦ do s' ← accept_client s; handle_incoming_connections rounds s'
      ]
  ]

  -- The part of `handle_incoming_messages_` for a client whose socket is readable.
  unfoldable pub receive_from : Server → ClientInfo → R Server
  receive_from s c = do
    (message, conn, ec) ← lift (receive P c.conn s.ec (receive_bits ReceiveFlags.no_flags))
    let s' = record s { ec = ec; clients = set_conn c.fd conn s.clients }
    let received = notify P H.on_data_receive (Event.client_sent c.id message.bytes) s'
    if not (ec == 0) || (Buffer.size message == 0) then return (remove_client s' c.id) else received

  abbrev pub is_broken : ℕ → Bool
  is_broken status =
      P.bitmask.test (P.bitmask.meet status (P.bitmask.join (bits error) (bits hung_up)))

  unfoldable pub handle_client : Server → ℕ → ClientInfo → R Server
  handle_client s status c =
      if is_broken status
      then return (remove_client s c.id)
      else if has P status readable
      then receive_from s c
      else return s

  unfoldable pub handle_event : Server → SocketStatusInfo → R Server
  handle_event s event = elim (client_info_from_native_socket event.socket_fd s.clients) [
    | none ↦ return s
    | some c ↦ handle_client s event.status c
  ]

  unfoldable pub handle_events : List SocketStatusInfo → Server → R Server
  handle_events [] s = return s
  handle_events (event ∷ events) s = elim s.running [
    | false ↦ return s
    | true ↦ do s' ← handle_event s event; handle_events events s'
  ]

  -- `handle_incoming_messages_`
  unfoldable pub handle_incoming_messages : Server → R Server
  handle_incoming_messages s = do
    (events, group) ← lift (poll P s.poll_group (pos 0))
    handle_events events (record s { poll_group = group })

  -- The call of the callback for a client that is gone, `null` being whether the vector holds a null
  -- pointer.
  unfoldable pub part_with : Bool → Event → Server → R Server
  unfolding notify_at_null
  part_with null gone s = elim null [
    | true ↦ notify_at_null P H.on_client_disconnect gone s
    | false ↦ notify P H.on_client_disconnect gone s
  ]

  -- The loop of `handle_disconnected_clients_`, at position `i` of the clients. While the vector holds
  -- a null pointer, the server's `clients` are those in front of it.
  unfoldable pub farewell : List Slot → Bool → ℕ → Server → R Server
  farewell [] null i s = return s
  farewell (none ∷ slots) null i s = halt null_pointer
  farewell (some c ∷ slots) null i s = do
    conn ← lift (disconnect c.conn)
    let s' = record s {
      clients = set_conn_at i conn s.clients;
      poll_group = remove_socket s.poll_group c.fd;
    }
    s'' ← part_with null (Event.client_disconnected c.id) s'
    farewell slots null (suc i) s''

  -- `handle_disconnected_clients_`. The clients that are erased at the end have been disconnected in
  -- the loop, so that destroying them makes no system call.
  unfoldable pub handle_disconnected_clients : Server → R Server
  handle_disconnected_clients s = elim s.has_disconnected_clients [
    | false ↦ return s
    | true ↦ do
      (kept, rest) ← remove_if [] s.clients
      s' ←
          farewell rest (has_null rest) (length kept) (record s { clients = kept ++ in_front rest })
      return (record s' { clients = take (length kept) s'.clients })
  ]
