-- ===== src/Connection.antt =====
-- include/yonaa/connection.hpp and src/connection.cpp. An `std::error_code &ec` is an argument and
-- a result: its value, 0 for no error. The code only assigns to it, and never clears it.
pub mod Send
pub mod Sending
pub mod Elsewhere
pub mod Refusing
pub mod Receiving
pub mod Unseen
pub mod Descriptors
pub mod Stream
pub mod Transfer
pub mod Wire
pub mod Lifetime
pub mod Connecting
mod Tests
use yonaa.Base.{
  ℕ, zero, suc, ◌+◌, ◌-◌, pos, List, [], ◌∷◌, Bool, not, ◌||◌, Bytes, length, take, drop, bit_or,
  ◌==◌, ltb, if◌then◌else◌,
}
use yonaa.Base.Memory.{memcpy}
use yonaa.Os.Constants.{msg_peek, msg_dontroute, msg_eor, msg_nosignal}
use yonaa.Os.Events.{Trace, Reply, failed, value, RecvReply, recv_failed, received}
use yonaa.Os.Platform.{Platform}
use yonaa.Os.Calls.{M, pure, ◌>>=◌, ◌>>◌}
use yonaa.Os.Calls
use yonaa.Os.Outcome
use yonaa.Os.Outcome.{R, return, halt, lift, out_of_rounds, Thrown, returns, throws, done, stops}
use yonaa.Buffer.{Buffer, of_size, resize}
use yonaa.Buffer
use yonaa.Endpoint.{Endpoint}
use yonaa.Endpoint
use yonaa.Poll.{poll_socket, has, readable}
use yonaa.SocketOps.{create_connected_socket, get_local_endpoint, get_remote_endpoint, close_socket}

-- The value of an `std::error_code`
abbrev pub ErrorCode : Type 0
ErrorCode = ℕ

-- `enum class send_flags` and `enum class receive_flags`
pub data SendFlags : Type 0 where
  no_flags dont_route end_of_record : SendFlags

pub data ReceiveFlags : Type 0 where
  no_flags peek : ReceiveFlags

abbrev pub send_bits : SendFlags → ℕ
send_bits SendFlags.no_flags = 0x00
send_bits SendFlags.dont_route = 0x01
send_bits SendFlags.end_of_record = 0x02

abbrev pub receive_bits : ReceiveFlags → ℕ
receive_bits ReceiveFlags.no_flags = 0x00
receive_bits ReceiveFlags.peek = 0x01

abbrev pub max_buffer_size : ℕ
max_buffer_size = 8192

pub record Connection : Type 0 where
  pub socket : ℕ
  pub local_endpoint : Endpoint
  pub remote_endpoint : Endpoint

-- `connection()`
abbrev pub unopened : Connection
unopened = record { socket = 0; local_endpoint = Endpoint.empty; remote_endpoint = Endpoint.empty }

abbrev pub is_connected : Connection → Bool
is_connected c = not (c.socket == 0)

-- `native_socket`; the other getters are the fields.
abbrev pub native_socket : Connection → ℕ
native_socket c = c.socket

-- `disconnect`
unfoldable pub disconnect : Connection → M Connection
unfolding close_socket
disconnect c =
    let closing = (do close_socket c.socket; pure unopened) in
    if not (is_connected c) then pure c else closing

-- `~connection`
unfoldable pub destroy : Connection → M Connection
unfolding disconnect
destroy c = if is_connected c then disconnect c else pure c

-- `operator=(connection &&other)`: the connection that was assigned to, and `other` afterwards.
unfoldable pub move_assign : Connection → Connection → Connection × Connection
move_assign c other = (
  record {
    socket = other.socket;
    local_endpoint = other.local_endpoint;
    remote_endpoint = other.remote_endpoint;
  },
  unopened,
)

-- `connection(connection &&other)`, and `other` afterwards.
unfoldable pub move_construct : Connection → Connection × Connection
unfolding move_assign
move_construct other = move_assign unopened other

module _ (P : Platform) where
  -- `from_native_socket`
  unfoldable pub from_native_socket : ℕ → Endpoint → M Connection
  unfolding get_local_endpoint
  from_native_socket fd remote = do
    local ← get_local_endpoint P fd
    pure (record { socket = fd; local_endpoint = local; remote_endpoint = remote })

  -- The part of `connect` after the check for an empty list.
  unfoldable pub connect_to : Connection → List Endpoint → ErrorCode → M (Connection × ErrorCode)
  connect_to c remote_endpoints ec = do
    fd ← create_connected_socket P remote_endpoints
    let refused = (do error ← Calls.errno P; pure (c, error))
    let opened = (do
      local ← get_local_endpoint P fd
      remote ← get_remote_endpoint P fd
      pure (record { socket = fd; local_endpoint = local; remote_endpoint = remote }, ec))
    if fd == 0 then refused else opened

  -- `connect(remote_endpoints, ec)`
  unfoldable pub connect : Connection → List Endpoint → ErrorCode → M (Connection × ErrorCode)
  unfolding connect_to
  connect c [] ec = pure (c, 1)
  connect c (e ∷ es) ec = connect_to c (e ∷ es) ec

  -- `connect(remote_endpoints)`
  unfoldable pub connect_or_throw : Connection → List Endpoint → M (Connection × Thrown (Unit {0}))
  unfolding connect
  connect_or_throw c remote_endpoints = do
    (c', ec) ← connect c remote_endpoints 0
    pure (c', (if ec == 0 then returns tt else throws ec))

  -- The flags of `::recv`.
  unfoldable pub recv_bits : ℕ → ℕ
  recv_bits flags = bit_or 0 (
      if P.bitmask.test (P.bitmask.meet flags (receive_bits ReceiveFlags.peek))
      then msg_peek
      else 0)

  -- The part of `receive` after the check.
  unfoldable pub receive_some : Connection → ℕ → ErrorCode → ℕ → M (Buffer × Connection × ErrorCode)
  unfolding disconnect recv_bits
  receive_some c size ec flags = do
    recv_result ← Calls.recv P c.socket size (recv_bits flags)
    elim recv_result [
      | recv_failed ↦ do error ← Calls.errno P; pure (Buffer.empty, c, error)
      | received bs ↦
          let closed = (do
            c' ← disconnect c
            error ← Calls.errno P
            pure (Buffer.empty, c', error)) in
          let stored = memcpy P.stray (of_size size).bytes bs (length bs) in
          if length bs == 0
          then closed
          else pure (resize (record { bytes = stored }) (length bs), c, ec)
    ]

  -- `receive(size, ec, flags)`: the buffer, the connection and the error code afterwards.
  unfoldable pub receive_sized :
      Connection → ℕ → ErrorCode → ℕ → M (Buffer × Connection × ErrorCode)
  unfolding receive_some
  receive_sized c size ec flags =
      if not (is_connected c) || (size == 0)
      then pure (Buffer.empty, c, 1)
      else receive_some c size ec flags

  -- `receive(ec, flags)`
  unfoldable pub receive : Connection → ErrorCode → ℕ → M (Buffer × Connection × ErrorCode)
  unfolding receive_sized
  receive c ec flags = receive_sized c max_buffer_size ec flags

  -- `receive(size, flags)`
  unfoldable pub receive_sized_or_throw : Connection → ℕ → ℕ → M (Connection × Thrown Buffer)
  unfolding receive_sized
  receive_sized_or_throw c size flags = do
    (b, c', ec) ← receive_sized c size 0 flags
    pure (c', (if ec == 0 then returns b else throws ec))

  -- `receive(flags)`
  unfoldable pub receive_or_throw : Connection → ℕ → M (Connection × Thrown Buffer)
  unfolding receive_sized_or_throw
  receive_or_throw c flags = receive_sized_or_throw c max_buffer_size flags

  -- `has_data_available`, with the default timeout of `poll_socket`.
  unfoldable pub has_data_available : Connection → M Bool
  unfolding poll_socket
  has_data_available c = do status ← poll_socket P c.socket (pos 0); pure (has P status readable)
