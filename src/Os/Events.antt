-- ===== src/Os/Events.antt =====
-- What crosses the border of the library: its system calls, with what each of them returned, and
-- its calls of the user's callbacks. A `Trace` is such a history, the newest event first.
use yonaa.Base.{ℕ, ℤ, List, Option, Bytes}

-- An `int` that is -1 on an error.
pub data Reply : Type 0 where
  failed : Reply
  value : ℕ → Reply

-- `::accept`: a descriptor and the bytes of the remote address.
pub data AcceptReply : Type 0 where
  accept_failed : AcceptReply
  accepted : ℕ → Bytes → AcceptReply

-- `::recv`: the bytes that it stored, whose number it returned.
pub data RecvReply : Type 0 where
  recv_failed : RecvReply
  received : Bytes → RecvReply

-- `::poll`: whether it failed, the number of descriptors with events, and the `revents` that each
-- position has after the call, whatever they are after one that failed.
pub data PollReply : Type 0 where
  poll_failed : (ℕ → ℕ) → PollReply
  polled : ℕ → (ℕ → ℕ) → PollReply

-- `struct pollfd`
pub record PollFd : Type 0 where
  pub fd : ℕ
  pub events : ℕ
  pub revents : ℕ

-- The members of `struct addrinfo` that the code reads.
pub record AddrInfo : Type 0 where
  pub ai_protocol : ℕ
  pub ai_addr : Bytes

pub data Event : Type 0 where
  socket : ℕ → ℕ → ℕ → Reply → Event
  connect : ℕ → Bytes → Reply → Event
  set_reuse_address : ℕ → Reply → Event
  bind : ℕ → Bytes → Reply → Event
  listen : ℕ → ℕ → Reply → Event
  accept : ℕ → AcceptReply → Event
  getsockname : ℕ → Bytes → Event
  getpeername : ℕ → Bytes → Event
  get_protocol : ℕ → ℕ → Event
  shutdown : ℕ → Event
  close : ℕ → Event
  send : ℕ → Bytes → ℕ → Reply → Event
  recv : ℕ → ℕ → ℕ → RecvReply → Event
  poll : List PollFd → ℤ → PollReply → Event
  getaddrinfo : Option Bytes → Bytes → ℕ → Option (List AddrInfo) → Event
  freeaddrinfo : Event
  client_connected : ℕ → Event
  client_sent : ℕ → Bytes → Event
  client_disconnected : ℕ → Event
  server_connected : Event
  server_sent : Bytes → Event
  server_disconnected : Event

abbrev pub Trace : Type 0
Trace = List Event
