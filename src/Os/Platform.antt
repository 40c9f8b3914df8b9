-- ===== src/Os/Platform.antt =====
-- The code outside the repository, as one record of functions: the operating system's replies,
-- each of them any function of the call's arguments and of the history before it, `errno` after a
-- history, what a read past the end of an array gives, and the library `bitmask`.
use yonaa.Base.{
  ℕ, ◌≤◌, ◌<◌, ℤ, List, [], ◌∷◌, Option, Bytes, Bool, not, ◌==◌, ◌≡◌, ◌≢◌, length, bit_and, bit_or,
}
use yonaa.Os.Events.{
  Reply, failed, value, AcceptReply, accept_failed, RecvReply, recv_failed, received, PollReply,
  PollFd, AddrInfo, Event, Trace,
}

-- bitmask::bitmask, a mask being its `bits()`: `|`, `&` and the conversion to `bool`.
pub record Bitmask : Type 0 where
  pub join : ℕ → ℕ → ℕ
  pub meet : ℕ → ℕ → ℕ
  pub test : ℕ → Bool

-- Its documentation: the operators work on the bits, and a mask is true unless it has none.
pub record IsBitwise (B : Bitmask) : Type 0 where
  pub join-eq : (a b : ℕ) → B.join a b ≡ bit_or a b
  pub meet-eq : (a b : ℕ) → B.meet a b ≡ bit_and a b
  pub test-eq : (a : ℕ) → B.test a ≡ not (a == 0)

pub record Platform : Type 0 where
  pub bitmask : Bitmask
  pub errno : Trace → ℕ
  pub stray : ℕ → ℕ
  pub socket : ℕ → ℕ → ℕ → Trace → Reply
  pub connect : ℕ → Bytes → Trace → Reply
  pub set_reuse_address : ℕ → Trace → Reply
  pub bind : ℕ → Bytes → Trace → Reply
  pub listen : ℕ → ℕ → Trace → Reply
  pub accept : ℕ → Trace → AcceptReply
  -- The first `ss_size` bytes of the storage after the call, and the protocol after the call; the
  -- code reads them whether or not the call succeeded.
  pub getsockname : ℕ → Trace → Bytes
  pub getpeername : ℕ → Trace → Bytes
  pub get_protocol : ℕ → Trace → ℕ
  pub send : ℕ → Bytes → ℕ → Trace → Reply
  pub recv : ℕ → ℕ → ℕ → Trace → RecvReply
  pub poll : List PollFd → ℤ → Trace → PollReply
  pub getaddrinfo : Option Bytes → Bytes → ℕ → Trace → Option (List AddrInfo)
  pub inet_ntop : ℕ → Bytes → ℕ → Option Bytes

-- The calls that set `errno` when they fail, failing.
pub data Fails : Event → Type 0 where
  socket_fails : {d t p : ℕ} → Fails (Event.socket d t p failed)
  connect_fails : {fd : ℕ} {a : Bytes} → Fails (Event.connect fd a failed)
  accept_fails : {fd : ℕ} → Fails (Event.accept fd accept_failed)
  send_fails : {fd : ℕ} {bs : Bytes} {flags : ℕ} → Fails (Event.send fd bs flags failed)
  recv_fails : {fd size flags : ℕ} → Fails (Event.recv fd size flags recv_failed)

-- man 3 errno: a call that fails sets `errno`, and never to 0.
abbrev pub SetsErrno : Platform → Type 0
SetsErrno P = (e : Event) (w : Trace) → Fails e → P.errno (e ∷ w) ≢ 0

-- man 2 send, on a blocking socket: of a message that is not empty some bytes are taken, and at
-- most all of them.
abbrev pub SendsSome : Platform → Type 0
SendsSome P =
    (fd : ℕ) (bs : Bytes) (flags : ℕ) (w : Trace) (n : ℕ)
    → P.send fd bs flags w ≡ value n
    → bs ≢ []
    → (0 < n) × (n ≤ length bs)

-- man 2 recv: no more bytes are stored than the caller has room for.
abbrev pub RecvFits : Platform → Type 0
RecvFits P =
    (fd size flags : ℕ) (w : Trace) (bs : Bytes)
    → P.recv fd size flags w ≡ received bs
    → length bs ≤ size

-- man 2 socket: a new descriptor is the lowest that is not open. It is not 0 as long as the standard
-- input stays open.
abbrev pub SkipsZero : Platform → Type 0
SkipsZero P =
    (domain type protocol : ℕ) (w : Trace) (fd : ℕ)
    → P.socket domain type protocol w ≡ value fd
    → fd ≢ 0
