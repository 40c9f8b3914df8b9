-- ===== src/Acceptor.antt =====
-- include/yonaa/acceptor.hpp and src/acceptor.cpp.
pub mod Opening
pub mod Accepting
mod Tests
use yonaa.Base.{ℕ, pos, List, [], ◌∷◌, Bool, not, length, ◌==◌, if◌then◌else◌}
use yonaa.Os.Events.{accept_failed, accepted}
use yonaa.Os.Platform.{Platform}
use yonaa.Os.Calls.{M, pure, ◌>>=◌, ◌>>◌}
use yonaa.Os.Calls
use yonaa.Os.Outcome.{Thrown, returns, throws}
use yonaa.Endpoint.{Endpoint, from_native_address}
use yonaa.Endpoint
use yonaa.Poll.{poll_socket, has, readable}
use yonaa.SocketOps.{create_listening_socket, get_local_endpoint, close_socket}
use yonaa.Connection.{Connection, ErrorCode, unopened, from_native_socket}

-- `enum class acceptor_config`
pub data AcceptorConfig : Type 0 where
  no_config reuse_address : AcceptorConfig

abbrev pub config_bits : AcceptorConfig → ℕ
config_bits no_config = 0x00
config_bits reuse_address = 0x01

abbrev pub backlog_size : ℕ
backlog_size = 128

pub record Acceptor : Type 0 where
  pub socket : ℕ
  pub local_endpoint : Endpoint

-- `acceptor()`
abbrev pub closed : Acceptor
closed = record { socket = 0; local_endpoint = Endpoint.empty }

abbrev pub is_open : Acceptor → Bool
is_open a = not (a.socket == 0)

unfoldable pub close : Acceptor → M Acceptor
unfolding close_socket
close a =
    let closing = (do close_socket a.socket; pure closed) in
    if not (is_open a) then pure a else closing

-- `~acceptor`
unfoldable pub destroy : Acceptor → M Acceptor
unfolding close
destroy a = if is_open a then close a else pure a

module _ (P : Platform) where
  -- The part of `open` after the check for an empty list.
  unfoldable pub open_on : Acceptor → List Endpoint → ErrorCode → ℕ → M (Acceptor × ErrorCode)
  open_on a local_endpoints ec cfg = do
    let reuse_addr = P.bitmask.test (P.bitmask.meet cfg (config_bits reuse_address))
    fd ← create_listening_socket P local_endpoints backlog_size reuse_addr
    let opened = (do
      local ← get_local_endpoint P fd
      pure (record { socket = fd; local_endpoint = local }, ec))
    if fd == 0 then pure (a, 32) else opened

  -- `open(local_endpoints, ec, cfg)`
  unfoldable pub open_at : Acceptor → List Endpoint → ErrorCode → ℕ → M (Acceptor × ErrorCode)
  unfolding open_on
  open_at a [] ec cfg = pure (a, 1)
  open_at a (e ∷ es) ec cfg = open_on a (e ∷ es) ec cfg

  -- `open(local_endpoints, cfg)`
  unfoldable pub open_at_or_throw : Acceptor → List Endpoint → ℕ → M (Acceptor × Thrown (Unit {0}))
  unfolding open_at
  open_at_or_throw a local_endpoints cfg = do
    (a', ec) ← open_at a local_endpoints 0 cfg
    pure (a', (if ec == 0 then returns tt else throws ec))

  unfoldable pub has_pending_connection : Acceptor → M Bool
  unfolding poll_socket
  has_pending_connection a = do
    socket_status ← poll_socket P a.socket (pos 0)
    pure (has P socket_status readable)

  -- The part of `accept` after the check.
  unfoldable pub accept_on : Acceptor → ErrorCode → M (Connection × ErrorCode)
  accept_on a ec = do
    reply ← Calls.accept P a.socket
    elim reply [
      | accept_failed ↦ do error ← Calls.errno P; pure (unopened, error)
      | accepted fd addr ↦ do
        conn ←
            from_native_socket P fd
              (from_native_address P a.local_endpoint.protocol addr (length addr))
        pure (conn, ec)
    ]

  -- `accept(ec)`
  unfoldable pub accept : Acceptor → ErrorCode → M (Connection × ErrorCode)
  unfolding accept_on
  accept a ec = if not (is_open a) then pure (unopened, 1) else accept_on a ec

  -- `accept()`
  unfoldable pub accept_or_throw : Acceptor → M (Thrown Connection)
  unfolding accept
  accept_or_throw a = do (conn, ec) ← accept a 0; pure (if ec == 0 then returns conn else throws ec)
