-- ===== src/SocketOps.antt =====
-- src/detail/socket_ops.cpp. A descriptor is a number, and 0 stands for none.
pub mod Laws
pub mod Leaks
pub mod Listening
mod Tests
use yonaa.Base.{ℕ, List, [], ◌∷◌, Bool, true, false, length}
use yonaa.Os.Constants.{sock_stream}
use yonaa.Os.Events.{Event, Reply, failed, value}
use yonaa.Os.Platform.{Platform}
use yonaa.Os.Calls.{M, pure, emit, ◌>>=◌, ◌>>◌}
use yonaa.Os.Calls
use yonaa.Endpoint.{Endpoint, from_native_address, family, size}

-- `close_socket`, whose two results are dropped.
unfoldable pub close_socket : ℕ → M (Unit {0})
close_socket fd = do emit (Event.shutdown fd); emit (Event.close fd)

module _ (P : Platform) where
  -- `detail::get_endpoint`. The results of the two queries are not checked.
  unfoldable pub get_endpoint : ℕ → Bool → M Endpoint
  get_endpoint fd local_socket = do
    name ← elim local_socket [ true ↦ Calls.getsockname P fd | false ↦ Calls.getpeername P fd ]
    protocol ← Calls.get_protocol P fd
    pure (from_native_address P protocol name (length name))

  unfoldable pub get_local_endpoint : ℕ → M Endpoint
  unfolding get_endpoint
  get_local_endpoint fd = get_endpoint fd true

  unfoldable pub get_remote_endpoint : ℕ → M Endpoint
  unfolding get_endpoint
  get_remote_endpoint fd = get_endpoint fd false

  -- The body of the loop of `create_connected_socket`: `failed` is its `continue`.
  unfoldable pub try_connect : Endpoint → M Reply
  try_connect e = do
    socket_result ← Calls.socket P (family P e) sock_stream e.protocol
    elim socket_result [
      | failed ↦ pure failed
      | value fd ↦ do
        connect_result ← Calls.connect P fd e.storage.bytes
        elim connect_result [ failed ↦ pure failed | value _ ↦ pure (value fd) ]
    ]

  unfoldable pub create_connected_socket : List Endpoint → M ℕ
  create_connected_socket [] = pure 0
  create_connected_socket (e ∷ es) = do
    attempt ← try_connect e
    elim attempt [ failed ↦ create_connected_socket es | value fd ↦ pure fd ]

  -- The option that `create_listening_socket` sets if it is asked to.
  abbrev set_options : ℕ → Bool → M Reply
  set_options fd reuse_addr = elim reuse_addr [
    | true ↦ Calls.set_reuse_address P fd
    | false ↦ pure (value 0)
  ]

  -- The body of the loop of `create_listening_socket`.
  unfoldable pub try_listen : ℕ → Bool → Endpoint → M Reply
  try_listen backlog_size reuse_addr e = do
    socket_result ← Calls.socket P (family P e) sock_stream e.protocol
    elim socket_result [
      | failed ↦ pure failed
      | value fd ↦ do
        sso_result ← set_options fd reuse_addr
        elim sso_result [
          | failed ↦ pure failed
          | value _ ↦ do
            bind_result ← Calls.bind P fd e.storage.bytes
            elim bind_result [
              | failed ↦ pure failed
              | value _ ↦ do
                listen_result ← Calls.listen P fd backlog_size
                elim listen_result [ failed ↦ pure failed | value _ ↦ pure (value fd) ]
            ]
        ]
    ]

  unfoldable pub create_listening_socket : List Endpoint → ℕ → Bool → M ℕ
  create_listening_socket [] backlog_size reuse_addr = pure 0
  create_listening_socket (e ∷ es) backlog_size reuse_addr = do
    attempt ← try_listen backlog_size reuse_addr e
    elim attempt [
      | failed ↦ create_listening_socket es backlog_size reuse_addr
      | value fd ↦ pure fd
    ]
