-- ===== src/Told/Quiet.antt =====
-- The operations on connections, acceptors and poll groups call no callback.
use yonaa.Base.{ℕ, ℤ, ◌≡◌, refl, List, [], ◌∷◌, Bool, Bytes, inl, inr, arith}
use yonaa.Os.Events.{Event, Trace}
use yonaa.Os.Platform.{Platform}
use yonaa.Endpoint.{Endpoint}
use yonaa.Poll.{PollGroup, poll, poll_socket}
use yonaa.SocketOps.Laws.{Reply-cases}
use yonaa.SocketOps.{
  create_listening_socket, try_listen, create_connected_socket, try_connect, get_remote_endpoint,
  get_local_endpoint,
}
use yonaa.Connection.{
  Connection, connect, connect_to, disconnect, destroy, receive, receive_sized, receive_some,
  from_native_socket, recv_bits, max_buffer_size, has_data_available,
}
use yonaa.Acceptor.{
  Acceptor, accept, accept_on, close, open_at, open_on, backlog_size, config_bits, reuse_address,
  has_pending_connection,
}
use yonaa.Resolve.{resolve, getaddrinfo}
use yonaa.Told.{told}

pub told-disconnect : (c : Connection) (w : Trace) → told (disconnect c w).1 ≡ told w
unfolding disconnect
told-disconnect c w = ground arith

pub told-destroy : (c : Connection) (w : Trace) → told (destroy c w).1 ≡ told w
unfolding destroy
told-destroy c w = ground (arith, told-disconnect c w)

pub told-close : (a : Acceptor) (w : Trace) → told (close a w).1 ≡ told w
unfolding close
told-close a w = ground arith

module _ (P : Platform) where
  pub told-poll : (g : PollGroup) (t : ℤ) (w : Trace) → told (poll P g t w).1 ≡ told w
  unfolding poll
  told-poll g t w = refl

  told-poll_socket : (fd : ℕ) (t : ℤ) (w : Trace) → told (poll_socket P fd t w).1 ≡ told w
  unfolding poll_socket
  told-poll_socket fd t w = refl

  pub told-has_pending_connection :
      (a : Acceptor) (w : Trace) → told (has_pending_connection P a w).1 ≡ told w
  unfolding has_pending_connection poll_socket
  told-has_pending_connection a w = refl

  pub told-has_data_available :
      (c : Connection) (w : Trace) → told (has_data_available P c w).1 ≡ told w
  unfolding has_data_available poll_socket
  told-has_data_available c w = refl

  pub told-receive :
      (c : Connection) (ec flags : ℕ) (w : Trace) → told (receive P c ec flags w).1 ≡ told w
  unfolding receive receive_sized receive_some
  told-receive c ec flags w = ground (
    arith,
    told-disconnect c (
        Event.recv c.socket max_buffer_size (recv_bits P flags)
          (P.recv c.socket max_buffer_size (recv_bits P flags) w)
        ∷ w),
  )

  pub told-accept : (a : Acceptor) (ec : ℕ) (w : Trace) → told (accept P a ec w).1 ≡ told w
  unfolding accept accept_on from_native_socket get_local_endpoint
  told-accept a ec w = ground arith

  try_connect-told : (e : Endpoint) (w : Trace) → told (try_connect P e w).1 ≡ told w
  unfolding try_connect
  try_connect-told e w = ground arith

  create_connected_socket-told :
      (es : List Endpoint) (w : Trace) → told (create_connected_socket P es w).1 ≡ told w
  unfolding create_connected_socket
  create_connected_socket-told [] w = refl
  create_connected_socket-told (e ∷ es) w =
      let v = (try_connect P e w).1 in
      elim (Reply-cases (try_connect P e w).0) [
        | inl f ↦ ground (arith, f, create_connected_socket-told es v, try_connect-told e w)
        | inr (k, f) ↦ ground (arith, f, try_connect-told e w)
      ]

  pub told-connect :
      (c : Connection) (es : List Endpoint) (ec : ℕ) (w : Trace)
      → told (connect P c es ec w).1 ≡ told w
  unfolding connect connect_to get_local_endpoint get_remote_endpoint
  told-connect c [] ec w = refl
  told-connect c (e ∷ es) ec w = ground (arith, create_connected_socket-told (e ∷ es) w)

  try_listen-told :
      (n : ℕ) (b : Bool) (e : Endpoint) (w : Trace) → told (try_listen P n b e w).1 ≡ told w
  unfolding try_listen
  try_listen-told n b e w = ground arith

  create_listening_socket-told :
      (es : List Endpoint) (n : ℕ) (b : Bool) (w : Trace)
      → told (create_listening_socket P es n b w).1 ≡ told w
  unfolding create_listening_socket
  create_listening_socket-told [] n b w = refl
  create_listening_socket-told (e ∷ es) n b w =
      let v = (try_listen P n b e w).1 in
      elim (Reply-cases (try_listen P n b e w).0) [
        | inl f ↦ ground (arith, f, create_listening_socket-told es n b v, try_listen-told n b e w)
        | inr (k, f) ↦ ground (arith, f, try_listen-told n b e w)
      ]

  pub told-open_at :
      (a : Acceptor) (es : List Endpoint) (ec cfg : ℕ) (w : Trace)
      → told (open_at P a es ec cfg w).1 ≡ told w
  unfolding open_at open_on get_local_endpoint
  told-open_at a [] ec cfg w = refl
  told-open_at a (e ∷ es) ec cfg w = ground (
    arith,
    create_listening_socket-told (e ∷ es) backlog_size
        (P.bitmask.test (P.bitmask.meet cfg (config_bits reuse_address))) w,
  )

  pub told-resolve :
      (host service : Bytes) (ec : ℕ) (w : Trace) → told (resolve P host service ec w).1 ≡ told w
  unfolding resolve getaddrinfo
  told-resolve host service ec w = ground arith
