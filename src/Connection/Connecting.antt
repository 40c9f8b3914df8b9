-- ===== src/Connection/Connecting.antt =====
-- `connection::connect`: what is connected, and what the error code says.
use yonaa.Base.{◌≡◌, ◌≢◌, ◌⊎◌, inl, inr, refl, List, ◌∷◌, true, arith}
use yonaa.Os.Events.{Trace}
use yonaa.Os.Platform.{Platform, SetsErrno, SkipsZero}
use yonaa.Os.Outcome.{returns}
use yonaa.Endpoint.{Endpoint}
use yonaa.SocketOps.{create_connected_socket}
use yonaa.SocketOps.Laws.{ConnectedToOne, create_connected_socket-Connects}
use yonaa.Connection.{Connection, ErrorCode, is_connected, connect, connect_to, connect_or_throw}

module _ (P : Platform) where
  -- After a call that began with `c` and `ec` after the history `w`: the connection is open on a
  -- socket that was connected to one of the endpoints, and the error code is as it was; or the
  -- connection is as it was, and the error code is set.
  abbrev pub Opens :
      List Endpoint → Connection → ErrorCode → Trace → Connection × ErrorCode → Type 0
  Opens es c ec w (c', ec') =
      ((is_connected c' ≡ true)
        × (ec' ≡ ec)
        × ConnectedToOne P es c'.socket (create_connected_socket P es w).1)
      ⊎ ((c' ≡ c) × (ec' ≢ 0))

  connect_to-refused :
      (c : Connection) (es : List Endpoint) (ec : ErrorCode) (w : Trace)
      → (create_connected_socket P es w).0 ≡ 0
      → let w' = (create_connected_socket P es w).1 in
        connect_to P c es ec w ≡ ((c, P.errno w'), w')
  unfolding connect_to
  connect_to-refused c es ec w h = ground arith

  connect_to-opened :
      (c : Connection) (es : List Endpoint) (ec : ErrorCode) (w : Trace)
      → (create_connected_socket P es w).0 ≢ 0
      → ((connect_to P c es ec w).0.0.socket ≡ (create_connected_socket P es w).0)
        × ((connect_to P c es ec w).0.1 ≡ ec)
  unfolding connect_to
  connect_to-opened c es ec w h = ground arith

  module _ (errors : SetsErrno P) (positive : SkipsZero P) where
    -- For a list of endpoints that is not empty, `connect` opens the connection and keeps the error
    -- code, or leaves the connection alone and sets it. Assumed: a call that fails sets `errno`,
    -- and a new socket is not 0.
    pub connect-Opens :
        (c : Connection) (e : Endpoint) (es : List Endpoint) (ec : ErrorCode) (w : Trace)
        → Opens (e ∷ es) c ec w (connect P c (e ∷ es) ec w).0
    unfolding connect
    connect-Opens c e es ec w = elim (create_connected_socket-Connects P errors positive e es w) [
      | inl (p, h) ↦
          let (s, k) = connect_to-opened c (e ∷ es) ec w p in inl (rw s (ground arith), k, rw s h)
      | inr (z, h) ↦ rw (connect_to-refused c (e ∷ es) ec w z) (inr (refl, h))
    ]

    -- If the overload without an error code returns, for a list that is not empty, the connection
    -- is open, also when it was not before. Assumed: a call that fails sets `errno`, and a new
    -- socket is not 0.
    connect_or_throw-returns :
        (c : Connection) (e : Endpoint) (es : List Endpoint) (w : Trace)
        → (connect_or_throw P c (e ∷ es) w).0.1 ≡ returns tt
        → is_connected (connect_or_throw P c (e ∷ es) w).0.0 ≡ true
    unfolding connect_or_throw
    connect_or_throw-returns c e es w h = ground (arith, connect-Opens c e es 0 w)
