-- ===== src/SocketOps/Laws.antt =====
-- What src/detail/socket_ops.cpp opens, and what it leaves open.
use yonaa.Base.{ℕ, ◌≡◌, ◌≢◌, ◌⊎◌, inl, inr, refl, List, [], ◌∷◌, arith}
use yonaa.Os.Constants.{sock_stream}
use yonaa.Os.Events.{Reply, failed, value, Event, Trace}
use yonaa.Os.Platform.{Platform, SetsErrno, SkipsZero, socket_fails, connect_fails}
use yonaa.Endpoint.{Endpoint, family}
use yonaa.SocketOps.{try_connect, create_connected_socket}

pub Reply-cases : (r : Reply) → (r ≡ failed) ⊎ ((n : ℕ) × (r ≡ value n))
Reply-cases failed = inl refl
Reply-cases (value n) = inr (n, refl)

module _ (P : Platform) where
  -- The newest events of a history: a socket for the endpoint was made, and it was connected.
  abbrev pub ConnectedTo : Endpoint → ℕ → Trace → Type 0
  ConnectedTo e fd w =
      (w₀ : Trace) × (n : ℕ) × (w
        ≡ Event.connect fd e.storage.bytes (value n)
          ∷ Event.socket (family P e) sock_stream e.protocol (value fd)
          ∷ w₀)

  -- So for one of the endpoints.
  abbrev pub ConnectedToOne : List Endpoint → ℕ → Trace → Type 0
  ConnectedToOne [] fd w = ⊥
  ConnectedToOne (e ∷ es) fd w = ConnectedTo e fd w ⊎ ConnectedToOne es fd w

  pub create_connected_socket-failed :
      (e : Endpoint) (es : List Endpoint) (w : Trace)
      → (try_connect P e w).0 ≡ failed
      → create_connected_socket P (e ∷ es) w ≡ create_connected_socket P es (try_connect P e w).1
  unfolding create_connected_socket
  create_connected_socket-failed e es w h = ground arith

  pub create_connected_socket-value :
      (e : Endpoint) (es : List Endpoint) (w : Trace) (fd : ℕ)
      → (try_connect P e w).0 ≡ value fd
      → create_connected_socket P (e ∷ es) w ≡ (fd, (try_connect P e w).1)
  unfolding create_connected_socket
  create_connected_socket-value e es w fd h = ground arith

  module _ (errors : SetsErrno P) (positive : SkipsZero P) where
    abbrev Attempted : Endpoint → Reply → Trace → Type 0
    Attempted e failed w = P.errno w ≢ 0
    Attempted e (value fd) w = (fd ≢ 0) × ConnectedTo e fd w

    try_connect-Attempted :
        (e : Endpoint) (w : Trace) → Attempted e (try_connect P e w).0 (try_connect P e w).1
    unfolding try_connect
    try_connect-Attempted e w =
        elim (Reply-cases (P.socket (family P e) sock_stream e.protocol w)) [
          | inl h ↦ rw (h, try_connect) (errors _ w socket_fails)
          | inr (fd, h) ↦
              let w' = Event.socket (family P e) sock_stream e.protocol (value fd) ∷ w in
              rw (h, try_connect)
                (elim (Reply-cases (P.connect fd e.storage.bytes w')) [
                  | inl k ↦ rw (k, try_connect) (errors _ w' connect_fails)
                  | inr (n, k) ↦ rw (k, try_connect) (positive _ _ _ w fd h, (w, n, refl))
                ])
        ]

    -- The result for a list of endpoints that is not empty: a socket that was connected to one of
    -- them last, or 0 with `errno` set.
    abbrev pub Connects : List Endpoint → ℕ → Trace → Type 0
    Connects es fd w = ((fd ≢ 0) × ConnectedToOne es fd w) ⊎ ((fd ≡ 0) × (P.errno w ≢ 0))

    -- A list whose first endpoint was tried, given the result for the rest after a failure.
    first-Connects :
        (e : Endpoint) (es : List Endpoint) (w : Trace)
        → ((w' : Trace)
            → P.errno w' ≢ 0
            → Connects es (create_connected_socket P es w').0 (create_connected_socket P es w').1)
        → let (fd, w') = create_connected_socket P (e ∷ es) w in Connects (e ∷ es) fd w'
    first-Connects e es w rest = elim (Reply-cases (try_connect P e w).0) [
      | inl h ↦
          rw (create_connected_socket-failed e es w h)
            (later (rest (try_connect P e w).1 (rw h at (try_connect-Attempted e w))))
      | inr (fd, h) ↦
          let (p, c) = rw h at (try_connect-Attempted e w) in
          rw (create_connected_socket-value e es w fd h) (inl (p, inl c))
    ]
      where
        later : {fd : ℕ} {w' : Trace} → Connects es fd w' → Connects (e ∷ es) fd w'
        later (inl (p, c)) = inl (p, inr c)
        later (inr k) = inr k

    create_connected_socket-Connects_after :
        (es : List Endpoint) (w : Trace)
        → P.errno w ≢ 0
        → let (fd, w') = create_connected_socket P es w in Connects es fd w'
    unfolding create_connected_socket
    create_connected_socket-Connects_after [] w h = inr (refl, h)
    create_connected_socket-Connects_after (e ∷ es) w h =
        first-Connects e es w (create_connected_socket-Connects_after es)

    -- From a list of endpoints that is not empty comes a socket whose last two calls made it and
    -- connected it to one of them, or 0 with `errno` set. Assumed: a call that fails sets `errno`,
    -- and a new socket is not 0.
    pub create_connected_socket-Connects :
        (e : Endpoint) (es : List Endpoint) (w : Trace)
        → let (fd, w') = create_connected_socket P (e ∷ es) w in Connects (e ∷ es) fd w'
    create_connected_socket-Connects e es w =
        first-Connects e es w (create_connected_socket-Connects_after es)
