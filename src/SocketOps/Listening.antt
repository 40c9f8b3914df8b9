-- ===== src/SocketOps/Listening.antt =====
-- `create_listening_socket`: what the socket that it returns has been through.
use yonaa.Base.{ℕ, ◌≡◌, ◌≢◌, ◌⊎◌, inl, inr, refl, List, [], ◌∷◌, Bool, true, false, arith}
use yonaa.Os.Constants.{sock_stream}
use yonaa.Os.Events.{Reply, failed, value, Event, Trace}
use yonaa.Os.Platform.{Platform, SkipsZero}
use yonaa.Endpoint.{Endpoint, family}
use yonaa.SocketOps.{try_listen, create_listening_socket}
use yonaa.SocketOps.Laws.{Reply-cases}

-- A history with the option set if it was asked for.
abbrev pub with_option : Bool → ℕ → ℕ → Trace → Trace
with_option true fd n w = Event.set_reuse_address fd (value n) ∷ w
with_option false fd n w = w

module _ (P : Platform) (backlog : ℕ) (reuse_addr : Bool) where
  -- The newest events of a history: a socket for the endpoint was made, had its option set if that
  -- was asked for, was bound to the endpoint, and listens.
  abbrev pub ListensOn : Endpoint → ℕ → Trace → Type 0
  ListensOn e fd w =
      (w₀ : Trace) × (n : ℕ) × (b : ℕ) × (l : ℕ) × (w
        ≡ Event.listen fd backlog (value l)
          ∷ Event.bind fd e.storage.bytes (value b)
          ∷ with_option reuse_addr fd n
              (Event.socket (family P e) sock_stream e.protocol (value fd) ∷ w₀))

  -- So for one of the endpoints.
  abbrev pub ListensOnOne : List Endpoint → ℕ → Trace → Type 0
  ListensOnOne [] fd w = ⊥
  ListensOnOne (e ∷ es) fd w = ListensOn e fd w ⊎ ListensOnOne es fd w

  create_listening_socket-failed :
      (e : Endpoint) (es : List Endpoint) (w : Trace)
      → (try_listen P backlog reuse_addr e w).0 ≡ failed
      → create_listening_socket P (e ∷ es) backlog reuse_addr w
        ≡ create_listening_socket P es backlog reuse_addr (try_listen P backlog reuse_addr e w).1
  unfolding create_listening_socket
  create_listening_socket-failed e es w h = ground arith

  create_listening_socket-value :
      (e : Endpoint) (es : List Endpoint) (w : Trace) (fd : ℕ)
      → (try_listen P backlog reuse_addr e w).0 ≡ value fd
      → create_listening_socket P (e ∷ es) backlog reuse_addr w
        ≡ (fd, (try_listen P backlog reuse_addr e w).1)
  unfolding create_listening_socket
  create_listening_socket-value e es w fd h = ground arith

  create_listening_socket-nil :
      (w : Trace) → create_listening_socket P [] backlog reuse_addr w ≡ (0, w)
  unfolding create_listening_socket
  create_listening_socket-nil w = refl

abbrev Attempted : Platform → ℕ → Bool → Endpoint → Reply → Trace → Type 0
Attempted P backlog reuse_addr e failed w = Unit {0}
Attempted P backlog reuse_addr e (value fd) w = (fd ≢ 0) × ListensOn P backlog reuse_addr e fd w

module _ (P : Platform) (positive : SkipsZero P) (backlog : ℕ) where
  try_listen-Attempted :
      (reuse_addr : Bool) (e : Endpoint) (w : Trace)
      → Attempted P backlog reuse_addr e
          (try_listen P backlog reuse_addr e w).0
          (try_listen P backlog reuse_addr e w).1
  unfolding try_listen
  try_listen-Attempted false e w =
      elim (Reply-cases (P.socket (family P e) sock_stream e.protocol w)) [
        | inl h ↦ rw (h, try_listen) tt
        | inr (fd, h) ↦
            let w_made = Event.socket (family P e) sock_stream e.protocol (value fd) ∷ w in
            rw (h, try_listen)
              (elim (Reply-cases (P.bind fd e.storage.bytes w_made)) [
                | inl k ↦ rw (k, try_listen) tt
                | inr (b, k) ↦
                    let w_bound = Event.bind fd e.storage.bytes (value b) ∷ w_made in
                    rw (k, try_listen)
                      (elim (Reply-cases (P.listen fd backlog w_bound)) [
                        | inl m ↦ rw (m, try_listen) tt
                        | inr (l, m) ↦
                            rw (m, try_listen) (positive _ _ _ w fd h, (w, 0, b, l, refl))
                      ])
              ])
      ]
  try_listen-Attempted true e w =
      elim (Reply-cases (P.socket (family P e) sock_stream e.protocol w)) [
        | inl h ↦ rw (h, try_listen) tt
        | inr (fd, h) ↦
            let w_made = Event.socket (family P e) sock_stream e.protocol (value fd) ∷ w in
            rw (h, try_listen)
              (elim (Reply-cases (P.set_reuse_address fd w_made)) [
                | inl o ↦ rw (o, try_listen) tt
                | inr (n, o) ↦
                    let w_set = Event.set_reuse_address fd (value n) ∷ w_made in
                    rw (o, try_listen)
                      (elim (Reply-cases (P.bind fd e.storage.bytes w_set)) [
                        | inl k ↦ rw (k, try_listen) tt
                        | inr (b, k) ↦
                            let w_bound = Event.bind fd e.storage.bytes (value b) ∷ w_set in
                            rw (k, try_listen)
                              (elim (Reply-cases (P.listen fd backlog w_bound)) [
                                | inl m ↦ rw (m, try_listen) tt
                                | inr (l, m) ↦
                                    rw (m, try_listen) (positive _ _ _ w fd h, (w, n, b, l, refl))
                              ])
                      ])
              ])
      ]

  -- The result: a socket that listens on one of the endpoints, or 0.
  abbrev pub Listens : Bool → List Endpoint → ℕ → Trace → Type 0
  Listens reuse_addr es fd w = ((fd ≢ 0) × ListensOnOne P backlog reuse_addr es fd w) ⊎ (fd ≡ 0)

  -- From a list of endpoints comes a socket that, by its last calls, was made for one of them, bound
  -- to it and set to listen, with its option set before if that was asked for; or there comes 0.
  pub create_listening_socket-Listens :
      (reuse_addr : Bool) (es : List Endpoint) (w : Trace)
      → let (fd, w') = create_listening_socket P es backlog reuse_addr w in
        Listens reuse_addr es fd w'
  create_listening_socket-Listens reuse_addr [] w =
      rw (create_listening_socket-nil P backlog reuse_addr w) (inr refl)
  create_listening_socket-Listens reuse_addr (e ∷ es) w =
      elim (Reply-cases (try_listen P backlog reuse_addr e w).0) [
        | inl h ↦ rw (create_listening_socket-failed P backlog reuse_addr e es w h) (
            later (
              create_listening_socket-Listens reuse_addr es
                (try_listen P backlog reuse_addr e w).1))
        | inr (fd, h) ↦
            let (p, c) = rw h at (try_listen-Attempted reuse_addr e w) in
            rw (create_listening_socket-value P backlog reuse_addr e es w fd h) (inl (p, inl c))
      ]
    where
      later :
          {fd : ℕ} {w' : Trace} → Listens reuse_addr es fd w' → Listens reuse_addr (e ∷ es) fd w'
      later (inl (p, c)) = inl (p, inr c)
      later (inr k) = inr k
