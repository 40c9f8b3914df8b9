-- ===== src/SocketOps/Leaks.antt =====
-- The descriptors that src/detail/socket_ops.cpp makes and never closes.
use yonaa.Base.{ℕ, suc, ◌+◌, ◌≤◌, ◌≡◌, inl, inr, refl, List, [], ◌∷◌, arith, ◌==◌, if◌then◌else◌}
use yonaa.Os.Constants.{sock_stream}
use yonaa.Os.Events.{Reply, failed, value, Event, Trace}
use yonaa.Os.Platform.{Platform}
use yonaa.Endpoint.{Endpoint, family}
use yonaa.SocketOps.{try_connect, create_connected_socket}
use yonaa.SocketOps.Laws.{
  create_connected_socket-failed, create_connected_socket-value, Reply-cases,
}

-- How many sockets a history has made, and how many closed.
abbrev pub made : Trace → ℕ
made [] = 0
made (Event.socket d t p (value fd) ∷ w) = suc (made w)
made (e ∷ w) = made w

abbrev pub closed : Trace → ℕ
closed [] = 0
closed (Event.close fd ∷ w) = suc (closed w)
closed (e ∷ w) = closed w

abbrev pub count_of : ℕ → ℕ
count_of fd = if fd == 0 then 0 else 1

module _ (P : Platform) where
  abbrev attempt_count : Reply → ℕ
  attempt_count failed = 0
  attempt_count (value _) = 1

  try_connect-made :
      (e : Endpoint) (w : Trace)
      → (closed (try_connect P e w).1 ≡ closed w)
        × (made w + attempt_count (try_connect P e w).0 ≤ made (try_connect P e w).1)
  unfolding try_connect
  try_connect-made e w = ground arith

  try_connect-made_leak :
      (e : Endpoint) (w : Trace) (fd : ℕ)
      → P.socket (family P e) sock_stream e.protocol w ≡ value fd
      → suc (made w) ≤ made (try_connect P e w).1
  unfolding try_connect
  try_connect-made_leak e w fd h = ground arith

  create_connected_socket-nil : (w : Trace) → create_connected_socket P [] w ≡ (0, w)
  unfolding create_connected_socket
  create_connected_socket-nil w = refl

  create_connected_socket-made :
      (es : List Endpoint) (w : Trace)
      → (closed (create_connected_socket P es w).1 ≡ closed w)
        × (made w + count_of (create_connected_socket P es w).0
            ≤ made (create_connected_socket P es w).1)
  create_connected_socket-made [] w = rw (create_connected_socket-nil w) (refl, omega arith)
  create_connected_socket-made (e ∷ es) w = elim (Reply-cases (try_connect P e w).0) [
    | inl h ↦ rw (create_connected_socket-failed P e es w h) (
        ground (arith, try_connect-made e w, create_connected_socket-made es (try_connect P e w).1))
    | inr (fd, h) ↦
        rw (create_connected_socket-value P e es w fd h) (ground (arith, try_connect-made e w))
  ]

  -- A socket that was made for the first endpoint and could not be connected is left open: whatever
  -- becomes of the other endpoints, no socket is closed, and at least one more is made than is
  -- handed to the caller.
  pub create_connected_socket-leaks :
      (e : Endpoint) (es : List Endpoint) (w : Trace) (fd : ℕ)
      → P.socket (family P e) sock_stream e.protocol w ≡ value fd
      → (try_connect P e w).0 ≡ failed
      → (closed (create_connected_socket P (e ∷ es) w).1 ≡ closed w)
        × (made w + 1 + count_of (create_connected_socket P (e ∷ es) w).0
            ≤ made (create_connected_socket P (e ∷ es) w).1)
  create_connected_socket-leaks e es w fd h f = rw (create_connected_socket-failed P e es w f) (
      ground (
        arith,
        try_connect-made e w,
        try_connect-made_leak e w fd h,
        create_connected_socket-made es (try_connect P e w).1,
      ))
