-- ===== src/Server/System/Watching.antt =====
-- The invariant of a server over whole runs: its poll group and its clients belong together.
use yonaa.Base.{ℕ, refl, IsDistinct, ◌==◌}
use yonaa.Os.Events.{Trace}
use yonaa.Os.Platform.{Platform}
use yonaa.Os.Outcome.{return, halt, exited}
use yonaa.Os.After.{After, After-if, After-mono}
use yonaa.Acceptor.{Acceptor, close, open_at, config_bits, reuse_address}
use yonaa.Resolve.{resolve, any_address}
use yonaa.Base.Decimal.{to_string}
use yonaa.Poll.{make}
use yonaa.Server.{Server, Handlers, new_server}
use yonaa.Server.Clients.{Kept, sockets, perform-Keeps}
use yonaa.Server.WellFormed.{
  IsWellFormed, Kept-IsWellFormed, handle_incoming_connections-IsWellFormed,
}
use yonaa.Server.Messages.{
  polled_server, handle_incoming_messages-Keeps, polled_server-IsWellFormed,
}
use yonaa.Server.Departing.{IsWatched, handle_disconnected_clients-IsWatched}
use yonaa.Server.Thread.{start_up, shut_down}
use yonaa.Server.Network.{handle_incoming_messages}
use yonaa.Server.System.{
  System, ask, spawn, begin, listen, enter, leave, accept, receive, clear, finish, Reach, here,
  later, initial,
}
use yonaa.Server.System.Refinement.{of_done}

module _ {P : Platform} {H : Handlers} where
  -- In the run, the clients have a socket each that no other has whenever new ones were taken on.
  abbrev pub HasNewSockets : {s t : System} → Reach P H s t → Type 0
  HasNewSockets here = Unit
  HasNewSockets (later r (accept rounds {t} p b e)) =
      IsDistinct (sockets t.clients) × HasNewSockets r
  HasNewSockets (later r _) = HasNewSockets r

Kept-IsWatched : (s : Server) → IsWatched s → (t : Server) → Kept s t → IsWatched t
Kept-IsWatched s h t k = (Kept-IsWellFormed s h.0 t k, rw k.4 h.1)

-- What does not depend on the acceptor and the error code.
pub start_up-After :
    (Q : Server → Type 0) (P : Platform) (s : Server) (w : Trace)
    → ((a : Acceptor) (ec : ℕ) → Q (record s { ec = ec; acceptor = a }))
    → After Q (start_up P s w).0
unfolding start_up
start_up-After Q P s w h =
    let (r, w') = resolve P any_address (to_string s.port) s.ec w in
    let (a, w'') = open_at P s.acceptor r.0 r.1 (config_bits reuse_address) w' in
    After-if Q (r.1 == 0) _ (halt exited) w'
      (After-if Q (a.1 == 0) (return (record s { ec = a.1; acceptor = a.0 })) (halt exited) w''
        (h a.0 a.1) tt)
      tt

pub shut_down-After :
    (Q : Server → Type 0) (s : Server) (w : Trace)
    → ((a : Acceptor) → Q (record s { acceptor = a }))
    → After Q (shut_down s w).0
unfolding shut_down
shut_down-After Q s w h = h (close s.acceptor w).0

module _ (P : Platform) (H : Handlers) where
  handle_incoming_messages-IsWatched :
      (s : Server) (w : Trace) → IsWatched s → After IsWatched (handle_incoming_messages P H s w).0
  handle_incoming_messages-IsWatched s w h =
      After-mono IsWatched _
        (Kept-IsWatched (polled_server P H s w) (polled_server-IsWellFormed P H s w h.0, h.1))
        (handle_incoming_messages-Keeps P H s w)

  pub Reach-IsWatched :
      (port : ℕ) {s : System} (r : Reach P H (initial P port) s)
      → HasNewSockets r
      → IsWatched s.server
  unfolding new_server make
  Reach-IsWatched port here u = ((tt, tt, refl), tt)
  Reach-IsWatched port (later {t = s} r (ask q {t} {w} e)) u = of_done IsWatched t w _ e (
      After-mono IsWatched _ (Kept-IsWatched s.server (Reach-IsWatched port r u))
        (perform-Keeps P q s.server s.history))
  Reach-IsWatched port (later r (spawn p h)) u = Reach-IsWatched port r u
  Reach-IsWatched port (later r (begin p)) u = Reach-IsWatched port r u
  Reach-IsWatched port (later {t = s} r (listen {t} {w} p e)) u =
      of_done IsWatched t w _ e
        (start_up-After IsWatched P s.server s.history (λ a ec. Reach-IsWatched port r u))
  Reach-IsWatched port (later r (enter p h)) u = Reach-IsWatched port r u
  Reach-IsWatched port (later r (leave p h)) u = Reach-IsWatched port r u
  Reach-IsWatched port (later {t = s} r (accept rounds {t} {w} p b e)) u = (
    of_done IsWellFormed t w _ e (
        handle_incoming_connections-IsWellFormed P H rounds s.server s.history b
          (Reach-IsWatched port r u.1).0),
    u.0,
  )
  Reach-IsWatched port (later {t = s} r (receive {t} {w} p e)) u =
      of_done IsWatched t w _ e
        (handle_incoming_messages-IsWatched s.server s.history (Reach-IsWatched port r u))
  Reach-IsWatched port (later {t = s} r (clear {t} {w} p e)) u =
      of_done IsWatched t w _ e
        (handle_disconnected_clients-IsWatched P H s.server s.history (Reach-IsWatched port r u))
  Reach-IsWatched port (later {t = s} r (finish {t} {w} p e)) u =
      of_done IsWatched t w _ e
        (shut_down-After IsWatched s.server s.history (λ a. Reach-IsWatched port r u))

  -- In whatever order the threads run, a server's clients have distinct ids, all given out before,
  -- and its poll group holds just their sockets, in the order of the clients. Assumed: after the
  -- thread has taken on clients, no two clients have the same socket.
  Reach-IsWellFormed :
      (port : ℕ) {s : System} (r : Reach P H (initial P port) s)
      → HasNewSockets r
      → IsWellFormed s.server
  Reach-IsWellFormed port r u = (Reach-IsWatched port r u).0
