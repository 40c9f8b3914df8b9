-- ===== src/Server/System/Order.antt =====
-- The order of a server's callbacks over whole runs.
use yonaa.Base.{ℕ, ◌≡◌, ◌∙◌, refl, ◌==◌}
use yonaa.Base.Decimal.{to_string}
use yonaa.Os.Events.{Trace}
use yonaa.Os.Platform.{Platform, RecvFits, SetsErrno}
use yonaa.Os.Outcome.{return, halt, exited}
use yonaa.Os.Ends.{Ends, Ends-if, Ends-both, Ends-done, Ends-mono}
use yonaa.Acceptor.{open_at, close, config_bits, reuse_address}
use yonaa.Resolve.{resolve, any_address}
use yonaa.Told.{told}
use yonaa.Told.Quiet.{told-resolve, told-open_at, told-close}
use yonaa.Server.{Server, Request, Handlers, new_server, perform}
use yonaa.Server.Clients.{ids, Kept, perform-Keeps}
use yonaa.Server.Thread.{start_up, shut_down}
use yonaa.Server.Order.{joined, IsOrdered}
use yonaa.Server.Telling.{perform-told}
use yonaa.Server.Ordering.{IsTold, IsTold-same, IsTold-Kept, handle_incoming_connections-IsTold}
use yonaa.Server.Hearing.{handle_incoming_messages-IsTold}
use yonaa.Server.Parting.{handle_disconnected_clients-IsTold}
use yonaa.Server.System.{
  System, ask, spawn, begin, listen, enter, leave, accept, receive, clear, finish, Reach, here,
  later, initial,
}
use yonaa.Server.System.Removal.{Reach-IsDistinct}

perform-IsTold :
    (P : Platform) (q : Request) (s : Server) (w : Trace)
    → IsTold s w
    → Ends IsTold (perform P q s w)
perform-IsTold P q s w h = Ends-mono IsTold (perform P q s w) (IsTold-Kept s w h) (
    Ends-both (Kept s) (λ w'. told w' ≡ told w) (perform P q s w) (perform-Keeps P q s w)
      (perform-told P q s w))

start_up-IsTold :
    (P : Platform) (s : Server) (w : Trace) → IsTold s w → Ends IsTold (start_up P s w)
unfolding start_up
start_up-IsTold P s w h =
    let (r, w') = resolve P any_address (to_string s.port) s.ec w in
    let (a, w'') = open_at P s.acceptor r.0 r.1 (config_bits reuse_address) w' in
    let t = record s { ec = a.1; acceptor = a.0 } in
    Ends-if IsTold (r.1 == 0) _ (halt exited) w'
      (Ends-if IsTold (a.1 == 0) (return t) (halt exited) w''
        (IsTold-same s t w w'' refl refl
          (told-open_at P s.acceptor r.0 r.1 (config_bits reuse_address) w'
            ∙ told-resolve P any_address (to_string s.port) s.ec w)
          h)
        tt)
      tt

shut_down-IsTold : (s : Server) (w : Trace) → IsTold s w → Ends IsTold (shut_down s w)
unfolding shut_down
shut_down-IsTold s w h =
    IsTold-same s (record s { acceptor = (close s.acceptor w).0 }) w (close s.acceptor w).1 refl
      refl (told-close s.acceptor w) h

module _ (P : Platform) (H : Handlers) (fits : RecvFits P) (errors : SetsErrno P) where
  Reach-IsTold : (port : ℕ) {s : System} → Reach P H (initial P port) s → IsTold s.server s.history
  unfolding new_server
  Reach-IsTold port here = (refl, tt, tt)
  Reach-IsTold port (later {t = s} r (ask q {t} {w} e)) =
      Ends-done IsTold t w _ e (perform-IsTold P q s.server s.history (Reach-IsTold port r))
  Reach-IsTold port (later r (spawn p h)) = Reach-IsTold port r
  Reach-IsTold port (later r (begin p)) = Reach-IsTold port r
  Reach-IsTold port (later {t = s} r (listen {t} {w} p e)) =
      Ends-done IsTold t w _ e (start_up-IsTold P s.server s.history (Reach-IsTold port r))
  Reach-IsTold port (later r (enter p h)) = Reach-IsTold port r
  Reach-IsTold port (later r (leave p h)) = Reach-IsTold port r
  Reach-IsTold port (later {t = s} r (accept rounds {t} {w} p b e)) =
      Ends-done IsTold t w _ e
        (handle_incoming_connections-IsTold P H rounds s.server s.history b (Reach-IsTold port r))
  Reach-IsTold port (later {t = s} r (receive {t} {w} p e)) =
      Ends-done IsTold t w _ e
        (handle_incoming_messages-IsTold P H fits errors s.server s.history (Reach-IsTold port r))
  Reach-IsTold port (later {t = s} r (clear {t} {w} p e)) = Ends-done IsTold t w _ e (
      handle_disconnected_clients-IsTold P H s.server s.history (Reach-IsDistinct P H port r)
        (Reach-IsTold port r))
  Reach-IsTold port (later {t = s} r (finish {t} {w} p e)) =
      Ends-done IsTold t w _ e (shut_down-IsTold s.server s.history (Reach-IsTold port r))

  -- In whatever order the threads run, the user is told of each client in this order: that it has
  -- connected, once and under an id that no client had before; then of its data, between one byte
  -- and 8192 of them in a call; and that it has disconnected, at most once and with nothing after
  -- it. The clients of the server are just those that the user was told of as connected and not yet
  -- as disconnected. Assumed: the kernel stores no more than there is room for, and a call that
  -- fails sets `errno`.
  pub Reach-IsOrdered :
      (port : ℕ) {s : System}
      → Reach P H (initial P port) s
      → IsOrdered (told s.history) × (joined (told s.history) ≡ ids s.server.clients)
  Reach-IsOrdered port r = let h = Reach-IsTold port r in (h.2, h.0)
