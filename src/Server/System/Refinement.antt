-- ===== src/Server/System/Refinement.antt =====
-- Every run of a server and its threads is one of the specification.
use yonaa.Base.{subst, ◌==◌, ◌≡◌, refl}
use yonaa.Os.Events.{Trace}
use yonaa.Os.Platform.{Platform}
use yonaa.Os.Outcome.{Outcome, done, return, halt, exited}
use yonaa.Os.After.{After, After-if, After-mono}
use yonaa.Acceptor.{open_at, config_bits, reuse_address}
use yonaa.Resolve.{resolve, any_address}
use yonaa.Base.Decimal.{to_string}
use yonaa.Server.{Server, Handlers}
use yonaa.Server.Registry
use yonaa.Server.Registry.{IsGone, IsSound, Reach-IsGone, Reach-IsSound, Reach-trans}
use yonaa.Server.Clients.{view, perform-Keeps}
use yonaa.Server.Thread.{start_up, shut_down}
use yonaa.Server.Refining.{
  Refines, Serves, Kept-Refines, handle_incoming_connections-Serves,
  handle_incoming_messages-Serves, handle_disconnected_clients-Serves,
}
use yonaa.Server.System.{
  System, Step, ask, spawn, begin, listen, enter, leave, accept, receive, clear, finish, Reach,
  here, later,
}

-- From what holds if a run comes to its end, what holds of the value that it came to.
pub of_done :
    (Q : Server → Type 0) (t : Server) (w : Trace) (r : Outcome Server × Trace)
    → r ≡ (done t, w)
    → After Q r.0
    → Q t
of_done Q t w r e h = subst (λ (p : Outcome Server × Trace). After Q p.0) e h

pub start_up-view :
    (P : Platform) (s : Server) (w : Trace)
    → After (λ (t : Server). (view t ≡ view s) × (t.running ≡ s.running)) (start_up P s w).0
unfolding start_up
start_up-view P s w =
    let same = λ (t : Server). (view t ≡ view s) × (t.running ≡ s.running) in
    let (r, w') = resolve P any_address (to_string s.port) s.ec w in
    let (a, w'') = open_at P s.acceptor r.0 r.1 (config_bits reuse_address) w' in
    After-if same (r.1 == 0) _ (halt exited) w'
      (After-if same (a.1 == 0) (return (record s { ec = a.1; acceptor = a.0 })) (halt exited) w''
        (refl, refl) tt)
      tt

shut_down-view :
    (s : Server) (w : Trace) → After (λ (t : Server). view t ≡ view s) (shut_down s w).0
unfolding shut_down
shut_down-view s w = refl

module _ (P : Platform) (H : Handlers) where
  pub Step-Refines : {s t : System} → Step P H s t → Refines s.server t.server
  Step-Refines {s} (ask q {t} {w} e) = of_done (Refines s.server) t w _ e (
      After-mono (Refines s.server) _ (Kept-Refines s.server)
        (perform-Keeps P q s.server s.history))
  Step-Refines (spawn p r) = Registry.here
  Step-Refines (begin p) = Registry.here
  Step-Refines {s} (listen {t} {w} p e) =
      rw
        (of_done (λ (u : Server). (view u ≡ view s.server) × (u.running ≡ s.server.running)) t w _ e
          (start_up-view P s.server s.history)).0
        Registry.here
  Step-Refines (enter p r) = Registry.here
  Step-Refines (leave p r) = Registry.here
  Step-Refines {s} (accept rounds {t} {w} p b e) =
      (of_done (Serves s.server) t w _ e
        (handle_incoming_connections-Serves P H rounds s.server s.history b)).1
  Step-Refines {s} (receive {t} {w} p e) =
      (of_done (Serves s.server) t w _ e (handle_incoming_messages-Serves P H s.server s.history)).1
  Step-Refines {s} (clear {t} {w} p e) =
      (of_done (Serves s.server) t w _ e
        (handle_disconnected_clients-Serves P H s.server s.history)).1
  Step-Refines {s} (finish {t} {w} p e) =
      rw
        (of_done (λ (u : Server). view u ≡ view s.server) t w _ e
          (shut_down-view s.server s.history))
        Registry.here

  -- Whatever the threads do, in whatever order, the clients of a server change as the specification
  -- allows: some are marked, one joins under the next id, or those that were marked leave.
  pub Reach-Refines : {s t : System} → Reach P H s t → Refines s.server t.server
  Reach-Refines here = Registry.here
  Reach-Refines (later r st) = Reach-trans (Reach-Refines r) (Step-Refines st)
