-- ===== src/Server/System/Lifecycle.antt =====
-- When the acceptor of a server is open, and when the server may be destroyed.
use yonaa.Base.{
  ℕ, ◌≡◌, ◌∙◌, ap, refl, List, [], ◌∷◌, inl, inr, Bool, true, false, Bool-cases, ◌==◌, arith,
}
use yonaa.Base.Decimal.{to_string}
use yonaa.Os.Events.{Trace}
use yonaa.Os.Platform.{Platform, SkipsZero}
use yonaa.Os.Outcome.{halt, exited}
use yonaa.Os.After.{After, After-if, After-mono}
use yonaa.Endpoint.{Endpoint}
use yonaa.Acceptor.{Acceptor, is_open, close, open_at, config_bits, reuse_address}
use yonaa.Acceptor.Opening.{open_at-Opens}
use yonaa.Resolve.{resolve, any_address}
use yonaa.Server.{Server, Handlers, new_server}
use yonaa.Server.Clients.{perform-Keeps}
use yonaa.Server.Thread.{start_up, shut_down}
use yonaa.Server.Refining.{
  Serves, handle_incoming_connections-Serves, handle_incoming_messages-Serves,
  handle_disconnected_clients-Serves,
}
use yonaa.Server.System.{
  System, Phase, unstarted, spawned, opening, ended, Step, ask, spawn, begin, listen, enter, leave,
  accept, receive, clear, finish, Reach, here, later, initial,
}
use yonaa.Server.System.Refinement.{of_done}

-- Whether the acceptor is open while the network thread stands there.
abbrev pub listens : Phase → Bool
listens unstarted = false
listens spawned = false
listens opening = false
listens ended = false
listens _ = true

close-closed : (a : Acceptor) (w : Trace) → is_open (close a w).0 ≡ false
unfolding close
close-closed a w = ground arith

module _ (P : Platform) (positive : SkipsZero P) where
  open_at-is_open :
      (a : Acceptor) (es : List Endpoint) (ec cfg : ℕ) (w : Trace)
      → (open_at P a es ec cfg w).0.1 ≡ 0
      → is_open (open_at P a es ec cfg w).0.0 ≡ true
  unfolding open_at
  open_at-is_open a [] ec cfg w h = absurd (omega arith)
  open_at-is_open a (e ∷ es) ec cfg w h = ground (arith, open_at-Opens P positive a e es ec cfg w)

  start_up-is_open :
      (s : Server) (w : Trace)
      → After (λ (t : Server). is_open t.acceptor ≡ true) (start_up P s w).0
  unfolding start_up
  start_up-is_open s w =
      let opens = λ (t : Server). is_open t.acceptor ≡ true in
      let (r, w') = resolve P any_address (to_string s.port) s.ec w in
      let (a, w'') = open_at P s.acceptor r.0 r.1 (config_bits reuse_address) w' in
      After-if opens (r.1 == 0) _ (halt exited) w'
        (elim (Bool-cases (a.1 == 0)) [
          | inl e ↦
              rw e
                (open_at-is_open s.acceptor r.0 r.1 (config_bits reuse_address) w' (ground arith))
          | inr e ↦ rw e tt
        ])
        tt

shut_down-is_open :
    (s : Server) (w : Trace) → After (λ (t : Server). is_open t.acceptor ≡ false) (shut_down s w).0
unfolding shut_down
shut_down-is_open s w = close-closed s.acceptor w

-- The acceptor is open exactly in the phases that listen.
abbrev pub IsListening : System → Type 0
IsListening s = is_open s.server.acceptor ≡ listens s.phase

module _ (P : Platform) (H : Handlers) (positive : SkipsZero P) where
  Step-IsListening : {s t : System} → Step P H s t → IsListening s → IsListening t
  Step-IsListening {s} (ask q {t} {w} e) h =
      rw
        (of_done (λ (u : Server). u.acceptor ≡ s.server.acceptor) t w _ e
          (After-mono (λ (u : Server). u.acceptor ≡ s.server.acceptor) _ (λ u k. k.3)
            (perform-Keeps P q s.server s.history)))
        h
  Step-IsListening {s} (spawn p r) h = h ∙ ap listens p
  Step-IsListening {s} (begin p) h = h ∙ ap listens p
  Step-IsListening {s} (listen {t} {w} p e) h =
      of_done (λ (u : Server). is_open u.acceptor ≡ true) t w _ e
        (start_up-is_open P positive s.server s.history)
  Step-IsListening {s} (enter p r) h = h ∙ ap listens p
  Step-IsListening {s} (leave p r) h = h ∙ ap listens p
  Step-IsListening {s} (accept rounds {t} {w} p b e) h =
      ap is_open
        (of_done (Serves s.server) t w _ e
          (handle_incoming_connections-Serves P H rounds s.server s.history b)).0
      ∙ h
      ∙ ap listens p
  Step-IsListening {s} (receive {t} {w} p e) h =
      ap is_open
        (of_done (Serves s.server) t w _ e
          (handle_incoming_messages-Serves P H s.server s.history)).0
      ∙ h
      ∙ ap listens p
  Step-IsListening {s} (clear {t} {w} p e) h =
      ap is_open
        (of_done (Serves s.server) t w _ e
          (handle_disconnected_clients-Serves P H s.server s.history)).0
      ∙ h
      ∙ ap listens p
  Step-IsListening {s} (finish {t} {w} p e) h =
      of_done (λ (u : Server). is_open u.acceptor ≡ false) t w _ e
        (shut_down-is_open s.server s.history)

  -- In whatever order the threads run, the acceptor of a server is open exactly from the start of
  -- its network thread's loop to its end: when the thread is joined, it is closed. Assumed: a new
  -- socket is not 0.
  pub Reach-IsListening : (port : ℕ) {s : System} → Reach P H (initial P port) s → IsListening s
  unfolding new_server
  Reach-IsListening port here = refl
  Reach-IsListening port (later r st) = Step-IsListening st (Reach-IsListening port r)
