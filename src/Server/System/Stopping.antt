-- ===== src/Server/System/Stopping.antt =====
-- A server that nobody stops.
use yonaa.Base.{ℕ, ◌≡◌, ◌∙◌, subst, sym, refl, Bool, true, false}
use yonaa.Os.Platform.{Platform}
use yonaa.Os.After.{After-mono}
use yonaa.Server.{Handlers}
use yonaa.Server.Running.{
  asks_stop, NeverStops, Runs, perform-Runs, handle_incoming_connections-Runs,
  handle_incoming_messages-Runs, handle_disconnected_clients-Runs,
}
use yonaa.Server.System.{
  System, Phase, unstarted, spawned, opening, testing, accepting, messaging, clearing, closing,
  ended, is_joinable, is_joined, ask, spawn, begin, listen, enter, leave, accept, receive, clear,
  finish, Reach, here, later, initial,
}
use yonaa.Server.System.Refinement.{of_done, start_up-view}

module _ {P : Platform} {H : Handlers} where
  -- In the run no thread asks the server to stop.
  abbrev pub IsUnstopped : {s t : System} → Reach P H s t → Type 0
  IsUnstopped here = Unit
  IsUnstopped (later r (ask q e)) = (asks_stop q ≡ false) × IsUnstopped r
  IsUnstopped (later r _) = IsUnstopped r

-- No thread yet, or one that has not come to the end of its loop and will not.
abbrev KeepsOn : Phase → Bool → Type 0
KeepsOn unstarted b = Unit
KeepsOn spawned b = Unit
KeepsOn closing b = ⊥
KeepsOn ended b = ⊥
KeepsOn _ b = b ≡ true

KeepsOn-same : (p : Phase) (b c : Bool) → c ≡ b → KeepsOn p b → KeepsOn p c
KeepsOn-same p b c e h = subst (KeepsOn p) (sym e) h

KeepsOn-is_joined :
    (p : Phase) (b : Bool) → KeepsOn p b → is_joinable p ≡ true → is_joined p ≡ false
KeepsOn-is_joined closing b h j = absurd h
KeepsOn-is_joined ended b h j = absurd h
KeepsOn-is_joined unstarted b h j = cc
KeepsOn-is_joined p b h j = refl

module _ (P : Platform) (H : Handlers) (connect : NeverStops H.on_client_connect)
    (received : NeverStops H.on_data_receive) (disconnect : NeverStops H.on_client_disconnect) where
  -- What the thread's next part needs of what was kept up to its phase.
  at_phase :
      (s : System) (p : Phase)
      → s.phase ≡ p
      → KeepsOn s.phase s.server.running
      → KeepsOn p s.server.running
  at_phase s p e h = subst (λ q. KeepsOn q s.server.running) e h

  Reach-KeepsOn :
      (port : ℕ) {s : System} (r : Reach P H (initial P port) s)
      → IsUnstopped r
      → KeepsOn s.phase s.server.running
  Reach-KeepsOn port here u = tt
  Reach-KeepsOn port (later {t = s} r (ask q {t} {w} e)) u =
      KeepsOn-same s.phase s.server.running t.running
        (of_done (Runs s.server) t w _ e (perform-Runs P q s.server s.history u.0))
        (Reach-KeepsOn port r u.1)
  Reach-KeepsOn port (later r (spawn p h)) u = tt
  Reach-KeepsOn port (later r (begin p)) u = refl
  Reach-KeepsOn port (later {t = s} r (listen {t} {w} p e)) u =
      of_done (Runs s.server) t w _ e
        (After-mono (Runs s.server) _ (λ t k. k.1) (start_up-view P s.server s.history))
      ∙ at_phase s opening p (Reach-KeepsOn port r u)
  Reach-KeepsOn port (later r (enter p h)) u = h
  Reach-KeepsOn port (later {t = s} r (leave p h)) u =
      let k : (s.server.running ≡ true) = at_phase s testing p (Reach-KeepsOn port r u) in
      absurd (cc)
  Reach-KeepsOn port (later {t = s} r (accept rounds {t} {w} p b e)) u =
      of_done (Runs s.server) t w _ e
        (handle_incoming_connections-Runs P H rounds s.server s.history connect)
      ∙ at_phase s accepting p (Reach-KeepsOn port r u)
  Reach-KeepsOn port (later {t = s} r (receive {t} {w} p e)) u =
      of_done (Runs s.server) t w _ e
        (handle_incoming_messages-Runs P H s.server s.history received)
      ∙ at_phase s messaging p (Reach-KeepsOn port r u)
  Reach-KeepsOn port (later {t = s} r (clear {t} {w} p e)) u =
      of_done (Runs s.server) t w _ e
        (handle_disconnected_clients-Runs P H s.server s.history disconnect)
      ∙ at_phase s clearing p (Reach-KeepsOn port r u)
  Reach-KeepsOn port (later {t = s} r (finish {t} {w} p e)) u =
      absurd (at_phase s closing p (Reach-KeepsOn port r u))

  -- A server whose callbacks never ask it to stop, and that no thread asks to stop, does not get
  -- past the `join` of its destructor once it has a network thread, in whatever order the threads
  -- run.
  pub Reach-is_joined :
      (port : ℕ) {s : System} (r : Reach P H (initial P port) s)
      → IsUnstopped r
      → is_joinable s.phase ≡ true
      → is_joined s.phase ≡ false
  Reach-is_joined port {s} r u j =
      KeepsOn-is_joined s.phase s.server.running (Reach-KeepsOn port r u) j
