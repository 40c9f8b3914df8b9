-- ===== src/Server/System/Sockets.antt =====
-- Over whole runs, a server's clients have sockets of their own that are open.
use yonaa.Base.{ℕ, ◌≡◌, ◌∙◌, ap, refl, subst, All-mono, List, [], ◌∷◌}
use yonaa.Os.Events.{Trace}
use yonaa.Os.Platform.{Platform, RecvFits, SetsErrno}
use yonaa.Os.Descriptors.{is_open, AcceptsNew}
use yonaa.Os.Ends.{Ends, Ends-both, Ends-mono, Ends-done}
use yonaa.Os.After.{After-mono}
use yonaa.Server.{ClientInfo, Server, Request, Handlers, new_server, perform}
use yonaa.Server.Clients.{members, view}
use yonaa.Server.Registry.{Registry}
use yonaa.Server.Marks.{Marks, MarksSome, perform-Marks}
use yonaa.Server.Telling.{perform-unseen}
use yonaa.Server.Flags.{perform-Flags}
use yonaa.Server.Flagging.{
  IsFlagged, IsFlagged-Flags, handle_incoming_connections-IsFlagged,
  handle_incoming_messages-IsFlagged, handle_disconnected_clients-IsFlagged,
}
use yonaa.Server.Holding.{IsLive, Holds, Holds-marked, handle_incoming_connections-Holds}
use yonaa.Server.Held.{HoldsUnmarked}
use yonaa.Server.Releasing.{HoldsUnmarked-marked, handle_incoming_messages-HoldsUnmarked}
use yonaa.Server.Sparing.{handle_disconnected_clients-Holds}
use yonaa.Server.System.{
  Phase, unstarted, spawned, opening, testing, accepting, messaging, clearing, closing, ended,
  System, ask, spawn, begin, listen, enter, leave, accept, receive, clear, finish, Reach, here,
  later, initial,
}
use yonaa.Server.System.Refinement.{of_done, start_up-view}
use yonaa.Server.System.Removal.{Reach-IsDistinct}
use yonaa.Server.System.Watching.{HasNewSockets, Reach-IsWatched, start_up-After, shut_down-After}
use yonaa.Server.Departing.{IsWatched}

-- What is known of the sockets at each point of the network thread: before the loop there are no
-- clients; after `handle_incoming_messages_` the socket of a client that was marked may be closed.
abbrev pub HoldsAt : Phase → Server → Trace → Type 0
HoldsAt unstarted s w = s.clients ≡ []
HoldsAt spawned s w = s.clients ≡ []
HoldsAt opening s w = s.clients ≡ []
HoldsAt testing s w = Holds s w
HoldsAt accepting s w = Holds s w
HoldsAt messaging s w = Holds s w
HoldsAt clearing s w = HoldsUnmarked s w
HoldsAt closing s w = Holds s w
HoldsAt ended s w = Unit

marked_none : (s t : Server) → s.clients ≡ [] → MarksSome s t → t.clients ≡ []
marked_none s t e k = none t.clients (subst (λ cs. Marks cs t.clients) e k)
  where
    none : (ds : List ClientInfo) → Marks [] ds → ds ≡ []
    none [] h = refl
    none (d ∷ ds) h = absurd h

HoldsAt-marked :
    (p : Phase) (s : Server) (w : Trace)
    → HoldsAt p s w
    → (t : Server) (w' : Trace) → MarksSome s t × (is_open w' ≡ is_open w)
    → HoldsAt p t w'
HoldsAt-marked unstarted s w h t w' k = marked_none s t h k.0
HoldsAt-marked spawned s w h t w' k = marked_none s t h k.0
HoldsAt-marked opening s w h t w' k = marked_none s t h k.0
HoldsAt-marked testing s w h t w' k = Holds-marked s w h t w' k
HoldsAt-marked accepting s w h t w' k = Holds-marked s w h t w' k
HoldsAt-marked messaging s w h t w' k = Holds-marked s w h t w' k
HoldsAt-marked clearing s w h t w' k = HoldsUnmarked-marked s w h t w' k
HoldsAt-marked closing s w h t w' k = Holds-marked s w h t w' k
HoldsAt-marked ended s w h t w' k = tt

at_phase :
    (s : System) {p : Phase}
    → HoldsAt s.phase s.server s.history
    → s.phase ≡ p
    → HoldsAt p s.server s.history
at_phase s h e = subst (λ p. HoldsAt p s.server s.history) e h

none_Holds : (s : Server) (w : Trace) → s.clients ≡ [] → Holds s w
none_Holds s w e = rw e (tt, tt)

no_members : (s t : Server) → view t ≡ view s → s.clients ≡ [] → t.clients ≡ []
no_members s t e h = none t.clients (ap (λ (r : Registry). r.members) e ∙ ap members h)
  where
    none : (cs : List ClientInfo) → members cs ≡ [] → cs ≡ []
    none [] k = refl
    none (c ∷ cs) k = cc

module _ (P : Platform) (H : Handlers) where
  perform-HoldsAt :
      (p : Phase) (q : Request) (s : Server) (w : Trace)
      → HoldsAt p s w
      → Ends (HoldsAt p) (perform P q s w)
  perform-HoldsAt p q s w h = Ends-mono (HoldsAt p) (perform P q s w) (HoldsAt-marked p s w h) (
      Ends-both (MarksSome s) (λ w'. is_open w' ≡ is_open w) (perform P q s w)
        (perform-Marks P q s w) (perform-unseen is_open (λ fd bs flags r v. refl) P q s w))

  Reach-IsFlagged : (port : ℕ) {s : System} → Reach P H (initial P port) s → IsFlagged s.server
  unfolding new_server
  Reach-IsFlagged port here = λ e. tt
  Reach-IsFlagged port (later {t = s} r (ask q {t} {w} e)) = of_done IsFlagged t w _ e (
      After-mono IsFlagged _ (IsFlagged-Flags s.server (Reach-IsFlagged port r))
        (perform-Flags P q s.server s.history))
  Reach-IsFlagged port (later r (spawn p h)) = Reach-IsFlagged port r
  Reach-IsFlagged port (later r (begin p)) = Reach-IsFlagged port r
  Reach-IsFlagged port (later {t = s} r (listen {t} {w} p e)) =
      of_done IsFlagged t w _ e
        (start_up-After IsFlagged P s.server s.history (λ a ec. Reach-IsFlagged port r))
  Reach-IsFlagged port (later r (enter p h)) = Reach-IsFlagged port r
  Reach-IsFlagged port (later r (leave p h)) = Reach-IsFlagged port r
  Reach-IsFlagged port (later {t = s} r (accept rounds {t} {w} p b e)) =
      of_done IsFlagged t w _ e (
        handle_incoming_connections-IsFlagged P H rounds s.server s.history
          (Reach-IsFlagged port r))
  Reach-IsFlagged port (later {t = s} r (receive {t} {w} p e)) =
      of_done IsFlagged t w _ e
        (handle_incoming_messages-IsFlagged P H s.server s.history (Reach-IsFlagged port r))
  Reach-IsFlagged port (later {t = s} r (clear {t} {w} p e)) =
      of_done IsFlagged t w _ e
        (handle_disconnected_clients-IsFlagged P H s.server s.history (Reach-IsFlagged port r))
  Reach-IsFlagged port (later {t = s} r (finish {t} {w} p e)) =
      of_done IsFlagged t w _ e
        (shut_down-After IsFlagged s.server s.history (λ a. Reach-IsFlagged port r))

  module _ (fresh : AcceptsNew P) (fits : RecvFits P) (errors : SetsErrno P) where
    Reach-HoldsAt :
        (port : ℕ) {s : System} → Reach P H (initial P port) s → HoldsAt s.phase s.server s.history
    unfolding new_server
    Reach-HoldsAt port here = refl
    Reach-HoldsAt port (later {t = s} r (ask q {t} {w} e)) =
        Ends-done (HoldsAt s.phase) t w _ e
          (perform-HoldsAt s.phase q s.server s.history (Reach-HoldsAt port r))
    Reach-HoldsAt port (later {t = s} r (spawn p h)) = at_phase s (Reach-HoldsAt port r) p
    Reach-HoldsAt port (later {t = s} r (begin p)) = at_phase s (Reach-HoldsAt port r) p
    Reach-HoldsAt port (later {t = s} r (listen {t} {w} p e)) = none_Holds t w (
        no_members s.server t
          (of_done (λ (u : Server). view u ≡ view s.server) t w _ e
            (After-mono (λ (u : Server). view u ≡ view s.server) _ (λ u k. k.0)
              (start_up-view P s.server s.history)))
          (at_phase s (Reach-HoldsAt port r) p))
    Reach-HoldsAt port (later {t = s} r (enter p h)) = at_phase s (Reach-HoldsAt port r) p
    Reach-HoldsAt port (later {t = s} r (leave p h)) = at_phase s (Reach-HoldsAt port r) p
    Reach-HoldsAt port (later {t = s} r (accept rounds {t} {w} p b e)) = Ends-done Holds t w _ e (
        handle_incoming_connections-Holds P H fresh errors rounds s.server s.history
          (at_phase s (Reach-HoldsAt port r) p))
    Reach-HoldsAt port (later {t = s} r (receive {t} {w} p e)) =
        let h = at_phase s (Reach-HoldsAt port r) p in
        Ends-done HoldsUnmarked t w _ e (
          handle_incoming_messages-HoldsUnmarked P H fits errors s.server s.history (
            All-mono (IsLive s.history) (λ c l. (l.0, λ on. l.1)) s.server.clients h.0,
            h.1,
            Reach-IsDistinct P H port r,
          ))
    Reach-HoldsAt port (later {t = s} r (clear {t} {w} p e)) = Ends-done Holds t w _ e (
        handle_disconnected_clients-Holds P H s.server s.history
          (at_phase s (Reach-HoldsAt port r) p) (Reach-IsFlagged port r))
    Reach-HoldsAt port (later {t = s} r (finish {t} {w} p e)) = tt

    Reach-HasNewSockets :
        (port : ℕ) {s : System} (r : Reach P H (initial P port) s) → HasNewSockets r
    Reach-HasNewSockets port here = tt
    Reach-HasNewSockets port (later r (ask q e)) = Reach-HasNewSockets port r
    Reach-HasNewSockets port (later r (spawn p h)) = Reach-HasNewSockets port r
    Reach-HasNewSockets port (later r (begin p)) = Reach-HasNewSockets port r
    Reach-HasNewSockets port (later r (listen p e)) = Reach-HasNewSockets port r
    Reach-HasNewSockets port (later r (enter p h)) = Reach-HasNewSockets port r
    Reach-HasNewSockets port (later r (leave p h)) = Reach-HasNewSockets port r
    Reach-HasNewSockets port (later r (accept rounds p b e)) =
        ((Reach-HoldsAt port (later r (accept rounds p b e))).1, Reach-HasNewSockets port r)
    Reach-HasNewSockets port (later r (receive p e)) = Reach-HasNewSockets port r
    Reach-HasNewSockets port (later r (clear p e)) = Reach-HasNewSockets port r
    Reach-HasNewSockets port (later r (finish p e)) = Reach-HasNewSockets port r

    -- In whatever order the threads run, a server's clients have distinct ids, all given out before,
    -- and a socket each that no other has, and the poll group holds just these sockets, in the order
    -- of the clients. All of them are open wherever the network thread tests its loop, takes on
    -- clients or polls them, and when it has left its loop; before it removes clients, those of the
    -- clients that are not marked are open. Assumed: the kernel accepts a connection on a descriptor
    -- that is not open, it stores no more than there is room for, and a call that fails sets `errno`.
    pub Reach-IsWatching :
        (port : ℕ) {s : System}
        → Reach P H (initial P port) s
        → IsWatched s.server × HoldsAt s.phase s.server s.history
    Reach-IsWatching port r =
        (Reach-IsWatched P H port r (Reach-HasNewSockets port r), Reach-HoldsAt port r)
