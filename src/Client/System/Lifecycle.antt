-- ===== src/Client/System/Lifecycle.antt =====
-- When a client is connected, and that a client which was not running when it was made never runs.
use yonaa.Base.{ℕ, ◌≡◌, ap, refl, subst, Bool, true, false}
use yonaa.Os.Events.{Event, Trace}
use yonaa.Os.Platform.{Platform}
use yonaa.Os.Outcome.{Outcome, done}
use yonaa.Os.After.{After, After-mono}
use yonaa.Client.{Client, Handlers, new_client, connect, is_connected, leave}
use yonaa.Connection
use yonaa.Client.Callbacks.{Kept, notify-Keeps_client, perform-Keeps_client}
use yonaa.Client.Starting.{Stopped, Unconnected, Kept-Stopped, enter-Stopped, leave-disconnects}
use yonaa.Client.System.{
  System, Phase, unstarted, spawned, testing, messaging, closing, ended, Step, ask, spawn, begin,
  turn, stop, receive, finish, Reach, here, later, initial,
}

-- From what holds if a run comes to its end, what holds of the value that it came to.
pub of_done :
    (Q : Client → Type 0) (c : Client) (w : Trace) (r : Outcome Client × Trace)
    → r ≡ (done c, w)
    → After Q r.0
    → Q c
of_done Q c w r e h = subst (λ (p : Outcome Client × Trace). After Q p.0) e h

-- Whether the network thread has no connection while it stands there.
abbrev IsIdle : Phase → Client → Type 0
IsIdle testing c = Unit
IsIdle messaging c = Unit
IsIdle closing c = Unit
IsIdle _ c = Unconnected c

IsIdle-same : (p : Phase) (c d : Client) → d.conn ≡ c.conn → IsIdle p c → IsIdle p d
IsIdle-same testing c d e h = tt
IsIdle-same messaging c d e h = tt
IsIdle-same closing c d e h = tt
IsIdle-same unstarted c d e h = rw e h
IsIdle-same spawned c d e h = rw e h
IsIdle-same ended c d e h = rw e h

abbrev pub is_messaging : Phase → Bool
is_messaging messaging = true
is_messaging _ = false

module _ (P : Platform) (H : Handlers) (depth : ℕ) where
  Reach-IsIdle :
      (stray : Bool) {s : System} → Reach P H depth (initial stray) s → IsIdle s.phase s.client
  unfolding new_client connect
  Reach-IsIdle stray here = refl
  Reach-IsIdle stray (later {t = s} r (ask q {c} {w} e)) =
      IsIdle-same s.phase s.client c
        (of_done (Kept s.client) c w _ e (perform-Keeps_client P H depth q s.client s.history)).0
        (Reach-IsIdle stray r)
  Reach-IsIdle stray (later {t = s} r (spawn hostname service p)) =
      subst (λ q. IsIdle q s.client) p (Reach-IsIdle stray r)
  Reach-IsIdle stray (later r (begin p e)) = tt
  Reach-IsIdle stray (later r (turn p h)) = tt
  Reach-IsIdle stray (later r (stop p h)) = tt
  Reach-IsIdle stray (later r (receive p e)) = tt
  Reach-IsIdle stray (later {t = s} r (finish {c} {w} p e)) =
      of_done Unconnected c w _ e (leave-disconnects P H depth s.client s.history)

  -- When the network thread of a client has come to its end, the client is not connected, in
  -- whatever order the threads run and whatever is asked after the end.
  pub Reach-is_connected :
      (stray : Bool) {s : System}
      → Reach P H depth (initial stray) s
      → s.phase ≡ ended
      → is_connected s.client ≡ false
  Reach-is_connected stray {s} r p = subst (λ q. IsIdle q s.client) p (Reach-IsIdle stray r)

  leave-Stopped : (c : Client) (w : Trace) → Stopped c → After Stopped (leave P H depth c w).0
  unfolding leave
  leave-Stopped c w h =
      let d = record c { conn = (Connection.disconnect c.conn w).0 } in
      After-mono Stopped _ (Kept-Stopped d h) (
        notify-Keeps_client P H depth H.on_disconnect Event.server_disconnected d
          (Connection.disconnect c.conn w).1)

  -- Not running, and not about to receive.
  abbrev IsDeaf : System → Type 0
  IsDeaf s = Stopped s.client × (is_messaging s.phase ≡ false)

  Step-IsDeaf : {s t : System} → Step P H depth s t → IsDeaf s → IsDeaf t
  unfolding connect
  Step-IsDeaf {s} (ask q {c} {w} e) h = (
    of_done Stopped c w _ e (
        After-mono Stopped _ (Kept-Stopped s.client h.0)
          (perform-Keeps_client P H depth q s.client s.history)),
    h.1,
  )
  Step-IsDeaf (spawn hostname service p) h = (h.0, refl)
  Step-IsDeaf {s} (begin {c} {w} p e) h =
      (of_done Stopped c w _ e (enter-Stopped P H depth s.client s.history h.0), refl)
  Step-IsDeaf {s} (turn p k) h = let e = h.0 in absurd (cc)
  Step-IsDeaf (stop p k) h = (h.0, refl)
  Step-IsDeaf {s} (receive p e) h = let k = ap is_messaging p in let l = h.1 in absurd (cc)
  Step-IsDeaf {s} (finish {c} {w} p e) h =
      (of_done Stopped c w _ e (leave-Stopped s.client s.history h.0), refl)

  Reach-IsDeaf : {s : System} → Reach P H depth (initial false) s → IsDeaf s
  unfolding new_client
  Reach-IsDeaf here = (refl, refl)
  Reach-IsDeaf (later r st) = Step-IsDeaf st (Reach-IsDeaf r)

  -- A client whose `running_` happened to be false when it was made never comes to the handler that
  -- receives, in whatever order the threads run and whatever they ask.
  pub Reach-is_messaging :
      {s : System} → Reach P H depth (initial false) s → is_messaging s.phase ≡ false
  Reach-is_messaging r = (Reach-IsDeaf r).1
