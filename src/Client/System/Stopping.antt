-- ===== src/Client/System/Stopping.antt =====
-- A client that nobody disconnects.
use yonaa.Base.{
  ℕ, ◌≡◌, ◌∙◌, refl, sym, subst, Bool, true, false, not, ◌==◌, ◌||◌, inl, inr, Bool-cases,
}
use yonaa.Os.Events.{Event, Trace}
use yonaa.Os.Platform.{Platform}
use yonaa.Os.Outcome.{halt, exited}
use yonaa.Os.After.{After, After-if}
use yonaa.Buffer
use yonaa.Connection
use yonaa.Connection.{has_data_available}
use yonaa.Resolve.{resolve}
use yonaa.Client.{
  Client, Request, call_disconnect, Callback, Handlers, new_client, connect, notify, disconnected,
  is_connected, perform, enter, open_to, receive_message, handle_incoming_messages,
}
use yonaa.Client.Callbacks.{Asks, perform-After, notify-After}
use yonaa.Client.System.{
  System, Phase, unstarted, spawned, testing, messaging, closing, ended, is_joinable, is_joined,
  ask, spawn, begin, turn, stop, receive, finish, Reach, here, later, initial,
}
use yonaa.Client.System.Lifecycle.{of_done}

abbrev pub asks_disconnect : Request → Bool
asks_disconnect call_disconnect = true
asks_disconnect _ = false

-- A request that is no call of `disconnect`; a callback that makes no such call.
abbrev IsLasting : Request → Type 0
IsLasting q = asks_disconnect q ≡ false

abbrev pub NeverStops : Callback → Type 0
NeverStops = Asks IsLasting

abbrev Runs : Client → Client → Type 0
Runs c d = d.running ≡ c.running

Runs-trans : (c d : Client) → Runs c d → (e : Client) → Runs d e → Runs c e
Runs-trans c d h e k = k ∙ h

module _ (P : Platform) (H : Handlers) (depth : ℕ) (connected : NeverStops H.on_connect)
    (received : NeverStops H.on_data_receive) (gone : NeverStops H.on_disconnect) where
  notify-Runs :
      (callback : Callback) (e : Event) (c : Client) (w : Trace)
      → NeverStops callback
      → After (Runs c) (notify P H depth callback e c w).0
  notify-Runs callback e c w h =
      notify-After P IsLasting Runs (λ c. refl) Runs-trans (λ c ec. refl) (λ c a. absurd (cc)) H
        gone depth callback e c w h

  perform-Runs :
      (q : Request) (c : Client) (w : Trace)
      → IsLasting q
      → After (Runs c) (perform P (disconnected P H depth) q c w).0
  perform-Runs q c w h =
      perform-After P IsLasting Runs (λ c. refl) Runs-trans (λ c ec. refl) (λ c a. absurd (cc))
        (disconnected P H depth)
        (λ d w'. notify-Runs H.on_disconnect Event.server_disconnected d w' gone) q c w h

  enter-Runs : (c : Client) (w : Trace) → After (Runs c) (enter P H depth c w).0
  unfolding enter open_to
  enter-Runs c w =
      let (r, w') = resolve P c.hostname c.service c.ec w in
      let (o, w'') = Connection.connect P c.conn r.0 r.1 w' in
      let c' = record c { conn = o.0; ec = o.1 } in
      After-if (Runs c) (r.1 == 0) (open_to P H depth c r.0 r.1) (halt exited) w'
        (After-if (Runs c) (o.1 == 0) (notify P H depth H.on_connect Event.server_connected c')
          (halt exited) w'' (notify-Runs H.on_connect Event.server_connected c' w'' connected) tt)
        tt

  receive_message-Runs : (c : Client) (w : Trace) → After (Runs c) (receive_message P H depth c w).0
  unfolding receive_message
  receive_message-Runs c w =
      let (r, w') = Connection.receive P c.conn c.ec 0 w in
      let c' = record c { conn = r.1; ec = r.2 } in
      After-if (Runs c) (not (r.2 == 0) || (Buffer.size r.0 == 0)) (disconnected P H depth c')
        (notify P H depth H.on_data_receive (Event.server_sent r.0.bytes) c') w'
        (notify-Runs H.on_disconnect Event.server_disconnected c' w' gone)
        (notify-Runs H.on_data_receive (Event.server_sent r.0.bytes) c' w' received)

  handle_incoming_messages-Runs :
      (c : Client) (w : Trace) → After (Runs c) (handle_incoming_messages P H depth c w).0
  unfolding handle_incoming_messages
  handle_incoming_messages-Runs c w = elim (Bool-cases (is_connected c)) [
    | inl on ↦
        let (available, w') = has_data_available P c.conn w in
        elim (Bool-cases available) [
          | inl ready ↦ rw (on, After, ready) refl
          | inr unready ↦ rw (on, After, unready) (receive_message-Runs c w')
        ]
    | inr off ↦ rw (off, After) (notify-Runs H.on_disconnect Event.server_disconnected c w gone)
  ]

module _ {P : Platform} {H : Handlers} {depth : ℕ} where
  -- In the run no thread asks the client to disconnect.
  abbrev pub IsUnstopped : {s t : System} → Reach P H depth s t → Type 0
  IsUnstopped here = Unit
  IsUnstopped (later r (ask q e)) = (asks_disconnect q ≡ false) × IsUnstopped r
  IsUnstopped (later r _) = IsUnstopped r

-- Running, and not past the loop.
abbrev KeepsOn : Phase → Bool → Type 0
KeepsOn closing b = ⊥
KeepsOn ended b = ⊥
KeepsOn _ b = b ≡ true

KeepsOn-same : (p : Phase) (b c : Bool) → c ≡ b → KeepsOn p b → KeepsOn p c
KeepsOn-same p b c e h = subst (KeepsOn p) (sym e) h

KeepsOn-is_joined :
    (p : Phase) (b : Bool) → KeepsOn p b → is_joinable p ≡ true → is_joined p ≡ false
KeepsOn-is_joined unstarted b h j = cc
KeepsOn-is_joined closing b h j = absurd h
KeepsOn-is_joined ended b h j = absurd h
KeepsOn-is_joined p b h j = refl

module _ (P : Platform) (H : Handlers) (depth : ℕ) (connected : NeverStops H.on_connect)
    (received : NeverStops H.on_data_receive) (gone : NeverStops H.on_disconnect) where
  -- What the thread's next part needs of what was kept up to its phase.
  at_phase :
      (s : System) (p : Phase)
      → s.phase ≡ p
      → KeepsOn s.phase s.client.running
      → KeepsOn p s.client.running
  at_phase s p e h = subst (λ q. KeepsOn q s.client.running) e h

  Reach-KeepsOn :
      {s : System} (r : Reach P H depth (initial true) s)
      → IsUnstopped r
      → KeepsOn s.phase s.client.running
  unfolding new_client connect
  Reach-KeepsOn here u = refl
  Reach-KeepsOn (later {t = s} r (ask q {c} {w} e)) u =
      KeepsOn-same s.phase s.client.running c.running
        (of_done (Runs s.client) c w _ e
          (perform-Runs P H depth connected received gone q s.client s.history u.0))
        (Reach-KeepsOn r u.1)
  Reach-KeepsOn (later {t = s} r (spawn hostname service p)) u =
      at_phase s unstarted p (Reach-KeepsOn r u)
  Reach-KeepsOn (later {t = s} r (begin {c} {w} p e)) u =
      of_done (Runs s.client) c w _ e
        (enter-Runs P H depth connected received gone s.client s.history)
      ∙ at_phase s spawned p (Reach-KeepsOn r u)
  Reach-KeepsOn (later r (turn p h)) u = h
  Reach-KeepsOn (later {t = s} r (stop p h)) u =
      let k : (s.client.running ≡ true) = at_phase s testing p (Reach-KeepsOn r u) in absurd (cc)
  Reach-KeepsOn (later {t = s} r (receive {c} {w} p e)) u =
      of_done (Runs s.client) c w _ e
        (handle_incoming_messages-Runs P H depth connected received gone s.client s.history)
      ∙ at_phase s messaging p (Reach-KeepsOn r u)
  Reach-KeepsOn (later {t = s} r (finish p e)) u = absurd (at_phase s closing p (Reach-KeepsOn r u))

  -- A client whose `running_` happened to be true when it was made, whose callbacks never ask it to
  -- disconnect, and that no thread asks to disconnect, does not get past the `join` of its
  -- destructor once it has a network thread, in whatever order the threads run.
  pub Reach-is_joined_client :
      {s : System} (r : Reach P H depth (initial true) s)
      → IsUnstopped r
      → is_joinable s.phase ≡ true
      → is_joined s.phase ≡ false
  Reach-is_joined_client {s} r u j =
      KeepsOn-is_joined s.phase s.client.running (Reach-KeepsOn r u) j
