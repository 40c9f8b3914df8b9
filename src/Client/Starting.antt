-- ===== src/Client/Starting.antt =====
-- The start and the end of the client's network thread.
use yonaa.Base.{ℕ, suc, ◌≡◌, ◌∙◌, ap, inl, inr, refl, List, false, ◌==◌, arith}
use yonaa.Os.Events.{Event, Trace}
use yonaa.Os.Platform.{Platform}
use yonaa.Os.Outcome.{halt, done, exited, ◌>>=◌}
use yonaa.Os.After.{After, After-any, After-mono, After-cong, After-if, bind-done}
use yonaa.Connection
use yonaa.Connection.{Connection, ErrorCode}
use yonaa.Endpoint.{Endpoint}
use yonaa.Resolve.{resolve}
use yonaa.Client.{
  Client, Request, Handlers, is_connected, notify, enter, open_to, serve, leave,
  network_thread_function,
}
use yonaa.Client.Callbacks.{Kept, notify-Keeps_client}

abbrev pub Stopped : Client → Type 0
Stopped c = c.running ≡ false

abbrev pub Unconnected : Client → Type 0
Unconnected c = is_connected c ≡ false

pub Kept-Stopped : (c : Client) → Stopped c → (d : Client) → Kept c d → Stopped d
Kept-Stopped c h d k = elim k.3 [ inl e ↦ e ∙ h | inr e ↦ e ]

module _ (P : Platform) (H : Handlers) where
  open_to-Stopped :
      (depth : ℕ) (c : Client) (es : List Endpoint) (ec : ErrorCode) (w : Trace)
      → Stopped c
      → After Stopped (open_to P H depth c es ec w).0
  unfolding open_to
  open_to-Stopped depth c es ec w h =
      let (opened, w') = Connection.connect P c.conn es ec w in
      let c' = record c { conn = opened.0; ec = opened.1 } in
      After-if Stopped (opened.1 == 0) (notify P H depth H.on_connect Event.server_connected c')
        (halt exited) w'
        (After-mono Stopped _ (Kept-Stopped c' h)
          (notify-Keeps_client P H depth H.on_connect Event.server_connected c' w'))
        tt

  pub enter-Stopped :
      (depth : ℕ) (c : Client) (w : Trace) → Stopped c → After Stopped (enter P H depth c w).0
  unfolding enter
  enter-Stopped depth c w h =
      let (resolved, w') = resolve P c.hostname c.service c.ec w in
      After-if Stopped (resolved.1 == 0) (open_to P H depth c resolved.0 resolved.1) (halt exited)
        w' (open_to-Stopped depth c resolved.0 resolved.1 w' h) tt

  serve-Stopped :
      (turns depth : ℕ) (others : Trace → List Request) (c : Client) (w : Trace)
      → Stopped c
      → serve P H (suc turns) depth others c w ≡ (done c, w)
  unfolding serve
  serve-Stopped turns depth others c w h = rw h refl

  -- A client that does not run when its network thread starts, and nothing in the code sets
  -- `running_`, connects and is disconnected at once: the loop is left out, whatever other threads
  -- ask and however many turns there are.
  pub network_thread_function-at_once :
      (turns depth : ℕ) (others : Trace → List Request) (c : Client) (w : Trace)
      → c.running ≡ false
      → network_thread_function P H (suc turns) depth others c w
        ≡ (enter P H depth c >>= leave P H depth) w
  unfolding network_thread_function
  network_thread_function-at_once turns depth others c w h =
      After-cong Stopped (enter P H depth c)
        (λ d. serve P H (suc turns) depth others d >>= leave P H depth) (leave P H depth) w
        (enter-Stopped depth c w h)
        λ d w' k.
          bind-done (serve P H (suc turns) depth others d) (leave P H depth)
            (serve-Stopped turns depth others d w' k)

  disconnect-unconnected :
      (c : Connection) (w : Trace) → Connection.is_connected (Connection.disconnect c w).0 ≡ false
  unfolding Connection.disconnect
  disconnect-unconnected c w = ground arith

  pub leave-disconnects :
      (depth : ℕ) (c : Client) (w : Trace) → After Unconnected (leave P H depth c w).0
  unfolding leave
  leave-disconnects depth c w =
      After-mono Unconnected _
        (λ d k. ap Connection.is_connected k.0 ∙ disconnect-unconnected c.conn w)
        (notify-Keeps_client P H depth H.on_disconnect Event.server_disconnected
          (record c { conn = (Connection.disconnect c.conn w).0 })
          (Connection.disconnect c.conn w).1)

  -- A network thread that comes to its end has closed the connection, whatever the callbacks and the
  -- other threads have asked.
  network_thread_function-disconnects :
      (turns depth : ℕ) (others : Trace → List Request) (c : Client) (w : Trace)
      → After Unconnected (network_thread_function P H turns depth others c w).0
  unfolding network_thread_function
  network_thread_function-disconnects turns depth others c w =
      After-any Unconnected (enter P H depth c)
        (λ d. serve P H turns depth others d >>= leave P H depth) w
        λ d w'.
          After-any Unconnected (serve P H turns depth others d) (leave P H depth) w'
            (leave-disconnects depth)
