-- ===== src/Client/Callbacks.antt =====
-- What the client's callbacks and the requests of other threads change.
use yonaa.Base.{
  ℕ, zero, suc, ◌≡◌, ◌⊎◌, ◌∙◌, inl, inr, refl, List, [], ◌∷◌, Bool, false, some, none, Bool-cases,
  ◌==◌, if◌then◌else◌, All,
}
use yonaa.Os.Events.{Event, Trace}
use yonaa.Os.Platform.{Platform}
use yonaa.Os.Outcome.{R, return}
use yonaa.Os.After.{After, After-any, After-bind, After-mono}
use yonaa.Buffer.{Buffer}
use yonaa.Connection.Send.{send}
use yonaa.Client.{
  Client, Request, call_send_message, call_disconnect, Callback, Handlers, send_message, perform,
  perform_all, notify, disconnect, disconnected,
}

-- The connection and the address are the same, and the client runs as before or was stopped.
abbrev pub Kept : Client → Client → Type 0
Kept c c' =
    (c'.conn ≡ c.conn)
    × (c'.hostname ≡ c.hostname)
    × (c'.service ≡ c.service)
    × ((c'.running ≡ c.running) ⊎ (c'.running ≡ false))

abbrev KeptRunning : Bool → Bool → Type 0
KeptRunning b b' = (b' ≡ b) ⊎ (b' ≡ false)

KeptRunning-trans : (a b c : Bool) → KeptRunning a b → KeptRunning b c → KeptRunning a c
KeptRunning-trans a b c (inl h) (inl k) = inl (k ∙ h)
KeptRunning-trans a b c (inr h) (inl k) = inr (k ∙ h)
KeptRunning-trans a b c h (inr k) = inr k

Kept-trans : (c d : Client) → Kept c d → (e : Client) → Kept d e → Kept c e
Kept-trans c d h e k =
    (k.0 ∙ h.0, k.1 ∙ h.1, k.2 ∙ h.2, KeptRunning-trans c.running d.running e.running h.3 k.3)

-- A relation that the requests of a kind keep. All requests of the callbacks are of that kind.
abbrev pub Asks : (Request → Type 0) → Callback → Type 0
Asks A none = Unit
Asks A (some callback) = (w : Trace) → All A (callback w)

module _ (P : Platform) (A : Request → Type 0) (K : Client → Client → Type 0)
    (same : (c : Client) → K c c) (chain : (c d : Client) → K c d → (e : Client) → K d e → K c e)
    (sent : (c : Client) (ec : ℕ) → K c (record c { ec = ec }))
    (stopped : (c : Client) → A call_disconnect → K c (disconnect c)) where
  module _ (gone : Client → R Client)
      (keeps : (c : Client) (w : Trace) → After (K c) (gone c w).0) where
    send_message-After :
        (c : Client) (msg : Buffer) (w : Trace) → After (K c) (send_message P gone c msg w).0
    unfolding send_message
    send_message-After c msg w =
        After-any (K c) (send P c.conn msg c.ec 0)
          (λ ec. if ec == 0 then return (record c { ec = ec }) else gone (record c { ec = ec })) w
          λ ec w'. elim (Bool-cases (ec == 0)) [
            | inl good ↦ rw good (sent c ec)
            | inr bad ↦ rw bad (
                After-mono (K c) _ (chain c (record c { ec = ec }) (sent c ec))
                  (keeps (record c { ec = ec }) w'))
          ]

    pub perform-After :
        (q : Request) (c : Client) (w : Trace) → A q → After (K c) (perform P gone q c w).0
    unfolding perform
    perform-After (call_send_message msg) c w a = send_message-After c msg w
    perform-After call_disconnect c w a = stopped c a

    pub perform_all-After :
        (qs : List Request) (c : Client) (w : Trace)
        → All A qs
        → After (K c) (perform_all P gone qs c w).0
    unfolding perform_all
    perform_all-After [] c w a = same c
    perform_all-After (q ∷ qs) c w a =
        After-bind (K c) (K c) (perform P gone q c) (perform_all P gone qs) w
          (perform-After q c w a.0)
          λ d w' k. After-mono (K c) _ (chain c d k) (perform_all-After qs d w' a.1)

  pub notify-After :
      (H : Handlers)
      → Asks A H.on_disconnect
      → (depth : ℕ) (callback : Callback) (e : Event) (c : Client) (w : Trace) → Asks A callback
      → After (K c) (notify P H depth callback e c w).0
  unfolding notify
  notify-After H h zero callback e c w a = tt
  notify-After H h (suc depth) none e c w a = tt
  notify-After H h (suc depth) (some callback) e c w a =
      perform_all-After (notify P H depth H.on_disconnect Event.server_disconnected)
        (λ d w'. notify-After H h depth H.on_disconnect Event.server_disconnected d w' h)
        (callback (e ∷ w)) c (e ∷ w) (a (e ∷ w))

any_asks : (qs : List Request) → All (λ q. Unit {0}) qs
any_asks [] = tt
any_asks (q ∷ qs) = (tt, any_asks qs)

pub any_Asks : (callback : Callback) → Asks (λ q. Unit {0}) callback
any_Asks none = tt
any_Asks (some callback) = λ w. any_asks (callback w)

module _ (P : Platform) (H : Handlers) where
  -- Whatever a callback asks for, and whatever is asked by the calls of `on_disconnect_` that this
  -- leads to, when it comes back the client has the same connection and address, and it was not
  -- started.
  pub notify-Keeps_client :
      (depth : ℕ) (callback : Callback) (e : Event) (c : Client) (w : Trace)
      → After (Kept c) (notify P H depth callback e c w).0
  notify-Keeps_client depth callback e c w =
      notify-After P (λ q. Unit {0}) Kept (λ c. (refl, refl, refl, inl refl)) Kept-trans
        (λ c ec. (refl, refl, refl, inl refl)) (λ c a. (refl, refl, refl, inr refl)) H
        (any_Asks H.on_disconnect) depth callback e c w (any_Asks callback)

  -- The same of a request.
  pub perform-Keeps_client :
      (depth : ℕ) (q : Request) (c : Client) (w : Trace)
      → After (Kept c) (perform P (disconnected P H depth) q c w).0
  perform-Keeps_client depth q c w =
      perform-After P (λ q. Unit {0}) Kept (λ c. (refl, refl, refl, inl refl)) Kept-trans
        (λ c ec. (refl, refl, refl, inl refl)) (λ c a. (refl, refl, refl, inr refl))
        (disconnected P H depth)
        (λ d w'. notify-Keeps_client depth H.on_disconnect Event.server_disconnected d w') q c w tt
