-- ===== src/Client/System/Order.antt =====
-- The order of a client's callbacks over whole runs.
use yonaa.Base.{ℕ, ◌≡◌, ◌∙◌, refl, subst, [], ◌∷◌, Bool, inl, inr}
use yonaa.Os.Events.{Event, Trace}
use yonaa.Os.Platform.{Platform, RecvFits, SetsErrno}
use yonaa.Os.Ends.{Ends-any, Ends-done}
use yonaa.Client.{Client, Handlers, new_client, perform, disconnected, leave}
use yonaa.Client.Order.{news, IsHeard}
use yonaa.Client.Telling.{
  perform-news, disconnected-news, enter-news, leave-news, Hands, handle_incoming_messages-Hands,
}
use yonaa.Client.System.{
  System, Phase, unstarted, spawned, testing, messaging, closing, ended, ask, spawn, begin, turn,
  stop, receive, finish, Reach, here, later, initial,
}

-- Before the network thread has connected, only `on_disconnect_` was called.
abbrev pub NewsAt : Phase → Trace → Type 0
NewsAt unstarted w = news w ≡ []
NewsAt spawned w = news w ≡ []
NewsAt _ w = IsHeard (news w)

NewsAt-same : (p : Phase) (w w' : Trace) → news w' ≡ news w → NewsAt p w → NewsAt p w'
NewsAt-same unstarted w w' e h = e ∙ h
NewsAt-same spawned w w' e h = e ∙ h
NewsAt-same testing w w' e h = rw e h
NewsAt-same messaging w w' e h = rw e h
NewsAt-same closing w w' e h = rw e h
NewsAt-same ended w w' e h = rw e h

module _ (P : Platform) (H : Handlers) (depth : ℕ) (fits : RecvFits P) (errors : SetsErrno P) where
  Hands-IsHeard :
      (w : Trace) (c : Client) (w' : Trace)
      → Hands P H w c w'
      → IsHeard (news w)
      → IsHeard (news w')
  Hands-IsHeard w c w' (inl e) h = rw e h
  Hands-IsHeard w c w' (inr (b, some_bytes, small, e)) h = rw e (some_bytes, small, h)

  -- In whatever order the threads run, `on_connect_` is called once, as the network thread comes to
  -- its loop, and `on_data_receive_` not before, with one byte at least and 8192 at most in each call.
  -- Assumed: the kernel stores no more than there is room for, and a call that fails sets `errno`.
  pub Reach-NewsAt :
      (stray : Bool) {s : System} → Reach P H depth (initial stray) s → NewsAt s.phase s.history
  unfolding new_client
  Reach-NewsAt stray here = refl
  Reach-NewsAt stray (later {t = s} r (ask q {c} {w} e)) =
      Ends-done (λ d v. NewsAt s.phase v) c w _ e
        (Ends-any (NewsAt s.phase) (perform P (disconnected P H depth) q s.client s.history) (
          NewsAt-same s.phase s.history _
            (perform-news P (disconnected P H depth) (disconnected-news P H depth) q s.client
              s.history)
            (Reach-NewsAt stray r)))
  Reach-NewsAt stray (later {t = s} r (spawn hostname service p)) =
      subst (λ q. NewsAt q s.history) p (Reach-NewsAt stray r)
  Reach-NewsAt stray (later {t = s} r (begin {c} {w} p e)) =
      let before : (news s.history ≡ []) =
        subst (λ q. NewsAt q s.history) p (Reach-NewsAt stray r) in
      let k =
        Ends-done (λ d v. news v ≡ Event.server_connected ∷ news s.history) c w _ e
          (enter-news P H depth s.client s.history) in
      rw (k, before) tt
  Reach-NewsAt stray (later {t = s} r (turn p h)) =
      subst (λ q. NewsAt q s.history) p (Reach-NewsAt stray r)
  Reach-NewsAt stray (later {t = s} r (stop p h)) =
      subst (λ q. NewsAt q s.history) p (Reach-NewsAt stray r)
  Reach-NewsAt stray (later {t = s} r (receive {c} {w} p e)) =
      Hands-IsHeard s.history c w
        (Ends-done (Hands P H s.history) c w _ e
          (handle_incoming_messages-Hands P H fits errors depth s.client s.history))
        (subst (λ q. NewsAt q s.history) p (Reach-NewsAt stray r))
  Reach-NewsAt stray (later {t = s} r (finish {c} {w} p e)) =
      Ends-done (λ d v. IsHeard (news v)) c w _ e
        (Ends-any (λ v. IsHeard (news v)) (leave P H depth s.client s.history)
          (rw (leave-news P H depth s.client s.history)
            (subst (λ q. NewsAt q s.history) p (Reach-NewsAt stray r))))
