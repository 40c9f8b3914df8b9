-- ===== src/Client/Hangup.antt =====
-- A client whose server has hung up.
use yonaa.Base.{
  ℕ, zero, suc, ◌≡◌, ◌∙◌, ap, refl, List, [], ◌∷◌, ◌++◌, true, false, some, replicate, arith,
}
use yonaa.Os.Events.{Event, Trace}
use yonaa.Os.Platform.{Platform}
use yonaa.Os.Outcome.{done, stops, out_of_rounds, ◌>>=◌}
use yonaa.Os.After.{bind-done}
use yonaa.Client.{
  Client, Handlers, Request, asked, perform_all, notify, is_connected, handle_incoming_messages,
  serve,
}
use yonaa.Client.Waiting.{serve_turn}

module _ (P : Platform) (H : Handlers) (callback : Trace → List Request)
    (installed : H.on_disconnect ≡ some callback) (silent : (w : Trace) → callback w ≡ []) where
  handle_incoming_messages-unconnected :
      (depth : ℕ) (c : Client) (w : Trace)
      → is_connected c ≡ false
      → handle_incoming_messages P H (suc depth) c w ≡ (done c, Event.server_disconnected ∷ w)
  unfolding handle_incoming_messages notify perform_all
  handle_incoming_messages-unconnected depth c w h =
      ground (arith, installed, silent (Event.server_disconnected ∷ w))

  replicate_snoc :
      (n : ℕ) (e : Event) (w : Trace) → replicate n e ++ (e ∷ w) ≡ e ∷ (replicate n e ++ w)
  replicate_snoc zero e w = refl
  replicate_snoc (suc n) e w = ap (◌∷◌ e) (replicate_snoc n e w)

  -- A client that is running and not connected any more calls `on_disconnect_` in each turn of its
  -- loop: with no request of a callback or of another thread, n turns tell the user n times.
  pub serve-repeats :
      (turns depth : ℕ) (c : Client) (w : Trace)
      → c.running ≡ true
      → is_connected c ≡ false
      → serve P H turns (suc depth) (λ w'. []) c w
        ≡ (stops out_of_rounds, replicate turns Event.server_disconnected ++ w)
  unfolding serve perform_all
  serve-repeats zero depth c w running gone = refl
  serve-repeats (suc turns) depth c w running gone =
      serve_turn P H turns (suc depth) (λ v. []) c w running
      ∙ bind-done (handle_incoming_messages P H (suc depth) c)
          (λ d. asked P H (suc depth) (λ v. []) d >>= serve P H turns (suc depth) (λ v. []))
          (handle_incoming_messages-unconnected depth c w gone)
      ∙ serve-repeats turns depth c (Event.server_disconnected ∷ w) running gone
      ∙ ap (λ v. (stops out_of_rounds, v)) (replicate_snoc turns Event.server_disconnected w)
