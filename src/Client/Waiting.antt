-- ===== src/Client/Waiting.antt =====
-- A client whose server has sent something.
use yonaa.Base.{ℕ, zero, suc, ◌≡◌, ◌∙◌, refl, List, [], true, arith}
use yonaa.Os.Events.{Trace}
use yonaa.Os.Platform.{Platform}
use yonaa.Os.Outcome.{done, stops, out_of_rounds, ◌>>=◌}
use yonaa.Os.After.{bind-done}
use yonaa.Connection.{Connection, has_data_available}
use yonaa.Client.{
  Client, Handlers, Request, asked, perform_all, is_connected, handle_incoming_messages, serve,
}

module _ (P : Platform) (H : Handlers) where
  -- The history after a number of tests for data.
  abbrev pub tested : ℕ → Connection → Trace → Trace
  tested zero conn w = w
  tested (suc n) conn w = tested n conn (has_data_available P conn w).1

  handle_incoming_messages-available :
      (depth : ℕ) (c : Client) (w : Trace)
      → is_connected c ≡ true
      → (has_data_available P c.conn w).0 ≡ true
      → handle_incoming_messages P H depth c w ≡ (done c, (has_data_available P c.conn w).1)
  unfolding handle_incoming_messages
  handle_incoming_messages-available depth c w connected available = ground arith

  pub serve_turn :
      (turns depth : ℕ) (others : Trace → List Request) (c : Client) (w : Trace)
      → c.running ≡ true
      → serve P H (suc turns) depth others c w
        ≡ (handle_incoming_messages P H depth c >>= λ d.
              asked P H depth others d >>= serve P H turns depth others)
            w
  unfolding serve
  serve_turn turns depth others c w running = rw running refl

  -- A client that is running and connected and for which the kernel has data each time receives
  -- none: however many turns its loop has, and with no request of another thread, it does nothing
  -- but test for data, and the turns are used up.
  pub serve-starves :
      (turns depth : ℕ) (c : Client) (w : Trace)
      → c.running ≡ true
      → is_connected c ≡ true
      → ((w' : Trace) → (has_data_available P c.conn w').0 ≡ true)
      → serve P H turns depth (λ w'. []) c w ≡ (stops out_of_rounds, tested turns c.conn w)
  unfolding serve perform_all
  serve-starves zero depth c w running connected available = refl
  serve-starves (suc turns) depth c w running connected available =
      serve_turn turns depth (λ v. []) c w running
      ∙ bind-done (handle_incoming_messages P H depth c)
          (λ d. asked P H depth (λ v. []) d >>= serve P H turns depth (λ v. []))
          (handle_incoming_messages-available depth c w connected (available w))
      ∙ serve-starves turns depth c (has_data_available P c.conn w).1 running connected available
