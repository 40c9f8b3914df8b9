-- ===== src/Client/Telling.antt =====
-- Which calls of `on_connect_` and `on_data_receive_` the parts of a client make.
use yonaa.Base.{
  ℕ, zero, suc, ◌≤◌, ◌≡◌, ◌≢◌, ◌⊎◌, ◌∙◌, ap, inl, inr, refl, List, [], ◌∷◌, false, not, some, none,
  Bool-cases, arith, length, ◌==◌, ◌||◌, if◌then◌else◌,
}
use yonaa.Os.Events.{Event, Trace}
use yonaa.Os.Platform.{Platform, RecvFits, SetsErrno}
use yonaa.Os.Outcome.{R, return, halt, exited, done}
use yonaa.Os.Ends.{Ends, Ends-if, Ends-test, Ends-mono, Ends-any}
use yonaa.Os.Unseen.{unseen-bind}
use yonaa.Buffer
use yonaa.Buffer.{Buffer}
use yonaa.Connection
use yonaa.Connection.{receive, max_buffer_size, has_data_available}
use yonaa.Connection.Send.{send}
use yonaa.Connection.Unseen.{send-unseen}
use yonaa.Connection.Receiving.{receive-size}
use yonaa.Resolve.{resolve}
use yonaa.Told.Quiet.{
  told-receive, told-resolve, told-connect, told-disconnect, told-has_data_available,
}
use yonaa.Client.{
  Client, Request, call_send_message, call_disconnect, Callback, Handlers, send_message, perform,
  perform_all, notify, disconnected, is_connected, receive_message, handle_incoming_messages,
  open_to, enter, leave,
}
use yonaa.Client.Order.{news, without_goodbyes}

module _ (P : Platform) where
  module _ (gone : Client → R Client)
      (quiet : (c : Client) (w : Trace) → news (gone c w).1 ≡ news w) where
    send_message-news :
        (c : Client) (msg : Buffer) (w : Trace) → news (send_message P gone c msg w).1 ≡ news w
    unfolding send_message
    send_message-news c msg w =
        unseen-bind news (send P c.conn msg c.ec 0)
          (λ ec. if ec == 0 then return (record c { ec = ec }) else gone (record c { ec = ec })) w
          (send-unseen news (λ fd bs flags r v. refl) P c.conn msg c.ec 0 w)
          λ ec w'. elim (Bool-cases (ec == 0)) [
            | inl good ↦ rw good refl
            | inr bad ↦ rw bad (quiet (record c { ec = ec }) w')
          ]

    pub perform-news :
        (q : Request) (c : Client) (w : Trace) → news (perform P gone q c w).1 ≡ news w
    unfolding perform
    perform-news (call_send_message msg) c w = send_message-news c msg w
    perform-news call_disconnect c w = refl

    perform_all-news :
        (qs : List Request) (c : Client) (w : Trace) → news (perform_all P gone qs c w).1 ≡ news w
    unfolding perform_all
    perform_all-news [] c w = refl
    perform_all-news (q ∷ qs) c w =
        unseen-bind news (perform P gone q c) (perform_all P gone qs) w (perform-news q c w)
          (perform_all-news qs)

module _ (P : Platform) (H : Handlers) where
  goodbye-news :
      (depth : ℕ) (callback : Callback) (c : Client) (w : Trace)
      → news (notify P H depth callback Event.server_disconnected c w).1 ≡ news w
  unfolding notify
  goodbye-news zero callback c w = refl
  goodbye-news (suc depth) none c w = refl
  goodbye-news (suc depth) (some callback) c w =
      perform_all-news P (disconnected P H depth) (goodbye-news depth H.on_disconnect)
        (callback (Event.server_disconnected ∷ w)) c (Event.server_disconnected ∷ w)

  -- However far the calls of `on_disconnect_` nest, the others are as they were.
  pub disconnected-news :
      (depth : ℕ) (c : Client) (w : Trace) → news (disconnected P H depth c w).1 ≡ news w
  disconnected-news depth = goodbye-news depth H.on_disconnect

  notify-news :
      (depth : ℕ) (callback : Callback) (e : Event) (c : Client) (w : Trace)
      → Ends (λ d w'. news w' ≡ news (e ∷ w)) (notify P H depth callback e c w)
  unfolding notify
  notify-news zero callback e c w = tt
  notify-news (suc depth) none e c w = tt
  notify-news (suc depth) (some callback) e c w =
      Ends-any (λ w'. news w' ≡ news (e ∷ w))
        (perform_all P (disconnected P H depth) (callback (e ∷ w)) c (e ∷ w))
        (perform_all-news P (disconnected P H depth) (disconnected-news depth) (callback (e ∷ w)) c
          (e ∷ w))

  pub enter-news :
      (depth : ℕ) (c : Client) (w : Trace)
      → Ends (λ d w'. news w' ≡ Event.server_connected ∷ news w) (enter P H depth c w)
  unfolding enter open_to
  enter-news depth c w =
      let (r, w') = resolve P c.hostname c.service c.ec w in
      let (k, w'') = Connection.connect P c.conn r.0 r.1 w' in
      let Q = λ (d : Client) (v : Trace). news v ≡ Event.server_connected ∷ news w in
      let c' = record c { conn = k.0; ec = k.1 } in
      let quiet : (news w'' ≡ news w) =
        ap without_goodbyes
          (told-connect P c.conn r.0 r.1 w' ∙ told-resolve P c.hostname c.service c.ec w) in
      Ends-if Q (r.1 == 0) (open_to P H depth c r.0 r.1) (halt exited) w'
        (Ends-if Q (k.1 == 0) (notify P H depth H.on_connect Event.server_connected c')
          (halt exited) w''
          (Ends-mono {S = λ d v. news v ≡ news (Event.server_connected ∷ w'')} Q
            (notify P H depth H.on_connect Event.server_connected c' w'')
            (λ d v e. e ∙ ap (λ (v : Trace). Event.server_connected ∷ v) quiet)
            (notify-news depth H.on_connect Event.server_connected c' w''))
          tt)
        tt

  pub leave-news : (depth : ℕ) (c : Client) (w : Trace) → news (leave P H depth c w).1 ≡ news w
  unfolding leave
  leave-news depth c w =
      disconnected-news depth (record c { conn = (Connection.disconnect c.conn w).0 })
        (Connection.disconnect c.conn w).1
      ∙ ap without_goodbyes (told-disconnect c.conn w)

  -- A turn hands over nothing, or some bytes and no more than there is room for.
  abbrev pub Hands : Trace → Client → Trace → Type 0
  Hands w c w' =
      (news w' ≡ news w)
      ⊎ ((b : Buffer) × (b.bytes ≢ [])
          × (Buffer.size b ≤ max_buffer_size)
          × (news w' ≡ Event.server_sent b.bytes ∷ news w))

  module _ (fits : RecvFits P) (errors : SetsErrno P) where
    receive_message-Hands :
        (depth : ℕ) (c : Client) (w : Trace) → Ends (Hands w) (receive_message P H depth c w)
    unfolding receive_message
    receive_message-Hands depth c w =
        let (r, w') = receive P c.conn c.ec 0 w in
        let c' = record c { conn = r.1; ec = r.2 } in
        let e = Event.server_sent r.0.bytes in
        let quiet : (news w' ≡ news w) = ap without_goodbyes (told-receive P c.conn c.ec 0 w) in
        Ends-test (Hands w) (not (r.2 == 0) || (Buffer.size r.0 == 0)) (disconnected P H depth c')
          (notify P H depth H.on_data_receive e c') w'
          (λ bad.
            Ends-any (λ v. Hands w c' v) (disconnected P H depth c' w')
              (inl (disconnected-news depth c' w' ∙ quiet)))
          λ good.
            Ends-mono {S = λ d v. news v ≡ news (e ∷ w')} (Hands w)
              (notify P H depth H.on_data_receive e c' w')
              (λ d v k. inr (
                r.0,
                filled r.0 r.2 good,
                (receive-size P fits errors c.conn c.ec 0 w).0,
                k ∙ ap (λ (v : Trace). e ∷ v) quiet,
              ))
              (notify-news depth H.on_data_receive e c' w')
      where
        filled :
            (b : Buffer) (ec : ℕ) → (not (ec == 0) || (Buffer.size b == 0)) ≡ false → b.bytes ≢ []
        filled b ec h e = ground (arith, ap length e)

    handle_incoming_messages-cases :
        (depth : ℕ) (c : Client) (w : Trace)
        → let w' = (has_data_available P c.conn w).1 in
          (handle_incoming_messages P H depth c w ≡ disconnected P H depth c w)
          ⊎ (handle_incoming_messages P H depth c w ≡ (done c, w'))
          ⊎ (handle_incoming_messages P H depth c w ≡ receive_message P H depth c w')
    unfolding handle_incoming_messages
    handle_incoming_messages-cases depth c w = elim (Bool-cases (is_connected c)) [
      | inl on ↦ elim (Bool-cases (has_data_available P c.conn w).0) [
        | inl ready ↦ inr (inl (ground arith))
        | inr empty ↦ inr (inr (ground arith))
      ]
      | inr off ↦ inl (ground arith)
    ]

    pub handle_incoming_messages-Hands :
        (depth : ℕ) (c : Client) (w : Trace)
        → Ends (Hands w) (handle_incoming_messages P H depth c w)
    handle_incoming_messages-Hands depth c w =
        let w' = (has_data_available P c.conn w).1 in
        let quiet : (news w' ≡ news w) = ap without_goodbyes (told-has_data_available P c.conn w) in
        elim (handle_incoming_messages-cases depth c w) [
          | inl e ↦ rw e (
              Ends-any (λ v. Hands w c v) (disconnected P H depth c w)
                (inl (disconnected-news depth c w)))
          | inr (inl e) ↦ rw e (inl quiet)
          | inr (inr e) ↦ rw e (
              Ends-mono {S = Hands w'} (Hands w) (receive_message P H depth c w')
                (λ d v k. Hands-after w w' quiet d v k) (receive_message-Hands depth c w'))
        ]
      where
        Hands-after :
            (w w' : Trace)
            → news w' ≡ news w
            → (d : Client) (v : Trace) → Hands w' d v
            → Hands w d v
        Hands-after w w' q d v (inl e) = inl (e ∙ q)
        Hands-after w w' q d v (inr (b, ne, fits, e)) =
            inr (b, ne, fits, e ∙ ap (λ (v : Trace). Event.server_sent b.bytes ∷ v) q)
