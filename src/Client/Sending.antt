-- ===== src/Client/Sending.antt =====
-- `client::send_message`: what the server gets, and when the client takes itself for disconnected.
use yonaa.Base.{
  ◌≡◌, ◌≢◌, ◌⊎◌, inl, inr, refl, [], ◌++◌, true, Bool-cases, ◌==◌, if◌then◌else◌, ◌∙◌, ap, arith,
}
use yonaa.Os.Events.{Trace}
use yonaa.Os.Platform.{Platform, SetsErrno, SendsSome}
use yonaa.Os.Outcome.{Outcome, done, R, return}
use yonaa.Os.After.{bind-done}
use yonaa.Buffer.{Buffer}
use yonaa.Connection.{ErrorCode}
use yonaa.Connection.Send.{send}
use yonaa.Connection.Sending.{delivered, send-Sends}
use yonaa.Client.{Client, is_connected, send_message}

module _ (P : Platform) (gone : Client → R Client) where
  -- After the history `w`, a message was sent whole and the client is as it was, its error code not
  -- set; or the client is taken for disconnected, with the error code set.
  abbrev pub Passes : Client → Buffer → Trace → Outcome Client × Trace → Type 0
  Passes c msg w r =
      ((c.ec ≡ 0)
        × (r.0 ≡ done c)
        × (delivered c.conn.socket r.1 ≡ delivered c.conn.socket w ++ msg.bytes))
      ⊎ ((ec : ErrorCode) × (w' : Trace) × (ec ≢ 0) × (r ≡ gone (record c { ec = ec }) w'))

  send_message-done :
      (c : Client) (msg : Buffer) (ec : ErrorCode) (w : Trace)
      → (send P c.conn msg c.ec 0 w).0 ≡ done ec
      → send_message P gone c msg w ≡ (
          let c' = record c { ec = ec } in
          (if ec == 0 then return c' else gone c') (send P c.conn msg c.ec 0 w).1)
  unfolding send_message
  send_message-done c msg ec w h =
      bind-done (send P c.conn msg c.ec 0)
        (λ e. if e == 0 then return (record c { ec = e }) else gone (record c { ec = e }))
        (ap (λ r. (r, (send P c.conn msg c.ec 0 w).1)) h)

  send_message-failed :
      (c : Client) (msg : Buffer) (ec : ErrorCode) (w : Trace)
      → (send P c.conn msg c.ec 0 w).0 ≡ done ec
      → ec ≢ 0
      → Passes c msg w (send_message P gone c msg w)
  send_message-failed c msg ec w h ne = inr (
    ec,
    (send P c.conn msg c.ec 0 w).1,
    ne,
    send_message-done c msg ec w h ∙ taken_as_gone ec (send P c.conn msg c.ec 0 w).1 ne,
  )
    where
      taken_as_gone :
          (ec : ErrorCode) (w' : Trace)
          → ec ≢ 0
          → (if ec == 0 then return (record c { ec = ec }) else gone (record c { ec = ec })) w'
            ≡ gone (record c { ec = ec }) w'
      taken_as_gone ec w' ne = ground arith

  -- A client that is connected sends a message that is not empty, or calls `on_disconnect_`. It
  -- calls it whenever its error code was set before, also where the message is sent. Assumed: the
  -- kernel takes a byte or more in each call, and a call that fails sets `errno`.
  pub send_message-Passes :
      SendsSome P
      → SetsErrno P
      → (c : Client) (msg : Buffer) (w : Trace) → is_connected c ≡ true
      → msg.bytes ≢ []
      → Passes c msg w (send_message P gone c msg w)
  send_message-Passes some_bytes errors c msg w connected ne =
      elim (send-Sends P some_bytes errors c.conn msg c.ec 0 w connected ne) [
        | inr (ec, n, d, bad, taken) ↦ send_message-failed c msg ec w d bad
        | inl (d, whole) ↦ elim (Bool-cases (c.ec == 0)) [
          | inr e ↦ send_message-failed c msg c.ec w d (ground arith)
          | inl e ↦ rw (send_message-done c msg c.ec w d, e) (inl (ground arith, refl, whole))
        ]
      ]
