-- ===== src/Server/Returning.antt =====
-- The server's operations come to their end: no loop of `send` goes on for ever.
use yonaa.Base.{
  ℕ, ◌≡◌, ◌≢◌, inl, inr, refl, List, [], ◌∷◌, not, true, false, Bool-cases, Option-cases, some,
  length, arith, ◌==◌, ◌||◌, if◌then◌else◌,
}
use yonaa.Os.Events.{Event, Trace}
use yonaa.Os.Platform.{Platform, SendsSome, SetsErrno}
use yonaa.Os.Outcome.{Outcome, done, stops, return}
use yonaa.Os.Always.{Returns, Always-bind, Always-if}
use yonaa.Buffer
use yonaa.Buffer.{Buffer}
use yonaa.Connection.{Connection, ErrorCode, is_connected}
use yonaa.Connection.Send.{send}
use yonaa.Connection.Sending.{Sends, send-Sends}
use yonaa.Server.{
  ClientInfo, Server, Request, remove_client, client_info_from_id, message_client, message_found,
  message_each, message_all_clients, perform, perform_all, notify, call_message_client,
  call_message_all_clients, call_remove_client, call_stop,
}

Sends-Returns :
    (fd : ℕ) (bs : List ℕ) (ec : ErrorCode) (w : Trace) (r : Outcome ErrorCode × Trace)
    → Sends fd bs ec w r
    → Returns r.0
Sends-Returns fd bs ec w (done ec', w') h = tt
Sends-Returns fd bs ec w (stops s, w') (inl (e, h)) = cc
Sends-Returns fd bs ec w (stops s, w') (inr (ec', n, e, ne, h)) = cc

pub length-ne-nil : (bs : List ℕ) → (length bs == 0) ≡ false → bs ≢ []
length-ne-nil [] h e = cc
length-ne-nil (b ∷ bs) h e = cc

pub send-refused :
    (P : Platform) (c : Connection) (msg : Buffer) (ec : ErrorCode) (flags : ℕ) (w : Trace)
    → (not (is_connected c) || (Buffer.size msg == 0)) ≡ true
    → send P c msg ec flags w ≡ (done 1, w)
unfolding send
send-refused P c msg ec flags w h = rw h refl

module _ (P : Platform) (some_bytes : SendsSome P) (errors : SetsErrno P) where
  send-Returns :
      (c : Connection) (msg : Buffer) (ec : ErrorCode) (flags : ℕ) (w : Trace)
      → Returns (send P c msg ec flags w).0
  send-Returns c msg ec flags w =
      elim (Bool-cases (not (is_connected c) || (Buffer.size msg == 0))) [
        | inl h ↦ rw (send-refused P c msg ec flags w h) tt
        | inr h ↦ Sends-Returns c.socket msg.bytes ec w (send P c msg ec flags w) (
            send-Sends P some_bytes errors c msg ec flags w (ground arith)
              (length-ne-nil msg.bytes (ground arith)))
      ]

  message_found-Returns :
      (s : Server) (msg : Buffer) (c : ClientInfo) (id : ℕ) (w : Trace)
      → Returns (message_found P s msg c id w).0
  unfolding message_found
  message_found-Returns s msg c id w =
      Always-bind (λ (ec : ErrorCode). Unit {0}) (λ (t : Server). Unit {0})
        (send P c.conn msg s.ec 0)
        (λ ec.
          return
            (if ec == 0 then record s { ec = ec } else remove_client (record s { ec = ec }) id))
        w (send-Returns c.conn msg s.ec 0 w) λ ec w' u. tt

  message_client-Returns :
      (s : Server) (msg : Buffer) (id : ℕ) (w : Trace) → Returns (message_client P s msg id w).0
  unfolding message_client
  message_client-Returns s msg id w = elim (Option-cases (client_info_from_id id s.clients)) [
    | inl h ↦ rw (h, message_client) tt
    | inr (c, h) ↦
        rw (h, message_client)
          (Always-if (λ (t : Server). Unit {0}) (not c.is_connected) (return s)
            (message_found P s msg c id) w tt (message_found-Returns s msg c id w))
  ]

  message_each-Returns :
      (cs : List ClientInfo) (s : Server) (msg : Buffer) (exclude : ℕ) (w : Trace)
      → Returns (message_each P cs s msg exclude w).0
  unfolding message_each
  message_each-Returns [] s msg exclude w = tt
  message_each-Returns (c ∷ cs) s msg exclude w = elim (Bool-cases (c.id == exclude)) [
    | inl e ↦ rw (e, message_each) (message_each-Returns cs s msg exclude w)
    | inr e ↦
        rw (e, message_each)
          (Always-bind (λ (t : Server). Unit {0}) (λ (t : Server). Unit {0})
            (message_client P s msg c.id) (λ t. message_each P cs t msg exclude) w
            (message_client-Returns s msg c.id w)
            λ t w' k. message_each-Returns cs t msg exclude w')
  ]

  pub perform-Returns : (q : Request) (s : Server) (w : Trace) → Returns (perform P q s w).0
  unfolding perform message_all_clients
  perform-Returns (call_message_client msg id) s w = message_client-Returns s msg id w
  perform-Returns (call_message_all_clients msg exclude) s w =
      message_each-Returns s.clients s msg exclude w
  perform-Returns (call_remove_client id) s w = tt
  perform-Returns call_stop s w = tt

  pub perform_all-Returns :
      (qs : List Request) (s : Server) (w : Trace) → Returns (perform_all P qs s w).0
  unfolding perform_all
  perform_all-Returns [] s w = tt
  perform_all-Returns (q ∷ qs) s w =
      Always-bind (λ (t : Server). Unit {0}) (λ (t : Server). Unit {0}) (perform P q s)
        (perform_all P qs) w (perform-Returns q s w) λ t w' k. perform_all-Returns qs t w'

  -- A call of a callback that was installed comes back, however many messages the callback sends.
  -- Assumed: the kernel takes a byte or more in each call, and a call that fails sets `errno`.
  pub notify-Returns :
      (callback : Trace → List Request) (e : Event) (s : Server) (w : Trace)
      → Returns (notify P (some callback) e s w).0
  unfolding notify
  notify-Returns callback e s w = perform_all-Returns (callback (e ∷ w)) s (e ∷ w)
