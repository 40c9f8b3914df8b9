-- ===== src/Server/Broadcasting.antt =====
-- `message_all_clients`: which bytes go to which socket.
use yonaa.Base.{
  ◌≤◌, ◌||◌, length, ℕ, ◌≡◌, ◌≢◌, ◌∙◌, ap, sym, inl, inr, refl, List, [], ◌∷◌, ◌++◌, Bool, not,
  true, false, Bool-cases, some, Bytes, All, IsDistinct, append-nil, arith, ◌==◌, ◌&&◌,
  if◌then◌else◌,
}
use yonaa.Os.Events.{Trace}
use yonaa.Os.Platform.{Platform, SendsSome, SetsErrno}
use yonaa.Os.Outcome.{Outcome, done, return, ◌>>=◌}
use yonaa.Os.After.{bind-done}
use yonaa.Buffer
use yonaa.Buffer.{Buffer}
use yonaa.Connection.{Connection, is_connected}
use yonaa.Connection.Send.{send}
use yonaa.Connection.Refusing.{refusals, Refuses-le, Refuses-changed, send-Refuses}
use yonaa.Connection.Elsewhere.{send-elsewhere}
use yonaa.Connection.Sending.{delivered, send-Sends}
use yonaa.Server.{
  ClientInfo, Server, remove_client, client_info_from_id, message_client, message_found,
  message_each, message_all_clients,
}
use yonaa.Server.Clients.{ids}
use yonaa.Server.Sticking.{sent-HasError, message_each-HasError}
use yonaa.Server.Mailing.{share, mail, Delivers, IsOpen, Delivers-bind, found_each}

module _ (P : Platform) where
  message_client-sent :
      (s : Server) (id : ℕ) (c : ClientInfo) (message : Buffer) (w : Trace)
      → client_info_from_id id s.clients ≡ some c
      → c.is_connected ≡ true
      → (ec : ℕ) → (send P c.conn message s.ec 0 w).0 ≡ done ec
      → message_client P s message id w ≡ (
        done (if ec == 0 then record s { ec = ec } else remove_client (record s { ec = ec }) id),
        (send P c.conn message s.ec 0 w).1,
      )
  unfolding message_client message_found
  message_client-sent s id c message w found live ec e =
      rw (found, message_client, live)
        (bind-done (send P c.conn message s.ec 0)
          (λ ec.
            return
              (if ec == 0 then record s { ec = ec } else remove_client (record s { ec = ec }) id))
          (ap (λ (x : Outcome ℕ). (x, (send P c.conn message s.ec 0 w).1)) e))

  message_client-away :
      (s : Server) (id : ℕ) (c : ClientInfo) (message : Buffer) (w : Trace)
      → client_info_from_id id s.clients ≡ some c
      → c.is_connected ≡ false
      → message_client P s message id w ≡ (done s, w)
  unfolding message_client
  message_client-away s id c message w found gone = rw (found, message_client, gone) refl

message_each-other :
    (P : Platform) (c : ClientInfo) (cs : List ClientInfo) (s : Server) (message : Buffer)
    (exclude : ℕ) (w : Trace)
    → (c.id == exclude) ≡ false
    → message_each P (c ∷ cs) s message exclude w
      ≡ (message_client P s message c.id >>= λ t. message_each P cs t message exclude) w
unfolding message_each
message_each-other P c cs s message exclude w h = rw (h, message_each) refl

kept_if : (s t : Server) (b : Bool) → b ≡ true → (if b then s else t) ≡ s
kept_if s t b h = rw h refl

same_ec :
    (s : Server) (id : ℕ)
    → s.ec ≡ 0
    → (if s.ec == 0 then record s { ec = s.ec } else remove_client (record s { ec = s.ec }) id) ≡ s
same_ec s id h = kept_if s (remove_client (record s { ec = s.ec }) id) (s.ec == 0) (ground arith)

module _ (P : Platform) (some_bytes : SendsSome P) (errors : SetsErrno P) (message : Buffer)
    (exclude : ℕ) (ne : message.bytes ≢ []) (s : Server) (clear : s.ec ≡ 0) where
  share-none :
      (fd : ℕ) (c : ClientInfo)
      → (not (c.id == exclude) && c.is_connected && (c.conn.socket == fd)) ≡ false
      → share fd exclude message.bytes c ≡ []
  share-none fd c h = rw h refl

  share-taken :
      (c : ClientInfo) (w : Trace)
      → c.is_connected ≡ true
      → (c.id == exclude) ≡ false
      → delivered c.conn.socket (send P c.conn message s.ec 0 w).1
        ≡ delivered c.conn.socket w ++ message.bytes
      → (fd : ℕ)
      → delivered fd (send P c.conn message s.ec 0 w).1
        ≡ delivered fd w ++ share fd exclude message.bytes c
  share-taken c w live other h fd = elim (Bool-cases (c.conn.socket == fd)) [
    | inl e ↦ let same : c.conn.socket ≡ fd = ground arith in rw (live, other, e) (rw (sym same) h)
    | inr e ↦
        send-elsewhere P c.conn message s.ec 0 fd w e
        ∙ sym (rw (share-none fd c (ground arith)) (append-nil (delivered fd w)))
  ]

  sendable :
      (c : Connection)
      → is_connected c ≡ true
      → (not (is_connected c) || (Buffer.size message == 0)) ≡ false
  sendable c h = elim (Bool-cases (Buffer.size message == 0)) [
    | inl e ↦ absurd (ne (no-bytes message.bytes e))
    | inr e ↦ ground arith
  ]
    where
      no-bytes : (bs : Bytes) → (length bs == 0) ≡ true → bs ≡ []
      no-bytes [] h = refl
      no-bytes (b ∷ bs) h = ground arith

  message_client-Delivers :
      (c : ClientInfo) (w : Trace)
      → (c.id == exclude) ≡ false
      → client_info_from_id c.id s.clients ≡ some c
      → IsOpen c
      → Delivers (λ fd. share fd exclude message.bytes c) s w (message_client P s message c.id w)
        × (refusals w ≤ refusals (message_client P s message c.id w).1)
  message_client-Delivers c w other found opened = elim (Bool-cases c.is_connected) [
    | inr gone ↦ rw (message_client-away P s c.id c message w found gone) (
      inl (refl, λ fd. sym (rw (share-none fd c (ground arith)) (append-nil (delivered fd w)))),
      omega arith,
    )
    | inl live ↦
        let calls = send-Refuses P c.conn message s.ec 0 w (sendable c.conn (opened live)) in
        let le = Refuses-le s.ec w (send P c.conn message s.ec 0 w) calls in
        elim (send-Sends P some_bytes errors c.conn message s.ec 0 w (opened live) ne) [
          | inl (d, h) ↦
              rw (message_client-sent P s c.id c message w found live s.ec d)
                (inl (ap done (same_ec s c.id clear), share-taken c w live other h), le)
          | inr (ec, n, d, set, h) ↦ rw (message_client-sent P s c.id c message w found live ec d) (
            inr (
              sent-HasError s ec c.id set,
              Refuses-changed s.ec ec w (send P c.conn message s.ec 0 w) calls d
                  λ e. set (e ∙ clear),
            ),
            le,
          )
        ]
  ]

  message_each-Delivers :
      (cs : List ClientInfo)
      → All (λ (c : ClientInfo). client_info_from_id c.id s.clients ≡ some c) cs
      → All IsOpen cs
      → (w : Trace)
      → Delivers (mail exclude message.bytes cs) s w (message_each P cs s message exclude w)
  unfolding message_each
  message_each-Delivers [] found opened w = inl (refl, λ fd. sym (append-nil (delivered fd w)))
  message_each-Delivers (c ∷ cs) found opened w = elim (Bool-cases (c.id == exclude)) [
    | inl e ↦ rw (e, message_each) (message_each-Delivers cs found.1 opened.1 w)
    | inr e ↦ rw (message_each-other P c cs s message exclude w e) (
        Delivers-bind (λ fd. share fd exclude message.bytes c) (mail exclude message.bytes cs) s
          (message_client P s message c.id) (λ t. message_each P cs t message exclude) w
          (message_client-Delivers c w e found.0 opened.0)
          (message_each-Delivers cs found.1 opened.1)
          λ t v. message_each-HasError P some_bytes errors cs t message exclude v)
  ]

  -- A message to all clients but one, on a server without an error, whose clients have distinct ids
  -- and, those that are connected, an open connection: the call comes back. Either the kernel has
  -- taken the whole message once for each connected client but the excluded one, on this client's
  -- socket, and nothing for any other socket, and the server is as before; or a call of `send` was
  -- refused and the error code is set. Assumed: the message is not empty, the kernel takes a byte or
  -- more in each call, and a call that fails sets `errno`.
  pub message_all_clients-Delivers :
      (w : Trace)
      → IsDistinct (ids s.clients)
      → All IsOpen s.clients
      → Delivers
          (mail exclude message.bytes s.clients)
          s
          w
          (message_all_clients P s message exclude w)
  unfolding message_all_clients
  message_all_clients-Delivers w distinct opened =
      message_each-Delivers s.clients (found_each s.clients distinct) opened w
