-- ===== src/Server/Sticking.antt =====
-- The error code of a server while it sends messages: once it is set, it stays set, and each call
-- comes back.
use yonaa.Base.{
  ◌≤◌, Bool, true, false, ℕ, ◌≢◌, inl, inr, List, [], ◌∷◌, not, Bool-cases, Option-cases, arith,
  ◌==◌, ◌||◌, if◌then◌else◌,
}
use yonaa.Os.Events.{Trace}
use yonaa.Os.Platform.{Platform, SendsSome, SetsErrno}
use yonaa.Os.Outcome.{Outcome, R, done, stops, return, ◌>>=◌}
use yonaa.Os.Always.{Always}
use yonaa.Buffer
use yonaa.Buffer.{Buffer}
use yonaa.Connection.{Connection, ErrorCode, is_connected}
use yonaa.Connection.Send.{send}
use yonaa.Connection.Refusing.{refusals, Refuses-le, send-Refuses}
use yonaa.Connection.Sending.{Sends, send-Sends}
use yonaa.Server.{
  ClientInfo, Server, remove_client, client_info_from_id, message_client, message_found,
  message_each,
}
use yonaa.Server.Returning.{length-ne-nil, send-refused}

abbrev pub IsError : ErrorCode → Type 0
IsError ec = ec ≢ 0

abbrev pub HasError : Server → Type 0
HasError s = IsError s.ec

remove_client-HasError : (s : Server) (id : ℕ) → HasError s → HasError (remove_client s id)
unfolding remove_client
remove_client-HasError s id h = elim (Option-cases (client_info_from_id id s.clients)) [
  | inl e ↦ rw (e, remove_client) h
  | inr (c, e) ↦ rw (e, remove_client) h
]

-- What `message_client` returns after its call of `send`.
pub sent-HasError :
    (s : Server) (ec : ErrorCode) (id : ℕ)
    → IsError ec
    → HasError (if ec == 0 then record s { ec = ec } else remove_client (record s { ec = ec }) id)
sent-HasError s ec id h = elim (Bool-cases (ec == 0)) [
  | inl e ↦ rw e h
  | inr e ↦ rw e (remove_client-HasError (record s { ec = ec }) id h)
]

Sends-IsError :
    (fd : ℕ) (bs : List ℕ) (ec : ErrorCode) (w : Trace) (r : Outcome ErrorCode × Trace)
    → IsError ec
    → Sends fd bs ec w r
    → Always IsError r.0
Sends-IsError fd bs ec w r n (inl (e, h)) = rw e n
Sends-IsError fd bs ec w r n (inr (ec', k, e, ne, h)) = rw e ne

le_refl : (n : ℕ) → n ≤ n
le_refl n = omega arith

-- The run comes back, with `Q` of its value, and no refusal is taken back.
abbrev pub Sticks : {A : Type 0} → (A → Type 0) → Trace → Outcome A × Trace → Type 0
Sticks Q w r = Always Q r.0 × (refusals w ≤ refusals r.1)

module _ {A B : Type 0} (Q : A → Type 0) (S : B → Type 0) where
  pub Sticks-bind :
      (m : R A) (f : A → R B) (w : Trace)
      → Sticks Q w (m w)
      → ((a : A) (v : Trace) → Q a → Sticks S v (f a v))
      → Sticks S w ((m >>= f) w)
  Sticks-bind m f w (h, g) k = go (m w).0 h
    where
      go :
          (r : Outcome A)
          → Always Q r
          → Sticks S w (
              let x : Outcome B × Trace = elim r [
                | done a ↦ f a (m w).1
                | stops s ↦ (stops s, (m w).1)
              ] in
              x)
      go (done a) q = let (t, l) = k a (m w).1 q in (t, omega arith)
      go (stops s) q = absurd q

Sticks-if :
    {A : Type 0} (S : A → Type 0) (b : Bool) (m n : R A) (w : Trace)
    → Sticks S w (m w)
    → Sticks S w (n w)
    → Sticks S w ((if b then m else n) w)
Sticks-if S true m n w h k = h
Sticks-if S false m n w h k = k

module _ (P : Platform) (some_bytes : SendsSome P) (errors : SetsErrno P) where
  send-IsError :
      (c : Connection) (msg : Buffer) (ec : ErrorCode) (flags : ℕ) (w : Trace)
      → IsError ec
      → Sticks IsError w (send P c msg ec flags w)
  send-IsError c msg ec flags w n =
      elim (Bool-cases (not (is_connected c) || (Buffer.size msg == 0))) [
        | inl h ↦ rw (send-refused P c msg ec flags w h) (omega arith, le_refl (refusals w))
        | inr h ↦ (
          Sends-IsError c.socket msg.bytes ec w (send P c msg ec flags w) n (
              send-Sends P some_bytes errors c msg ec flags w (ground arith)
                (length-ne-nil msg.bytes (ground arith))),
          Refuses-le ec w (send P c msg ec flags w) (send-Refuses P c msg ec flags w h),
        )
      ]

  message_found-HasError :
      (s : Server) (msg : Buffer) (c : ClientInfo) (id : ℕ) (w : Trace)
      → HasError s
      → Sticks HasError w (message_found P s msg c id w)
  unfolding message_found
  message_found-HasError s msg c id w n =
      Sticks-bind IsError HasError (send P c.conn msg s.ec 0)
        (λ ec.
          return
            (if ec == 0 then record s { ec = ec } else remove_client (record s { ec = ec }) id))
        w (send-IsError c.conn msg s.ec 0 w n)
        λ ec w' h. (sent-HasError s ec id h, le_refl (refusals w'))

  message_client-HasError :
      (s : Server) (msg : Buffer) (id : ℕ) (w : Trace)
      → HasError s
      → Sticks HasError w (message_client P s msg id w)
  unfolding message_client
  message_client-HasError s msg id w n = elim (Option-cases (client_info_from_id id s.clients)) [
    | inl h ↦ rw (h, message_client) (n, le_refl (refusals w))
    | inr (c, h) ↦
        rw (h, message_client)
          (Sticks-if HasError (not c.is_connected) (return s) (message_found P s msg c id) w
            (n, le_refl (refusals w)) (message_found-HasError s msg c id w n))
  ]

  pub message_each-HasError :
      (cs : List ClientInfo) (s : Server) (msg : Buffer) (exclude : ℕ) (w : Trace)
      → HasError s
      → Sticks HasError w (message_each P cs s msg exclude w)
  unfolding message_each
  message_each-HasError [] s msg exclude w n = (n, le_refl (refusals w))
  message_each-HasError (c ∷ cs) s msg exclude w n = elim (Bool-cases (c.id == exclude)) [
    | inl e ↦ rw (e, message_each) (message_each-HasError cs s msg exclude w n)
    | inr e ↦
        rw (e, message_each)
          (Sticks-bind HasError HasError (message_client P s msg c.id)
            (λ t. message_each P cs t msg exclude) w (message_client-HasError s msg c.id w n)
            λ t w' k. message_each-HasError cs t msg exclude w' k)
  ]
