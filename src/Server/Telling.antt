-- ===== src/Server/Telling.antt =====
-- What the calls of a server's interface do to a view of the history that does not see `send`, and
-- which calls of the user's callbacks they make.
use yonaa.Base.{
  ℕ, ◌≡◌, refl, List, [], ◌∷◌, none, some, Bool-cases, Option-cases, inl, inr, ◌==◌, if◌then◌else◌,
}
use yonaa.Os.Events.{Event, Trace}
use yonaa.Os.Platform.{Platform}
use yonaa.Os.Outcome.{return}
use yonaa.Os.Ends.{Ends, Ends-both}
use yonaa.Buffer.{Buffer}
use yonaa.Connection.Send.{send}
use yonaa.Os.After.{After}
use yonaa.Os.Unseen.{unseen-bind}
use yonaa.Connection.Unseen.{IsBlind, send-unseen}
use yonaa.Told.{told}
use yonaa.Server.{
  Server, ClientInfo, Callback, Request, call_message_client, call_message_all_clients,
  call_remove_client, call_stop, client_info_from_id, remove_client, message_found, message_client,
  message_each, message_all_clients, perform, perform_all, notify,
}
use yonaa.Server.Clients.{Kept, notify-Keeps}

module _ {ℓ} {C : Type ℓ} (seen : Trace → C) (blind : IsBlind seen) (P : Platform) where
  message_found-unseen :
      (s : Server) (msg : Buffer) (c : ClientInfo) (id : ℕ) (w : Trace)
      → seen (message_found P s msg c id w).1 ≡ seen w
  unfolding message_found
  message_found-unseen s msg c id w =
      unseen-bind seen (send P c.conn msg s.ec 0)
        (λ ec.
          return
            (if ec == 0 then record s { ec = ec } else remove_client (record s { ec = ec }) id))
        w (send-unseen seen blind P c.conn msg s.ec 0 w) λ ec w'. refl

  message_client-unseen :
      (s : Server) (msg : Buffer) (id : ℕ) (w : Trace)
      → seen (message_client P s msg id w).1 ≡ seen w
  unfolding message_client
  message_client-unseen s msg id w = elim (Option-cases (client_info_from_id id s.clients)) [
    | inl h ↦ rw (h, message_client) refl
    | inr (c, h) ↦ elim (Bool-cases c.is_connected) [
      | inl on ↦ rw (h, message_client, on) (message_found-unseen s msg c id w)
      | inr off ↦ rw (h, message_client, off) refl
    ]
  ]

  message_each-unseen :
      (cs : List ClientInfo) (s : Server) (msg : Buffer) (exclude : ℕ) (w : Trace)
      → seen (message_each P cs s msg exclude w).1 ≡ seen w
  unfolding message_each
  message_each-unseen [] s msg exclude w = refl
  message_each-unseen (c ∷ cs) s msg exclude w = elim (Bool-cases (c.id == exclude)) [
    | inl e ↦ rw (e, message_each) (message_each-unseen cs s msg exclude w)
    | inr e ↦
        rw (e, message_each)
          (unseen-bind seen (message_client P s msg c.id) (λ t. message_each P cs t msg exclude) w
            (message_client-unseen s msg c.id w) λ t. message_each-unseen cs t msg exclude)
  ]

  pub perform-unseen : (q : Request) (s : Server) (w : Trace) → seen (perform P q s w).1 ≡ seen w
  unfolding perform message_all_clients
  perform-unseen (call_message_client msg id) s w = message_client-unseen s msg id w
  perform-unseen (call_message_all_clients msg exclude) s w =
      message_each-unseen s.clients s msg exclude w
  perform-unseen (call_remove_client id) s w = refl
  perform-unseen call_stop s w = refl

  perform_all-unseen :
      (qs : List Request) (s : Server) (w : Trace) → seen (perform_all P qs s w).1 ≡ seen w
  unfolding perform_all
  perform_all-unseen [] s w = refl
  perform_all-unseen (q ∷ qs) s w =
      unseen-bind seen (perform P q s) (perform_all P qs) w (perform-unseen q s w)
        (perform_all-unseen qs)

  pub notify-unseen {κ} :
      (S : Server → Type κ) (callback : Callback) (e : Event) (s : Server) (w : Trace)
      → After S (notify P callback e s w).0
      → Ends (λ t w'. S t × (seen w' ≡ seen (e ∷ w))) (notify P callback e s w)
  unfolding notify
  notify-unseen S none e s w h = tt
  notify-unseen S (some callback) e s w h =
      Ends-both S (λ w'. seen w' ≡ seen (e ∷ w)) (perform_all P (callback (e ∷ w)) s (e ∷ w)) h
        (perform_all-unseen (callback (e ∷ w)) s (e ∷ w))

module _ (P : Platform) where
  pub perform-told : (q : Request) (s : Server) (w : Trace) → told (perform P q s w).1 ≡ told w
  perform-told = perform-unseen told (λ fd bs flags r w. refl) P

  -- A callback is one call, and what it asks for makes no other.
  pub notify-told :
      (callback : Callback) (e : Event) (s : Server) (w : Trace)
      → Ends (λ t w'. Kept s t × (told w' ≡ told (e ∷ w))) (notify P callback e s w)
  notify-told callback e s w =
      notify-unseen told (λ fd bs flags r w. refl) P (Kept s) callback e s w
        (notify-Keeps P callback e s w)
