-- ===== src/Server/Clients.antt =====
-- How the calls of the server's interface change its list of clients.
use yonaa.Os.Events.{Trace, Event}
use yonaa.Os.Platform.{Platform}
use yonaa.Os.Outcome.{done, return}
use yonaa.Os.After.{After, After-any, After-bind, After-if, After-mono}
use yonaa.Connection.Send.{send}
use yonaa.Buffer.{Buffer}
use yonaa.Base.{
  Option-cases, Bool-cases, not, inl, inr, ◌∙◌, [], ℕ, ◌≡◌, refl, List, [], ◌∷◌, false, Option,
  none, some, arith, map, Bool, ◌==◌, if◌then◌else◌,
}
use yonaa.Server.Registry.{Registry, Fades, Fades-refl, Fades-trans}
use yonaa.Server.{
  ClientInfo, client_info_from_id, mark, remove_client, Server, message_client, message_found,
  message_each, message_all_clients, perform, perform_all, notify, stop, Request, Callback,
  call_message_client, call_message_all_clients, call_remove_client, call_stop,
}

abbrev pub ids : List ClientInfo → List ℕ
ids = map (λ (c : ClientInfo). c.id)

-- What the specification sees of the clients, and of a server.
abbrev pub members : List ClientInfo → List (ℕ × Bool)
members = map (λ (c : ClientInfo). (c.id, c.is_connected))

abbrev pub view : Server → Registry
view s = record { next = s.next_available_id; members = members s.clients }

abbrev pub sockets : List ClientInfo → List ℕ
sockets = map (λ (c : ClientInfo). c.fd)

abbrev disconnected : Option ClientInfo → Option ClientInfo
disconnected none = none
disconnected (some c) = some (record c { is_connected = false })

client_info_from_id-mark :
    (id other : ℕ) (cs : List ClientInfo)
    → client_info_from_id other (mark id cs) ≡ (
        if other == id
        then disconnected (client_info_from_id other cs)
        else client_info_from_id other cs)
client_info_from_id-mark id other [] = ground arith
client_info_from_id-mark id other (c ∷ cs) = ground (arith, client_info_from_id-mark id other cs)

ids-mark : (id : ℕ) (cs : List ClientInfo) → ids (mark id cs) ≡ ids cs
ids-mark id [] = refl
ids-mark id (c ∷ cs) = ground (arith, ids-mark id cs)

sockets-mark : (id : ℕ) (cs : List ClientInfo) → sockets (mark id cs) ≡ sockets cs
sockets-mark id [] = refl
sockets-mark id (c ∷ cs) = ground (arith, sockets-mark id cs)

members-mark : (id : ℕ) (cs : List ClientInfo) → Fades (members cs) (members (mark id cs))
members-mark id [] = tt
members-mark id (c ∷ cs) = elim (Bool-cases (c.id == id)) [
  | inl e ↦ rw e (refl, inr refl, Fades-refl (members cs))
  | inr e ↦ rw e (refl, inl refl, members-mark id cs)
]

-- Removal marks the client with the id, and no other: the clients and their ids stay, each other
-- client is found as before, and this one is found as before but disconnected.
client_info_from_id-remove_client :
    (s : Server) (id other : ℕ)
    → (client_info_from_id other (remove_client s id).clients ≡ (
        if other == id
        then disconnected (client_info_from_id other s.clients)
        else client_info_from_id other s.clients))
      × (ids (remove_client s id).clients ≡ ids s.clients)
unfolding remove_client
client_info_from_id-remove_client s id other =
    ground (arith, client_info_from_id-mark id other s.clients, ids-mark id s.clients)

-- What requests leave alone: which clients and sockets there are, the counter, the poll group and the
-- acceptor; and a client's mark only goes one way.
abbrev pub Kept : Server → Server → Type 0
Kept s s' =
    (ids s'.clients ≡ ids s.clients)
    × (s'.next_available_id ≡ s.next_available_id)
    × (s'.poll_group ≡ s.poll_group)
    × (s'.acceptor ≡ s.acceptor)
    × (sockets s'.clients ≡ sockets s.clients)
    × Fades (members s.clients) (members s'.clients)

pub Kept-refl : (s : Server) → Kept s s
Kept-refl s = (refl, refl, refl, refl, refl, Fades-refl (members s.clients))

pub Kept-trans : (s t : Server) → Kept s t → (u : Server) → Kept t u → Kept s u
Kept-trans s t h u k = (
  k.0 ∙ h.0,
  k.1 ∙ h.1,
  k.2 ∙ h.2,
  k.3 ∙ h.3,
  k.4 ∙ h.4,
  Fades-trans (members s.clients) (members t.clients) (members u.clients) h.5 k.5,
)

pub remove_client-Kept : (s : Server) (id : ℕ) → Kept s (remove_client s id)
unfolding remove_client
remove_client-Kept s id = ground (
  arith,
  ids-mark id s.clients,
  sockets-mark id s.clients,
  members-mark id s.clients,
  Fades-refl (members s.clients),
)

module _ (P : Platform) where
  -- A message to a client that was removed makes no system call and changes nothing.
  message_client-remove_client :
      (s : Server) (id : ℕ) (msg : Buffer) (w : Trace)
      → message_client P (remove_client s id) msg id w ≡ (done (remove_client s id), w)
  unfolding message_client
  message_client-remove_client s id msg w = ground (
    arith,
    client_info_from_id-remove_client s id id,
    Option-cases (client_info_from_id id s.clients),
  )

-- A relation that the parts of a message keep, then the messages keep.
module _ (P : Platform) (K : Server → Server → Type 0) (same : (s : Server) → K s s)
    (chain : (s t : Server) → K s t → (u : Server) → K t u → K s u)
    (removed : (s : Server) (id : ℕ) → K s (remove_client s id))
    (coded : (s : Server) (ec : ℕ) → K s (record s { ec = ec })) where
  message_found-After :
      (s : Server) (msg : Buffer) (c : ClientInfo) (id : ℕ) (w : Trace)
      → After (K s) (message_found P s msg c id w).0
  unfolding message_found
  message_found-After s msg c id w =
      After-any (K s) (send P c.conn msg s.ec 0)
        (λ ec.
          return
            (if ec == 0 then record s { ec = ec } else remove_client (record s { ec = ec }) id))
        w
        λ ec w'.
          let s' = record s { ec = ec } in
          elim (Bool-cases (ec == 0)) [
            | inl good ↦ rw good (coded s ec)
            | inr bad ↦ rw bad (chain s s' (coded s ec) (remove_client s' id) (removed s' id))
          ]

  pub message_client-After :
      (s : Server) (msg : Buffer) (id : ℕ) (w : Trace) → After (K s) (message_client P s msg id w).0
  unfolding message_client
  message_client-After s msg id w = elim (Option-cases (client_info_from_id id s.clients)) [
    | inl h ↦ rw (h, message_client) (same s)
    | inr (c, h) ↦
        rw (h, message_client)
          (After-if (K s) (not c.is_connected) (return s) (message_found P s msg c id) w (same s)
            (message_found-After s msg c id w))
  ]

  pub message_each-After :
      (cs : List ClientInfo) (s : Server) (msg : Buffer) (exclude : ℕ) (w : Trace)
      → After (K s) (message_each P cs s msg exclude w).0
  unfolding message_each
  message_each-After [] s msg exclude w = same s
  message_each-After (c ∷ cs) s msg exclude w = elim (Bool-cases (c.id == exclude)) [
    | inl e ↦ rw (e, message_each) (message_each-After cs s msg exclude w)
    | inr e ↦
        rw (e, message_each)
          (After-bind (K s) (K s) (message_client P s msg c.id)
            (λ t. message_each P cs t msg exclude) w (message_client-After s msg c.id w)
            λ t w' k. After-mono (K s) _ (chain s t k) (message_each-After cs t msg exclude w'))
  ]

  module _ (stopped : (s : Server) → K s (stop s)) where
    pub perform-After : (q : Request) (s : Server) (w : Trace) → After (K s) (perform P q s w).0
    unfolding perform message_all_clients
    perform-After (call_message_client msg id) s w = message_client-After s msg id w
    perform-After (call_message_all_clients msg exclude) s w =
        message_each-After s.clients s msg exclude w
    perform-After (call_remove_client id) s w = removed s id
    perform-After call_stop s w = stopped s

    pub perform_all-After :
        (qs : List Request) (s : Server) (w : Trace) → After (K s) (perform_all P qs s w).0
    unfolding perform_all
    perform_all-After [] s w = same s
    perform_all-After (q ∷ qs) s w =
        After-bind (K s) (K s) (perform P q s) (perform_all P qs) w (perform-After q s w)
          λ t w' k. After-mono (K s) _ (chain s t k) (perform_all-After qs t w')

    pub notify-After :
        (callback : Callback) (e : Event) (s : Server) (w : Trace)
        → After (K s) (notify P callback e s w).0
    unfolding notify
    notify-After none e s w = tt
    notify-After (some callback) e s w = perform_all-After (callback (e ∷ w)) s (e ∷ w)

module _ (P : Platform) where
  pub perform-Keeps : (q : Request) (s : Server) (w : Trace) → After (Kept s) (perform P q s w).0
  perform-Keeps =
      perform-After P Kept Kept-refl Kept-trans remove_client-Kept (λ s ec. Kept-refl s) Kept-refl

  pub perform_all-Keeps :
      (qs : List Request) (s : Server) (w : Trace) → After (Kept s) (perform_all P qs s w).0
  perform_all-Keeps =
      perform_all-After P Kept Kept-refl Kept-trans remove_client-Kept (λ s ec. Kept-refl s)
        Kept-refl

  -- Whatever a callback asks for, when it comes back there are the same clients with the same
  -- sockets, and the counter, the poll group and the acceptor are as they were.
  pub notify-Keeps :
      (callback : Callback) (e : Event) (s : Server) (w : Trace)
      → After (Kept s) (notify P callback e s w).0
  notify-Keeps =
      notify-After P Kept Kept-refl Kept-trans remove_client-Kept (λ s ec. Kept-refl s) Kept-refl
