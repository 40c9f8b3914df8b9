-- ===== src/Server/Flagging.antt =====
-- Where `has_disconnected_clients_` is not set, no client is marked.
use yonaa.Base.{
  ℕ, ◌≡◌, refl, List, [], ◌∷◌, ◌++◌, true, false, Bool, Bool-cases, inl, inr, All, length, take,
  All-snoc, map-snoc, ◌==◌,
}
use yonaa.Os.Events.{Event, Trace}
use yonaa.Os.Platform.{Platform}
use yonaa.Os.Outcome.{return}
use yonaa.Os.After.{After, After-if, After-bind, After-mono, After-any}
use yonaa.Acceptor.{accept}
use yonaa.Poll.{add_socket}
use yonaa.Server.{ClientInfo, Server, Handlers, notify}
use yonaa.Server.Clients.{members}
use yonaa.Server.Flags.{Flags, notify-Flags, handle_incoming_messages-Flags}
use yonaa.Server.Messages.{polled_server}
use yonaa.Server.Network.{
  Slot, has_null, remove_if, in_front, farewell, next_id, accept_client,
  handle_incoming_connections, handle_incoming_messages, handle_disconnected_clients,
}
use yonaa.Server.Accepting.{handle_incoming_connections-After}
use yonaa.Server.Disconnecting.{farewell-After}
use yonaa.Server.Removing.{
  part, handle_disconnected_clients-flagged, handle_disconnected_clients-unflagged,
}

abbrev pub IsFlagged : Server → Type 0
IsFlagged s =
    s.has_disconnected_clients ≡ false → All (λ (m : ℕ × Bool). m.1 ≡ true) (members s.clients)

pub IsFlagged-Flags : (s : Server) → IsFlagged s → (t : Server) → Flags s t → IsFlagged t
IsFlagged-Flags s h t k e = let r = k e in rw r.1 (h r.0)

-- With the flag set there is nothing to say of the clients.
flag_set : (s : Server) → s.has_disconnected_clients ≡ true → IsFlagged s
flag_set s h e = cc

flag_stays :
    (s : Server)
    → s.has_disconnected_clients ≡ true
    → (t : Server) → Flags s t
    → t.has_disconnected_clients ≡ true
flag_stays s h t k = elim (Bool-cases t.has_disconnected_clients) [
  | inl e ↦ e
  | inr e ↦ let r = k e in cc
]

module _ (P : Platform) (H : Handlers) where
  accept_client-IsFlagged :
      (s : Server) (w : Trace) → IsFlagged s → After IsFlagged (accept_client P H s w).0
  unfolding accept_client
  accept_client-IsFlagged s w h =
      let (r, w') = accept P s.acceptor s.ec w in
      let c : ClientInfo = record {
        id = s.next_available_id;
        conn = r.0;
        fd = r.0.socket;
        is_connected = true;
      } in
      let added = record s {
        ec = r.1;
        next_available_id = next_id c.id;
        clients = s.clients ++ (c ∷ []);
        poll_group = add_socket s.poll_group c.fd;
      } in
      let e = Event.client_connected c.id in
      let view : (ClientInfo → ℕ × Bool) = λ c. (c.id, c.is_connected) in
      After-if IsFlagged (r.1 == 0) (notify P H.on_client_connect e added) _ w'
        (After-mono IsFlagged _
          (IsFlagged-Flags added (λ f.
            rw (map-snoc view s.clients c)
              (All-snoc (λ (m : ℕ × Bool). m.1 ≡ true) (members s.clients) (view c) (h f) refl)))
          (notify-Flags P H.on_client_connect e added w'))
        h

  pub handle_incoming_connections-IsFlagged :
      (rounds : ℕ) (s : Server) (w : Trace)
      → IsFlagged s
      → After IsFlagged (handle_incoming_connections P H rounds s w).0
  handle_incoming_connections-IsFlagged =
      handle_incoming_connections-After P H (λ n. IsFlagged) IsFlagged (λ n t k. k)
        λ n. accept_client-IsFlagged

  pub handle_incoming_messages-IsFlagged :
      (s : Server) (w : Trace) → IsFlagged s → After IsFlagged (handle_incoming_messages P H s w).0
  handle_incoming_messages-IsFlagged s w h =
      After-mono IsFlagged _ (IsFlagged-Flags (polled_server P H s w) h)
        (handle_incoming_messages-Flags P H s w)

  abbrev FlagIsSet : Server → Type 0
  FlagIsSet s = s.has_disconnected_clients ≡ true

  farewell-FlagIsSet :
      (slots : List Slot) (i : ℕ) (s : Server) (w : Trace)
      → FlagIsSet s
      → After FlagIsSet (farewell P H slots (has_null slots) i s w).0
  farewell-FlagIsSet slots i s w h =
      After-mono FlagIsSet _ (λ t k. k h)
        (farewell-After P H (λ s t. FlagIsSet s → FlagIsSet t) (λ s k. k) (λ s t f u g k. g (f k))
          (λ s i fd conn k. k)
          (λ id s w.
            After-mono (λ t. FlagIsSet s → FlagIsSet t) _ (λ t k f. flag_stays s f t k)
              (notify-Flags P H.on_client_disconnect (Event.client_disconnected id) s w))
          slots i s w)

  part-IsFlagged :
      (s : Server) (r : List ClientInfo × List Slot) (w : Trace)
      → FlagIsSet s
      → After IsFlagged (part P H s r w).0
  part-IsFlagged s r w h =
      After-bind FlagIsSet IsFlagged
        (farewell P H r.1 (has_null r.1) (length r.0) (record s { clients = r.0 ++ in_front r.1 }))
        (λ t. return (record t { clients = take (length r.0) t.clients })) w
        (farewell-FlagIsSet r.1 (length r.0) (record s { clients = r.0 ++ in_front r.1 }) w h)
        λ t v k. flag_set (record t { clients = take (length r.0) t.clients }) k

  pub handle_disconnected_clients-IsFlagged :
      (s : Server) (w : Trace)
      → IsFlagged s
      → After IsFlagged (handle_disconnected_clients P H s w).0
  handle_disconnected_clients-IsFlagged s w h = elim (Bool-cases s.has_disconnected_clients) [
    | inl flag ↦ rw (handle_disconnected_clients-flagged P H s w flag) (
        After-any IsFlagged (remove_if [] s.clients) (part P H s) w
          λ r v. part-IsFlagged s r v flag)
    | inr flag ↦ rw (handle_disconnected_clients-unflagged P H s w flag) h
  ]
