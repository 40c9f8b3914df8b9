-- ===== src/Server/Refining.antt =====
-- The network thread's handlers and the requests of others do to the clients of a server what the
-- specification in Server/Registry allows.
use yonaa.Base.{
  ℕ, zero, suc, ◌+◌, ◌<◌, ◌≤◌, ◌^◌, ◌≡◌, ◌∙◌, ap, inl, inr, refl, List, [], ◌∷◌, ◌++◌, Bool, true,
  Bool-cases, filter, take, length, map-snoc, arith, ◌==◌,
}
use yonaa.Os.Events.{Event, Trace}
use yonaa.Os.Platform.{Platform}
use yonaa.Os.Outcome.{return}
use yonaa.Os.After.{After, After-if, After-bind, After-mono, bind-done}
use yonaa.Connection.{Connection}
use yonaa.Acceptor.{accept}
use yonaa.Poll.{add_socket}
use yonaa.Server.{ClientInfo, Server, Handlers, notify}
use yonaa.Server.Registry.{
  Fades, Fades-refl, Fades-trans, fade, join, purge, Reach, here, later, Reach-trans,
}
use yonaa.Server.Clients.{members, view, Kept, notify-Keeps}
use yonaa.Server.Network.{
  Slot, has_null, in_front, set_conn_at, remove_if, farewell, accept_client,
  handle_incoming_connections, handle_incoming_messages, handle_disconnected_clients, next_id,
}
use yonaa.Server.Accepting.{handle_incoming_connections-After}
use yonaa.Server.Messages.{handle_incoming_messages-Keeps}
use yonaa.Server.Disconnecting.{farewell-After, Sifts-done, remove_if-Sifts}
use yonaa.Server.Removing.{
  part, handle_disconnected_clients-flagged, handle_disconnected_clients-unflagged,
}
use yonaa.Server.WellFormed.{previous_id-next_id}

-- The run from a server to another is one of the specification.
abbrev pub Refines : Server → Server → Type 0
Refines s t = Reach (view s) (view t)

-- And it leaves the acceptor alone.
abbrev pub Serves : Server → Server → Type 0
Serves s t = (t.acceptor ≡ s.acceptor) × Refines s t

Fades-Refines :
    (s t : Server)
    → t.next_available_id ≡ s.next_available_id
    → Fades (members s.clients) (members t.clients)
    → Refines s t
Fades-Refines s t e f = rw e (later here (fade f))

pub Kept-Refines : (s t : Server) → Kept s t → Refines s t
Kept-Refines s t k = Fades-Refines s t k.1 k.5

members-filter :
    (cs : List ClientInfo)
    → members (filter (λ (c : ClientInfo). c.is_connected) cs)
      ≡ filter (λ (m : ℕ × Bool). m.1) (members cs)
members-filter [] = refl
members-filter (c ∷ cs) = ground (arith, members-filter cs)

members-take : (n : ℕ) (cs : List ClientInfo) → members (take n cs) ≡ take n (members cs)
members-take zero [] = refl
members-take zero (c ∷ cs) = refl
members-take (suc n) [] = refl
members-take (suc n) (c ∷ cs) = ap (◌∷◌ (c.id, c.is_connected)) (members-take n cs)

members-set_conn_at :
    (i : ℕ) (conn : Connection) (cs : List ClientInfo)
    → members (set_conn_at i conn cs) ≡ members cs
members-set_conn_at i conn [] = refl
members-set_conn_at zero conn (c ∷ cs) = refl
members-set_conn_at (suc i) conn (c ∷ cs) =
    ap (◌∷◌ (c.id, c.is_connected)) (members-set_conn_at i conn cs)

-- The first clients of a list that has faded.
Fades-take :
    (cs ds : List ClientInfo) (ms : List (ℕ × Bool))
    → Fades (members (cs ++ ds)) ms
    → Fades (members cs) (take (length cs) ms)
Fades-take [] ds [] h = tt
Fades-take [] ds (m ∷ ms) h = tt
Fades-take (c ∷ cs) ds [] h = absurd h
Fades-take (c ∷ cs) ds (m ∷ ms) h = (h.0, h.1, Fades-take cs ds ms h.2)

module _ (P : Platform) (H : Handlers) where
  abbrev Faded : Server → Server → Type 0
  Faded s t =
      (t.next_available_id ≡ s.next_available_id)
      × Fades (members s.clients) (members t.clients)
      × (t.acceptor ≡ s.acceptor)

  Faded-trans : (s t : Server) → Faded s t → (u : Server) → Faded t u → Faded s u
  Faded-trans s t h u k = (
    k.0 ∙ h.0,
    Fades-trans (members s.clients) (members t.clients) (members u.clients) h.1 k.1,
    k.2 ∙ h.2,
  )

  farewell-Faded :
      (slots : List Slot) (i : ℕ) (s : Server) (w : Trace)
      → After (Faded s) (farewell P H slots (has_null slots) i s w).0
  farewell-Faded =
      farewell-After P H Faded (λ s. (refl, Fades-refl (members s.clients), refl)) Faded-trans
        (λ s i fd conn.
          (refl, rw (members-set_conn_at i conn s.clients) (Fades-refl (members s.clients)), refl))
        (λ id s w.
          After-mono (Faded s) _ (λ t k. (k.1, k.5, k.3))
            (notify-Keeps P H.on_client_disconnect (Event.client_disconnected id) s w))

  -- What is left after the loop: the clients that were kept.
  part-Serves :
      (s : Server) (rest : List Slot) (w : Trace)
      → let kept = filter (λ (c : ClientInfo). c.is_connected) s.clients in
        After (Serves s) (part P H s (kept, rest) w).0
  part-Serves s rest w =
      let kept = filter (λ (c : ClientInfo). c.is_connected) s.clients in
      let s' = record s { clients = kept ++ in_front rest } in
      After-bind (Faded s') (Serves s) (farewell P H rest (has_null rest) (length kept) s')
        (λ t. return (record t { clients = take (length kept) t.clients })) w
        (farewell-Faded rest (length kept) s' w)
        λ t w' k.
          let f : Fades (members kept) (members (take (length kept) t.clients)) =
            rw (members-take (length kept) t.clients)
              (Fades-take kept (in_front rest) (members t.clients) k.1) in
          (k.2, rw k.0 (later (later here purge) (fade (rw⁻¹ (members-filter s.clients) f))))

  pub handle_disconnected_clients-Serves :
      (s : Server) (w : Trace) → After (Serves s) (handle_disconnected_clients P H s w).0
  handle_disconnected_clients-Serves s w = elim (Bool-cases s.has_disconnected_clients) [
    | inl flag ↦
        let (kept, rest, e, k, n) = Sifts-done s.clients _ _ (remove_if-Sifts [] s.clients w) in
        let w' = (remove_if [] s.clients w).1 in
        rw
          (
            handle_disconnected_clients-flagged P H s w flag,
            bind-done (remove_if [] s.clients) (part P H s) (ap (λ r. (r, w')) e),
            k,
          )
          (part-Serves s rest w')
    | inr flag ↦ rw (handle_disconnected_clients-unflagged P H s w flag) (refl, here)
  ]

  -- What a round of the accepting loop does to the counter and the clients.
  abbrev pub Accepted : Server → Server → Type 0
  Accepted s t = (t.next_available_id ≤ s.next_available_id + 1) × Serves s t

  pub accept_client-Accepted :
      (s : Server) (w : Trace)
      → s.next_available_id + 1 < 2 ^ 64
      → After (Accepted s) (accept_client P H s w).0
  unfolding accept_client
  accept_client-Accepted s w b =
      let (r, w') = accept P s.acceptor s.ec w in
      let c : ClientInfo = record {
        id = s.next_available_id;
        conn = r.0;
        fd = r.0.socket;
        is_connected = true;
      } in
      let added = record s {
        ec = r.1;
        next_available_id = next_id c.id;
        clients = s.clients ++ (c ∷ []);
        poll_group = add_socket s.poll_group c.fd;
      } in
      let counted : (next_id s.next_available_id ≡ suc s.next_available_id) = omega arith in
      let joined : Refines s added =
        rw
          (
            counted,
            map-snoc {B = ℕ × Bool} (λ (c : ClientInfo). (c.id, c.is_connected)) s.clients c,
          )
          (later here join) in
      After-if (Accepted s) (r.1 == 0)
        (notify P H.on_client_connect (Event.client_connected c.id) added) _ w'
        (After-mono (Accepted s) _
          (λ t k. (omega (arith, k.1), (k.3, Reach-trans joined (Kept-Refines added t k))))
          (notify-Keeps P H.on_client_connect (Event.client_connected c.id) added w'))
        (omega arith, (refl, rw (previous_id-next_id s.next_available_id b) here))

  pub handle_incoming_messages-Serves :
      (s : Server) (w : Trace) → After (Serves s) (handle_incoming_messages P H s w).0
  handle_incoming_messages-Serves s w =
      After-mono (Serves s) _ (λ t k. (k.3, Fades-Refines s t k.1 k.5))
        (handle_incoming_messages-Keeps P H s w)

  -- Accepting, with some ids left that were never given out.
  abbrev HasIds : Server → ℕ → Server → Type 0
  HasIds s rounds t = (t.next_available_id + rounds < 2 ^ 64) × Serves s t

  pub handle_incoming_connections-Serves :
      (rounds : ℕ) (s : Server) (w : Trace)
      → s.next_available_id + rounds < 2 ^ 64
      → After (Serves s) (handle_incoming_connections P H rounds s w).0
  handle_incoming_connections-Serves rounds s w b =
      handle_incoming_connections-After P H (HasIds s) (Serves s) (λ n t k. k.1)
        (λ n t w' k.
          After-mono (HasIds s n) _
            (λ u h. (omega (arith, h.0, k.0), (h.1.0 ∙ k.1.0, Reach-trans k.1.1 h.1.1)))
            (accept_client-Accepted t w' (omega (arith, k.0))))
        rounds s w (b, (refl, here))
