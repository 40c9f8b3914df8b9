-- ===== src/Server/Ordering.antt =====
-- The parts of a server keep the order of the callbacks, and its clients are those that the user has
-- been told of.
use yonaa.Base.{
  ℕ, suc, ◌+◌, ◌<◌, ◌^◌, ◌≡◌, ◌∙◌, ap, sym, refl, List, [], ◌∷◌, ◌++◌, All, true, All-mono,
  map-snoc, arith, ◌==◌,
}
use yonaa.Os.Events.{Event, Trace}
use yonaa.Os.Platform.{Platform}
use yonaa.Os.Ends.{Ends, Ends-if, Ends-mono, Ends-and}
use yonaa.Acceptor.{accept, has_pending_connection}
use yonaa.Connection.{destroy}
use yonaa.Poll.{add_socket}
use yonaa.Told.{told}
use yonaa.Told.Quiet.{told-has_pending_connection, told-accept, told-destroy}
use yonaa.Server.{ClientInfo, Server, Handlers, notify}
use yonaa.Server.Clients.{ids, Kept}
use yonaa.Server.Network.{accept_client, handle_incoming_connections, next_id, previous_id}
use yonaa.Server.Order.{known, joined, IsOrdered}
use yonaa.Server.Telling.{notify-told}
use yonaa.Server.Accepting.{handle_incoming_connections-Ends}
use yonaa.Server.Refining.{Accepted, accept_client-Accepted}
use yonaa.Server.WellFormed.{previous_id-next_id}

-- The calls so far are in order, the clients are those that the user was told of, and their ids were
-- given out.
abbrev pub Tells : List ℕ → ℕ → Trace → Type 0
Tells is next w = (joined (told w) ≡ is) × All (λ n. n < next) (known (told w)) × IsOrdered (told w)

abbrev pub IsTold : Server → Trace → Type 0
IsTold s w = Tells (ids s.clients) s.next_available_id w

-- A part that calls no callback, and leaves the ids and the counter alone.
pub IsTold-same :
    (s t : Server) (w w' : Trace)
    → ids t.clients ≡ ids s.clients
    → t.next_available_id ≡ s.next_available_id
    → told w' ≡ told w
    → IsTold s w
    → IsTold t w'
IsTold-same s t w w' i n e h = rw (i, n, e) h

pub IsTold-Kept :
    (s : Server) (w : Trace)
    → IsTold s w
    → (t : Server) (w' : Trace) → Kept s t × (told w' ≡ told w)
    → IsTold t w'
IsTold-Kept s w h t w' k = IsTold-same s t w w' k.0.0 k.0.1 k.1 h

module _ (P : Platform) (H : Handlers) where
  -- A client that joins under the next id.
  IsTold-joined :
      (s : Server) (w : Trace) (c : ClientInfo) (added : Server) (w' : Trace)
      → c.id ≡ s.next_available_id
      → added.clients ≡ s.clients ++ (c ∷ [])
      → added.next_available_id ≡ suc s.next_available_id
      → told w' ≡ told w
      → IsTold s w
      → IsTold added (Event.client_connected c.id ∷ w')
  IsTold-joined s w c added w' e cs counted q h =
      rw (cs, counted, q)
        (
          ap (λ ns. ns ++ (c.id ∷ [])) h.0 ∙ sym (map-snoc (λ (c : ClientInfo). c.id) s.clients c),
          (
            omega (arith, e),
            All-mono (λ n. n < s.next_available_id) (λ n b. omega (arith, counted)) (known (told w))
                h.1,
          ),
          (
            All-mono (λ n. n < s.next_available_id) (λ n b. omega (arith, e)) (known (told w)) h.1,
            h.2,
          ),
        )

  accept_client-IsTold :
      (s : Server) (w : Trace)
      → s.next_available_id + 1 < 2 ^ 64
      → IsTold s w
      → Ends IsTold (accept_client P H s w)
  unfolding accept_client
  accept_client-IsTold s w b h =
      let (r, w') = accept P s.acceptor s.ec w in
      let c : ClientInfo = record {
        id = s.next_available_id;
        conn = r.0;
        fd = r.0.socket;
        is_connected = true;
      } in
      let added = record s {
        ec = r.1;
        next_available_id = next_id c.id;
        clients = s.clients ++ (c ∷ []);
        poll_group = add_socket s.poll_group c.fd;
      } in
      let e = Event.client_connected c.id in
      Ends-if IsTold (r.1 == 0) (notify P H.on_client_connect e added) _ w'
        (Ends-mono IsTold (notify P H.on_client_connect e added w')
          (IsTold-Kept added (e ∷ w') (
            IsTold-joined s w c added w' refl refl (omega arith) (told-accept P s.acceptor s.ec w)
              h))
          (notify-told P H.on_client_connect e added w'))
        (IsTold-same s
          (record s { ec = r.1; next_available_id = previous_id (next_id s.next_available_id) }) w
          (destroy r.0 w').1 refl (previous_id-next_id s.next_available_id b)
          (told-destroy r.0 w' ∙ told-accept P s.acceptor s.ec w) h)

  -- Taking on clients, with some ids left that were never given out.
  pub handle_incoming_connections-IsTold :
      (rounds : ℕ) (s : Server) (w : Trace)
      → s.next_available_id + rounds < 2 ^ 64
      → IsTold s w
      → Ends IsTold (handle_incoming_connections P H rounds s w)
  handle_incoming_connections-IsTold rounds s w b h =
      handle_incoming_connections-Ends P H
        (λ n t v. (t.next_available_id + n < 2 ^ 64) × IsTold t v) IsTold
        (λ n t v k. (
          k.0,
          IsTold-same t t v (has_pending_connection P t.acceptor v).1 refl refl
              (told-has_pending_connection P t.acceptor v) k.1,
        ))
        (λ n t v k. k.1) (λ n t v k. accepted n t v k.0 k.1) rounds s w (b, h)
    where
      accepted :
          (n : ℕ) (t : Server) (v : Trace)
          → t.next_available_id + suc n < 2 ^ 64
          → IsTold t v
          → Ends (λ u v'. (u.next_available_id + n < 2 ^ 64) × IsTold u v') (accept_client P H t v)
      accepted n t v b k =
          Ends-mono {S = λ u v'. Accepted P H t u × IsTold u v'}
            (λ u v'. (u.next_available_id + n < 2 ^ 64) × IsTold u v') (accept_client P H t v)
            (λ u v' l. (omega (arith, l.0.0), l.1))
            (Ends-and (Accepted P H t) IsTold (accept_client P H t v)
              (accept_client-Accepted P H t v (omega arith))
              (accept_client-IsTold t v (omega arith) k))
