-- ===== src/Server/WellFormed.antt =====
-- The invariant of a server: each client has an id of its own that was given out before, and the
-- poll group holds the clients' sockets in the order of the clients.
use yonaa.Base.{
  ℕ, suc, ◌+◌, ◌<◌, ◌^◌, ◌≡◌, ◌∙◌, ap, sym, refl, [], ◌∷◌, ◌++◌, All, All-snoc, All-mono, map-snoc,
  IsDistinct, snoc-IsDistinct, true, arith, ◌==◌,
}
use yonaa.Os.Events.{Event, Trace}
use yonaa.Os.Platform.{Platform}
use yonaa.Os.After.{After, After-if, After-mono}
use yonaa.Acceptor.{accept}
use yonaa.Poll.{make, add_socket}
use yonaa.Poll.Group.{fds, fds-changed}
use yonaa.Server.{new_server, ClientInfo, Server, Handlers, notify}
use yonaa.Server.Clients.{ids, sockets, Kept, notify-Keeps}
use yonaa.Server.Network.{accept_client, handle_incoming_connections, next_id, previous_id}
use yonaa.Server.Accepting.{handle_incoming_connections-After}

abbrev pub IsWellFormed : Server → Type 0
IsWellFormed s =
    IsDistinct (ids s.clients)
    × All (λ id. id < s.next_available_id) (ids s.clients)
    × (fds s.poll_group ≡ sockets s.clients)

-- It holds of a new server.
new_server-IsWellFormed : (P : Platform) (port : ℕ) → IsWellFormed (new_server P port)
unfolding new_server make
new_server-IsWellFormed P port = (tt, tt, refl)

pub Kept-IsWellFormed : (s : Server) → IsWellFormed s → (t : Server) → Kept s t → IsWellFormed t
Kept-IsWellFormed s h t k = (rw k.0 h.0, rw (k.0, k.1) h.1, ap fds k.2 ∙ h.2 ∙ sym k.4)

pub previous_id-next_id : (n : ℕ) → n + 1 < 2 ^ 64 → previous_id (next_id n) ≡ n
previous_id-next_id n b = omega arith

module _ (P : Platform) (H : Handlers) where
  -- A client that is added at the end, with the id that the counter gives.
  added-IsWellFormed :
      (s : Server) (c : ClientInfo) (ec next : ℕ)
      → IsWellFormed s
      → c.id ≡ s.next_available_id
      → c.id < next
      → IsWellFormed (record s {
        ec = ec;
        next_available_id = next;
        clients = s.clients ++ (c ∷ []);
        poll_group = add_socket s.poll_group c.fd;
      })
  added-IsWellFormed s c ec next h e b = (
    rw (map-snoc (λ (c : ClientInfo). c.id) s.clients c)
        (snoc-IsDistinct (ids s.clients) c.id h.0 (rw e h.1)),
    rw (map-snoc (λ (c : ClientInfo). c.id) s.clients c) (
        All-snoc (λ id. id < next) (ids s.clients) c.id
          (All-mono (λ id. id < s.next_available_id) (λ id b'. omega arith) (ids s.clients) h.1) b),
    (fds-changed s.poll_group c.fd).0
        ∙ ap (λ ns. ns ++ (c.fd ∷ [])) h.2
        ∙ sym (map-snoc (λ (c : ClientInfo). c.fd) s.clients c),
  )

  -- With some ids left that were never given out.
  abbrev HasIds : ℕ → Server → Type 0
  HasIds rounds s = (s.next_available_id + rounds < 2 ^ 64) × IsWellFormed s

  Kept-HasIds :
      (rounds : ℕ) (s : Server) → HasIds rounds s → (t : Server) → Kept s t → HasIds rounds t
  Kept-HasIds rounds s h t k = (rw k.1 h.0, Kept-IsWellFormed s h.1 t k)

  accept_client-HasIds :
      (rounds : ℕ) (s : Server) (w : Trace)
      → HasIds (suc rounds) s
      → After (HasIds rounds) (accept_client P H s w).0
  unfolding accept_client
  accept_client-HasIds rounds s w h =
      let (r, w') = accept P s.acceptor s.ec w in
      let c : ClientInfo = record {
        id = s.next_available_id;
        conn = r.0;
        fd = r.0.socket;
        is_connected = true;
      } in
      let added = record s {
        ec = r.1;
        next_available_id = next_id c.id;
        clients = s.clients ++ (c ∷ []);
        poll_group = add_socket s.poll_group c.fd;
      } in
      After-if (HasIds rounds) (r.1 == 0)
        (notify P H.on_client_connect (Event.client_connected c.id) added) _ w'
        (After-mono (HasIds rounds) _
          (Kept-HasIds rounds added (
            omega (arith, h.0),
            added-IsWellFormed s c r.1 (next_id c.id) h.1 refl (omega (arith, h.0)),
          ))
          (notify-Keeps P H.on_client_connect (Event.client_connected c.id) added w'))
        (
          omega (arith, h.0),
          (h.1.0, rw (previous_id-next_id s.next_available_id (omega (arith, h.0))) h.1.1, h.1.2),
        )

  -- Taking on clients keeps the invariant when the loop comes to its end, if the counter does not
  -- run out of ids in its rounds: the ids are distinct and below the counter, and the poll group
  -- holds the clients' sockets in the order of the clients.
  pub handle_incoming_connections-IsWellFormed :
      (rounds : ℕ) (s : Server) (w : Trace)
      → s.next_available_id + rounds < 2 ^ 64
      → IsWellFormed s
      → After IsWellFormed (handle_incoming_connections P H rounds s w).0
  handle_incoming_connections-IsWellFormed rounds s w b h =
      handle_incoming_connections-After P H HasIds IsWellFormed (λ n t k. k.1) accept_client-HasIds
        rounds s w (b, h)
