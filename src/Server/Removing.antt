-- ===== src/Server/Removing.antt =====
-- `handle_disconnected_clients_`: which clients a server has left when it comes back.
use yonaa.Base.{
  ℕ, suc, ◌≡◌, ◌∙◌, ap, sym, refl, List, [], ◌∷◌, ◌++◌, true, false, some, none, filter, length,
  take, map-take-append,
}
use yonaa.Os.Events.{Event, Trace}
use yonaa.Os.Platform.{Platform, SendsSome, SetsErrno}
use yonaa.Os.Outcome.{done, R, return, ◌>>=◌}
use yonaa.Os.After.{After, After-bind, bind-done}
use yonaa.Os.Always.{Always, Returns, Always-bind, After-Always}
use yonaa.Poll.{remove_socket}
use yonaa.Connection.{disconnect}
use yonaa.Server.Returning.{notify-Returns}
use yonaa.Server.{Request, ClientInfo, Server, Handlers}
use yonaa.Server.Clients.{ids}
use yonaa.Server.Network.{
  Slot, has_null, remove_if, in_front, set_conn_at, part_with, farewell,
  handle_disconnected_clients,
}
use yonaa.Server.Disconnecting.{is_mixed, Sifts-done, remove_if-Sifts, farewell-ids, farewell_never}

module _ (P : Platform) (H : Handlers) where
  -- What follows `std::remove_if`, with the clients it kept and the slots behind them.
  abbrev pub part : Server → List ClientInfo × List Slot → R Server
  part s r =
      farewell P H r.1 (has_null r.1) (length r.0) (record s { clients = r.0 ++ in_front r.1 })
      >>= λ t. return (record t { clients = take (length r.0) t.clients })

  part-ids :
      (s : Server) (kept : List ClientInfo) (rest : List Slot) (w : Trace)
      → After (λ (t : Server). ids t.clients ≡ ids kept) (part s (kept, rest) w).0
  part-ids s kept rest w =
      After-bind (λ (t : Server). ids t.clients ≡ ids (kept ++ in_front rest))
        (λ (t : Server). ids t.clients ≡ ids kept)
        (farewell P H rest (has_null rest) (length kept)
          (record s { clients = kept ++ in_front rest }))
        (λ t. return (record t { clients = take (length kept) t.clients })) w
        (farewell-ids P H rest (length kept) (record s { clients = kept ++ in_front rest }) w)
        λ t w' k. map-take-append (λ (c : ClientInfo). c.id) kept (in_front rest) t.clients k

  pub handle_disconnected_clients-flagged :
      (s : Server) (w : Trace)
      → s.has_disconnected_clients ≡ true
      → handle_disconnected_clients P H s w ≡ (remove_if [] s.clients >>= part s) w
  unfolding handle_disconnected_clients
  handle_disconnected_clients-flagged s w flag = rw flag refl

  pub handle_disconnected_clients-unflagged :
      (s : Server) (w : Trace)
      → s.has_disconnected_clients ≡ false
      → handle_disconnected_clients P H s w ≡ (done s, w)
  unfolding handle_disconnected_clients
  handle_disconnected_clients-unflagged s w flag = rw flag refl

  -- With a connected client behind one that is not, it does not come back.
  pub handle_disconnected_clients-mixed :
      (Q : Server → Type 0) (s : Server) (w : Trace)
      → s.has_disconnected_clients ≡ true
      → is_mixed s.clients ≡ true
      → After Q (handle_disconnected_clients P H s w).0
  handle_disconnected_clients-mixed Q s w flag mixed =
      let (kept, rest, e, k, n) = Sifts-done s.clients _ _ (remove_if-Sifts [] s.clients w) in
      let w' = (remove_if [] s.clients w).1 in
      let s' = record s { clients = kept ++ in_front rest } in
      rw
        (
          handle_disconnected_clients-flagged s w flag,
          bind-done (remove_if [] s.clients) (part s) (ap (λ r. (r, w')) e),
        )
        (After-bind (λ t. ⊥) Q (farewell P H rest (has_null rest) (length kept) s')
          (λ t. return (record t { clients = take (length kept) t.clients })) w'
          (farewell_never P H (λ t. ⊥) rest (has_null rest) (length kept) s' w' (n ∙ mixed))
          λ t v f. absurd f)

  module _ (some_bytes : SendsSome P) (errors : SetsErrno P) (callback : Trace → List Request)
      (installed : H.on_client_disconnect ≡ some callback) where
    part_with-Returns :
        (gone : Event) (s : Server) (w : Trace) → Returns (part_with P H false gone s w).0
    unfolding part_with
    part_with-Returns gone s w =
        rw (installed, part_with) (notify-Returns P some_bytes errors callback gone s w)

    farewell-Returns :
        (slots : List Slot) (i : ℕ) (s : Server) (w : Trace)
        → has_null slots ≡ false
        → Returns (farewell P H slots false i s w).0
    unfolding farewell
    farewell-Returns [] i s w h = tt
    farewell-Returns (none ∷ slots) i s w h = cc
    farewell-Returns (some c ∷ slots) i s w h =
        let (conn, w') = disconnect c.conn w in
        let s' = record s {
          clients = set_conn_at i conn s.clients;
          poll_group = remove_socket s.poll_group c.fd;
        } in
        Always-bind (λ (t : Server). Unit {0}) (λ (t : Server). Unit {0})
          (part_with P H false (Event.client_disconnected c.id) s')
          (farewell P H slots false (suc i)) w'
          (part_with-Returns (Event.client_disconnected c.id) s' w')
          λ t w'' k. farewell-Returns slots (suc i) t w'' h

    part-Returns :
        (s : Server) (kept : List ClientInfo) (rest : List Slot) (w : Trace)
        → has_null rest ≡ false
        → Returns (part s (kept, rest) w).0
    part-Returns s kept rest w h =
        let s' = record s { clients = kept ++ in_front rest } in
        Always-bind (λ (t : Server). Unit {0}) (λ (t : Server). Unit {0})
          (farewell P H rest (has_null rest) (length kept) s')
          (λ t. return (record t { clients = take (length kept) t.clients })) w
          (rw h (farewell-Returns rest (length kept) s' w h)) λ t w' k. tt

    -- With a client to remove, a callback to call, and no connected client behind one that is not,
    -- the server comes back, and has the clients that were connected, in their order, and no other.
    -- Assumed: the kernel takes a byte or more in each call, and a call that fails sets `errno`.
    pub handle_disconnected_clients-ids :
        (s : Server) (w : Trace)
        → s.has_disconnected_clients ≡ true
        → is_mixed s.clients ≡ false
        → Always
            (λ (t : Server).
              ids t.clients ≡ ids (filter (λ (c : ClientInfo). c.is_connected) s.clients))
            (handle_disconnected_clients P H s w).0
    handle_disconnected_clients-ids s w flag unmixed =
        let (kept, rest, e, k, n) = Sifts-done s.clients _ _ (remove_if-Sifts [] s.clients w) in
        let w' = (remove_if [] s.clients w).1 in
        rw
          (
            handle_disconnected_clients-flagged s w flag,
            bind-done (remove_if [] s.clients) (part s) (ap (λ r. (r, w')) e),
            sym k,
          )
          (After-Always (λ (t : Server). ids t.clients ≡ ids kept) _ (part-ids s kept rest w')
            (part-Returns s kept rest w' (n ∙ unmixed)))
