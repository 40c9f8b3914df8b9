-- ===== src/Server/Parting.antt =====
-- `handle_disconnected_clients_` keeps the order of the callbacks: it tells the user of each client
-- that is gone, once.
use yonaa.Base.{
  ℕ, suc, ◌≡◌, ◌∙◌, ap, sym, subst, refl, List, [], ◌∷◌, ◌++◌, Bool-cases, inl, inr, false,
  append-nil, IsDistinct, length, take, map-append, map-take-append,
}
use mathlib.Core.List.{Memᴰ}
use mathlib.Core.List.Memᴰ.{append_right}
use yonaa.Os.Events.{Event, Trace}
use yonaa.Os.Platform.{Platform}
use yonaa.Os.Outcome.{return}
use yonaa.Os.After.{bind-done}
use yonaa.Os.Ends.{Ends, Ends-bind, Ends-and}
use yonaa.Connection.{disconnect}
use yonaa.Poll.{remove_socket}
use yonaa.Poll.Group.{others}
use yonaa.Told.{told}
use yonaa.Told.Quiet.{told-disconnect}
use yonaa.Server.{ClientInfo, Server, Handlers}
use yonaa.Server.Clients.{ids, Kept}
use yonaa.Server.Network.{
  has_null, remove_if, in_front, set_conn_at, part_with, farewell, handle_disconnected_clients,
}
use yonaa.Server.Disconnecting.{is_mixed}
use yonaa.Server.Removing.{
  part, handle_disconnected_clients-mixed, handle_disconnected_clients-flagged,
  handle_disconnected_clients-unflagged,
}
use yonaa.Server.Sifting.{
  kept_of, gone_of, slots, others-middle, unmixed-append, has_null-slots, in_front-slots,
  remove_if-unmixed,
}
use yonaa.Server.Departing.{Parts, farewell-Parts}
use yonaa.Server.Telling.{notify-told}
use yonaa.Server.Ordering.{Tells, IsTold}

-- The client behind the first ones is told of as disconnected.
Tells-disconnected :
    (is js : List ℕ) (id next : ℕ) (w w' : Trace)
    → IsDistinct (is ++ (id ∷ js))
    → told w' ≡ Event.client_disconnected id ∷ told w
    → Tells (is ++ (id ∷ js)) next w
    → Tells (is ++ js) next w'
Tells-disconnected is js id next w w' d e h = rw e (
  ap (others id) h.0 ∙ (others-middle id is js d).0,
  h.1,
  (rw h.0 (append_right is (Memᴰ.head refl)), h.2),
)

module _ (P : Platform) (H : Handlers) where
  farewell-Tells :
      (is : List ℕ) (gone : List ClientInfo) (next i : ℕ) (s : Server) (w : Trace)
      → IsDistinct (is ++ ids gone)
      → Tells (is ++ ids gone) next w
      → Ends (λ t w'. Tells is next w') (farewell P H (slots gone) false i s w)
  unfolding farewell part_with
  farewell-Tells is [] next i s w d h = subst (λ ns. Tells ns next w) (append-nil is) h
  farewell-Tells is (c ∷ gone) next i s w d h =
      let (conn, w') = disconnect c.conn w in
      let s' = record s {
        clients = set_conn_at i conn s.clients;
        poll_group = remove_socket s.poll_group c.fd;
      } in
      let e = Event.client_disconnected c.id in
      Ends-bind (λ t v. Kept s' t × (told v ≡ told (e ∷ w'))) (λ t v. Tells is next v)
        (part_with P H false e s') (farewell P H (slots gone) false (suc i)) w'
        (notify-told P H.on_client_disconnect e s' w')
        λ t v k. farewell-Tells is gone next (suc i) t v (others-middle c.id is (ids gone) d).1 (
          Tells-disconnected is (ids gone) c.id next w v d
            (k.1 ∙ ap (λ (v : Trace). e ∷ v) (told-disconnect c.conn w)) h)

  part-IsTold :
      (s : Server) (w : Trace)
      → is_mixed s.clients ≡ false
      → IsDistinct (ids s.clients)
      → IsTold s w
      → Ends IsTold (part P H s (kept_of s.clients, slots (gone_of s.clients)) w)
  part-IsTold s w unmixed d h =
      let cs = kept_of s.clients in
      let gone = gone_of s.clients in
      let s' = record s { clients = cs ++ gone } in
      let all : (ids s.clients ≡ ids cs ++ ids gone) =
        ap ids (sym (unmixed-append s.clients unmixed))
        ∙ map-append (λ (c : ClientInfo). c.id) cs gone in
      Ends-bind (λ t v. Parts gone s' t × Tells (ids cs) s.next_available_id v) IsTold
        (farewell P H (slots gone) (has_null (slots gone)) (length cs)
          (record s { clients = cs ++ in_front (slots gone) }))
        (λ t. return (record t { clients = take (length cs) t.clients })) w
        (rw (has_null-slots gone, in_front-slots gone)
          (Ends-and (Parts gone s') (λ t v. Tells (ids cs) s.next_available_id v)
            (farewell P H (slots gone) false (length cs) s' w)
            (farewell-Parts P H gone (length cs) s' w)
            (farewell-Tells (ids cs) gone s.next_available_id (length cs) s' w
              (subst IsDistinct all d) (subst (λ is. Tells is s.next_available_id w) all h))))
        λ t v k. rw (map-take-append (λ (c : ClientInfo). c.id) cs gone t.clients k.0.0, k.0.1) k.1

  pub handle_disconnected_clients-IsTold :
      (s : Server) (w : Trace)
      → IsDistinct (ids s.clients)
      → IsTold s w
      → Ends IsTold (handle_disconnected_clients P H s w)
  handle_disconnected_clients-IsTold s w d h = elim (Bool-cases s.has_disconnected_clients) [
    | inl flag ↦ elim (Bool-cases (is_mixed s.clients)) [
      | inl mixed ↦
          handle_disconnected_clients-mixed P H
            (λ t. IsTold t (handle_disconnected_clients P H s w).1) s w flag mixed
      | inr unmixed ↦
          rw
            (
              handle_disconnected_clients-flagged P H s w flag,
              bind-done (remove_if [] s.clients) (part P H s)
                  (remove_if-unmixed s.clients w unmixed),
            )
            (part-IsTold s w unmixed d h)
    ]
    | inr flag ↦ rw (handle_disconnected_clients-unflagged P H s w flag) h
  ]
