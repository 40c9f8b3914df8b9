-- ===== src/Server/Sparing.antt =====
-- `handle_disconnected_clients_` closes the sockets of the clients that were marked, and leaves those
-- of the others open.
use yonaa.Base.{
  ℕ, zero, suc, ◌≤◌, ◌≡◌, ◌≢◌, ◌∙◌, ap, sym, subst, refl, List, [], ◌∷◌, ◌++◌, Bool, true, false,
  Bool-cases, inl, inr, All, All-mono, IsDistinct, filter-IsDistinct, length, take, take-append,
  map-append, arith,
}
use yonaa.Os.Events.{Event, Trace}
use yonaa.Os.Platform.{Platform}
use yonaa.Os.Outcome.{return}
use yonaa.Os.After.{bind-done}
use yonaa.Os.Descriptors.{is_open}
use yonaa.Os.Ends.{Ends, Ends-bind, Ends-mono}
use yonaa.Connection.{Connection, disconnect}
use yonaa.Connection.Descriptors.{Owns, is_open-disconnect}
use yonaa.Poll.{remove_socket}
use yonaa.Server.{ClientInfo, Server, Handlers}
use yonaa.Server.Clients.{members, sockets}
use yonaa.Server.Marks.{Marks, MarksSome, Marks-refl, Marks-trans, Marks-take, Marks-All}
use yonaa.Server.Network.{
  has_null, remove_if, in_front, set_conn_at, part_with, farewell, handle_disconnected_clients,
}
use yonaa.Server.Disconnecting.{is_mixed}
use yonaa.Server.Removing.{
  part, handle_disconnected_clients-mixed, handle_disconnected_clients-flagged,
  handle_disconnected_clients-unflagged,
}
use yonaa.Server.Sifting.{
  kept_of, gone_of, slots, unmixed-append, has_null-slots, in_front-slots, remove_if-unmixed,
}
use yonaa.Server.Holding.{IsLive, Holds, sockets-Marks, notify-open}
use yonaa.Server.Held.{IsHeld, HoldsUnmarked}

unmarked-IsLive :
    (w : Trace) (cs : List ClientInfo)
    → All (λ (m : ℕ × Bool). m.1 ≡ true) (members cs)
    → All (IsHeld w) cs
    → All (IsLive w) cs
unmarked-IsLive w [] m h = tt
unmarked-IsLive w (c ∷ cs) m h = ((h.0.0, h.0.1 m.0), unmarked-IsLive w cs m.1 h.1)

kept-IsLive : (w : Trace) (cs : List ClientInfo) → All (IsHeld w) cs → All (IsLive w) (kept_of cs)
kept-IsLive w [] h = tt
kept-IsLive w (c ∷ cs) h = elim (Bool-cases c.is_connected) [
  | inl on ↦ rw on ((h.0.0, h.0.1 on), kept-IsLive w cs h.1)
  | inr off ↦ rw off (kept-IsLive w cs h.1)
]

gone-Owns :
    (w : Trace) (cs : List ClientInfo)
    → All (IsHeld w) cs
    → All (λ (c : ClientInfo). Owns c.fd c.conn) (gone_of cs)
gone-Owns w [] h = tt
gone-Owns w (c ∷ cs) h = elim (Bool-cases c.is_connected) [
  | inl on ↦ rw on (gone-Owns w cs h.1)
  | inr off ↦ rw off (h.0.0, gone-Owns w cs h.1)
]

take-set_conn_at :
    (n i : ℕ) (conn : Connection) (cs : List ClientInfo)
    → n ≤ i
    → take n (set_conn_at i conn cs) ≡ take n cs
take-set_conn_at zero i conn cs h = refl
take-set_conn_at (suc n) zero conn cs h = elim h [ ]
take-set_conn_at (suc n) (suc i) conn [] h = refl
take-set_conn_at (suc n) (suc i) conn (c ∷ cs) h =
    ap (◌∷◌ c) (take-set_conn_at n i conn cs (omega arith))

All-after : (m : ℕ) (ks gs : List ℕ) → All (λ n. n ≢ m) (ks ++ gs) → All (λ n. m ≢ n) gs
All-after m [] gs h = All-mono (λ n. n ≢ m) (λ n k e. k (sym e)) gs h
All-after m (k ∷ ks) gs h = All-after m ks gs h.1

apart : (ks gs : List ℕ) → IsDistinct (ks ++ gs) → All (λ k. All (λ g. k ≢ g) gs) ks
apart [] gs h = tt
apart (k ∷ ks) gs h = (All-after k ks gs h.0, apart ks gs h.1)

IsLive-spared :
    (w v : Trace) (cs : List ClientInfo)
    → All (λ fd. is_open v fd ≡ is_open w fd) (sockets cs)
    → All (IsLive w) cs
    → All (IsLive v) cs
IsLive-spared w v [] f h = tt
IsLive-spared w v (c ∷ cs) f h = ((h.0.0, f.0 ∙ h.0.1), IsLive-spared w v cs f.1 h.1)

-- What the loop has left of the clients in front: they are there, some of them marked, and their
-- sockets are as they were.
abbrev Spares : List ClientInfo → List ClientInfo → Trace → Server → Trace → Type 0
Spares cs gone w t v =
    Marks cs (take (length cs) t.clients)
    × ((fd : ℕ) → All (λ m. fd ≢ m) (sockets gone) → is_open v fd ≡ is_open w fd)

module _ (P : Platform) (H : Handlers) (cs : List ClientInfo) where
  farewell-Spares :
      (gone : List ClientInfo) (i : ℕ) (s : Server) (w : Trace)
      → length cs ≤ i
      → Marks cs (take (length cs) s.clients)
      → All (λ (c : ClientInfo). Owns c.fd c.conn) gone
      → Ends (Spares cs gone w) (farewell P H (slots gone) false i s w)
  unfolding farewell part_with
  farewell-Spares [] i s w le k own = (k, λ fd h. refl)
  farewell-Spares (c ∷ gone) i s w le k own =
      let (conn, w') = disconnect c.conn w in
      let s' = record s {
        clients = set_conn_at i conn s.clients;
        poll_group = remove_socket s.poll_group c.fd;
      } in
      let e = Event.client_disconnected c.id in
      Ends-bind (λ t v. MarksSome s' t × (is_open v ≡ is_open (e ∷ w'))) (Spares cs (c ∷ gone) w)
        (part_with P H false e s') (farewell P H (slots gone) false (suc i)) w'
        (notify-open P H.on_client_disconnect e s' w')
        λ t v q.
          let n = length cs in
          let there =
            Marks-trans cs (take n s'.clients) (take n t.clients)
              (rw (take-set_conn_at n i conn s.clients le) k)
              (Marks-take n s'.clients t.clients q.0) in
          Ends-mono {S = Spares cs gone v} (Spares cs (c ∷ gone) w)
            (farewell P H (slots gone) false (suc i) t v)
            (λ u x m. (
              m.0,
              λ fd ne.
                  m.1 fd ne.1 ∙ ap (λ f. f fd) q.1 ∙ is_open-disconnect c.fd c.conn fd w own.0 ne.0,
            ))
            (farewell-Spares gone (suc i) t v (omega arith) there own.1)

module _ (P : Platform) (H : Handlers) where
  -- The clients that are left.
  left-Holds :
      (s : Server) (w : Trace)
      → kept_of s.clients ++ gone_of s.clients ≡ s.clients
      → HoldsUnmarked s w
      → let cs = kept_of s.clients in
        (t : Server) (v : Trace)
        → Spares cs (gone_of s.clients) w t v
        → Holds (record t { clients = take (length cs) t.clients }) v
  left-Holds s w all h t v k =
      let cs = kept_of s.clients in
      let gone = gone_of s.clients in
      let fd = λ (c : ClientInfo). c.fd in
      let distinct = subst IsDistinct (ap sockets (sym all) ∙ map-append fd cs gone) h.1 in
      let same =
        All-mono (λ n. All (λ g. n ≢ g) (sockets gone)) k.1 (sockets cs)
          (apart (sockets cs) (sockets gone) distinct) in
      (
        Marks-All (IsLive v) (λ c l. l) cs (take (length cs) t.clients) k.0
            (IsLive-spared w v cs same (kept-IsLive w s.clients h.0)),
        rw (sockets-Marks cs (take (length cs) t.clients) k.0)
            (filter-IsDistinct fd (λ (c : ClientInfo). c.is_connected) s.clients h.1),
      )

  part-Holds :
      (s : Server) (w : Trace)
      → is_mixed s.clients ≡ false
      → HoldsUnmarked s w
      → Ends Holds (part P H s (kept_of s.clients, slots (gone_of s.clients)) w)
  part-Holds s w unmixed h =
      let cs = kept_of s.clients in
      let gone = gone_of s.clients in
      let s' = record s { clients = cs ++ gone } in
      Ends-bind (Spares cs gone w) Holds
        (farewell P H (slots gone) (has_null (slots gone)) (length cs)
          (record s { clients = cs ++ in_front (slots gone) }))
        (λ t. return (record t { clients = take (length cs) t.clients })) w
        (rw (has_null-slots gone, in_front-slots gone)
          (farewell-Spares P H cs gone (length cs) s' w (omega arith)
            (rw (take-append cs gone) (Marks-refl cs)) (gone-Owns w s.clients h.0)))
        (left-Holds s w (unmixed-append s.clients unmixed) h)

  pub handle_disconnected_clients-Holds :
      (s : Server) (w : Trace)
      → HoldsUnmarked s w
      → (s.has_disconnected_clients ≡ false
          → All (λ (m : ℕ × Bool). m.1 ≡ true) (members s.clients))
      → Ends Holds (handle_disconnected_clients P H s w)
  handle_disconnected_clients-Holds s w h unmarked = elim (Bool-cases s.has_disconnected_clients) [
    | inl flag ↦ elim (Bool-cases (is_mixed s.clients)) [
      | inl mixed ↦
          handle_disconnected_clients-mixed P H
            (λ t. Holds t (handle_disconnected_clients P H s w).1) s w flag mixed
      | inr unmixed ↦
          rw
            (
              handle_disconnected_clients-flagged P H s w flag,
              bind-done (remove_if [] s.clients) (part P H s)
                  (remove_if-unmixed s.clients w unmixed),
            )
            (part-Holds s w unmixed h)
    ]
    | inr flag ↦
        rw (handle_disconnected_clients-unflagged P H s w flag)
          (unmarked-IsLive w s.clients (unmarked flag) h.0, h.1)
  ]
