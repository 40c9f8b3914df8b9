-- ===== src/Server/Departing.antt =====
-- After `handle_disconnected_clients_` the poll group holds just the sockets of the clients that are
-- left.
use yonaa.Base.{
  ℕ, zero, suc, ◌<◌, ◌≡◌, ◌∙◌, ap, sym, refl, List, [], ◌∷◌, ◌++◌, false, map, filter-All,
  filter-IsDistinct, length, take, map-take-append, map-append, IsDistinct, Bool-cases, inl, inr,
  subst,
}
use yonaa.Os.Events.{Event, Trace}
use yonaa.Os.Platform.{Platform}
use yonaa.Os.Outcome.{return}
use yonaa.Os.After.{After, After-bind, After-mono, bind-done}
use yonaa.Poll.{remove_socket}
use yonaa.Poll.Group.{fds, fds-changed}
use yonaa.Connection.{Connection, disconnect}
use yonaa.Server.{ClientInfo, Server, Handlers}
use yonaa.Server.Clients.{ids, sockets, notify-Keeps}
use yonaa.Server.Network.{
  has_null, remove_if, in_front, set_conn_at, part_with, farewell, handle_disconnected_clients,
}
use yonaa.Server.Disconnecting.{is_mixed}
use yonaa.Server.Removing.{
  part, handle_disconnected_clients-mixed, handle_disconnected_clients-flagged,
  handle_disconnected_clients-unflagged,
}
use yonaa.Server.WellFormed.{IsWellFormed}
use yonaa.Server.Sifting.{
  without, kept_of, gone_of, slots, without-append, unmixed-append, has_null-slots, in_front-slots,
  remove_if-unmixed,
}

-- What the loop does to a server as it parts from the clients.
abbrev pub Parts : List ClientInfo → Server → Server → Type 0
Parts gone s t =
    (ids t.clients ≡ ids s.clients)
    × (t.next_available_id ≡ s.next_available_id)
    × (sockets t.clients ≡ sockets s.clients)
    × (fds t.poll_group ≡ without (sockets gone) (fds s.poll_group))

map-set_conn_at :
    (f : ClientInfo → ℕ)
    → ((c : ClientInfo) (conn : Connection) → f (record c { conn = conn }) ≡ f c)
    → (i : ℕ) (conn : Connection) (cs : List ClientInfo) → map f (set_conn_at i conn cs) ≡ map f cs
map-set_conn_at f h i conn [] = refl
map-set_conn_at f h zero conn (c ∷ cs) = ap (λ n. n ∷ map f cs) (h c conn)
map-set_conn_at f h (suc i) conn (c ∷ cs) = ap (◌∷◌ (f c)) (map-set_conn_at f h i conn cs)

-- The invariant of a server, whose clients have a socket each that no other has.
abbrev pub IsWatched : Server → Type 0
IsWatched s = IsWellFormed s × IsDistinct (sockets s.clients)

module _ (P : Platform) (H : Handlers) where
  pub farewell-Parts :
      (gone : List ClientInfo) (i : ℕ) (s : Server) (w : Trace)
      → After (Parts gone s) (farewell P H (slots gone) false i s w).0
  unfolding farewell part_with
  farewell-Parts [] i s w = (refl, refl, refl, refl)
  farewell-Parts (c ∷ gone) i s w =
      let (conn, w') = disconnect c.conn w in
      let s' = record s {
        clients = set_conn_at i conn s.clients;
        poll_group = remove_socket s.poll_group c.fd;
      } in
      After-bind (Parts (c ∷ []) s) (Parts (c ∷ gone) s)
        (part_with P H false (Event.client_disconnected c.id) s')
        (farewell P H (slots gone) false (suc i)) w'
        (After-mono (Parts (c ∷ []) s) _
          (λ t k. (
            k.0 ∙ map-set_conn_at (λ (c : ClientInfo). c.id) (λ c conn. refl) i conn s.clients,
            k.1,
            k.4 ∙ map-set_conn_at (λ (c : ClientInfo). c.fd) (λ c conn. refl) i conn s.clients,
            ap fds k.2 ∙ (fds-changed s.poll_group c.fd).1,
          ))
          (notify-Keeps P H.on_client_disconnect (Event.client_disconnected c.id) s' w'))
        λ t w'' k.
          After-mono (Parts (c ∷ gone) s) _
            (λ u h. (h.0 ∙ k.0, h.1 ∙ k.1, h.2 ∙ k.2, h.3 ∙ ap (without (sockets gone)) k.3))
            (farewell-Parts gone (suc i) t w'')

  -- The invariant of what is left.
  left-IsWatched :
      (s : Server) (cs gone : List ClientInfo) (t : Server)
      → kept_of s.clients ≡ cs
      → cs ++ gone ≡ s.clients
      → IsWatched s
      → Parts gone (record s { clients = cs ++ gone }) t
      → IsWatched (record t { clients = take (length cs) t.clients })
  left-IsWatched s cs gone t e a h k =
      let id = λ (c : ClientInfo). c.id in
      let fd = λ (c : ClientInfo). c.fd in
      let connected = λ (c : ClientInfo). c.is_connected in
      let is = map-take-append id cs gone t.clients k.0 in
      let fs = map-take-append fd cs gone t.clients k.2 in
      let all : (sockets s.clients ≡ sockets cs ++ sockets gone) =
        ap sockets (sym a) ∙ map-append fd cs gone in
      (
        (
          rw (is, sym e) (filter-IsDistinct id connected s.clients h.0.0),
          rw (is, k.1, sym e)
              (filter-All id (λ n. n < s.next_available_id) connected s.clients h.0.1),
          k.3
              ∙ ap (without (sockets gone)) (h.0.2 ∙ all)
              ∙ without-append (sockets cs) (sockets gone) (subst IsDistinct all h.1)
              ∙ sym fs,
        ),
        rw (fs, sym e) (filter-IsDistinct fd connected s.clients h.1),
      )

  part-IsWatched :
      (s : Server) (w : Trace)
      → is_mixed s.clients ≡ false
      → IsWatched s
      → After IsWatched (part P H s (kept_of s.clients, slots (gone_of s.clients)) w).0
  part-IsWatched s w unmixed h =
      let cs = kept_of s.clients in
      let gone = gone_of s.clients in
      let s' = record s { clients = cs ++ in_front (slots gone) } in
      After-bind (Parts gone (record s { clients = cs ++ gone })) IsWatched
        (farewell P H (slots gone) (has_null (slots gone)) (length cs) s')
        (λ t. return (record t { clients = take (length cs) t.clients })) w
        (rw (has_null-slots gone, in_front-slots gone)
          (farewell-Parts gone (length cs) (record s { clients = cs ++ gone }) w))
        λ t w' k. left-IsWatched s cs gone t refl (unmixed-append s.clients unmixed) h k

  -- Parting from the clients that were removed keeps the invariant when it comes to its end: the
  -- clients that are left have distinct ids that were given out, and the poll group holds just their
  -- sockets, in their order, each once.
  pub handle_disconnected_clients-IsWatched :
      (s : Server) (w : Trace)
      → IsWatched s
      → After IsWatched (handle_disconnected_clients P H s w).0
  handle_disconnected_clients-IsWatched s w h = elim (Bool-cases s.has_disconnected_clients) [
    | inl flag ↦ elim (Bool-cases (is_mixed s.clients)) [
      | inl mixed ↦ handle_disconnected_clients-mixed P H IsWatched s w flag mixed
      | inr unmixed ↦
          rw
            (
              handle_disconnected_clients-flagged P H s w flag,
              bind-done (remove_if [] s.clients) (part P H s)
                  (remove_if-unmixed s.clients w unmixed),
            )
            (part-IsWatched s w unmixed h)
    ]
    | inr flag ↦ rw (handle_disconnected_clients-unflagged P H s w flag) h
  ]
