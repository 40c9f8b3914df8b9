-- ===== src/Server/Holding.antt =====
-- The sockets of a server's clients are open and not shared, whenever clients may be taken on.
use yonaa.Base.{
  ℕ, suc, ◌≡◌, ◌≢◌, ◌∙◌, refl, List, [], ◌∷◌, ◌++◌, All, true, false, All-mono, All-snoc, map-snoc,
  IsDistinct, new-IsDistinct, inl, inr, arith, ◌==◌,
}
use yonaa.Os.Events.{Event, Trace}
use yonaa.Os.Platform.{Platform, SetsErrno}
use yonaa.Os.Descriptors.{is_open, AcceptsNew}
use yonaa.Os.Ends.{Ends, Ends-test, Ends-mono}
use yonaa.Acceptor.{accept, has_pending_connection}
use yonaa.Connection.{Connection, destroy}
use yonaa.Connection.Descriptors.{Owns, Opens, accept-Opens, is_open-destroy}
use yonaa.Poll.{add_socket}
use yonaa.Server.{ClientInfo, Server, Handlers, Callback, notify}
use yonaa.Server.Clients.{ids, sockets}
use yonaa.Server.Marks.{Marks, MarksSome, Marks-All, notify-Marks}
use yonaa.Server.Telling.{notify-unseen}
use yonaa.Server.Network.{accept_client, handle_incoming_connections, next_id}
use yonaa.Server.Accepting.{handle_incoming_connections-Ends}

-- A client whose socket is open, with its connection on it unless that was closed.
abbrev pub IsLive : Trace → ClientInfo → Type 0
IsLive w c = Owns c.fd c.conn × (is_open w c.fd ≡ true)

abbrev pub Holds : Server → Trace → Type 0
Holds s w = All (IsLive w) s.clients × IsDistinct (sockets s.clients)

pub sockets-Marks : (cs ds : List ClientInfo) → Marks cs ds → sockets ds ≡ sockets cs
sockets-Marks [] [] h = refl
sockets-Marks [] (d ∷ ds) h = absurd h
sockets-Marks (c ∷ cs) [] h = absurd h
sockets-Marks (c ∷ cs) (d ∷ ds) (inl e, h) = rw (e, sockets-Marks cs ds h) refl
sockets-Marks (c ∷ cs) (d ∷ ds) (inr e, h) = rw (e, sockets-Marks cs ds h) refl

pub ids-Marks : (cs ds : List ClientInfo) → Marks cs ds → ids ds ≡ ids cs
ids-Marks [] [] h = refl
ids-Marks [] (d ∷ ds) h = absurd h
ids-Marks (c ∷ cs) [] h = absurd h
ids-Marks (c ∷ cs) (d ∷ ds) (inl e, h) = rw (e, ids-Marks cs ds h) refl
ids-Marks (c ∷ cs) (d ∷ ds) (inr e, h) = rw (e, ids-Marks cs ds h) refl

-- Requests, which mark clients and leave the descriptors as they are.
pub Holds-marked :
    (s : Server) (w : Trace)
    → Holds s w
    → (t : Server) (w' : Trace) → MarksSome s t × (is_open w' ≡ is_open w)
    → Holds t w'
Holds-marked s w h t w' (k, e) = (
  Marks-All (IsLive w') (λ c l. l) s.clients t.clients k
      (All-mono (IsLive w) (λ c l. (l.0, rw e l.1)) s.clients h.0),
  rw (sockets-Marks s.clients t.clients k) h.1,
)

-- A part of the program that closes none of the clients' sockets.
pub Holds-open :
    (s : Server) (w w' : Trace)
    → ((fd : ℕ) → is_open w fd ≡ true → is_open w' fd ≡ true)
    → Holds s w
    → Holds s w'
Holds-open s w w' f h = (All-mono (IsLive w) (λ c l. (l.0, f c.fd l.1)) s.clients h.0, h.1)

module _ (P : Platform) where
  pub notify-open :
      (callback : Callback) (e : Event) (s : Server) (w : Trace)
      → Ends (λ t w'. MarksSome s t × (is_open w' ≡ is_open (e ∷ w))) (notify P callback e s w)
  notify-open callback e s w =
      notify-unseen is_open (λ fd bs flags r v. refl) P (MarksSome s) callback e s w
        (notify-Marks P callback e s w)

  -- A client that joins on a descriptor that was not open.
  Holds-joined :
      (s : Server) (c : ClientInfo) (w w' : Trace)
      → ((fd : ℕ) → is_open w fd ≡ true → is_open w' fd ≡ true)
      → is_open w c.fd ≡ false
      → IsLive w' c
      → Holds s w
      → Holds (record s { clients = s.clients ++ (c ∷ []) }) w'
  Holds-joined s c w w' f new live h = (
    All-snoc (IsLive w') s.clients c (Holds-open s w w' f h).0 live,
    rw (map-snoc (λ (c : ClientInfo). c.fd) s.clients c)
        (new-IsDistinct (sockets s.clients) c.fd h.1 (others s.clients h.0)),
  )
    where
      others : (cs : List ClientInfo) → All (IsLive w) cs → All (λ fd. c.fd ≢ fd) (sockets cs)
      others [] k = tt
      others (d ∷ ds) k = ((λ e. cc (k.0.1, new, e)), others ds k.1)

module _ (P : Platform) (H : Handlers) (fresh : AcceptsNew P) (errors : SetsErrno P) where
  -- A connection that is refused, and closed.
  Opens-destroy :
      (w : Trace) (r : (Connection × ℕ) × Trace)
      → Opens w r
      → (fd : ℕ) → is_open w fd ≡ true
      → is_open (destroy r.0.0 r.1).1 fd ≡ true
  Opens-destroy w r (keep, inl (new, now)) fd h =
      is_open-destroy r.0.0.socket r.0.0 fd r.1 (inl refl) (λ e. cc (new, h, e)) ∙ keep fd h
  Opens-destroy w r (keep, inr (failed, none)) fd h =
      is_open-destroy (suc fd) r.0.0 fd r.1 (inr none) (omega arith) ∙ keep fd h

  accepted_live :
      (w : Trace) (r : (Connection × ℕ) × Trace)
      → Opens w r
      → (r.0.1 == 0) ≡ true
      → (is_open w r.0.0.socket ≡ false) × (is_open r.1 r.0.0.socket ≡ true)
  accepted_live w r (keep, inl h) e = h
  accepted_live w r (keep, inr (failed, none)) e = absurd (failed (ground arith))

  accept_client-Holds : (s : Server) (w : Trace) → Holds s w → Ends Holds (accept_client P H s w)
  unfolding accept_client
  accept_client-Holds s w h =
      let (r, w') = accept P s.acceptor s.ec w in
      let c : ClientInfo = record {
        id = s.next_available_id;
        conn = r.0;
        fd = r.0.socket;
        is_connected = true;
      } in
      let added = record s {
        ec = r.1;
        next_available_id = next_id c.id;
        clients = s.clients ++ (c ∷ []);
        poll_group = add_socket s.poll_group c.fd;
      } in
      let e = Event.client_connected c.id in
      let opens = accept-Opens P fresh errors s.acceptor s.ec w in
      Ends-test Holds (r.1 == 0) (notify P H.on_client_connect e added) _ w'
        (λ good.
          let live = accepted_live w (r, w') opens good in
          Ends-mono Holds (notify P H.on_client_connect e added w')
            (Holds-marked added (e ∷ w')
              (Holds-joined P s c w (e ∷ w') opens.0 live.0 (inl refl, live.1) h))
            (notify-open P H.on_client_connect e added w'))
        λ bad. Holds-open s w (destroy r.0 w').1 (Opens-destroy w (r, w') opens) h

  pub handle_incoming_connections-Holds :
      (rounds : ℕ) (s : Server) (w : Trace)
      → Holds s w
      → Ends Holds (handle_incoming_connections P H rounds s w)
  unfolding has_pending_connection
  handle_incoming_connections-Holds =
      handle_incoming_connections-Ends P H (λ n t v. Holds t v) Holds (λ n t v k. k) (λ n t v k. k)
        λ n t v k. accept_client-Holds t v k
