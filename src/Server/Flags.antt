-- ===== src/Server/Flags.antt =====
-- `has_disconnected_clients_`: a client is marked only where the flag is set.
use yonaa.Base.{◌≡◌, ◌∙◌, refl, false, Option-cases, inl, inr, ℕ}
use yonaa.Os.Events.{Event, Trace}
use yonaa.Os.Platform.{Platform}
use yonaa.Os.After.{After}
use yonaa.Connection.{Connection}
use yonaa.Poll.{poll}
use yonaa.Base.{pos}
use yonaa.Server.{
  Server, Handlers, Callback, Request, notify, perform, remove_client, client_info_from_id,
}
use yonaa.Server.Clients.{members, perform-After, notify-After}
use yonaa.Server.Messages.{members-set_conn, handle_events-After, polled_server}
use yonaa.Server.Network.{set_conn, handle_incoming_messages}

-- A part that leaves the marks alone, or sets the flag; and once the flag is set it stays.
abbrev pub Flags : Server → Server → Type 0
Flags s t =
    t.has_disconnected_clients ≡ false
    → (s.has_disconnected_clients ≡ false) × (members t.clients ≡ members s.clients)

pub Flags-refl : (s : Server) → Flags s s
Flags-refl s h = (h, refl)

pub Flags-trans : (s t : Server) → Flags s t → (u : Server) → Flags t u → Flags s u
Flags-trans s t h u k e = let r = k e in let q = h r.0 in (q.0, r.1 ∙ q.1)

pub remove_client-Flags : (s : Server) (id : ℕ) → Flags s (remove_client s id)
unfolding remove_client
remove_client-Flags s id = elim (Option-cases (client_info_from_id id s.clients)) [
  | inl e ↦ rw (e, remove_client) (λ h. (h, refl))
  | inr (c, e) ↦ rw (e, remove_client) (λ h. cc)
]

set_conn-Flags :
    (s : Server) (ec fd : ℕ) (conn : Connection)
    → Flags s (record s { ec = ec; clients = set_conn fd conn s.clients })
set_conn-Flags s ec fd conn h = (h, members-set_conn fd conn s.clients)

module _ (P : Platform) where
  pub perform-Flags : (q : Request) (s : Server) (w : Trace) → After (Flags s) (perform P q s w).0
  perform-Flags =
      perform-After P Flags Flags-refl Flags-trans remove_client-Flags (λ s ec. Flags-refl s)
        Flags-refl

  pub notify-Flags :
      (callback : Callback) (e : Event) (s : Server) (w : Trace)
      → After (Flags s) (notify P callback e s w).0
  notify-Flags =
      notify-After P Flags Flags-refl Flags-trans remove_client-Flags (λ s ec. Flags-refl s)
        Flags-refl

  pub handle_incoming_messages-Flags :
      (H : Handlers) (s : Server) (w : Trace)
      → After (Flags (polled_server P H s w)) (handle_incoming_messages P H s w).0
  unfolding handle_incoming_messages
  handle_incoming_messages-Flags H s w =
      let (r, w') = poll P s.poll_group (pos 0) w in
      handle_events-After P H Flags Flags-refl Flags-trans remove_client-Flags set_conn-Flags
        (λ id bs. notify-Flags H.on_data_receive (Event.client_sent id bs)) r.0
        (polled_server P H s w) w'
