-- ===== src/Server/Running.antt =====
-- Only `stop` stops a server: what else the threads and the callbacks ask leaves `running_` alone.
use yonaa.Base.{
  ℕ, ◌≡◌, ◌∙◌, refl, List, [], ◌∷◌, All, Bool, true, false, none, some, length, take, arith,
  Bool-cases, inl, inr, ◌==◌, ◌++◌,
}
use yonaa.Os.Events.{Event, Trace}
use yonaa.Os.Platform.{Platform}
use yonaa.Os.Outcome.{return}
use yonaa.Os.After.{After, After-any, After-if, After-bind, After-mono}
use yonaa.Acceptor.{accept}
use yonaa.Poll.{poll}
use yonaa.Base.{pos}
use yonaa.Server.{
  Server, Handlers, Callback, Request, call_message_client, call_message_all_clients,
  call_remove_client, call_stop, remove_client, message_all_clients, perform, perform_all, notify,
}
use yonaa.Server.Clients.{message_client-After, message_each-After}
use yonaa.Server.Network.{
  has_null, in_front, remove_if, farewell, accept_client, handle_incoming_connections,
  handle_incoming_messages, handle_disconnected_clients,
}
use yonaa.Server.Accepting.{handle_incoming_connections-After}
use yonaa.Server.Messages.{handle_events-After, polled_server}
use yonaa.Server.Disconnecting.{farewell-After}
use yonaa.Server.Removing.{
  part, handle_disconnected_clients-flagged, handle_disconnected_clients-unflagged,
}

abbrev pub asks_stop : Request → Bool
asks_stop call_stop = true
asks_stop _ = false

-- A callback that never asks the server to stop.
abbrev pub NeverStops : Callback → Type 0
NeverStops none = Unit
NeverStops (some callback) = (w : Trace) → All (λ q. asks_stop q ≡ false) (callback w)

abbrev pub Runs : Server → Server → Type 0
Runs s t = t.running ≡ s.running

Runs-refl : (s : Server) → Runs s s
Runs-refl s = refl

Runs-trans : (s t : Server) → Runs s t → (u : Server) → Runs t u → Runs s u
Runs-trans s t h u k = k ∙ h

remove_client-Runs : (s : Server) (id : ℕ) → Runs s (remove_client s id)
unfolding remove_client
remove_client-Runs s id = ground arith

module _ (P : Platform) where
  pub perform-Runs :
      (q : Request) (s : Server) (w : Trace)
      → asks_stop q ≡ false
      → After (Runs s) (perform P q s w).0
  unfolding perform message_all_clients
  perform-Runs (call_message_client msg id) s w h =
      message_client-After P Runs Runs-refl Runs-trans remove_client-Runs (λ s ec. refl) s msg id w
  perform-Runs (call_message_all_clients msg exclude) s w h =
      message_each-After P Runs Runs-refl Runs-trans remove_client-Runs (λ s ec. refl) s.clients s
        msg exclude w
  perform-Runs (call_remove_client id) s w h = remove_client-Runs s id
  perform-Runs call_stop s w h = cc

  perform_all-Runs :
      (qs : List Request) (s : Server) (w : Trace)
      → All (λ q. asks_stop q ≡ false) qs
      → After (Runs s) (perform_all P qs s w).0
  unfolding perform_all
  perform_all-Runs [] s w h = refl
  perform_all-Runs (q ∷ qs) s w h =
      After-bind (Runs s) (Runs s) (perform P q s) (perform_all P qs) w (perform-Runs q s w h.0)
        λ t w' k. After-mono (Runs s) _ (Runs-trans s t k) (perform_all-Runs qs t w' h.1)

  notify-Runs :
      (callback : Callback) (e : Event) (s : Server) (w : Trace)
      → NeverStops callback
      → After (Runs s) (notify P callback e s w).0
  unfolding notify
  notify-Runs none e s w h = tt
  notify-Runs (some callback) e s w h = perform_all-Runs (callback (e ∷ w)) s (e ∷ w) (h (e ∷ w))

module _ (P : Platform) (H : Handlers) where
  pub handle_incoming_messages-Runs :
      (s : Server) (w : Trace)
      → NeverStops H.on_data_receive
      → After (Runs s) (handle_incoming_messages P H s w).0
  unfolding handle_incoming_messages
  handle_incoming_messages-Runs s w h =
      let (r, w') = poll P s.poll_group (pos 0) w in
      handle_events-After P H Runs Runs-refl Runs-trans remove_client-Runs (λ s ec fd conn. refl)
        (λ id bs s w. notify-Runs P H.on_data_receive (Event.client_sent id bs) s w h) r.0
        (polled_server P H s w) w'

  pub handle_disconnected_clients-Runs :
      (s : Server) (w : Trace)
      → NeverStops H.on_client_disconnect
      → After (Runs s) (handle_disconnected_clients P H s w).0
  handle_disconnected_clients-Runs s w h = elim (Bool-cases s.has_disconnected_clients) [
    | inl flag ↦ rw (handle_disconnected_clients-flagged P H s w flag) (
        After-any (Runs s) (remove_if [] s.clients) (part P H s) w λ r w'.
          After-bind (Runs s) (Runs s)
            (farewell P H r.1 (has_null r.1) (length r.0)
              (record s { clients = r.0 ++ in_front r.1 }))
            (λ t. return (record t { clients = take (length r.0) t.clients })) w'
            (farewell-After P H Runs Runs-refl Runs-trans (λ s i fd conn. refl)
              (λ id s w. notify-Runs P H.on_client_disconnect (Event.client_disconnected id) s w h)
              r.1 (length r.0) (record s { clients = r.0 ++ in_front r.1 }) w')
            λ t w'' k. k)
    | inr flag ↦ rw (handle_disconnected_clients-unflagged P H s w flag) refl
  ]

  accept_client-Runs :
      (s : Server) (w : Trace)
      → NeverStops H.on_client_connect
      → After (Runs s) (accept_client P H s w).0
  unfolding accept_client
  accept_client-Runs s w h =
      let (r, w') = accept P s.acceptor s.ec w in
      After-if (Runs s) (r.1 == 0)
        (notify P H.on_client_connect (Event.client_connected s.next_available_id) _) _ w'
        (notify-Runs P H.on_client_connect (Event.client_connected s.next_available_id) _ w' h) refl

  pub handle_incoming_connections-Runs :
      (rounds : ℕ) (s : Server) (w : Trace)
      → NeverStops H.on_client_connect
      → After (Runs s) (handle_incoming_connections P H rounds s w).0
  handle_incoming_connections-Runs rounds s w h =
      handle_incoming_connections-After P H (λ n. Runs s) (Runs s) (λ n t k. k)
        (λ n t w' k. After-mono (Runs s) _ (Runs-trans s t k) (accept_client-Runs t w' h)) rounds s
        w refl
