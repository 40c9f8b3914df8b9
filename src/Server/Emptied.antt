-- ===== src/Server/Emptied.antt =====
-- What a callback of src/server.cpp asks while `clients_` holds a null pointer, which `std::remove_if`
-- has left: the search for an id and the loop over the clients read it when they come to it.
use yonaa.Base.{List, [], ◌∷◌, Bool, true, false, Option, none, some, if◌then◌else◌}
use yonaa.Os.Events.{Event}
use yonaa.Os.Platform.{Platform}
use yonaa.Os.Outcome.{R, return, halt, ◌>>=◌, null_pointer, no_callback}
use yonaa.Server.{
  ClientInfo, Server, Request, Callback, call_message_client, call_message_all_clients,
  call_remove_client, call_stop, client_info_from_id, perform,
}

abbrev is_missing : Option ClientInfo → Bool
is_missing none = true
is_missing (some c) = false

-- Whether a call comes to the null pointer, with the clients in front of it.
abbrev pub meets_null : Request → List ClientInfo → Bool
meets_null (call_message_client msg id) cs = is_missing (client_info_from_id id cs)
meets_null (call_message_all_clients msg exclude) cs = true
meets_null (call_remove_client id) cs = is_missing (client_info_from_id id cs)
meets_null call_stop cs = false

module _ (P : Platform) where
  -- The call does to the clients in front of the null pointer what it does to clients, and may then
  -- come to it.
  unfoldable pub perform_at_null : Request → Server → R Server
  perform_at_null q s = do
    s' ← perform P q s
    if meets_null q s.clients then halt null_pointer else return s'

  unfoldable pub perform_all_at_null : List Request → Server → R Server
  unfolding perform_at_null
  perform_all_at_null [] s = return s
  perform_all_at_null (q ∷ qs) s = do s' ← perform_at_null q s; perform_all_at_null qs s'

  -- `notify`, with the requests done like this.
  unfoldable pub notify_at_null : Callback → Event → Server → R Server
  unfolding perform_all_at_null
  notify_at_null none e s w = halt no_callback w
  notify_at_null (some callback) e s w = perform_all_at_null (callback (e ∷ w)) s (e ∷ w)
