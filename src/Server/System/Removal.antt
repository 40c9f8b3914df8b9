-- ===== src/Server/System/Removal.antt =====
-- What becomes of a client that was removed, and of the ids, over whole runs.
use yonaa.Base.{
  ℕ, ◌≡◌, ◌<◌, ◌≢◌, ap, refl, inl, inr, List, [], ◌∷◌, map, All, Bool, IsDistinct, Option-cases,
  false, none, some, arith,
}
use yonaa.Os.Events.{Trace}
use yonaa.Os.Platform.{Platform}
use yonaa.Os.Outcome.{done}
use yonaa.Buffer.{Buffer}
use yonaa.Server.{
  ClientInfo, Server, Handlers, client_info_from_id, mark, new_server, remove_client,
  message_client,
}
use yonaa.Server.Registry.{IsGone, IsSound, is_live, Reach-IsGone, Reach-IsSound}
use yonaa.Server.Clients.{ids, members, view}
use yonaa.Server.System.{System, Reach, initial}
use yonaa.Server.System.Refinement.{Reach-Refines}

pub ids-members : (cs : List ClientInfo) → map (λ (m : ℕ × Bool). m.0) (members cs) ≡ ids cs
ids-members [] = refl
ids-members (c ∷ cs) = ap (◌∷◌ c.id) (ids-members cs)

is_live-fresh :
    (id : ℕ) (cs : List ClientInfo) → All (λ m. m ≢ id) (ids cs) → is_live id (members cs) ≡ false
is_live-fresh id [] h = refl
is_live-fresh id (c ∷ cs) h = ground (arith, is_live-fresh id cs h.1)

is_live-mark :
    (id : ℕ) (cs : List ClientInfo)
    → IsDistinct (ids cs)
    → is_live id (members (mark id cs)) ≡ false
is_live-mark id [] d = refl
is_live-mark id (c ∷ cs) d = ground (arith, is_live-mark id cs d.1, is_live-fresh c.id cs d.0)

is_live-unknown :
    (id : ℕ) (cs : List ClientInfo)
    → client_info_from_id id cs ≡ none
    → is_live id (members cs) ≡ false
is_live-unknown id [] h = refl
is_live-unknown id (c ∷ cs) h = ground (arith, is_live-unknown id cs)

found_marked :
    (id : ℕ) (cs : List ClientInfo) (c : ClientInfo)
    → is_live id (members cs) ≡ false
    → client_info_from_id id cs ≡ some c
    → c.is_connected ≡ false
found_marked id [] c h e = cc
found_marked id (d ∷ cs) c h e = ground (arith, found_marked id cs c)

remove_client-IsGone :
    (s : Server) (id : ℕ)
    → IsDistinct (ids s.clients)
    → id < s.next_available_id
    → IsGone id (view (remove_client s id))
unfolding remove_client
remove_client-IsGone s id d b = elim (Option-cases (client_info_from_id id s.clients)) [
  | inl e ↦ rw (e, remove_client) (b, is_live-unknown id s.clients e)
  | inr (c, e) ↦ rw (e, remove_client) (b, is_live-mark id s.clients d)
]

message_client-gone :
    (P : Platform) (s : Server) (id : ℕ) (msg : Buffer) (w : Trace)
    → is_live id (members s.clients) ≡ false
    → message_client P s msg id w ≡ (done s, w)
unfolding message_client
message_client-gone P s id msg w h = elim (Option-cases (client_info_from_id id s.clients)) [
  | inl e ↦ rw (e, message_client) refl
  | inr (c, e) ↦ rw (e, message_client, found_marked id s.clients c h e) refl
]

pub new_server-IsSound : (P : Platform) (port : ℕ) → IsSound (view (new_server P port))
unfolding new_server
new_server-IsSound P port = (tt, tt)

module _ (P : Platform) (H : Handlers) where
  -- In whatever order the threads run, each client of a server has an id of its own, which is below
  -- the counter.
  Reach-IsSound-view :
      (port : ℕ) {s : System} → Reach P H (initial P port) s → IsSound (view s.server)
  Reach-IsSound-view port r = Reach-IsSound (Reach-Refines P H r) (new_server-IsSound P port)

  pub Reach-IsDistinct :
      (port : ℕ) {s : System} → Reach P H (initial P port) s → IsDistinct (ids s.server.clients)
  Reach-IsDistinct port {s} r = rw⁻¹ (ids-members s.server.clients) (Reach-IsSound-view port r).0

  -- Once a client was removed, by whatever thread, no message goes to it any more, whatever the
  -- threads do meanwhile: a call of `message_client` with its id makes no system call and changes
  -- nothing.
  pub Reach-message_client :
      (port : ℕ) {s t : System}
      → Reach P H (initial P port) s
      → (id : ℕ) → id < s.server.next_available_id
      → Reach P H (record s { server = remove_client s.server id }) t
      → (msg : Buffer) (w : Trace) → message_client P t.server msg id w ≡ (done t.server, w)
  Reach-message_client port {s} {t} r id b after msg w =
      message_client-gone P t.server id msg w
        (Reach-IsGone id (Reach-Refines P H after)
          (remove_client-IsGone s.server id (Reach-IsDistinct port r) b)).1
