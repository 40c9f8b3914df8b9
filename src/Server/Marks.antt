-- ===== src/Server/Marks.antt =====
-- What the requests of callbacks and of other threads do to the clients: they mark some of them.
use yonaa.Base.{
  ◌≡◌, ◌⊎◌, refl, List, [], ◌∷◌, false, Bool-cases, Option-cases, inl, inr, ◌==◌, ℕ, zero, suc, All,
  take,
}
use yonaa.Os.Events.{Event, Trace}
use yonaa.Os.Platform.{Platform}
use yonaa.Os.After.{After}
use yonaa.Server.{
  ClientInfo, Server, Callback, Request, notify, perform, remove_client, client_info_from_id, mark,
}
use yonaa.Server.Clients.{perform-After, notify-After}

abbrev pub marked : ClientInfo → ClientInfo
marked c = record c { is_connected = false }

-- The same clients, some of them marked as removed.
abbrev pub Marks : List ClientInfo → List ClientInfo → Type 0
Marks [] [] = Unit {0}
Marks [] (d ∷ ds) = ⊥
Marks (c ∷ cs) [] = ⊥
Marks (c ∷ cs) (d ∷ ds) = ((d ≡ c) ⊎ (d ≡ marked c)) × Marks cs ds

pub Marks-refl : (cs : List ClientInfo) → Marks cs cs
Marks-refl [] = tt
Marks-refl (c ∷ cs) = (inl refl, Marks-refl cs)

twice_marked :
    (c d e : ClientInfo)
    → (d ≡ c) ⊎ (d ≡ marked c)
    → (e ≡ d) ⊎ (e ≡ marked d)
    → (e ≡ c) ⊎ (e ≡ marked c)
twice_marked c d e (inl h) (inl k) = inl (rw (k, h) refl)
twice_marked c d e (inl h) (inr k) = inr (rw (k, h) refl)
twice_marked c d e (inr h) (inl k) = inr (rw (k, h) refl)
twice_marked c d e (inr h) (inr k) = inr (rw (k, h) refl)

pub Marks-trans : (cs ds es : List ClientInfo) → Marks cs ds → Marks ds es → Marks cs es
Marks-trans [] [] es h k = k
Marks-trans [] (d ∷ ds) es h k = absurd h
Marks-trans (c ∷ cs) [] es h k = absurd h
Marks-trans (c ∷ cs) (d ∷ ds) [] h k = absurd k
Marks-trans (c ∷ cs) (d ∷ ds) (e ∷ es) h k =
    (twice_marked c d e h.0 k.0, Marks-trans cs ds es h.1 k.1)

-- What holds of each client, if it does not depend on its mark or holds of those that are marked.
pub Marks-All :
    (Q : ClientInfo → Type 0)
    → ((c : ClientInfo) → Q c → Q (marked c))
    → (cs ds : List ClientInfo) → Marks cs ds
    → All Q cs
    → All Q ds
Marks-All Q f [] [] k h = tt
Marks-All Q f [] (d ∷ ds) k h = absurd k
Marks-All Q f (c ∷ cs) [] k h = absurd k
Marks-All Q f (c ∷ cs) (d ∷ ds) (inl e, k) h = (rw e h.0, Marks-All Q f cs ds k h.1)
Marks-All Q f (c ∷ cs) (d ∷ ds) (inr e, k) h = (rw e (f c h.0), Marks-All Q f cs ds k h.1)

pub Marks-take : (n : ℕ) (cs ds : List ClientInfo) → Marks cs ds → Marks (take n cs) (take n ds)
Marks-take zero cs ds h = tt
Marks-take (suc n) [] [] h = tt
Marks-take (suc n) [] (d ∷ ds) h = absurd h
Marks-take (suc n) (c ∷ cs) [] h = absurd h
Marks-take (suc n) (c ∷ cs) (d ∷ ds) h = (h.0, Marks-take n cs ds h.1)

Marks-mark : (id : ℕ) (cs : List ClientInfo) → Marks cs (mark id cs)
Marks-mark id [] = tt
Marks-mark id (c ∷ cs) = elim (Bool-cases (c.id == id)) [
  | inl e ↦ rw e (inr refl, Marks-refl cs)
  | inr e ↦ rw e (inl refl, Marks-mark id cs)
]

abbrev pub MarksSome : Server → Server → Type 0
MarksSome s t = Marks s.clients t.clients

pub remove_client-Marks : (s : Server) (id : ℕ) → MarksSome s (remove_client s id)
unfolding remove_client
remove_client-Marks s id = elim (Option-cases (client_info_from_id id s.clients)) [
  | inl e ↦ rw (e, remove_client) (Marks-refl s.clients)
  | inr (c, e) ↦ rw (e, remove_client) (Marks-mark id s.clients)
]

MarksSome-trans : (s t : Server) → MarksSome s t → (u : Server) → MarksSome t u → MarksSome s u
MarksSome-trans s t h u k = Marks-trans s.clients t.clients u.clients h k

module _ (P : Platform) where
  pub perform-Marks :
      (q : Request) (s : Server) (w : Trace) → After (MarksSome s) (perform P q s w).0
  perform-Marks =
      perform-After P MarksSome (λ s. Marks-refl s.clients) MarksSome-trans remove_client-Marks
        (λ s ec. Marks-refl s.clients) λ s. Marks-refl s.clients

  pub notify-Marks :
      (callback : Callback) (e : Event) (s : Server) (w : Trace)
      → After (MarksSome s) (notify P callback e s w).0
  notify-Marks =
      notify-After P MarksSome (λ s. Marks-refl s.clients) MarksSome-trans remove_client-Marks
        (λ s ec. Marks-refl s.clients) λ s. Marks-refl s.clients
