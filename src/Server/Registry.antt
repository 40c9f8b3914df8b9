-- ===== src/Server/Registry.antt =====
-- What a server promises of its clients: the specification that src/server.cpp implements. A
-- registry has the next id to give out, and the ids of the clients, each with a mark that says
-- whether the client is still taken for connected.
use yonaa.Base.{
  All, map, IsDistinct, All-snoc, All-mono, map-snoc, snoc-IsDistinct, filter-All,
  filter-IsDistinct, ℕ, suc, ◌<◌, ◌≡◌, ◌⊎◌, ◌∙◌, inl, inr, refl, List, [], ◌∷◌, ◌++◌, Bool, true,
  false, filter, arith, ◌==◌, ◌&&◌, ◌||◌,
}

pub record Registry : Type 0 where
  pub next : ℕ
  pub members : List (ℕ × Bool)

-- The same ids, of which some are no longer taken for connected.
abbrev pub Fades : List (ℕ × Bool) → List (ℕ × Bool) → Type 0
Fades [] [] = Unit {0}
Fades [] (n ∷ ns) = ⊥
Fades (m ∷ ms) [] = ⊥
Fades (m ∷ ms) (n ∷ ns) = (n.0 ≡ m.0) × ((n.1 ≡ m.1) ⊎ (n.1 ≡ false)) × Fades ms ns

-- What may happen: clients are marked, a client joins under the next id, and all clients that were
-- marked leave.
pub data Step (r : Registry) : Registry → Type 0 where
  fade : {ms : List (ℕ × Bool)} → Fades r.members ms → Step r (record r { members = ms })
  join : Step r (record { next = suc r.next; members = r.members ++ ((r.next, true) ∷ []) })
  purge : Step r (record r { members = filter (λ (m : ℕ × Bool). m.1) r.members })

pub data Reach (r : Registry) : Registry → Type 0 where
  here : Reach r r
  later : {s t : Registry} → Reach r s → Step s t → Reach r t

pub Reach-trans : {r s t : Registry} → Reach r s → Reach s t → Reach r t
Reach-trans p here = p
Reach-trans p (later q st) = later (Reach-trans p q) st

pub Fades-refl : (ms : List (ℕ × Bool)) → Fades ms ms
Fades-refl [] = tt
Fades-refl (m ∷ ms) = (refl, inl refl, Fades-refl ms)

fades_mark : (a b c : Bool) → (b ≡ a) ⊎ (b ≡ false) → (c ≡ b) ⊎ (c ≡ false) → (c ≡ a) ⊎ (c ≡ false)
fades_mark a b c (inl h) (inl k) = inl (k ∙ h)
fades_mark a b c (inr h) (inl k) = inr (k ∙ h)
fades_mark a b c h (inr k) = inr k

pub Fades-trans : (ls ms ns : List (ℕ × Bool)) → Fades ls ms → Fades ms ns → Fades ls ns
Fades-trans [] [] ns h k = k
Fades-trans [] (m ∷ ms) ns h k = absurd h
Fades-trans (l ∷ ls) [] ns h k = absurd h
Fades-trans (l ∷ ls) (m ∷ ms) [] h k = absurd k
Fades-trans (l ∷ ls) (m ∷ ms) (n ∷ ns) h k =
    (k.0 ∙ h.0, fades_mark l.1 m.1 n.1 h.1 k.1, Fades-trans ls ms ns h.2 k.2)

-- Whether the id belongs to a client that is taken for connected.
abbrev pub is_live : ℕ → List (ℕ × Bool) → Bool
is_live id [] = false
is_live id (m ∷ ms) = (m.0 == id && m.1) || is_live id ms

-- The id was given out, and its client is marked or has left.
abbrev pub IsGone : ℕ → Registry → Type 0
IsGone id r = (id < r.next) × (is_live id r.members ≡ false)

is_live-fade :
    (id : ℕ) (ms ns : List (ℕ × Bool)) → Fades ms ns → is_live id ms ≡ false → is_live id ns ≡ false
is_live-fade id [] [] h k = refl
is_live-fade id [] (n ∷ ns) h k = absurd h
is_live-fade id (m ∷ ms) [] h k = refl
is_live-fade id (m ∷ ms) (n ∷ ns) h k = ground (arith, is_live-fade id ms ns h.2)

is_live-join :
    (id next : ℕ) (ms : List (ℕ × Bool))
    → id < next
    → is_live id (ms ++ ((next, true) ∷ [])) ≡ is_live id ms
is_live-join id next [] h = ground arith
is_live-join id next (m ∷ ms) h = ground (arith, is_live-join id next ms h)

is_live-purge :
    (id : ℕ) (ms : List (ℕ × Bool)) → is_live id (filter (λ (m : ℕ × Bool). m.1) ms) ≡ is_live id ms
is_live-purge id [] = refl
is_live-purge id (m ∷ ms) = ground (arith, is_live-purge id ms)

Step-IsGone : {r s : Registry} (id : ℕ) → Step r s → IsGone id r → IsGone id s
Step-IsGone {r} id (fade {ms} f) h = (h.0, is_live-fade id r.members ms f h.1)
Step-IsGone {r} id join h = (omega (arith, h.0), is_live-join id r.next r.members h.0 ∙ h.1)
Step-IsGone {r} id purge h = (h.0, is_live-purge id r.members ∙ h.1)

-- A client that was marked or has left does not come back.
pub Reach-IsGone : {r s : Registry} (id : ℕ) → Reach r s → IsGone id r → IsGone id s
Reach-IsGone id here h = h
Reach-IsGone id (later p st) h = Step-IsGone id st (Reach-IsGone id p h)

-- Each id was given out, and to one client.
abbrev pub IsSound : Registry → Type 0
IsSound r =
    IsDistinct (map (λ (m : ℕ × Bool). m.0) r.members)
    × All (λ id. id < r.next) (map (λ (m : ℕ × Bool). m.0) r.members)

pub ids-fade :
    (ms ns : List (ℕ × Bool))
    → Fades ms ns
    → map (λ (m : ℕ × Bool). m.0) ns ≡ map (λ (m : ℕ × Bool). m.0) ms
ids-fade [] [] h = refl
ids-fade [] (n ∷ ns) h = absurd h
ids-fade (m ∷ ms) [] h = absurd h
ids-fade (m ∷ ms) (n ∷ ns) h = cc (ids-fade ms ns h.2)

Step-IsSound : {r s : Registry} → Step r s → IsSound r → IsSound s
Step-IsSound {r} (fade {ms} f) h = let e = ids-fade r.members ms f in (rw e h.0, rw e h.1)
Step-IsSound {r} join h =
    let ids = map (λ (m : ℕ × Bool). m.0) r.members in
    rw (map-snoc (λ (m : ℕ × Bool). m.0) r.members (r.next, true)) (
      snoc-IsDistinct ids r.next h.0 h.1,
      All-snoc (λ id. id < suc r.next) ids r.next
          (All-mono (λ id. id < r.next) (λ id b. omega arith) ids h.1) (omega arith),
    )
Step-IsSound {r} purge h =
    let id_of : ℕ × Bool → ℕ = λ m. m.0 in
    (
      filter-IsDistinct id_of (λ m. m.1) r.members h.0,
      filter-All id_of (λ id. id < r.next) (λ m. m.1) r.members h.1,
    )

pub Reach-IsSound : {r s : Registry} → Reach r s → IsSound r → IsSound s
Reach-IsSound here h = h
Reach-IsSound (later p st) h = Step-IsSound st (Reach-IsSound p h)
