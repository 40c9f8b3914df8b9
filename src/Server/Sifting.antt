-- ===== src/Server/Sifting.antt =====
-- `std::remove_if` where no connected client stands behind one that is not: it keeps the clients that
-- are connected, and leaves the others behind them as they were.
use yonaa.Base.{
  ℕ, ◌≡◌, ◌≢◌, ◌∙◌, ap, sym, refl, List, [], ◌∷◌, ◌++◌, false, not, some, All, map, filter,
  append-nil, append_assoc, IsDistinct, arith,
}
use yonaa.Os.Events.{Trace}
use yonaa.Os.Outcome.{done}
use yonaa.Poll.Group.{others}
use yonaa.Server.{ClientInfo}
use yonaa.Server.Network.{Slot, has_null, remove_if, in_front}
use yonaa.Server.Disconnecting.{is_mixed, any_connected}

-- What is left of a list when each of the numbers has been taken out.
abbrev pub without : List ℕ → List ℕ → List ℕ
without [] ns = ns
without (g ∷ gs) ns = without gs (others g ns)

others-absent : (g : ℕ) (ns : List ℕ) → All (λ n. n ≢ g) ns → others g ns ≡ ns
others-absent g [] h = refl
others-absent g (n ∷ ns) h = ground (arith, others-absent g ns h.1)

others_self : (g : ℕ) (gs : List ℕ) → All (λ n. n ≢ g) gs → others g (g ∷ gs) ≡ gs
others_self g gs h = ground (arith, others-absent g gs h)

others_other :
    (g k : ℕ) (ks gs : List ℕ)
    → g ≢ k
    → others g (ks ++ (g ∷ gs)) ≡ ks ++ gs
    → others g (k ∷ (ks ++ (g ∷ gs))) ≡ k ∷ (ks ++ gs)
others_other g k ks gs h e = ground arith

All-middle :
    (P : ℕ → Type 0) (g : ℕ) (ks gs : List ℕ) → All P (ks ++ (g ∷ gs)) → P g × All P (ks ++ gs)
All-middle P g [] gs h = h
All-middle P g (k ∷ ks) gs h = let r = All-middle P g ks gs h.1 in (r.0, (h.0, r.1))

pub others-middle :
    (g : ℕ) (ks gs : List ℕ)
    → IsDistinct (ks ++ (g ∷ gs))
    → (others g (ks ++ (g ∷ gs)) ≡ ks ++ gs) × IsDistinct (ks ++ gs)
others-middle g [] gs h = (others_self g gs h.0, h.1)
others-middle g (k ∷ ks) gs h =
    let r = All-middle (λ m. m ≢ k) g ks gs h.0 in
    let m = others-middle g ks gs h.1 in (others_other g k ks gs r.0 m.0, (r.1, m.1))

pub without-append : (ks gs : List ℕ) → IsDistinct (ks ++ gs) → without gs (ks ++ gs) ≡ ks
without-append ks [] h = append-nil ks
without-append ks (g ∷ gs) h =
    let m = others-middle g ks gs h in ap (without gs) m.0 ∙ without-append ks gs m.1

abbrev pub kept_of : List ClientInfo → List ClientInfo
kept_of = filter (λ (c : ClientInfo). c.is_connected)

abbrev pub gone_of : List ClientInfo → List ClientInfo
gone_of = filter (λ (c : ClientInfo). not c.is_connected)

abbrev pub slots : List ClientInfo → List Slot
slots = map some

none_connected :
    (cs : List ClientInfo) → any_connected cs ≡ false → (kept_of cs ≡ []) × (gone_of cs ≡ cs)
none_connected [] h = (refl, refl)
none_connected (c ∷ cs) h = ground (arith, none_connected cs)

pub unmixed-append : (cs : List ClientInfo) → is_mixed cs ≡ false → kept_of cs ++ gone_of cs ≡ cs
unmixed-append [] h = refl
unmixed-append (c ∷ cs) h = ground (arith, unmixed-append cs, none_connected cs)

pub has_null-slots : (cs : List ClientInfo) → has_null (slots cs) ≡ false
has_null-slots [] = refl
has_null-slots (c ∷ cs) = has_null-slots cs

pub in_front-slots : (cs : List ClientInfo) → in_front (slots cs) ≡ cs
in_front-slots [] = refl
in_front-slots (c ∷ cs) = ap (◌∷◌ c) (in_front-slots cs)

remove_if-rest :
    (gap : List Slot) (cs : List ClientInfo) (w : Trace)
    → any_connected cs ≡ false
    → remove_if gap cs w ≡ (done ([], gap ++ slots cs), w)
unfolding remove_if
remove_if-rest gap [] w h = ap (λ xs. (done ([], xs), w)) (sym (append-nil gap))
remove_if-rest gap (c ∷ cs) w h =
    ground
      (arith, remove_if-rest (gap ++ (some c ∷ [])) cs w, append_assoc gap (some c ∷ []) (slots cs))

pub remove_if-unmixed :
    (cs : List ClientInfo) (w : Trace)
    → is_mixed cs ≡ false
    → remove_if [] cs w ≡ (done (kept_of cs, slots (gone_of cs)), w)
unfolding remove_if
remove_if-unmixed [] w h = refl
remove_if-unmixed (c ∷ cs) w h =
    ground (arith, remove_if-unmixed cs w, remove_if-rest (some c ∷ []) cs w, none_connected cs)
