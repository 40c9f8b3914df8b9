-- ===== src/Buffer/Laws.antt =====
-- What a buffer holds after each operation, and what its `operator==` decides.
use yonaa.Base.{
  ℕ, zero, suc, ◌-◌, ◌≤◌, ◌≡◌, ◌≢◌, ◌↔◌, ◌⊎◌, refl, ap, [], ◌∷◌, true, Bytes, arith, length, take,
  replicate, length-replicate, append-nil,
}
use yonaa.Base.Memory.{read_all, memcmp_iff}
use yonaa.Buffer.{Buffer, size, from_string, resize, resize_vector, str, equals}

pub Buffer-eq : (a b : Buffer) → a.bytes ≡ b.bytes → a ≡ b
Buffer-eq a b e = λ i. record { bytes = e i }

-- Two buffers are reported equal exactly when they have one size and differ: the comparison is the
-- wrong way round.
pub equals_iff : (a b : Buffer) → (equals a b ≡ true) ↔ ((size a ≡ size b) × (a.bytes ≢ b.bytes))
unfolding equals
equals_iff a b = ground (arith, memcmp_iff a.bytes b.bytes)

-- `resize_vector` by recursion: the bytes are kept as far as the size goes, then zeros follow.
resized : Bytes → ℕ → Bytes
resized [] n = replicate n 0
resized (b ∷ bs) zero = []
resized (b ∷ bs) (suc n) = b ∷ resized bs n

resize_vector-eq-resized : (bs : Bytes) (n : ℕ) → resize_vector bs n ≡ resized bs n
unfolding resized
resize_vector-eq-resized [] zero = refl
resize_vector-eq-resized [] (suc n) = ground arith
resize_vector-eq-resized (b ∷ bs) zero = ground arith
resize_vector-eq-resized (b ∷ bs) (suc n) = ground (arith, resize_vector-eq-resized bs n)

length-resized : (bs : Bytes) (n : ℕ) → length (resized bs n) ≡ n
unfolding resized
length-resized [] n = length-replicate {A = ℕ} n 0
length-resized (b ∷ bs) zero = refl
length-resized (b ∷ bs) (suc n) = ap suc (length-resized bs n)

pub length-resize_vector : (bs : Bytes) (n : ℕ) → length (resize_vector bs n) ≡ n
length-resize_vector bs n = rw resize_vector-eq-resized (length-resized bs n)

resized-replicate : (n m : ℕ) → resized (replicate n 0) m ≡ replicate m 0
unfolding resized
resized-replicate zero m = refl
resized-replicate (suc n) zero = refl
resized-replicate (suc n) (suc m) = ap (◌∷◌ 0) (resized-replicate n m)

resized-resized :
    (bs : Bytes) (n m : ℕ) → (m ≤ n) ⊎ (length bs ≤ n) → resized (resized bs n) m ≡ resized bs m
unfolding resized
resized-resized [] n m h = resized-replicate n m
resized-resized (b ∷ bs) zero zero h = refl
resized-resized (b ∷ bs) zero (suc m) h = absurd (omega arith)
resized-resized (b ∷ bs) (suc n) zero h = refl
resized-resized (b ∷ bs) (suc n) (suc m) h = ap (◌∷◌ b) (resized-resized bs n m (omega arith))

-- A buffer has the size that it was given last, and an earlier size leaves no trace if it cut off
-- nothing that the last one keeps.
resize-resize :
    (b : Buffer) (n m : ℕ)
    → (m ≤ n) ⊎ (size b ≤ n)
    → (size (resize (resize b n) m) ≡ m) × (resize (resize b n) m ≡ resize b m)
unfolding resize
resize-resize b n m h = (
  length-resize_vector (resize b n).bytes m,
  Buffer-eq _ _ (simp resize_vector-eq-resized (resized-resized b.bytes n m h)),
)

-- Shrinking a buffer keeps its first bytes.
pub bytes-resize : (b : Buffer) (n : ℕ) → n ≤ size b → (resize b n).bytes ≡ take n b.bytes
unfolding resize
bytes-resize b n h = rw (zeros (n - size b) (omega arith)) (append-nil (take n b.bytes))
  where
    zeros : (k : ℕ) → k ≡ 0 → replicate {A = ℕ} k 0 ≡ []
    zeros k e = ap (λ (j : ℕ). replicate {A = ℕ} j 0) e

-- A string goes into a buffer and comes back unchanged, its zero bytes included.
str-from_string : (stray : ℕ → ℕ) (s : Bytes) → str stray (from_string stray s) ≡ s
unfolding str from_string
str-from_string stray s = simp read_all
