-- ===== src/Buffer/Tests.antt =====
-- Buffers at concrete bytes.
use yonaa.Base.{◌≡◌, ◌≢◌, ◌↔◌, refl, [], ◌∷◌, true, false}
use yonaa.Buffer.{Buffer, size, from_array, equals}
use yonaa.Buffer.Laws.{equals_iff}

abbrev hello : Buffer
hello = record { bytes = b'h' ∷ b'e' ∷ b'y' ∷ [] }

-- A string literal goes into a buffer without its zero byte.
literal : from_array (λ n. 0) 1 4 (b'h' ∷ b'e' ∷ b'y' ∷ 0 ∷ []) ≡ hello
unfolding from_array
literal = refl

equals_self : equals hello hello ≡ false
unfolding equals
equals_self = refl

equals_iff_example :
    (equals hello (record { bytes = b'h' ∷ b'e' ∷ b'x' ∷ [] }) ≡ true)
    ↔ ((3 ≡ size hello) × (hello.bytes ≢ (b'h' ∷ b'e' ∷ b'x' ∷ [])))
equals_iff_example = equals_iff hello (record { bytes = b'h' ∷ b'e' ∷ b'x' ∷ [] })
