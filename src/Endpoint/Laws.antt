-- ===== src/Endpoint/Laws.antt =====
-- What an endpoint keeps of the native address that it was made from, and what its `operator==`
-- decides.
use yonaa.Base.{
  ℕ, ◌/◌, ◌%◌, ◌≤◌, ◌≡◌, ◌↔◌, ◌∙◌, refl, ap, [], ◌∷◌, ◌++◌, true, Bytes, arith, length, take,
  drop_all, append-nil, length-take,
}
use yonaa.Base.Memory.{read, read_all, read-eq-take, memcmp_iff}
use yonaa.Buffer.Laws.{length-resize_vector}
use yonaa.Os.Platform.{Platform}
use yonaa.Endpoint.{Endpoint, size, from_native_address, family, get_port, equals}

module _ (P : Platform) where
  -- An endpoint holds the bytes of the native address that it was made from.
  pub bytes-from_native_address :
      (protocol : ℕ) (addr : Bytes) (n : ℕ)
      → (from_native_address P protocol addr n).storage.bytes ≡ read P.stray n addr
  unfolding from_native_address
  bytes-from_native_address protocol addr n =
      ap (◌++◌ (read P.stray n addr)) (drop_all n _ (omega (arith, length-resize_vector [] n)))
      ∙ append-nil _

  -- A native address begins with its family in the host's byte order and its port in the network's.
  abbrev pub native_address : ℕ → ℕ → Bytes → Bytes
  native_address f p rest = (f % 256) ∷ (f / 256) ∷ (p / 256) ∷ (p % 256) ∷ rest

  -- The address, its family, its port and the protocol are read back from the endpoint made of them.
  pub from_native_address_fields :
      (protocol f p : ℕ) (rest : Bytes)
      → let a = native_address f p rest in
        let e = from_native_address P protocol a (length a) in
        (e.storage.bytes ≡ a) × (family P e ≡ f) × (get_port P e ≡ p) × (e.protocol ≡ protocol)
  unfolding family get_port from_native_address
  from_native_address_fields protocol f p rest =
      let a = native_address f p rest in
      let e = from_native_address P protocol a (length a) in
      let stored : (e.storage.bytes ≡ a) =
        bytes-from_native_address protocol a (length a) ∙ read_all P.stray a in
      (stored, omega arith, omega arith, refl)

  -- An endpoint equals one that is not shorter when the bytes of the left one begin the bytes of
  -- the right one. Neither the protocol nor what else the right one holds is compared.
  pub equals_prefix_iff :
      (e other : Endpoint)
      → size e ≤ size other
      → (equals P e other ≡ true) ↔ (e.storage.bytes ≡ take (size e) other.storage.bytes)
  unfolding equals
  equals_prefix_iff e other h =
      rw (read_all, read-eq-take)
        (ground (
          arith,
          memcmp_iff e.storage.bytes (take (size e) other.storage.bytes)
              (omega (arith, length-take (size e) other.storage.bytes)),
        ))
