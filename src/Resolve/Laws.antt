-- ===== src/Resolve/Laws.antt =====
-- What `resolve` makes of the addresses that it gets.
use yonaa.Base.{
  ℕ, ◌≡◌, ◌∙◌, ap, refl, List, [], ◌∷◌, Bytes, Option, some, none, inl, inr, map, length,
  Option-cases,
}
use yonaa.Base.Memory.{read_all}
use yonaa.Os.Events.{Trace, AddrInfo}
use yonaa.Os.Platform.{Platform}
use yonaa.Endpoint.{Endpoint}
use yonaa.Endpoint.Laws.{bytes-from_native_address}
use yonaa.Resolve.{getaddrinfo, resolve, endpoint_of}

abbrev addresses : Option (List AddrInfo) → List Bytes
addresses none = []
addresses (some ais) = map (λ (ai : AddrInfo). ai.ai_addr) ais

module _ (P : Platform) where
  bytes-endpoint_of :
      (ais : List AddrInfo)
      → map (λ (e : Endpoint). e.storage.bytes) (map (endpoint_of P) ais) ≡ addresses (some ais)
  unfolding endpoint_of
  bytes-endpoint_of [] = refl
  bytes-endpoint_of (ai ∷ ais) =
      ap (λ b. b ∷ map (λ (e : Endpoint). e.storage.bytes) (map (endpoint_of P) ais))
        (bytes-from_native_address P ai.ai_protocol ai.ai_addr (length ai.ai_addr)
          ∙ read_all P.stray ai.ai_addr)
      ∙ ap (◌∷◌ ai.ai_addr) (bytes-endpoint_of ais)

  -- The endpoints that come out of `resolve` hold the addresses that `getaddrinfo` gave, byte for
  -- byte and in their order, and there is none where it failed.
  pub resolve-addresses :
      (hostname service : Bytes) (ec : ℕ) (w : Trace)
      → map (λ (e : Endpoint). e.storage.bytes) (resolve P hostname service ec w).0.0
        ≡ addresses (getaddrinfo P hostname service w).0
  unfolding resolve
  resolve-addresses hostname service ec w =
      elim (Option-cases (getaddrinfo P hostname service w).0) [
        | inl h ↦ rw (h, resolve) refl
        | inr (ais, h) ↦ rw (h, resolve) (bytes-endpoint_of ais)
      ]
