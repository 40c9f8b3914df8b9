-- ===== src/Resolve.antt =====
-- src/resolve.cpp, src/detail/getaddrinfo.cpp and include/yonaa/addresses.hpp.
pub mod Laws
mod Tests
use yonaa.Base.{
  ℕ, List, [], ◌∷◌, ◌&&◌, Bool, true, false, Option, none, some, Bytes, length, map, bit_or, ◌==◌,
  if◌then◌else◌,
}
use yonaa.Os.Constants.{ai_passive, ai_addrconfig}
use yonaa.Os.Events.{Event, AddrInfo}
use yonaa.Os.Platform.{Platform}
use yonaa.Os.Calls.{M, pure, emit, ◌>>=◌, ◌>>◌}
use yonaa.Os.Calls
use yonaa.Os.Outcome.{Thrown, returns, throws}
use yonaa.Endpoint.{Endpoint, from_native_address}

-- "0.0.0.0"
abbrev pub any_address : Bytes
any_address = b'0' ∷ b'.' ∷ b'0' ∷ b'.' ∷ b'0' ∷ b'.' ∷ b'0' ∷ []

-- "127.0.0.1"
abbrev pub loopback_address : Bytes
loopback_address = b'1' ∷ b'2' ∷ b'7' ∷ b'.' ∷ b'0' ∷ b'.' ∷ b'0' ∷ b'.' ∷ b'1' ∷ []

-- `==` of two strings
abbrev pub string_eq : Bytes → Bytes → Bool
string_eq [] [] = true
string_eq [] (d ∷ ds) = false
string_eq (c ∷ cs) [] = false
string_eq (c ∷ cs) (d ∷ ds) = c == d && string_eq cs ds

-- The pointer that `getaddrinfo` returns: null, which is `none`, after a failure, and also where the
-- linked list is empty.
abbrev pub target_info : Option (List AddrInfo) → Option (List AddrInfo)
target_info none = none
target_info (some []) = none
target_info (some (ai ∷ ais)) = some (ai ∷ ais)

module _ (P : Platform) where
  -- `detail::gai::getaddrinfo`: for the address of all interfaces no host is named.
  unfoldable pub getaddrinfo : Bytes → Bytes → M (Option (List AddrInfo))
  getaddrinfo hostname service = do
    let use_inaddr_any = string_eq hostname any_address
    gai_result ←
        Calls.getaddrinfo P (if use_inaddr_any then none else some hostname) service
          (bit_or ai_addrconfig (if use_inaddr_any then ai_passive else 0))
    pure (target_info gai_result)

  -- The loop of `resolve` over the linked list.
  unfoldable pub endpoint_of : AddrInfo → Endpoint
  endpoint_of ai = from_native_address P ai.ai_protocol ai.ai_addr (length ai.ai_addr)

  -- `resolve(hostname, service, ec)`
  unfoldable pub resolve : Bytes → Bytes → ℕ → M (List Endpoint × ℕ)
  unfolding getaddrinfo endpoint_of
  resolve hostname service ec = do
    target ← getaddrinfo hostname service
    elim target [
      | none ↦ pure ([], 3)
      | some ais ↦ do emit Event.freeaddrinfo; pure (map endpoint_of ais, ec)
    ]

  -- `resolve(hostname, service)`
  unfoldable pub resolve_or_throw : Bytes → Bytes → M (Thrown (List Endpoint))
  unfolding resolve
  resolve_or_throw hostname service = do
    (result, ec) ← resolve hostname service 0
    pure (if ec == 0 then returns result else throws ec)
