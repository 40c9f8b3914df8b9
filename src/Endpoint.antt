-- ===== src/Endpoint.antt =====
-- include/yonaa/endpoint.hpp, src/endpoint.cpp and src/detail/sockaddr_ops.cpp.
pub mod Laws
pub mod Text
mod Tests
use yonaa.Base.{
  ℕ, ◌+◌, ◌*◌, List, [], ◌∷◌, ◌++◌, Bool, true, false, Option, none, some, Bytes, Ordering, drop,
  length, ◌==◌, if◌then◌else◌,
}
use yonaa.Base.Memory.{read, memcpy, memcmp}
use yonaa.Base.Decimal.{to_string}
use yonaa.Buffer.{Buffer, of_size}
use yonaa.Buffer
use yonaa.Os.Constants.{
  af_inet, af_inet6, inet_addrstrlen, inet6_addrstrlen, sockaddr_storage_size, sin_addr_offset,
  sin6_addr_offset,
}
use yonaa.Os.Platform.{Platform}

pub record Endpoint : Type 0 where
  pub protocol : ℕ
  pub storage : Buffer

-- `endpoint()`
unfoldable pub empty : Endpoint
unfolding of_size
empty = record { protocol = 0; storage = of_size sockaddr_storage_size }

-- `endpoint::size`
abbrev pub size : Endpoint → ℕ
size e = Buffer.size e.storage

-- A 16-bit number in the byte order of the host, lowest byte first; `ntohs` reads the other order.
abbrev pub host_u16 : Bytes → ℕ
host_u16 [] = 0
host_u16 (a ∷ []) = a
host_u16 (a ∷ b ∷ _) = a + 256 * b

abbrev pub network_u16 : Bytes → ℕ
network_u16 [] = 0
network_u16 (a ∷ []) = a
network_u16 (a ∷ b ∷ _) = 256 * a + b

module _ (P : Platform) where
  -- The `n` bytes from an offset in the native address.
  abbrev pub field : Endpoint → ℕ → ℕ → Bytes
  field e offset n = drop offset (read P.stray (offset + n) e.storage.bytes)

  unfoldable pub from_native_address : ℕ → Bytes → ℕ → Endpoint
  unfolding of_size
  from_native_address protocol addr addr_size = record {
    protocol = protocol;
    storage = record { bytes = memcpy P.stray (of_size addr_size).bytes addr addr_size };
  }

  -- `data()->sa_family`
  unfoldable pub family : Endpoint → ℕ
  family e = host_u16 (field e 0 2)

  -- `sockaddr_ops::get_in_addr`: the pointer, as an offset in the native address.
  unfoldable pub get_in_addr : Endpoint → ℕ
  get_in_addr e = if family e == af_inet then sin_addr_offset else sin6_addr_offset

  -- `sockaddr_ops::get_port`
  unfoldable pub get_port : Endpoint → ℕ
  get_port e = network_u16 (field e 2 2)

  -- The buffer after `inet_ntop`: the text and a zero byte, or unchanged if the call failed.
  abbrev pub written : Bytes → Option Bytes → Bytes
  written dst none = dst
  written dst (some text) = memcpy P.stray dst (text ++ 0 ∷ []) (length text + 1)

  -- The first `n` bytes of the text buffer that `addr` fills in.
  abbrev pub addr_text : Endpoint → Bytes
  addr_text e =
      written (of_size inet6_addrstrlen).bytes
        (P.inet_ntop af_inet (drop (get_in_addr e) e.storage.bytes) inet6_addrstrlen)

  abbrev invalid : Bytes
  invalid = b'I' ∷ b'N' ∷ b'V' ∷ b'A' ∷ b'L' ∷ b'I' ∷ b'D' ∷ []

  -- `endpoint::addr`. The numbers after `buffer.data()` are the lengths of the strings.
  unfoldable pub addr : Endpoint → Bytes
  unfolding get_in_addr of_size
  addr e =
      if family e == af_inet
      then read P.stray inet_addrstrlen (addr_text e)
      else if family e == af_inet6
      then read P.stray inet6_addrstrlen (addr_text e)
      else invalid

  unfoldable pub port : Endpoint → Bytes
  unfolding get_port
  port e =
      if family e == af_inet
      then to_string (get_port e)
      else if family e == af_inet6
      then to_string (get_port e)
      else invalid

  -- `endpoint::str`
  pub str : Endpoint → Bytes
  str e =
      if family e == af_inet
      then addr e ++ (b':' ∷ port e)
      else if family e == af_inet6
      then (b'[' ∷ addr e) ++ (b']' ∷ b':' ∷ port e)
      else invalid ++ (b':' ∷ invalid)

  abbrev is_zero : Ordering → Bool
  is_zero Ordering.eq = true
  is_zero _ = false

  -- `operator==`: `memcmp` of the first `size()` bytes at both pointers.
  unfoldable pub equals : Endpoint → Endpoint → Bool
  equals e other =
      is_zero
        (memcmp (read P.stray (size e) e.storage.bytes) (read P.stray (size e) other.storage.bytes))
