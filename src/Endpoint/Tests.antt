-- ===== src/Endpoint/Tests.antt =====
-- Endpoints at concrete native addresses.
use yonaa.Base.{◌≡◌, ◌↔◌, refl, [], ◌∷◌, ◌++◌, true, take, arith}
use yonaa.Base.Decimal.{to_string}
use yonaa.Os.Sample.{sample, sample_name, sample_text}
use yonaa.Endpoint.{Endpoint, equals, family, get_port, port, str, from_native_address}
use yonaa.Endpoint.Laws.{from_native_address_fields, equals_prefix_iff}
use yonaa.Endpoint.Text.{str-inet}

-- 127.0.0.1:5000, and the same bytes with another protocol and more after them.
abbrev local : Endpoint
local = record { protocol = 6; storage = record { bytes = sample_name } }

abbrev longer : Endpoint
longer = record { protocol = 0; storage = record { bytes = sample_name ++ (9 ∷ []) } }

abbrev local6 : Endpoint
local6 = record {
  protocol = 6;
  storage = record { bytes = 10 ∷ 0 ∷ 19 ∷ 136 ∷ 0 ∷ 0 ∷ 0 ∷ 0 ∷ 32 ∷ 1 ∷ 13 ∷ 184 ∷ [] };
}

family-local : family sample local ≡ 2
unfolding family
family-local = refl

family-local6 : family sample local6 ≡ 10
unfolding family
family-local6 = refl

port_local : port sample local ≡ b'5' ∷ b'0' ∷ b'0' ∷ b'0' ∷ []
unfolding port family to_string
port_local = refl

from_native_address_fields_example :
    let e = from_native_address sample 6 (2 ∷ 0 ∷ 19 ∷ 136 ∷ 7 ∷ []) 5 in
    (e.storage.bytes ≡ 2 ∷ 0 ∷ 19 ∷ 136 ∷ 7 ∷ [])
    × (family sample e ≡ 2)
    × (get_port sample e ≡ 5000)
    × (e.protocol ≡ 6)
from_native_address_fields_example = from_native_address_fields sample 6 2 5000 (7 ∷ [])

equals_prefix_iff_example :
    (equals sample local longer ≡ true) ↔ (sample_name ≡ take 8 longer.storage.bytes)
equals_prefix_iff_example = equals_prefix_iff sample local longer (omega arith)

str-inet_example :
    str sample local
    ≡ ((b'1' ∷ b'2' ∷ b'7' ∷ b'.' ∷ b'0' ∷ b'.' ∷ b'0' ∷ b'.' ∷ b'1' ∷ [])
        ++ (0 ∷ 0 ∷ 0 ∷ 0 ∷ 0 ∷ 0 ∷ 0 ∷ []))
      ++ (b':' ∷ to_string (get_port sample local))
str-inet_example = str-inet sample local sample_text family-local refl (omega arith)
