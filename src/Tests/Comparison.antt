-- ===== src/Tests/Comparison.antt =====
-- An example of the comparison of hashes: a hash of three bytes and one of its first two.
use client_sdk.Base.{◌≡◌, ◌↔◌, refl, true, ◌&&◌, some, [], ◌∷◌, arith, leb, take}
use client_sdk.Types.Rendezvous.{Hash}
use client_sdk.Types.Comparison.{
  Memcmp, ComparesBytes, BeginsWith, sdo_compare_hashes, sdo_compare_hashes-BeginsWith,
}
use client_sdk.Tests.{same_bytes, same_bytes-lem}

abbrev pub memcmp : Memcmp
memcmp dest dmax src smax = leb smax dmax && same_bytes (take smax dest) (take smax src)

pub memcmp-ComparesBytes : ComparesBytes memcmp
memcmp-ComparesBytes dest dmax src smax some_bytes small =
    ground (arith, same_bytes-lem (take smax dest) (take smax src))

abbrev whole : Hash
whole = record { hash_type = 8; hash = record { byte_sz = 3; bytes = some (1 ∷ 2 ∷ 3 ∷ []) } }

abbrev part : Hash
part = record { hash_type = 8; hash = record { byte_sz = 2; bytes = some (1 ∷ 2 ∷ []) } }

sdo_compare_hashes-BeginsWith_example :
    (sdo_compare_hashes memcmp (some whole) (some part) ≡ true)
    ↔ ((whole.hash_type ≡ part.hash_type) × BeginsWith memcmp whole.hash part.hash)
sdo_compare_hashes-BeginsWith_example =
    sdo_compare_hashes-BeginsWith memcmp whole part memcmp-ComparesBytes (omega arith) refl refl
