-- ===== src/Types/Comparison.antt =====
-- lib/sdotypes.c: the comparison of byte arrays, of hashes and of rendezvous lists. `memcmp_s` of the
-- safe string library is a parameter.
use client_sdk.Base.{
  ℕ, ◌≤◌, ◌<◌, ◌≡◌, ◌↔◌, Bool, true, false, ◌&&◌, not, Option, none, some, Bytes, take, arith, ◌==◌,
}
use client_sdk.Env.{bytes_of}
use client_sdk.Types.{Bits}
use client_sdk.Types.Rendezvous.{Hash, RendezvousList}
use client_sdk.Writer.Arrays.{is_set}

-- `memcmp_s(dest, dmax, src, smax, &diff)` returns 0 with diff = 0.
abbrev pub Memcmp : Type 0
Memcmp = Bytes → ℕ → Bytes → ℕ → Bool

-- Its documented behaviour: it refuses an smax above dmax, and compares smax bytes. A dmax above
-- RSIZE_MAX_MEM, 256 MB, is refused as well.
abbrev pub rsize_max_mem : ℕ
rsize_max_mem = 0x10000000

abbrev pub ComparesBytes : Memcmp → Type 0
ComparesBytes m =
    (dest : Bytes) (dmax : ℕ) (src : Bytes) (smax : ℕ)
    → 0 < smax
    → dmax ≤ rsize_max_mem
    → (m dest dmax src smax ≡ true) ↔ ((smax ≤ dmax) × (take smax dest ≡ take smax src))

-- An array that has a size and a buffer.
abbrev pub is_full : Bits → Bool
is_full b = not (b.byte_sz == 0) && is_set b.bytes

module _ (memcmp_s : Memcmp) where
  unfoldable pub sdo_compare_byte_arrays : Option Bits → Option Bits → Bool
  sdo_compare_byte_arrays none b = false
  sdo_compare_byte_arrays (some a) none = false
  sdo_compare_byte_arrays (some a) (some b) =
      (is_full a && is_full b) && memcmp_s (bytes_of a.bytes) a.byte_sz (bytes_of b.bytes) b.byte_sz

  -- The array of a hash is taken to be there.
  unfoldable pub sdo_compare_hashes : Option Hash → Option Hash → Bool
  sdo_compare_hashes none h2 = false
  sdo_compare_hashes (some h1) none = false
  sdo_compare_hashes (some h1) (some h2) =
      (is_full h1.hash && is_full h2.hash)
      && ((h1.hash_type == h2.hash_type)
          && memcmp_s (bytes_of h1.hash.bytes) h1.hash.byte_sz (bytes_of h2.hash.bytes)
              h2.hash.byte_sz)

  -- The first bytes of one array are the other array, of a size that is not 0.
  abbrev pub BeginsWith : Bits → Bits → Type 0
  BeginsWith a b =
      (0 < b.byte_sz)
      × (b.byte_sz ≤ a.byte_sz)
      × (take b.byte_sz (bytes_of a.bytes) ≡ take b.byte_sz (bytes_of b.bytes))

  -- sdo_compare_hashes returns true for two hashes with buffers exactly if they have the same type
  -- and the bytes of the second, of which there is at least one, are the first bytes of the first.
  -- The first has at most 256 MB, and memcmp_s behaves as documented.
  pub sdo_compare_hashes-BeginsWith :
      (h1 h2 : Hash)
      → ComparesBytes memcmp_s
      → h1.hash.byte_sz ≤ rsize_max_mem
      → is_set h1.hash.bytes ≡ true
      → is_set h2.hash.bytes ≡ true
      → (sdo_compare_hashes (some h1) (some h2) ≡ true)
        ↔ ((h1.hash_type ≡ h2.hash_type) × BeginsWith h1.hash h2.hash)
  unfolding sdo_compare_hashes
  sdo_compare_hashes-BeginsWith h1 h2 law small set1 set2 =
      let same =
        law (bytes_of h1.hash.bytes) h1.hash.byte_sz (bytes_of h2.hash.bytes) h2.hash.byte_sz in
      ground (arith, same, small, set1, set2)

-- The lists themselves are not looked at.
unfoldable pub sdo_compare_rv_lists : Option RendezvousList → Option RendezvousList → Bool
sdo_compare_rv_lists none l2 = false
sdo_compare_rv_lists (some l1) none = false
sdo_compare_rv_lists (some l1) (some l2) = true
