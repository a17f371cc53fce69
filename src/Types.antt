-- ===== src/Types.antt =====
-- lib/sdotypes.c: bits, which are also the byte arrays, and strings. The two structs have the same
-- fields, and `sdo_kv_alloc_with_array` uses one as the other, so they are one record here. Pointers
-- that a function checks for null are options; the buffers come from `sdo_alloc`, which clears them.
-- A C string argument is the list of its characters in front of the terminator.
pub mod ByteArray
pub mod ServiceInfo
pub mod Modules
pub mod Rendezvous
pub mod Comparison
pub mod Reading
pub mod Keys
pub mod Signature
pub mod Packet
use client_sdk.Base.{
  ℕ, zero, suc, ◌+◌, Bool, true, false, ◌||◌, Option, none, some, [], ◌∷◌, ◌++◌, Bytes, length,
  take, replicate, ltb, ◌==◌, if◌then◌else◌,
}
use client_sdk.Env.{Env, bytes_of}
use client_sdk.Reader.{Sdor, sdo_read_string, sdo_read_string_sz}

pub record Bits : Type 0 where
  pub byte_sz : ℕ
  pub bytes : Option Bytes

abbrev pub SdoString : Type 0
SdoString = Bits

abbrev pub sdo_max_str_size : ℕ
sdo_max_str_size = 512

-- The size of the struct on a 64-bit target.
abbrev bits_size : ℕ
bits_size = 16

-- `strnlen_s` of a string.
abbrev pub strnlen_s : Bytes → ℕ → ℕ
strnlen_s s max = if ltb (length s) max then length s else max

-- A length that the checks behind `strnlen_s` refuse.
abbrev pub bad_length : ℕ → Bool
bad_length n = n == 0 || n == sdo_max_str_size

-- The struct is cleared to start with.
abbrev pub no_bits : Bits
no_bits = record { byte_sz = 0; bytes = none }

unfoldable pub sdo_bits_empty : Bits → Bits
sdo_bits_empty b = no_bits

unfoldable pub sdo_string_init : SdoString → SdoString
sdo_string_init b = no_bits

module _ (e : Env) where
  unfoldable pub sdo_bits_init : Bits → ℕ → Option Bits
  sdo_bits_init b zero = some no_bits
  sdo_bits_init b (suc n) =
      if e.alloc (suc n)
      then some (record { byte_sz = suc n; bytes = some (replicate (suc n) 0) })
      else none

  unfoldable pub sdo_bits_alloc : ℕ → Option Bits
  unfolding sdo_bits_init
  sdo_bits_alloc n =
      if e.alloc bits_size then if ltb 0 n then sdo_bits_init no_bits n else some no_bits else none

  unfoldable pub sdo_bits_fill : Bits → Bits × Bool
  sdo_bits_fill b =
      if e.alloc b.byte_sz
      then (record b { bytes = some (replicate b.byte_sz 0) }, true)
      else (record b { bytes = none }, false)

  unfoldable pub sdo_bits_resize : Bits → ℕ → Bits × Bool
  unfolding sdo_bits_empty sdo_bits_fill
  sdo_bits_resize b n = sdo_bits_fill (record (sdo_bits_empty b) { byte_sz = n })

  -- `memcpy_s` fails on a null pointer.
  copied : Bits × Bool → Option Bytes → Option Bits
  copied (b, false) src = none
  copied (b, true) none = none
  copied (b, true) (some src) = some (record b { bytes = some (take b.byte_sz src) })

  fill_and_copy : Option Bits → Option Bytes → Option Bits
  unfolding sdo_bits_fill copied
  fill_and_copy none src = none
  fill_and_copy (some b) src = copied (sdo_bits_fill b) src

  unfoldable pub sdo_bits_alloc_with : ℕ → Option Bytes → Option Bits
  unfolding sdo_bits_alloc fill_and_copy
  sdo_bits_alloc_with n src = fill_and_copy (sdo_bits_alloc n) src

  unfoldable pub sdo_bits_clone : Option Bits → Option Bits
  unfolding sdo_bits_alloc_with
  sdo_bits_clone none = none
  sdo_bits_clone (some b) = sdo_bits_alloc_with b.byte_sz b.bytes

  -- The two copies into a new array, each of which fails on a null pointer.
  join : Option Bits → Bits → Bits → Option Bits
  join none a b = none
  join (some ab) a b = elim ab.bytes [
    | none ↦ none
    | some room ↦ elim a.bytes [
      | none ↦ none
      | some xs ↦ elim b.bytes [
        | none ↦ none
        | some ys ↦ some (record ab { bytes = some (take a.byte_sz xs ++ take b.byte_sz ys) })
      ]
    ]
  ]

  unfoldable pub sdo_byte_array_append : Option Bits → Option Bits → Option Bits
  unfolding join sdo_bits_alloc
  sdo_byte_array_append none b = none
  sdo_byte_array_append (some a) none = none
  sdo_byte_array_append (some a) (some b) = join (sdo_bits_alloc (a.byte_sz + b.byte_sz)) a b

  -- The string with a terminator behind it.
  unfoldable pub sdo_string_alloc_with : Option Bytes → ℕ → Option SdoString
  sdo_string_alloc_with none n = none
  sdo_string_alloc_with (some s) n =
      if e.alloc bits_size
      then if e.alloc (n + 1)
        then some (record { byte_sz = n + 1; bytes = some (take n s ++ 0 ∷ []) })
        else none
      else none

  unfoldable pub sdo_string_alloc_with_str : Option Bytes → Option SdoString
  unfolding sdo_string_alloc_with
  sdo_string_alloc_with_str none = none
  sdo_string_alloc_with_str (some s) =
      if strnlen_s s sdo_max_str_size == sdo_max_str_size
      then none
      else sdo_string_alloc_with (some s) (strnlen_s s sdo_max_str_size)

  unfoldable pub sdo_string_resize : SdoString → ℕ → SdoString × Bool
  sdo_string_resize b zero = (no_bits, true)
  sdo_string_resize b (suc n) =
      if e.alloc (suc n)
      then (record { byte_sz = suc n; bytes = some (replicate (suc n) 0) }, true)
      else (record { byte_sz = suc n; bytes = none }, false)

  -- The copy, where the buffer is there; the byte behind it is 0 already.
  unfoldable pub filled : SdoString × Bool → ℕ → Bytes → SdoString × Bool
  filled (b, false) n src = (b, false)
  filled (b, true) n src = (record b { bytes = some (take n src ++ 0 ∷ []) }, true)

  unfoldable pub sdo_string_resize_with : SdoString → ℕ → Bytes → SdoString × Bool
  unfolding sdo_string_resize filled
  sdo_string_resize_with b n src = filled (sdo_string_resize b (suc n)) n src

  -- What is read goes into the buffer with a terminator behind it.
  store_text : SdoString → Option Bytes → SdoString
  store_text b none = b
  store_text b (some s) = record b { bytes = some (s ++ 0 ∷ []) }

  read_into : Sdor → SdoString × Bool → Sdor × (SdoString × Bool)
  unfolding store_text
  read_into r (b, false) = (r, (b, false))
  read_into r (b, true) =
      let got = sdo_read_string r b.byte_sz in (got.0, (store_text b got.2, true))

  unfoldable pub sdo_string_read : Sdor → SdoString → Sdor × (SdoString × Bool)
  unfolding read_into sdo_string_resize
  sdo_string_read r b =
      let sized = sdo_read_string_sz r in
      read_into sized.0 (sdo_string_resize (sdo_string_init b) (sized.1 + 1))
