-- ===== src/Types/Reading.antt =====
-- lib/sdotypes.c: the reading of typed values, each an action on the reader. An object that a failed
-- read leaves half filled is freed or given up by every caller, and is not modelled. Lengths are taken
-- to be below 2^31, where an int holds them.
pub mod Receive
use client_sdk.Base.{
  ℕ, ◌+◌, ◌%◌, Bool, true, false, ◌&&◌, ◌||◌, not, Option, none, some, List, [], ◌∷◌, Bytes, codes,
  length, ltb, ◌==◌, if◌then◌else◌,
}
use client_sdk.Act.{Act, ◌>>=◌, ◌>>◌, pure, guard, modify, gets, from, tested}
use client_sdk.Base64.{bin_to_b64_length}
use client_sdk.Env.{Env}
use client_sdk.Reader.{
  Sdor, sdor_begin_sequence, sdor_end_sequence, sdor_begin_object, sdor_end_object, sdor_flush,
  sdo_read_uint, sdo_read_string, sdo_read_string_sz,
}
use client_sdk.Reader.Fields.{sdo_read_expected_tag, sdo_read_byte_array_field}
use client_sdk.Rest.{IpAddress}
use client_sdk.Types.{Bits, sdo_bits_alloc}
use client_sdk.Types.ByteArray.{sdo_byte_array_read_chars}
use client_sdk.Types.Rendezvous.{Hash}

-- SDO_PK_ALGO of the build with ECDSA over P-256.
abbrev pub sdo_pk_algo : ℕ
sdo_pk_algo = 13

-- Steps that return no failure.
abbrev pub step : (Sdor → Sdor) → Act Sdor Unit
step f = modify f

abbrev pub returning : {A : Type 0} → (Sdor → Sdor × A) → Act Sdor A
returning f r = let got = f r in (got.0, some got.1)

abbrev pub begin_sequence : Act Sdor Unit
begin_sequence = tested sdor_begin_sequence

abbrev pub end_sequence : Act Sdor Unit
end_sequence = tested sdor_end_sequence

abbrev pub begin_object : Act Sdor Unit
begin_object = tested sdor_begin_object

abbrev pub end_object : Act Sdor Unit
end_object = tested sdor_end_object

unfoldable pub uint : Act Sdor ℕ
uint = returning sdo_read_uint

unfoldable pub string_sz : Act Sdor ℕ
string_sz = returning sdo_read_string_sz

-- The length that a string has, and what the buffer holds of it.
unfoldable pub string : ℕ → Act Sdor (ℕ × Option Bytes)
string buf_sz r = let got = sdo_read_string r buf_sz in (got.0, some (got.1, got.2))

module _ (e : Env) where
  abbrev pub tag : Bytes → Act Sdor Unit
  tag name = tested (λ r. sdo_read_expected_tag e r name)

  -- The bytes of a field, of which there have to be some.
  unfoldable pub field : ℕ → ℕ → Act Sdor Bytes
  field b64_sz buf_sz = returning (λ r. sdo_read_byte_array_field e r b64_sz buf_sz)

  unfoldable pub sdo_byte_array_read : Act Sdor Bits
  unfolding uint field
  sdo_byte_array_read = do
    n ← uint
    guard (not (bin_to_b64_length n == 0))
    guard (e.alloc (n + 3))
    bs ← field (bin_to_b64_length n) (n + 3)
    guard (not (length bs == 0))
    pure (record { byte_sz = length bs; bytes = some bs })

  chars_or_none : Sdor × Bits × ℕ → Sdor × Option Bits
  chars_or_none (r, ba, n) = (r, if n == 0 then none else some ba)

  -- `sdo_byte_array_read_chars` into an array, where 0 is a failure.
  unfoldable pub read_chars : Bits → Act Sdor Bits
  unfolding chars_or_none
  read_chars ba r = chars_or_none (sdo_byte_array_read_chars e r ba)

  unfoldable pub array_allocated : ℕ → Bool
  array_allocated n = elim (sdo_bits_alloc e n) [ none ↦ false | some b ↦ true ]

  -- The flag says that the hash has an array already. The result 0 is a failure.
  unfoldable pub sdo_hash_read : Bool → Act Sdor Hash
  unfolding uint string_sz field array_allocated
  sdo_hash_read has_array = do
    begin_sequence
    n ← uint
    hash_type ← uint
    guard (has_array || array_allocated 8)
    b64 ← string_sz
    guard (not (b64 == 0) && b64 % 4 == 0)
    guard (b64 == bin_to_b64_length n)
    guard (e.alloc (n + 3))
    bs ← field b64 (n + 3)
    end_sequence
    guard (not (length bs == 0))
    pure (record { hash_type = hash_type; hash = record { byte_sz = length bs; bytes = some bs } })

  -- The length is a uint8_t, and `memcpy_s` refuses more bytes than it says. The 16 bytes of `addr` are
  -- not looked at: more bytes are written behind them.
  unfoldable pub sdo_read_ipaddress : Act Sdor IpAddress
  unfolding sdo_byte_array_read array_allocated
  sdo_read_ipaddress = do
    guard (array_allocated 0)
    begin_sequence
    ip ← sdo_byte_array_read
    guard (ip.byte_sz % 256 == ip.byte_sz)
    end_sequence
    pure (record { length = ip.byte_sz; addr = elim ip.bytes [ none ↦ [] | some bs ↦ bs ] })

  -- A name that is read where there is memory; an empty one is freed again.
  unfoldable pub sdo_read_dns : Act Sdor (Option Bytes)
  unfolding string_sz string
  sdo_read_dns = do
    len ← string_sz
    if e.alloc (len + 1)
        then (string (len + 1) >>= λ got. pure (if len == 0 then none else got.1))
        else pure none

  -- `"eB":[13,0,""]`. The buffer has one byte, whatever the length that is read says.
  unfoldable pub sdo_eb_read : Act Sdor Unit
  unfolding uint string
  sdo_eb_read = do
    begin_sequence
    type ← uint
    guard (type % 256 == sdo_pk_algo)
    len ← uint
    got ← string (len % 256)
    guard (len % 256 == 0 && got.0 % 256 == 0)
    end_sequence
