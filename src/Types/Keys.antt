-- ===== src/Types/Keys.antt =====
-- lib/sdotypes.c: public keys.
pub mod Receive
use client_sdk.Base.{
  ℕ, ◌+◌, Bool, true, false, ◌&&◌, not, Option, none, some, codes, ◌==◌, if◌then◌else◌,
}
use client_sdk.Act.{Act, ◌>>=◌, ◌>>◌, pure, guard, modify, gets}
use client_sdk.Env.{Env, bytes_of}
use client_sdk.Reader.{Sdor, sdor_peek, sdor_end_sequence}
use client_sdk.Reader.Fields.{sdor_read_and_ignore_until_end_sequence}
use client_sdk.Types.{Bits, sdo_bits_alloc_with}
use client_sdk.Types.Comparison.{Memcmp}
use client_sdk.Types.Reading.{
  begin_sequence, end_sequence, step, uint, tag, sdo_byte_array_read, array_allocated,
}
use client_sdk.Writer.{Sdow, sdow_begin_sequence, sdow_end_sequence, sdo_write_uint}
use client_sdk.Writer.Arrays.{sdo_write_byte_array}

pub record PublicKey : Type 0 where
  pub pkalg : ℕ
  pub pkenc : ℕ
  pub key1 : Option Bits
  pub key2 : Option Bits

-- The size of the struct on a 64-bit target.
abbrev public_key_size : ℕ
public_key_size = 24

-- `SDO_CRYPTO_PUB_KEY_ENCODING_RSA_MOD_EXP`.
abbrev rsa_mod_exp : ℕ
rsa_mod_exp = 3

module _ (memcmp_s : Memcmp) where
  same_array : Bits → Bits → Bool
  same_array a b = memcmp_s (bytes_of a.bytes) a.byte_sz (bytes_of b.bytes) b.byte_sz

  -- Second parts are compared where both keys have one.
  same_second : Option Bits → Option Bits → Bool
  unfolding same_array
  same_second none b = true
  same_second (some a) none = true
  same_second (some a) (some b) = same_array a b

  same_keys : PublicKey → PublicKey → Option Bits → Option Bits → Bool
  unfolding same_array same_second
  same_keys pk1 pk2 none b = false
  same_keys pk1 pk2 (some a) none = false
  same_keys pk1 pk2 (some a) (some b) =
      ((not (pk1.pkenc == 0) && not (pk2.pkenc == 0))
        && (not (pk1.pkalg == 0) && not (pk2.pkalg == 0)))
      && ((pk1.pkalg == pk2.pkalg && pk1.pkenc == pk2.pkenc)
          && (same_array a b && same_second pk1.key2 pk2.key2))

  unfoldable pub sdo_compare_public_keys : Option PublicKey → Option PublicKey → Bool
  unfolding same_keys
  sdo_compare_public_keys none pk2 = false
  sdo_compare_public_keys (some pk1) none = false
  sdo_compare_public_keys (some pk1) (some pk2) = same_keys pk1 pk2 pk1.key1 pk2.key1

-- The result of the action; where it fails a function is applied to the state, and the result is null.
unfoldable pub null_at_failure : {S A : Type 0} → (S → S) → S × Option A → S × Option (Option A)
null_at_failure f (s, some a) = (s, some (some a))
null_at_failure f (s, none) = (f s, some none)

unfoldable pub or_null : {S A : Type 0} → Act S A → (S → S) → Act S (Option A)
unfolding null_at_failure
or_null m f s = null_at_failure f (m s)

module _ (e : Env) where
  -- `sdo_public_key_alloc`: the key stays without its first part where there is no memory for that.
  unfoldable pub clone_with : PublicKey → Bits → Option Bits → Option PublicKey
  clone_with pk key1 key2 =
      if e.alloc public_key_size
      then some (record {
        pkalg = pk.pkalg;
        pkenc = pk.pkenc;
        key1 = sdo_bits_alloc_with e key1.byte_sz key1.bytes;
        key2 = elim key2 [ none ↦ none | some k ↦ sdo_bits_alloc_with e k.byte_sz k.bytes ];
      })
      else none

  unfoldable pub clone_parts : PublicKey → Option Bits → Option PublicKey
  unfolding clone_with
  clone_parts pk none = none
  clone_parts pk (some key1) =
      if pk.pkenc == 0 then none else if pk.pkalg == 0 then none else clone_with pk key1 pk.key2

  unfoldable pub sdo_public_key_clone : Option PublicKey → Option PublicKey
  unfolding clone_parts
  sdo_public_key_clone none = none
  sdo_public_key_clone (some pk) = clone_parts pk pk.key1

  null_key : Sdow → Sdow
  null_key w =
      let two = sdo_write_uint e (sdo_write_uint e (sdow_begin_sequence e w) 0) 0 in
      sdow_end_sequence e (sdow_end_sequence e (sdo_write_uint e (sdow_begin_sequence e two) 0))

  second_part : Sdow → ℕ → Option Bits → Sdow
  second_part w enc none = w
  second_part w enc (some key2) =
      if enc == rsa_mod_exp then sdo_write_byte_array e w key2.bytes key2.byte_sz else w

  whole_key : Sdow → PublicKey → Option Bits → Sdow
  unfolding null_key second_part
  whole_key w pk none = null_key w
  whole_key w pk (some key1) =
      if key1.byte_sz == 0
      then null_key w
      else (sdow_end_sequence e (
          second_part
            (sdo_write_byte_array e
              (sdo_write_uint e (sdo_write_uint e (sdow_begin_sequence e w) pk.pkalg) pk.pkenc)
              key1.bytes key1.byte_sz)
            pk.pkenc pk.key2))

  -- A key without its first part, where the C code reads through a null pointer, is written as the null
  -- key; so is a second part that is missing left out.
  unfoldable pub sdo_public_key_write : Sdow → Option PublicKey → Sdow
  unfolding whole_key null_key
  sdo_public_key_write w none = null_key w
  sdo_public_key_write w (some pk) = whole_key w pk pk.key1

  -- A second part stands in front of the closing bracket.
  second_key : Bool → Act Sdor (Option Bits)
  unfolding sdo_byte_array_read array_allocated
  second_key true = pure none
  second_key false = do
    step (λ r. record r { need_comma = true })
    guard (array_allocated e 0)
    key2 ← sdo_byte_array_read e
    pure (some key2)

  abbrev at_bracket : Sdor → Bool
  at_bracket r = elim (sdor_peek r) [ none ↦ false | some c ↦ c == b']' ]

  key_parts : Act Sdor PublicKey
  unfolding uint sdo_byte_array_read second_key array_allocated
  key_parts = do
    begin_sequence
    pkalg ← uint
    pkenc ← uint
    guard (not (pkalg == 0) && not (pkenc == 0))
    begin_sequence
    guard (array_allocated e 0)
    key1 ← sdo_byte_array_read e
    guard (e.alloc public_key_size)
    last ← gets at_bracket
    key2 ← second_key last
    step (λ r. (sdor_end_sequence r).0)
    step (λ r. (sdor_end_sequence r).0)
    step (λ r. record r { need_comma = true })
    pure (record { pkalg = pkalg; pkenc = pkenc; key1 = some key1; key2 = key2 })

  -- Behind a failure the rest of the sequence is skipped, and the result is null.
  unfoldable pub sdo_public_key_read : Act Sdor (Option PublicKey)
  unfolding key_parts or_null
  sdo_public_key_read =
      or_null key_parts (λ r. (sdor_end_sequence (sdor_read_and_ignore_until_end_sequence r)).0)

  -- `"pk":[0,0,[0]]`; the numbers are not looked at.
  unfoldable pub sdo_read_pk_null : Act Sdor Unit
  unfolding uint
  sdo_read_pk_null = do
    tag e (codes "pk")
    begin_sequence
    a ← uint
    b ← uint
    begin_sequence
    c ← uint
    end_sequence
    end_sequence
