-- ===== src/Types/Signature/Receive.antt =====
-- lib/sdotypes.c: reading a signature keeps the reader's `receive` pointer.
use client_sdk.Base.{ℕ, Option, Bytes}
use client_sdk.Act.{Act}
use client_sdk.Act.Keeps.{Keeps}
use client_sdk.Env.{Env}
use client_sdk.Reader.{Sdor}
use client_sdk.Types.{Bits}
use client_sdk.Types.Keys.{PublicKey}
use client_sdk.Types.Keys.Receive.{sdo_public_key_read-Keeps, sdo_read_pk_null-Keeps}
use client_sdk.Types.Reading.Receive.{receive_set, reading, sdo_byte_array_read-Keeps}
use client_sdk.Types.Signature.{
  OvVerify, unchecked, tried, signature_checked, signature_read, sdo_begin_read_signature,
  sdo_end_read_signature_full, sdo_ov_signature_verification,
}

unchecked-Keeps : (m : Act Sdor Bits) → Keeps receive_set m → Keeps receive_set (unchecked m)
unfolding unchecked
unchecked-Keeps m h = record { kept = h.kept }

tried-Keeps : (m : Act Sdor Unit) → Keeps receive_set m → Keeps receive_set (tried m)
unfolding tried
tried-Keeps m h = record { kept = h.kept }

module _ (e : Env) where
  pub sdo_begin_read_signature-Keeps : Keeps receive_set (sdo_begin_read_signature e)
  unfolding sdo_begin_read_signature
  sdo_begin_read_signature-Keeps = search reading depth 30 fits 3000

  signature_read-Keeps : Keeps receive_set (signature_read e)
  unfolding signature_read
  signature_read-Keeps =
      search (reading, sdo_byte_array_read-Keeps, sdo_read_pk_null-Keeps, unchecked-Keeps) depth 40
        fits 4000

  module _ (v : OvVerify) where
    checked-Keeps :
        (text : Bytes) (pk : PublicKey) → Keeps receive_set (signature_checked e v text pk)
    unfolding signature_checked
    checked-Keeps text pk = search (reading, sdo_byte_array_read-Keeps) depth 40 fits 4000

    pub sdo_end_read_signature_full-Keeps :
        (start : ℕ) → Keeps receive_set (sdo_end_read_signature_full e v start)
    unfolding sdo_end_read_signature_full
    sdo_end_read_signature_full-Keeps start =
        search (reading, tried-Keeps, checked-Keeps, sdo_public_key_read-Keeps) depth 40 fits 4000

    pub sdo_ov_signature_verification-Keeps :
        (start : ℕ) (key : Option PublicKey)
        → Keeps receive_set (sdo_ov_signature_verification e v start key)
    unfolding sdo_ov_signature_verification
    sdo_ov_signature_verification-Keeps start key =
        search (reading, signature_read-Keeps) depth 40 fits 4000
