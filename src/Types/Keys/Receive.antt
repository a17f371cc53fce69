-- ===== src/Types/Keys/Receive.antt =====
-- lib/sdotypes.c: reading a key keeps the reader's `receive` pointer.
use client_sdk.Base.{◌≡◌, ◌∙◌, Bool, true, false, Option, none, some}
use client_sdk.Act.{Act}
use client_sdk.Act.Keeps.{Keeps}
use client_sdk.Env.{Env}
use client_sdk.Reader.{Sdor, sdor_end_sequence}
use client_sdk.Reader.Fields.{sdor_read_and_ignore_until_end_sequence, sdor_read_and_ignore_until}
use client_sdk.Reader.Receive.{ReceiveKept, end_sequence_kept}
use client_sdk.Types.Keys.{
  null_at_failure, or_null, second_key, key_parts, sdo_public_key_read, sdo_read_pk_null,
}
use client_sdk.Types.Reading.Receive.{receive_set, reading, sdo_byte_array_read-Keeps}

null_kept :
    {A : Type 0} (f : Sdor → Sdor) (r : Sdor) (p : Sdor × Option A)
    → ReceiveKept f
    → p.0.receive_set ≡ r.receive_set
    → (null_at_failure f p).0.receive_set ≡ r.receive_set
unfolding null_at_failure
null_kept f r (s, some a) k same = same
null_kept f r (s, none) k same = k s ∙ same

or_null-Keeps :
    {A : Type 0} {m : Act Sdor A} (f : Sdor → Sdor)
    → Keeps receive_set m
    → ReceiveKept f
    → Keeps receive_set (or_null m f)
unfolding or_null
or_null-Keeps {m} f h k = record { kept = λ r. null_kept f r (m r) k (h.kept r) }

skipped_kept : ReceiveKept (λ r. (sdor_end_sequence (sdor_read_and_ignore_until_end_sequence r)).0)
unfolding sdor_read_and_ignore_until_end_sequence sdor_read_and_ignore_until
skipped_kept r = end_sequence_kept (sdor_read_and_ignore_until_end_sequence r)

module _ (e : Env) where
  second_key-Keeps : (b : Bool) → Keeps receive_set (second_key e b)
  unfolding second_key
  second_key-Keeps true = search reading
  second_key-Keeps false = search (reading, sdo_byte_array_read-Keeps) depth 30 fits 3000

  parts_keep : Keeps receive_set (key_parts e)
  unfolding key_parts
  parts_keep =
      search (reading, sdo_byte_array_read-Keeps, second_key-Keeps, end_sequence_kept) depth 40 fits
        4000

  pub sdo_public_key_read-Keeps : Keeps receive_set (sdo_public_key_read e)
  unfolding sdo_public_key_read
  sdo_public_key_read-Keeps =
      or_null-Keeps (λ r. (sdor_end_sequence (sdor_read_and_ignore_until_end_sequence r)).0)
        parts_keep skipped_kept

  pub sdo_read_pk_null-Keeps : Keeps receive_set (sdo_read_pk_null e)
  unfolding sdo_read_pk_null
  sdo_read_pk_null-Keeps = search reading depth 30 fits 3000
