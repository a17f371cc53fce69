-- ===== src/Types/Reading/Receive.antt =====
-- lib/sdotypes.c: reading typed values keeps the reader's `receive` pointer.
use client_sdk.Base.{ℕ, ◌≡◌, refl, ◌∙◌, Bool, true, false, Bytes}
use client_sdk.Act.Keeps.{Keeps, keeps}
use client_sdk.Env.{Env}
use client_sdk.Reader.{Sdor}
use client_sdk.Reader.Receive.{
  ReceiveKept, begin_sequence_kept, end_sequence_kept, begin_object_kept, end_object_kept,
  uint_kept, string_kept, string_sz_kept, tag_kept, field_kept,
}
use client_sdk.Types.{Bits, SdoString, read_into, sdo_string_read}
use client_sdk.Types.ByteArray.Receive.{chars_kept}
use client_sdk.Types.Reading.{
  begin_sequence, end_sequence, begin_object, end_object, uint, string_sz, string, tag, field,
  sdo_byte_array_read, read_chars, chars_or_none, sdo_hash_read, sdo_read_ipaddress, sdo_read_dns,
  sdo_eb_read,
}

abbrev pub receive_set : Sdor → Bool
receive_set r = r.receive_set

into_kept :
    (e : Env) (r : Sdor) (p : SdoString × Bool) → (read_into e r p).0.receive_set ≡ r.receive_set
unfolding read_into
into_kept e r (b, false) = refl
into_kept e r (b, true) = string_kept b.byte_sz r

pub string_read_kept : (e : Env) (b : SdoString) → ReceiveKept (λ r. (sdo_string_read e r b).0)
unfolding sdo_string_read
string_read_kept e b r = into_kept e _ _ ∙ string_sz_kept r

pub begin_sequence-Keeps : Keeps receive_set begin_sequence
begin_sequence-Keeps = search (keeps, begin_sequence_kept)

pub end_sequence-Keeps : Keeps receive_set end_sequence
end_sequence-Keeps = search (keeps, end_sequence_kept)

pub begin_object-Keeps : Keeps receive_set begin_object
begin_object-Keeps = search (keeps, begin_object_kept)

pub end_object-Keeps : Keeps receive_set end_object
end_object-Keeps = search (keeps, end_object_kept)

pub uint-Keeps : Keeps receive_set uint
unfolding uint
uint-Keeps = record { kept = uint_kept }

pub string_sz-Keeps : Keeps receive_set string_sz
unfolding string_sz
string_sz-Keeps = record { kept = string_sz_kept }

pub string-Keeps : (n : ℕ) → Keeps receive_set (string n)
unfolding string
string-Keeps n = record { kept = string_kept n }

module _ (e : Env) where
  pub tag-Keeps : (name : Bytes) → Keeps receive_set (tag e name)
  tag-Keeps name = search (keeps, tag_kept e name)

  pub field-Keeps : (n m : ℕ) → Keeps receive_set (field e n m)
  unfolding field
  field-Keeps n m = record { kept = field_kept e n m }

  pub read_chars-Keeps : (ba : Bits) → Keeps receive_set (read_chars e ba)
  unfolding read_chars chars_or_none
  read_chars-Keeps ba = record { kept = chars_kept e ba }

pub ruleset reading = (
  keeps, begin_sequence-Keeps, end_sequence-Keeps, begin_object-Keeps, end_object-Keeps, uint-Keeps,
  string_sz-Keeps, string-Keeps, tag-Keeps, field-Keeps, read_chars-Keeps,
)

module _ (e : Env) where
  pub sdo_byte_array_read-Keeps : Keeps receive_set (sdo_byte_array_read e)
  unfolding sdo_byte_array_read
  sdo_byte_array_read-Keeps = search reading depth 30 fits 3000

  pub sdo_hash_read-Keeps : (b : Bool) → Keeps receive_set (sdo_hash_read e b)
  unfolding sdo_hash_read
  sdo_hash_read-Keeps b = search reading depth 30 fits 3000

  pub sdo_read_ipaddress-Keeps : Keeps receive_set (sdo_read_ipaddress e)
  unfolding sdo_read_ipaddress
  sdo_read_ipaddress-Keeps = search (reading, sdo_byte_array_read-Keeps) depth 30 fits 3000

  pub sdo_read_dns-Keeps : Keeps receive_set (sdo_read_dns e)
  unfolding sdo_read_dns
  sdo_read_dns-Keeps = search reading depth 30 fits 3000

  pub sdo_eb_read-Keeps : Keeps receive_set (sdo_eb_read e)
  unfolding sdo_eb_read
  sdo_eb_read-Keeps = search reading depth 30 fits 3000
