-- ===== src/Reader/Receive.antt =====
-- lib/sdoblockio.c: the reader's functions keep its `receive` pointer.
use client_sdk.Base.{
  ℕ, ◌≡◌, refl, ◌∙◌, Bool, true, false, if◌then◌else◌, Option, none, some, Bytes, arith,
}
use client_sdk.Block.{Block}
use client_sdk.Env.{Env}
use client_sdk.Reader.{
  Sdor, sdor_begin_sequence, sdor_end_sequence, sdor_begin_object, sdor_end_object, sdor_flush,
  read_comma, read_expected_char, read_expected_char_comma_before, read_expected_char_comma_after,
  sdo_read_uint, sdo_read_string, sdo_read_string_sz, finish_string,
}
use client_sdk.Reader.Fields.{
  sdo_read_tag, sdo_read_expected_tag, sdo_read_byte_array_field, field_body, put_back,
  sdo_read_array_no_state_change, sdo_read_array_sz,
}

abbrev pub ReceiveKept : (Sdor → Sdor) → Type 0
ReceiveKept f = (r : Sdor) → (f r).receive_set ≡ r.receive_set

pub either_holds :
    {P : Type 0} (q : P → Type 0) (b : Bool) (x y : P) → q x → q y → q (if b then x else y)
either_holds q true x y p n = p
either_holds q false x y p n = n

char_kept : (x : ℕ) → ReceiveKept (λ r. (read_expected_char r x).0)
unfolding read_expected_char
char_kept x r = refl

comma_kept : ReceiveKept (λ r. (read_comma r).0)
unfolding read_comma read_expected_char
comma_kept r = ground arith

before_kept : (x : ℕ) → ReceiveKept (λ r. (read_expected_char_comma_before r x).0)
unfolding read_expected_char_comma_before read_comma read_expected_char
before_kept x r = ground arith

pub begin_sequence_kept : ReceiveKept (λ r. (sdor_begin_sequence r).0)
unfolding sdor_begin_sequence
begin_sequence_kept = before_kept b'['

pub end_sequence_kept : ReceiveKept (λ r. (sdor_end_sequence r).0)
unfolding sdor_end_sequence read_expected_char_comma_after read_expected_char
end_sequence_kept r = refl

pub begin_object_kept : ReceiveKept (λ r. (sdor_begin_object r).0)
unfolding sdor_begin_object
begin_object_kept = before_kept b'{'

pub end_object_kept : ReceiveKept (λ r. (sdor_end_object r).0)
unfolding sdor_end_object read_expected_char_comma_after read_expected_char
end_object_kept r = refl

pub flush_kept : ReceiveKept sdor_flush
unfolding sdor_flush
flush_kept r = refl

pub uint_kept : ReceiveKept (λ r. (sdo_read_uint r).0)
unfolding sdo_read_uint
uint_kept r = comma_kept r

pub string_kept : (n : ℕ) → ReceiveKept (λ r. (sdo_read_string r n).0)
unfolding sdo_read_string finish_string read_comma read_expected_char
string_kept n r = ground arith

pub string_sz_kept : ReceiveKept (λ r. (sdo_read_string_sz r).0)
unfolding sdo_read_string_sz
string_sz_kept = string_kept 1

pub tag_kept : (e : Env) (name : Bytes) → ReceiveKept (λ r. (sdo_read_expected_tag e r name).0)
unfolding sdo_read_expected_tag sdo_read_tag sdo_read_string finish_string read_comma
    read_expected_char
tag_kept e name r = ground arith

body_kept :
    (e : Env) (r : Sdor) (n : ℕ) (o : Option Bytes)
    → (field_body e r n o).0.receive_set ≡ r.receive_set
unfolding field_body read_expected_char
body_kept e r n none = refl
body_kept e r n (some bs) = ground arith

pub field_kept : (e : Env) (n m : ℕ) → ReceiveKept (λ r. (sdo_read_byte_array_field e r n m).0)
unfolding sdo_read_byte_array_field
field_kept e n m r =
    let comma = read_comma r in
    let quote = read_expected_char comma.0 b'"' in
    let quote_is : quote.0.receive_set ≡ r.receive_set = char_kept b'"' comma.0 ∙ comma_kept r in
    either_holds (λ (x : Sdor × Bytes). x.0.receive_set ≡ r.receive_set) comma.1 _ _
      (either_holds (λ (x : Sdor × Bytes). x.0.receive_set ≡ r.receive_set) quote.1 _ _
        (body_kept e quote.0 n _ ∙ quote_is) quote_is)
      (comma_kept r)

put_back_kept : (r : Sdor) (x : Block × Option Bytes) → (put_back r x).0.receive_set ≡ r.receive_set
unfolding put_back
put_back_kept r (b, none) = refl
put_back_kept r (b, some bs) = refl

pub array_kept : ReceiveKept (λ r. (sdo_read_array_no_state_change r).0)
unfolding sdo_read_array_no_state_change
array_kept r = put_back_kept r _

pub array_sz_kept : ReceiveKept (λ r. (sdo_read_array_sz r).0)
unfolding sdo_read_array_sz
array_sz_kept = array_kept
