-- ===== src/Reader.antt =====
-- lib/sdoblockio.c: the message reader `sdor_t`. Its `receive` pointer is kept as whether it is
-- set, which is all that this code asks of it; `content_length` and `receive_data` are not kept.
-- A loop over the block takes as fuel one more than the characters left, so it ends with the text.
pub mod Receive
pub mod Scan
pub mod Fields
pub mod Values
pub mod Strings
pub mod Tags
pub mod Arrays
pub mod Encoded
use client_sdk.Base.{
  ℕ, zero, suc, ◌+◌, ◌-◌, ◌*◌, ◌%◌, Bool, true, false, ◌&&◌, Option, none, some, [], ◌∷◌, ◌++◌,
  Bytes, length, drop, ltb, leb, ◌==◌, if◌then◌else◌,
}
use client_sdk.Decimal.{u32_mod}
use client_sdk.Env.{Env, bytes_of}
use client_sdk.Base64.{b64_to_bin}
use client_sdk.Block.{Block, sdob_peekc, sdob_getc, sdo_skip_c, sdo_block_reset, sdo_block_init}

pub record Sdor : Type 0 where
  pub b : Block
  pub need_comma : Bool
  pub have_block : Bool
  pub msg_type : ℕ
  pub receive_set : Bool

-- `memset_s` of the whole struct is taken to succeed; the flag is `rcv != NULL`.
unfoldable pub sdor_init : Bool → Sdor
unfolding sdo_block_init
sdor_init rcv = record {
  b = sdo_block_init (record { cursor = 0; block_max = 0; block_size = 0; block = none });
  need_comma = false;
  have_block = false;
  msg_type = 0;
  receive_set = rcv;
}

unfoldable pub sdor_peek : Sdor → Option ℕ
sdor_peek r = sdob_peekc r.b

unfoldable pub sdor_flush : Sdor → Sdor
unfolding sdo_block_reset
sdor_flush r = record r { b = sdo_block_reset r.b; need_comma = false; have_block = false }

unfoldable pub sdor_have_block : Sdor → Bool
sdor_have_block r = r.have_block

unfoldable pub sdor_set_have_block : Sdor → Sdor
sdor_set_have_block r = record r { have_block = true }

-- The message type where there is a block; `none` is the result false.
unfoldable pub sdor_next_block : Sdor → Option ℕ
sdor_next_block r = if r.have_block then some r.msg_type else none

-- The bytes from `from_cursor` on; `none` as argument is a negative one, as result a null pointer.
unfoldable pub sdor_get_block_ptr : Sdor → Option ℕ → Option Bytes
sdor_get_block_ptr r none =
    if ltb r.b.block_size r.b.cursor then none else some (drop r.b.cursor (bytes_of r.b.block))
sdor_get_block_ptr r (some from) =
    if ltb r.b.block_size from then none else some (drop from (bytes_of r.b.block))

abbrev pub is_char : Option ℕ → ℕ → Bool
is_char none expected = false
is_char (some c) expected = c == expected

unfoldable pub read_expected_char : Sdor → ℕ → Sdor × Bool
read_expected_char r expected =
    let got = sdob_getc r.b in (record r { b = got.1 }, is_char got.0 expected)

unfoldable pub read_comma : Sdor → Sdor × Bool
read_comma r =
    if r.need_comma then read_expected_char (record r { need_comma = false }) b',' else (r, true)

unfoldable pub read_expected_char_comma_before : Sdor → ℕ → Sdor × Bool
unfolding read_comma read_expected_char
read_expected_char_comma_before r expected =
    let comma = read_comma r in
    let got = read_expected_char comma.0 expected in
    if comma.1 then (record (got.0) { need_comma = false }, got.1) else (comma.0, false)

unfoldable pub read_expected_char_comma_after : Sdor → ℕ → Sdor × Bool
unfolding read_expected_char
read_expected_char_comma_after r expected =
    let got = read_expected_char r expected in (record (got.0) { need_comma = true }, got.1)

unfoldable pub sdor_begin_sequence : Sdor → Sdor × Bool
unfolding read_expected_char_comma_before
sdor_begin_sequence r = read_expected_char_comma_before r b'['

unfoldable pub sdor_end_sequence : Sdor → Sdor × Bool
unfolding read_expected_char_comma_after
sdor_end_sequence r = read_expected_char_comma_after r b']'

unfoldable pub sdor_begin_object : Sdor → Sdor × Bool
unfolding read_expected_char_comma_before
sdor_begin_object r = read_expected_char_comma_before r b'{'

unfoldable pub sdor_end_object : Sdor → Sdor × Bool
unfolding read_expected_char_comma_after
sdor_end_object r = read_expected_char_comma_after r b'}'

-- The fuel of a loop over the rest of a block.
abbrev pub rounds_left : Block → ℕ
rounds_left b = suc (b.block_size - b.cursor)

-- The loop of `sdo_read_uint`, on the digits under the cursor.
unfoldable pub uint_loop : ℕ → Block → ℕ → Block × ℕ
uint_loop zero b r = (b, r)
uint_loop (suc fuel) b r = elim (sdob_peekc b) [
  | none ↦ (b, r)
  | some c ↦ elim (leb b'0' c && leb c b'9') [
    | true ↦ uint_loop fuel (sdo_skip_c b) ((r * 10 + (c - b'0')) % u32_mod)
    | false ↦ (b, r)
  ]
]

-- A missing comma is only logged.
unfoldable pub sdo_read_uint : Sdor → Sdor × ℕ
unfolding read_comma
sdo_read_uint r =
    let v = (read_comma r).0 in
    let digits = uint_loop (rounds_left v.b) v.b 0 in
    (record v { b = digits.0; need_comma = true }, digits.1)

-- The loop of `sdo_read_string`: `room` more characters fit the buffer, `n` have been read, and
-- `stored` is what the buffer holds.
unfoldable pub string_loop : ℕ → Block → ℕ → ℕ → Bytes → Block × ℕ × Bytes
string_loop zero b room n stored = (b, n, stored)
string_loop (suc fuel) b room n stored = elim (sdob_getc b).0 [
  | none ↦ (b, n, stored)
  | some c ↦ elim (c == b'"') [
    | true ↦ ((sdob_getc b).1, n, stored)
    | false ↦
        string_loop fuel (sdob_getc b).1 (room - 1) (n + 1)
          (if ltb 0 room then stored ++ c ∷ [] else stored)
  ]
]

-- The reader, the length read, and what the buffer holds in front of its terminator; `none` is a
-- buffer that was not written. The buffer has `buf_sz` bytes, at least one.
abbrev pub StringRead : Type 0
StringRead = Sdor × ℕ × Option Bytes

finish_string : Sdor → Block × ℕ × Bytes → StringRead
finish_string r s = (record r { b = s.0; need_comma = true }, s.1, some s.2)

unfoldable pub sdo_read_string : Sdor → ℕ → StringRead
unfolding read_comma read_expected_char finish_string
sdo_read_string r buf_sz =
    let comma = read_comma r in
    let quote = read_expected_char comma.0 b'"' in
    let body = string_loop (rounds_left quote.0.b) quote.0.b (buf_sz - 1) 0 [] in
    if comma.1
    then if quote.1 then finish_string quote.0 body else (quote.0, 0, none)
    else (comma.0, 0, none)

-- The cursor and the comma flag are put back.
unfoldable pub sdo_read_string_sz : Sdor → Sdor × ℕ
sdo_read_string_sz r =
    let got = sdo_read_string r 1 in
    (
      record (got.0) { b = record (got.0.b) { cursor = r.b.cursor }; need_comma = r.need_comma },
      got.1,
    )
