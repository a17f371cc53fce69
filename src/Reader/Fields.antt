-- ===== src/Reader/Fields.antt =====
-- lib/sdoblockio.c: the reader's tags, its look-ahead over arrays, and its base64 fields.
use client_sdk.Base.{
  ℕ, zero, suc, ◌+◌, ◌-◌, Bool, true, false, ◌&&◌, ◌||◌, not, Option, none, some, [], ◌∷◌, ◌++◌,
  Bytes, length, ◌==◌, if◌then◌else◌,
}
use client_sdk.Env.{Env, bytes_of}
use client_sdk.Base64.{b64_to_bin}
use client_sdk.Block.{Block, sdob_getc}
use client_sdk.Reader.{
  Sdor, read_expected_char, read_comma, rounds_left, StringRead, sdo_read_string,
}

abbrev pub sdo_tag_max_len : ℕ
sdo_tag_max_len = 32

-- The length is 0 where no colon follows; what the buffer holds does not depend on the colon.
unfoldable pub sdo_read_tag : Sdor → ℕ → StringRead
unfolding read_expected_char
sdo_read_tag r buf_sz =
    let tag = sdo_read_string r buf_sz in
    let colon = read_expected_char tag.0 b':' in
    if colon.1 then (record (colon.0) { need_comma = false }, tag.1, tag.2) else (colon.0, 0, tag.2)

unfoldable pub sdo_read_tag_finisher : Sdor → Sdor × Bool
sdo_read_tag_finisher r = read_expected_char (record r { need_comma = false }) b':'

-- The buffer of `sdo_read_expected_tag` holds zeros where nothing was read into it.
abbrev pub tag_buffer : Option Bytes → Bytes
tag_buffer none = []
tag_buffer (some bs) = bs

-- Whether the tag read is the one expected. The result of `sdo_read_tag` is not looked at.
unfoldable pub sdo_read_expected_tag : Env → Sdor → Bytes → Sdor × Bool
unfolding sdo_read_tag
sdo_read_expected_tag e r tag =
    let got = sdo_read_tag r sdo_tag_max_len in
    (got.0, e.strcmp_s_zero (tag_buffer got.2) sdo_tag_max_len tag)

-- The loop of `sdor_read_and_ignore_until`.
unfoldable pub ignore_loop : ℕ → Block → ℕ → Block
ignore_loop zero b expected = b
ignore_loop (suc fuel) b expected = elim (sdob_getc b).0 [
  | none ↦ b
  | some c ↦ elim (not (expected == c) && not (c == 0)) [
    | true ↦ ignore_loop fuel (sdob_getc b).1 expected
    | false ↦ (sdob_getc b).1
  ]
]

unfoldable pub sdor_read_and_ignore_until : Sdor → ℕ → Sdor
sdor_read_and_ignore_until r expected = record r { b = ignore_loop (rounds_left r.b) r.b expected }

unfoldable pub sdor_read_and_ignore_until_end_sequence : Sdor → Sdor
unfolding sdor_read_and_ignore_until
sdor_read_and_ignore_until_end_sequence r = record (sdor_read_and_ignore_until r b']') {
  need_comma = true;
}

-- The two tests of a round of the array loops: whether the second bracket was reached, and whether
-- the first one has been.
abbrev pub ends_array : ℕ → Bool → Bool
ends_array c waiting = c == b']' && not (c == 0) && waiting

abbrev pub waits : ℕ → Bool → Bool
waits c waiting = waiting || c == b']'

-- The loop of `sdo_read_array_sz` and of `sdo_read_array_no_state_change`, up to the second closing
-- bracket: the block behind it, and the characters, which only the second function stores. The
-- block's text ran out where there are none.
unfoldable pub array_loop : ℕ → Block → Bool → Bytes → Block × Option Bytes
array_loop zero b waiting chars = (b, none)
array_loop (suc fuel) b waiting chars = elim (sdob_getc b).0 [
  | none ↦ (b, none)
  | some c ↦ elim (ends_array c waiting) [
    | true ↦ ((sdob_getc b).1, some (chars ++ c ∷ []))
    | false ↦ array_loop fuel (sdob_getc b).1 (waits c waiting) (chars ++ c ∷ [])
  ]
]

-- The array is scanned from its bracket, which has been read already: the cursor is not 0.
abbrev pub stepped_back : Block → Block
stepped_back b = record b { cursor = b.cursor - 1 }

-- The cursor is put back only where the end of the array was found.
unfoldable pub put_back : Sdor → Block × Option Bytes → Sdor × Option Bytes
put_back r (b, none) = (record r { b = b }, none)
put_back r (b, some chars) = (record r { b = record b { cursor = r.b.cursor } }, some chars)

-- The characters from the bracket on; `none` is -1.
unfoldable pub sdo_read_array_no_state_change : Sdor → Sdor × Option Bytes
unfolding put_back
sdo_read_array_no_state_change r =
    let from = stepped_back r.b in put_back r (array_loop (rounds_left from) from false [])

abbrev pub size_of : Option Bytes → Option ℕ
size_of none = none
size_of (some chars) = some (length chars)

-- The same loop with no buffer: only the number of the characters.
unfoldable pub sdo_read_array_sz : Sdor → Sdor × Option ℕ
unfolding sdo_read_array_no_state_change
sdo_read_array_sz r = let got = sdo_read_array_no_state_change r in (got.0, size_of got.1)

module _ (e : Env) where
  -- Behind the opening quote.
  unfoldable pub field_body : Sdor → ℕ → Option Bytes → Sdor × Bytes
  field_body r b64_sz none = (r, [])
  field_body r b64_sz (some converted) =
      let moved = record r { b = record (r.b) { cursor = r.b.cursor + b64_sz } } in
      let quote = read_expected_char moved b'"' in
      if quote.1 then (record (quote.0) { need_comma = true }, converted) else (quote.0, [])

  -- The bytes read, none of them where anything failed. The codec is given what stands in the
  -- allocation, whether or not the text of the block goes that far.
  unfoldable pub sdo_read_byte_array_field : Sdor → ℕ → ℕ → Sdor × Bytes
  unfolding read_comma read_expected_char field_body
  sdo_read_byte_array_field r b64_sz buf_sz =
      let comma = read_comma r in
      let quote = read_expected_char comma.0 b'"' in
      let converted = b64_to_bin e b64_sz (bytes_of quote.0.b.block) quote.0.b.cursor buf_sz in
      if comma.1
      then if quote.1 then field_body quote.0 b64_sz converted else (quote.0, [])
      else (comma.0, [])
