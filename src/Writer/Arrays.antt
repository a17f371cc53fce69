-- ===== src/Writer/Arrays.antt =====
-- lib/sdoblockio.c: writing numbers in base 16, and byte arrays in base64 with their lengths.
use client_sdk.Base.{
  ℕ, ◌+◌, Bool, true, false, ◌&&◌, Option, none, some, [], ◌∷◌, Bytes, length, get_or, ltb,
  if◌then◌else◌,
}
use client_sdk.Env.{Env}
use client_sdk.Base64.{bin_to_b64_length, bin_to_b64}
use client_sdk.Block.{Block, sdo_b_put_c}
use client_sdk.Writer.{
  Sdow, raise_size, write_comma, sdow_begin_sequence, sdow_end_sequence, sdo_write_uint,
  sdo_write_string,
}

-- A pointer that is not null.
abbrev pub is_set : Option Bytes → Bool
is_set none = false
is_set (some bs) = true

-- The text that is copied; for the result -1 the loop makes no round.
abbrev pub encoded : Option Bytes → Bytes
encoded none = []
encoded (some t) = t

module _ (e : Env) where
  unfoldable pub put_all : Block → Bytes → Block
  put_all b [] = b
  put_all b (c ∷ cs) = put_all (sdo_b_put_c e b c) cs

  -- The two digits of a printed byte; a failure to print ends the writing.
  put_hex : Block → Option Bytes → Block × Bool
  put_hex b none = (b, false)
  put_hex b (some hex) = (sdo_b_put_c e (sdo_b_put_c e b (get_or hex 0 0)) (get_or hex 1 0), true)

  unfoldable pub hex_loop : Block × Bool → Bytes → Block × Bool
  unfolding put_hex
  hex_loop (b, false) cs = (b, false)
  hex_loop (b, true) [] = (b, true)
  hex_loop (b, true) (c ∷ cs) = hex_loop (put_hex b (e.print_02x c)) cs

  close_big_num : Sdow → Block × Bool → Sdow
  close_big_num w (b, false) = record w { b = b }
  close_big_num w (b, true) =
      let ended = sdow_end_sequence e (record w { b = sdo_b_put_c e b b'"' }) in
      record ended { b = raise_size ended.b; need_comma = true }

  -- The `buf_sz` bytes in base 16, behind their number.
  unfoldable pub sdo_write_big_num : Sdow → Bytes → Sdow
  unfolding hex_loop close_big_num
  sdo_write_big_num w bufp =
      let sized = write_comma e (sdo_write_uint e (sdow_begin_sequence e w) (length bufp)) in
      close_big_num sized (hex_loop (sdo_b_put_c e sized.b b'"', true) bufp)

  -- The size of the buffer for the text is never 0, so only a failed allocation skips the write.
  unfoldable pub sdo_write_byte_array_field : Sdow → Option Bytes → ℕ → Sdow
  unfolding put_all write_comma
  sdo_write_byte_array_field w bufp buf_sz =
      let room = bin_to_b64_length buf_sz + 1 in
      let v = write_comma e w in
      let filled = put_all (sdo_b_put_c e v.b b'"') (encoded (bin_to_b64 e buf_sz bufp room)) in
      if e.alloc room
      then record v { b = raise_size (sdo_b_put_c e filled b'"'); need_comma = true }
      else w

  -- The bytes where there are some, and an empty string where there are none.
  unfoldable pub field_or_empty : Sdow → Bool → Option Bytes → ℕ → Sdow
  field_or_empty w full bufp buf_sz =
      if full then sdo_write_byte_array_field w bufp buf_sz else sdo_write_string e w []

  -- The length, a comma, and the bytes.
  unfoldable pub sdo_write_byte_array : Sdow → Option Bytes → ℕ → Sdow
  unfolding field_or_empty
  sdo_write_byte_array w bufp buf_sz =
      let sized = write_comma e (sdo_write_uint e (sdow_begin_sequence e w) buf_sz) in
      sdow_end_sequence e (field_or_empty sized (ltb 0 buf_sz) bufp buf_sz)

  unfoldable pub sdo_write_byte_array_one_int : Sdow → ℕ → Option Bytes → ℕ → Sdow
  unfolding field_or_empty
  sdo_write_byte_array_one_int w val1 bufp buf_sz =
      let sized = write_comma e (sdo_write_uint e (sdow_begin_sequence e w) buf_sz) in
      let valued = write_comma e (sdo_write_uint e sized val1) in
      sdow_end_sequence e (field_or_empty valued (ltb 0 buf_sz && is_set bufp) bufp buf_sz)

  unfoldable pub sdo_write_byte_array_one_int_first : Sdow → ℕ → Option Bytes → ℕ → Sdow
  unfolding field_or_empty
  sdo_write_byte_array_one_int_first w val1 bufp buf_sz =
      let valued = write_comma e (sdo_write_uint e (sdow_begin_sequence e w) val1) in
      let sized = write_comma e (sdo_write_uint e valued buf_sz) in
      sdow_end_sequence e (field_or_empty sized (ltb 0 buf_sz && is_set bufp) bufp buf_sz)

  -- The part for the initial vector: an array of its own, or an empty string.
  unfoldable pub write_iv : Sdow → Option Bytes → ℕ → Sdow
  write_iv w iv iv_sz =
      let sized = write_comma e (sdo_write_uint e (sdow_begin_sequence e w) iv_sz) in
      if ltb 0 iv_sz && is_set iv
      then sdow_end_sequence e (sdo_write_byte_array_field sized iv iv_sz)
      else sdo_write_string e w []

  unfoldable pub sdo_write_byte_array_two_int : Sdow → Option Bytes → ℕ → Option Bytes → ℕ → Sdow
  unfolding field_or_empty write_iv
  sdo_write_byte_array_two_int w iv iv_sz bufp buf_sz =
      let first = write_comma e (write_iv (sdow_begin_sequence e w) iv iv_sz) in
      let sized = write_comma e (sdo_write_uint e first buf_sz) in
      sdow_end_sequence e (field_or_empty sized (ltb 0 buf_sz && is_set bufp) bufp buf_sz)
