-- ===== src/Writer.antt =====
-- lib/sdoblockio.c: the message writer `sdow_t`. Its C type uint8_t for `need_comma` holds a truth
-- value. Not kept: `send`, `send_data` and `block_length_fixup`, which nothing here reads.
-- A C string argument is the list of its characters up to its terminator or to the end of the list.
pub mod Arrays
pub mod Emit
pub mod Strings
pub mod Numbers
use client_sdk.Base.{
  ℕ, zero, suc, ◌+◌, ◌-◌, ◌*◌, ◌/◌, Bool, true, false, ◌&&◌, ◌||◌, Option, none, some, [], ◌∷◌,
  Bytes, drop, length, ltb, leb, ◌==◌, if◌then◌else◌,
}
use client_sdk.Env.{Env, bytes_of}
use client_sdk.Block.{Block, sdo_block_init, sdo_b_put_c}

pub record Sdow : Type 0 where
  pub b : Block
  pub need_comma : Bool
  pub msg_type : ℕ

-- `memset_s` of the whole struct is taken to succeed, as it does for a size that is in range.
unfoldable pub sdow_init : Sdow
unfolding sdo_block_init
sdow_init = record {
  b = sdo_block_init (record { cursor = 0; block_max = 0; block_size = 0; block = none });
  need_comma = false;
  msg_type = 0;
}

unfoldable pub sdow_block_reset : Sdow → Sdow
sdow_block_reset w = record w {
  b = record (w.b) { cursor = 0; block_size = 0 };
  need_comma = false;
}

-- The C function always returns true.
unfoldable pub sdow_next_block : Sdow → ℕ → Sdow
unfolding sdow_block_reset
sdow_next_block w type = record (sdow_block_reset w) { msg_type = type }

-- The bytes from `from_cursor` on; `none` as argument is a negative one, as result a null pointer.
unfoldable pub sdow_get_block_ptr : Sdow → Option ℕ → Option Bytes
sdow_get_block_ptr w none =
    if ltb w.b.block_size w.b.cursor then none else some (drop w.b.cursor (bytes_of w.b.block))
sdow_get_block_ptr w (some from) =
    if ltb w.b.block_size from then none else some (drop from (bytes_of w.b.block))

-- `if (block_size < cursor) block_size = cursor`
abbrev pub raise_size : Block → Block
raise_size b = record b {
  block_size = if ltb b.block_size b.cursor then b.cursor else b.block_size;
}

-- The characters that `_padstring` writes as `\uXXXX`.
abbrev pub is_special : ℕ → Bool
is_special c =
    ltb c 0x20
    || ltb 0x7d c
    || c == b'['
    || c == b']'
    || c == b'"'
    || c == b'\\'
    || c == b'{'
    || c == b'}'
    || c == b'&'

-- `len-- != 0` fails; `none` is the length -1, which never gets to 0.
abbrev pub spent : Option ℕ → Bool
spent none = false
spent (some n) = n == 0

abbrev pub less : Option ℕ → Option ℕ
less none = none
less (some n) = some (n - 1)

module _ (e : Env) where
  unfoldable pub write_comma : Sdow → Sdow
  write_comma w =
      if w.need_comma
      then record w { b = raise_size (sdo_b_put_c e w.b b','); need_comma = false }
      else w

  -- The loop over the six characters of an escape, up to the terminator.
  unfoldable pub put_chars : Block → Bytes → Block
  put_chars b [] = b
  put_chars b (zero ∷ cs) = b
  put_chars b (suc c ∷ cs) = put_chars (sdo_b_put_c e b (suc c)) cs

  -- One round of `_padstring`'s loop; `none` is its return when printing the escape fails.
  put_escapes : Block → Option Bytes → Option Block
  put_escapes b none = none
  put_escapes b (some ucode) = some (put_chars b ucode)

  unfoldable pub pad_char : Block → Bool → ℕ → Option Block
  unfolding put_escapes
  pad_char b escape c =
      if escape && is_special c then put_escapes b (e.print_u04x c) else some (sdo_b_put_c e b c)

  -- The loop of `_padstring`: the block, and whether the loop came to its end.
  unfoldable pub pad_loop : Block → Bytes → Option ℕ → Bool → Block × Bool
  pad_loop b [] len escape = (b, true)
  pad_loop b (c ∷ s) len escape = elim (spent len || c == 0) [
    | true ↦ (b, true)
    | false ↦ elim (pad_char b escape c) [
      | none ↦ (b, false)
      | some b' ↦ pad_loop b' s (less len) escape
    ]
  ]

  -- The size is raised unless the loop returned early.
  unfoldable pub finish_pad : Sdow → Block × Bool → Sdow
  finish_pad w (b, true) = record w { b = raise_size b }
  finish_pad w (b, false) = record w { b = b }

  unfoldable pub padstring : Sdow → Bytes → Option ℕ → Bool → Sdow
  unfolding finish_pad
  padstring w s len escape = finish_pad w (pad_loop w.b s len escape)

  unfoldable pub writespecialchar : Sdow → ℕ → Sdow
  unfolding write_comma
  writespecialchar w c =
      let v = write_comma w in record v { b = raise_size (sdo_b_put_c e v.b c); need_comma = false }

  unfoldable pub sdow_begin_sequence : Sdow → Sdow
  sdow_begin_sequence w = writespecialchar w b'['

  unfoldable pub sdow_end_sequence : Sdow → Sdow
  sdow_end_sequence w = record (writespecialchar (record w { need_comma = false }) b']') {
    need_comma = true;
  }

  unfoldable pub sdow_begin_object : Sdow → Sdow
  sdow_begin_object w = writespecialchar w b'{'

  unfoldable pub sdow_end_object : Sdow → Sdow
  sdow_end_object w = record (writespecialchar (record w { need_comma = false }) b'}') {
    need_comma = true;
  }

  -- `"`, the string, `"`
  unfoldable pub quoted : Sdow → Bytes → Option ℕ → Sdow
  unfolding write_comma padstring
  quoted w s len =
      let v = write_comma w in
      let opened = record v { b = sdo_b_put_c e v.b b'"' } in
      let padded = padstring opened s len true in
      record padded { b = raise_size (sdo_b_put_c e padded.b b'"'); need_comma = true }

  unfoldable pub sdo_write_string : Sdow → Bytes → Sdow
  sdo_write_string w s = quoted w s none

  unfoldable pub sdo_write_string_len : Sdow → Bytes → ℕ → Sdow
  sdo_write_string_len w s len = quoted w s (some len)

  unfoldable pub sdo_write_tag : Sdow → Bytes → Sdow
  sdo_write_tag w tag =
      writespecialchar (record (sdo_write_string w tag) { need_comma = false }) b':'

  unfoldable pub sdo_write_tag_len : Sdow → Bytes → ℕ → Sdow
  sdo_write_tag_len w tag len =
      writespecialchar (record (sdo_write_string_len w tag len) { need_comma = false }) b':'

  -- The number behind its comma; a failure to print it ends the function early.
  put_number : Sdow → Option Bytes → Sdow
  put_number v none = v
  put_number v (some num) =
      let padded = padstring v num none false in
      record padded { b = raise_size padded.b; need_comma = true }

  unfoldable pub sdo_write_uint : Sdow → ℕ → Sdow
  unfolding put_number
  sdo_write_uint w i = put_number (write_comma w) (e.print_u i)
