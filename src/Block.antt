-- ===== src/Block.antt =====
-- lib/sdoblockio.c and lib/include/sdoblockio.h: the growable byte block `sdo_block_t` that the
-- reader and the writer of messages share. The C ints stand as ℕ: none of these functions makes
-- one negative. A read or a write outside the allocation is undefined in C; here a read gives 0
-- and a write is lost, and Block/Bounds shows that neither happens.
pub mod Bounds
use mathlib.Core.Option
use client_sdk.Base.{
  ℕ, ◌+◌, ◌-◌, ◌*◌, ◌/◌, Bool, false, Option, none, some, Bytes, get_or, set, ltb, leb,
  if◌then◌else◌,
}
use client_sdk.Env.{Env, bytes_of}

pub record Block : Type 0 where
  pub cursor : ℕ
  pub block_max : ℕ
  pub block_size : ℕ
  pub block : Option Bytes

abbrev pub sdo_blockinc : ℕ
sdo_blockinc = 256

-- The block has a byte under its cursor.
unfoldable pub has_char : Option Bytes → ℕ → ℕ → Bool
has_char none cursor size = false
has_char (some bs) cursor size = ltb cursor size

-- `none` is -1.
unfoldable pub sdob_peekc : Block → Option ℕ
unfolding has_char
sdob_peekc b =
    if has_char b.block b.cursor b.block_size
    then some (get_or (bytes_of b.block) b.cursor 0)
    else none

-- The character and the block behind it; `none` is -1, and leaves the character alone.
unfoldable pub sdob_getc : Block → Option ℕ × Block
unfolding has_char
sdob_getc b =
    if has_char b.block b.cursor b.block_size
    then (some (get_or (bytes_of b.block) b.cursor 0), record b { cursor = b.cursor + 1 })
    else (none, b)

unfoldable pub sdo_skip_c : Block → Block
sdo_skip_c b = if ltb b.cursor b.block_size then record b { cursor = b.cursor + 1 } else b

unfoldable pub sdo_block_reset : Block → Block
sdo_block_reset b = record b { cursor = 0; block_size = 0 }

unfoldable pub sdo_block_init : Block → Block
unfolding sdo_block_reset
sdo_block_init b = sdo_block_reset (record b { block = none; block_max = 0 })

-- `need` rounded up to a multiple of the increment: `(need + 255) & ~255`.
abbrev pub round_up : ℕ → ℕ
round_up need = (need + sdo_blockinc - 1) / 256 * 256

-- `block[cursor++] = c`
unfoldable pub store_c : Block → ℕ → Block
store_c b c = record b {
  block = Option.map (λ bs. set bs b.cursor c) b.block;
  cursor = b.cursor + 1;
}

module _ (e : Env) where
  -- A failed reallocation is only logged: the pointer is null then, and the size is the new one.
  unfoldable pub sdo_resize_block : Block → ℕ → Block
  sdo_resize_block b need =
      if ltb b.block_max need
      then record b { block = e.realloc b.block (round_up need); block_max = round_up need }
      else b

  unfoldable pub sdo_b_put_c : Block → ℕ → Block
  unfolding sdo_resize_block store_c
  sdo_b_put_c b c =
      store_c (if leb b.block_max b.cursor then sdo_resize_block b (b.block_max + 1) else b) c
