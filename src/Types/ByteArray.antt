-- ===== src/Types/ByteArray.antt =====
-- lib/sdotypes.c: byte arrays in messages, which are base64 texts in quotes. Neither of the two
-- pointers is null. The bytes of an array that was read are those that the codec gave.
pub mod Receive
pub mod RoundTrip
use client_sdk.Base.{ℕ, zero, suc, Bool, Option, none, some, Bytes, length, ◌==◌, if◌then◌else◌}
use client_sdk.Env.{Env}
use client_sdk.Base64.{b64_to_bin_length}
use client_sdk.Reader.{Sdor, sdo_read_string, sdo_read_string_sz}
use client_sdk.Reader.Fields.{sdo_read_byte_array_field}
use client_sdk.Writer.{Sdow}
use client_sdk.Writer.Arrays.{sdo_write_byte_array_field, sdo_write_byte_array}
use client_sdk.Types.{Bits}

abbrev pub ByteArray : Type 0
ByteArray = Bits

module _ (e : Env) where
  -- The array with what was read, and its length.
  stored : Sdor × Bytes → Sdor × ByteArray × ℕ
  stored (r, bs) = (r, record { byte_sz = length bs; bytes = some bs }, length bs)

  -- The old bytes are freed first; the old size stays where nothing is read.
  unfoldable pub sdo_byte_array_read_chars : Sdor → ByteArray → Sdor × ByteArray × ℕ
  unfolding stored
  sdo_byte_array_read_chars r ba =
      let sized = sdo_read_string_sz r in
      let bin_len = b64_to_bin_length sized.1 in
      if bin_len == 0
      then ((sdo_read_string sized.0 1).0, record ba { bytes = none }, 0)
      else if e.alloc bin_len
      then stored (sdo_read_byte_array_field e sized.0 sized.1 bin_len)
      else (sized.0, record ba { bytes = none }, 0)

  unfoldable pub sdo_byte_array_write_chars : Sdow → ByteArray → Sdow
  sdo_byte_array_write_chars w ba = sdo_write_byte_array_field e w ba.bytes ba.byte_sz

  unfoldable pub sdo_byte_array_write : Sdow → ByteArray → Sdow
  sdo_byte_array_write w ba = sdo_write_byte_array e w ba.bytes ba.byte_sz
