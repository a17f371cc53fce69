-- ===== src/Types/Packet.antt =====
-- lib/sdotypes.c: encrypted packets. Encryption and decryption with the session key are parameters.
pub mod Receive
use client_sdk.Base.{
  ℕ, ◌+◌, ◌%◌, Bool, true, false, ◌&&◌, ◌||◌, not, Option, none, some, [], ◌++◌, Bytes, codes,
  length, drop, take, ltb, ◌==◌, if◌then◌else◌,
}
use client_sdk.Act.{Act, ◌>>=◌, ◌>>◌, pure, guard, gets, from, modify}
use client_sdk.Base64.{bin_to_b64_length}
use client_sdk.Block.{Block, sdo_resize_block}
use client_sdk.Env.{Env, bytes_of}
use client_sdk.Reader.{Sdor, sdor_begin_sequence, sdor_end_sequence, sdor_flush}
use client_sdk.Reader.Fields.{sdo_read_array_sz, sdo_read_array_no_state_change}
use client_sdk.Types.{Bits}
use client_sdk.Types.Reading.{
  begin_sequence, end_sequence, begin_object, end_object, step, returning, uint, string_sz, tag,
  field, array_allocated,
}
use client_sdk.Types.Rendezvous.{sdo_hash_null_write}
use client_sdk.Writer.{
  Sdow, sdow_next_block, sdow_begin_object, sdow_end_object, sdo_write_tag, sdo_write_string,
}
use client_sdk.Writer.Arrays.{sdo_write_byte_array, sdo_write_byte_array_two_int}

-- `sdo_encrypted_packet_t`, with the array of its HMAC.
pub record Packet : Type 0 where
  pub em_body : Option Bits
  pub hmac : Option Bits
  pub iv : Bytes
  pub ct_string : Bytes

-- AES_IV.
abbrev pub aes_iv : ℕ
aes_iv = 16

-- The sizes of the structs on a 64-bit target.
abbrev packet_size : ℕ
packet_size = 56

abbrev hash_size : ℕ
hash_size = 16

module _ (e : Env) where
  -- The scan for the closing brackets: the characters up to them.
  abbrev scanned : Act Sdor Bytes
  scanned r = let got = sdo_read_array_no_state_change r in (got.0, got.1)

  abbrev sized : Act Sdor ℕ
  sized r = let got = sdo_read_array_sz r in (got.0, got.1)

  -- `sdo_byte_array_read_with_type`: the body, the text of the array, and the initial vector. An IV
  -- of more than 16 bytes is not refused by the length that is read.
  unfoldable pub sdo_byte_array_read_with_type : Act Sdor (Bits × Bytes × Bytes)
  unfolding uint string_sz field array_allocated
  sdo_byte_array_read_with_type = do
    size ← sized
    guard (array_allocated e (size + 1))
    ct ← scanned
    guard (ltb (length ct) (size + 1))
    step (λ r. (sdor_begin_sequence r).0)
    iv_size ← uint
    iv ← field e (bin_to_b64_length iv_size) aes_iv
    guard (not (length iv == 0))
    step (λ r. (sdor_end_sequence r).0)
    n ← uint
    guard (not (n == 0))
    b64 ← string_sz
    guard (not (b64 == 0) && b64 % 4 == 0)
    guard (b64 == bin_to_b64_length n)
    guard (e.alloc n)
    bs ← field e b64 n
    guard (not (length bs == 0))
    pure (record { byte_sz = length bs; bytes = some bs }, ct, iv)

  -- The size of the HMAC is 32, whatever was read.
  unfoldable pub sdo_encrypted_packet_read : Act Sdor Packet
  unfolding sdo_byte_array_read_with_type uint field array_allocated
  sdo_encrypted_packet_read = do
    begin_object
    step (λ r. record r { need_comma = false })
    tag e (codes "ct")
    begin_sequence
    guard (e.alloc packet_size)
    guard (array_allocated e 0)
    body ← sdo_byte_array_read_with_type
    end_sequence
    step (λ r. record r { need_comma = true })
    guard (e.alloc hash_size)
    tag e (codes "hmac")
    begin_sequence
    n ← uint
    guard (array_allocated e 8)
    guard (n == 0 || e.alloc (n + 3))
    bs ← field e (bin_to_b64_length n) (if n == 0 then 8 else n + 3)
    guard (not (length bs == 0))
    end_sequence
    end_object
    pure (record {
      em_body = some body.0;
      hmac = some (record { byte_sz = 32; bytes = some bs });
      iv = body.2;
      ct_string = body.1;
    })

  write_body : Sdow → Bytes → Option Bits → Sdow
  write_body w iv none = sdo_write_string e (sdo_write_tag e w (codes "ct")) []
  write_body w iv (some body) =
      let named = sdo_write_tag e w (codes "ct") in
      if body.byte_sz == 0
      then sdo_write_string e named []
      else sdo_write_byte_array_two_int e named (some iv) aes_iv body.bytes body.byte_sz

  write_hmac : Sdow → Option Bits → Sdow
  write_hmac w none = sdo_hash_null_write e w
  write_hmac w (some hmac) = sdo_write_byte_array e w hmac.bytes hmac.byte_sz

  unfoldable pub sdo_encrypted_packet_write : Sdow → Packet → Sdow
  unfolding write_body write_hmac
  sdo_encrypted_packet_write w pkt =
      let body = write_body (sdow_begin_object e w) pkt.iv pkt.em_body in
      sdow_end_object e (write_hmac (sdo_write_tag e body (codes "hmac")) pkt.hmac)

  -- The clear text takes the place of the block's text.
  unfoldable pub clear_block : Block → Bytes → Block
  clear_block b text = record b {
    block = elim b.block [ none ↦ none | some bs ↦ some (text ++ drop (length text) bs) ];
    block_size = length text;
  }

  -- `aes_decrypt_packet` is passed; `iv` is set. A block that could not be resized is a failure, and
  -- so is an empty text, which memcpy_s refuses.
  unfoldable pub sdo_encrypted_packet_unwind :
      (Packet → Option Bytes) → Bool → Packet → Act Sdor Unit
  unfolding clear_block
  sdo_encrypted_packet_unwind decrypt iv_set pkt = do
    guard iv_set
    guard (array_allocated e 0)
    text ← from (decrypt pkt)
    step (λ r. let f = sdor_flush r in record f { b = sdo_resize_block e f.b (length text) })
    there ← gets (λ r. elim r.b.block [ none ↦ false | some bs ↦ true ])
    guard (there && ltb 0 (length text))
    step (λ r. record r { b = clear_block r.b text; have_block = true })

  -- `aes_encrypt_packet` of the block's text is passed.
  unfoldable pub sdo_encrypted_packet_windup : (Bytes → Option Packet) → ℕ → Bool → Act Sdow Unit
  unfolding sdo_encrypted_packet_write
  sdo_encrypted_packet_windup encrypt type iv_set = do
    guard iv_set
    guard (e.alloc packet_size)
    text ← gets (λ w. take w.b.block_size (bytes_of w.b.block))
    pkt ← from (encrypt text)
    modify (λ w. sdo_encrypted_packet_write (sdow_next_block w type) pkt)
