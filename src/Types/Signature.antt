-- ===== src/Types/Signature.antt =====
-- lib/sdotypes.c: signatures over the text between two braces of a message. Signing and checking a
-- signature (crypto/) are parameters, and so is the HMAC. A text that a signature is over is copied: its last byte
-- is saved and put back around nothing.
pub mod Receive
pub mod Verified
use client_sdk.Base.{
  ℕ, ◌+◌, ◌-◌, Bool, true, false, Option, none, some, Bytes, codes, drop, take, set, if◌then◌else◌,
}
use client_sdk.Act.{Act, ◌>>=◌, ◌>>◌, pure, guard, gets, from, modify}
use client_sdk.Block.{sdo_resize_block}
use client_sdk.Env.{Env, bytes_of}
use client_sdk.Reader.{Sdor, sdor_get_block_ptr}
use client_sdk.Types.{Bits}
use client_sdk.Types.Keys.{
  PublicKey, sdo_public_key_read, sdo_public_key_write, sdo_public_key_clone, sdo_read_pk_null,
}
use client_sdk.Types.Reading.{
  begin_sequence, end_sequence, begin_object, end_object, tag, sdo_byte_array_read, array_allocated,
}
use client_sdk.Writer.{Sdow, sdow_begin_object, sdow_end_object, sdo_write_tag}
use client_sdk.Writer.Arrays.{sdo_write_byte_array}

-- `sdo_ov_verify(text, …, signature, …, key, &result)` returns 0 and leaves true.
abbrev pub OvVerify : Type 0
OvVerify = Bytes → Bytes → PublicKey → Bool

text_from : ℕ → Sdor → Option Bytes → Option Bytes
text_from start r none = none
text_from start r (some bs) = some (take (r.b.cursor - start) bs)

-- The text from a cursor to the present one; `none` is a null pointer.
unfoldable pub block_text : ℕ → Sdor → Option Bytes
unfolding text_from
block_text start r = text_from start r (sdor_get_block_ptr r (some start))

-- An array whose reading fails is empty.
signature_or_empty : Option Bits → Bytes
signature_or_empty none = bytes_of none
signature_or_empty (some sg) = bytes_of sg.bytes

-- The result of reading the signature is not looked at.
unchecked : Act Sdor Bits → Act Sdor Bytes
unfolding signature_or_empty
unchecked m r = let got = m r in (got.0, some (signature_or_empty got.1))

-- Whether an action succeeds.
unfoldable pub tried : Act Sdor Unit → Act Sdor Bool
tried m r = let got = m r in (got.0, some (elim got.1 [ none ↦ false | some u ↦ true ]))

module _ (e : Env) where
  -- The cursor behind the tag.
  unfoldable pub sdo_begin_read_signature : Act Sdor ℕ
  sdo_begin_read_signature = do begin_object; tag e (codes "bo"); gets (λ r. r.b.cursor)

  -- The null key and the signature that stand behind a signed text.
  unfoldable pub signature_read : Act Sdor Bytes
  unfolding sdo_read_pk_null sdo_byte_array_read array_allocated unchecked
  signature_read = do
    sdo_read_pk_null e
    tag e (codes "sg")
    begin_sequence
    guard (array_allocated e 16)
    sg ← unchecked (sdo_byte_array_read e)
    end_sequence
    end_object
    pure sg

  module _ (ov_verify : OvVerify) where
    -- The signature behind the key, which has to be good.
    unfoldable pub signature_checked : Bytes → PublicKey → Act Sdor Unit
    unfolding sdo_byte_array_read array_allocated
    signature_checked text pk = do
      guard (array_allocated e 1)
      sg ← sdo_byte_array_read e
      end_sequence
      end_object
      guard (ov_verify text (bytes_of sg.bytes) pk)

    -- A copy of the key in the message, which is null where there is no memory for it, and whether the
    -- signature is good: the copy is handed out in any case.
    unfoldable pub sdo_end_read_signature_full : ℕ → Act Sdor (Option PublicKey × Bool)
    unfolding sdo_public_key_read signature_checked tried
    sdo_end_read_signature_full start = do
      ptr ← gets (block_text start)
      text ← from ptr
      tag e (codes "pk")
      read ← sdo_public_key_read e
      pk ← from read
      tag e (codes "sg")
      begin_sequence
      good ← tried (signature_checked text pk)
      pure (sdo_public_key_clone e (some pk), good)

    unfoldable pub sdo_ov_signature_verification : ℕ → Option PublicKey → Act Sdor Unit
    unfolding signature_read
    sdo_ov_signature_verification start key = do
      pk ← from key
      ptr ← gets (block_text start)
      text ← from ptr
      sg ← signature_read
      guard (ov_verify text sg pk)

    verified : PublicKey → Option Bits → Option Bytes → Option Bytes → Bool
    verified pk none text sg = false
    verified pk (some key1) none sg = false
    verified pk (some key1) (some text) none = false
    verified pk (some key1) (some text) (some sg) = ov_verify text sg pk

    unfoldable pub sdo_signature_verification : Option Bits → Option Bits → Option PublicKey → Bool
    unfolding verified
    sdo_signature_verification none sg pk = false
    sdo_signature_verification (some text) none pk = false
    sdo_signature_verification (some text) (some sg) none = false
    sdo_signature_verification (some text) (some sg) (some pk) =
        verified pk pk.key1 text.bytes sg.bytes

  -- The writer, and the cursor behind the tag.
  unfoldable pub sdo_begin_write_signature : Sdow → Sdow × ℕ
  sdo_begin_write_signature w =
      let named = sdo_write_tag e (sdow_begin_object e w) (codes "bo") in (named, named.b.cursor)

  -- The block with a terminator behind its text.
  abbrev terminated : Sdow → Sdow
  terminated w =
      let b = sdo_resize_block e w.b (w.b.cursor + 1) in
      record w {
        b = record b { block = elim b.block [ none ↦ none | some bs ↦ some (set bs b.cursor 0) ] };
      }

  -- `sdo_device_sign` of a text is passed.
  unfoldable pub sdo_end_write_signature : (Bytes → Option Bits) → ℕ → Act Sdow Unit
  unfolding sdo_public_key_write
  sdo_end_write_signature sign start = do
    modify (terminated)
    text ← gets (λ w. take (w.b.cursor - start) (drop start (bytes_of w.b.block)))
    size ← gets (λ w. w.b.cursor - start)
    guard (e.alloc size)
    sg ← from (sign text)
    modify (λ w. sdow_end_object e (
        sdo_write_byte_array e
          (sdo_write_tag e (sdo_public_key_write e (sdo_write_tag e w (codes "pk")) none)
            (codes "sg"))
          sg.bytes sg.byte_sz))
