-- ===== src/Prot/To1.antt =====
-- lib/prot/to1: the handlers of TO1, msg30 to msg33. Signing is a parameter. The device is one with an
-- owner block and a GUID; without them the C code reads through a null pointer, and here the handler
-- fails. A read value that is only freed again is left out.
pub mod Quiet
pub mod Outcome
pub mod Moves
use client_sdk.Base.{
  ℕ, ◌-◌, Bool, true, false, not, Option, none, some, Bytes, ◌∷◌, [], codes, length, ◌==◌,
  if◌then◌else◌,
}
use client_sdk.Act.{Act, ◌>>=◌, ◌>>◌, pure, guard, modify, gets, from, fail}
use client_sdk.Env.{Env}
use client_sdk.Prot.{DevCred, OwnerBlk, Prot, owner_blk_of, sdo_state_done}
use client_sdk.Prot.Action.{rd, wr, wrote, write, flushed, result, received, on_failure, read_nonce}
use client_sdk.Reader.{sdo_read_uint}
use client_sdk.Types.{Bits, sdo_bits_alloc}
use client_sdk.Types.ByteArray.{sdo_byte_array_write_chars}
use client_sdk.Types.Keys.{sdo_public_key_read}
use client_sdk.Types.Reading.{
  begin_sequence, end_sequence, begin_object, end_object, tag, uint, array_allocated, sdo_pk_algo,
  sdo_byte_array_read, sdo_hash_read, sdo_read_ipaddress, sdo_read_dns, sdo_eb_read,
}
use client_sdk.Types.Signature.{
  block_text, sdo_begin_read_signature, sdo_begin_write_signature, sdo_end_write_signature,
}
use client_sdk.Writer.{Sdow, sdow_next_block, sdow_begin_object, sdow_end_object, sdo_write_tag}
use client_sdk.Writer.Arrays.{sdo_write_byte_array_one_int, sdo_write_byte_array_one_int_first}

-- The size of `sdo_hash_t`.
abbrev hash_size : ℕ
hash_size = 16

-- The GUID of the device.
abbrev pub guid_of : Prot → Option Bits
guid_of ps = elim (owner_blk_of ps.dev_cred) [ none ↦ none | some owner ↦ owner.guid ]

abbrev pub without_signature : Prot → Prot
without_signature ps = record ps { obsig = none }

module _ (e : Env) where
  -- `sdo_gid_write` and `sdo_app_id_write`, whose bytes are APPID in network order.
  unfoldable pub sdo_gid_write : Sdow → Sdow
  sdo_gid_write w = sdo_write_byte_array_one_int_first e w sdo_pk_algo none 0

  unfoldable pub sdo_app_id_write : Sdow → Sdow
  sdo_app_id_write w = sdo_write_byte_array_one_int e w 2 (some (1 ∷ 2 ∷ 3 ∷ 4 ∷ [])) 4

  -- A tag with an array of bytes as text.
  abbrev pub tagged_chars : Bytes → Bits → Sdow → Sdow
  tagged_chars name ba w = sdo_byte_array_write_chars e (sdo_write_tag e w name) ba

  unfoldable pub msg30 : Act Prot Unit
  unfolding sdo_gid_write
  msg30 = do
    modify (write (λ w. sdow_begin_object e (sdow_next_block w 30)))
    guid ← gets guid_of
    g2 ← from guid
    modify (write (tagged_chars (codes "g2") g2))
    modify (write (λ w. sdow_end_object e (sdo_gid_write (sdo_write_tag e w (codes "eA")))))
    modify (λ ps. record ps { state = 31 })

  unfoldable pub msg31_body : Act Prot Unit
  msg31_body = do
    rd begin_object
    rd (tag e (codes "n4"))
    read_nonce e (λ n ps. record ps { n4 = n })
    rd (tag e (codes "eB"))
    rd (sdo_eb_read e)
    rd end_object
    modify flushed
    modify (λ ps. record ps { state = 32 })

  -- The nonce is freed once it is written.
  unfoldable pub msg32 : (Bytes → Option Bits) → Act Prot Unit
  unfolding sdo_app_id_write
  msg32 sign = do
    modify (write (λ w. sdow_next_block w 32))
    start ← wrote (sdo_begin_write_signature e)
    modify (write (λ w. sdo_app_id_write (sdo_write_tag e (sdow_begin_object e w) (codes "ai"))))
    modify (write (λ w. sdo_write_tag e w (codes "n4")))
    nonce ← gets (λ ps. ps.n4)
    n4 ← from nonce
    modify (write (λ w. sdo_byte_array_write_chars e w n4))
    modify (λ ps. record ps { n4 = none })
    guid ← gets guid_of
    g2 ← from guid
    modify (write (tagged_chars (codes "g2") g2))
    modify (write (sdow_end_object e))
    wr (sdo_end_write_signature e sign start)
    modify (λ ps. record ps { state = 33 })

  -- The text that the owner's key has to sign is copied. Without it the state is DONE.
  unfoldable pub redirect_text : Option Bytes → Act Prot Unit
  redirect_text none = do modify (λ ps. record ps { state = sdo_state_done }); fail
  redirect_text (some text) = do
    modify (λ ps. record ps { plain_text = sdo_bits_alloc e (length text) })
    guard (array_allocated e (length text))
    guard (not (length text == 0))
    modify (λ ps. record ps {
      plain_text = some (record { byte_sz = length text; bytes = some text });
    })

  -- Up to the closing brace of the body.
  unfoldable pub msg33_owner : Act Prot Unit
  msg33_owner = do
    rd begin_object
    rd (tag e (codes "i1"))
    i1 ← rd (sdo_read_ipaddress e)
    modify (λ ps. record ps { i1 = i1 })
    rd (tag e (codes "dns1"))
    dns1 ← rd (sdo_read_dns e)
    modify (λ ps. record ps { dns1 = dns1 })
    rd (tag e (codes "port1"))
    port1 ← rd uint
    modify (λ ps. record ps { port1 = port1 })
    rd (tag e (codes "to0dh"))
    guard (e.alloc hash_size)
    ob_hash ← rd (sdo_hash_read e false)
    rd end_object

  -- The signature; the key is read and freed.
  unfoldable pub msg33_signature : Act Prot Unit
  msg33_signature = do
    rd (tag e (codes "pk"))
    pk ← rd (sdo_public_key_read e)
    rd (tag e (codes "sg"))
    rd begin_sequence
    modify (λ ps. record ps { obsig = sdo_bits_alloc e 16 })
    guard (array_allocated e 16)
    sg ← rd (sdo_byte_array_read e)
    modify (λ ps. record ps { obsig = some sg })
    rd end_sequence
    rd end_object

  unfoldable pub msg33_body : Act Prot Unit
  unfolding msg33_owner redirect_text msg33_signature
  msg33_body = do
    start ← rd (sdo_begin_read_signature e)
    msg33_owner
    text ← gets (λ ps. block_text start ps.sdor)
    redirect_text text
    msg33_signature
    modify flushed
    modify (λ ps. record ps { state = sdo_state_done })

  -- The table of TO1, by its index.
  unfoldable pub to1_message : (Bytes → Option Bits) → ℕ → Prot → Prot × ℕ
  unfolding msg30 msg31_body msg32 msg33_body
  to1_message sign i ps =
      if i == 0
      then result (msg30 ps)
      else if i == 1
      then received msg31_body ps
      else if i == 2
      then result (msg32 sign ps)
      else received (on_failure without_signature msg33_body) ps
