-- ===== src/Prot/To2/Owner.antt =====
-- lib/prot/to2: msg40 to msg43, in which the owner proves that the voucher is its own.
pub mod Quiet
pub mod Outcome
pub mod Entry
pub mod Chain
use client_sdk.Base.{
  ℕ, ◌+◌, ◌%◌, Bool, true, false, Option, none, some, Bytes, codes, ltb, ◌==◌, if◌then◌else◌,
}
use client_sdk.Act.{Act, ◌>>=◌, ◌>>◌, pure, guard, modify, gets, from}
use client_sdk.Env.{Env, bytes_of}
use client_sdk.Prot.{OvEntry, Voucher, Prot}
use client_sdk.Prot.Action.{
  rd, write, flushed, result, received, counted, read_nonce, sdo_nonce_equal,
}
use client_sdk.Prot.To1.{sdo_gid_write}
use client_sdk.Prot.To2.{To2Calls, held_hash, attempted, fresh_nonce, write_held}
use client_sdk.Types.{Bits}
use client_sdk.Types.Keys.{PublicKey, sdo_compare_public_keys, sdo_public_key_read}
use client_sdk.Types.Reading.{
  begin_sequence, end_sequence, begin_object, end_object, tag, uint, array_allocated,
  sdo_byte_array_read, sdo_hash_read, sdo_eb_read,
}
use client_sdk.Reader.{Sdor}
use client_sdk.Types.Rendezvous.{Hash}
use client_sdk.Types.Signature.{
  block_text, sdo_begin_read_signature, sdo_end_read_signature_full, sdo_ov_signature_verification,
  sdo_signature_verification,
}
use client_sdk.Writer.{
  sdow_next_block, sdow_begin_object, sdow_end_object, sdo_write_tag, sdo_write_uint,
  sdo_write_string_len,
}

abbrev uint16_mod : ℕ
uint16_mod = 65536

-- The sizes of the structs on a 64-bit target.
abbrev hash_size : ℕ
hash_size = 16

abbrev entry_size : ℕ
entry_size = 40

-- SDO_CRYPTO_HASH_TYPE_USED and SDO_SHA_DIGEST_SIZE_USED of a build with SHA-256.
abbrev pub hash_type_used : ℕ
hash_type_used = 8

abbrev pub sha_digest_size_used : ℕ
sha_digest_size_used = 32

-- The size of the buffer for the log.
abbrev pub log_size : ℕ
log_size = 2048

module _ (e : Env) (c : To2Calls) where
  abbrev named : Bytes → Prot → Prot
  named name = write (λ w. sdo_write_tag e w name)

  unfoldable pub msg40 : Act Prot Unit
  unfolding sdo_gid_write
  msg40 = do
    modify (write (λ w. sdow_begin_object e (sdow_next_block w 40)))
    modify (named (codes "g2"))
    write_held e (λ ps. ps.g2)
    modify (named (codes "n5"))
    fresh_nonce e c (λ n ps. record ps { n5 = n })
    write_held e (λ ps. ps.n5)
    modify (named (codes "pe"))
    modify (λ ps. record ps { sdow = sdo_write_uint e ps.sdow ps.key_encoding })
    modify (named (codes "kx"))
    modify
        (write (λ w. sdo_write_string_len e w (bytes_of c.kex_method.bytes) c.kex_method.byte_sz))
    modify (named (codes "cs"))
    modify (
        write
          (λ w. sdo_write_string_len e w (bytes_of c.crypto_suite.bytes) c.crypto_suite.byte_sz))
    modify (named (codes "eA"))
    modify (write (λ w. sdow_end_object e (sdo_gid_write e w)))
    modify (λ ps. record ps { state = 41 })

  read_header : Act Prot (Option Voucher)
  read_header ps =
      let got = c.ov_hdr_read ps.sdor ps.new_ov_hdr_hmac in
      (record ps { sdor = got.0; new_ov_hdr_hmac = got.1; ovoucher = got.2 }, some got.2)

  -- The HMAC of the header, which has to be the one that the device computes.
  unfoldable pub msg41_header : ℕ → Act Prot Unit
  unfolding read_header
  msg41_header n = do
    read ← read_header
    ov ← from read
    modify (λ ps. record ps { ovoucher = some (record ov { num_ov_entries = n }) })
    theirs ← from ov.ovoucher_hdr_hash
    fresh ← gets (λ ps. ps.new_ov_hdr_hmac)
    ours ← from fresh
    guard (
        c.memcmp_s (bytes_of theirs.hash.bytes) theirs.hash.byte_sz (bytes_of ours.hash.bytes)
          ours.hash.byte_sz)

  -- The nonces and the key exchange, up to the closing brace of the body.
  unfoldable pub msg41_exchange : Act Prot (Option Bits)
  msg41_exchange = do
    rd (tag e (codes "n5"))
    read_nonce e (λ n ps. record ps { n5r = n })
    rd (tag e (codes "n6"))
    read_nonce e (λ n ps. record ps { n6 = n })
    rd (tag e (codes "eB"))
    rd (sdo_eb_read e)
    rd (tag e (codes "xA"))
    guard (array_allocated e 8)
    rd begin_sequence
    xa ← rd (attempted (sdo_byte_array_read e))
    rd end_sequence
    rd end_object
    pure xa

  -- The owner's key, and what has to agree with it.
  unfoldable pub msg41_proof : ℕ → Option Bits → Act Prot Unit
  msg41_proof start xa = do
    read ← rd (sdo_end_read_signature_full e c.ov_verify start)
    modify (λ ps. record ps { owner_public_key = read.0 })
    guard read.1
    pk ← from read.0
    guard (e.alloc log_size)
    n5r ← gets (λ ps. ps.n5r)
    n5 ← gets (λ ps. ps.n5)
    guard (sdo_nonce_equal c.memcmp_s n5r n5)
    text ← gets (λ ps. ps.plain_text)
    sg ← gets (λ ps. ps.obsig)
    guard (sdo_signature_verification e c.ov_verify text sg (some pk))
    modify flushed
    guard (c.set_kex_param_a xa pk)

  -- To the entries of the voucher, where there are some.
  unfoldable pub after_header : Voucher → Prot → Prot
  after_header ov ps =
      if ov.num_ov_entries == 0
      then record ps { state = 44 }
      else record ps { ov_entry_num = 0; state = 42 }

  unfoldable pub msg41_body : Act Prot Unit
  unfolding msg41_header msg41_exchange msg41_proof after_header
  msg41_body = do
    start ← rd (sdo_begin_read_signature e)
    rd begin_object
    rd (tag e (codes "sz"))
    n ← rd uint
    msg41_header (n % uint16_mod)
    xa ← msg41_exchange
    msg41_proof start xa
    held ← gets (λ ps. ps.ovoucher)
    ov ← from held
    modify (after_header ov)

  unfoldable pub msg42 : Act Prot Unit
  msg42 = do
    modify (write (λ w. sdow_begin_object e (sdow_next_block w 42)))
    modify (named (codes "enn"))
    modify (λ ps. record ps { sdow = sdow_end_object e (sdo_write_uint e ps.sdow ps.ov_entry_num) })
    modify (λ ps. record ps { state = 43 })

  -- The number of the entry, which has to be the one that was asked for; the cursor of the signature.
  unfoldable pub msg43_number : Act Prot ℕ
  msg43_number = do
    rd begin_object
    rd (tag e (codes "enn"))
    n ← rd uint
    num ← gets (λ ps. ps.ov_entry_num)
    guard (n % uint16_mod == num)
    rd (tag e (codes "eni"))
    rd (sdo_begin_read_signature e)

  -- The hashes and the key of the entry, between its braces.
  unfoldable pub msg43_fields : Act Sdor OvEntry
  msg43_fields = do
    begin_object
    guard (e.alloc entry_size)
    tag e (codes "hp")
    guard (e.alloc hash_size)
    guard (array_allocated e 0)
    hp ← sdo_hash_read e true
    tag e (codes "hc")
    guard (e.alloc hash_size)
    guard (array_allocated e 0)
    hc ← sdo_hash_read e true
    tag e (codes "pk")
    pk ← sdo_public_key_read e
    end_object
    pure (record { hp_hash = hp; hc_hash = hc; pk = pk })

  abbrev pub comma_cleared : Sdor → Sdor
  comma_cleared r = record r { need_comma = false }

  -- The entry, and the hash of its text.
  unfoldable pub msg43_entry : Act Prot (OvEntry × Hash)
  unfolding msg43_fields
  msg43_entry = do
    modify (λ ps. record ps { sdor = comma_cleared ps.sdor })
    start ← gets (λ ps. ps.sdor.b.cursor)
    entry ← rd msg43_fields
    ptr ← gets (λ ps. block_text start ps.sdor)
    text ← from ptr
    guard (e.alloc hash_size)
    guard (array_allocated e sha_digest_size_used)
    digest ← from (c.crypto_hash text)
    pure (
      entry,
      record {
        hash_type = hash_type_used;
        hash = record { byte_sz = sha_digest_size_used; bytes = some digest };
      },
    )

  -- The entry against what the voucher holds, which then holds the hash and the key of the entry.
  unfoldable pub msg43_checks : ℕ → OvEntry → Hash → Voucher → OvEntry → Act Prot Unit
  msg43_checks start entry digest ov held = do
    rd (sdo_ov_signature_verification e c.ov_verify start held.pk)
    modify flushed
    guard (held_hash c.memcmp_s held.hp_hash entry.hp_hash)
    guard (held_hash c.memcmp_s held.hc_hash entry.hc_hash)
    modify (λ ps. record ps {
      ovoucher =
          some (record ov { ov_entries = some (record held { hp_hash = digest; pk = entry.pk }) });
      ov_entry_num = (ps.ov_entry_num + 1) % uint16_mod;
    })

  -- On to the next entry, or to the proof of the device where the last key is the owner's.
  unfoldable pub msg43_next : Voucher → Option PublicKey → ℕ → Act Prot Unit
  msg43_next ov pk num =
      if ltb num ov.num_ov_entries
      then modify (λ ps. record ps { state = 42 })
      else (gets (λ ps. ps.owner_public_key) >>= λ owner.
          guard (sdo_compare_public_keys c.memcmp_s owner pk)
          >> modify (λ ps. record ps { state = 44 }))

  unfoldable pub msg43_body : Act Prot Unit
  unfolding msg43_number msg43_entry msg43_checks msg43_next
  msg43_body = do
    start ← msg43_number
    read ← msg43_entry
    voucher ← gets (λ ps. ps.ovoucher)
    ov ← from voucher
    held ← from ov.ov_entries
    msg43_checks start read.0 read.1 ov held
    num ← gets (λ ps. ps.ov_entry_num)
    msg43_next ov read.0.pk num
