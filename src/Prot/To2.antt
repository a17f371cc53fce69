-- ===== src/Prot/To2.antt =====
-- lib/prot/to2: the handlers of TO2, msg40 to msg51. What they call outside the modelled files (the
-- cryptography, lib/sdocred.c, the credentials' files, the modules) is a record of functions, which
-- say what the calls do while one handler runs. A pointer that the C code reads through without a test
-- is one that is set; the handler fails here where it is null.
pub mod Owner
pub mod Device
pub mod Info
pub mod Finish
pub mod Quiet
pub mod Moves
use client_sdk.Base.{ℕ, Bool, true, false, Option, none, some, Bytes}
use client_sdk.Act.{Act, ◌>>=◌, ◌>>◌, guard, modify, gets, from}
use client_sdk.Env.{Env, bytes_of}
use client_sdk.Prot.{Address, DevCred, Voucher, Prot}
use client_sdk.Prot.Action.{rd, wr, write, sdo_nonce_bytes}
use client_sdk.Reader.{Sdor, sdor_next_block}
use client_sdk.Types.{Bits, sdo_bits_alloc}
use client_sdk.Types.ByteArray.{sdo_byte_array_write_chars}
use client_sdk.Types.Comparison.{Memcmp}
use client_sdk.Types.Keys.{PublicKey}
use client_sdk.Types.Modules.{SiKeyValue}
use client_sdk.Types.Packet.{
  Packet, sdo_encrypted_packet_read, sdo_encrypted_packet_unwind, sdo_encrypted_packet_windup,
}
use client_sdk.Types.Reading.{array_allocated}
use client_sdk.Types.Rendezvous.{Hash, RendezvousList}
use client_sdk.Types.Signature.{OvVerify}
use client_sdk.Writer.{Sdow}

-- A module list or `dsi_info` that a callback changes is a new address.
pub record To2Calls : Type 0 where
  pub memcmp_s : Memcmp
  -- `sdo_get_device_kex_method` and `sdo_get_device_crypto_suite`.
  pub kex_method : Bits
  pub crypto_suite : Bits
  -- The bytes of `sdo_nonce_init_rand`.
  pub nonce_rand : Bytes
  -- `sdo_ov_hdr_read` with the pointer to the HMAC: the reader, that pointer and the voucher.
  pub ov_hdr_read : Sdor → Option Hash → Sdor × Option Hash × Option Voucher
  pub ov_verify : OvVerify
  -- `sdo_set_kex_paramA` returns 0; an array whose reading failed is `none`.
  pub set_kex_param_a : Option Bits → PublicKey → Bool
  -- Whether `sdo_get_kex_paramB` returns 0, and the array.
  pub get_kex_param_b : Bool × Option Bits
  -- `sdo_crypto_hash` of a text, where it returns 0.
  pub crypto_hash : Bytes → Option Bytes
  -- `sdo_device_sign`, `aes_encrypt_packet` and `aes_decrypt_packet`.
  pub device_sign : Bytes → Option Bits
  pub encrypt : Bytes → Option Packet
  pub decrypt : Packet → Option Bytes
  -- `sdo_get_dsi_count`: the list, the count, whether it is true, and whether a module has returned
  -- SDO_SI_INTERNAL_ERROR.
  pub get_dsi_count : Option Address → Option Address × ℕ × Bool × Bool
  pub psi_parsing : Option Address → Option Bytes → ℕ → Option Address × Bool
  pub construct_module_dsi : Option Address → Option Address × Option SiKeyValue
  pub osi_parsing : Sdor → Option Address → Sdor × Option Address × Bool
  pub exec_sv_end : Option Address → Option Address
  -- `sdo_rendezvous_list_read`, whose result is not looked at.
  pub rendezvous_list_read : Sdor → RendezvousList → Sdor × RendezvousList
  -- `sdo_generate_ov_hmac_key` and `store_credential` return 0.
  pub generate_ov_hmac_key : Bool
  pub store_credential : DevCred → Bool
  pub new_ov_hdr_sign : DevCred → Option PublicKey → Option Hash → Option Hash
  pub pub_key_hash : Option PublicKey → Option Hash
  -- The two settings of the build.
  pub reuse_supported : Bool
  pub resale_supported : Bool

-- The bytes of a hash that is held are the first ones of a hash that is received.
abbrev pub held_hash : Memcmp → Hash → Hash → Bool
held_hash memcmp_s held got =
    memcmp_s (bytes_of held.hash.bytes) held.hash.byte_sz (bytes_of got.hash.bytes)
      held.hash.byte_sz

-- An action whose failure is not looked at.
unfoldable pub attempted : {S A : Type 0} → Act S A → Act S (Option A)
attempted m s = let got = m s in (got.0, some got.1)

abbrev pub iv_set : Prot → Bool
iv_set ps = elim ps.iv [ none ↦ false | some iv ↦ true ]

module _ (e : Env) where
  -- The characters of an array that the run has.
  unfoldable pub write_held : (Prot → Option Bits) → Act Prot Unit
  write_held field = do
    held ← gets field
    ba ← from held
    modify (write (λ w. sdo_byte_array_write_chars e w ba))

module _ (e : Env) (c : To2Calls) where
  -- A nonce in a new array, that the run points to.
  unfoldable pub fresh_nonce : (Option Bits → Prot → Prot) → Act Prot Unit
  fresh_nonce set = do
    modify (set (sdo_bits_alloc e sdo_nonce_bytes))
    guard (array_allocated e sdo_nonce_bytes)
    modify (set (some (record { byte_sz = sdo_nonce_bytes; bytes = some c.nonce_rand })))

  -- The block is decrypted.
  unfoldable pub opened : Act Prot Unit
  opened = do
    pkt ← rd (sdo_encrypted_packet_read e)
    iv ← gets iv_set
    rd (sdo_encrypted_packet_unwind e c.decrypt iv pkt)

  -- `sdor_next_block` behind the decryption.
  unfoldable pub header_passed : Act Prot ℕ
  header_passed = do next ← gets (λ ps. sdor_next_block ps.sdor); from next

  -- The block is encrypted.
  unfoldable pub sealed : ℕ → Act Prot Unit
  sealed type = do iv ← gets iv_set; wr (sdo_encrypted_packet_windup e c.encrypt type iv)
