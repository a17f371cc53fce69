-- ===== src/Prot/To2/Finish.antt =====
-- lib/prot/to2: msg50 and msg51, the new credentials and the end of TO2, and the table of TO2. What
-- `sdo_generate_storage_hmac_key` and the modules' end return is only logged.
pub mod Quiet
pub mod Renewed
pub mod Outcome
use client_sdk.Base.{
  ℕ, Bool, true, false, ◌&&◌, Option, none, some, [], ◌∷◌, replicate, codes, ◌==◌, if◌then◌else◌,
}
use client_sdk.Act.{Act, ◌>>=◌, ◌>>◌, pure, guard, modify, gets, from}
use client_sdk.Env.{Env}
use client_sdk.Prot.{DevCred, OwnerBlk, OwnerSupplied, Prot, sdo_state_done}
use client_sdk.Prot.Action.{rd, write, flushed, result, received, counted, sdo_nonce_equal}
use client_sdk.Prot.Di.{sdo_device_state_ready1}
use client_sdk.Prot.To2.{To2Calls, write_held, opened, sealed}
use client_sdk.Prot.To2.Device.{msg44, msg45_body, msg46}
use client_sdk.Prot.To2.Info.{msg47_body, msg48, msg49_body}
use client_sdk.Prot.To2.Owner.{msg40, msg41_body, msg42, msg43_body, sha_digest_size_used}
use client_sdk.Types.Comparison.{sdo_compare_byte_arrays, sdo_compare_rv_lists}
use client_sdk.Types.Keys.{sdo_compare_public_keys}
use client_sdk.Types.Reading.{begin_object, end_object, tag, read_chars, array_allocated}
use client_sdk.Types.Rendezvous.{Hash, sdo_hash_write}
use client_sdk.Writer.{sdow_next_block, sdow_begin_object, sdow_end_object, sdo_write_tag}

abbrev pub sdo_device_state_idle : ℕ
sdo_device_state_idle = 5

-- SDO_CRYPTO_HMAC_TYPE_USED of a build with SHA-256, and the size of `sdo_hash_t`.
abbrev hmac_type_used : ℕ
hmac_type_used = 108

abbrev hash_size : ℕ
hash_size = 16

-- The device's credentials with another owner block, where there is one.
unfoldable pub set_owner : (DevCred → OwnerBlk → DevCred) → DevCred → Option OwnerBlk → DevCred
set_owner f cred none = cred
set_owner f cred (some owner) = f cred owner

unfoldable pub owner_updated : (DevCred → OwnerBlk → DevCred) → Option DevCred → Option DevCred
unfolding set_owner
owner_updated f none = none
owner_updated f (some cred) = some (set_owner f cred cred.owner_blk)

abbrev pub with_owner : (DevCred → OwnerBlk → DevCred) → Prot → Prot
with_owner f ps = record ps { dev_cred = owner_updated f ps.dev_cred }

unfoldable pub status_updated : ℕ → Option DevCred → Option DevCred
status_updated st none = none
status_updated st (some cred) = some (record cred { st = st })

abbrev pub with_status : ℕ → Prot → Prot
with_status st ps = record ps { dev_cred = status_updated st ps.dev_cred }

module _ (e : Env) (c : To2Calls) where
  -- Whether the new credentials are the old ones.
  unfoldable pub is_reuse : Prot → OwnerBlk → OwnerSupplied → Bool
  is_reuse ps owner osc =
      sdo_compare_public_keys c.memcmp_s ps.owner_public_key ps.new_pk
      && (sdo_compare_byte_arrays c.memcmp_s owner.guid osc.guid
          && sdo_compare_rv_lists owner.rvlst osc.rvlst)

  -- The GUID and the rendezvous list of the owner take the place of those of the device.
  unfoldable pub msg50_credentials : OwnerBlk → OwnerSupplied → Prot → Prot
  unfolding is_reuse owner_updated
  msg50_credentials owner osc ps =
      let reused = if is_reuse ps owner osc then true else ps.reuse_enabled in
      with_owner
        (λ cred old. record cred {
          owner_blk = some (record old { guid = osc.guid; rvlst = osc.rvlst });
        })
        (record ps { reuse_enabled = reused; owner_public_key = none })

  -- `=` in place of an HMAC.
  unfoldable pub reuse_hmac : Act Prot Hash
  unfolding status_updated
  reuse_hmac = do
    guard (e.alloc hash_size && array_allocated e 1)
    modify (with_status sdo_device_state_ready1)
    pure (record { hash_type = 0; hash = record { byte_sz = 1; bytes = some (codes "=") } })

  -- The HMAC for the next owner's voucher, whose key's hash is kept.
  unfoldable pub resale_hmac : Act Prot Hash
  unfolding owner_updated
  resale_hmac = do
    held ← gets (λ ps. ps.dev_cred)
    cred ← from held
    next ← gets (λ ps. ps.new_pk)
    voucher ← gets (λ ps. ps.ovoucher)
    ov ← from voucher
    hmac ← from (c.new_ov_hdr_sign cred next ov.hdc)
    modify (
        with_owner
          (λ cr old. record cr { owner_blk = some (record old { pkh = c.pub_key_hash next }) }))
    pure hmac

  -- An HMAC of no bytes.
  unfoldable pub no_hmac : Act Prot Hash
  no_hmac = do
    guard (e.alloc hash_size && array_allocated e sha_digest_size_used)
    pure (record {
      hash_type = hmac_type_used;
      hash = record { byte_sz = 0; bytes = some (replicate sha_digest_size_used 0) };
    })

  unfoldable pub new_hmac : Bool → Act Prot Hash
  unfolding status_updated
  new_hmac resale = do
    guard c.generate_ov_hmac_key
    hmac ← (if resale then resale_hmac else no_hmac)
    modify (with_status sdo_device_state_idle)
    pure hmac

  unfoldable pub msg50_hmac : Act Prot Hash
  unfolding reuse_hmac new_hmac
  msg50_hmac = gets (λ ps. ps.reuse_enabled && c.reuse_supported) >>= λ reuse.
      if reuse then reuse_hmac else new_hmac c.resale_supported

  unfoldable pub msg50_send : Hash → Act Prot Unit
  unfolding sealed
  msg50_send hmac = do
    modify (write (λ w. sdow_begin_object e (sdow_next_block w 50)))
    modify (write (λ w. sdo_hash_write e (sdo_write_tag e w (codes "hmac")) hmac))
    modify (write (λ w. sdo_write_tag e w (codes "n6")))
    write_held e (λ ps. ps.n6)
    modify (write (sdow_end_object e))
    sealed e c 50

  -- The credentials are stored in front of the message.
  unfoldable pub msg50_stored : Hash → Act Prot Unit
  unfolding msg50_send
  msg50_stored hmac = do
    modify (λ ps. record ps { new_pk = none })
    kept ← gets (λ ps. ps.dev_cred)
    stored ← from kept
    guard (c.store_credential stored)
    msg50_send hmac
    modify (λ ps. record ps { success = true; state = 51 })

  unfoldable pub msg50 : Act Prot Unit
  unfolding msg50_credentials msg50_hmac msg50_stored
  msg50 = do
    supplied ← gets (λ ps. ps.osc)
    osc ← from supplied
    held ← gets (λ ps. ps.dev_cred)
    cred ← from held
    owner ← from cred.owner_blk
    modify (msg50_credentials owner osc)
    hmac ← msg50_hmac
    msg50_stored hmac

  -- The nonce is read into the array of msg47.
  unfoldable pub msg51_body : Act Prot Unit
  unfolding opened
  msg51_body = do
    opened e c
    rd begin_object
    rd (tag e (codes "n7"))
    held ← gets (λ ps. ps.n7r)
    ba ← from held
    n ← rd (read_chars e ba)
    modify (λ ps. record ps { n7r = some n })
    rd end_object
    n7r ← gets (λ ps. ps.n7r)
    n7 ← gets (λ ps. ps.n7)
    guard (sdo_nonce_equal c.memcmp_s n7r n7)
    modify flushed
    modify (λ ps. record ps { state = sdo_state_done; success = true })
    modify (λ ps. record ps { sv_info_mod_list_head = c.exec_sv_end ps.sv_info_mod_list_head })

  -- The table of TO2, by its index.
  unfoldable pub to2_message : ℕ → Prot → Prot × ℕ
  unfolding msg40 msg41_body msg42 msg43_body msg44 msg45_body msg46 msg47_body msg48 msg49_body
      msg50 msg51_body
  to2_message i ps =
      if i == 0
      then result (msg40 e c ps)
      else if i == 1
      then counted e (received (msg41_body e c)) ps
      else if i == 2
      then result (msg42 e c ps)
      else if i == 3
      then counted e (received (msg43_body e c)) ps
      else if i == 4
      then msg44 e c ps
      else if i == 5
      then counted e (received (msg45_body e c)) ps
      else if i == 6
      then result (msg46 e c ps)
      else if i == 7
      then counted e (received (msg47_body e c)) ps
      else if i == 8
      then result (msg48 e c ps)
      else if i == 9
      then counted e (received (msg49_body e c)) ps
      else if i == 10
      then result (msg50 ps)
      else counted e (received msg51_body) ps
