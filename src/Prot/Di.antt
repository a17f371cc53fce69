-- ===== src/Prot/Di.antt =====
-- lib/prot/di: the handlers of device initialisation, msg10 to msg13. What they call outside the
-- modelled files (lib/m-string.c, lib/sdocred.c, lib/credentials_from_file.c and the cryptography) is
-- a record of functions. The application's credentials and those of the run are one object, so both
-- pointers are null or neither is. The result 0 is success, and 1 stands for -1. The build is one
-- without DEVICE_TPM20_ENABLED. The label `err` is a return.
pub mod Lawfulness
pub mod Runs
pub mod Outcome
pub mod Accepted
use client_sdk.Base.{ℕ, Bool, true, false, ◌&&◌, ◌||◌, not, Option, none, some, ◌==◌, if◌then◌else◌}
use client_sdk.Env.{Env}
use client_sdk.Writer.{Sdow, sdow_next_block, sdow_begin_object, sdow_end_object, sdo_write_tag}
use client_sdk.Reader.{Sdor, sdor_begin_object, sdor_end_object, sdor_flush}
use client_sdk.Types.Keys.{PublicKey}
use client_sdk.Types.Rendezvous.{Hash, sdo_hash_write}
use client_sdk.Prot.{
  codes, OwnerBlk, MfgBlk, DevCred, Voucher, Prot, sdo_state_done, sdo_di_app_start,
  sdo_prot_rcv_msg,
}
use client_sdk.Prot.Machine.{StateFn, di_state_fn, Handlers}

abbrev pub sdo_di_set_credentials : ℕ
sdo_di_set_credentials = 11

abbrev pub sdo_di_set_hmac : ℕ
sdo_di_set_hmac = 12

abbrev pub sdo_di_done : ℕ
sdo_di_done = 13

abbrev pub sdo_device_state_ready1 : ℕ
sdo_device_state_ready1 = 3

abbrev pub sdo_prot_spec_version : ℕ
sdo_prot_spec_version = 113

abbrev pub encoding_x509 : ℕ
encoding_x509 = 1

abbrev pub encoding_rsa_mod_exp : ℕ
encoding_rsa_mod_exp = 3

pub record DiCalls : Type 0 where
  -- `app_get_credentials` does not return null.
  pub has_credentials : Bool
  -- `ps_get_m_string` on the writer; true is the result 0.
  pub ps_get_m_string : Sdow → Sdow × Bool
  -- `sdo_cred_mfg_alloc` and `sdo_cred_owner_alloc` do not return null.
  pub mfg_alloc : Bool
  pub owner_alloc : Bool
  -- `sdo_generate_ov_hmac_key` returns 0.
  pub generate_ov_hmac_key : Bool
  -- `sdo_ov_hdr_read` with the pointer to the HMAC: the reader, that pointer and the voucher.
  pub ov_hdr_read : Sdor → Option Hash → Sdor × Option Hash × Option Voucher
  pub pub_key_hash : Option PublicKey → Option Hash
  -- `store_credential` returns 0.
  pub store_credential : DevCred → Bool

-- `if (!test) goto err;` with the run that is left then.
unfoldable pub require : Bool → Prot → Prot × ℕ → Prot × ℕ
require true ps next = next
require false ps next = (ps, 1)

-- Where there is no message to read the handler returns 0 early.
unfoldable pub with_message : Prot → Prot × ℕ → Prot × ℕ
with_message ps handled =
    let rcv = sdo_prot_rcv_msg ps.sdor ps.state in
    if rcv.0 then handled else (record ps { state = rcv.1 }, 0)

module _ (e : Env) (c : DiCalls) where
  unfoldable pub msg10 : Prot → Prot × ℕ
  msg10 ps =
      let begun = sdow_begin_object e (sdow_next_block ps.sdow sdo_di_app_start) in
      let got = c.ps_get_m_string (sdo_write_tag e begun (codes "m")) in
      if got.1
      then (record ps { sdow = sdow_end_object e got.0; state = sdo_di_set_credentials }, 0)
      else (record ps { sdow = got.0 }, 1)

  -- The fields of the credentials that come from the voucher.
  unfoldable pub credentials_of : DevCred → MfgBlk → OwnerBlk → Voucher → DevCred
  credentials_of cred mfg owner ov = record cred {
    mfg_blk = some (record mfg { d = ov.dev_info });
    owner_blk = some (record owner {
      pv = ov.prot_version;
      pe = ov.key_encoding;
      rvlst = ov.rvlst2;
      guid = ov.g2;
      pk = ov.mfg_pub_key;
    });
  }

  -- Behind the header's last field.
  msg11_end : Prot → Prot × ℕ
  msg11_end ps =
      let ended = sdor_end_object ps.sdor in
      require ended.1 (record ps { sdor = ended.0 })
        (record ps { sdor = sdor_flush ended.0; state = sdo_di_set_hmac }, 0)

  msg11_voucher : Prot → DevCred → MfgBlk → OwnerBlk → Option Voucher → Prot × ℕ
  unfolding msg11_end credentials_of
  msg11_voucher ps cred mfg owner none = (ps, 1)
  msg11_voucher ps cred mfg owner (some ov) =
      require (ov.prot_version == sdo_prot_spec_version) ps (
        require (ov.key_encoding == encoding_x509 || ov.key_encoding == encoding_rsa_mod_exp) ps
          (msg11_end (record ps { dev_cred = some (credentials_of cred mfg owner ov) })))

  msg11_header : Prot → DevCred → MfgBlk → OwnerBlk → Prot × ℕ
  unfolding msg11_voucher
  msg11_header ps cred mfg owner =
      let got = c.ov_hdr_read ps.sdor ps.new_ov_hdr_hmac in
      let read = record ps { sdor = got.0; new_ov_hdr_hmac = got.1 } in
      require c.generate_ov_hmac_key ps (msg11_voucher read cred mfg owner got.2)

  -- The blocks that are missing are allocated; a new block is cleared.
  abbrev mfg_or_new : Option MfgBlk → Option MfgBlk
  mfg_or_new (some mfg) = some mfg
  mfg_or_new none = if c.mfg_alloc then some (record { d = none }) else none

  abbrev owner_or_new : Option OwnerBlk → Option OwnerBlk
  owner_or_new (some owner) = some owner
  owner_or_new none =
      if c.owner_alloc
      then some (record { pv = 0; pe = 0; guid = none; rvlst = none; pkh = none; pk = none })
      else none

  msg11_blocks : Prot → DevCred → Option MfgBlk → Option OwnerBlk → Prot × ℕ
  unfolding msg11_header
  msg11_blocks ps cred mfg none = (ps, 1)
  msg11_blocks ps cred none (some owner) = (ps, 1)
  msg11_blocks ps cred (some mfg) (some owner) = msg11_header ps cred mfg owner

  -- Behind the opening brace.
  msg11_body : Prot → DevCred → Prot × ℕ
  unfolding msg11_blocks
  msg11_body ps cred =
      let mfg = mfg_or_new cred.mfg_blk in
      let owner = owner_or_new cred.owner_blk in
      let filled = record cred { mfg_blk = mfg; owner_blk = owner } in
      msg11_blocks (record ps { dev_cred = some filled }) filled mfg owner

  msg11_message : Prot → DevCred → Prot × ℕ
  unfolding msg11_body
  msg11_message ps cred =
      let begun = sdor_begin_object ps.sdor in
      let ps' = record ps { sdor = begun.0 } in require begun.1 ps' (msg11_body ps' cred)

  -- The credentials that `app_get_credentials` returns.
  unfoldable pub app_credentials : Prot → Option DevCred
  app_credentials ps = if c.has_credentials then ps.dev_cred else none

  msg11_with : Prot → Option DevCred → Prot × ℕ
  unfolding msg11_message with_message
  msg11_with ps none = (ps, 1)
  msg11_with ps (some cred) = with_message ps (msg11_message ps cred)

  unfoldable pub msg11 : Prot → Prot × ℕ
  unfolding msg11_with app_credentials
  msg11 ps = msg11_with ps (app_credentials ps)

  -- The HMAC is freed and its pointer stays.
  msg12_hmac : Prot → Option Hash → Prot × ℕ
  msg12_hmac ps none = (ps, 1)
  msg12_hmac ps (some hmac) = (
    record ps { sdow = sdow_end_object e (sdo_hash_write e ps.sdow hmac); state = sdo_di_done },
    0,
  )

  unfoldable pub msg12 : Prot → Prot × ℕ
  unfolding msg12_hmac sdo_hash_write
  msg12 ps =
      let begun = sdow_begin_object e (sdow_next_block ps.sdow sdo_di_set_hmac) in
      msg12_hmac (record ps { sdow = sdo_write_tag e begun (codes "hmac") }) ps.new_ov_hdr_hmac

  -- The credentials with the state of a device that is ready for TO1, stored.
  msg13_store : Prot → DevCred → OwnerBlk → Option Hash → Prot × ℕ
  msg13_store ps cred owner none = (
    record ps { dev_cred = some (record cred { owner_blk = some (record owner { pkh = none }) }) },
    1,
  )
  msg13_store ps cred owner (some pkh) =
      let ready = record cred {
        st = sdo_device_state_ready1;
        owner_blk = some (record owner { pkh = some pkh });
      } in
      let ps' = record ps { dev_cred = some ready } in
      require (c.store_credential ready) ps' (record ps' { state = sdo_state_done }, 0)

  -- Without an owner block the C code reads through a null pointer; here the handler fails.
  msg13_owner : Prot → DevCred → Option OwnerBlk → Prot × ℕ
  unfolding msg13_store
  msg13_owner ps cred none = (ps, 1)
  msg13_owner ps cred (some owner) = msg13_store ps cred owner (c.pub_key_hash owner.pk)

  msg13_with : Prot → Option DevCred → Prot × ℕ
  unfolding msg13_owner with_message
  msg13_with ps none = (ps, 1)
  msg13_with ps (some cred) =
      with_message ps (msg13_owner (record ps { sdor = sdor_flush ps.sdor }) cred cred.owner_blk)

  unfoldable pub msg13 : Prot → Prot × ℕ
  unfolding msg13_with app_credentials
  msg13 ps = msg13_with ps (app_credentials ps)

  -- The table of DI, in front of handlers for the other tables.
  unfoldable pub di_message : ℕ → Prot → Prot × ℕ
  unfolding msg10 msg11 msg12 msg13
  di_message i ps =
      if i == 0
      then msg10 ps
      else if i == 1
      then msg11 ps
      else if i == 2
      then msg12 ps
      else msg13 ps

  unfoldable pub di_handlers : Handlers → Handlers
  unfolding di_message
  di_handlers others (di_state_fn i) ps = di_message i ps
  di_handlers others (StateFn.to1_state_fn i) ps = others (StateFn.to1_state_fn i) ps
  di_handlers others (StateFn.to2_state_fn i) ps = others (StateFn.to2_state_fn i) ps
