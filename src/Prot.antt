-- ===== src/Prot.antt =====
-- lib/sdoprot.c and lib/include/sdoprot.h: the state of a protocol run, `sdo_prot_t`, and the
-- operations on it. A pointer is the object that it points to, or its address where the handlers only
-- test it and pass it on, and `none` is null. The fields that no handler uses are left out.
pub mod Machine
pub mod Rounds
pub mod Errors
pub mod Termination
pub mod Di
pub mod Action
pub mod Nonces
pub mod Steps
pub mod Moves
pub mod To1
pub mod To2
pub mod Tables
pub use client_sdk.Base.{codes}
use client_sdk.Base.{
  ℕ, ◌+◌, ◌%◌, Bool, true, false, ◌&&◌, not, Option, none, some, ◌∷◌, [], Bytes, ltb, if◌then◌else◌,
}
use client_sdk.Decimal.{u32_mod}
use client_sdk.Env.{Env}
use client_sdk.Writer.{
  Sdow, sdow_next_block, sdow_begin_object, sdow_end_object, sdo_write_tag, sdo_write_uint,
  sdo_write_string,
}
use client_sdk.Rest.{IpAddress}
use client_sdk.Types.{Bits}
use client_sdk.Types.ServiceInfo.{ServiceInfo}
use client_sdk.Types.Keys.{PublicKey}
use client_sdk.Types.Rendezvous.{Hash, RendezvousList}
use client_sdk.Reader.{Sdor, sdor_have_block, sdor_next_block}

abbrev pub Address : Type 0
Address = ℕ

-- `sdo_cred_owner_t`, `sdo_cred_mfg_t` and `sdo_dev_cred_t`, as far as the handlers
-- use them.
pub record OwnerBlk : Type 0 where
  pub pv : ℕ
  pub pe : ℕ
  pub guid : Option Bits
  pub rvlst : Option RendezvousList
  pub pkh : Option Hash
  pub pk : Option PublicKey

pub record MfgBlk : Type 0 where
  pub d : Option Address

pub record DevCred : Type 0 where
  pub st : ℕ
  pub mfg_blk : Option MfgBlk
  pub owner_blk : Option OwnerBlk

-- `sdo_ov_entry_t`: what the next entry of a voucher has to match.
pub record OvEntry : Type 0 where
  pub hp_hash : Hash
  pub hc_hash : Hash
  pub pk : Option PublicKey

-- `sdo_ownership_voucher_t`.
pub record Voucher : Type 0 where
  pub prot_version : ℕ
  pub key_encoding : ℕ
  pub rvlst2 : Option RendezvousList
  pub g2 : Option Bits
  pub dev_info : Option Address
  pub mfg_pub_key : Option PublicKey
  pub ovoucher_hdr_hash : Option Hash
  pub num_ov_entries : ℕ  -- uint16_t
  pub ov_entries : Option OvEntry
  pub hdc : Option Hash

-- `sdo_owner_supplied_credentials_t`, without the list of service information, which stays empty.
pub record OwnerSupplied : Type 0 where
  pub rvlst : Option RendezvousList
  pub guid : Option Bits

pub record Prot : Type 0 where
  pub state : ℕ
  pub success : Bool
  pub sdor : Sdor
  pub sdow : Sdow
  pub g2 : Option Bits
  pub i1 : IpAddress
  pub port1 : ℕ  -- uint32_t
  pub dns1 : Option Bytes
  pub key_encoding : ℕ
  pub new_pk : Option PublicKey
  pub dev_cred : Option DevCred
  pub owner_public_key : Option PublicKey
  pub iv : Option Address
  pub service_info : Option ServiceInfo
  pub ov_entry_num : ℕ  -- uint16_t
  pub ovoucher : Option Voucher
  pub new_ov_hdr_hmac : Option Hash
  pub serv_req_info_num : ℕ  -- uint16_t
  pub owner_supplied_service_info_count : ℕ
  pub owner_supplied_service_info_num : ℕ
  pub owner_supplied_service_info_rcv : ℕ
  pub osc : Option OwnerSupplied
  pub n4 : Option Bits
  pub n5 : Option Bits
  pub n7 : Option Bits
  pub n5r : Option Bits
  pub n6 : Option Bits
  pub n7r : Option Bits
  pub plain_text : Option Bits  -- of `sdo_redirect`
  pub obsig : Option Bits  -- of `sdo_redirect`
  pub round_trip_count : ℕ  -- uint32_t
  pub sv_info_mod_list_head : Option Address
  pub dsi_info : Option Address
  pub total_dsi_rounds : ℕ
  pub reuse_enabled : Bool

abbrev pub sdo_state_error : ℕ
sdo_state_error = 61

abbrev pub sdo_state_done : ℕ
sdo_state_done = 62

abbrev pub sdo_di_app_start : ℕ
sdo_di_app_start = 10

abbrev pub sdo_to1_type_hello_sdo : ℕ
sdo_to1_type_hello_sdo = 30

abbrev pub sdo_to2_hello_device : ℕ
sdo_to2_hello_device = 40

abbrev pub sdo_state_to2_rcv_done_2 : ℕ
sdo_state_to2_rcv_done_2 = 51

abbrev pub sdo_type_error : ℕ
sdo_type_error = 255

abbrev pub message_body_error : ℕ
message_body_error = 100

abbrev pub internal_server_error : ℕ
internal_server_error = 500

abbrev pub max_to2_round_trips : ℕ
max_to2_round_trips = 1000000

-- Every field that is freed is also set to null, so freeing again does nothing.
unfoldable pub ps_free : Prot → Prot
ps_free ps = record ps {
  plain_text = none;
  obsig = none;
  n5 = none;
  n5r = none;
  new_ov_hdr_hmac = none;
  n6 = none;
  n7r = none;
  dsi_info = none;
}

unfoldable pub sdo_prot_di_init : Prot → Option DevCred → Prot
sdo_prot_di_init ps dev_cred = record ps {
  state = sdo_di_app_start;
  dev_cred = dev_cred;
  success = false;
}

-- The owner block, where both pointers on the way are set.
abbrev pub owner_blk_of : Option DevCred → Option OwnerBlk
owner_blk_of none = none
owner_blk_of (some cred) = cred.owner_blk

start_to1 : Prot → Option DevCred → Option OwnerBlk → Option Prot
start_to1 ps dev_cred none = none
start_to1 ps dev_cred (some owner) = some (record ps {
  state = sdo_to1_type_hello_sdo;
  g2 = owner.guid;
  dev_cred = dev_cred;
  success = false;
})

-- `none` is -1: the run is left as it was.
unfoldable pub sdo_prot_to1_init : Prot → Option DevCred → Option Prot
unfolding start_to1
sdo_prot_to1_init ps dev_cred = start_to1 ps dev_cred (owner_blk_of dev_cred)

-- The module list's start: false where a module's callback failed.
unfoldable pub start_modules : Option Address → Bool → Prot → Prot × Bool
start_modules none starts ps = (ps, false)
start_modules (some dsi) starts ps = (record ps { dsi_info = some dsi }, starts)

unfoldable pub with_modules : Option Address → Option Address → Bool → Prot → Prot × Bool
unfolding start_modules
with_modules none dsi_alloc starts ps = (ps, true)
with_modules (some list) dsi_alloc starts ps =
    start_modules dsi_alloc starts
      (record ps { sv_info_mod_list_head = some list; dsi_info = dsi_alloc })

unfoldable pub with_iv : Option Address → Option Address → Bool → Prot → Prot × Bool
unfolding with_modules
with_iv module_list dsi_alloc starts ps = elim ps.iv [
  | none ↦ (ps, false)
  | some iv ↦ with_modules module_list dsi_alloc starts ps
]

-- The key encoding is the build's, `iv_alloc` and `dsi_alloc` are what the two allocations return,
-- and `starts` what the modules' start returns. Where the start fails the two objects are freed,
-- and the pointers stay as they are.
unfoldable pub sdo_prot_to2_init :
    ℕ
    → Option Address
    → Option Address
    → Bool
    → Prot
    → Option ServiceInfo
    → DevCred
    → OwnerBlk
    → Option Address
    → Prot × Bool
unfolding with_iv
sdo_prot_to2_init key_encoding iv_alloc dsi_alloc starts ps si dev_cred owner module_list =
    with_iv module_list dsi_alloc starts (record ps {
      state = sdo_to2_hello_device;
      key_encoding = key_encoding;
      success = false;
      service_info = si;
      dev_cred = some dev_cred;
      g2 = owner.guid;
      round_trip_count = 0;
      iv = iv_alloc;
    })

module _ (e : Env) where
  -- `{"ec":…,"emsg":…,"em":"…"}`
  unfoldable pub sdo_send_error_message : Sdow → ℕ → ℕ → Bytes → Sdow
  sdo_send_error_message w ecode msgnum errmsg =
      let begun = sdow_begin_object e (sdow_next_block w sdo_type_error) in
      let code = sdo_write_uint e (sdo_write_tag e begun (codes "ec")) ecode in
      let num = sdo_write_uint e (sdo_write_tag e code (codes "emsg")) msgnum in
      sdow_end_object e (sdo_write_string e (sdo_write_tag e num (codes "em")) errmsg)

  -- Past the limit the run goes into its error state, with a message about it.
  unfoldable pub sdo_check_to2_round_trips : Prot → Prot × Bool
  unfolding sdo_send_error_message
  sdo_check_to2_round_trips ps =
      if ltb max_to2_round_trips ps.round_trip_count
      then (
        record ps {
          sdow =
              sdo_send_error_message ps.sdow internal_server_error ps.state
                (codes "Exceeded max number of rounds");
          state = sdo_state_error;
        },
        false,
      )
      else (record ps { round_trip_count = (ps.round_trip_count + 1) % u32_mod }, true)

block_or_error : Option ℕ → ℕ → Bool × ℕ
block_or_error none state = (false, sdo_state_error)
block_or_error (some mtype) state = (true, state)

-- Whether a message is there to read, and the state, which becomes the error state where a
-- receiver is set and has none.
unfoldable pub sdo_prot_rcv_msg : Sdor → ℕ → Bool × ℕ
unfolding block_or_error
sdo_prot_rcv_msg r state =
    if not r.receive_set && not (sdor_have_block r)
    then (false, state)
    else block_or_error (sdor_next_block r) state
