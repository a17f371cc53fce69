-- ===== src/Tests/Initialise.antt =====
-- Examples of device initialisation.
use client_sdk.Base.{◌≡◌, refl, Bool, true, none, some, arith, ℕ, [], ◌∷◌}
use client_sdk.Block.{sdob_getc}
use client_sdk.Reader.{
  sdor_begin_object, sdor_end_object, sdor_flush, sdor_have_block, sdor_next_block,
}
use client_sdk.Prot.{codes, Prot, DevCred, Voucher, sdo_prot_rcv_msg}
use client_sdk.Types.Keys.{PublicKey}
use client_sdk.Types.Rendezvous.{Hash}
use client_sdk.Prot.Machine.{Handlers, sdo_process_states}
use client_sdk.Prot.Termination.{Lawful}
use client_sdk.Prot.Di.{DiCalls, with_message, require, app_credentials, msg11, msg13, di_handlers}
use client_sdk.Prot.Di.Accepted.{IsOwned, msg11-done}
use client_sdk.Prot.Di.Lawfulness.{KeepsReader}
use client_sdk.Prot.Di.Outcome.{IsInitialised, msg13-done}
use client_sdk.Prot.Di.Runs.{di_handlers-terminates}
use client_sdk.Tests.{host, reader, blank_run}

abbrev pub key : PublicKey
key = record { pkalg = 13; pkenc = 1; key1 = none; key2 = none }

abbrev pub hash : Hash
hash = record { hash_type = 108; hash = record { byte_sz = 0; bytes = none } }

abbrev pub voucher : Voucher
voucher = record {
  prot_version = 113;
  key_encoding = 1;
  rvlst2 = some (record { num_entries = 0; rv_entries = [] });
  g2 = some (record { byte_sz = 1; bytes = some (7 ∷ []) });
  dev_info = some 23;
  mfg_pub_key = some key;
  ovoucher_hdr_hash = none;
  num_ov_entries = 0;
  ov_entries = none;
  hdc = none;
}

abbrev pub calls : DiCalls
calls = record {
  has_credentials = true;
  ps_get_m_string = λ w. (w, true);
  mfg_alloc = true;
  owner_alloc = true;
  generate_ov_hmac_key = true;
  ov_hdr_read = λ r hmac. (r, some hash, some voucher);
  pub_key_hash = λ pk. some hash;
  store_credential = λ cred. true;
}

abbrev pub blank : DevCred
blank = record { st = 1; mfg_blk = none; owner_blk = none }

abbrev pub begun : ℕ → DevCred → Prot
begun s cred = record (blank_run s (reader (codes "{}"))) { dev_cred = some cred }

abbrev pub owned : DevCred
owned = record {
  st = 1;
  mfg_blk = none;
  owner_blk = some (record {
    pv = 113;
    pe = 1;
    guid = voucher.g2;
    rvlst = voucher.rvlst2;
    pkh = none;
    pk = some key;
  });
}

msg11_passes :
    ((msg11 host calls (begun 11 blank)).1 ≡ 0) × ((msg11 host calls (begun 11 blank)).0.state ≡ 12)
unfolding msg11 app_credentials with_message require sdo_prot_rcv_msg sdor_have_block
    sdor_next_block sdor_begin_object sdor_end_object sdor_flush sdob_getc
msg11_passes = (refl, refl)

msg11-done_example :
    (cred : DevCred) × ((msg11 host calls (begun 11 blank)).0.dev_cred ≡ some cred)
    × IsOwned calls cred
msg11-done_example = msg11-done host calls (begun 11 blank) refl msg11_passes.0 msg11_passes.1

msg13_passes :
    ((msg13 host calls (begun 13 owned)).1 ≡ 0) × ((msg13 host calls (begun 13 owned)).0.state ≡ 62)
unfolding msg13 app_credentials with_message require sdo_prot_rcv_msg sdor_have_block
    sdor_next_block sdor_flush
msg13_passes = (refl, refl)

msg13-done_example :
    (cred : DevCred) × ((msg13 host calls (begun 13 owned)).0.dev_cred ≡ some cred)
    × IsInitialised calls cred
msg13-done_example =
    msg13-done host calls (begun 13 owned) (λ h. omega (arith, h)) msg13_passes.0 msg13_passes.1

-- Handlers for the other protocols that all fail.
abbrev failing : Handlers
failing fn ps = (ps, 1)

failing-Lawful : Lawful failing
failing-Lawful = record {
  sends = λ ps fn c even ok. cc;
  waits = λ ps fn c odd free quiet ok. cc;
  receives = λ ps fn c odd block ok. cc;
  unset = λ ps fn c quiet ok. cc;
}

pub calls-KeepsReader : KeepsReader calls
calls-KeepsReader r hmac = (refl, refl)

di_handlers-terminates_example :
    (result : Prot × Bool) × (sdo_process_states host
        (di_handlers host calls failing)
        4
        (begun 10 blank)
      ≡ some result)
di_handlers-terminates_example =
    di_handlers-terminates host calls calls-KeepsReader failing failing-Lawful 4 (begun 10 blank)
      (omega arith) refl refl
