-- ===== src/Sdk/Outcomes.antt =====
-- lib/sdo.c: how a run of the state machine ends, and what the resale and the error paths do.
use client_sdk.Base.{ℕ, suc, ◌≡◌, Bool, true, false, none, some, arith}
use client_sdk.Sdk.{
  Status, success, error, resale_not_ready, error_state, shutdown, AppData, Credentials, Storage,
  device_state_idle, device_state_readyn, resale_with, sdo_sdk_resale,
}
use client_sdk.Sdk.States.{Protocol, state_to2_fn, Protocols, Callback, state_loop}

-- From the error state the loop of sdo_sdk_run ends, within four rounds, with SDO_ERROR, no next
-- state, and the credentials and the service information given up.
pub state_loop-error :
    (ps : Protocols) (fuel : ℕ) (ret : Status) (g : AppData)
    → g.state_fn ≡ some error_state
    → state_loop ps (suc (suc (suc (suc fuel)))) ret g
      ≡ some (record g { service_info = false; devcred = none; state_fn = none }, error)
unfolding state_loop
state_loop-error ps fuel ret g at_error = rw (at_error, state_loop)

-- For an idle device, a resale that fails to read the secret reports an error, and the next call
-- reports that the device is not ready and frees the data.
pub sdo_sdk_resale-twice :
    (storage again : Storage) (g : AppData) (cred : Credentials)
    → g.devcred ≡ some cred
    → cred.st ≡ device_state_idle
    → storage.load_mfg_secret_fails ≡ true
    → ((sdo_sdk_resale storage (some g)).1 ≡ error)
      × (sdo_sdk_resale again (sdo_sdk_resale storage (some g)).0 ≡ (none, resale_not_ready))
unfolding sdo_sdk_resale resale_with
sdo_sdk_resale-twice storage again g cred has is_idle fails = ground (arith, has, is_idle, fails)

-- sdo_sdk_resale reports success only for a device in the idle state whose secret was read and
-- whose credentials, in the state READYN, were stored.
pub sdo_sdk_resale-success :
    (storage : Storage) (g : AppData) (cred : Credentials)
    → g.devcred ≡ some cred
    → (sdo_sdk_resale storage (some g)).1 ≡ success
    → (cred.st ≡ device_state_idle)
      × (storage.load_mfg_secret_fails ≡ false)
      × (storage.store_credential_fails (record cred { st = device_state_readyn }) ≡ false)
unfolding sdo_sdk_resale resale_with
sdo_sdk_resale-success storage g cred has good = ground (arith, has, good)

-- With the key exchange set up, _STATE_TO2 returns true only if the protocol has reported success,
-- and the shutdown is then the next state.
pub state_to2_fn-success :
    (p : Protocol) (callback : Callback) (init : AppData → AppData × Bool) (g : AppData)
    → (state_to2_fn p callback false init g).1 ≡ true
    → ((state_to2_fn p callback false init g).0.state_fn ≡ some shutdown)
      × ((state_to2_fn p callback false init g).0.prot_success ≡ true)
unfolding state_to2_fn
state_to2_fn-success p callback init g good = ground (arith, good)
