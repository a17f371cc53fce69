-- ===== src/Sdk.antt =====
-- lib/sdo.c: the state machine of the SDK. The global data are a record, which is an argument; a
-- null pointer to them is `none`. Kept are the fields that decide which state comes next.
pub mod States
pub mod Selection
pub mod Retries
pub mod Outcomes
use client_sdk.Base.{ℕ, zero, suc, Bool, true, false, Option, none, some, List, ◌==◌, if◌then◌else◌}

-- `sdo_sdk_status`.
pub data Status : Type 0 where
  success : Status
  invalid_path : Status
  config_not_found : Status
  invalid_state : Status
  resale_not_supported : Status
  resale_not_ready : Status
  warning : Status
  error : Status
  abort : Status

-- `sdo_sdk_device_state`.
pub data SdkState : Type 0 where
  pre_di : SdkState
  pre_to1 : SdkState
  state_idle : SdkState
  state_resale : SdkState
  state_error : SdkState

abbrev pub device_state_pc : ℕ
device_state_pc = 1

abbrev pub device_state_ready1 : ℕ
device_state_ready1 = 3

abbrev pub device_state_idle : ℕ
device_state_idle = 5

abbrev pub device_state_readyn : ℕ
device_state_readyn = 6

-- The functions that `state_fn` points to.
pub data StateFunction : Type 0 where
  state_di : StateFunction
  state_to1 : StateFunction
  state_to2 : StateFunction
  error_state : StateFunction
  shutdown : StateFunction
  shutdown_error : StateFunction

-- An entry of the rendezvous list: its addresses, and whether its protocol is the HTTPS tag.
pub record Rendezvous : Type 0 where
  pub ip : Option ℕ
  pub dn : Option ℕ
  pub https : Bool

pub record Credentials : Type 0 where
  pub st : ℕ
  pub has_owner : Bool
  pub rvlst : Option (List Rendezvous)

-- `app_data_t`; of `prot` are kept `rv_index` and `success`, of `err` that it is not 0, and of a
-- pointer that is only freed that it is set.
-- `rv_index` is a uint8_t: it wraps at 256 where it is counted up, in next_rv_index of States.
pub record AppData : Type 0 where
  pub err : Bool
  pub error_recovery : Bool
  pub recovery_enabled : Bool
  pub state_fn : Option StateFunction
  pub devcred : Option Credentials
  pub service_info : Bool
  pub rv_index : ℕ
  pub prot_success : Bool

-- The macro `ERROR()`.
unfoldable pub error_macro : AppData → AppData
error_macro g = record g { err = true; state_fn = some error_state }

-- The chain of tests on the device's state.
unfoldable pub status_of : ℕ → SdkState
status_of st =
    if st == device_state_pc
    then pre_di
    else if st == device_state_ready1
    then pre_to1
    else if st == device_state_idle
    then state_idle
    else if st == device_state_readyn
    then state_resale
    else state_error

-- `none` is the dereference of a null `devcred`.
unfoldable pub sdo_sdk_get_status : Option AppData → Option (Option AppData × SdkState)
unfolding status_of
sdo_sdk_get_status none = some (none, state_error)
sdo_sdk_get_status (some g) = elim g.devcred [
  | none ↦ none
  | some cred ↦ some (some (record g { err = false }), status_of cred.st)
]

-- What `load_mfg_secret` and `store_credential` return: true where it is not 0.
pub record Storage : Type 0 where
  pub load_mfg_secret_fails : Bool
  pub store_credential_fails : Credentials → Bool

unfoldable pub resale_with : Storage → AppData → Credentials → Option AppData × Status
resale_with storage g cred =
    let ready = record cred { st = device_state_readyn } in
    if cred.st == device_state_idle
    then if storage.load_mfg_secret_fails
      then (some (record g { devcred = some ready }), error)
      else (none, if storage.store_credential_fails ready then error else success)
    else (none, resale_not_ready)

-- The global data afterwards, which are freed and null in all but the early returns.
unfoldable pub sdo_sdk_resale : Storage → Option AppData → Option AppData × Status
unfolding resale_with
sdo_sdk_resale storage none = (none, error)
sdo_sdk_resale storage (some g) = elim g.devcred [
  | none ↦ (some g, error)
  | some cred ↦ resale_with storage g cred
]
