-- ===== src/Tests/Devices.antt =====
-- Examples of the SDK's state machine at concrete devices.
use client_sdk.Base.{
  ℕ, ◌==◌, get_elem?, ◌%◌, ◌≡◌, refl, Bool, true, false, none, some, [], ◌∷◌, arith,
}
use client_sdk.Sdk.{
  success, error, abort, resale_not_ready, state_to1, shutdown, error_state, AppData, Credentials,
  Rendezvous, Storage, device_state_idle, device_state_readyn, sdo_sdk_resale, resale_with,
}
use client_sdk.Sdk.Outcomes.{
  state_to2_fn-success, state_loop-error, sdo_sdk_resale-twice, sdo_sdk_resale-success,
}
use client_sdk.Sdk.Selection.{rounds, rv_entry-found, rv_entry-rounds}
use client_sdk.Sdk.States.{
  Protocol, state_to1_fn, state_to2_fn, Callback, Protocols, next_rv_index, rv_entry, state_loop,
}

abbrev local : Rendezvous
local = record { ip = some 1; dn = none; https = false }

abbrev remote : Rendezvous
remote = record { ip = none; dn = some 2; https = true }

abbrev onboarded : Credentials
onboarded = record { st = 5; has_owner = true; rvlst = some (local ∷ remote ∷ []) }

abbrev device : AppData
device = record {
  err = false;
  error_recovery = true;
  recovery_enabled = false;
  state_fn = some error_state;
  devcred = some onboarded;
  service_info = true;
  rv_index = 0;
  prot_success = false;
}

abbrev nothing : Protocols
nothing = record { di = λ g. (g, false); to1 = λ g. (g, false); to2 = λ g. (g, false) }

abbrev working : Storage
working = record { load_mfg_secret_fails = false; store_credential_fails = λ c. false }

abbrev broken : Storage
broken = record { load_mfg_secret_fails = true; store_credential_fails = λ c. false }

abbrev aborting : Callback
aborting = some (λ kind state. abort)

rv_entry-found_example :
    (rv : Rendezvous) × (rv_entry (local ∷ remote ∷ []) (next_rv_index 2 2) ≡ some rv)
rv_entry-found_example = rv_entry-found (local ∷ remote ∷ []) 2 (omega arith) (omega arith)

rv_entry-rounds_example :
    rv_entry (local ∷ remote ∷ []) (rounds 4 0 2) ≡ get_elem? (local ∷ remote ∷ []) (3 % 2)
rv_entry-rounds_example = rv_entry-rounds (local ∷ remote ∷ []) 3 (omega arith) (omega arith)

state_loop-error_example :
    state_loop nothing 4 success device
    ≡ some (record device { service_info = false; devcred = none; state_fn = none }, error)
state_loop-error_example = state_loop-error nothing 0 success device refl

sdo_sdk_resale-twice_example :
    ((sdo_sdk_resale broken (some device)).1 ≡ error)
    × (sdo_sdk_resale working (sdo_sdk_resale broken (some device)).0 ≡ (none, resale_not_ready))
sdo_sdk_resale-twice_example = sdo_sdk_resale-twice broken working device onboarded refl refl refl

resale_works : (sdo_sdk_resale working (some device)).1 ≡ success
unfolding sdo_sdk_resale resale_with
resale_works = refl

sdo_sdk_resale-success_example :
    (5 ≡ device_state_idle)
    × (working.load_mfg_secret_fails ≡ false)
    × (working.store_credential_fails (record onboarded { st = device_state_readyn }) ≡ false)
sdo_sdk_resale-success_example = sdo_sdk_resale-success working device onboarded refl resale_works

-- An owner's protocol that runs through with success or without, and data to start it on.
abbrev ending : Bool → Protocol
ending done = record { allocates = true; run = λ g tls. (record g { prot_success = done }, true) }

abbrev prepare : AppData → AppData × Bool
prepare g = (g, true)

to2_works : (state_to2_fn (ending true) none false prepare device).1 ≡ true
unfolding state_to2_fn
to2_works = refl

state_to2_fn-success_example :
    ((state_to2_fn (ending true) none false prepare device).0.state_fn ≡ some shutdown)
    × ((state_to2_fn (ending true) none false prepare device).0.prot_success ≡ true)
state_to2_fn-success_example = state_to2_fn-success (ending true) none prepare device to2_works

-- A list whose second server answers.
abbrev second : ℕ → Bool
second n = n == 2

abbrev serving : Protocol
serving = record { allocates = true; run = λ g tls. (g, second g.rv_index) }

abbrev in_to1 : Callback → Protocols
in_to1 callback = record {
  di = λ g. (g, false);
  to1 = state_to1_fn serving callback;
  to2 = λ g. (g, false);
}

abbrev starting : AppData
starting = record device { state_fn = some state_to1 }
