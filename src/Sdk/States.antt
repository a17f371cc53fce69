-- ===== src/Sdk/States.antt =====
-- lib/sdo.c: the functions of the states, and the loop of `sdo_sdk_run` that calls them. The
-- protocol's run (`sdo_prot_ctx_alloc`, `sdo_prot_ctx_run`) and the calls that set it up are
-- parameters here: Context has the run.
use client_sdk.Base.{
  ℕ, zero, suc, ◌+◌, ◌-◌, ◌%◌, Bool, true, false, not, Option, none, some, List, ltb, ◌==◌,
  if◌then◌else◌, length, get_elem?,
}
use client_sdk.Sdk.{
  Status, success, warning, error, abort, StateFunction, state_di, state_to1, state_to2,
  error_state, shutdown, shutdown_error, Rendezvous, AppData, error_macro,
}

-- `error_callback`, given the kind of the error; the code of the protocol, a constant of each state,
-- is left to the function. `none` is the null pointer.
abbrev pub Callback : Type 0
Callback = Option (Status → StateFunction → Status)

-- What the call returns, or the status that was there.
abbrev pub ask : Callback → Status → StateFunction → Status
ask none kind state = success
ask (some f) kind state = f kind state

abbrev pub is_abort : Status → Bool
is_abort abort = true
is_abort s = false

-- The run of DI or TO1 has failed.
unfoldable pub protocol_failed : Callback → StateFunction → AppData → AppData
protocol_failed callback state g =
    if not g.error_recovery
    then error_macro g
    else if is_abort (ask callback warning state)
    then error_macro (record g { error_recovery = false; recovery_enabled = false })
    else record g { state_fn = some state }

-- `rv_index` is a uint8_t.
abbrev uint8_mod : ℕ
uint8_mod = 256

-- The index of the rendezvous entry that is tried next, of `num` entries.
unfoldable pub next_rv_index : ℕ → ℕ → ℕ
next_rv_index rv_index num = let i = (rv_index + 1) % uint8_mod in if ltb num i then i % num else i

-- The entry that the loop from 1 reaches; `none` is the null pointer at the end of the list.
unfoldable pub rv_entry : List Rendezvous → ℕ → Option Rendezvous
rv_entry entries rv_index = get_elem? entries (rv_index - 1)

pub record Protocol : Type 0 where
  -- `sdo_prot_ctx_alloc` is not null.
  pub allocates : Bool
  -- `sdo_prot_ctx_run`, with TLS or without: the data afterwards, and whether it returns 0.
  pub run : AppData → Bool → AppData × Bool

module _ (p : Protocol) (callback : Callback) where
  -- From the label of a run's result on, for DI and TO1.
  unfoldable pub after_protocol : StateFunction → StateFunction → AppData × Bool → AppData × Bool
  unfolding protocol_failed
  after_protocol state next (g, true) = (record g { state_fn = some next }, true)
  after_protocol state next (g, false) = (protocol_failed callback state g, false)

  unfoldable pub start_run : AppData → StateFunction → StateFunction → Bool → AppData × Bool
  unfolding after_protocol
  start_run g state next tls =
      if p.allocates then after_protocol state next (p.run g tls) else (error_macro g, false)

  -- An entry without an address ends the state with true, and its `state_fn` as it was.
  unfoldable pub contact : AppData → Option Rendezvous → AppData × Bool
  unfolding start_run
  contact g none = (error_macro g, false)
  contact g (some rv) = elim rv.ip [
    | some ip ↦ start_run g state_to1 state_to2 rv.https
    | none ↦ elim rv.dn [ some dn ↦ start_run g state_to1 state_to2 rv.https | none ↦ (g, true) ]
  ]

  unfoldable pub pick_rv : AppData → Option (List Rendezvous) → AppData × Bool
  unfolding contact next_rv_index rv_entry
  pick_rv g none = (error_macro g, false)
  pick_rv g (some entries) =
      if length entries == 0
      then (error_macro g, false)
      else let i = next_rv_index g.rv_index (length entries) in
        contact (record g { rv_index = i }) (rv_entry entries i)

  -- `sdo_prot_to1_init` fails without the owner's block, and then nothing is changed; else it sets
  -- `success` to false.
  unfoldable pub state_to1_fn : AppData → AppData × Bool
  unfolding pick_rv
  state_to1_fn g = elim g.devcred [
    | none ↦ (g, false)
    | some cred ↦
        if cred.has_owner
        then pick_rv (record g { prot_success = false }) cred.rvlst
        else (g, false)
  ]

-- `_STATE_TO2`: `sdo_kex_init` fails or not, and `sdo_prot_to2_init` gives the data afterwards and
-- its result.
module _ (p : Protocol) (callback : Callback) (kex_fails : Bool)
    (init : AppData → AppData × Bool) where
  -- From the result of `sdo_prot_ctx_run` on.
  unfoldable pub to2_finished : AppData × Bool → AppData × Bool
  to2_finished (g, false) = (error_macro g, false)
  to2_finished (g, true) =
      if g.prot_success
      then (record g { state_fn = some shutdown }, true)
      else (error_macro g, false)

  unfoldable pub to2_run : AppData × Bool → AppData × Bool
  unfolding to2_finished
  to2_run (g, false) = (g, false)
  to2_run (g, true) = if p.allocates then to2_finished (p.run g false) else (error_macro g, false)

  -- What an abort changes; the result is false then.
  unfoldable pub heed : Status → AppData × Bool → AppData × Bool
  heed status (g, ret) =
      if is_abort status
      then (error_macro (record g { error_recovery = false; recovery_enabled = false }), false)
      else (g, ret)

  unfoldable pub to2_recover : AppData × Bool → AppData × Bool
  unfolding heed
  to2_recover (g, ret) =
      if g.prot_success
      then (g, ret)
      else if g.error_recovery
      then heed (ask callback warning state_to2)
          (record g { recovery_enabled = true; state_fn = some state_to1 }, ret)
      else heed (ask callback error state_to2) (g, ret)

  -- A key exchange that is not set up returns SDO_ERROR, which is true.
  unfoldable pub state_to2_fn : AppData → AppData × Bool
  unfolding to2_run to2_recover
  state_to2_fn g = if kex_fails then (g, true) else to2_recover (to2_run (init g))

-- `_STATE_Error`, `_STATE_Shutdown` and `_STATE_Shutdown_Error`.
unfoldable pub error_fn : AppData → AppData × Bool
error_fn g = (record g { state_fn = some shutdown_error }, true)

unfoldable pub shutdown_fn : AppData → AppData × Bool
shutdown_fn g = (record g { service_info = false; devcred = none; state_fn = none }, true)

unfoldable pub shutdown_error_fn : AppData → AppData × Bool
unfolding shutdown_fn
shutdown_error_fn g = ((shutdown_fn g).0, false)

-- What the functions of the protocols' states do.
pub record Protocols : Type 0 where
  pub di : AppData → AppData × Bool
  pub to1 : AppData → AppData × Bool
  pub to2 : AppData → AppData × Bool

unfoldable pub call_state : Protocols → StateFunction → AppData → AppData × Bool
unfolding error_fn shutdown_fn shutdown_error_fn
call_state ps state_di g = ps.di g
call_state ps state_to1 g = ps.to1 g
call_state ps state_to2 g = ps.to2 g
call_state ps error_state g = error_fn g
call_state ps shutdown g = shutdown_fn g
call_state ps shutdown_error g = shutdown_error_fn g

abbrev pub status_for : Bool → Status
status_for true = success
status_for false = error

-- The loop, on fuel; `none` is no result of the C function: the fuel ran out.
unfoldable pub state_loop : Protocols → ℕ → Status → AppData → Option (AppData × Status)
unfolding call_state
state_loop ps zero ret g = none
state_loop ps (suc fuel) ret g = elim g.state_fn [
  | none ↦ some (g, ret)
  | some f ↦ let called = call_state ps f g in state_loop ps fuel (status_for called.1) called.0
]
