-- ===== src/Prot/Machine.antt =====
-- lib/sdoprot.c: the tables of message handlers, and the loop that runs them, `sdo_process_states`.
-- The handlers themselves (lib/prot) are a parameter: a function for each entry of the tables, from
-- the run to the run and the C result, which is 0 for success.
use client_sdk.Base.{
  ℕ, zero, suc, ◌-◌, Bool, true, false, ◌&&◌, Option, none, some, leb, ◌==◌, if◌then◌else◌,
}
use client_sdk.Env.{Env}
use client_sdk.Prot.{
  Prot, sdo_state_error, sdo_state_done, sdo_state_to2_rcv_done_2, message_body_error, ps_free,
  sdo_send_error_message,
}

-- A table, and the index in it.
pub data StateFn : Type 0 where
  di_state_fn : ℕ → StateFn
  to1_state_fn : ℕ → StateFn
  to2_state_fn : ℕ → StateFn

abbrev pub within : ℕ → ℕ → ℕ → Bool
within lo hi s = leb lo s && leb s hi

-- The switch: a state that no case names keeps the function that was there.
unfoldable pub choose_fn : ℕ → Option StateFn → Option StateFn
choose_fn state kept =
    if within 10 13 state
    then some (di_state_fn (state - 10))
    else if within 30 33 state
    then some (to1_state_fn (state - 30))
    else if within 40 51 state
    then some (to2_state_fn (state - 40))
    else kept

abbrev pub Handlers : Type 0
Handlers = StateFn → Prot → Prot × ℕ

-- How a round of the loop ends: it breaks with a status, or goes on with the function chosen.
pub data Round : Type 0 where
  stop : Prot → Bool → Round
  again : Prot → Option StateFn → Round

-- What is done behind a handler that succeeded, or that was not called.
unfoldable pub free_if_finished : ℕ → Prot → Prot
free_if_finished prev ps =
    if prev == sdo_state_to2_rcv_done_2 && ps.state == sdo_state_done then ps_free ps else ps

unfoldable pub settle : ℕ → StateFn → Prot → Round
settle prev fn ps =
    let p = free_if_finished prev ps in if prev == p.state then stop p true else again p (some fn)

module _ (e : Env) where
  -- A handler has failed: the state, the message to the server, and the data are cleared.
  unfoldable pub parse_error : Prot → Prot
  parse_error ps =
      let failed = record ps { state = sdo_state_error } in
      ps_free (record failed {
        sdow =
            sdo_send_error_message e failed.sdow message_body_error failed.state
              (e.print_parse_error ps.state);
      })

  unfoldable pub after_call : ℕ → StateFn → Prot × ℕ → Round
  unfolding settle
  after_call prev fn (ps, zero) = settle prev fn ps
  after_call prev fn (ps, suc k) = stop (parse_error ps) false

  unfoldable pub round_with : Handlers → Option StateFn → Prot → Round
  unfolding settle after_call
  round_with h none ps = stop ps false
  round_with h (some fn) ps =
      if ps.state == sdo_state_done then settle ps.state fn ps else after_call ps.state fn (h fn ps)

  unfoldable pub round : Handlers → Prot → Option StateFn → Round
  unfolding round_with
  round h ps kept = round_with h (choose_fn ps.state kept) ps

  -- The loop, on fuel; `none` is no result of the C function: the fuel ran out.
  unfoldable pub process_loop : Handlers → ℕ → Prot → Option StateFn → Option (Prot × Bool)
  process_loop h zero ps kept = none
  process_loop h (suc fuel) ps kept = elim (round h ps kept) [
    | stop ps' status ↦ some (ps', status)
    | again ps' fn ↦ process_loop h fuel ps' fn
  ]

  -- From the start, with no function chosen yet.
  unfoldable pub sdo_process_states : Handlers → ℕ → Prot → Option (Prot × Bool)
  unfolding process_loop
  sdo_process_states h fuel ps = process_loop h fuel ps none
