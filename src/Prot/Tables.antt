-- ===== src/Prot/Tables.antt =====
-- lib/sdoprot.c: the three tables of handlers, and runs of the state machine with all of them.
use client_sdk.Base.{ℕ, ◌+◌, ◌<◌, ◌≡◌, inr, ap, ◌∙◌, Bool, true, false, none, some, arith}
use client_sdk.Env.{Env}
use client_sdk.Prot.{Prot, sdo_state_done}
use client_sdk.Prot.Di.{DiCalls, di_message}
use client_sdk.Prot.Di.Lawfulness.{KeepsReader, di_sends, di_receives, di_waits}
use client_sdk.Prot.Machine.{StateFn, di_state_fn, Handlers, choose_fn, sdo_process_states}
use client_sdk.Prot.Moves.{Moves, moving-Lawful}
use client_sdk.Prot.Termination.{
  in_protocol, sending, receiving, Lawful, sdo_process_states-terminates,
}
use client_sdk.Prot.To1.{to1_message}
use client_sdk.Prot.To1.Moves.{to1-Moves}
use client_sdk.Prot.To2.{To2Calls}
use client_sdk.Prot.To2.Finish.{to2_message}
use client_sdk.Prot.To2.Moves.{to2-Moves}
use client_sdk.Prot.To2.Quiet

-- The calls of DI and of TO2, and `sdo_device_sign`, which TO1 uses too.
module _ (e : Env) (di : DiCalls) (to2 : To2Calls) where
  unfoldable pub state_handlers : Handlers
  state_handlers (di_state_fn i) ps = di_message e di i ps
  state_handlers (StateFn.to1_state_fn i) ps = to1_message e to2.device_sign i ps
  state_handlers (StateFn.to2_state_fn i) ps = to2_message e to2 i ps

chosen_di :
    (s i : ℕ)
    → choose_fn s none ≡ some (di_state_fn i)
    → (s ≡ i + 10) × (i < 4) × (in_protocol s ≡ true)
unfolding choose_fn
chosen_di s i h = ground (arith, h)

chosen_to1 :
    (s i : ℕ)
    → choose_fn s none ≡ some (StateFn.to1_state_fn i)
    → (s ≡ i + 30) × (i < 4) × (in_protocol s ≡ true)
unfolding choose_fn
chosen_to1 s i h = ground (arith, h)

chosen_to2 :
    (s i : ℕ)
    → choose_fn s none ≡ some (StateFn.to2_state_fn i)
    → (s ≡ i + 40) × (i < 12) × (in_protocol s ≡ true)
unfolding choose_fn
chosen_to2 s i h = ground (arith, h)

module _ (e : Env) (di : DiCalls) (to2 : To2Calls) (law : KeepsReader di)
    (law2 : client_sdk.Prot.To2.Quiet.KeepsReader to2) where
  di-Moves : (i s : ℕ) → s ≡ i + 10 → i < 4 → Moves (di_message e di i) s
  di-Moves i s at small = (
    λ even. record {
      sent = λ ps here ok.
          let (next, same) = di_sends e di law i ps (here ∙ at) small (ap sending here ∙ even) ok in
          (inr next, same);
    },
    λ odd. record {
      waited = λ ps here free unset ok.
          let same =
            di_waits e di law i ps (here ∙ at) small (ap receiving here ∙ odd) free unset in
          (ap (λ p. p.state) same, ap (λ p. p.sdor) same);
      took = λ ps here block ok.
          let (taken, kept, next) =
            di_receives e di law i ps (here ∙ at) small (ap receiving here ∙ odd) block ok in
          ((taken, next), kept);
    },
  )

  handlers-Moves :
      (s : ℕ) (fn : StateFn)
      → choose_fn s none ≡ some fn
      → (in_protocol s ≡ true) × Moves (state_handlers e di to2 fn) s
  unfolding state_handlers
  handlers-Moves s (di_state_fn i) chosen =
      let (at, small, inside) = chosen_di s i chosen in (inside, di-Moves i s at small)
  handlers-Moves s (StateFn.to1_state_fn i) chosen =
      let (at, small, inside) = chosen_to1 s i chosen in
      (inside, to1-Moves e to2.device_sign i s at small)
  handlers-Moves s (StateFn.to2_state_fn i) chosen =
      let (at, small, inside) = chosen_to2 s i chosen in (inside, to2-Moves e to2 law2 i s at small)

  state_handlers-Lawful : Lawful (state_handlers e di to2)
  state_handlers-Lawful = moving-Lawful (state_handlers e di to2) handlers-Moves

  -- With the twenty handlers of DI, TO1 and TO2, sdo_process_states returns within four rounds
  -- from any state of the protocols. The reader has no receive pointer, and what the handlers call
  -- outside the modelled files keeps that pointer and, in DI, the flag of the block as they are.
  pub state_handlers-terminates :
      (fuel : ℕ) (ps : Prot)
      → 3 < fuel
      → in_protocol ps.state ≡ true
      → ps.sdor.receive_set ≡ false
      → (result : Prot × Bool) × (sdo_process_states e (state_handlers e di to2) fuel ps
          ≡ some result)
  state_handlers-terminates fuel ps enough inside quiet =
      sdo_process_states-terminates e (state_handlers e di to2) state_handlers-Lawful fuel ps enough
        inside quiet
