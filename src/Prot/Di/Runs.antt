-- ===== src/Prot/Di/Runs.antt =====
-- lib/prot/di and lib/sdoprot.c: runs of the state machine with the handlers of DI end.
use client_sdk.Base.{
  ℕ, ◌+◌, ◌<◌, ◌≡◌, ◌⊎◌, inl, inr, ◌∙◌, ap, Bool, true, false, none, some, arith, Bool-cases,
}
use client_sdk.Env.{Env}
use client_sdk.Prot.{Prot, sdo_state_done}
use client_sdk.Prot.Machine.{
  StateFn, di_state_fn, to1_state_fn, to2_state_fn, Handlers, sdo_process_states, choose_fn,
}
use client_sdk.Prot.Termination.{
  in_protocol, sending, receiving, Lawful, sdo_process_states-terminates,
}
use client_sdk.Prot.Di.{DiCalls, di_handlers}
use client_sdk.Prot.Di.Lawfulness.{KeepsReader, di_sends, di_waits, di_receives}

-- The entry of DI's table that a state chooses.
chosen_di :
    (s i : ℕ)
    → choose_fn s none ≡ some (di_state_fn i)
    → (s ≡ i + 10) × (i < 4) × (in_protocol s ≡ true)
unfolding choose_fn
chosen_di s i h = ground (arith, h)

odd_or_even : (s : ℕ) → in_protocol s ≡ true → sending s ≡ false → receiving s ≡ true
odd_or_even s h k = ground arith

module _ (e : Env) (c : DiCalls) (law : KeepsReader c) (others : Handlers)
    (rest : Lawful others) where
  all_send :
      (ps : Prot) (fn : StateFn)
      → choose_fn ps.state none ≡ some fn
      → sending ps.state ≡ true
      → (di_handlers e c others fn ps).1 ≡ 0
      → ((di_handlers e c others fn ps).0.state ≡ ps.state)
        ⊎ ((receiving (di_handlers e c others fn ps).0.state ≡ true)
            × ((di_handlers e c others fn ps).0.sdor.have_block ≡ ps.sdor.have_block))
  unfolding di_handlers
  all_send ps (di_state_fn i) chosen even ok =
      let (at, small, inside) = chosen_di ps.state i chosen in
      let (odd, same) = di_sends e c law i ps at small even ok in
      inr (odd, ap (λ r. r.have_block) same)
  all_send ps (to1_state_fn i) chosen even ok = rest.sends ps (to1_state_fn i) chosen even ok
  all_send ps (to2_state_fn i) chosen even ok = rest.sends ps (to2_state_fn i) chosen even ok

  all_wait :
      (ps : Prot) (fn : StateFn)
      → choose_fn ps.state none ≡ some fn
      → receiving ps.state ≡ true
      → ps.sdor.have_block ≡ false
      → ps.sdor.receive_set ≡ false
      → (di_handlers e c others fn ps).1 ≡ 0
      → (di_handlers e c others fn ps).0.state ≡ ps.state
  unfolding di_handlers
  all_wait ps (di_state_fn i) chosen odd free quiet ok =
      let (at, small, inside) = chosen_di ps.state i chosen in
      ap (λ p. p.state) (di_waits e c law i ps at small odd free quiet)
  all_wait ps (to1_state_fn i) chosen odd free quiet ok =
      rest.waits ps (to1_state_fn i) chosen odd free quiet ok
  all_wait ps (to2_state_fn i) chosen odd free quiet ok =
      rest.waits ps (to2_state_fn i) chosen odd free quiet ok

  all_receive :
      (ps : Prot) (fn : StateFn)
      → choose_fn ps.state none ≡ some fn
      → receiving ps.state ≡ true
      → ps.sdor.have_block ≡ true
      → (di_handlers e c others fn ps).1 ≡ 0
      → ((di_handlers e c others fn ps).0.state ≡ ps.state)
        ⊎ (((di_handlers e c others fn ps).0.sdor.have_block ≡ false)
            × ((sending (di_handlers e c others fn ps).0.state ≡ true)
                ⊎ ((di_handlers e c others fn ps).0.state ≡ sdo_state_done)))
  unfolding di_handlers
  all_receive ps (di_state_fn i) chosen odd block ok =
      let (at, small, inside) = chosen_di ps.state i chosen in
      let (taken, kept, next) = di_receives e c law i ps at small odd block ok in inr (taken, next)
  all_receive ps (to1_state_fn i) chosen odd block ok =
      rest.receives ps (to1_state_fn i) chosen odd block ok
  all_receive ps (to2_state_fn i) chosen odd block ok =
      rest.receives ps (to2_state_fn i) chosen odd block ok

  all_unset :
      (ps : Prot) (fn : StateFn)
      → choose_fn ps.state none ≡ some fn
      → ps.sdor.receive_set ≡ false
      → (di_handlers e c others fn ps).1 ≡ 0
      → (di_handlers e c others fn ps).0.sdor.receive_set ≡ false
  unfolding di_handlers
  all_unset ps (to1_state_fn i) chosen quiet ok = rest.unset ps (to1_state_fn i) chosen quiet ok
  all_unset ps (to2_state_fn i) chosen quiet ok = rest.unset ps (to2_state_fn i) chosen quiet ok
  all_unset ps (di_state_fn i) chosen quiet ok =
      let (at, small, inside) = chosen_di ps.state i chosen in
      elim (Bool-cases (sending ps.state)) [
        | inl even ↦ ap (λ r. r.receive_set) (di_sends e c law i ps at small even ok).1 ∙ quiet
        | inr not_even ↦
            let odd = odd_or_even ps.state inside not_even in
            elim (Bool-cases ps.sdor.have_block) [
              | inl block ↦ (di_receives e c law i ps at small odd block ok).1 ∙ quiet
              | inr free ↦
                  ap (λ p. p.sdor.receive_set) (di_waits e c law i ps at small odd free quiet)
                  ∙ quiet
            ]
      ]

  di_handlers-Lawful : Lawful (di_handlers e c others)
  di_handlers-Lawful = record {
    sends = all_send;
    waits = all_wait;
    receives = all_receive;
    unset = all_unset;
  }

  -- With the handlers msg10 to msg13 of device initialisation in front of any handlers for TO1 and
  -- TO2 that move as lib/prot does, sdo_process_states returns within four rounds from any state
  -- of the protocols. The reader has no receive pointer, and reading the header of a voucher
  -- leaves the flags of the reader as they are.
  pub di_handlers-terminates :
      (fuel : ℕ) (ps : Prot)
      → 3 < fuel
      → in_protocol ps.state ≡ true
      → ps.sdor.receive_set ≡ false
      → (result : Prot × Bool) × (sdo_process_states e (di_handlers e c others) fuel ps
          ≡ some result)
  di_handlers-terminates fuel ps enough inside quiet =
      sdo_process_states-terminates e (di_handlers e c others) di_handlers-Lawful fuel ps enough
        inside quiet
