-- ===== src/Prot/Rounds.antt =====
-- lib/sdoprot.c: what one round of the loop of `sdo_process_states` can do.
use client_sdk.Base.{
  subst, ◌&&◌, ℕ, ◌-◌, ◌≡◌, ◌≢◌, inl, inr, sym, true, false, Option, some, arith, ◌==◌, Bool-cases,
  Option-cases,
}
use client_sdk.Env.{Env}
use client_sdk.Prot.{Prot, ps_free, sdo_state_done, sdo_state_to2_rcv_done_2}
use client_sdk.Prot.Machine.{
  within, di_state_fn, to1_state_fn, to2_state_fn, StateFn, Handlers, stop, again, choose_fn,
  parse_error, free_if_finished, settle, round,
}

pub choose_fn-some :
    (state : ℕ) (fn : StateFn) → (g : StateFn) × (choose_fn state (some fn) ≡ some g)
unfolding choose_fn
choose_fn-some state fn = elim (Bool-cases (within 10 13 state)) [
  | inl di ↦ (di_state_fn (state - 10), rw di)
  | inr no_di ↦ elim (Bool-cases (within 30 33 state)) [
    | inl to1 ↦ (to1_state_fn (state - 30), rw (no_di, to1))
    | inr no_to1 ↦ elim (Bool-cases (within 40 51 state)) [
      | inl to2 ↦ (to2_state_fn (state - 40), rw (no_di, no_to1, to2))
      | inr no_to2 ↦ (fn, rw (no_di, no_to1, no_to2))
    ]
  ]
]

-- A round that breaks with the status false is one whose handler failed.
pub round-false :
    (e : Env) (h : Handlers) (ps : Prot) (kept : Option StateFn) (fn : StateFn) {q : Prot}
    → choose_fn ps.state kept ≡ some fn
    → round e h ps kept ≡ stop q false
    → ((h fn ps).1 ≢ 0) × (q ≡ parse_error e (h fn ps).0)
unfolding round
round-false e h ps kept fn chosen r = ground arith

-- The data are cleared or not; the rest of the run stays.
pub free_if_finished-keeps :
    (prev : ℕ) (ps : Prot)
    → ((free_if_finished prev ps).state ≡ ps.state)
      × ((free_if_finished prev ps).sdor ≡ ps.sdor)
      × ((free_if_finished prev ps).sdow ≡ ps.sdow)
unfolding free_if_finished ps_free
free_if_finished-keeps prev ps = ground arith

free_if_finished-true :
    (prev : ℕ) (ps : Prot)
    → (prev == sdo_state_to2_rcv_done_2 && ps.state == sdo_state_done) ≡ true
    → free_if_finished prev ps ≡ ps_free ps
unfolding free_if_finished
free_if_finished-true prev ps t = rw t

free_if_finished-false :
    (prev : ℕ) (ps : Prot)
    → (prev == sdo_state_to2_rcv_done_2 && ps.state == sdo_state_done) ≡ false
    → free_if_finished prev ps ≡ ps
unfolding free_if_finished
free_if_finished-false prev ps f = rw f

pub free_if_finished-holds :
    (P : Prot → Type 0)
    → ((p : Prot) → P p → P (ps_free p))
    → (prev : ℕ) (ps : Prot) → P ps
    → P (free_if_finished prev ps)
free_if_finished-holds P frees prev ps holds =
    elim (Bool-cases (prev == sdo_state_to2_rcv_done_2 && ps.state == sdo_state_done)) [
      | inl t ↦ subst P (sym (free_if_finished-true prev ps t)) (frees ps holds)
      | inr f ↦ subst P (sym (free_if_finished-false prev ps f)) holds
    ]

-- A round that goes on has called the function chosen with success, and the state has changed.
pub round-again :
    (e : Env) (h : Handlers) (ps : Prot) (kept : Option StateFn) {q : Prot} {g : Option StateFn}
    → round e h ps kept ≡ again q g
    → (fn : StateFn) × (choose_fn ps.state kept ≡ some fn)
      × (g ≡ some fn)
      × ((h fn ps).1 ≡ 0)
      × (q ≡ free_if_finished ps.state (h fn ps).0)
      × (ps.state ≢ q.state)
unfolding round
round-again e h ps kept {q} {g} r = elim (Option-cases (choose_fn ps.state kept)) [
  | inl gone ↦ absurd (ground (arith, gone))
  | inr (fn, chosen) ↦
      let same = (free_if_finished-keeps ps.state ps).0 in
      (
        fn,
        chosen,
        ground (arith, same),
        ground (arith, same),
        ground (arith, same),
        ground (arith, same),
      )
]

-- A round that breaks with the status true has found the protocol done, or has left the state as
-- it was.
pub round-true :
    (e : Env) (h : Handlers) (ps : Prot) (kept : Option StateFn) {q : Prot}
    → round e h ps kept ≡ stop q true
    → ps.state ≡ q.state
unfolding round
round-true e h ps kept r = ground arith

-- With the protocol done a round calls no handler and breaks.
pub round-done :
    (e : Env) (h : Handlers) (ps : Prot) (kept : Option StateFn) (fn : StateFn)
    → choose_fn ps.state kept ≡ some fn
    → ps.state ≡ sdo_state_done
    → (q : Prot) × (round e h ps kept ≡ stop q true)
unfolding round settle
round-done e h ps kept fn chosen done =
    let same = (free_if_finished-keeps ps.state ps).0 in
    (free_if_finished ps.state ps, ground (arith, same))
