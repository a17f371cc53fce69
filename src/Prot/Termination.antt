-- ===== src/Prot/Termination.antt =====
-- lib/sdoprot.c: the loop of `sdo_process_states` ends. What it needs of the handlers of lib/prot
-- is how they change the state and the flag `have_block`.
use client_sdk.Base.{
  ℕ, zero, suc, ◌+◌, ◌%◌, ◌<◌, ◌≡◌, ◌⊎◌, inl, inr, refl, sym, ◌∙◌, ap, Bool, true, false, ◌&&◌,
  ◌||◌, Option, none, some, arith, ◌==◌, if◌then◌else◌, Bool-cases, Option-cases,
}
use client_sdk.Env.{Env}
use client_sdk.Prot.{Prot, sdo_state_done}
use client_sdk.Prot.Machine.{
  within, StateFn, Handlers, Round, stop, again, choose_fn, round, process_loop, sdo_process_states,
}
use client_sdk.Prot.Rounds.{choose_fn-some, free_if_finished-keeps, round-again, round-done}

-- The states that the tables have an entry for; the even ones send and the odd ones receive.
abbrev pub in_protocol : ℕ → Bool
in_protocol s = within 10 13 s || within 30 33 s || within 40 51 s

abbrev pub sending : ℕ → Bool
sending s = in_protocol s && s % 2 == 0

abbrev pub receiving : ℕ → Bool
receiving s = in_protocol s && s % 2 == 1

-- With no `receive` pointer in the reader, what a handler that succeeds does to the state and to the received block: a sender goes to a
-- receiving state; a receiver waits where there is no block, and else takes the block and goes to a
-- sending state or to the end.
pub record Lawful (h : Handlers) : Type 0 where
  pub sends :
      (ps : Prot) (fn : StateFn)
      → choose_fn ps.state none ≡ some fn
      → sending ps.state ≡ true
      → (h fn ps).1 ≡ 0
      → ((h fn ps).0.state ≡ ps.state)
        ⊎ ((receiving (h fn ps).0.state ≡ true)
            × ((h fn ps).0.sdor.have_block ≡ ps.sdor.have_block))
  pub waits :
      (ps : Prot) (fn : StateFn)
      → choose_fn ps.state none ≡ some fn
      → receiving ps.state ≡ true
      → ps.sdor.have_block ≡ false
      → ps.sdor.receive_set ≡ false
      → (h fn ps).1 ≡ 0
      → (h fn ps).0.state ≡ ps.state
  pub receives :
      (ps : Prot) (fn : StateFn)
      → choose_fn ps.state none ≡ some fn
      → receiving ps.state ≡ true
      → ps.sdor.have_block ≡ true
      → (h fn ps).1 ≡ 0
      → ((h fn ps).0.state ≡ ps.state)
        ⊎ (((h fn ps).0.sdor.have_block ≡ false)
            × ((sending (h fn ps).0.state ≡ true) ⊎ ((h fn ps).0.state ≡ sdo_state_done)))
  pub unset :
      (ps : Prot) (fn : StateFn)
      → choose_fn ps.state none ≡ some fn
      → ps.sdor.receive_set ≡ false
      → (h fn ps).1 ≡ 0
      → (h fn ps).0.sdor.receive_set ≡ false

-- How many more rounds there can be, with a block or not and in a state.
abbrev rank_of : Bool → ℕ → ℕ
rank_of have_block s = (if have_block then 2 else 0) + (if sending s then 1 else 0)

abbrev rank : Prot → ℕ
rank ps = rank_of ps.sdor.have_block ps.state

odd_not_even : (s : ℕ) → receiving s ≡ true → sending s ≡ false
odd_not_even s h = ground arith

even_inside : (s : ℕ) → sending s ≡ true → in_protocol s ≡ true
even_inside s h = ground arith

odd_inside : (s : ℕ) → receiving s ≡ true → in_protocol s ≡ true
odd_inside s h = ground arith

rank-sent :
    (b b' : Bool) (s s' : ℕ)
    → sending s ≡ true
    → receiving s' ≡ true
    → b' ≡ b
    → rank_of b' s' < rank_of b s
rank-sent b b' s s' even odd same = rw (same, even, odd_not_even s' odd) omega arith

rank-taken : (b b' : Bool) (s s' : ℕ) → b ≡ true → b' ≡ false → rank_of b' s' < rank_of b s
rank-taken b b' s s' block taken = ground arith

choose_fn-inside : (s : ℕ) → in_protocol s ≡ true → (fn : StateFn) × (choose_fn s none ≡ some fn)
unfolding choose_fn
choose_fn-inside s inside = elim (Option-cases (choose_fn s none)) [
  | inl gone ↦ absurd (ground (arith, gone))
  | inr found ↦ found
]

choose_fn-named :
    (s : ℕ) (kept : Option StateFn) → in_protocol s ≡ true → choose_fn s kept ≡ choose_fn s none
unfolding choose_fn
choose_fn-named s kept h = ground arith

parity : (s : ℕ) → in_protocol s ≡ true → (sending s ≡ true) ⊎ (receiving s ≡ true)
parity s h = ground arith

-- A round that goes on has come closer to the end.
closer :
    (e : Env) (h : Handlers)
    → Lawful h
    → (ps : Prot) (kept : Option StateFn) → in_protocol ps.state ≡ true
    → ps.sdor.receive_set ≡ false
    → {q : Prot} {g : Option StateFn} → round e h ps kept ≡ again q g
    → (rank q < rank ps)
      × (q.sdor.receive_set ≡ false)
      × ((in_protocol q.state ≡ true) ⊎ (q.state ≡ sdo_state_done))
      × ((fn : StateFn) × (choose_fn q.state g ≡ some fn))
closer e h lawful ps kept inside quiet {q} {g} r =
    let (f, chosen, kept_it, ok, now, changed) = round-again e h ps kept r in
    let (next, c) = choose_fn-some q.state f in
    let (s, d, w) = free_if_finished-keeps ps.state (h f ps).0 in
    let c0 : choose_fn ps.state none ≡ some f =
      sym (choose_fn-named ps.state kept inside) ∙ chosen in
    let state_is : q.state ≡ (h f ps).0.state = ap (λ x. x.state) now ∙ s in
    let block_is : q.sdor.have_block ≡ (h f ps).0.sdor.have_block =
      ap (λ x. x.sdor.have_block) now ∙ ap (λ x. x.have_block) d in
    let goes : (next : StateFn) × (choose_fn q.state g ≡ some next) =
      (next, ap (choose_fn q.state) kept_it ∙ c) in
    let quiet' : q.sdor.receive_set ≡ false =
      ap (λ x. x.sdor.receive_set) now
      ∙ ap (λ x. x.receive_set) d
      ∙ lawful.unset ps f c0 quiet ok in
    elim (parity ps.state inside) [
      | inl even ↦ elim (lawful.sends ps f c0 even ok) [
        | inl same ↦ absurd (changed (sym (state_is ∙ same)))
        | inr (odd, kept_block) ↦ (
          rank-sent ps.sdor.have_block q.sdor.have_block ps.state q.state even
              (ap receiving state_is ∙ odd) (block_is ∙ kept_block),
          quiet',
          inl (odd_inside q.state (ap receiving state_is ∙ odd)),
          goes,
        )
      ]
      | inr odd ↦ elim (Bool-cases ps.sdor.have_block) [
        | inl block ↦ elim (lawful.receives ps f c0 odd block ok) [
          | inl same ↦ absurd (changed (sym (state_is ∙ same)))
          | inr (taken, inl even) ↦ (
            rank-taken ps.sdor.have_block q.sdor.have_block ps.state q.state block
                (block_is ∙ taken),
            quiet',
            inl (even_inside q.state (ap sending state_is ∙ even)),
            goes,
          )
          | inr (taken, inr done) ↦ (
            rank-taken ps.sdor.have_block q.sdor.have_block ps.state q.state block
                (block_is ∙ taken),
            quiet',
            inr (state_is ∙ done),
            goes,
          )
        ]
        | inr free ↦ absurd (changed (sym (state_is ∙ lawful.waits ps f c0 odd free quiet ok)))
      ]
    ]

never : {p q : Prot} {g : Option StateFn} {b : Bool} → ¬ (again p g ≡ stop q b)
never x = cc

-- With no handler's block to read and no state to leave, the fuel is enough.
process_loop-ends :
    (e : Env) (h : Handlers)
    → Lawful h
    → (fuel : ℕ) (ps : Prot) (kept : Option StateFn) → rank ps < fuel
    → ps.sdor.receive_set ≡ false
    → (in_protocol ps.state ≡ true) ⊎ (ps.state ≡ sdo_state_done)
    → ((fn : StateFn) × (choose_fn ps.state kept ≡ some fn))
    → (result : Prot × Bool) × (process_loop e h fuel ps kept ≡ some result)
unfolding process_loop
process_loop-ends e h lawful zero ps kept enough quiet inside named = absurd (omega arith)
process_loop-ends e h lawful (suc fuel) ps kept enough quiet inside (fn, chosen) =
    go (round e h ps kept) refl (λ p g x u y z. process_loop-ends e h lawful fuel p g x u y z)
  where
    go :
        (x : Round)
        → round e h ps kept ≡ x
        → ((p : Prot) (g : Option StateFn)
            → rank p < fuel
            → p.sdor.receive_set ≡ false
            → (in_protocol p.state ≡ true) ⊎ (p.state ≡ sdo_state_done)
            → ((fn : StateFn) × (choose_fn p.state g ≡ some fn))
            → (result : Prot × Bool) × (process_loop e h fuel p g ≡ some result))
        → (result : Prot × Bool) × (process_loop e h (suc fuel) ps kept ≡ some result)
    go (stop p status) x ih = ((p, status), rw (x, process_loop))
    go (again p g) x ih = elim inside [
      | inl here ↦
          let (less, quiet', inside', goes) = closer e h lawful ps kept here quiet x in
          let (result, r) = ih p g (omega arith) quiet' inside' goes in
          (result, rw (x, process_loop) r)
      | inr done ↦
          let (q, stops) = round-done e h ps kept fn chosen done in absurd (never (sym x ∙ stops))
    ]

-- From any state of the protocols sdo_process_states returns within four rounds, so any fuel above
-- 3 gives a result, for a reader without a receive pointer and handlers that move through sending
-- and receiving states as lib/prot does.
pub sdo_process_states-terminates :
    (e : Env) (h : Handlers)
    → Lawful h
    → (fuel : ℕ) (ps : Prot) → 3 < fuel
    → in_protocol ps.state ≡ true
    → ps.sdor.receive_set ≡ false
    → (result : Prot × Bool) × (sdo_process_states e h fuel ps ≡ some result)
unfolding sdo_process_states
sdo_process_states-terminates e h lawful fuel ps enough inside quiet =
    process_loop-ends e h lawful fuel ps none (few ps.sdor.have_block ps.state enough) quiet
      (inl inside) (choose_fn-inside ps.state inside)
  where
    few : (b : Bool) (s : ℕ) → 3 < fuel → rank_of b s < fuel
    few true s h = ground arith
    few false s h = ground arith
