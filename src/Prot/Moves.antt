-- ===== src/Prot/Moves.antt =====
-- lib/prot and lib/sdoprot.c: how a handler of a state moves, and tables of such handlers are lawful.
use client_sdk.Base.{
  ℕ, ◌≡◌, ◌⊎◌, inl, inr, refl, sym, subst, ◌+◌, ◌%◌, ◌∙◌, ap, true, false, Option, none, some,
  arith, ltb, Bool-cases,
}
use client_sdk.Act.{Act, Ensures}
use client_sdk.Act.Keeps.{Keeps}
use client_sdk.Env.{Env}
use client_sdk.Prot.{
  Prot, sdo_state_done, sdo_prot_rcv_msg, block_or_error, sdo_check_to2_round_trips,
  max_to2_round_trips,
}
use client_sdk.Decimal.{u32_mod}
use client_sdk.Prot.Action.{result, received, counted, within_limit}
use client_sdk.Prot.Di.{with_message}
use client_sdk.Prot.Machine.{StateFn, Handlers, choose_fn}
use client_sdk.Prot.Steps.{quiet, reader}
use client_sdk.Prot.Termination.{in_protocol, sending, receiving, Lawful}
use client_sdk.Reader.{sdor_have_block, sdor_next_block}

-- A handler of a message that is sent stays in its state or goes to one that receives, and leaves
-- the reader.
pub record Sends (h : Prot → Prot × ℕ) (s : ℕ) : Type 0 where
  pub sent :
      (ps : Prot)
      → ps.state ≡ s
      → (h ps).1 ≡ 0
      → (((h ps).0.state ≡ ps.state) ⊎ (receiving (h ps).0.state ≡ true))
        × ((h ps).0.sdor ≡ ps.sdor)

-- A receiver's block is taken and the next state sends, or is the end.
abbrev pub Taken : Prot → Type 0
Taken p = (p.sdor.have_block ≡ false) × ((sending p.state ≡ true) ⊎ (p.state ≡ sdo_state_done))

pub record Receives (h : Prot → Prot × ℕ) (s : ℕ) : Type 0 where
  pub waited :
      (ps : Prot)
      → ps.state ≡ s
      → ps.sdor.have_block ≡ false
      → ps.sdor.receive_set ≡ false
      → (h ps).1 ≡ 0
      → ((h ps).0.state ≡ ps.state) × ((h ps).0.sdor ≡ ps.sdor)
  pub took :
      (ps : Prot)
      → ps.state ≡ s
      → ps.sdor.have_block ≡ true
      → (h ps).1 ≡ 0
      → Taken (h ps).0 × ((h ps).0.sdor.receive_set ≡ ps.sdor.receive_set)

abbrev pub Moves : (Prot → Prot × ℕ) → ℕ → Type 0
Moves h s = (sending s ≡ true → Sends h s) × (receiving s ≡ true → Receives h s)

result_ok : (p : Prot × Option (Unit {0})) → (result p).1 ≡ 0 → p.1 ≡ some tt
unfolding result
result_ok (ps, none) ok = absurd (cc ok)
result_ok (ps, some tt) ok = refl

result_run : (p : Prot × Option (Unit {0})) → (result p).0 ≡ p.0
unfolding result
result_run (ps, none) = refl
result_run (ps, some a) = refl

pub result-Sends :
    (m : Act Prot Unit) (s : ℕ)
    → Keeps reader m
    → ((ps : Prot) → Ensures m ps (λ _ p. receiving p.state ≡ true))
    → Sends (λ ps. result (m ps)) s
result-Sends m s same next = record {
  sent = λ ps at ok. (
    inr (
        ap (λ p. receiving p.state) (result_run (m ps)) ∙ (next ps).holds tt (result_ok (m ps) ok)),
    ap (λ p. p.sdor) (result_run (m ps)) ∙ same.kept ps,
  );
}

with_message-block : (ps : Prot) (x : Prot × ℕ) → ps.sdor.have_block ≡ true → with_message ps x ≡ x
unfolding with_message sdo_prot_rcv_msg sdor_have_block sdor_next_block block_or_error
with_message-block ps x block = ground (arith, block)

with_message-free :
    (ps : Prot) (x : Prot × ℕ)
    → ps.sdor.have_block ≡ false
    → ps.sdor.receive_set ≡ false
    → with_message ps x ≡ (ps, 0)
unfolding with_message sdo_prot_rcv_msg sdor_have_block
with_message-free ps x free unset = rw (free, unset)

pub received-Receives :
    (m : Act Prot Unit) (s : ℕ)
    → Keeps quiet m
    → ((ps : Prot) → Ensures m ps (λ _ p. Taken p))
    → Receives (received m) s
unfolding received
received-Receives m s same next = record {
  waited = λ ps at free unset ok.
      let w = with_message-free ps (result (m ps)) free unset in
      (ap (λ p. p.0.state) w, ap (λ p. p.0.sdor) w);
  took = λ ps at block ok.
      let w = with_message-block ps (result (m ps)) block in
      let good = result_ok (m ps) (sym (ap (λ p. p.1) w) ∙ ok) in
      let run = ap (λ p. p.0) w ∙ result_run (m ps) in
      (subst Taken (sym run) ((next ps).holds tt good), ap quiet run ∙ same.kept ps);
}

-- Another round trip has been counted.
abbrev pub trip_counted : Prot → Prot
trip_counted ps = record ps { round_trip_count = (ps.round_trip_count + 1) % u32_mod }

pub counted-cases :
    (e : Env) (h : Prot → Prot × ℕ) (ps : Prot)
    → ((counted e h ps).1 ≡ 1) ⊎ (counted e h ps ≡ h (trip_counted ps))
unfolding counted within_limit sdo_check_to2_round_trips
counted-cases e h ps = elim (Bool-cases (ltb max_to2_round_trips ps.round_trip_count)) [
  | inl beyond ↦ inl (rw beyond refl)
  | inr within ↦ inr (rw within refl)
]

failed_not_ok : {n : ℕ} → n ≡ 1 → n ≡ 0 → ⊥
failed_not_ok bad ok = omega arith

pub counted-Receives :
    (e : Env) (h : Prot → Prot × ℕ) (s : ℕ) → Receives h s → Receives (counted e h) s
counted-Receives e h s r = record {
  waited = λ ps at free unset ok. elim (counted-cases e h ps) [
    | inl bad ↦ absurd (failed_not_ok bad ok)
    | inr same ↦
        let (state, kept) =
          r.waited (trip_counted ps) at free unset (sym (ap (λ p. p.1) same) ∙ ok) in
        (ap (λ p. p.0.state) same ∙ state, ap (λ p. p.0.sdor) same ∙ kept)
  ];
  took = λ ps at block ok. elim (counted-cases e h ps) [
    | inl bad ↦ absurd (failed_not_ok bad ok)
    | inr same ↦
        let (taken, kept) = r.took (trip_counted ps) at block (sym (ap (λ p. p.1) same) ∙ ok) in
        (subst Taken (sym (ap (λ p. p.0) same)) taken, ap (λ p. quiet p.0) same ∙ kept)
  ];
}

odd_or_even : (s : ℕ) → in_protocol s ≡ true → sending s ≡ false → receiving s ≡ true
odd_or_even s h k = ground arith

-- A table whose handlers move well is lawful.
module _ (h : Handlers)
    (moves : (s : ℕ) (fn : StateFn)
      → choose_fn s none ≡ some fn
      → (in_protocol s ≡ true) × Moves (h fn) s) where
  sends_well :
      (ps : Prot) (fn : StateFn)
      → choose_fn ps.state none ≡ some fn
      → sending ps.state ≡ true
      → (h fn ps).1 ≡ 0
      → (((h fn ps).0.state ≡ ps.state) ⊎ (receiving (h fn ps).0.state ≡ true))
        × ((h fn ps).0.sdor ≡ ps.sdor)
  sends_well ps fn chosen even ok =
      let (inside, (sends, receives)) = moves ps.state fn chosen in (sends even).sent ps refl ok

  pub moving-Lawful : Lawful h
  moving-Lawful = record {
    sends = λ ps fn chosen even ok.
        let (next, same) = sends_well ps fn chosen even ok in
        elim next [ inl stays ↦ inl stays | inr odd ↦ inr (odd, ap (λ r. r.have_block) same) ];
    waits = λ ps fn chosen odd free unset ok.
        let (inside, (sends, receives)) = moves ps.state fn chosen in
        ((receives odd).waited ps refl free unset ok).0;
    receives = λ ps fn chosen odd block ok.
        let (inside, (sends, receives)) = moves ps.state fn chosen in
        inr ((receives odd).took ps refl block ok).0;
    unset = λ ps fn chosen unset ok.
        let (inside, (sends, receives)) = moves ps.state fn chosen in
        elim (Bool-cases (sending ps.state)) [
          | inl even ↦ ap (λ r. r.receive_set) (sends_well ps fn chosen even ok).1 ∙ unset
          | inr not_even ↦
              let odd = odd_or_even ps.state inside not_even in
              elim (Bool-cases ps.sdor.have_block) [
                | inl block ↦ ((receives odd).took ps refl block ok).1 ∙ unset
                | inr free ↦
                    ap (λ r. r.receive_set) ((receives odd).waited ps refl free unset ok).1 ∙ unset
              ]
        ];
  }
