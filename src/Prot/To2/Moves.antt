-- ===== src/Prot/To2/Moves.antt =====
-- lib/prot/to2: how the handlers of TO2 move through the states.
use client_sdk.Base.{
  ℕ, zero, suc, ◌+◌, ◌-◌, subst, ◌<◌, ◌≡◌, ◌⊎◌, inl, inr, refl, ap, ◌∙◌, Bool-cases, Bool, true,
  false, ltb, arith, if◌then◌else◌,
}
use client_sdk.Act.{Act, Ensures}
use client_sdk.Act.Keeps.{Keeps}
use client_sdk.Act.Steps.{Ensures-weaken, skipping}
use client_sdk.Env.{Env}
use client_sdk.Prot.{Prot}
use client_sdk.Prot.Action.{result, received, counted}
use client_sdk.Prot.Moves.{
  Sends, Receives, Moves, Taken, result-Sends, received-Receives, counted-Receives,
}
use client_sdk.Prot.Steps.{quiet, reader}
use client_sdk.Prot.Termination.{sending, receiving}
use client_sdk.Prot.To2.{To2Calls}
use client_sdk.Prot.To2.Finish.{msg50, msg51_body, to2_message}
use client_sdk.Prot.To2.Finish.Outcome.{msg50_ensures, msg51_ensures}
use client_sdk.Prot.To2.Finish.Quiet.{msg50-Keeps, msg51-Keeps}
use client_sdk.Prot.To2.Device.Sending.{msg44-Sends}
use client_sdk.Prot.To2.Device.{msg45_body, msg46}
use client_sdk.Prot.To2.Info.{msg47_body, msg48, msg49_body}
use client_sdk.Prot.To2.Info.Outcome.{
  msg45_ensures, msg46_ensures, msg47_ensures, SetUp, msg49_ensures, ValuesRead,
}
use client_sdk.Prot.To2.Info.Quiet.{msg45-Keeps, msg46-Keeps, msg47-Keeps, msg48-Keeps, msg49-Keeps}
use client_sdk.Prot.To2.Owner.{msg40, msg41_body, msg42, msg43_body}
use client_sdk.Prot.To2.Owner.Entry.{EntryDone, msg43_ensures}
use client_sdk.Prot.To2.Owner.Outcome.{HeaderDone, msg41_ensures}
use client_sdk.Prot.To2.Owner.Quiet.{msg40-Keeps, msg41-Keeps, msg42-Keeps, msg43-Keeps}
use client_sdk.Prot.To2.Quiet.{KeepsReader}

-- One of two states that send, or that receive.
one_sends :
    (b : Bool) (s m n : ℕ)
    → sending m ≡ true
    → sending n ≡ true
    → s ≡ (if b then m else n)
    → sending s ≡ true
one_sends true s m n x y is = ap sending is ∙ x
one_sends false s m n x y is = ap sending is ∙ y

one_receives :
    (b : Bool) (s m n : ℕ)
    → receiving m ≡ true
    → receiving n ≡ true
    → s ≡ (if b then m else n)
    → receiving s ≡ true
one_receives true s m n x y is = ap receiving is ∙ x
one_receives false s m n x y is = ap receiving is ∙ y

module _ (e : Env) (c : To2Calls) where
  msg40_ensures : (ps : Prot) → Ensures (msg40 e c) ps (λ _ p. p.state ≡ 41)
  unfolding msg40
  msg40_ensures ps = search skipping depth 60 fits 6000

  msg42_ensures : (ps : Prot) → Ensures (msg42 e c) ps (λ _ p. p.state ≡ 43)
  unfolding msg42
  msg42_ensures ps = search skipping depth 20

  msg48_ensures : (ps : Prot) → Ensures (msg48 e c) ps (λ _ p. p.state ≡ 49)
  unfolding msg48
  msg48_ensures ps = search skipping depth 20

  header_taken : (before p : Prot) → HeaderDone e c before p → Taken p
  header_taken before p (proven, (ov, is, next)) = (proven.taken, inl (sent next))
    where
      sent :
          ((ov.num_ov_entries ≡ 0) × (p.state ≡ 44))
            ⊎ ((0 < ov.num_ov_entries) × (p.state ≡ 42) × (p.ov_entry_num ≡ 0))
          → sending p.state ≡ true
      sent (inl (nothing, is)) = ap sending is
      sent (inr (more, is, first)) = ap sending is

  entry_taken : (before p : Prot) → EntryDone e c before p → Taken p
  entry_taken before p d = (
    d.taken,
    inl (elim d.next [ inl (less, is) ↦ ap sending is | inr (all, same, is) ↦ ap sending is ]),
  )

  setup_taken : (p : Prot) → SetUp e c p → Taken p
  setup_taken p d = (
    d.taken,
    inl (elim d.next [ inl (nothing, is) ↦ ap sending is | inr (more, is, first) ↦ ap sending is ]),
  )

  values_taken : (before p : Prot) → ValuesRead e c before p → Taken p
  values_taken before p d = (d.taken, inl (one_sends _ p.state 48 50 refl refl d.state_is))

  Sends-to :
      (n : ℕ) (m : Act Prot Unit) (s : ℕ)
      → receiving n ≡ true
      → Keeps reader m
      → ((ps : Prot) → Ensures m ps (λ _ p. p.state ≡ n))
      → Sends (λ ps. result (m ps)) s
  Sends-to n m s odd same next =
      result-Sends m s same (λ ps. Ensures-weaken (λ a p is. ap receiving is ∙ odd) (next ps))

  takes :
      (m : Act Prot Unit) (s : ℕ)
      → Keeps quiet m
      → ((ps : Prot) → Ensures m ps (λ _ p. Taken p))
      → Receives (counted e (received m)) s
  takes m s same next = counted-Receives e (received m) s (received-Receives m s same next)

  owner-Moves : KeepsReader c → (i s : ℕ) → s ≡ i + 40 → i < 4 → Moves (to2_message e c i) s
  unfolding to2_message
  owner-Moves law zero s at small = (
    λ even. Sends-to 41 (msg40 e c) s refl (msg40-Keeps e c) msg40_ensures,
    λ odd. absurd (cc (ap receiving at, odd)),
  )
  owner-Moves law (suc zero) s at small = (
    λ even. absurd (cc (ap sending at, even)),
    λ odd.
        takes (msg41_body e c) s (msg41-Keeps e c law)
          (λ ps. Ensures-weaken (λ a p next. header_taken ps p next) (msg41_ensures e c ps)),
  )
  owner-Moves law (suc (suc zero)) s at small = (
    λ even. Sends-to 43 (msg42 e c) s refl (msg42-Keeps e c) msg42_ensures,
    λ odd. absurd (cc (ap receiving at, odd)),
  )
  owner-Moves law (suc (suc (suc zero))) s at small = (
    λ even. absurd (cc (ap sending at, even)),
    λ odd.
        takes (msg43_body e c) s (msg43-Keeps e c)
          (λ ps. Ensures-weaken (λ a p next. entry_taken ps p next) (msg43_ensures e c ps)),
  )
  owner-Moves law (suc (suc (suc (suc i)))) s at small = absurd (omega arith)

  info-Moves : KeepsReader c → (i s : ℕ) → s ≡ i + 44 → i < 8 → Moves (to2_message e c (i + 4)) s
  unfolding to2_message
  info-Moves law zero s at small =
      (λ even. msg44-Sends e c s, λ odd. absurd (cc (ap receiving at, odd)))
  info-Moves law (suc zero) s at small = (
    λ even. absurd (cc (ap sending at, even)),
    λ odd. takes (msg45_body e c) s (msg45-Keeps e c) (λ ps.
        Ensures-weaken (λ a p next. (next.taken, inl (ap sending next.state_is)))
          (msg45_ensures e c ps)),
  )
  info-Moves law (suc (suc zero)) s at small = (
    λ even. result-Sends (msg46 e c) s (msg46-Keeps e c) (λ ps.
        Ensures-weaken (λ a p next. one_receives _ p.state 45 47 refl refl next)
          (msg46_ensures e c ps)),
    λ odd. absurd (cc (ap receiving at, odd)),
  )
  info-Moves law (suc (suc (suc zero))) s at small = (
    λ even. absurd (cc (ap sending at, even)),
    λ odd.
        takes (msg47_body e c) s (msg47-Keeps e c law)
          (λ ps. Ensures-weaken (λ a p next. setup_taken p next) (msg47_ensures e c ps)),
  )
  info-Moves law (suc (suc (suc (suc zero)))) s at small = (
    λ even. Sends-to 49 (msg48 e c) s refl (msg48-Keeps e c) (msg48_ensures),
    λ odd. absurd (cc (ap receiving at, odd)),
  )
  info-Moves law (suc (suc (suc (suc (suc zero))))) s at small = (
    λ even. absurd (cc (ap sending at, even)),
    λ odd.
        takes (msg49_body e c) s (msg49-Keeps e c law)
          (λ ps. Ensures-weaken (λ a p next. values_taken ps p next) (msg49_ensures e c ps)),
  )
  info-Moves law (suc (suc (suc (suc (suc (suc zero)))))) s at small = (
    λ even.
        Sends-to 51 (msg50 e c) s refl (msg50-Keeps e c)
          (λ ps. Ensures-weaken (λ a p next. next.state_is) (msg50_ensures e c ps)),
    λ odd. absurd (cc (ap receiving at, odd)),
  )
  info-Moves law (suc (suc (suc (suc (suc (suc (suc zero))))))) s at small = (
    λ even. absurd (cc (ap sending at, even)),
    λ odd.
        takes (msg51_body e c) s (msg51-Keeps e c) (λ ps.
          Ensures-weaken (λ a p next. (next.taken, inr next.state_is)) (msg51_ensures e c ps)),
  )
  info-Moves law (suc (suc (suc (suc (suc (suc (suc (suc i)))))))) s at small = absurd (omega arith)

  pub to2-Moves : KeepsReader c → (i s : ℕ) → s ≡ i + 40 → i < 12 → Moves (to2_message e c i) s
  to2-Moves law i s at small = elim (Bool-cases (ltb i 4)) [
    | inl first ↦ owner-Moves law i s at (ground (arith, first))
    | inr rest ↦
        subst (λ j. Moves (to2_message e c j) s) (ground (arith, rest))
          (info-Moves law (i - 4) s (ground (arith, at, rest)) (ground (arith, small, rest)))
  ]
