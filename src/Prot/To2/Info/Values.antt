-- ===== src/Prot/To2/Info/Values.antt =====
-- lib/prot/to2: the messages of the owner's service information, received one after another by msg49.
use client_sdk.Base.{
  ℕ, ◌+◌, ◌<◌, ◌≡◌, ◌⊎◌, inl, inr, refl, sym, ◌∙◌, ap, Bool-cases, some, ltb, arith, if◌then◌else◌,
}
use client_sdk.Env.{Env}
use client_sdk.Prot.{Prot}
use client_sdk.Prot.To2.{To2Calls}
use client_sdk.Prot.To2.Info.{msg49_body}
use client_sdk.Prot.To2.Info.Outcome.{ValuesRead, msg49_ensures}

module _ (e : Env) (c : To2Calls) where
  -- What happens between two messages leaves the counters as they are.
  pub record SameCounters (p q : Prot) : Type 0 where
    pub same_number : q.owner_supplied_service_info_num ≡ p.owner_supplied_service_info_num
    pub same_count : q.owner_supplied_service_info_count ≡ p.owner_supplied_service_info_count

  -- Runs of msg49 that succeed, each asked for by msg48, and how many there are.
  pub data Messages : Prot → Prot → ℕ → Type 0 where
    no_message : {p : Prot} → Messages p p 0
    message :
        {p q r : Prot} {n : ℕ}
        → Messages p q n
        → q.state ≡ 48
        → SameCounters q r
        → (msg49_body e c r).1 ≡ some tt
        → Messages p (msg49_body e c r).0 (n + 1)

  pub record Counted (p q : Prot) (n : ℕ) : Type 0 where
    pub number_is : q.owner_supplied_service_info_num ≡ n
    pub count_is : q.owner_supplied_service_info_count ≡ p.owner_supplied_service_info_count
    pub next :
        ((q.state ≡ 48) × (n < p.owner_supplied_service_info_count))
        ⊎ ((q.state ≡ 50) × (n ≡ p.owner_supplied_service_info_count))

  choice :
      (k n m s : ℕ)
      → k < n
      → m ≡ k + 1
      → s ≡ (if ltb m n then 48 else 50)
      → ((s ≡ 48) × (k + 1 < n)) ⊎ ((s ≡ 50) × (k + 1 ≡ n))
  choice k n m s less number is = elim (Bool-cases (ltb m n)) [
    | inl more ↦
        let below : m < n = ground (arith, more) in
        inl (is ∙ ap (λ b. if b then 48 else 50) more, omega (arith, number, below))
    | inr last ↦
        let not_below : n < m + 1 = ground (arith, last) in
        inr (is ∙ ap (λ b. if b then 48 else 50) last, omega (arith, number, not_below, less))
  ]

  next_message :
      {p q r s : Prot} {n : ℕ}
      → Counted p q n
      → q.state ≡ 48
      → SameCounters q r
      → ValuesRead e c r s
      → Counted p s (n + 1)
  next_message {p} {q} {r} {s} {n} ih going same d =
      let left : n < p.owner_supplied_service_info_count = elim ih.next [
        | inl (state, less) ↦ less
        | inr (state, done) ↦ absurd (omega (arith, sym state ∙ going))
      ] in
      let number : s.owner_supplied_service_info_num ≡ n + 1 =
        d.number ∙ ap (λ x. x + 1) (same.same_number ∙ ih.number_is) in
      let count : s.owner_supplied_service_info_count ≡ p.owner_supplied_service_info_count =
        d.same_count ∙ same.same_count ∙ ih.count_is in
      record {
        number_is = number;
        count_is = count;
        next =
            choice n p.owner_supplied_service_info_count s.owner_supplied_service_info_num s.state
              left number
              (d.state_is
                ∙ ap (λ m. if ltb s.owner_supplied_service_info_num m then 48 else 50) count);
      }

  -- From msg47 on, with a message of the owner's service information to ask for, each run of msg49
  -- that succeeds counts one message: after fewer than the count of msg47 the next one is asked
  -- for, and after exactly as many the run goes on to the end. What happens between two messages
  -- leaves the counters.
  pub Messages-Counted :
      {p q : Prot} {n : ℕ}
      → p.owner_supplied_service_info_num ≡ 0
      → p.state ≡ 48
      → 0 < p.owner_supplied_service_info_count
      → Messages p q n
      → Counted p q n
  Messages-Counted first going some_left no_message = record {
    number_is = first;
    count_is = refl;
    next = inl (going, some_left);
  }
  Messages-Counted first going some_left (message before at same ok) =
      next_message (Messages-Counted first going some_left before) at same
        ((msg49_ensures e c _).holds tt ok)
