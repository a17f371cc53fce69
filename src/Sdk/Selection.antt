-- ===== src/Sdk/Selection.antt =====
-- lib/sdo.c: `_STATE_TO1` goes around the rendezvous list.
use client_sdk.Base.{
  ℕ, zero, suc, ◌≤◌, ◌<◌, ◌≡◌, ◌⊎◌, inl, inr, ◌+◌, ◌-◌, ◌%◌, ◌∙◌, ap, sym, refl, some, [], ◌∷◌,
  List, arith, length, get_elem?, ltb, true, false, Bool-cases,
}
use native.Mathlib.Nat.{add-mod_left, mod-eq_of_lt, mod-one, suc-mod, mod_self, zero-mod}
use client_sdk.Sdk.{Rendezvous}
use client_sdk.Sdk.States.{next_rv_index, rv_entry}

get_elem?-some {ℓ} :
    {A : Type ℓ} (l : List A) (i : ℕ) → i < length l → (a : A) × (get_elem? l i ≡ some a)
get_elem?-some [] i h = absurd (omega arith)
get_elem?-some (x ∷ l) zero h = (x, refl)
get_elem?-some (x ∷ l) (suc i) h = get_elem?-some l i (omega arith)

-- The index stays within the list.
pub next_rv_index-bound : (i num : ℕ) → i ≤ num → 0 < num → next_rv_index i num ≤ num
unfolding next_rv_index
next_rv_index-bound i num h pos = ground arith

-- The index that _STATE_TO1 goes on to always has an entry in a list that is not empty, from any
-- index not above its length.
pub rv_entry-found :
    (entries : List Rendezvous) (i : ℕ)
    → i ≤ length entries
    → 0 < length entries
    → (rv : Rendezvous) × (rv_entry entries (next_rv_index i (length entries)) ≡ some rv)
unfolding rv_entry
rv_entry-found entries i h pos =
    let bound = next_rv_index-bound i (length entries) h pos in
    get_elem?-some entries _ (omega (arith, bound))

-- The index after some rounds.
unfoldable pub rounds : ℕ → ℕ → ℕ → ℕ
rounds zero i num = i
rounds (suc n) i num = next_rv_index (rounds n i num) num

-- A list with fewer entries than the index can count.
module _ (num : ℕ) (some_entry : 0 < num) (small : num < 255) where
  -- An index that is 0 only where there is one entry.
  record IsTurn (i : ℕ) : Type 0 where
    bound : i ≤ num
    past_zero : (0 < i) ⊎ (num ≡ 1)

  last_turn : 1 < num → (num + 1) % num ≡ 1
  last_turn more = add-mod_left num 1 ∙ mod-eq_of_lt more

  only_turn : (n : ℕ) → num ≡ 1 → n % num ≡ 0
  only_turn n one = ap (λ m. n % m) one ∙ mod-one n

  pub goes_up : (i : ℕ) → i < num → next_rv_index i num ≡ i + 1
  unfolding next_rv_index
  goes_up i less =
      let same : (i + 1) % 256 ≡ i + 1 = omega arith in
      let inside : ltb num (i + 1) ≡ false = ground arith in rw (same, inside) refl

  goes_around : (i : ℕ) → i ≡ num → next_rv_index i num ≡ (num + 1) % num
  unfolding next_rv_index
  goes_around i last =
      let same : (i + 1) % 256 ≡ num + 1 = omega arith in
      let above : ltb num (num + 1) ≡ true = ground arith in rw (same, above) refl

  taken_up :
      (i j n : ℕ)
      → IsTurn i
      → i < num
      → j ≡ i + 1
      → suc (i - 1) % num ≡ n
      → ((0 < i) × (n ≡ i)) ⊎ ((i ≡ 0) × (n ≡ 0))
      → IsTurn j × (j - 1 ≡ n)
  taken_up i j n t less up at (inl (pos, n_is)) =
      (record { bound = omega arith; past_zero = inl (omega arith) }, omega arith)
  taken_up i j n t less up at (inr (none, n_is)) =
      (record { bound = omega arith; past_zero = inl (omega arith) }, omega arith)

  next-Turn :
      (i : ℕ)
      → IsTurn i
      → IsTurn (next_rv_index i num) × (next_rv_index i num - 1 ≡ suc (i - 1) % num)
  next-Turn i t = elim (Bool-cases (ltb i num)) [
    | inl less ↦
        let up : i < num = ground (arith, less) in
        taken_up i _ _ t up (goes_up i up) refl (elim t.past_zero [
          | inl pos ↦ inl (
            pos,
            mod-eq_of_lt {n = suc (i - 1)} {m = num} (omega (arith, up, pos)) ∙ omega (arith, pos),
          )
          | inr one ↦ inr (omega (arith, up, one), only_turn (suc (i - 1)) one)
        ])
    | inr last ↦
        let at_end : i ≡ num = ground (arith, last, t.bound) in
        elim (Bool-cases (ltb 1 num)) [
          | inl more ↦
              let one_is = goes_around i at_end ∙ last_turn (ground (arith, more)) in
              let back : suc (i - 1) % num ≡ 0 =
                ap (λ n. n % num) (omega (arith, at_end)) ∙ mod_self num in
              (
                record { bound = omega (arith, one_is); past_zero = inl (omega (arith, one_is)) },
                omega (arith, one_is, back),
              )
          | inr single ↦
              let one : num ≡ 1 = ground (arith, single) in
              let zero_is = goes_around i at_end ∙ only_turn (num + 1) one in
              (
                record { bound = omega (arith, zero_is); past_zero = inr one },
                omega (arith, zero_is, only_turn (suc (i - 1)) one),
              )
        ]
  ]

  rounds-Turn : (k : ℕ) → IsTurn (rounds (suc k) 0 num) × (rounds (suc k) 0 num - 1 ≡ k % num)
  unfolding rounds
  rounds-Turn zero =
      let one_is = goes_up 0 some_entry in
      (
        record { bound = omega (arith, one_is); past_zero = inl (omega (arith, one_is)) },
        omega (arith, one_is, zero-mod num),
      )
  rounds-Turn (suc k) =
      let (turn, at) = rounds-Turn k in
      let (next, there) = next-Turn (rounds (suc k) 0 num) turn in
      (next, there ∙ ap (λ n. suc n % num) at ∙ sym (suc-mod k num))

-- Of a list of 1 to 254 entries _STATE_TO1, from the index 0 on, tries one entry after the other,
-- in each round the next one and behind the last one the first, for any number of rounds.
pub rv_entry-rounds :
    (entries : List Rendezvous) (k : ℕ)
    → 0 < length entries
    → length entries < 255
    → rv_entry entries (rounds (suc k) 0 (length entries)) ≡ get_elem? entries (k % length entries)
unfolding rv_entry
rv_entry-rounds entries k some_entry small =
    ap (get_elem? entries) (rounds-Turn (length entries) some_entry small k).1

wrapped : (k num : ℕ) → 255 ≤ num → next_rv_index (k % 256) num ≡ suc k % 256
unfolding next_rv_index
wrapped k num many =
    let inside : ltb num ((k % 256 + 1) % 256) ≡ false = ground arith in rw inside (omega arith)

index_wraps : (k num : ℕ) → 255 ≤ num → rounds k 0 num ≡ k % 256
unfolding rounds
index_wraps zero num many = refl
index_wraps (suc k) num many = rw (index_wraps k num many) (wrapped k num many)

-- Of a list of 255 entries or more _STATE_TO1, from the index 0 on, goes through the first 255 in
-- their order, tries the first one once more, and starts again: no entry behind them is ever
-- tried.
pub rv_entry-wraps :
    (entries : List Rendezvous) (k : ℕ)
    → 255 ≤ length entries
    → (rv_entry entries (rounds k 0 (length entries)) ≡ get_elem? entries (k % 256 - 1))
      × (k % 256 - 1 < 255)
unfolding rv_entry
rv_entry-wraps entries k many =
    (ap (λ i. get_elem? entries (i - 1)) (index_wraps k (length entries) many), omega arith)
