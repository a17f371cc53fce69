-- ===== src/Act/Steps.antt =====
-- The rules of Ensures for an action and what follows it.
use client_sdk.Base.{◌≡◌, Bool, true, Option, some}
use client_sdk.Act.{
  Act, ◌>>=◌, ◌>>◌, pure, guard, modify, gets, from, Ensures, Ensures-bind, Ensures-then,
  Ensures-guard, Ensures-modify, Ensures-gets, Ensures-from,
}

module _ {S : Type 0} where
  pub Ensures-weaken :
      {A : Type 0} {m : Act S A} {s : S} {P Q : A → S → Type 0}
      → ((a : A) (s' : S) → P a s' → Q a s')
      → Ensures m s P
      → Ensures m s Q
  Ensures-weaken h p = record { holds = λ a got. h a _ (p.holds a got) }

  module _ {A B : Type 0} {s : S} {Q : B → S → Type 0} where
    pub Ensures-after :
        (m : Act S A) (k : A → Act S B)
        → ((a : A) (s' : S) → Ensures (k a) s' Q)
        → Ensures (m >>= k) s Q
    Ensures-after m k h = Ensures-bind (record { holds = λ a got. h a _ })

    pub run-then :
        (m : Act S A) (k : A → Act S B)
        → ((a : A) (s' : S) → m s ≡ (s', some a) → Ensures (k a) s' Q)
        → Ensures (m >>= k) s Q
    run-then m k h = Ensures-bind (record { holds = λ a got. h a _ (λ i. ((m s).0, got i)) })

    pub gets-then :
        (g : S → A) (k : A → Act S B) → Ensures (k (g s)) s Q → Ensures (gets g >>= k) s Q
    gets-then g k h = Ensures-bind (Ensures-gets g h)

    pub from-then :
        (o : Option A) (k : A → Act S B)
        → ((a : A) → o ≡ some a → Ensures (k a) s Q)
        → Ensures (from o >>= k) s Q
    from-then o k h = Ensures-bind (Ensures-from h)

  module _ {B : Type 0} {s : S} {Q : B → S → Type 0} where
    pub Ensures-next :
        (m : Act S Unit) (k : Act S B) → ((s' : S) → Ensures k s' Q) → Ensures (m >> k) s Q
    Ensures-next m k h = Ensures-then (record { holds = λ a got. h _ })

    pub guard-then :
        (b : Bool) (k : Act S B) → (b ≡ true → Ensures k s Q) → Ensures (guard b >> k) s Q
    guard-then b k h = Ensures-then (Ensures-guard b h)

    pub modify-then : (g : S → S) (k : Act S B) → Ensures k (g s) Q → Ensures (modify g >> k) s Q
    modify-then g k h = Ensures-then (Ensures-modify g h)

-- Up to the last step.
pub ruleset skipping = (Ensures-next, Ensures-after, Ensures-modify)
