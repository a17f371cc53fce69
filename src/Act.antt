-- ===== src/Act.antt =====
-- Functions on a state that may fail: the C functions that go to their label `err` and leave the
-- state as it is by then.
pub mod Keeps
pub mod Steps
use mathlib.Core.Option.{some_inj}
use client_sdk.Base.{◌≡◌, refl, subst, Bool, true, false, Option, none, some, arith}

-- The state that is left, and the result; `none` is a failure.
abbrev pub Act : Type 0 → Type 0 → Type 0
Act S A = S → S × Option A

if_true : Bool → Option (Unit {0})
if_true true = some tt
if_true false = none

if_true_holds : {P : Type 0} (b : Bool) → (b ≡ true → P) → (a : Unit {0}) → if_true b ≡ some a → P
unfolding if_true
if_true_holds true q a got = q refl
if_true_holds false q a got = absurd (ground (arith, got))

module _ {S : Type 0} where
  -- What follows a result.
  unfoldable pub follow : {A B : Type 0} → S × Option A → (A → Act S B) → S × Option B
  follow (s, none) k = (s, none)
  follow (s, some a) k = k a s

  infixl 5 ◌>>=◌ ◌>>◌
  unfoldable pub ◌>>=◌ : {A B : Type 0} → Act S A → (A → Act S B) → Act S B
  unfolding follow
  ◌>>=◌ m k s = follow (m s) k

  unfoldable pub ◌>>◌ : {B : Type 0} → Act S Unit → Act S B → Act S B
  unfolding ◌>>=◌
  ◌>>◌ m k s = ◌>>=◌ m (λ _. k) s

  unfoldable pub pure : {A : Type 0} → A → Act S A
  pure a s = (s, some a)

  unfoldable pub fail : {A : Type 0} → Act S A
  fail s = (s, none)

  unfoldable pub guard : Bool → Act S Unit
  guard true s = (s, some tt)
  guard false s = (s, none)

  unfoldable pub modify : (S → S) → Act S Unit
  modify f s = (f s, some tt)

  unfoldable pub gets : {A : Type 0} → (S → A) → Act S A
  gets f s = (s, some (f s))

  unfoldable pub from : {A : Type 0} → Option A → Act S A
  from o s = (s, o)

  -- A C function that returns whether it has succeeded.
  unfoldable pub tested : (S → S × Bool) → Act S Unit
  unfolding if_true
  tested f s = let got = f s in (got.0, if_true got.1)

  -- Where the function succeeds, the result and the state that it leaves satisfy the predicate.
  pub record Ensures {A : Type 0} (m : Act S A) (s : S) (Q : A → S → Type 0) : Type 0 where
    pub holds : (a : A) → (m s).1 ≡ some a → Q a (m s).0

  follow_holds :
      {A B : Type 0} (k : A → Act S B) (Q : B → S → Type 0) (p : S × Option A)
      → ((a : A) → p.1 ≡ some a → Ensures (k a) p.0 Q)
      → (b : B) → (follow p k).1 ≡ some b
      → Q b (follow p k).0
  unfolding follow
  follow_holds k Q (s, none) h b got = absurd (ground (arith, got))
  follow_holds k Q (s, some a) h b got = (h a refl).holds b got

  pub Ensures-bind :
      {A B : Type 0} {m : Act S A} {k : A → Act S B} {s : S} {Q : B → S → Type 0}
      → Ensures m s (λ a s'. Ensures (k a) s' Q)
      → Ensures (m >>= k) s Q
  unfolding ◌>>=◌
  Ensures-bind {m} {k} {s} {Q} h = record { holds = follow_holds k Q (m s) h.holds }

  pub Ensures-then :
      {B : Type 0} {m : Act S Unit} {k : Act S B} {s : S} {Q : B → S → Type 0}
      → Ensures m s (λ a s'. Ensures k s' Q)
      → Ensures (m >> k) s Q
  unfolding ◌>>=◌ ◌>>◌
  Ensures-then {m} {k} {s} {Q} h = record { holds = follow_holds (λ _. k) Q (m s) h.holds }

  module _ {A : Type 0} {s : S} {Q : A → S → Type 0} where
    pub Ensures-pure : (a : A) → Q a s → Ensures (pure a) s Q
    unfolding pure
    Ensures-pure a q = record { holds = λ b got. subst (λ x. Q x s) (some_inj.0 got) q }

    pub Ensures-fail : Ensures fail s Q
    unfolding fail
    Ensures-fail = record { holds = λ b got. absurd (ground (arith, got)) }

    pub Ensures-gets : (f : S → A) → Q (f s) s → Ensures (gets f) s Q
    unfolding gets
    Ensures-gets f q = record { holds = λ b got. subst (λ x. Q x s) (some_inj.0 got) q }

    pub Ensures-from : {o : Option A} → ((a : A) → o ≡ some a → Q a s) → Ensures (from o) s Q
    unfolding from
    Ensures-from {o} q = record { holds = q }

    pub Ensures-by : {m : Act S A} → ((a : A) → (m s).1 ≡ some a → Q a (m s).0) → Ensures m s Q
    Ensures-by q = record { holds = q }

  module _ {s : S} {Q : Unit {0} → S → Type 0} where
    pub Ensures-guard : (b : Bool) → (b ≡ true → Q tt s) → Ensures (guard b) s Q
    unfolding guard
    Ensures-guard true q = record { holds = λ a got. q refl }
    Ensures-guard false q = record { holds = λ a got. absurd (ground (arith, got)) }

    pub Ensures-modify : (f : S → S) → Q tt (f s) → Ensures (modify f) s Q
    unfolding modify
    Ensures-modify f q = record { holds = λ a got. q }

    pub Ensures-tested :
        (f : S → S × Bool) → ((f s).1 ≡ true → Q tt (f s).0) → Ensures (tested f) s Q
    unfolding tested
    Ensures-tested f q = record { holds = if_true_holds (f s).1 q }
