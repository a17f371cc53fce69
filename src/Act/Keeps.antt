-- ===== src/Act/Keeps.antt =====
-- What an action keeps of the state, whether or not it fails.
use client_sdk.Base.{◌≡◌, refl, ◌∙◌, Bool, true, false, Option, none, some, if◌then◌else◌}
use client_sdk.Act.{Act, follow, ◌>>=◌, ◌>>◌, pure, fail, guard, modify, gets, from, tested}

module _ {S X : Type 0} where
  pub record Keeps {A : Type 0} (f : S → X) (m : Act S A) : Type 0 where
    pub kept : (s : S) → f (m s).0 ≡ f s

  module _ {f : S → X} where
    follow-Keeps :
        {A B : Type 0} (p : S × Option A) (k : A → Act S B)
        → ((a : A) → Keeps f (k a))
        → f (follow p k).0 ≡ f p.0
    unfolding follow
    follow-Keeps (s, none) k h = refl
    follow-Keeps (s, some a) k h = (h a).kept s

    pub Keeps-bind :
        {A B : Type 0} {m : Act S A} {k : A → Act S B}
        → Keeps f m
        → ((a : A) → Keeps f (k a))
        → Keeps f (m >>= k)
    unfolding ◌>>=◌
    Keeps-bind {m} {k} h n = record { kept = λ s. follow-Keeps (m s) k n ∙ h.kept s }

    pub Keeps-then :
        {B : Type 0} {m : Act S Unit} {k : Act S B} → Keeps f m → Keeps f k → Keeps f (m >> k)
    unfolding ◌>>=◌ ◌>>◌
    Keeps-then {m} {k} h n = record { kept = λ s. follow-Keeps (m s) (λ _. k) (λ _. n) ∙ h.kept s }

    pub Keeps-pure : {A : Type 0} (a : A) → Keeps f (pure a)
    unfolding pure
    Keeps-pure a = record { kept = λ s. refl }

    pub Keeps-fail : {A : Type 0} → Keeps f (fail {A = A})
    unfolding fail
    Keeps-fail = record { kept = λ s. refl }

    pub Keeps-guard : (b : Bool) → Keeps f (guard b)
    unfolding guard
    Keeps-guard true = record { kept = λ s. refl }
    Keeps-guard false = record { kept = λ s. refl }

    pub Keeps-modify : (g : S → S) → ((s : S) → f (g s) ≡ f s) → Keeps f (modify g)
    unfolding modify
    Keeps-modify g h = record { kept = h }

    pub Keeps-gets : {A : Type 0} (g : S → A) → Keeps f (gets g)
    unfolding gets
    Keeps-gets g = record { kept = λ s. refl }

    pub Keeps-from : {A : Type 0} (o : Option A) → Keeps f (from o)
    unfolding from
    Keeps-from o = record { kept = λ s. refl }

    pub Keeps-tested : (g : S → S × Bool) → ((s : S) → f (g s).0 ≡ f s) → Keeps f (tested g)
    unfolding tested
    Keeps-tested g h = record { kept = h }

    pub Keeps-if :
        {A : Type 0} {m n : Act S A} (b : Bool)
        → Keeps f m
        → Keeps f n
        → Keeps f (if b then m else n)
    Keeps-if true h k = h
    Keeps-if false h k = k

pub ruleset keeps = (
  Keeps-bind, Keeps-then, Keeps-pure, Keeps-fail, Keeps-guard, Keeps-modify, Keeps-gets, Keeps-from,
  Keeps-tested, Keeps-if,
)
