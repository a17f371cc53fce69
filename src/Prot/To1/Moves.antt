-- ===== src/Prot/To1/Moves.antt =====
-- lib/prot/to1: how the handlers of TO1 move through the states.
use client_sdk.Base.{
  ℕ, zero, suc, ◌+◌, ◌<◌, ◌≡◌, inl, inr, refl, ap, sym, subst, Option, none, some, Bytes, arith,
}
use client_sdk.Act.{Ensures}
use client_sdk.Act.Steps.{Ensures-weaken}
use client_sdk.Env.{Env}
use client_sdk.Prot.{Prot}
use client_sdk.Prot.Action.{on_failure, after_failure}
use client_sdk.Prot.Moves.{Moves, result-Sends, received-Receives}
use client_sdk.Prot.Steps.{on_failure-Keeps}
use client_sdk.Prot.Termination.{sending, receiving}
use client_sdk.Prot.To1.{msg30, msg31_body, msg32, msg33_body, without_signature, to1_message}
use client_sdk.Prot.To1.Outcome.{
  Redirected, msg30_ensures, msg31_ensures, msg32_ensures, msg33_ensures,
}
use client_sdk.Prot.To1.Quiet.{msg30-Keeps, msg31-Keeps, msg32-Keeps, msg33-Keeps}
use client_sdk.Types.{Bits}

success_kept :
    (f : Prot → Prot) (p : Prot × Option (Unit {0}))
    → (after_failure f p).1 ≡ some tt
    → (p.1 ≡ some tt) × ((after_failure f p).0 ≡ p.0)
unfolding after_failure
success_kept f (ps, none) ok = absurd (ground (arith, ok))
success_kept f (ps, some a) ok = (ok, refl)

module _ (e : Env) (sign : Bytes → Option Bits) where
  -- What is done at a failure does not show where msg33 succeeds.
  pub msg33_ends :
      (ps : Prot) → Ensures (on_failure without_signature (msg33_body e)) ps (λ _ p. Redirected e p)
  unfolding on_failure
  msg33_ends ps = record {
    holds = λ a ok.
        let (good, run) = success_kept without_signature (msg33_body e ps) ok in
        subst (Redirected e) (sym run) ((msg33_ensures e ps).holds tt good);
  }

  pub to1-Moves : (i s : ℕ) → s ≡ i + 30 → i < 4 → Moves (to1_message e sign i) s
  unfolding to1_message
  to1-Moves zero s at small = (
    λ even.
        result-Sends (msg30 e) s (msg30-Keeps e)
          (λ ps. Ensures-weaken (λ a p next. ap receiving next) (msg30_ensures e ps)),
    λ odd. absurd (cc (ap receiving at, odd)),
  )
  to1-Moves (suc zero) s at small = (
    λ even. absurd (cc (ap sending at, even)),
    λ odd. received-Receives (msg31_body e) s (msg31-Keeps e) (λ ps.
        Ensures-weaken (λ a p next. (next.taken, inl (ap sending next.state_is)))
          (msg31_ensures e ps)),
  )
  to1-Moves (suc (suc zero)) s at small = (
    λ even.
        result-Sends (msg32 e sign) s (msg32-Keeps e sign)
          (λ ps. Ensures-weaken (λ a p next. ap receiving next) (msg32_ensures e sign ps)),
    λ odd. absurd (cc (ap receiving at, odd)),
  )
  to1-Moves (suc (suc (suc zero))) s at small = (
    λ even. absurd (cc (ap sending at, even)),
    λ odd.
        received-Receives _ s
          (on_failure-Keeps without_signature (msg33_body e) (λ ps. refl) (msg33-Keeps e))
          (λ ps. Ensures-weaken (λ a p next. (next.taken, inr next.state_is)) (msg33_ends ps)),
  )
  to1-Moves (suc (suc (suc (suc i)))) s at small = absurd (omega arith)
