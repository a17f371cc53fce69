-- ===== src/Prot/To2/Device/Sending.antt =====
-- lib/prot/to2: msg44 goes on to a state that receives, or stays where it is.
use client_sdk.Base.{ℕ, ◌≡◌, ◌⊎◌, inl, inr, refl, ap, ◌∙◌, true, Option, none, some, arith}
use client_sdk.Act.{Act}
use client_sdk.Act.Keeps.{Keeps, keeps}
use client_sdk.Env.{Env}
use client_sdk.Prot.{Prot}
use client_sdk.Prot.Action.{wr, wrote}
use client_sdk.Prot.Moves.{Sends}
use client_sdk.Prot.Termination.{receiving}
use client_sdk.Prot.To2.{To2Calls, write_held, fresh_nonce}
use client_sdk.Prot.To2.Device.{
  after_proof, count_rounds, msg44_begin, msg44_body, msg44_ended, msg44_begun, msg44,
}
use client_sdk.Reader.{Sdor}
use client_sdk.Types.{Bits}
use client_sdk.Writer.{Sdow}

-- The state of the run, and the reader.
abbrev place : Prot → ℕ × Sdor
place ps = (ps.state, ps.sdor)

wr-place-Keeps : {A : Type 0} (m : Act Sdow A) → Keeps place (wr m)
unfolding wr
wr-place-Keeps m = record { kept = λ ps. refl }

wrote-place-Keeps : {A : Type 0} (f : Sdow → Sdow × A) → Keeps place (wrote f)
unfolding wrote
wrote-place-Keeps f = record { kept = λ ps. refl }

ruleset placed = (keeps, wr-place-Keeps, wrote-place-Keeps)

module _ (e : Env) where
  held_place-Keeps : (f : Prot → Option Bits) → Keeps place (write_held e f)
  unfolding write_held
  held_place-Keeps f = search placed depth 20

module _ (e : Env) (c : To2Calls) where
  nonce_place-Keeps :
      (set : Option Bits → Prot → Prot)
      → ((n : Option Bits) (ps : Prot) → place (set n ps) ≡ place ps)
      → Keeps place (fresh_nonce e c set)
  unfolding fresh_nonce
  nonce_place-Keeps set same = search (placed, same) depth 20

  rounds_place-Keeps : Keeps place (count_rounds e c)
  unfolding count_rounds
  rounds_place-Keeps = search placed depth 60 fits 6000

  begin_place-Keeps : Keeps place (msg44_begin e c)
  unfolding msg44_begin
  begin_place-Keeps = search placed depth 60 fits 6000

  body_place-Keeps : (start : ℕ) → Keeps place (msg44_body e c start)
  unfolding msg44_body
  body_place-Keeps start =
      search (placed, held_place-Keeps, nonce_place-Keeps, rounds_place-Keeps) depth 60 fits 6000

  after_proof_place :
      (ps : Prot)
      → (receiving (after_proof e ps).state ≡ true) × ((after_proof e ps).sdor ≡ ps.sdor)
  unfolding after_proof
  after_proof_place ps = ground arith

  -- What a sender leaves of a run that stood at a place.
  abbrev Left : ℕ × Sdor → Prot → Type 0
  Left at p = ((p.state ≡ at.0) ⊎ (receiving p.state ≡ true)) × (p.sdor ≡ at.1)

  ended-Left :
      (at : ℕ × Sdor) (p : Prot × Option (Unit {0}))
      → place p.0 ≡ at
      → Left at (msg44_ended e c p).0
  unfolding msg44_ended
  ended-Left at (ps, none) same = (inl (ap (λ x. x.0) same), ap (λ x. x.1) same)
  ended-Left at (ps, some a) same =
      let (next, kept) = after_proof_place ps in (inr next, kept ∙ ap (λ x. x.1) same)

  begun-Left :
      (at : ℕ × Sdor) (p : Prot × Option ℕ) → place p.0 ≡ at → Left at (msg44_begun e c p).0
  unfolding msg44_begun
  begun-Left at (ps, none) same = (inl (ap (λ x. x.0) same), ap (λ x. x.1) same)
  begun-Left at (ps, some start) same =
      ended-Left at (msg44_body e c start ps) ((body_place-Keeps start).kept ps ∙ same)

  pub msg44-Sends : (s : ℕ) → Sends (msg44 e c) s
  unfolding msg44
  msg44-Sends s = record {
    sent = λ ps at ok. begun-Left (place ps) (msg44_begin e c ps) ((begin_place-Keeps).kept ps);
  }
