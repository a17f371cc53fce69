-- ===== src/Prot/To1/Outcome.antt =====
-- lib/prot/to1: where the handlers succeed, the next state and what has been read.
use client_sdk.Base.{◌≡◌, refl, false, Option, none, some, Bytes}
use client_sdk.Act.{Ensures, Ensures-then, Ensures-fail, Ensures-modify}
use client_sdk.Act.Steps.{gets-then, guard-then, modify-then, Ensures-next, skipping}
use client_sdk.Env.{Env}
use client_sdk.Prot.{Prot, sdo_state_done}
use client_sdk.Prot.Steps.{Ensures-rd, rd-bind, rd-then, read_nonce-then}
use client_sdk.Prot.To1.{msg30, msg31_body, msg32, redirect_text, msg33_signature, msg33_body}
use client_sdk.Prot.To2.Owner.Outcome.{flush_takes}
use client_sdk.Reader.{Sdor}
use client_sdk.Types.{Bits}

module _ (e : Env) where
  pub msg30_ensures : (ps : Prot) → Ensures (msg30 e) ps (λ _ p. p.state ≡ 31)
  unfolding msg30
  msg30_ensures ps = search skipping depth 30 fits 3000

  pub msg32_ensures :
      (sign : Bytes → Option Bits) (ps : Prot) → Ensures (msg32 e sign) ps (λ _ p. p.state ≡ 33)
  unfolding msg32
  msg32_ensures sign ps = search skipping depth 40 fits 4000

  -- The nonce that msg32 sends back.
  pub record NonceRead (after : Prot) : Type 0 where
    pub n4 : Bits
    pub n4_is : after.n4 ≡ some n4
    pub state_is : after.state ≡ 32
    pub taken : after.sdor.have_block ≡ false

  pub msg31_ensures : (ps : Prot) → Ensures (msg31_body e) ps (λ _ p. NonceRead p)
  unfolding msg31_body
  msg31_ensures ps = rd-then _ _ λ r. rd-then _ _ λ r. read_nonce-then e _ _ λ r n. rd-then _ _ λ r.
      rd-then _ _ λ r. rd-then _ _ λ r.
        modify-then _ _ (
          Ensures-modify _
            (record { n4 = n; n4_is = refl; state_is = refl; taken = flush_takes r }))

  text_ensures :
      {s : Prot} (text : Option Bytes) (Q : Unit {0} → Prot → Type 0)
      → ((plain : Bits) → Q tt (record s { plain_text = some plain }))
      → Ensures (redirect_text e text) s Q
  unfolding redirect_text
  text_ensures none Q h = modify-then _ _ Ensures-fail
  text_ensures (some text) Q h =
      modify-then _ _ (guard-then _ _ λ room. guard-then _ _ λ some_text. Ensures-modify _ (h _))

  signature_ensures :
      {s : Prot} (Q : Unit {0} → Prot → Type 0)
      → ((r : Sdor) (sg : Bits) → Q tt (record s { sdor = r; obsig = some sg }))
      → Ensures (msg33_signature e) s Q
  unfolding msg33_signature
  signature_ensures Q h = rd-then _ _ λ r. rd-bind _ _ λ r pk. rd-then _ _ λ r. rd-then _ _ λ r.
      modify-then _ _ (
        guard-then _ _
          λ room. rd-bind _ _ λ r sg. modify-then _ _ (rd-then _ _ λ r. Ensures-rd _ λ r a. h r sg))

  -- The text and the signature of the redirection, which msg41 verifies.
  pub record Redirected (after : Prot) : Type 0 where
    pub plain : Bits
    pub signature : Bits
    pub plain_is : after.plain_text ≡ some plain
    pub signature_is : after.obsig ≡ some signature
    pub state_is : after.state ≡ sdo_state_done
    pub taken : after.sdor.have_block ≡ false

  pub msg33_ensures : (ps : Prot) → Ensures (msg33_body e) ps (λ _ p. Redirected p)
  unfolding msg33_body
  msg33_ensures ps = rd-bind _ _ λ r start. Ensures-next _ _ λ s. gets-then _ _ (
      Ensures-then (
        text_ensures _ _ λ plain. Ensures-then (
          signature_ensures _ λ r sg. modify-then _ _ (
            Ensures-modify _ (record {
              plain = plain;
              signature = sg;
              plain_is = refl;
              signature_is = refl;
              state_is = refl;
              taken = flush_takes r;
            })))))
