-- ===== src/Types/Signature/Verified.antt =====
-- lib/sdotypes.c: what a verification of a voucher entry's signature has checked.
use client_sdk.Base.{
  ℕ, ◌-◌, ◌≡◌, refl, sym, ap, subst, Bool, true, false, Option, none, some, Bytes, take, drop,
  arith, if◌then◌else◌,
}
use mathlib.Core.Option.{some_inj}
use client_sdk.Act.{Ensures, Ensures-guard, Ensures-gets}
use client_sdk.Act.Steps.{gets-then, from-then, run-then, Ensures-next}
use client_sdk.Env.{Env, bytes_of}
use client_sdk.Reader.{Sdor, sdor_get_block_ptr}
use client_sdk.Types.Keys.{PublicKey}
use client_sdk.Types.Signature.{
  OvVerify, block_text, text_from, signature_read, sdo_begin_read_signature,
  sdo_ov_signature_verification,
}

-- The text of a reader's block between two cursors.
abbrev pub between : ℕ → ℕ → Option Bytes → Bytes
between from to block = take (to - from) (drop from (bytes_of block))

text_is_between :
    (start : ℕ) (r : Sdor) (refused : Bool) (text : Bytes)
    → text_from start r (if refused then none else some (drop start (bytes_of r.b.block)))
      ≡ some text
    → text ≡ between start r.b.cursor r.b.block
unfolding text_from
text_is_between start r true text got = absurd (ground (arith, got))
text_is_between start r false text got = sym (some_inj.0 got)

pub block_text-between :
    (start : ℕ) (r : Sdor) (text : Bytes)
    → block_text start r ≡ some text
    → text ≡ between start r.b.cursor r.b.block
unfolding block_text sdor_get_block_ptr
block_text-between start r text got = text_is_between start r _ text got

-- A text has a signature that is good for the key, and that is read by the reader that is given.
pub record Signed (e : Env) (v : OvVerify) (key : Option PublicKey) (text : Bytes) (r : Sdor)
    : Type 0 where
  pub pk : PublicKey
  pub signature : Bytes
  pub pk_is : key ≡ some pk
  pub signature_is : (signature_read e r).1 ≡ some signature
  pub good : v text signature pk ≡ true

module _ (e : Env) where
  pub begin_ensures :
      {r : Sdor} → Ensures (sdo_begin_read_signature e) r (λ start q. start ≡ q.b.cursor)
  unfolding sdo_begin_read_signature
  begin_ensures = Ensures-next _ _ λ r. Ensures-next _ _ λ r. Ensures-gets _ refl

module _ (e : Env) (v : OvVerify) where
  pub verification_ensures :
      (start : ℕ) (key : Option PublicKey) {r : Sdor}
      → Ensures
          (sdo_ov_signature_verification e v start key)
          r
          (λ _ _. Signed e v key (between start r.b.cursor r.b.block) r)
  unfolding sdo_ov_signature_verification
  verification_ensures start key {r} = from-then _ _ λ pk is. gets-then _ _ (
      from-then _ _ λ text there. run-then _ _ λ sg q got. Ensures-guard _ λ good. record {
        pk = pk;
        signature = sg;
        pk_is = is;
        signature_is = ap (λ x. x.1) got;
        good = subst (λ t. v t sg pk ≡ true) (block_text-between start r text there) good;
      })
