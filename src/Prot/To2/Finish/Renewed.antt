-- ===== src/Prot/To2/Finish/Renewed.antt =====
-- lib/prot/to2: what msg50 puts into the credentials, and the HMAC that it chooses for the voucher.
use client_sdk.Base.{
  ◌≡◌, ◌⊎◌, inl, inr, refl, ◌∙◌, ap, ℕ, Bool-cases, Bool, true, false, ◌&&◌, Option, some, arith,
  if◌then◌else◌,
}
use client_sdk.Act.{◌>>◌, modify, pure, Ensures, Ensures-bind, Ensures-pure}
use client_sdk.Act.Steps.{gets-then, from-then, guard-then, modify-then, Ensures-weaken}
use client_sdk.Env.{Env}
use client_sdk.Prot.{DevCred, OwnerBlk, OwnerSupplied, Prot}
use client_sdk.Prot.Di.{sdo_device_state_ready1}
use client_sdk.Prot.To2.{To2Calls}
use client_sdk.Prot.To2.Finish.{
  sdo_device_state_idle, set_owner, owner_updated, status_updated, with_status, msg50_credentials,
  reuse_hmac, resale_hmac, no_hmac, new_hmac, msg50_hmac,
}
use client_sdk.Types.Rendezvous.{Hash}

-- The device has the GUID and the rendezvous list that the owner has supplied.
pub record Renewed (osc : OwnerSupplied) (p : Prot) : Type 0 where
  pub cred : DevCred
  pub owner : OwnerBlk
  pub cred_is : p.dev_cred ≡ some cred
  pub owner_is : cred.owner_blk ≡ some owner
  pub guid_is : owner.guid ≡ osc.guid
  pub rvlst_is : owner.rvlst ≡ osc.rvlst

-- What choosing a new HMAC keeps.
abbrev Kept : OwnerSupplied → Prot → Prot → Type 0
Kept osc s p =
    Renewed osc p × (p.reuse_enabled ≡ s.reuse_enabled) × (p.owner_public_key ≡ s.owner_public_key)

owner_updated-some :
    {o : Option DevCred} {cred : DevCred} {owner : OwnerBlk} (f : DevCred → OwnerBlk → DevCred)
    → o ≡ some cred
    → cred.owner_blk ≡ some owner
    → owner_updated f o ≡ some (f cred owner)
unfolding owner_updated
owner_updated-some {cred} f there has =
    ap (owner_updated f) there ∙ ap (λ x. some (set_owner f cred x)) has

status_updated-some :
    {o : Option DevCred} {cred : DevCred} (st : ℕ)
    → o ≡ some cred
    → status_updated st o ≡ some (record cred { st = st })
unfolding status_updated
status_updated-some st there = ap (status_updated st) there

with_status-Renewed :
    {osc : OwnerSupplied} (p : Prot) (st : ℕ) → Renewed osc p → Renewed osc (with_status st p)
with_status-Renewed p st h = record {
  cred = record (h.cred) { st = st };
  owner = h.owner;
  cred_is = status_updated-some st h.cred_is;
  owner_is = h.owner_is;
  guid_is = h.guid_is;
  rvlst_is = h.rvlst_is;
}

module _ (e : Env) (c : To2Calls) where
  pub credentials-Renewed :
      (p : Prot) {cred : DevCred} (owner : OwnerBlk) (osc : OwnerSupplied)
      → p.dev_cred ≡ some cred
      → cred.owner_blk ≡ some owner
      → Renewed osc (msg50_credentials e c owner osc p)
  unfolding msg50_credentials
  credentials-Renewed p {cred} owner osc there has = record {
    cred = record cred { owner_blk = some (record owner { guid = osc.guid; rvlst = osc.rvlst }) };
    owner = record owner { guid = osc.guid; rvlst = osc.rvlst };
    cred_is = owner_updated-some _ there has;
    owner_is = refl;
    guid_is = refl;
    rvlst_is = refl;
  }

  -- Ready for another owner where the credentials are reused, and else idle.
  abbrev pub Settled : Bool → ℕ → Type 0
  Settled reuse st =
      ((reuse ≡ true) × (c.reuse_supported ≡ true) × (st ≡ sdo_device_state_ready1))
      ⊎ (((reuse && c.reuse_supported) ≡ false) × (st ≡ sdo_device_state_idle))

  -- What choosing the HMAC leaves, and what it sets.
  pub record Chosen (osc : OwnerSupplied) (s p : Prot) : Type 0 where
    pub renewed : Renewed osc p
    pub settled : Settled s.reuse_enabled renewed.cred.st
    pub same_reuse : p.reuse_enabled ≡ s.reuse_enabled
    pub same_key : p.owner_public_key ≡ s.owner_public_key

  module _ {s : Prot} {osc : OwnerSupplied} where
    resale_ensures : Renewed osc s → Ensures (resale_hmac e c) s (λ _ p. Kept osc s p)
    unfolding resale_hmac
    resale_ensures h = gets-then _ _ (
        from-then _ _ λ cred there. gets-then _ _ (
          gets-then _ _ (
            from-then _ _ λ ov voucher. from-then _ _ λ hmac signed. modify-then _ _ (
              Ensures-pure hmac (
                record {
                  cred = record (h.cred) {
                    owner_blk = some (record (h.owner) { pkh = c.pub_key_hash s.new_pk });
                  };
                  owner = record (h.owner) { pkh = c.pub_key_hash s.new_pk };
                  cred_is = owner_updated-some _ h.cred_is h.owner_is;
                  owner_is = refl;
                  guid_is = h.guid_is;
                  rvlst_is = h.rvlst_is;
                },
                refl,
                refl,
              )))))

    no_hmac_ensures : Renewed osc s → Ensures (no_hmac e c) s (λ _ p. Kept osc s p)
    unfolding no_hmac
    no_hmac_ensures h = guard-then _ _ λ room. Ensures-pure _ (h, refl, refl)

    new_ensures :
        (resale : Bool)
        → (s.reuse_enabled && c.reuse_supported) ≡ false
        → Renewed osc s
        → Ensures (new_hmac e c resale) s (λ _ p. Chosen osc s p)
    unfolding new_hmac with_status-Renewed
    new_ensures resale off h =
        guard-then _ _ λ key. Ensures-bind (Ensures-weaken idle (chosen resale))
      where
        chosen :
            (b : Bool)
            → Ensures (if b then resale_hmac e c else no_hmac e c) s (λ _ p. Kept osc s p)
        chosen true = resale_ensures h
        chosen false = no_hmac_ensures h

        idle :
            (hmac : Hash) (p : Prot)
            → Kept osc s p
            → Ensures
                (modify (with_status sdo_device_state_idle) >> pure hmac)
                p
                (λ _ q. Chosen osc s q)
        idle hmac p (r, reuse, key) = modify-then _ _ (
            Ensures-pure hmac (record {
              renewed = with_status-Renewed p sdo_device_state_idle r;
              settled = inr (off, refl);
              same_reuse = reuse;
              same_key = key;
            }))

    pub hmac_ensures : Renewed osc s → Ensures (msg50_hmac e c) s (λ _ p. Chosen osc s p)
    unfolding msg50_hmac reuse_hmac with_status-Renewed
    hmac_ensures h = gets-then _ _ (elim (Bool-cases (s.reuse_enabled && c.reuse_supported)) [
      | inl on ↦ rw on (reused on)
      | inr off ↦ rw off (new_ensures c.resale_supported off h)
    ])
      where
        reused :
            (s.reuse_enabled && c.reuse_supported) ≡ true
            → Ensures (reuse_hmac e c) s (λ _ p. Chosen osc s p)
        reused on = guard-then _ _ λ room. modify-then _ _ (
            Ensures-pure _ (record {
              renewed = with_status-Renewed s sdo_device_state_ready1 h;
              settled = inl (ground (arith, on), ground (arith, on), refl);
              same_reuse = refl;
              same_key = refl;
            }))
