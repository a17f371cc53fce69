-- ===== src/Prot/Di/Accepted.antt =====
-- lib/prot/di: what msg11 accepts from the manufacturer.
use client_sdk.Base.{
  ℕ, ◌≡◌, ◌≢◌, ◌⊎◌, inl, inr, refl, sym, ◌∙◌, ap, Bool, true, false, ◌||◌, Option, none, some,
  arith, ◌==◌, Bool-cases, Option-cases,
}
use client_sdk.Env.{Env}
use client_sdk.Reader.{Sdor, sdor_begin_object, sdor_have_block, sdor_next_block}
use client_sdk.Types.Rendezvous.{Hash}
use client_sdk.Prot.{Prot, Voucher, DevCred, MfgBlk, OwnerBlk, sdo_prot_rcv_msg, block_or_error}
use client_sdk.Prot.Di.{
  DiCalls, require, encoding_x509, encoding_rsa_mod_exp, sdo_prot_spec_version, sdo_di_set_hmac,
  sdo_di_set_credentials, credentials_of, mfg_or_new, owner_or_new, msg11, msg11_end, msg11_voucher,
  msg11_header, msg11_blocks, msg11_body, msg11_message, msg11_with, app_credentials, with_message,
}

-- The owner's part of the credentials is that of a voucher of the right version and encoding.
pub record IsOwned (c : DiCalls) (cred : DevCred) : Type 0 where
  pub from_reader : Sdor
  pub old_hmac : Option Hash
  pub ov : Voucher
  pub was_read : (c.ov_hdr_read from_reader old_hmac).2 ≡ some ov
  pub version : ov.prot_version ≡ sdo_prot_spec_version
  pub encoding : (ov.key_encoding ≡ encoding_x509) ⊎ (ov.key_encoding ≡ encoding_rsa_mod_exp)
  pub keyed : c.generate_ov_hmac_key ≡ true
  pub owner : OwnerBlk
  pub owned : cred.owner_blk ≡ some owner
  pub guid_is : owner.guid ≡ ov.g2
  pub list_is : owner.rvlst ≡ ov.rvlst2
  pub pk_is : owner.pk ≡ ov.mfg_pub_key

record Accepts (c : DiCalls) (result : Prot × ℕ) : Type 0 where
  at_end :
      result.0.state ≡ sdo_di_set_hmac
      → result.1 ≡ 0
      → (cred : DevCred) × (result.0.dev_cred ≡ some cred) × IsOwned c cred

rcv_state_11 : (r : Sdor) → (sdo_prot_rcv_msg r 11).1 ≢ sdo_di_set_hmac
unfolding sdo_prot_rcv_msg block_or_error sdor_next_block sdor_have_block
rcv_state_11 r h = ground (arith, h)

one_of :
    (k : ℕ)
    → (k == encoding_x509 || k == encoding_rsa_mod_exp) ≡ true
    → (k ≡ encoding_x509) ⊎ (k ≡ encoding_rsa_mod_exp)
one_of k h = ground (arith, h)

module _ (e : Env) (c : DiCalls) where
  refuses : (p : Prot) → Accepts c (p, 1)
  refuses p = record { at_end = λ done ok. cc }

  require-Accepts :
      (b : Bool) (p : Prot) (x : Prot × ℕ) → (b ≡ true → Accepts c x) → Accepts c (require b p x)
  unfolding require
  require-Accepts true p x h = h refl
  require-Accepts false p x h = refuses p

  end-Accepts :
      (ps : Prot) (cred : DevCred)
      → ps.dev_cred ≡ some cred
      → IsOwned c cred
      → Accepts c (msg11_end e c ps)
  unfolding msg11_end
  end-Accepts ps cred has owned =
      require-Accepts _ _ _ (λ ended. record { at_end = λ done ok. (cred, has, owned) })

  voucher-Accepts :
      (ps : Prot) (cred : DevCred) (mfg : MfgBlk) (owner : OwnerBlk) (ov : Option Voucher)
      (r : Sdor) (hmac : Option Hash)
      → (c.ov_hdr_read r hmac).2 ≡ ov
      → c.generate_ov_hmac_key ≡ true
      → Accepts c (msg11_voucher e c ps cred mfg owner ov)
  unfolding msg11_voucher credentials_of
  voucher-Accepts ps cred mfg owner none r hmac read keyed = refuses ps
  voucher-Accepts ps cred mfg owner (some ov) r hmac read keyed =
      let cred' = credentials_of e c cred mfg owner ov in
      let ps' = record ps { dev_cred = some cred' } in
      let owner' = record owner {
        pv = ov.prot_version;
        pe = ov.key_encoding;
        rvlst = ov.rvlst2;
        guid = ov.g2;
        pk = ov.mfg_pub_key;
      } in
      require-Accepts (ov.prot_version == sdo_prot_spec_version) ps _ (λ version.
        require-Accepts
          (ov.key_encoding == encoding_x509 || ov.key_encoding == encoding_rsa_mod_exp) ps
          (msg11_end e c ps')
          (λ encoding. end-Accepts ps' cred' refl (record {
            from_reader = r;
            old_hmac = hmac;
            ov = ov;
            was_read = read;
            version = ground (arith, version);
            encoding = one_of ov.key_encoding encoding;
            keyed = keyed;
            owner = owner';
            owned = refl;
            guid_is = refl;
            list_is = refl;
            pk_is = refl;
          })))

  header-Accepts :
      (ps : Prot) (cred : DevCred) (mfg : MfgBlk) (owner : OwnerBlk)
      → Accepts c (msg11_header e c ps cred mfg owner)
  unfolding msg11_header
  header-Accepts ps cred mfg owner =
      let got = c.ov_hdr_read ps.sdor ps.new_ov_hdr_hmac in
      let read = record ps { sdor = got.0; new_ov_hdr_hmac = got.1 } in
      require-Accepts c.generate_ov_hmac_key ps _
        (λ keyed. voucher-Accepts read cred mfg owner got.2 ps.sdor ps.new_ov_hdr_hmac refl keyed)

  blocks-Accepts :
      (ps : Prot) (cred : DevCred) (mfg : Option MfgBlk) (owner : Option OwnerBlk)
      → Accepts c (msg11_blocks e c ps cred mfg owner)
  unfolding msg11_blocks
  blocks-Accepts ps cred none none = refuses ps
  blocks-Accepts ps cred (some mfg) none = refuses ps
  blocks-Accepts ps cred none (some owner) = refuses ps
  blocks-Accepts ps cred (some mfg) (some owner) = header-Accepts ps cred mfg owner

  message-Accepts : (ps : Prot) (cred : DevCred) → Accepts c (msg11_message e c ps cred)
  unfolding msg11_message msg11_body
  message-Accepts ps cred =
      let begun = sdor_begin_object ps.sdor in
      let mfg = mfg_or_new e c cred.mfg_blk in
      let owner = owner_or_new e c cred.owner_blk in
      let filled = record cred { mfg_blk = mfg; owner_blk = owner } in
      let ps' = record ps { sdor = begun.0 } in
      require-Accepts begun.1 ps' _
        (λ begins. blocks-Accepts (record ps' { dev_cred = some filled }) filled mfg owner)

  received-Accepts :
      (ps : Prot) (x : Prot × ℕ) → ps.state ≡ 11 → Accepts c x → Accepts c (with_message ps x)
  unfolding with_message
  received-Accepts ps x at h = elim (Bool-cases (sdo_prot_rcv_msg ps.sdor ps.state).0) [
    | inl there ↦ rw there h
    | inr gone ↦ rw gone (record {
      at_end = λ done ok.
          absurd (rcv_state_11 ps.sdor (ap (λ s. (sdo_prot_rcv_msg ps.sdor s).1) (sym at) ∙ done));
    })
  ]

  msg11-Accepts : (ps : Prot) → ps.state ≡ 11 → Accepts c (msg11 e c ps)
  unfolding msg11 msg11_with
  msg11-Accepts ps at = elim (Option-cases (app_credentials e c ps)) [
    | inl gone ↦ rw (gone, msg11_with) (refuses ps)
    | inr (cred, there) ↦
        rw (there, msg11_with) (received-Accepts ps _ at (message-Accepts ps cred))
  ]

  -- Where msg11 succeeds and goes on to the HMAC, the HMAC key has been generated, and the
  -- credentials have the GUID, the rendezvous list and the owner key of a voucher that was read
  -- and that has the protocol version 113 and one of the two key encodings.
  pub msg11-done :
      (ps : Prot)
      → ps.state ≡ sdo_di_set_credentials
      → (msg11 e c ps).1 ≡ 0
      → (msg11 e c ps).0.state ≡ sdo_di_set_hmac
      → (cred : DevCred) × ((msg11 e c ps).0.dev_cred ≡ some cred) × IsOwned c cred
  msg11-done ps at ok done = (msg11-Accepts ps at).at_end done ok
