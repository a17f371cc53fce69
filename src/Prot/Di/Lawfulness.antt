-- ===== src/Prot/Di/Lawfulness.antt =====
-- lib/prot/di: how the handlers of DI move the state and use the received block.
use client_sdk.Base.{
  ℕ, zero, suc, ◌+◌, ◌<◌, ◌≡◌, ◌⊎◌, inl, inr, refl, ◌∙◌, ap, Bool, true, false, Option, none, some,
  arith, Option-cases,
}
use client_sdk.Env.{Env}
use client_sdk.Reader.{
  Sdor, sdor_begin_object, sdor_end_object, sdor_flush, sdor_have_block, sdor_next_block,
  read_expected_char_comma_before, read_expected_char_comma_after, read_comma, read_expected_char,
}
use client_sdk.Types.Rendezvous.{Hash}
use client_sdk.Prot.{
  Prot, Voucher, DevCred, MfgBlk, OwnerBlk, sdo_state_done, sdo_prot_rcv_msg, block_or_error,
}
use client_sdk.Prot.Termination.{sending, receiving}
use client_sdk.Prot.Di.{
  DiCalls, require, mfg_or_new, owner_or_new, app_credentials, with_message, msg10, msg11,
  msg11_end, msg11_voucher, msg11_header, msg11_blocks, msg11_body, msg11_message, msg11_with,
  msg12, msg12_hmac, msg13, msg13_store, msg13_owner, msg13_with, di_message,
}

-- What `sdo_ov_hdr_read` does to the reader: its flags stay.
abbrev pub KeepsReader : DiCalls → Type 0
KeepsReader c =
    (r : Sdor) (hmac : Option Hash)
    → ((c.ov_hdr_read r hmac).0.have_block ≡ r.have_block)
      × ((c.ov_hdr_read r hmac).0.receive_set ≡ r.receive_set)

-- The block has been taken and the state is the next one, or the handler has failed.
record Taken (next : ℕ) (r : Sdor) (result : Prot × ℕ) : Type 0 where
  after :
      result.1 ≡ 0
      → (result.0.state ≡ next)
        × (result.0.sdor.have_block ≡ false)
        × (result.0.sdor.receive_set ≡ r.receive_set)

failed : {next : ℕ} {r : Sdor} (p : Prot) → Taken next r (p, 1)
failed p = record { after = λ ok. cc }

required :
    {next : ℕ} {r : Sdor} (b : Bool) (p : Prot) {x : Prot × ℕ}
    → Taken next r x
    → Taken next r (require b p x)
unfolding require
required true p h = h
required false p h = failed p

same_flag :
    {next : ℕ} {r r' : Sdor} {x : Prot × ℕ}
    → r'.receive_set ≡ r.receive_set
    → Taken next r' x
    → Taken next r x
same_flag same h = record { after = λ ok. let (a, b, c) = h.after ok in (a, b, c ∙ same) }

begin_keeps : (r : Sdor) → (sdor_begin_object r).0.receive_set ≡ r.receive_set
unfolding sdor_begin_object read_expected_char_comma_before read_comma read_expected_char
begin_keeps r = ground arith

end_keeps : (r : Sdor) → (sdor_end_object r).0.receive_set ≡ r.receive_set
unfolding sdor_end_object read_expected_char_comma_after read_expected_char
end_keeps r = ground arith

flush_takes :
    (r : Sdor) → ((sdor_flush r).have_block ≡ false) × ((sdor_flush r).receive_set ≡ r.receive_set)
unfolding sdor_flush
flush_takes r = (refl, refl)

module _ (e : Env) (c : DiCalls) (law : KeepsReader c) where
  end_taken : (ps : Prot) → Taken 12 ps.sdor (msg11_end e c ps)
  unfolding msg11_end
  end_taken ps =
      let ended = sdor_end_object ps.sdor in
      let (taken, kept) = flush_takes ended.0 in
      required ended.1 _ (record { after = λ ok. (refl, taken, kept ∙ end_keeps ps.sdor) })

  voucher_taken :
      (ps : Prot) (cred : DevCred) (mfg : MfgBlk) (owner : OwnerBlk) (ov : Option Voucher)
      → Taken 12 ps.sdor (msg11_voucher e c ps cred mfg owner ov)
  unfolding msg11_voucher
  voucher_taken ps cred mfg owner none = failed ps
  voucher_taken ps cred mfg owner (some ov) = required _ _ (required _ _ (end_taken _))

  header_taken :
      (ps : Prot) (cred : DevCred) (mfg : MfgBlk) (owner : OwnerBlk)
      → Taken 12 ps.sdor (msg11_header e c ps cred mfg owner)
  unfolding msg11_header
  header_taken ps cred mfg owner =
      let got = c.ov_hdr_read ps.sdor ps.new_ov_hdr_hmac in
      let read = record ps { sdor = got.0; new_ov_hdr_hmac = got.1 } in
      required c.generate_ov_hmac_key ps (
        same_flag {r' = got.0} (law ps.sdor ps.new_ov_hdr_hmac).1
          (voucher_taken read cred mfg owner got.2))

  blocks_taken :
      (ps : Prot) (cred : DevCred) (mfg : Option MfgBlk) (owner : Option OwnerBlk)
      → Taken 12 ps.sdor (msg11_blocks e c ps cred mfg owner)
  unfolding msg11_blocks
  blocks_taken ps cred none none = failed ps
  blocks_taken ps cred (some mfg) none = failed ps
  blocks_taken ps cred none (some owner) = failed ps
  blocks_taken ps cred (some mfg) (some owner) = header_taken ps cred mfg owner

  message_taken : (ps : Prot) (cred : DevCred) → Taken 12 ps.sdor (msg11_message e c ps cred)
  unfolding msg11_message msg11_body
  message_taken ps cred =
      let begun = sdor_begin_object ps.sdor in
      let mfg = mfg_or_new e c cred.mfg_blk in
      let owner = owner_or_new e c cred.owner_blk in
      let filled = record cred { mfg_blk = mfg; owner_blk = owner } in
      let ps' = record ps { sdor = begun.0 } in
      required begun.1 ps' (
        same_flag {r' = begun.0} (begin_keeps ps.sdor)
          (blocks_taken (record ps' { dev_cred = some filled }) filled mfg owner))

  store_taken :
      (ps : Prot) (cred : DevCred) (owner : OwnerBlk) (pkh : Option Hash)
      → ps.sdor.have_block ≡ false
      → Taken sdo_state_done ps.sdor (msg13_store e c ps cred owner pkh)
  unfolding msg13_store
  store_taken ps cred owner none free = failed _
  store_taken ps cred owner (some pkh) free =
      required _ _ (record { after = λ ok. (refl, free, refl) })

  owner_taken :
      (ps : Prot) (cred : DevCred) (owner : Option OwnerBlk)
      → ps.sdor.have_block ≡ false
      → Taken sdo_state_done ps.sdor (msg13_owner e c ps cred owner)
  unfolding msg13_owner
  owner_taken ps cred none free = failed ps
  owner_taken ps cred (some owner) free = store_taken ps cred owner (c.pub_key_hash owner.pk) free

  -- Behind the test for a message.
  got_message : (ps : Prot) (x : Prot × ℕ) → ps.sdor.have_block ≡ true → with_message ps x ≡ x
  unfolding with_message sdo_prot_rcv_msg sdor_have_block sdor_next_block block_or_error
  got_message ps x block = ground (arith, block)

  no_message :
      (ps : Prot) (x : Prot × ℕ)
      → ps.sdor.have_block ≡ false
      → ps.sdor.receive_set ≡ false
      → with_message ps x ≡ (ps, 0)
  unfolding with_message sdo_prot_rcv_msg sdor_have_block
  no_message ps x free quiet = rw (free, quiet)

  -- The receivers take their block, or wait for it.
  msg11_taken : (ps : Prot) → ps.sdor.have_block ≡ true → Taken 12 ps.sdor (msg11 e c ps)
  unfolding msg11 msg11_with
  msg11_taken ps block = elim (Option-cases (app_credentials e c ps)) [
    | inl gone ↦ rw (gone, msg11_with) (failed ps)
    | inr (cred, there) ↦
        rw (there, msg11_with, got_message ps (msg11_message e c ps cred) block)
          (message_taken ps cred)
  ]

  msg13_taken :
      (ps : Prot) → ps.sdor.have_block ≡ true → Taken sdo_state_done ps.sdor (msg13 e c ps)
  unfolding msg13 msg13_with
  msg13_taken ps block = elim (Option-cases (app_credentials e c ps)) [
    | inl gone ↦ rw (gone, msg13_with) (failed ps)
    | inr (cred, there) ↦
        let flushed = record ps { sdor = sdor_flush ps.sdor } in
        let (taken, kept) = flush_takes ps.sdor in
        rw (there, msg13_with, got_message ps (msg13_owner e c flushed cred cred.owner_blk) block)
          (same_flag {r' = sdor_flush ps.sdor} kept (owner_taken flushed cred cred.owner_blk taken))
  ]

  msg11_waits :
      (ps : Prot) → ps.sdor.have_block ≡ false → ps.sdor.receive_set ≡ false → (msg11 e c ps).0 ≡ ps
  unfolding msg11 msg11_with
  msg11_waits ps free quiet = elim (Option-cases (app_credentials e c ps)) [
    | inl gone ↦ rw (gone, msg11_with)
    | inr (cred, there) ↦
        rw (there, msg11_with, no_message ps (msg11_message e c ps cred) free quiet)
  ]

  msg13_waits :
      (ps : Prot) → ps.sdor.have_block ≡ false → ps.sdor.receive_set ≡ false → (msg13 e c ps).0 ≡ ps
  unfolding msg13 msg13_with
  msg13_waits ps free quiet = elim (Option-cases (app_credentials e c ps)) [
    | inl gone ↦ rw (gone, msg13_with)
    | inr (cred, there) ↦ rw (there, msg13_with, no_message ps _ free quiet)
  ]

  msg10_sends :
      (ps : Prot)
      → (msg10 e c ps).1 ≡ 0
      → ((msg10 e c ps).0.state ≡ 11) × ((msg10 e c ps).0.sdor ≡ ps.sdor)
  unfolding msg10
  msg10_sends ps ok = ground (arith, ok)

  msg12_sends :
      (ps : Prot)
      → (msg12 e c ps).1 ≡ 0
      → ((msg12 e c ps).0.state ≡ 13) × ((msg12 e c ps).0.sdor ≡ ps.sdor)
  unfolding msg12 msg12_hmac
  msg12_sends ps ok = ground (arith, ok)

  -- The handler of a table's entry, for the state that chose it.
  pub di_sends :
      (i : ℕ) (ps : Prot)
      → ps.state ≡ i + 10
      → i < 4
      → sending ps.state ≡ true
      → (di_message e c i ps).1 ≡ 0
      → (receiving (di_message e c i ps).0.state ≡ true) × ((di_message e c i ps).0.sdor ≡ ps.sdor)
  unfolding di_message
  di_sends zero ps at small even ok =
      let (next, same) = msg10_sends ps ok in (ap receiving next, same)
  di_sends (suc zero) ps at small even ok = absurd (cc (ap sending at, even))
  di_sends (suc (suc zero)) ps at small even ok =
      let (next, same) = msg12_sends ps ok in (ap receiving next, same)
  di_sends (suc (suc (suc zero))) ps at small even ok = absurd (cc (ap sending at, even))
  di_sends (suc (suc (suc (suc i)))) ps at small even ok = absurd (omega arith)

  pub di_receives :
      (i : ℕ) (ps : Prot)
      → ps.state ≡ i + 10
      → i < 4
      → receiving ps.state ≡ true
      → ps.sdor.have_block ≡ true
      → (di_message e c i ps).1 ≡ 0
      → ((di_message e c i ps).0.sdor.have_block ≡ false)
        × ((di_message e c i ps).0.sdor.receive_set ≡ ps.sdor.receive_set)
        × ((sending (di_message e c i ps).0.state ≡ true)
            ⊎ ((di_message e c i ps).0.state ≡ sdo_state_done))
  unfolding di_message
  di_receives zero ps at small odd block ok = absurd (cc (ap receiving at, odd))
  di_receives (suc zero) ps at small odd block ok =
      let (next, taken, kept) = (msg11_taken ps block).after ok in
      (taken, kept, inl (ap sending next))
  di_receives (suc (suc zero)) ps at small odd block ok = absurd (cc (ap receiving at, odd))
  di_receives (suc (suc (suc zero))) ps at small odd block ok =
      let (next, taken, kept) = (msg13_taken ps block).after ok in (taken, kept, inr next)
  di_receives (suc (suc (suc (suc i)))) ps at small odd block ok = absurd (omega arith)

  pub di_waits :
      (i : ℕ) (ps : Prot)
      → ps.state ≡ i + 10
      → i < 4
      → receiving ps.state ≡ true
      → ps.sdor.have_block ≡ false
      → ps.sdor.receive_set ≡ false
      → (di_message e c i ps).0 ≡ ps
  unfolding di_message
  di_waits zero ps at small odd free quiet = absurd (cc (ap receiving at, odd))
  di_waits (suc zero) ps at small odd free quiet = msg11_waits ps free quiet
  di_waits (suc (suc zero)) ps at small odd free quiet = absurd (cc (ap receiving at, odd))
  di_waits (suc (suc (suc zero))) ps at small odd free quiet = msg13_waits ps free quiet
  di_waits (suc (suc (suc (suc i)))) ps at small odd free quiet = absurd (omega arith)
