-- ===== src/Prot/To2/Finish/Outcome.antt =====
-- lib/prot/to2: where msg50 and msg51 succeed, what has become of the credentials and of the run.
use client_sdk.Base.{◌≡◌, refl, sym, subst, ◌∙◌, true, false, none, some}
use mathlib.Core.Option.{some_inj}
use client_sdk.Act.{Ensures, Ensures-bind, Ensures-then, Ensures-modify}
use client_sdk.Act.Steps.{gets-then, from-then, guard-then, modify-then, Ensures-weaken}
use client_sdk.Env.{Env}
use client_sdk.Prot.{OwnerSupplied, Prot, sdo_state_done}
use client_sdk.Prot.Action.{sdo_nonce_equal}
use client_sdk.Prot.Nonces.{SameNonce, sdo_nonce_equal-SameNonce}
use client_sdk.Prot.Steps.{Ensures-rd, Ensures-wr, rd-bind, rd-then}
use client_sdk.Prot.To2.{To2Calls, write_held, opened, sealed}
use client_sdk.Prot.To2.Finish.{msg50_credentials, msg50_send, msg50_stored, msg50, msg51_body}
use client_sdk.Prot.To2.Owner.Outcome.{flush_takes}
use client_sdk.Reader.{Sdor}
use client_sdk.Types.Comparison.{ComparesBytes}
use client_sdk.Types.Rendezvous.{Hash}
use client_sdk.Writer.{Sdow}
use client_sdk.Prot.To2.Finish.Renewed.{Renewed, Settled, Chosen, credentials-Renewed, hmac_ensures}

module _ (e : Env) (c : To2Calls) where
  -- What msg50 leaves: the credentials are those that have been stored.
  pub record Replaced (before after : Prot) : Type 0 where
    pub osc : OwnerSupplied
    pub osc_is : before.osc ≡ some osc
    pub renewed : Renewed osc after
    pub settled : Settled e c after.reuse_enabled renewed.cred.st
    pub stored : c.store_credential renewed.cred ≡ true
    pub no_owner_key : after.owner_public_key ≡ none
    pub no_new_key : after.new_pk ≡ none
    pub state_is : after.state ≡ 51
    pub success_is : after.success ≡ true

  send_ensures :
      {s : Prot} (hmac : Hash) (Q : Unit {0} → Prot → Type 0)
      → ((w : Sdow) → Q tt (record s { sdow = w }))
      → Ensures (msg50_send e c hmac) s Q
  unfolding msg50_send write_held sealed
  send_ensures hmac Q h = modify-then _ _ (
      modify-then _ _ (
        modify-then _ _ (
          Ensures-then (
            gets-then _ _ (
              from-then _ _ λ n6 there.
                Ensures-modify _ (modify-then _ _ (gets-then _ _ (Ensures-wr _ λ w a. h w))))))))

  stored_ensures :
      (before : Prot) (osc : OwnerSupplied)
      → before.osc ≡ some osc
      → {s : Prot} → s.owner_public_key ≡ none
      → (hmac : Hash) (p : Prot) → Chosen e c osc s p
      → Ensures (msg50_stored e c hmac) p (λ _ q. Replaced before q)
  unfolding msg50_stored
  stored_ensures before osc is {s} cleared hmac p h = modify-then _ _ (
      gets-then _ _ (
        from-then _ _ λ cred there. guard-then _ _ λ kept. Ensures-then (
          send_ensures hmac _ λ w. Ensures-modify _ (record {
            osc = osc;
            osc_is = is;
            renewed = record {
              cred = h.renewed.cred;
              owner = h.renewed.owner;
              cred_is = h.renewed.cred_is;
              owner_is = h.renewed.owner_is;
              guid_is = h.renewed.guid_is;
              rvlst_is = h.renewed.rvlst_is;
            };
            settled = subst (λ b. Settled e c b h.renewed.cred.st) (sym h.same_reuse) h.settled;
            stored =
                subst (λ x. c.store_credential x ≡ true)
                  (some_inj.0 (sym there ∙ h.renewed.cred_is)) kept;
            no_owner_key = h.same_key ∙ cleared;
            no_new_key = refl;
            state_is = refl;
            success_is = refl;
          }))))

  pub msg50_ensures : (ps : Prot) → Ensures (msg50 e c) ps (λ _ p. Replaced ps p)
  unfolding msg50 msg50_credentials
  msg50_ensures ps = gets-then _ _ (
      from-then _ _ λ osc osc_is. gets-then _ _ (
        from-then _ _ λ cred cred_is. from-then _ _ λ owner owner_is. modify-then _ _ (
          Ensures-bind (
            Ensures-weaken (stored_ensures ps osc osc_is refl)
              (hmac_ensures e c (credentials-Renewed e c ps owner osc cred_is owner_is))))))

  opened_ensures :
      {s : Prot} (Q : Unit {0} → Prot → Type 0)
      → ((r : Sdor) → Q tt (record s { sdor = r }))
      → Ensures (opened e c) s Q
  unfolding opened
  opened_ensures Q h = rd-bind _ _ λ r pkt. gets-then _ _ (Ensures-rd _ λ r a. h r)

  -- The nonce that the owner has sent is that of msg44, and the run is done.
  pub record Finished (before after : Prot) : Type 0 where
    pub nonce : sdo_nonce_equal c.memcmp_s after.n7r before.n7 ≡ true
    pub state_is : after.state ≡ sdo_state_done
    pub success_is : after.success ≡ true
    pub taken : after.sdor.have_block ≡ false

  pub msg51_ensures : (ps : Prot) → Ensures (msg51_body e c) ps (λ _ p. Finished ps p)
  unfolding msg51_body
  msg51_ensures ps = Ensures-then (
      opened_ensures _ λ r. rd-then _ _ λ r. rd-then _ _ λ r. gets-then _ _ (
        from-then _ _ λ ba there. rd-bind _ _ λ r n. modify-then _ _ (
          rd-then _ _ λ r. gets-then _ _ (
            gets-then _ _ (
              guard-then _ _ λ same. modify-then _ _ (
                modify-then _ _ (
                  Ensures-modify _ (record {
                    nonce = same;
                    state_is = refl;
                    success_is = refl;
                    taken = flush_takes r;
                  }))))))))

  -- Where msg50 succeeds, the run points to credentials with the GUID and the rendezvous list that
  -- the owner has supplied, and store_credential has stored exactly those; their state is READY1
  -- where reuse is on and supported, and IDLE where it is not; neither owner key is left, and the
  -- run waits for the last message with success set.
  pub msg50-Replaced : (ps : Prot) → (msg50 e c ps).1 ≡ some tt → Replaced ps (msg50 e c ps).0
  msg50-Replaced ps ok = (msg50_ensures ps).holds tt ok

  -- Where the body of msg51 succeeds, the nonce that it has read has the sixteen bytes of that of
  -- msg44, the block is taken, and the run is done and successful. memcmp_s behaves as documented.
  pub msg51-Finished :
      (ps : Prot)
      → ComparesBytes c.memcmp_s
      → (msg51_body e c ps).1 ≡ some tt
      → Finished ps (msg51_body e c ps).0 × SameNonce (msg51_body e c ps).0.n7r ps.n7
  msg51-Finished ps compares ok =
      let done = (msg51_ensures ps).holds tt ok in
      (done, sdo_nonce_equal-SameNonce c.memcmp_s compares _ _ done.nonce)
