-- ===== src/Prot/Di/Outcome.antt =====
-- lib/prot/di: what device initialisation leaves in the credentials when its messages succeed.
use client_sdk.Base.{
  ℕ, ◌≡◌, ◌≢◌, inl, inr, refl, true, Option, none, some, arith, Bool-cases, Option-cases,
}
use client_sdk.Env.{Env}
use client_sdk.Reader.{Sdor, sdor_have_block, sdor_next_block, sdor_flush}
use client_sdk.Types.Rendezvous.{Hash}
use client_sdk.Prot.{Prot, DevCred, OwnerBlk, sdo_state_done, sdo_prot_rcv_msg, block_or_error}
use client_sdk.Prot.Di.{
  DiCalls, require, app_credentials, with_message, msg13, msg13_store, msg13_owner, msg13_with,
  sdo_device_state_ready1,
}

-- The credentials of a device that is ready for TO1: the hash of the owner's key is there.
pub record IsInitialised (c : DiCalls) (cred : DevCred) : Type 0 where
  pub owner : OwnerBlk
  pub owned : cred.owner_blk ≡ some owner
  pub pkh : Hash
  pub hashed : c.pub_key_hash owner.pk ≡ some pkh
  pub kept : owner.pkh ≡ some pkh
  pub ready : cred.st ≡ sdo_device_state_ready1
  pub stored : c.store_credential cred ≡ true

-- A result of msg13: the end is reached with such credentials only.
record Finishes (c : DiCalls) (result : Prot × ℕ) : Type 0 where
  at_end :
      result.0.state ≡ sdo_state_done
      → result.1 ≡ 0
      → (cred : DevCred) × (result.0.dev_cred ≡ some cred) × IsInitialised c cred

-- A wait for a message does not end the protocol.
rcv_state :
    (r : Sdor) (state : ℕ) → state ≢ sdo_state_done → (sdo_prot_rcv_msg r state).1 ≢ sdo_state_done
unfolding sdo_prot_rcv_msg block_or_error sdor_next_block sdor_have_block
rcv_state r state other h = ground (arith, other, h)

module _ (e : Env) (c : DiCalls) where
  failed : (p : Prot) → Finishes c (p, 1)
  failed p = record { at_end = λ done ok. cc }

  stays : (p : Prot) (k : ℕ) → p.state ≢ sdo_state_done → Finishes c (p, k)
  stays p k other = record { at_end = λ done ok. absurd (other done) }

  store_finishes :
      (ps : Prot) (cred : DevCred) (owner : OwnerBlk) (pkh : Option Hash)
      → c.pub_key_hash owner.pk ≡ pkh
      → Finishes c (msg13_store e c ps cred owner pkh)
  unfolding msg13_store require
  store_finishes ps cred owner none h = failed _
  store_finishes ps cred owner (some pkh) h =
      let ready = record cred {
        st = sdo_device_state_ready1;
        owner_blk = some (record owner { pkh = some pkh });
      } in
      elim (Bool-cases (c.store_credential ready)) [
        | inl yes_stored ↦
            rw (yes_stored, require)
              (record {
                at_end = λ done ok. (
                  ready,
                  refl,
                  record {
                    owner = record owner { pkh = some pkh };
                    owned = refl;
                    pkh = pkh;
                    hashed = h;
                    kept = refl;
                    ready = refl;
                    stored = yes_stored;
                  },
                );
              })
        | inr not_stored ↦ rw (not_stored, require) (failed _)
      ]

  owner_finishes :
      (ps : Prot) (cred : DevCred) (owner : Option OwnerBlk)
      → Finishes c (msg13_owner e c ps cred owner)
  unfolding msg13_owner
  owner_finishes ps cred none = failed ps
  owner_finishes ps cred (some owner) = store_finishes ps cred owner (c.pub_key_hash owner.pk) refl

  message_finishes :
      (ps : Prot) (x : Prot × ℕ)
      → ps.state ≢ sdo_state_done
      → Finishes c x
      → Finishes c (with_message ps x)
  unfolding with_message
  message_finishes ps x other h = elim (Bool-cases (sdo_prot_rcv_msg ps.sdor ps.state).0) [
    | inl there ↦ rw there h
    | inr gone ↦ rw gone (stays _ 0 (rcv_state ps.sdor ps.state other))
  ]

  msg13_finishes : (ps : Prot) → ps.state ≢ sdo_state_done → Finishes c (msg13 e c ps)
  unfolding msg13 msg13_with
  msg13_finishes ps other = elim (Option-cases (app_credentials e c ps)) [
    | inl gone ↦ rw (gone, msg13_with) (failed ps)
    | inr (cred, there) ↦
        let flushed = record ps { sdor = sdor_flush ps.sdor } in
        rw (there, msg13_with)
          (message_finishes ps _ other (owner_finishes flushed cred cred.owner_blk))
  ]

  -- Where msg13 succeeds and goes to the end from another state, the run points to credentials in
  -- the state READY1 that store_credential has stored, with the hash of the owner key in them.
  pub msg13-done :
      (ps : Prot)
      → ps.state ≢ sdo_state_done
      → (msg13 e c ps).1 ≡ 0
      → (msg13 e c ps).0.state ≡ sdo_state_done
      → (cred : DevCred) × ((msg13 e c ps).0.dev_cred ≡ some cred) × IsInitialised c cred
  msg13-done ps other ok done = (msg13_finishes ps other).at_end done ok
