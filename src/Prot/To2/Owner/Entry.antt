-- ===== src/Prot/To2/Owner/Entry.antt =====
-- lib/prot/to2: where msg43 succeeds, what has been checked and where the run goes.
use client_sdk.Base.{
  ℕ, ◌+◌, ◌%◌, ◌<◌, ◌≤◌, ◌≡◌, ◌⊎◌, inl, inr, refl, sym, ◌∙◌, ap, subst, Bool-cases, true, false,
  Bytes, Option, some, ltb, arith,
}
use client_sdk.Act.{Act, ◌>>=◌, Ensures, Ensures-bind, Ensures-then, Ensures-pure, Ensures-modify}
use client_sdk.Act.Steps.{gets-then, from-then, guard-then, modify-then}
use client_sdk.Env.{Env}
use client_sdk.Prot.Action.{rd}
use client_sdk.Prot.{OvEntry, Voucher, Prot}
use client_sdk.Prot.Steps.{rd-bind, rd-then, rd-by, rd-known}
use client_sdk.Prot.To2.{To2Calls, held_hash}
use client_sdk.Prot.To2.Owner.{
  msg43_number, msg43_fields, msg43_entry, msg43_checks, msg43_next, msg43_body,
}
use client_sdk.Prot.To2.Owner.Outcome.{flush_takes}
use client_sdk.Reader.{Sdor, sdor_flush}
use client_sdk.Types.Keys.{PublicKey, sdo_compare_public_keys}
use client_sdk.Types.Rendezvous.{Hash}
use client_sdk.Types.Signature.{sdo_begin_read_signature}
use client_sdk.Types.Signature.Verified.{
  Signed, between, block_text-between, begin_ensures, verification_ensures,
}

module _ (e : Env) (c : To2Calls) where
  -- An entry of the voucher that a run of msg43 has read and checked against what is held. Its text
  -- is what stands between the cursor behind the tag bo of the message and the one behind the entry's
  -- closing brace: the entry is read from that text, the key that is held verifies it with the
  -- signature that stands behind it, and the digest is its hash. The two hashes of the entry match
  -- those that are held.
  pub record Linked (ps : Prot) (held entry : OvEntry) (digest : Hash) : Type 0 where
    pub front : Sdor
    pub behind : Sdor
    pub body : Bytes
    pub hash : Bytes
    pub opened : msg43_number e c ps ≡ (record ps { sdor = front }, some front.b.cursor)
    pub read : msg43_fields e c (record front { need_comma = false }) ≡ (behind, some entry)
    pub body_is : body ≡ between front.b.cursor behind.b.cursor behind.b.block
    pub signed : Signed e c.ov_verify held.pk body behind
    pub hp : held_hash c.memcmp_s held.hp_hash entry.hp_hash ≡ true
    pub hc : held_hash c.memcmp_s held.hc_hash entry.hc_hash ≡ true
    pub hashed : c.crypto_hash body ≡ some hash
    pub digest_is : digest.hash.bytes ≡ some hash

  abbrev pub advanced : OvEntry → OvEntry → Hash → OvEntry
  advanced held entry digest = record held { hp_hash = digest; pk = entry.pk }

  -- The next state: another entry, or the proof of the device where the last key is the owner's.
  abbrev pub AfterEntry : Prot → Voucher → Option PublicKey → Prot → Type 0
  AfterEntry before ov pk p =
      ((p.ov_entry_num < ov.num_ov_entries) × (p.state ≡ 42))
      ⊎ ((ov.num_ov_entries ≤ p.ov_entry_num)
          × (sdo_compare_public_keys c.memcmp_s before.owner_public_key pk ≡ true)
          × (p.state ≡ 44))

  pub record EntryDone (before after : Prot) : Type 0 where
    pub voucher : Voucher
    pub held : OvEntry
    pub entry : OvEntry
    pub digest : Hash
    pub voucher_is : before.ovoucher ≡ some voucher
    pub held_is : voucher.ov_entries ≡ some held
    pub linked : Linked before held entry digest
    pub kept :
        after.ovoucher ≡ some (record voucher { ov_entries = some (advanced held entry digest) })
    pub counted : after.ov_entry_num ≡ (before.ov_entry_num + 1) % 65536
    pub same_owner : after.owner_public_key ≡ before.owner_public_key
    pub taken : after.sdor.have_block ≡ false
    pub next : AfterEntry before voucher entry.pk after

  -- What is known of an entry and its digest when they have been read.
  record Digested (front : Sdor) (entry : OvEntry) (digest : Hash) (behind : Sdor) : Type 0 where
    body : Bytes
    hash : Bytes
    read : msg43_fields e c (record front { need_comma = false }) ≡ (behind, some entry)
    body_is : body ≡ between front.b.cursor behind.b.cursor behind.b.block
    hashed : c.crypto_hash body ≡ some hash
    digest_is : digest.hash.bytes ≡ some hash

  module _ {s : Prot} where
    -- The cursor that is left is the one that is given.
    number_ensures :
        Ensures
          (msg43_number e c)
          s
          (λ start p. (front : Sdor) × (p ≡ record s { sdor = front }) × (start ≡ front.b.cursor))
    unfolding msg43_number rd
    number_ensures = rd-then _ _ λ r. rd-then _ _ λ r. rd-bind _ _ λ r n. gets-then _ _ (
        guard-then _ _ λ same. rd-then _ _ λ r. record {
          holds = λ start got.
              ((sdo_begin_read_signature e r).0, refl, (begin_ensures e).holds start got);
        })

    number_then :
        (k : ℕ → Act Prot Unit) (Q : Unit {0} → Prot → Type 0)
        → ((front : Sdor)
            → msg43_number e c s ≡ (record s { sdor = front }, some front.b.cursor)
            → Ensures (k front.b.cursor) (record s { sdor = front }) Q)
        → Ensures (msg43_number e c >>= k) s Q
    number_then k Q h = Ensures-bind (record {
      holds = λ start got.
          let (front, s_is, start_is) = number_ensures.holds start got in
          let both = got ∙ ap some start_is in
          subst (λ p. Ensures (k start) p Q) (sym s_is)
            (subst (λ n. Ensures (k n) (record s { sdor = front }) Q) (sym start_is)
              (h front (λ i. (s_is i, both i))));
    })

    entry_ensures :
        (Q : OvEntry × Hash → Prot → Type 0)
        → ((r : Sdor) (entry : OvEntry) (digest : Hash)
            → Digested s.sdor entry digest r
            → Q (entry, digest) (record s { sdor = r }))
        → Ensures (msg43_entry e c) s Q
    unfolding msg43_entry
    entry_ensures Q h = modify-then _ _ (
        gets-then _ _ (
          rd-known _ _ λ r entry got. gets-then _ _ (
            from-then _ _ λ text there. guard-then _ _ λ room. guard-then _ _ λ room.
              from-then _ _ λ digest hashed. Ensures-pure _ (
                h r entry _ (record {
                  body = text;
                  hash = digest;
                  read = got;
                  body_is = block_text-between _ r text there;
                  hashed = hashed;
                  digest_is = refl;
                })))))

    checks_ensures :
        (start : ℕ) (entry : OvEntry) (digest : Hash) (ov : Voucher) (held : OvEntry)
        (Q : Unit {0} → Prot → Type 0)
        → ((r : Sdor)
            → Signed e c.ov_verify held.pk (between start s.sdor.b.cursor s.sdor.b.block) s.sdor
            → held_hash c.memcmp_s held.hp_hash entry.hp_hash ≡ true
            → held_hash c.memcmp_s held.hc_hash entry.hc_hash ≡ true
            → Q tt (record s {
              sdor = sdor_flush r;
              ovoucher = some (record ov { ov_entries = some (advanced held entry digest) });
              ov_entry_num = (s.ov_entry_num + 1) % 65536;
            }))
        → Ensures (msg43_checks e c start entry digest ov held) s Q
    unfolding msg43_checks
    checks_ensures start entry digest ov held Q h =
        rd-by _ _ (verification_ensures e c.ov_verify start held.pk) λ r good.
          modify-then _ _
            (guard-then _ _ λ hp. guard-then _ _ λ hc. Ensures-modify _ (h r good hp hc))

    next_ensures :
        (ov : Voucher) (pk : Option PublicKey) (num : ℕ) (Q : Unit {0} → Prot → Type 0)
        → (num < ov.num_ov_entries → Q tt (record s { state = 42 }))
        → (ov.num_ov_entries ≤ num
            → sdo_compare_public_keys c.memcmp_s s.owner_public_key pk ≡ true
            → Q tt (record s { state = 44 }))
        → Ensures (msg43_next e c ov pk num) s Q
    unfolding msg43_next
    next_ensures ov pk num Q more last = elim (Bool-cases (ltb num ov.num_ov_entries)) [
      | inl less ↦ rw less (Ensures-modify _ (more (ground (arith, less))))
      | inr done ↦ rw done (
          gets-then _ _
            (guard-then _ _ λ same. Ensures-modify _ (last (ground (arith, done)) same)))
    ]

  pub msg43_ensures : (ps : Prot) → Ensures (msg43_body e c) ps (λ _ p. EntryDone ps p)
  unfolding msg43_body
  msg43_ensures ps = number_then _ _ λ front opened. Ensures-bind (
      entry_ensures _ λ behind entry digest d. gets-then _ _ (
        from-then _ _ λ ov ov_is. from-then _ _ λ held held_is. Ensures-then (
          checks_ensures front.b.cursor entry digest ov held _ λ r good hp hc.
            let linked : Linked ps held entry digest = record {
              front = front;
              behind = behind;
              body = d.body;
              hash = d.hash;
              opened = opened;
              read = d.read;
              body_is = d.body_is;
              signed = subst (λ t. Signed e c.ov_verify held.pk t behind) (sym d.body_is) good;
              hp = hp;
              hc = hc;
              hashed = d.hashed;
              digest_is = d.digest_is;
            } in
            gets-then _ _ (
              next_ensures ov entry.pk _ _
                (λ less. done ov held entry digest ov_is held_is linked r 42 (inl (less, refl)))
                (λ all same.
                  done ov held entry digest ov_is held_is linked r 44 (inr (all, same, refl)))))))
    where
      done :
          (ov : Voucher) (held entry : OvEntry) (digest : Hash)
          → ps.ovoucher ≡ some ov
          → ov.ov_entries ≡ some held
          → Linked ps held entry digest
          → (r : Sdor) (s : ℕ)
          → AfterEntry ps ov entry.pk
              (record ps { ov_entry_num = (ps.ov_entry_num + 1) % 65536; state = s })
          → EntryDone ps (record ps {
            sdor = sdor_flush r;
            ovoucher = some (record ov { ov_entries = some (advanced held entry digest) });
            ov_entry_num = (ps.ov_entry_num + 1) % 65536;
            state = s;
          })
      done ov held entry digest ov_is held_is linked r s next = record {
        voucher = ov;
        held = held;
        entry = entry;
        digest = digest;
        voucher_is = ov_is;
        held_is = held_is;
        linked = linked;
        kept = refl;
        counted = refl;
        same_owner = refl;
        taken = flush_takes r;
        next = next;
      }
