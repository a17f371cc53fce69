-- ===== src/Prot/To2/Owner/Chain.antt =====
-- lib/prot/to2: the entries of a voucher, verified one after another by msg43.
use client_sdk.Base.{
  List, [], ◌∷◌, length, suc, ℕ, ◌+◌, ◌%◌, ◌<◌, ◌≡◌, ◌⊎◌, inl, inr, refl, sym, subst, ◌∙◌, ap, true,
  some, arith,
}
use mathlib.Core.Option.{some_inj}
use client_sdk.Env.{Env}
use client_sdk.Prot.{OvEntry, Voucher, Prot}
use client_sdk.Prot.To2.{To2Calls}
use client_sdk.Prot.To2.Owner.{msg43_body}
use client_sdk.Prot.To2.Owner.Entry.{Linked, advanced, EntryDone, msg43_ensures}
use client_sdk.Types.Keys.{sdo_compare_public_keys}
use client_sdk.Types.Rendezvous.{Hash}

module _ (e : Env) (c : To2Calls) where
  -- The entries that have been verified from the header on, each against the one in front of it; the
  -- runs are those with the messages of the entries, the last one first.
  pub data Linking (header : OvEntry) : OvEntry → List Prot → Type 0 where
    none_yet : Linking header header []
    entry_linked :
        {held entry : OvEntry} {digest : Hash} {runs : List Prot} (run : Prot)
        → Linking header held runs
        → Linked e c run held entry digest
        → Linking header (advanced e c held entry digest) (run ∷ runs)

  -- What the messages between two entries leave as it is.
  pub record SameVoucher (p q : Prot) : Type 0 where
    pub same_voucher : q.ovoucher ≡ p.ovoucher
    pub same_number : q.ov_entry_num ≡ p.ov_entry_num
    pub same_key : q.owner_public_key ≡ p.owner_public_key

  -- Runs of msg43 that succeed, each asked for by msg42, with any steps between them that leave the
  -- voucher as it is. The list has what msg43 was called with, the last call first.
  pub data Entries : Prot → Prot → List Prot → Type 0 where
    no_entry : {p : Prot} → Entries p p []
    entry :
        {p q r : Prot} {runs : List Prot}
        → Entries p q runs
        → q.state ≡ 42
        → SameVoucher q r
        → (msg43_body e c r).1 ≡ some tt
        → Entries p (msg43_body e c r).0 (r ∷ runs)

  -- Either there are entries left, or as many entries as the voucher has are linked to its header and
  -- the last one names the owner's key.
  pub record Verified (p q : Prot) (ov : Voucher) (header : OvEntry) (runs : List Prot)
      : Type 0 where
    pub held : OvEntry
    pub linking : Linking header held runs
    pub voucher_is : q.ovoucher ≡ some (record ov { ov_entries = some held })
    pub number_is : q.ov_entry_num ≡ length runs
    pub key_is : q.owner_public_key ≡ p.owner_public_key
    pub owned :
        ((q.state ≡ 42) × (length runs < ov.num_ov_entries))
        ⊎ ((q.state ≡ 44)
            × (length runs ≡ ov.num_ov_entries)
            × (sdo_compare_public_keys c.memcmp_s p.owner_public_key held.pk ≡ true))

  next_number : (n m : ℕ) → n < m → m < 65536 → (n + 1) % 65536 ≡ suc n
  next_number n m less small = omega arith

  next_entry :
      (p r : Prot) (ov : Voucher) (header : OvEntry) (q : Prot) (runs : List Prot)
      → ov.num_ov_entries < 65536
      → Verified p q ov header runs
      → q.state ≡ 42
      → SameVoucher q r
      → (s : Prot) → EntryDone e c r s
      → Verified p s ov header (r ∷ runs)
  next_entry p r ov header q runs small ih going same s d =
      let seen : some d.voucher ≡ some (record ov { ov_entries = some ih.held }) =
        sym d.voucher_is ∙ same.same_voucher ∙ ih.voucher_is in
      let voucher_same : d.voucher ≡ record ov { ov_entries = some ih.held } = some_inj.0 seen in
      let held_same : ih.held ≡ d.held =
        some_inj.0 (sym (ap (λ v. v.ov_entries) voucher_same) ∙ d.held_is) in
      let size_same : d.voucher.num_ov_entries ≡ ov.num_ov_entries =
        ap (λ v. v.num_ov_entries) voucher_same in
      let owner_same : r.owner_public_key ≡ p.owner_public_key = same.same_key ∙ ih.key_is in
      let less : length runs < ov.num_ov_entries = elim ih.owned [
        | inl (state, left) ↦ left
        | inr (state, all, agrees) ↦ absurd (omega (arith, sym state ∙ going))
      ] in
      let number : s.ov_entry_num ≡ length (r ∷ runs) =
        d.counted
        ∙ ap (λ n. (n + 1) % 65536) (same.same_number ∙ ih.number_is)
        ∙ next_number (length runs) ov.num_ov_entries less small in
      record {
        held = advanced e c d.held d.entry d.digest;
        linking = entry_linked r (subst (λ h. Linking header h runs) held_same ih.linking) d.linked;
        voucher_is =
            d.kept
            ∙ ap
                (λ (v : Voucher).
                  some (record v { ov_entries = some (advanced e c d.held d.entry d.digest) }))
                voucher_same;
        number_is = number;
        key_is = d.same_owner ∙ owner_same;
        owned = elim d.next [
          | inl (left, state) ↦ inl (state, omega (arith, number, size_same))
          | inr (all, agrees, state) ↦ inr (
            state,
            omega (arith, number, size_same, less),
            ap (λ k. sdo_compare_public_keys c.memcmp_s k d.entry.pk) (sym owner_same) ∙ agrees,
          )
        ];
      }

  -- From msg41 on, with an entry to ask for, while msg43 verifies entries one after another,
  -- either some are left and the next one is asked for, or as many as the voucher has, one in each
  -- call of msg43, have been linked to its header: the entry was read from the text between the
  -- cursor behind the tag bo and the one behind its closing brace, that text has a good signature
  -- of the key in front of it, which is read behind the text, and its hash is what the next entry
  -- is compared with; memcmp_s of the two hashes with those that are held returns a match, and the
  -- last key agrees with that of the owner. What happens between two entries leaves the voucher,
  -- the number and the owner's key, and the number of entries is below 2^16.
  pub entries-Verified :
      {p q : Prot} {runs : List Prot} (ov : Voucher) (header : OvEntry)
      → p.ovoucher ≡ some ov
      → ov.ov_entries ≡ some header
      → p.ov_entry_num ≡ 0
      → p.state ≡ 42
      → 0 < ov.num_ov_entries
      → ov.num_ov_entries < 65536
      → Entries p q runs
      → Verified p q ov header runs
  entries-Verified ov header is there first going some_left small no_entry = record {
    held = header;
    linking = none_yet;
    voucher_is = is ∙ ap (λ o. some (record ov { ov_entries = o })) there;
    number_is = first;
    key_is = refl;
    owned = inl (going, some_left);
  }
  entries-Verified ov header is there first going some_left small
        (entry {q} {r} before at same ok) =
      next_entry _ r ov header q _ small
        (entries-Verified ov header is there first going some_left small before) at same _
        ((msg43_ensures e c r).holds tt ok)
