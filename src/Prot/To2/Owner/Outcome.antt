-- ===== src/Prot/To2/Owner/Outcome.antt =====
-- lib/prot/to2: where msg41 succeeds, what has been checked and where the run goes.
use client_sdk.Base.{
  ℕ, ◌<◌, ◌≡◌, ◌⊎◌, inl, inr, refl, Bool-cases, Bool, true, false, Option, some, ◌==◌, arith,
}
use client_sdk.Act.{
  modify, Ensures, Ensures-bind, Ensures-then, Ensures-pure, Ensures-guard, Ensures-modify,
}
use client_sdk.Act.Steps.{gets-then, from-then, guard-then, modify-then}
use client_sdk.Env.{Env, bytes_of}
use client_sdk.Prot.{Voucher, Prot}
use client_sdk.Prot.Action.{sdo_nonce_equal}
use client_sdk.Prot.Nonces.{SameNonce, sdo_nonce_equal-SameNonce}
use client_sdk.Prot.Steps.{rd-bind, rd-then, read_nonce-then}
use client_sdk.Prot.To2.{To2Calls}
use client_sdk.Prot.To2.Owner.{
  read_header, msg41_header, msg41_exchange, msg41_proof, after_header, msg41_body,
}
use client_sdk.Reader.{Sdor, sdor_flush}
use client_sdk.Types.{Bits}
use client_sdk.Types.Comparison.{ComparesBytes}
use client_sdk.Types.Keys.{PublicKey}
use client_sdk.Types.Rendezvous.{Hash}
use client_sdk.Types.Signature.{sdo_signature_verification}

pub flush_takes : (r : Sdor) → (sdor_flush r).have_block ≡ false
unfolding sdor_flush
flush_takes r = refl

module _ (e : Env) (c : To2Calls) where
  -- The HMAC that came with the header is the one that the device has computed over it.
  abbrev pub hmac_agrees : Hash → Hash → Bool
  hmac_agrees theirs ours =
      c.memcmp_s (bytes_of theirs.hash.bytes) theirs.hash.byte_sz (bytes_of ours.hash.bytes)
        ours.hash.byte_sz

  module _ {s : Prot} where
    header_ensures :
        (n : ℕ) (Q : Unit {0} → Prot → Type 0)
        → ((r : Sdor) (ov : Voucher) (theirs ours : Hash)
            → ov.ovoucher_hdr_hash ≡ some theirs
            → ov.num_ov_entries ≡ n
            → hmac_agrees theirs ours ≡ true
            → (hmac : Option Hash) → hmac ≡ some ours
            → Q tt (record s { sdor = r; new_ov_hdr_hmac = hmac; ovoucher = some ov }))
        → Ensures (msg41_header e c n) s Q
    unfolding msg41_header read_header
    header_ensures n Q h = Ensures-bind (record {
      holds = λ a got. from-then _ _ λ ov read. modify-then _ _ (
          from-then _ _ λ theirs t. gets-then _ _ (
            from-then _ _ λ ours o.
              Ensures-guard _
                λ same. h _ (record ov { num_ov_entries = n }) theirs ours t refl same _ o));
    })

    exchange_ensures :
        (Q : Option Bits → Prot → Type 0)
        → ((r : Sdor) (n5r n6 : Bits) (xa : Option Bits)
            → Q xa (record s { sdor = r; n5r = some n5r; n6 = some n6 }))
        → Ensures (msg41_exchange e c) s Q
    unfolding msg41_exchange
    exchange_ensures Q h = rd-then _ _ λ r. read_nonce-then e _ _ λ r n5r. rd-then _ _ λ r.
        read_nonce-then e _ _ λ r n6. rd-then _ _ λ r. rd-then _ _ λ r. rd-then _ _ λ r.
          guard-then _ _ λ room. rd-then _ _ λ r.
            rd-bind _ _ λ r xa. rd-then _ _ λ r. rd-then _ _ λ r. Ensures-pure xa (h r n5r n6 xa)

    proof_ensures :
        (start : ℕ) (xa : Option Bits) (Q : Unit {0} → Prot → Type 0)
        → ((r : Sdor) (pk : PublicKey) (key : Option PublicKey)
            → key ≡ some pk
            → sdo_nonce_equal c.memcmp_s s.n5r s.n5 ≡ true
            → sdo_signature_verification e c.ov_verify s.plain_text s.obsig (some pk) ≡ true
            → c.set_kex_param_a xa pk ≡ true
            → Q tt (record s { sdor = sdor_flush r; owner_public_key = key }))
        → Ensures (msg41_proof e c start xa) s Q
    unfolding msg41_proof
    proof_ensures start xa Q h = rd-bind _ _ λ r key. modify-then _ _ (
        guard-then _ _ λ good. from-then _ _ λ pk is. guard-then _ _ λ room. gets-then _ _ (
          gets-then _ _ (
            guard-then _ _ λ nonce. gets-then _ _ (
              gets-then _ _ (
                guard-then _ _ λ signed.
                  modify-then _ _ (Ensures-guard _ λ kex. h r pk key.0 is nonce signed kex))))))

  -- What msg41 has checked: the HMAC of the voucher's header, the nonce of msg40 and the signature of
  -- the redirection of TO1, with the key that the owner has shown.
  pub record OwnerProven (before after : Prot) : Type 0 where
    pub voucher : Voucher
    pub theirs : Hash
    pub ours : Hash
    pub pk : PublicKey
    pub voucher_is : after.ovoucher ≡ some voucher
    pub theirs_is : voucher.ovoucher_hdr_hash ≡ some theirs
    pub ours_is : after.new_ov_hdr_hmac ≡ some ours
    pub agrees : hmac_agrees theirs ours ≡ true
    pub pk_is : after.owner_public_key ≡ some pk
    pub nonce : sdo_nonce_equal c.memcmp_s after.n5r before.n5 ≡ true
    pub redirect :
        sdo_signature_verification e c.ov_verify before.plain_text before.obsig (some pk) ≡ true
    pub taken : after.sdor.have_block ≡ false

  moved :
      {before p : Prot} (s n : ℕ)
      → OwnerProven before p
      → OwnerProven before (record p { state = s; ov_entry_num = n })
  moved s n h = record {
    voucher = h.voucher;
    theirs = h.theirs;
    ours = h.ours;
    pk = h.pk;
    voucher_is = h.voucher_is;
    theirs_is = h.theirs_is;
    ours_is = h.ours_is;
    agrees = h.agrees;
    pk_is = h.pk_is;
    nonce = h.nonce;
    redirect = h.redirect;
    taken = h.taken;
  }

  -- The next state: the proof of the device, or the first entry of the voucher.
  abbrev pub AfterHeader : Voucher → Prot → Type 0
  AfterHeader ov p =
      ((ov.num_ov_entries ≡ 0) × (p.state ≡ 44))
      ⊎ ((0 < ov.num_ov_entries) × (p.state ≡ 42) × (p.ov_entry_num ≡ 0))

  abbrev pub HeaderDone : Prot → Prot → Type 0
  HeaderDone before p =
      OwnerProven before p × ((ov : Voucher) × (p.ovoucher ≡ some ov) × AfterHeader ov p)

  after_header-HeaderDone :
      (before p : Prot) (ov : Voucher)
      → p.ovoucher ≡ some ov
      → OwnerProven before p
      → HeaderDone before (after_header e c ov p)
  unfolding after_header
  after_header-HeaderDone before p ov is h = elim (Bool-cases (ov.num_ov_entries == 0)) [
    | inl none_left ↦
        rw none_left (moved 44 p.ov_entry_num h, (ov, is, inl (ground (arith, none_left), refl)))
    | inr there ↦ rw there (moved 42 0 h, (ov, is, inr (ground (arith, there), refl, refl)))
  ]

  after_header_ensures :
      (before : Prot) {p : Prot} (ov : Voucher)
      → p.ovoucher ≡ some ov
      → OwnerProven before p
      → Ensures (modify (after_header e c ov)) p (λ _ q. HeaderDone before q)
  after_header_ensures before {p} ov is h =
      Ensures-modify _ (after_header-HeaderDone before p ov is h)

  pub msg41_ensures : (ps : Prot) → Ensures (msg41_body e c) ps (λ _ p. HeaderDone ps p)
  unfolding msg41_body
  msg41_ensures ps = rd-bind _ _ λ r start. rd-then _ _ λ r. rd-then _ _ λ r. rd-bind _ _ λ r n.
      Ensures-then (
        header_ensures _ _ λ r ov theirs ours t num same hmac o. Ensures-bind (
          exchange_ensures _ λ r n5r n6 xa. Ensures-then (
            proof_ensures start xa _ λ r pk key is nonce signed kex. gets-then _ _ (
              from-then _ _ λ held eq. after_header_ensures ps held eq (record {
                voucher = ov;
                theirs = theirs;
                ours = ours;
                pk = pk;
                voucher_is = refl;
                theirs_is = t;
                ours_is = o;
                agrees = same;
                pk_is = is;
                nonce = nonce;
                redirect = signed;
                taken = flush_takes r;
              })))))

  -- Where the body of msg41 succeeds, the HMAC that came with the voucher's header has been
  -- compared with the one the device computed, the nonce has the sixteen bytes of that of msg40,
  -- and the signature of the redirection of TO1 is good for the key that the owner has shown; the
  -- block is taken, and the next state is the first entry of the voucher, or the proof of the
  -- device where it has none. memcmp_s behaves as documented.
  pub msg41-HeaderDone :
      (ps : Prot)
      → ComparesBytes c.memcmp_s
      → (msg41_body e c ps).1 ≡ some tt
      → HeaderDone ps (msg41_body e c ps).0 × SameNonce (msg41_body e c ps).0.n5r ps.n5
  msg41-HeaderDone ps compares ok =
      let (proven, next) = (msg41_ensures ps).holds tt ok in
      ((proven, next), sdo_nonce_equal-SameNonce c.memcmp_s compares _ _ proven.nonce)
