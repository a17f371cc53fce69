-- ===== src/Prot/To2/Info/Outcome.antt =====
-- lib/prot/to2: where the handlers of service information succeed, the next state and the counters.
use client_sdk.Base.{
  ℕ, ◌+◌, ◌%◌, ◌<◌, ◌≡◌, ◌⊎◌, inl, inr, refl, Bool-cases, Bool, true, false, Option, some, ltb,
  ◌==◌, arith, if◌then◌else◌,
}
use client_sdk.Act.{
  Ensures, Ensures-bind, Ensures-then, Ensures-pure, Ensures-guard, Ensures-modify, Ensures-from,
}
use client_sdk.Act.Steps.{gets-then, from-then, guard-then, modify-then, skipping}
use client_sdk.Env.{Env}
use client_sdk.Prot.{OwnerSupplied, Prot}
use client_sdk.Prot.Steps.{Ensures-rd, rd-bind, rd-then, read_nonce-then}
use client_sdk.Prot.To2.{To2Calls, opened, header_passed}
use client_sdk.Prot.To2.Device.{msg45_request, string_read, msg45_body, after_info, msg46}
use client_sdk.Prot.To2.Info.{
  supplied_alloc, read_rendezvous, msg47_supplied, msg47_key, msg47_next, msg47_body, parse_values,
  msg49_values, after_values, msg49_body,
}
use client_sdk.Prot.To2.Owner.Outcome.{flush_takes}
use client_sdk.Reader.{Sdor, sdor_flush}
use client_sdk.Types.{Bits}
use client_sdk.Types.Keys.{PublicKey}

module _ (e : Env) (c : To2Calls) where
  -- Decryption and the modules change nothing of the run but the reader and the list of modules.
  opened_ensures :
      {s : Prot} (Q : Unit {0} → Prot → Type 0)
      → ((r : Sdor) → Q tt (record s { sdor = r }))
      → Ensures (opened e c) s Q
  unfolding opened
  opened_ensures Q h = rd-bind _ _ λ r pkt. gets-then _ _ (Ensures-rd _ λ r a. h r)

  header_ensures :
      {s : Prot} (Q : ℕ → Prot → Type 0) → ((n : ℕ) → Q n s) → Ensures (header_passed e c) s Q
  unfolding header_passed
  header_ensures Q h = gets-then _ _ (Ensures-from λ n got. h n)

  after_info_state :
      (p : Prot)
      → (after_info e c p).state ≡ (
          if ltb ((after_info e c p).serv_req_info_num + 1) (after_info e c p).total_dsi_rounds
          then 45
          else 47)
  unfolding after_info
  after_info_state p = elim (Bool-cases (ltb (p.serv_req_info_num + 1) p.total_dsi_rounds)) [
    | inl more ↦ rw (more, more) refl
    | inr last ↦ rw (last, last) refl
  ]

  -- The number that the owner asks for is 0 or below the number of rounds.
  abbrev pub Requested : Prot → Type 0
  Requested p = (p.serv_req_info_num ≡ 0) ⊎ (p.serv_req_info_num < p.total_dsi_rounds)

  pub record InfoAsked (before after : Prot) : Type 0 where
    pub state_is : after.state ≡ 46
    pub taken : after.sdor.have_block ≡ false
    pub requested : Requested after
    pub same_rounds : after.total_dsi_rounds ≡ before.total_dsi_rounds

  request_ensures :
      {s : Prot} (nn : ℕ) (psi : Bits) (Q : Unit {0} → Prot → Type 0)
      → ((list : Option ℕ)
          → (nn ≡ 0) ⊎ (nn < s.total_dsi_rounds)
          → Q tt (record s { sv_info_mod_list_head = list }))
      → Ensures (msg45_request e c nn psi) s Q
  unfolding msg45_request
  request_ensures {s} nn psi Q h = elim (Bool-cases (nn == 0)) [
    | inl first ↦ rw first (elim (Bool-cases (ltb 1 psi.byte_sz)) [
      | inl text ↦ rw text (
          gets-then _ _
            (modify-then _ _ (Ensures-guard _ λ good. h _ (inl (ground (arith, first))))))
      | inr nothing ↦
          rw nothing
            (Ensures-guard _ λ good. h s.sv_info_mod_list_head (inl (ground (arith, first))))
    ])
    | inr later ↦ rw later (
        gets-then _ _ (
          guard-then _ _ λ less.
            Ensures-guard _ λ empty. h s.sv_info_mod_list_head (inr (ground (arith, less)))))
  ]

  pub msg45_ensures : (ps : Prot) → Ensures (msg45_body e c) ps (λ _ p. InfoAsked ps p)
  unfolding msg45_body string_read
  msg45_ensures ps = Ensures-then (
      opened_ensures _ λ r. Ensures-bind (
        header_ensures _ λ t. rd-then _ _ λ r. rd-then _ _ λ r. rd-bind _ _ λ r nn.
          modify-then _ _ (
            rd-then _ _ λ r. guard-then _ _ λ room. rd-bind _ _ λ r psi. Ensures-then (
              request_ensures (nn % 65536) psi _ λ list asked. rd-then _ _ λ r. modify-then _ _ (
                Ensures-modify _ (record {
                  state_is = refl;
                  taken = flush_takes r;
                  requested = asked;
                  same_rounds = refl;
                }))))))

  -- The run waits for the next request, or for the setup behind the last round.
  pub msg46_ensures :
      (ps : Prot)
      → Ensures
          (msg46 e c)
          ps
          (λ _ p. p.state ≡ (if ltb (p.serv_req_info_num + 1) p.total_dsi_rounds then 45 else 47))
  unfolding msg46
  msg46_ensures ps = search (skipping, after_info_state) depth 60 fits 6000

  -- What the owner has supplied: a list and a GUID, the nonce and the next owner's key.
  pub record SetUp (after : Prot) : Type 0 where
    pub osc : OwnerSupplied
    pub guid : Bits
    pub n7r : Bits
    pub osc_is : after.osc ≡ some osc
    pub guid_is : osc.guid ≡ some guid
    pub n7r_is : after.n7r ≡ some n7r
    pub taken : after.sdor.have_block ≡ false
    pub next :
        ((after.owner_supplied_service_info_count ≡ 0) × (after.state ≡ 50))
        ⊎ ((0 < after.owner_supplied_service_info_count)
            × (after.state ≡ 48)
            × (after.owner_supplied_service_info_num ≡ 0))

  supplied_ensures :
      {s : Prot} (Q : Unit {0} → Prot → Type 0)
      → ((r : Sdor) (osc : OwnerSupplied) (guid n : Bits)
          → osc.guid ≡ some guid
          → Q tt (record s { sdor = r; osc = some osc; n7r = some n }))
      → Ensures (msg47_supplied e c) s Q
  unfolding msg47_supplied read_rendezvous
  supplied_ensures Q h = rd-then _ _ λ r. rd-then _ _ λ r. rd-bind _ _ λ r list. modify-then _ _ (
      rd-then _ _ λ r. from-then _ _ λ ba there. rd-bind _ _ λ r guid.
        modify-then _ _
          (rd-then _ _ λ r. read_nonce-then e _ _ λ r n. Ensures-rd _ λ r a. h r _ guid n refl))

  key_ensures :
      {s : Prot} (start : ℕ) (Q : Unit {0} → Prot → Type 0)
      → ((r : Sdor) (key : Option PublicKey)
          → Q tt (record s { sdor = sdor_flush r; new_pk = key }))
      → Ensures (msg47_key e c start) s Q
  unfolding msg47_key
  key_ensures start Q h = rd-bind _ _ λ r key. modify-then _ _ (
      guard-then _ _
        λ good. guard-then _ _ λ there. guard-then _ _ λ room. Ensures-modify _ (h r key.0))

  next_ensures :
      {s : Prot} (n : ℕ) (Q : Unit {0} → Prot → Type 0)
      → (n ≡ 0 → Q tt (record s { state = 50 }))
      → (0 < n → Q tt (record s { owner_supplied_service_info_num = 0; state = 48 }))
      → Ensures (msg47_next e c n) s Q
  unfolding msg47_next
  next_ensures n Q nothing some_left = elim (Bool-cases (n == 0)) [
    | inl z ↦ rw z (Ensures-modify _ (nothing (ground (arith, z))))
    | inr more ↦ rw more (
        modify-then _ _
          (guard-then _ _ λ room. Ensures-modify _ (some_left (ground (arith, more)))))
  ]

  pub msg47_ensures : (ps : Prot) → Ensures (msg47_body e c) ps (λ _ p. SetUp p)
  unfolding msg47_body supplied_alloc
  msg47_ensures ps = Ensures-then (
      opened_ensures _ λ r. Ensures-bind (
        header_ensures _ λ t. Ensures-then (
          modify-then _ _ (
            guard-then _ _ λ room. guard-then _ _ λ room. Ensures-modify _ (
              rd-then _ _ λ r. rd-then _ _ λ r. rd-bind _ _ λ r n. modify-then _ _ (
                rd-then _ _ λ r. rd-bind _ _ λ r start. Ensures-then (
                  supplied_ensures _ λ r osc guid n7r is. Ensures-then (
                    key_ensures start _ λ r key.
                      next_ensures _ _
                        (λ z. record {
                          osc = osc;
                          guid = guid;
                          n7r = n7r;
                          osc_is = refl;
                          guid_is = is;
                          n7r_is = refl;
                          taken = flush_takes r;
                          next = inl (z, refl);
                        })
                        (λ more. record {
                          osc = osc;
                          guid = guid;
                          n7r = n7r;
                          osc_is = refl;
                          guid_is = is;
                          n7r_is = refl;
                          taken = flush_takes r;
                          next = inr (more, refl, refl);
                        })))))))))

  -- One message more has been counted, and the next state is that of another one where some are left.
  pub record ValuesRead (before after : Prot) : Type 0 where
    pub number : after.owner_supplied_service_info_num ≡ before.owner_supplied_service_info_num + 1
    pub same_count :
        after.owner_supplied_service_info_count ≡ before.owner_supplied_service_info_count
    pub taken : after.sdor.have_block ≡ false
    pub state_is : after.state ≡ (
        if ltb after.owner_supplied_service_info_num after.owner_supplied_service_info_count
        then 48
        else 50)

  values_ensures :
      {s : Prot} (b : Bool) (Q : Unit {0} → Prot → Type 0)
      → ((r : Sdor) (list : Option ℕ) → Q tt (record s { sdor = r; sv_info_mod_list_head = list }))
      → Ensures (msg49_values e c b) s Q
  unfolding msg49_values parse_values
  values_ensures false Q h = Ensures-pure tt (h _ _)
  values_ensures true Q h = rd-then _ _ λ r. rd-then _ _ λ r.
      Ensures-bind (record { holds = λ fine got. guard-then _ _ λ good. Ensures-rd _ λ r a. h r _ })

  pub msg49_ensures : (ps : Prot) → Ensures (msg49_body e c) ps (λ _ p. ValuesRead ps p)
  unfolding msg49_body after_values
  msg49_ensures ps = Ensures-then (
      opened_ensures _ λ r. Ensures-bind (
        header_ensures _ λ t. rd-then _ _ λ r. rd-then _ _ λ r. rd-bind _ _ λ r n. modify-then _ _ (
          gets-then _ _ (
            Ensures-then (
              values_ensures _ _ λ r list. rd-then _ _ λ r. modify-then _ _ (
                Ensures-modify _ (record {
                  number = refl;
                  same_count = refl;
                  taken = flush_takes r;
                  state_is = refl;
                })))))))

  -- Where the body of msg45 succeeds, the index of the service information that the owner asks for
  -- is 0 or below the number of rounds, which is kept; the block is taken and the next state is
  -- that of msg46.
  pub msg45-InfoAsked :
      (ps : Prot) → (msg45_body e c ps).1 ≡ some tt → InfoAsked ps (msg45_body e c ps).0
  msg45-InfoAsked ps ok = (msg45_ensures ps).holds tt ok

  pub msg47-SetUp : (ps : Prot) → (msg47_body e c ps).1 ≡ some tt → SetUp (msg47_body e c ps).0
  msg47-SetUp ps ok = (msg47_ensures ps).holds tt ok
