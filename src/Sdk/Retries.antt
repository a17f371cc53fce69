-- ===== src/Sdk/Retries.antt =====
-- lib/sdo.c: one run of TO1 that sdo_sdk_run makes, under error recovery or without.
pub mod Loop
use client_sdk.Base.{
  ℕ, zero, suc, ◌+◌, ◌-◌, ◌<◌, ◌≤◌, ◌≡◌, ◌≢◌, ◌⊎◌, inl, inr, ◌∙◌, ap, subst, refl, Option-cases,
  Bool, true, false, none, some, [], ◌∷◌, List, All, arith, length, get_elem?, if◌then◌else◌, ◌==◌,
}
use client_sdk.Sdk.{
  Status, success, warning, error, abort, StateFunction, state_to1, state_to2, error_state, AppData,
  Credentials, Rendezvous, error_macro,
}
use client_sdk.Sdk.Selection.{goes_up}
use client_sdk.Sdk.Outcomes.{state_loop-error}
use client_sdk.Sdk.States.{
  Protocol, Protocols, Callback, ask, protocol_failed, next_rv_index, rv_entry, after_protocol,
  start_run, contact, pick_rv, state_to1_fn, call_state, status_for, state_loop,
}

-- An entry that names an address.
abbrev pub HasAddress : Rendezvous → Type 0
HasAddress rv = (rv.ip ≢ none) ⊎ (rv.dn ≢ none)

reached :
    (l : List Rendezvous) (i : ℕ)
    → All HasAddress l
    → i < length l
    → (rv : Rendezvous) × (get_elem? l i ≡ some rv) × HasAddress rv
reached [] i all h = absurd (omega arith)
reached (x ∷ l) zero all h = (x, refl, all.0)
reached (x ∷ l) (suc i) all h = reached l i all.1 (omega arith)

-- Whether the server of an entry answers depends on its index alone, and a run leaves the credentials,
-- the index and the error recovery as they are.
pub record Serves (p : Protocol) (answers : ℕ → Bool) : Type 0 where
  pub allocated : p.allocates ≡ true
  pub result : (g : AppData) (tls : Bool) → (p.run g tls).1 ≡ answers g.rv_index
  pub same_index : (g : AppData) (tls : Bool) → (p.run g tls).0.rv_index ≡ g.rv_index
  pub same_cred : (g : AppData) (tls : Bool) → (p.run g tls).0.devcred ≡ g.devcred
  pub same_recovery : (g : AppData) (tls : Bool) → (p.run g tls).0.error_recovery ≡ g.error_recovery

-- A device in TO1 under error recovery, with the credentials and the index that are given.
pub record InTo1 (cred : Credentials) (i : ℕ) (g : AppData) : Type 0 where
  pub at : g.state_fn ≡ some state_to1
  pub cred_is : g.devcred ≡ some cred
  pub index : g.rv_index ≡ i
  pub recovers : g.error_recovery ≡ true

module _ (p : Protocol) (callback : Callback) where
  contact_starts :
      (g : AppData) (rv : Rendezvous)
      → HasAddress rv
      → contact p callback g (some rv) ≡ start_run p callback g state_to1 state_to2 rv.https
  unfolding contact
  contact_starts g rv has = elim (Option-cases rv.ip) [
    | inl no_ip ↦ elim (Option-cases rv.dn) [
      | inl no_dn ↦ absurd (elim has [ inl ip ↦ ip no_ip | inr dn ↦ dn no_dn ])
      | inr (dn, dn_is) ↦ rw (no_ip, dn_is) refl
    ]
    | inr (ip, ip_is) ↦ rw ip_is refl
  ]

  retried :
      (state : StateFunction) (g : AppData)
      → g.error_recovery ≡ true
      → ask callback warning state ≢ abort
      → protocol_failed callback state g ≡ record g { state_fn = some state }
  unfolding protocol_failed
  retried state g on goes_on = ground (arith, on, goes_on)

  pub given_up :
      (state : StateFunction) (g : AppData)
      → (g.error_recovery ≡ false) ⊎ (ask callback warning state ≡ abort)
      → (protocol_failed callback state g).state_fn ≡ some error_state
  unfolding protocol_failed error_macro
  given_up state g ends = ground (arith, ends)

  -- The entry of the next index, where there are entries.
  picks :
      (entries : List Rendezvous) (g : AppData) (i : ℕ) (rv : Rendezvous)
      → 0 < length entries
      → next_rv_index g.rv_index (length entries) ≡ i
      → rv_entry entries i ≡ some rv
      → pick_rv p callback g (some entries)
        ≡ contact p callback (record g { rv_index = i }) (some rv)
  unfolding pick_rv
  picks entries g i rv filled next found =
      let some_left : (length entries == 0) ≡ false = ground (arith, filled) in
      rw some_left (
        ap (λ j. contact p callback (record g { rv_index = j }) (rv_entry entries j)) next
        ∙ ap (contact p callback (record g { rv_index = i })) found)

  owned :
      (cred : Credentials) (g : AppData)
      → g.devcred ≡ some cred
      → cred.has_owner ≡ true
      → state_to1_fn p callback g
        ≡ pick_rv p callback (record g { prot_success = false }) cred.rvlst
  unfolding state_to1_fn
  owned cred g is owner =
      ap
        (λ c. elim c [
          | none ↦ (g, false)
          | some cr ↦
              if cr.has_owner
              then pick_rv p callback (record g { prot_success = false }) cr.rvlst
              else (g, false)
        ])
        is
      ∙ ap
          (λ b.
            if b
            then pick_rv p callback (record g { prot_success = false }) cred.rvlst
            else (g, false))
          owner

  pub to1_starts :
      (cred : Credentials) (entries : List Rendezvous) (i : ℕ) (g : AppData)
      → cred.has_owner ≡ true
      → cred.rvlst ≡ some entries
      → All HasAddress entries
      → length entries < 255
      → i < length entries
      → g.devcred ≡ some cred
      → g.rv_index ≡ i
      → (tls : Bool) × (state_to1_fn p callback g
          ≡ start_run p callback
              (record g { rv_index = i + 1; prot_success = false })
              state_to1
              state_to2
              tls)
  unfolding rv_entry
  to1_starts cred entries i g owner list all small left has_cred at_index =
      let (rv, got, has) = reached entries i all left in
      let filled : 0 < length entries = omega (arith, left) in
      let up : next_rv_index g.rv_index (length entries) ≡ i + 1 =
        ap (λ n. next_rv_index n (length entries)) at_index
        ∙ goes_up (length entries) filled small i left in
      let behind : i + 1 - 1 ≡ i = omega arith in
      (
        rv.https,
        owned cred g has_cred owner
            ∙ ap (pick_rv p callback (record g { prot_success = false })) list
            ∙ picks entries (record g { prot_success = false }) (i + 1) rv filled up
                (ap (get_elem? entries) behind ∙ got)
            ∙ contact_starts (record g { rv_index = i + 1; prot_success = false }) rv has,
      )

  run_failed :
      (state next : StateFunction) (q : AppData × Bool)
      → q.1 ≡ false
      → after_protocol p callback state next q ≡ (protocol_failed callback state q.0, false)
  unfolding after_protocol
  run_failed state next (g, true) bad = absurd (ground (arith, bad))
  run_failed state next (g, false) bad = refl

  run_passed :
      (state next : StateFunction) (q : AppData × Bool)
      → q.1 ≡ true
      → after_protocol p callback state next q ≡ (record (q.0) { state_fn = some next }, true)
  unfolding after_protocol
  run_passed state next (g, true) good = refl
  run_passed state next (g, false) good = absurd (ground (arith, good))

  pub start_fails :
      (state next : StateFunction) (g : AppData) (tls : Bool)
      → p.allocates ≡ true
      → (p.run g tls).1 ≡ false
      → start_run p callback g state next tls
        ≡ (protocol_failed callback state (p.run g tls).0, false)
  unfolding start_run
  start_fails state next g tls room failed = rw room (run_failed state next (p.run g tls) failed)

  -- A run of TO1 whose server does not answer: the next round is one of TO1 again.
  pub unanswered :
      (cred : Credentials) (answers : ℕ → Bool) (i : ℕ) (g : AppData) (tls : Bool)
      → Serves p answers
      → ask callback warning state_to1 ≢ abort
      → InTo1 cred i g
      → answers (i + 1) ≡ false
      → (h : AppData) × (start_run p callback
            (record g { rv_index = i + 1; prot_success = false })
            state_to1
            state_to2
            tls
          ≡ (h, false))
        × InTo1 cred (i + 1) h
  unfolding start_run
  unanswered cred answers i g tls law goes_on here silent =
      let g1 = record g { rv_index = i + 1; prot_success = false } in
      let q = p.run g1 tls in
      let failed = run_failed state_to1 state_to2 q (law.result g1 tls ∙ silent) in
      let on : q.0.error_recovery ≡ true = law.same_recovery g1 tls ∙ here.recovers in
      (
        record (q.0) { state_fn = some state_to1 },
        rw (law.allocated, failed, retried state_to1 q.0 on goes_on) refl,
        record {
          at = refl;
          cred_is = law.same_cred g1 tls ∙ here.cred_is;
          index = law.same_index g1 tls;
          recovers = on;
        },
      )

  pub server_answers :
      (cred : Credentials) (answers : ℕ → Bool) (i : ℕ) (g : AppData) (tls : Bool)
      → Serves p answers
      → InTo1 cred i g
      → answers (i + 1) ≡ true
      → (h : AppData) × (start_run p callback
            (record g { rv_index = i + 1; prot_success = false })
            state_to1
            state_to2
            tls
          ≡ (h, true))
        × (h.state_fn ≡ some state_to2)
        × (h.rv_index ≡ i + 1)
        × (h.devcred ≡ some cred)
  unfolding start_run
  server_answers cred answers i g tls law here answer =
      let g1 = record g { rv_index = i + 1; prot_success = false } in
      let q = p.run g1 tls in
      let passed = run_passed state_to1 state_to2 q (law.result g1 tls ∙ answer) in
      (
        record (q.0) { state_fn = some state_to2 },
        rw (law.allocated, passed) refl,
        refl,
        law.same_index g1 tls,
        law.same_cred g1 tls ∙ here.cred_is,
      )
