-- ===== src/Prot/Errors.antt =====
-- lib/sdoprot.c: the error message, and the state in which a failed handler leaves the run.
use client_sdk.Base.{
  ◌+◌, ◌≤◌, ◌⊎◌, Bool-cases, inl, inr, ltb, ltb→lt, ℕ, zero, suc, ◌<◌, ◌≡◌, refl, sym, ◌∙◌, ap,
  Bool, true, false, Option, none, some, [], ◌∷◌, ◌++◌, append_assoc, subst, arith, Bytes,
}
use client_sdk.Decimal.{decimal, u32_mod}
use client_sdk.Env.{Env, Reliable}
use client_sdk.Block.Bounds.{IsValid, text}
use client_sdk.Writer.{Sdow, sdow_next_block}
use client_sdk.Writer.Emit.{
  IsReady, Emits-trans, Emits-next, sdow_begin_object-Emits, sdow_end_object-Emits,
}
use client_sdk.Writer.Numbers.{sdo_write_uint-Emits}
use client_sdk.Writer.Strings.{AreBytes, quoted_text, sdo_write_string-Emits, sdo_write_tag-Emits}
use client_sdk.Prot.{
  sdo_check_to2_round_trips, max_to2_round_trips, internal_server_error, codes, Prot,
  sdo_state_error, sdo_type_error, message_body_error, ps_free, sdo_send_error_message,
}
use client_sdk.Prot.Rounds.{free_if_finished-holds, choose_fn-some, round-false, round-again}
use client_sdk.Prot.Machine.{
  StateFn, Handlers, Round, stop, again, choose_fn, parse_error, round, process_loop,
  sdo_process_states,
}

-- A new block has nothing in it, whatever was in the writer.
sdow_next_block-IsReady :
    (w : Sdow) (type : ℕ)
    → IsValid w.b
    → IsReady (sdow_next_block w type)
      × ((sdow_next_block w type).need_comma ≡ false)
      × ((sdow_next_block w type).msg_type ≡ type)
      × (text (sdow_next_block w type).b ≡ [])
unfolding sdow_next_block
sdow_next_block-IsReady w type v = (
  record {
    valid = record { cursor_in = omega arith; size_in = omega arith; allocated = v.allocated };
    level = refl;
  },
  refl,
  refl,
  refl,
)

-- `"tag":`
abbrev pub tag_text : Bytes → Bytes
tag_text tag = quoted_text tag ++ b':' ∷ []

-- `{"ec":ecode,"emsg":msgnum,"em":"errmsg"}`
abbrev pub error_text : ℕ → ℕ → Bytes → Bytes
error_text ecode msgnum errmsg =
    b'{'
    ∷ (tag_text (codes "ec")
        ++ (decimal ecode
            ++ (b','
                ∷ (tag_text (codes "emsg")
                    ++ (decimal msgnum
                        ++ (b','
                            ∷ (tag_text (codes "em") ++ (quoted_text errmsg ++ b'}' ∷ []))))))))

module _ (e : Env) (ok : Reliable e) where
  -- sdo_send_error_message replaces the content of a well-formed writer by the object
  -- {"ec":…,"emsg":…,"em":"…"} with the numbers given, below 2^32, and the escaped message, and
  -- sets the type of an error message. The environment is reliable.
  pub sdo_send_error_message_lem :
      (w : Sdow) (ecode msgnum : ℕ) (errmsg : Bytes)
      → IsValid w.b
      → ecode < u32_mod
      → msgnum < u32_mod
      → AreBytes errmsg
      → let w' = sdo_send_error_message e w ecode msgnum errmsg in
        (text w'.b ≡ error_text ecode msgnum errmsg) × (w'.msg_type ≡ sdo_type_error) × IsReady w'
  unfolding sdo_send_error_message
  sdo_send_error_message_lem w ecode msgnum errmsg v he hn hm =
      let (ready, free, type, empty) = sdow_next_block-IsReady w sdo_type_error v in
      let begun = sdow_begin_object-Emits e ok (sdow_next_block w sdo_type_error) ready in
      let t1 =
        Emits-next _ (tag_text (codes "ec")) begun
          (sdo_write_tag-Emits e ok _ (codes "ec") begun.ready (omega arith)) in
      let n1 = Emits-next _ (decimal ecode) t1 (sdo_write_uint-Emits e ok _ ecode t1.ready he) in
      let t2 =
        Emits-next _ (tag_text (codes "emsg")) n1
          (sdo_write_tag-Emits e ok _ (codes "emsg") n1.ready (omega arith)) in
      let n2 = Emits-next _ (decimal msgnum) t2 (sdo_write_uint-Emits e ok _ msgnum t2.ready hn) in
      let t3 =
        Emits-next _ (tag_text (codes "em")) n2
          (sdo_write_tag-Emits e ok _ (codes "em") n2.ready (omega arith)) in
      let s3 =
        Emits-next _ (quoted_text errmsg) t3 (sdo_write_string-Emits e ok _ errmsg t3.ready hm) in
      let all = Emits-trans _ (b'}' ∷ []) s3 (sdow_end_object-Emits e ok _ s3.ready) in
      (all.appended ∙ rw (empty, free) (simp append_assoc), all.type_kept ∙ type, all.ready)

-- The ends of a run with the status false: what is known of a handler's results holds in front of
-- the clearing.
process_loop-false :
    (e : Env) (h : Handlers) (P : Prot → Type 0)
    → ((g : StateFn) (p : Prot) → P p → P (h g p).0)
    → ((p : Prot) → P p → P (ps_free p))
    → (fuel : ℕ) (ps : Prot) (kept : Option StateFn) (fn : StateFn) {q : Prot}
    → choose_fn ps.state kept ≡ some fn
    → P ps
    → process_loop e h fuel ps kept ≡ some (q, false)
    → (p : Prot) × P p × (q ≡ parse_error e p)
unfolding process_loop
process_loop-false e h P keeps frees zero ps kept fn c holds r = cc
process_loop-false e h P keeps frees (suc fuel) ps kept fn {q} c holds r =
    go (round e h ps kept) refl (λ p g f x y. process_loop-false e h P keeps frees fuel p g f x y)
  where
    go :
        (x : Round)
        → round e h ps kept ≡ x
        → ((p : Prot) (g : Option StateFn) (f : StateFn)
            → choose_fn p.state g ≡ some f
            → P p
            → process_loop e h fuel p g ≡ some (q, false)
            → (p : Prot) × P p × (q ≡ parse_error e p))
        → (p : Prot) × P p × (q ≡ parse_error e p)
    go (stop p true) x ih = absurd (cc (rw (x, process_loop) at r))
    go (stop p false) x ih =
        let same : Path (Option (Prot × Bool)) (some (p, false)) (some (q, false)) =
          rw (x, process_loop) at r in
        let (failed, ends) = round-false e h ps kept fn c x in ((h fn ps).0, keeps fn ps holds, cc)
    go (again p g) x ih =
        let (f, chosen, kept_it, ok, now, changed) = round-again e h ps kept x in
        let (next, c') = choose_fn-some p.state f in
        ih p g next (ap (choose_fn p.state) kept_it ∙ c')
          (subst P (sym now) (free_if_finished-holds P frees ps.state _ (keeps f ps holds)))
          (rw (x, process_loop) at r)

-- The message data that a run holds, all of them null.
abbrev pub IsFreed : Prot → Type 0
IsFreed p =
    (p.plain_text ≡ none)
    × (p.obsig ≡ none)
    × (p.n5 ≡ none)
    × (p.n5r ≡ none)
    × (p.new_ov_hdr_hmac ≡ none)
    × (p.n6 ≡ none)
    × (p.n7r ≡ none)
    × (p.dsi_info ≡ none)

-- Started in a state of the protocols, a run of sdo_process_states that returns false leaves the
-- error state, null message data, and in the writer exactly one error message, with the code 100,
-- the number 61 and the parse error text of some state. The environment is reliable, the parse
-- error texts are bytes, and the handlers keep the writer's block well-formed.
pub sdo_process_states-fails :
    (e : Env) (ok : Reliable e) (h : Handlers) (fuel : ℕ) (ps : Prot) (fn : StateFn) {q : Prot}
    → ((g : StateFn) (p : Prot) → IsValid p.sdow.b → IsValid (h g p).0.sdow.b)
    → ((s : ℕ) → AreBytes (e.print_parse_error s))
    → IsValid ps.sdow.b
    → choose_fn ps.state none ≡ some fn
    → sdo_process_states e h fuel ps ≡ some (q, false)
    → (s : ℕ) × (text q.sdow.b
        ≡ error_text message_body_error sdo_state_error (e.print_parse_error s))
      × (q.sdow.msg_type ≡ sdo_type_error)
      × (q.state ≡ sdo_state_error)
      × IsFreed q
unfolding sdo_process_states parse_error ps_free
sdo_process_states-fails e ok h fuel ps fn {q} keeps bytes v c r =
    let (p, valid, ends) =
      process_loop-false e h (λ p. IsValid p.sdow.b) keeps (λ p x. x) fuel ps none fn c v r in
    let (written, type, ready) =
      sdo_send_error_message_lem e ok p.sdow message_body_error sdo_state_error
        (e.print_parse_error p.state) valid (omega arith) (omega arith) (bytes p.state) in
    (
      p.state,
      ap (λ x. text x.sdow.b) ends ∙ written,
      ap (λ x. x.sdow.msg_type) ends ∙ type,
      ap (λ x. x.state) ends,
      subst IsFreed (sym ends) (refl, refl, refl, refl, refl, refl, refl, refl),
    )

-- Up to 1000000 round trips sdo_check_to2_round_trips returns true, counts one more, which does
-- not wrap, and keeps the state; past them it returns false, goes into the error state and leaves
-- the message with the code 500 and the state as its number. The environment is reliable, the
-- writer well-formed and the state below 2^32.
pub sdo_check_to2_round_trips-cases :
    (e : Env) (ok : Reliable e) (ps : Prot)
    → IsValid ps.sdow.b
    → ps.state < u32_mod
    → let ps' = (sdo_check_to2_round_trips e ps).0 in
      let within = (sdo_check_to2_round_trips e ps).1 in
      ((ps.round_trip_count ≤ max_to2_round_trips)
        × (within ≡ true)
        × (ps'.round_trip_count ≡ ps.round_trip_count + 1)
        × (ps'.state ≡ ps.state))
      ⊎ ((max_to2_round_trips < ps.round_trip_count)
          × (within ≡ false)
          × (ps'.state ≡ sdo_state_error)
          × (text ps'.sdow.b
              ≡ error_text internal_server_error ps.state (codes "Exceeded max number of rounds")))
unfolding sdo_check_to2_round_trips
sdo_check_to2_round_trips-cases e ok ps v small =
    elim (Bool-cases (ltb max_to2_round_trips ps.round_trip_count)) [
      | inl over ↦
          let (written, type, ready) =
            sdo_send_error_message_lem e ok ps.sdow internal_server_error ps.state
              (codes "Exceeded max number of rounds") v (omega arith) small (omega arith) in
          inr (ltb→lt _ _ over, rw over, rw over, rw over written)
      | inr under ↦
          inl (ground (arith, under), rw under, rw under (ground (arith, under)), rw under)
    ]
