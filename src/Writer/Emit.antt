-- ===== src/Writer/Emit.antt =====
-- What each operation of lib/sdoblockio.c's writer appends to the message.
use mathlib.Core.Path.{subst}
use client_sdk.Base.{
  ℕ, ◌≤◌, ◌≡◌, refl, sym, ◌∙◌, ap, Bool, true, false, [], ◌∷◌, ◌++◌, append-nil, append_assoc,
  arith, Bytes, Bool-cases, inl, inr,
}
use client_sdk.Env.{Env, Reliable}
use client_sdk.Block.{Block}
use client_sdk.Block.Bounds.{IsValid, text, Puts, sdo_b_put_c-Puts}
use client_sdk.Writer.{
  Sdow, raise_size, write_comma, writespecialchar, sdow_begin_sequence, sdow_end_sequence,
  sdow_begin_object, sdow_end_object,
}

-- Between two operations the block is valid, and its size is where its cursor stands.
pub record IsReady (w : Sdow) : Type 0 where
  pub valid : IsValid w.b
  pub level : w.b.block_size ≡ w.b.cursor

-- `w'` is `w` with the text `t` appended, and with the given comma flag.
pub record Emits (w w' : Sdow) (t : Bytes) (comma : Bool) : Type 0 where
  pub ready : IsReady w'
  pub appended : text w'.b ≡ text w.b ++ t
  pub comma_is : w'.need_comma ≡ comma
  pub type_kept : w'.msg_type ≡ w.msg_type

pub Emits-trans :
    {w v x : Sdow} (s t : Bytes) {c d : Bool} → Emits w v s c → Emits v x t d → Emits w x (s ++ t) d
Emits-trans {w} s t p q = record {
  ready = q.ready;
  appended = q.appended ∙ ap (λ x. x ++ t) p.appended ∙ append_assoc (text w.b) s t;
  comma_is = q.comma_is;
  type_kept = q.type_kept ∙ p.type_kept;
}

pub Emits-comma :
    {w v : Sdow} {t : Bytes} {c : Bool} (d : Bool)
    → Emits w v t c
    → Emits w (record v { need_comma = d }) t d
Emits-comma d p = record {
  ready = record { valid = p.ready.valid; level = p.ready.level };
  appended = p.appended;
  comma_is = refl;
  type_kept = p.type_kept;
}

raise_size-IsValid : {b : Block} → IsValid b → IsValid (raise_size b)
raise_size-IsValid {b} v = record {
  cursor_in = v.cursor_in;
  size_in = ground arith;
  allocated = v.allocated;
}

-- Writes to the block, with the size raised behind them.
pub Emits-Puts :
    (w : Sdow) {b' : Block} {t : Bytes} (c : Bool)
    → w.b.block_size ≤ w.b.cursor
    → Puts w.b b' t
    → Emits w (record w { b = raise_size b'; need_comma = c }) t c
Emits-Puts w {b'} c behind p = record {
  ready = record {
    valid = raise_size-IsValid p.valid;
    level = ground (arith, p.moved, p.size_kept);
  };
  appended = p.appended;
  comma_is = refl;
  type_kept = refl;
}

-- Writes to the block alone, in front of an operation.
pub Emits-after :
    (w : Sdow) {b' : Block} {x : Sdow} (s t : Bytes) {c : Bool}
    → Puts w.b b' s
    → Emits (record w { b = b' }) x t c
    → Emits w x (s ++ t) c
Emits-after w s t p q = record {
  ready = q.ready;
  appended = q.appended ∙ ap (λ x. x ++ t) p.appended ∙ append_assoc (text w.b) s t;
  comma_is = q.comma_is;
  type_kept = q.type_kept;
}

-- Raising the size once more changes nothing.
pub Emits-raised :
    {w v : Sdow} {t : Bytes} {c : Bool} (d : Bool)
    → Emits w v t c
    → Emits w (record v { b = raise_size v.b; need_comma = d }) t d
Emits-raised d p = record {
  ready = record {
    valid = raise_size-IsValid p.ready.valid;
    level = ground (arith, p.ready.level);
  };
  appended = p.appended;
  comma_is = refl;
  type_kept = p.type_kept;
}

pub Emits-as :
    {w v : Sdow} {s : Bytes} (t : Bytes) {c : Bool} → s ≡ t → Emits w v s c → Emits w v t c
Emits-as t h p = rw (← h) p

abbrev pub separator : Bool → Bytes
separator true = b',' ∷ []
separator false = []

-- An operation that begins with the comma that is due, behind another one.
pub Emits-next :
    {w v x : Sdow} (s t : Bytes) {c d : Bool}
    → Emits w v s c
    → Emits v x (separator v.need_comma ++ t) d
    → Emits w x (s ++ (separator c ++ t)) d
Emits-next {v} {x} s t {c} {d} p q =
    Emits-trans s (separator c ++ t) p (subst (λ z. Emits v x (separator z ++ t) d) p.comma_is q)

module _ (e : Env) (ok : Reliable e) where
  pub write_comma-Emits :
      (w : Sdow) → IsReady w → Emits w (write_comma e w) (separator w.need_comma) false
  unfolding write_comma
  write_comma-Emits w r = elim (Bool-cases w.need_comma) [
    | inl due ↦
        simp due (
          Emits-Puts w false (omega (arith, r.level))
            (sdo_b_put_c-Puts e ok.grows w.b b',' r.valid))
    | inr free ↦
        simp free
          (record { ready = r; appended = sym (append-nil _); comma_is = free; type_kept = refl })
  ]

  -- The comma written ahead of the operation that it belongs to.
  pub comma-next :
      {w v : Sdow} (s : Bytes) {c : Bool}
      → Emits w v s c
      → Emits w (write_comma e v) (s ++ separator c) false
  comma-next {v} s {c} p = Emits-trans s (separator c) p (
      subst (λ z. Emits v (write_comma e v) (separator z) false) p.comma_is
        (write_comma-Emits v p.ready))

  pub writespecialchar-Emits :
      (w : Sdow) (c : ℕ)
      → IsReady w
      → Emits w (writespecialchar e w c) (separator w.need_comma ++ c ∷ []) false
  unfolding writespecialchar
  writespecialchar-Emits w c r =
      let p = write_comma-Emits w r in
      Emits-trans (separator w.need_comma) (c ∷ []) p (
        Emits-Puts (write_comma e w) false (omega (arith, p.ready.level))
          (sdo_b_put_c-Puts e ok.grows (write_comma e w).b c p.ready.valid))

  -- Each bracket, behind the comma that was due; a closing bracket takes no comma.
  pub sdow_begin_sequence-Emits :
      (w : Sdow)
      → IsReady w
      → Emits w (sdow_begin_sequence e w) (separator w.need_comma ++ b'[' ∷ []) false
  unfolding sdow_begin_sequence
  sdow_begin_sequence-Emits w r = writespecialchar-Emits w b'[' r

  pub sdow_begin_object-Emits :
      (w : Sdow)
      → IsReady w
      → Emits w (sdow_begin_object e w) (separator w.need_comma ++ b'{' ∷ []) false
  unfolding sdow_begin_object
  sdow_begin_object-Emits w r = writespecialchar-Emits w b'{' r

  -- With the flag put down first, only the character is written.
  pub closing-Emits :
      (w : Sdow) (c : ℕ)
      → IsReady w
      → Emits w (writespecialchar e (record w { need_comma = false }) c) (c ∷ []) false
  closing-Emits w c r =
      let p =
        writespecialchar-Emits (record w { need_comma = false }) c
          (record { valid = r.valid; level = r.level }) in
      record {
        ready = p.ready;
        appended = p.appended;
        comma_is = p.comma_is;
        type_kept = p.type_kept;
      }

  pub sdow_end_sequence-Emits :
      (w : Sdow) → IsReady w → Emits w (sdow_end_sequence e w) (b']' ∷ []) true
  unfolding sdow_end_sequence
  sdow_end_sequence-Emits w r = Emits-comma true (closing-Emits w b']' r)

  pub sdow_end_object-Emits :
      (w : Sdow) → IsReady w → Emits w (sdow_end_object e w) (b'}' ∷ []) true
  unfolding sdow_end_object
  sdow_end_object-Emits w r = Emits-comma true (closing-Emits w b'}' r)
