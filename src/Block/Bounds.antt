-- ===== src/Block/Bounds.antt =====
-- The bounds of lib/sdoblockio.c's block: what is written lies inside the allocation.
use native.Mathlib.Numerals.{add-one}
use client_sdk.Base.{
  append-nil, append_assoc, length-append, Option-cases, ℕ, ◌+◌, ◌≤◌, ◌<◌, ◌≡◌, refl, sym, ◌∙◌, ap,
  [], ◌∷◌, ◌++◌, arith, Bytes, length, take, length-set, take-set_self, take-take, ltb, leb,
  Bool-cases, inl, inr, ltb→lt,
}
use client_sdk.Env.{Env, bytes_of, Grows}
use client_sdk.Block.{Block, round_up, sdo_resize_block, sdo_b_put_c, store_c}

-- The block's three numbers agree with its allocation.
pub record IsValid (b : Block) : Type 0 where
  pub cursor_in : b.cursor ≤ b.block_max
  pub size_in : b.block_size ≤ b.block_max
  pub allocated : length (bytes_of b.block) ≡ b.block_max

-- The bytes in front of the cursor: what has been written.
abbrev pub text : Block → Bytes
text b = take b.cursor (bytes_of b.block)

abbrev pub advanced : Block → ℕ → Block
advanced b n = record b { cursor = b.cursor + n }

le-round_up : (n : ℕ) → n ≤ round_up n
le-round_up n = omega arith

module _ (e : Env) (heap : Grows e) where
  -- sdo_resize_block keeps a well-formed block well-formed with the text, the cursor and the size
  -- it had, and gives it at least the size asked for, on a heap whose reallocation does not fail.
  pub sdo_resize_block-grows :
      (b : Block) (need : ℕ)
      → IsValid b
      → IsValid (sdo_resize_block e b need)
        × (text (sdo_resize_block e b need) ≡ text b)
        × (need ≤ (sdo_resize_block e b need).block_max)
        × ((sdo_resize_block e b need).cursor ≡ b.cursor)
        × ((sdo_resize_block e b need).block_size ≡ b.block_size)
  unfolding sdo_resize_block
  sdo_resize_block-grows b need v = elim (Bool-cases (ltb b.block_max need)) [
    | inl more ↦
        let (m, got, size, kept) =
          heap b.block (round_up need)
            (omega (arith, le-round_up need, ltb→lt _ _ more, v.allocated)) in
        rw more (
          rw got (
            record {
              cursor_in = omega (arith, le-round_up need, ltb→lt _ _ more, v.cursor_in);
              size_in = omega (arith, le-round_up need, ltb→lt _ _ more, v.size_in);
              allocated = size;
            },
            sym (
                  take-take b.cursor (length (bytes_of b.block)) m
                    (omega (arith, v.cursor_in, v.allocated)))
                ∙ rw kept,
            le-round_up need,
            refl,
            refl,
          ))
    | inr fits ↦ rw fits (v, refl, ground arith, refl, refl)
  ]

-- What a run of writes does to a block: the text `t` follows the old text, the block stays valid,
-- and its size is left to the caller.
pub record Puts (b b' : Block) (t : Bytes) : Type 0 where
  pub valid : IsValid b'
  pub appended : text b' ≡ text b ++ t
  pub moved : b'.cursor ≡ b.cursor + length t
  pub size_kept : b'.block_size ≡ b.block_size

pub Puts-refl : {b : Block} → IsValid b → Puts b b []
Puts-refl v = record {
  valid = v;
  appended = sym (append-nil _);
  moved = omega arith;
  size_kept = refl;
}

pub Puts-trans : {b c d : Block} (s t : Bytes) → Puts b c s → Puts c d t → Puts b d (s ++ t)
Puts-trans {b} s t p q = record {
  valid = q.valid;
  appended = q.appended ∙ ap (λ x. x ++ t) p.appended ∙ append_assoc (text b) s t;
  moved = omega (arith, p.moved, q.moved, length-append {0} s t);
  size_kept = q.size_kept ∙ p.size_kept;
}

store_c-Puts :
    (r : Block) (c : ℕ) → IsValid r → r.cursor < r.block_max → Puts r (store_c r c) (c ∷ [])
unfolding store_c
store_c-Puts r c v room = elim (Option-cases r.block) [
  | inl null ↦ absurd (omega (arith, room, v.allocated, ap (λ o. length (bytes_of o)) null))
  | inr (bs, full) ↦
      let size : length bs ≡ r.block_max = sym (ap (λ o. length (bytes_of o)) full) ∙ v.allocated in
      rw full (record {
        valid = record {
          cursor_in = omega arith;
          size_in = v.size_in;
          allocated = length-set bs r.cursor c ∙ size;
        };
        appended = rw add-one (take-set_self bs r.cursor c (omega arith));
        moved = refl;
        size_kept = refl;
      })
]

module _ (e : Env) (heap : Grows e) where
  -- Growing writes nothing, and leaves room.
  sdo_resize_block-Puts :
      (b : Block) (need : ℕ)
      → IsValid b
      → Puts b (sdo_resize_block e b need) [] × (need ≤ (sdo_resize_block e b need).block_max)
  sdo_resize_block-Puts b need v =
      let (valid, same, room, at, size) = sdo_resize_block-grows e heap b need v in
      (
        record {
          valid = valid;
          appended = same ∙ sym (append-nil _);
          moved = omega (arith, at);
          size_kept = size;
        },
        room,
      )

  -- sdoBPutC keeps a well-formed block well-formed and appends exactly its character, growing the
  -- block where it is full, on a heap whose reallocation does not fail.
  pub sdo_b_put_c-Puts : (b : Block) (c : ℕ) → IsValid b → Puts b (sdo_b_put_c e b c) (c ∷ [])
  unfolding sdo_b_put_c
  sdo_b_put_c-Puts b c v = elim (Bool-cases (leb b.block_max b.cursor)) [
    | inl full ↦
        let (p, room) = sdo_resize_block-Puts b (b.block_max + 1) v in
        rw full (
          Puts-trans [] (c ∷ []) p
            (store_c-Puts _ c p.valid (omega (arith, room, p.moved, v.cursor_in))))
    | inr fits ↦ rw fits (store_c-Puts b c v (ground arith))
  ]
