-- ===== src/Reader/Scan.antt =====
-- Stepping over the characters of a block, as lib/sdoblockio.c's reader does.
use native.Mathlib.Numerals.{add-one}
use client_sdk.Base.{
  ℕ, zero, suc, ◌-◌, ◌≤◌, ◌<◌, ◌≡◌, refl, true, false, Option, none, some, [], ◌∷◌, arith, Bytes,
  length, take, drop, get_or, lt→ltb, le→ltb, length-drop, length-take,
}
use client_sdk.Env.{bytes_of}
use client_sdk.Block.{Block, has_char, sdob_getc, sdob_peekc, sdo_skip_c}
use client_sdk.Block.Bounds.{advanced}

-- What is still to be read.
abbrev pub rest : Block → Bytes
rest b = drop b.cursor (take b.block_size (bytes_of b.block))

drop-take_cons :
    (i n : ℕ) (xs : Bytes) (c : ℕ) (u : Bytes)
    → drop i (take n xs) ≡ c ∷ u
    → (i < n) × (get_or xs i 0 ≡ c) × (drop (suc i) (take n xs) ≡ u)
drop-take_cons zero zero xs c u h = cc
drop-take_cons zero (suc n) [] c u h = cc
drop-take_cons zero (suc n) (x ∷ xs) c u h = (omega arith, cc, cc)
drop-take_cons (suc i) zero xs c u h = cc
drop-take_cons (suc i) (suc n) [] c u h = cc
drop-take_cons (suc i) (suc n) (x ∷ xs) c u h =
    let (below, got, more) = drop-take_cons i n xs c u h in (omega arith, got, more)

drop-take_nil : (i n : ℕ) (xs : Bytes) → drop i (take n xs) ≡ [] → n ≤ length xs → n ≤ i
drop-take_nil zero zero xs h k = omega arith
drop-take_nil zero (suc n) [] h k = absurd (omega arith)
drop-take_nil zero (suc n) (x ∷ xs) h k = cc
drop-take_nil (suc i) zero xs h k = omega arith
drop-take_nil (suc i) (suc n) [] h k = absurd (omega arith)
drop-take_nil (suc i) (suc n) (x ∷ xs) h k = omega (arith, drop-take_nil i n xs h (omega arith))

has_char-cons :
    (o : Option Bytes) (i n c : ℕ) (u : Bytes)
    → drop i (take n (bytes_of o)) ≡ c ∷ u
    → has_char o i n ≡ true
unfolding has_char
has_char-cons none zero zero c u h = cc
has_char-cons none zero (suc n) c u h = cc
has_char-cons none (suc i) zero c u h = cc
has_char-cons none (suc i) (suc n) c u h = cc
has_char-cons (some bs) i n c u h = lt→ltb i n (drop-take_cons i n bs c u h).0

has_char-nil :
    (o : Option Bytes) (i n : ℕ)
    → drop i (take n (bytes_of o)) ≡ []
    → n ≤ length (bytes_of o)
    → has_char o i n ≡ false
unfolding has_char
has_char-nil none i n h k = refl
has_char-nil (some bs) i n h k = le→ltb i n (drop-take_nil i n bs h k)

-- A character is read where one is left, and the block then stands behind it.
pub rest-cons :
    (b : Block) (c : ℕ) (u : Bytes)
    → rest b ≡ c ∷ u
    → (sdob_getc b ≡ (some c, advanced b 1))
      × (sdob_peekc b ≡ some c)
      × (sdo_skip_c b ≡ advanced b 1)
      × (rest (advanced b 1) ≡ u)
      × (b.cursor < b.block_size)
unfolding sdob_getc sdob_peekc sdo_skip_c
rest-cons b c u h =
    let (below, got, more) = drop-take_cons b.cursor b.block_size (bytes_of b.block) c u h in
    let there = has_char-cons b.block b.cursor b.block_size c u h in
    (rw (there, got), rw (there, got), rw (lt→ltb _ _ below), rw add-one more, below)

-- The block's size lies inside its allocation.
abbrev pub IsReadable : Block → Type 0
IsReadable b = b.block_size ≤ length (bytes_of b.block)

-- At the end of the text nothing is read, and the block stays as it was.
pub rest-nil :
    (b : Block) → IsReadable b → rest b ≡ [] → (sdob_getc b ≡ (none, b)) × (sdob_peekc b ≡ none)
unfolding sdob_getc sdob_peekc
rest-nil b k h = let gone = has_char-nil b.block b.cursor b.block_size h k in (rw gone, rw gone)

pub rest-length : (b : Block) → IsReadable b → length (rest b) ≡ b.block_size - b.cursor
rest-length b k = omega (
  arith,
  length-drop b.cursor (take b.block_size (bytes_of b.block)),
  length-take b.block_size (bytes_of b.block),
)
