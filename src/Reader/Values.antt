-- ===== src/Reader/Values.antt =====
-- What lib/sdoblockio.c's reader takes from the text in front of it, and what it leaves.
use client_sdk.Base.{
  ℕ, zero, suc, ◌+◌, ◌-◌, ◌*◌, ◌%◌, ◌≤◌, ◌≡◌, refl, ◌∙◌, ap, Bool, true, false, ◌&&◌, [], ◌∷◌, ◌++◌,
  arith, Bytes, length, length-append, leb, ◌==◌, eq→==, Bool-cases, inl, inr,
}
use client_sdk.Decimal.{AreDigits, value_from, u32_mod}
use client_sdk.Env.{bytes_of}
use client_sdk.Block.{Block}
use client_sdk.Block.Bounds.{advanced}
use client_sdk.Writer.Emit.{separator}
use client_sdk.Reader.{
  Sdor, read_expected_char, read_expected_char_comma_before, read_expected_char_comma_after,
  read_comma, rounds_left, uint_loop, sdo_read_uint,
}
use client_sdk.Reader.Scan.{rest, rest-cons, rest-nil, IsReadable, rest-length}

-- `b'` is `b` with the cursor moved on, and the text `u` left.
pub record Steps (b b' : Block) (u : Bytes) : Type 0 where
  pub left : rest b' ≡ u
  pub block_kept : b'.block ≡ b.block
  pub size_kept : b'.block_size ≡ b.block_size
  pub max_kept : b'.block_max ≡ b.block_max

pub Steps-refl : (b : Block) → Steps b b (rest b)
Steps-refl b = record { left = refl; block_kept = refl; size_kept = refl; max_kept = refl }

pub Steps-trans : {b c d : Block} {u v : Bytes} → Steps b c u → Steps c d v → Steps b d v
Steps-trans p q = record {
  left = q.left;
  block_kept = q.block_kept ∙ p.block_kept;
  size_kept = q.size_kept ∙ p.size_kept;
  max_kept = q.max_kept ∙ p.max_kept;
}

pub Steps-one : (b : Block) (c : ℕ) (u : Bytes) → rest b ≡ c ∷ u → Steps b (advanced b 1) u
Steps-one b c u h = record {
  left = (rest-cons b c u h).3;
  block_kept = refl;
  size_kept = refl;
  max_kept = refl;
}

-- `r'` is `r` with the text `u` left to read, and with the given comma flag.
pub record Leaves (r r' : Sdor) (u : Bytes) (comma : Bool) : Type 0 where
  pub steps : Steps r.b r'.b u
  pub comma_is : r'.need_comma ≡ comma
  pub have_kept : r'.have_block ≡ r.have_block
  pub type_kept : r'.msg_type ≡ r.msg_type
  pub receive_kept : r'.receive_set ≡ r.receive_set

pub Leaves-trans :
    {r s t : Sdor} {u v : Bytes} {c d : Bool} → Leaves r s u c → Leaves s t v d → Leaves r t v d
Leaves-trans p q = record {
  steps = Steps-trans p.steps q.steps;
  comma_is = q.comma_is;
  have_kept = q.have_kept ∙ p.have_kept;
  type_kept = q.type_kept ∙ p.type_kept;
  receive_kept = q.receive_kept ∙ p.receive_kept;
}

-- The block moved and the flag set, the rest of the reader untouched.
pub Leaves-Steps :
    (r : Sdor) {b' : Block} {u : Bytes} (c : Bool)
    → Steps r.b b' u
    → Leaves r (record r { b = b'; need_comma = c }) u c
Leaves-Steps r c p = record {
  steps = p;
  comma_is = refl;
  have_kept = refl;
  type_kept = refl;
  receive_kept = refl;
}

-- A character is read, and compared with the one expected.
pub read_expected_char-Leaves :
    (r : Sdor) (c expected : ℕ) (u : Bytes)
    → rest r.b ≡ c ∷ u
    → ((read_expected_char r expected).1 ≡ (c == expected))
      × Leaves r (read_expected_char r expected).0 u r.need_comma
unfolding read_expected_char
read_expected_char-Leaves r c expected u h =
    rw ((rest-cons r.b c u h).0) (refl, Leaves-Steps r r.need_comma (Steps-one r.b c u h))

-- The comma that is due is read.
pub read_comma-Leaves :
    (r : Sdor) (u : Bytes)
    → rest r.b ≡ separator r.need_comma ++ u
    → ((read_comma r).1 ≡ true) × Leaves r (read_comma r).0 u false
unfolding read_comma
read_comma-Leaves r u h = elim (Bool-cases r.need_comma) [
  | inl due ↦
      let from = record r { need_comma = false } in
      let (same, p) =
        read_expected_char-Leaves from b',' b',' u (h ∙ ap (λ z. separator z ++ u) due) in
      simp due (
        same,
        record {
          steps = p.steps;
          comma_is = p.comma_is;
          have_kept = p.have_kept;
          type_kept = p.type_kept;
          receive_kept = p.receive_kept;
        },
      )
  | inr free ↦ simp free (
    refl,
    record {
      steps = record {
        left = h ∙ ap (λ z. separator z ++ u) free;
        block_kept = refl;
        size_kept = refl;
        max_kept = refl;
      };
      comma_is = free;
      have_kept = refl;
      type_kept = refl;
      receive_kept = refl;
    },
  )
]

pub Leaves-comma :
    {r s : Sdor} {u : Bytes} {c : Bool} (d : Bool)
    → Leaves r s u c
    → Leaves r (record s { need_comma = d }) u d
Leaves-comma d p = record {
  steps = p.steps;
  comma_is = refl;
  have_kept = p.have_kept;
  type_kept = p.type_kept;
  receive_kept = p.receive_kept;
}

-- An opening bracket is taken with the comma before it.
pub opening-Leaves :
    (r : Sdor) (c : ℕ) (u : Bytes)
    → rest r.b ≡ separator r.need_comma ++ c ∷ u
    → ((read_expected_char_comma_before r c).1 ≡ true)
      × Leaves r (read_expected_char_comma_before r c).0 u false
unfolding read_expected_char_comma_before
opening-Leaves r c u h =
    let (there, p) = read_comma-Leaves r (c ∷ u) h in
    let (same, q) = read_expected_char-Leaves (read_comma r).0 c c u p.steps.left in
    rw there (same ∙ eq→== c c refl, Leaves-comma false (Leaves-trans p q))

-- A closing bracket is taken with no comma, and one is due behind it.
pub closing-Leaves :
    (r : Sdor) (c : ℕ) (u : Bytes)
    → rest r.b ≡ c ∷ u
    → ((read_expected_char_comma_after r c).1 ≡ true)
      × Leaves r (read_expected_char_comma_after r c).0 u true
unfolding read_expected_char_comma_after
closing-Leaves r c u h =
    let (same, q) = read_expected_char-Leaves r c c u h in
    (same ∙ eq→== c c refl, Leaves-comma true q)

-- No digit stands at the front of the text.
abbrev pub NoDigit : Bytes → Type 0
NoDigit [] = Unit {0}
NoDigit (c ∷ u) = (leb b'0' c && leb c b'9') ≡ false

uint_loop-stop :
    (fuel : ℕ) (b : Block) (acc : ℕ) (u : Bytes)
    → IsReadable b
    → rest b ≡ u
    → NoDigit u
    → uint_loop fuel b acc ≡ (b, acc)
unfolding uint_loop
uint_loop-stop zero b acc u k h d = refl
uint_loop-stop (suc fuel) b acc [] k h d = rw ((rest-nil b k h).1, uint_loop)
uint_loop-stop (suc fuel) b acc (c ∷ u) k h d = rw ((rest-cons b c u h).1, d, uint_loop)

-- The digits are read to their end, where the fuel is as long as they are.
uint_loop-digits :
    (ds : Bytes) (fuel : ℕ) (b : Block) (acc : ℕ) (u : Bytes)
    → IsReadable b
    → rest b ≡ ds ++ u
    → AreDigits ds
    → NoDigit u
    → length ds ≤ fuel
    → ((uint_loop fuel b acc).1 ≡ value_from acc ds) × Steps b (uint_loop fuel b acc).0 u
unfolding uint_loop
uint_loop-digits [] fuel b acc u k h d n f =
    rw (uint_loop-stop fuel b acc u k h n)
      (refl, record { left = h; block_kept = refl; size_kept = refl; max_kept = refl })
uint_loop-digits (c ∷ ds) zero b acc u k h d n f = absurd (omega arith)
uint_loop-digits (c ∷ ds) (suc fuel) b acc u k h d n f =
    let (_, peek, skip, more, _) = rest-cons b c (ds ++ u) h in
    let digit : (leb b'0' c && leb c b'9') ≡ true = ground (arith, d.0) in
    let (value, p) =
      uint_loop-digits ds fuel (advanced b 1) ((acc * 10 + (c - b'0')) % u32_mod) u k more d.1 n
        (omega arith) in
    rw (peek, digit, skip, uint_loop) (value, Steps-trans (Steps-one b c (ds ++ u) h) p)

-- On the due comma, a run of digits and no further digit, sdo_read_uint returns the value of the
-- digits as a uint32_t and leaves the reader behind them with a comma due.
pub sdo_read_uint-Leaves :
    (r : Sdor) (ds u : Bytes)
    → IsReadable r.b
    → rest r.b ≡ separator r.need_comma ++ (ds ++ u)
    → AreDigits ds
    → NoDigit u
    → ((sdo_read_uint r).1 ≡ value_from 0 ds) × Leaves r (sdo_read_uint r).0 u true
unfolding sdo_read_uint
sdo_read_uint-Leaves r ds u k h d n =
    let (there, p) = read_comma-Leaves r (ds ++ u) h in
    let v = (read_comma r).0 in
    let readable : IsReadable v.b =
      omega (arith, p.steps.size_kept, k, ap (λ o. length (bytes_of o)) p.steps.block_kept) in
    let enough : length ds ≤ rounds_left v.b =
      omega (arith, rest-length v.b readable, ap length p.steps.left, length-append {0} ds u) in
    let (value, q) =
      uint_loop-digits ds (rounds_left v.b) v.b 0 u readable p.steps.left d n enough in
    (value, Leaves-trans p (Leaves-Steps v true q))
