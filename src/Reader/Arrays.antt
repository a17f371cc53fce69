-- ===== src/Reader/Arrays.antt =====
-- The look-ahead over nested arrays in lib/sdoblockio.c: what it copies, and where it stops.
use mathlib.Core.Path.{subst}
use client_sdk.Base.{
  ℕ, zero, suc, ◌+◌, ◌<◌, ◌≡◌, ◌≢◌, refl, ap, Bool, true, false, Option, none, some, [], ◌∷◌, ◌++◌,
  append_assoc, arith, Bytes, All, length, length-append, ◌==◌, ne→==, if◌then◌else◌,
}
use client_sdk.Block.{Block}
use client_sdk.Block.Bounds.{advanced}
use client_sdk.Reader.{Sdor, rounds_left}
use client_sdk.Reader.Fields.{
  ends_array, waits, array_loop, stepped_back, put_back, sdo_read_array_no_state_change,
  sdo_read_array_sz,
}
use client_sdk.Reader.Scan.{rest, rest-cons, rest-nil, IsReadable, rest-length}
use client_sdk.Reader.Values.{Steps, Steps-refl, Steps-trans, Steps-one}

abbrev pub NoBracket : Bytes → Type 0
NoBracket = All (λ c. c ≢ b']')

-- What the loop gives back: the characters copied, and the text left.
record Copied (b : Block) (got : Block × Option Bytes) (chars u : Bytes) : Type 0 where
  chars_are : got.1 ≡ some chars
  steps : Steps b got.0 u

Copied-step :
    {b : Block} {got : Block × Option Bytes} {chars u : Bytes} (c : ℕ) (t : Bytes)
    → rest b ≡ c ∷ t
    → Copied (advanced b 1) got chars u
    → Copied b got chars u
Copied-step {b} c t h p = record {
  chars_are = p.chars_are;
  steps = Steps-trans (Steps-one b c t h) p.steps;
}

-- Behind the first bracket the loop stops at the next one.
array_loop-second :
    (m : Bytes) (fuel : ℕ) (b : Block) (chars u : Bytes)
    → rest b ≡ m ++ b']' ∷ u
    → NoBracket m
    → length m < fuel
    → Copied b (array_loop fuel b true chars) (chars ++ (m ++ b']' ∷ [])) u
unfolding array_loop
array_loop-second m zero b chars u h q f = absurd (omega arith)
array_loop-second [] (suc fuel) b chars u h q f =
    let get = (rest-cons b b']' u h).0 in
    rw (get, array_loop, get) (record { chars_are = refl; steps = Steps-one b b']' u h })
array_loop-second (c ∷ m) (suc fuel) b chars u h q f =
    let (get, _, _, more, _) = rest-cons b c (m ++ b']' ∷ u) h in
    let rec = array_loop-second m fuel (advanced b 1) (chars ++ c ∷ []) u more q.1 (omega arith) in
    rw (get, ne→== c b']' q.0, array_loop, get)
      (Copied-step c (m ++ b']' ∷ u) h (rw (append_assoc chars (c ∷ []) (m ++ b']' ∷ [])) at rec))

array_loop-first :
    (s m : Bytes) (fuel : ℕ) (b : Block) (chars u : Bytes)
    → rest b ≡ s ++ b']' ∷ (m ++ b']' ∷ u)
    → NoBracket s
    → NoBracket m
    → length s + length m + 1 < fuel
    → Copied b (array_loop fuel b false chars) (chars ++ (s ++ b']' ∷ (m ++ b']' ∷ []))) u
unfolding array_loop
array_loop-first s m zero b chars u h q k f = absurd (omega arith)
array_loop-first [] m (suc fuel) b chars u h q k f =
    let (get, _, _, more, _) = rest-cons b b']' (m ++ b']' ∷ u) h in
    let rec = array_loop-second m fuel (advanced b 1) (chars ++ b']' ∷ []) u more k (omega arith) in
    rw (get, array_loop, get)
      (Copied-step b']' (m ++ b']' ∷ u) h
        (rw (append_assoc chars (b']' ∷ []) (m ++ b']' ∷ [])) at rec))
array_loop-first (c ∷ s) m (suc fuel) b chars u h q k f =
    let (get, _, _, more, _) = rest-cons b c (s ++ b']' ∷ (m ++ b']' ∷ u)) h in
    let rec =
      array_loop-first s m fuel (advanced b 1) (chars ++ c ∷ []) u more q.1 k (omega arith) in
    rw (get, ne→== c b']' q.0, array_loop, get, ne→== c b']' q.0)
      (Copied-step c (s ++ b']' ∷ (m ++ b']' ∷ u)) h
        (rw (append_assoc chars (c ∷ []) (s ++ b']' ∷ (m ++ b']' ∷ []))) at rec))

put_back-some :
    (r : Sdor) (got : Block × Option Bytes) (chars : Bytes)
    → got.1 ≡ some chars
    → got.0.block ≡ r.b.block
    → got.0.block_size ≡ r.b.block_size
    → got.0.block_max ≡ r.b.block_max
    → put_back r got ≡ (r, some chars)
unfolding put_back
put_back-some r (b, none) chars h x y z = cc
put_back-some r (b, some cs) chars h x y z = ground arith

put_back-none :
    (r : Sdor) (got : Block × Option Bytes)
    → got.1 ≡ none
    → put_back r got ≡ (record r { b = got.0 }, none)
unfolding put_back
put_back-none r (b, none) h = refl
put_back-none r (b, some cs) h = cc

-- From the opening bracket that has been read, with text that holds two closing brackets,
-- sdo_read_array_no_state_change gives the characters up to the second one and leaves the reader
-- unchanged.
pub sdo_read_array_no_state_change_lem :
    (r : Sdor) (s m u : Bytes)
    → IsReadable r.b
    → rest (stepped_back r.b) ≡ s ++ b']' ∷ (m ++ b']' ∷ u)
    → NoBracket s
    → NoBracket m
    → sdo_read_array_no_state_change r ≡ (r, some (s ++ b']' ∷ (m ++ b']' ∷ [])))
unfolding sdo_read_array_no_state_change
sdo_read_array_no_state_change_lem r s m u k h q n =
    let from = stepped_back r.b in
    let enough : length s + length m + 1 < rounds_left from = omega (
      arith,
      rest-length from k,
      ap length h,
      length-append {0} s (b']' ∷ (m ++ b']' ∷ u)),
      length-append {0} m (b']' ∷ u),
    ) in
    let p = array_loop-first s m (rounds_left from) from [] u h q n enough in
    put_back-some r _ _ p.chars_are p.steps.block_kept p.steps.size_kept p.steps.max_kept

-- How often the closing bracket stands in a text.
abbrev pub brackets : Bytes → ℕ
brackets [] = 0
brackets (c ∷ t) = (if c == b']' then 1 else 0) + brackets t

array_loop-short :
    (t : Bytes) (fuel : ℕ) (b : Block) (waiting : Bool) (chars : Bytes)
    → IsReadable b
    → rest b ≡ t
    → (if waiting then 1 else 0) + brackets t < 2
    → length t < fuel
    → ((array_loop fuel b waiting chars).1 ≡ none) × Steps b (array_loop fuel b waiting chars).0 []
unfolding array_loop
array_loop-short t zero b waiting chars k h n f = absurd (omega arith)
array_loop-short [] (suc fuel) b waiting chars k h n f =
    let get = (rest-nil b k h).0 in
    rw (get, array_loop) (refl, subst (λ v. Steps b b v) h (Steps-refl b))
array_loop-short (c ∷ t) (suc fuel) b waiting chars k h n f =
    let (get, _, _, more, _) = rest-cons b c t h in
    let goes_on : ends_array c waiting ≡ false = ground arith in
    let (gone, p) =
      array_loop-short t fuel (advanced b 1) (waits c waiting) (chars ++ c ∷ []) k more
        (ground arith) (omega arith) in
    rw (get, goes_on, array_loop, get) (gone, Steps-trans (Steps-one b c t h) p)

-- Where fewer than two closing brackets are ahead, sdo_read_array_sz returns -1 and leaves the
-- cursor at the end of the text, so that nothing is left to read.
pub sdo_read_array_sz_short :
    (r : Sdor)
    → IsReadable r.b
    → brackets (rest (stepped_back r.b)) < 2
    → ((sdo_read_array_sz r).1 ≡ none) × (rest (sdo_read_array_sz r).0.b ≡ [])
unfolding sdo_read_array_sz
sdo_read_array_sz_short r k n =
    let from = stepped_back r.b in
    let (gone, p) =
      array_loop-short (rest from) (rounds_left from) from false [] k refl (omega arith)
        (omega (arith, rest-length from k)) in
    rw (put_back-none r (array_loop (rounds_left from) from false []) gone) (refl, p.left)
