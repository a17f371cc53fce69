-- ===== src/Reader/Strings.antt =====
-- Strings and tags of lib/sdoblockio.c's reader: what is taken, stored and counted.
use client_sdk.Base.{
  lt→ltb, suc-sub_one, ℕ, zero, suc, ◌+◌, ◌-◌, ◌<◌, ◌≡◌, ◌≢◌, refl, sym, ◌∙◌, ap, true, some, [],
  ◌∷◌, ◌++◌, append_assoc, append-nil, arith, Bytes, All, length, take, length-append, ltb, ne→==,
  eq→==, if◌then◌else◌,
}
use client_sdk.Env.{bytes_of}
use client_sdk.Block.{Block}
use client_sdk.Block.Bounds.{advanced}
use client_sdk.Writer.Emit.{separator}
use client_sdk.Reader.{
  Sdor, read_expected_char, read_comma, rounds_left, string_loop, sdo_read_string,
}
use client_sdk.Reader.Scan.{rest, rest-cons, IsReadable, rest-length}
use client_sdk.Reader.Values.{
  Steps, Steps-trans, Steps-one, Leaves, Leaves-trans, Leaves-Steps, read_expected_char-Leaves,
  read_comma-Leaves,
}

-- The text has no quote in it.
abbrev pub NoQuote : Bytes → Type 0
NoQuote = All (λ c. c ≢ b'"')

take-nil : (room : ℕ) → take {A = ℕ} room [] ≡ []
take-nil zero = refl
take-nil (suc room) = refl

-- One more character is stored where there is room.
store-take :
    (room : ℕ) (stored : Bytes) (c : ℕ) (s : Bytes)
    → (if ltb 0 room then stored ++ c ∷ [] else stored) ++ take (room - 1) s
      ≡ stored ++ take room (c ∷ s)
store-take zero stored c s = refl
store-take (suc room) stored c s =
    rw (lt→ltb 0 (suc room) (omega arith), suc-sub_one room)
      (append_assoc stored (c ∷ []) (take room s))

-- The loop takes the string up to its quote: it counts all characters, and stores those that fit.
pub string_loop-Steps :
    (s : Bytes) (fuel : ℕ) (b : Block) (room n : ℕ) (stored u : Bytes)
    → rest b ≡ s ++ b'"' ∷ u
    → NoQuote s
    → length s < fuel
    → ((string_loop fuel b room n stored).1 ≡ n + length s)
      × ((string_loop fuel b room n stored).2 ≡ stored ++ take room s)
      × Steps b (string_loop fuel b room n stored).0 u
unfolding string_loop
string_loop-Steps s zero b room n stored u h q f = absurd (omega arith)
string_loop-Steps [] (suc fuel) b room n stored u h q f =
    let get = (rest-cons b b'"' u h).0 in
    rw (get, string_loop, get)
      (
        omega arith,
        sym (append-nil stored) ∙ ap (λ t. stored ++ t) (sym (take-nil room)),
        Steps-one b b'"' u h,
      )
string_loop-Steps (c ∷ s) (suc fuel) b room n stored u h q f =
    let (get, _, _, more, _) = rest-cons b c (s ++ b'"' ∷ u) h in
    let kept = if ltb 0 room then stored ++ c ∷ [] else stored in
    let (count, held, p) =
      string_loop-Steps s fuel (advanced b 1) (room - 1) (n + 1) kept u more q.1 (omega arith) in
    rw (get, ne→== c b'"' q.0, string_loop, get)
      (
        omega (arith, count),
        held ∙ store-take room stored c s,
        Steps-trans (Steps-one b c (s ++ b'"' ∷ u) h) p,
      )

-- On the due comma and a quoted text, sdo_read_string returns the full length, stores what fits in
-- front of the terminator even where the buffer is shorter, and leaves the reader behind the
-- closing quote with a comma due.
pub sdo_read_string-Leaves :
    (r : Sdor) (buf_sz : ℕ) (s u : Bytes)
    → IsReadable r.b
    → rest r.b ≡ separator r.need_comma ++ (b'"' ∷ (s ++ b'"' ∷ u))
    → NoQuote s
    → ((sdo_read_string r buf_sz).1 ≡ length s)
      × ((sdo_read_string r buf_sz).2 ≡ some (take (buf_sz - 1) s))
      × Leaves r (sdo_read_string r buf_sz).0 u true
unfolding sdo_read_string
sdo_read_string-Leaves r buf_sz s u k h q =
    let (there, p) = read_comma-Leaves r (b'"' ∷ (s ++ b'"' ∷ u)) h in
    let v = (read_comma r).0 in
    let (same, o) = read_expected_char-Leaves v b'"' b'"' (s ++ b'"' ∷ u) p.steps.left in
    let w = (read_expected_char v b'"').0 in
    let readable : IsReadable w.b = omega (
      arith,
      p.steps.size_kept,
      o.steps.size_kept,
      k,
      ap (λ x. length (bytes_of x)) p.steps.block_kept,
      ap (λ x. length (bytes_of x)) o.steps.block_kept,
    ) in
    let enough : length s < rounds_left w.b =
      omega
        (arith, rest-length w.b readable, ap length o.steps.left, length-append {0} s (b'"' ∷ u)) in
    let (count, held, loop) =
      string_loop-Steps s (rounds_left w.b) w.b (buf_sz - 1) 0 [] u o.steps.left q enough in
    rw (there, same ∙ eq→== b'"' b'"' refl)
      (
        count ∙ omega arith,
        ap some held,
        Leaves-trans p (Leaves-trans o (Leaves-Steps w true loop)),
      )
