-- ===== src/Wire.antt =====
-- Both halves of lib/sdoblockio.c together: what the writer puts into a message, the reader takes
-- out of it.
use mathlib.Core.Path.{subst}
use client_sdk.Base.{
  take_all, append_cancel, ◌-◌, ℕ, zero, suc, ◌/◌, ◌%◌, ◌≤◌, ◌<◌, ◌≡◌, ◌≢◌, ◌↔◌, refl, sym, ◌∙◌, ap,
  Bool, true, false, some, [], ◌∷◌, ◌++◌, append_assoc, arith, Bytes, All, All-append, length, take,
  Bool-cases, inl, inr,
}
use client_sdk.Decimal.{decimal, decimal-AreDigits, value_from-decimal, u32_mod}
use client_sdk.Env.{Env, c_string, hex_digit, Reliable, ComparesStrings}
use client_sdk.Block.Bounds.{text}
use client_sdk.Writer.{Sdow, is_special, sdo_write_uint, sdo_write_string, sdo_write_tag}
use client_sdk.Writer.Emit.{IsReady, separator, Emits}
use client_sdk.Writer.Numbers.{sdo_write_uint-Emits}
use client_sdk.Writer.Strings.{
  padded_char, padded, AreBytes, quoted_text, sdo_write_string-Emits, sdo_write_tag-Emits,
}
use client_sdk.Reader.{Sdor, sdo_read_uint, sdo_read_string}
use client_sdk.Reader.Fields.{sdo_read_expected_tag}
use client_sdk.Reader.Scan.{rest, IsReadable}
use client_sdk.Reader.Strings.{NoQuote, sdo_read_string-Leaves}
use client_sdk.Reader.Tags.{sdo_read_expected_tag-any}
use client_sdk.Reader.Values.{Leaves, NoDigit, sdo_read_uint-Leaves}

-- A reader is in step with a writer between `w` and `w'`: both owe a comma or neither does, and what
-- the reader has ahead is what was written since `w`, then `u`.
pub record InStep (w w' : Sdow) (r : Sdor) (u : Bytes) : Type 0 where
  pub readable : IsReadable r.b
  pub commas : r.need_comma ≡ w.need_comma
  pub sent : text w.b ++ rest r.b ≡ text w'.b ++ u

-- The reader's text, where what was written is known.
pub ahead :
    {w w' : Sdow} {r : Sdor} {u : Bytes} {c : Bool} (t : Bytes)
    → InStep w w' r u
    → Emits w w' (separator w.need_comma ++ t) c
    → rest r.b ≡ separator r.need_comma ++ (t ++ u)
ahead {w} {w'} {r} {u} t s p =
    append_cancel (text w.b) (rest r.b) ((separator w.need_comma ++ t) ++ u) (
      s.sent
      ∙ ap (λ x. x ++ u) p.appended
      ∙ append_assoc (text w.b) (separator w.need_comma ++ t) u)
    ∙ append_assoc (separator w.need_comma) t u
    ∙ ap (λ c. separator c ++ (t ++ u)) (sym s.commas)

-- An escaped character shows no quote.
hex_digit-ne : (d : ℕ) → d < 16 → hex_digit d ≢ b'"'
hex_digit-ne d h = ground arith

padded_char-NoQuote : (c : ℕ) → c < 256 → NoQuote (padded_char true c)
padded_char-NoQuote c h = elim (Bool-cases (is_special c)) [
  | inl special ↦
      rw special
        (omega (arith, hex_digit-ne (c / 16) (omega arith), hex_digit-ne (c % 16) (omega arith)))
  | inr plain ↦ rw plain (ground arith, tt)
]

padded-NoQuote : (s : Bytes) → AreBytes s → NoQuote (padded true (c_string s))
padded-NoQuote [] h = tt
padded-NoQuote (zero ∷ s) h = tt
padded-NoQuote (suc c ∷ s) h =
    All-append (λ x. x ≢ b'"') (padded_char true (suc c)) (padded true (c_string s))
      (padded_char-NoQuote (suc c) h.0) (padded-NoQuote s h.1)

-- Characters that are written as they are; none of them is the terminator.
abbrev pub IsPlain : Bytes → Type 0
IsPlain = All (λ c. is_special c ≡ false)

plain_unchanged : (s : Bytes) → IsPlain s → (c_string s ≡ s) × (padded true s ≡ s)
plain_unchanged [] h = (refl, refl)
plain_unchanged (zero ∷ s) h = cc (h.0)
plain_unchanged (suc c ∷ s) h =
    let (whole, same) = plain_unchanged s h.1 in (ap (λ t. suc c ∷ t) whole, rw (h.0, same))

plain-AreBytes : (s : Bytes) → IsPlain s → AreBytes s
plain-AreBytes [] h = tt
plain-AreBytes (c ∷ s) h = (ground (arith, h.0), plain-AreBytes s h.1)

module _ (e : Env) (ok : Reliable e) (w : Sdow) (r : Sdor) (u : Bytes) (ready : IsReady w) where
  -- A number below 2^32 that sdo_writeUInt writes is the number that sdo_read_uint reads, where no
  -- digit follows; the reader is left at the text behind it, and both sides then owe a comma. The
  -- environment is reliable and the reader is in step with the ready writer.
  pub uint_round_trip :
      (i : ℕ)
      → i < u32_mod
      → NoDigit u
      → InStep w (sdo_write_uint e w i) r u
      → ((sdo_read_uint r).1 ≡ i)
        × Leaves r (sdo_read_uint r).0 u true
        × ((sdo_write_uint e w i).need_comma ≡ true)
  uint_round_trip i h n s =
      let p = sdo_write_uint-Emits e ok w i ready h in
      let (value, q) =
        sdo_read_uint-Leaves r (decimal i) u s.readable (ahead (decimal i) s p)
          (decimal-AreDigits i) n in
      (value ∙ value_from-decimal i h, q, p.comma_is)

  -- What sdo_read_string reads of any string of bytes that sdo_write_string wrote is the escaped
  -- text: its length is returned, and as much of it as fits in front of the terminator is stored.
  -- The environment is reliable and the reader is in step with the ready writer.
  pub string_round_trip :
      (s : Bytes) (buf_sz : ℕ)
      → AreBytes s
      → InStep w (sdo_write_string e w s) r u
      → ((sdo_read_string r buf_sz).1 ≡ length (padded true (c_string s)))
        × ((sdo_read_string r buf_sz).2 ≡ some (take (buf_sz - 1) (padded true (c_string s))))
        × Leaves r (sdo_read_string r buf_sz).0 u true
  string_round_trip s buf_sz h st =
      let body = padded true (c_string s) in
      let p = sdo_write_string-Emits e ok w s ready h in
      sdo_read_string-Leaves r buf_sz body u st.readable
        (ahead (quoted_text s) st p
          ∙ ap (λ t. separator r.need_comma ++ b'"' ∷ t) (append_assoc body (b'"' ∷ []) u))
        (padded-NoQuote s h)

  -- A string of plain characters, shorter than the buffer, that sdo_write_string writes is read
  -- back unchanged by sdo_read_string, which leaves the reader at the text behind it with a comma
  -- due. The heap and the printing are reliable, the writer is ready, and the reader is in step
  -- with it.
  pub plain_round_trip :
      (s : Bytes) (buf_sz : ℕ)
      → IsPlain s
      → length s < buf_sz
      → InStep w (sdo_write_string e w s) r u
      → ((sdo_read_string r buf_sz).1 ≡ length s)
        × ((sdo_read_string r buf_sz).2 ≡ some s)
        × Leaves r (sdo_read_string r buf_sz).0 u true
  plain_round_trip s buf_sz h room st =
      let (whole, same) = plain_unchanged s h in
      let body : padded true (c_string s) ≡ s = ap (padded true) whole ∙ same in
      let (count, held, p) = string_round_trip s buf_sz (plain-AreBytes s h) st in
      (
        count ∙ ap length body,
        held ∙ ap some (ap (take (buf_sz - 1)) body ∙ take_all (buf_sz - 1) s (omega arith)),
        p,
      )

  -- Behind sdo_write_tag, for a plain tag of at most 31 characters, sdo_read_expected_tag succeeds
  -- exactly if the tag expected is, up to its terminator, the tag that was written, and it leaves
  -- the text behind the colon with no comma due. The environment is reliable, strings compare as
  -- documented, and the reader is in step with the ready writer.
  pub tag_round_trip :
      (tag expected : Bytes)
      → ComparesStrings e
      → IsPlain tag
      → length tag ≤ 31
      → InStep w (sdo_write_tag e w tag) r u
      → (((sdo_read_expected_tag e r expected).1 ≡ true) ↔ (tag ≡ c_string expected))
        × Leaves r (sdo_read_expected_tag e r expected).0 u false
  tag_round_trip tag expected cmp h room st =
      let (whole, same) = plain_unchanged tag h in
      let body : padded true (c_string tag) ≡ tag = ap (padded true) whole ∙ same in
      let p = sdo_write_tag-Emits e ok w tag ready (plain-AreBytes tag h) in
      let text_ahead : rest r.b ≡ separator r.need_comma ++ (b'"' ∷ (tag ++ b'"' ∷ b':' ∷ u)) =
        ahead (quoted_text tag ++ b':' ∷ []) st p
        ∙ ap (λ t. separator r.need_comma ++ (b'"' ∷ t)) (rw body (simp append_assoc)) in
      let short : c_string (take 31 tag) ≡ tag = ap c_string (take_all 31 tag room) ∙ whole in
      rw short at (
        sdo_read_expected_tag-any e r expected tag b':' u cmp st.readable text_ahead
          (subst NoQuote body (padded-NoQuote tag (plain-AreBytes tag h))))
