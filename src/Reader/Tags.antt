-- ===== src/Reader/Tags.antt =====
-- Tags, and the length of a string ahead, as lib/sdoblockio.c's reader takes them.
use mathlib.Core.Path.{subst}
use client_sdk.Base.{
  Bool-cases, inl, inr, ℕ, zero, suc, ◌≤◌, ◌<◌, ◌≡◌, ◌↔◌, ◌∙◌, true, false, [], ◌∷◌, ◌++◌, arith,
  Bytes, length, take, length-take, ◌==◌, if◌then◌else◌,
}
use client_sdk.Env.{Env, c_string, ComparesStrings}
use client_sdk.Writer.Emit.{separator}
use client_sdk.Reader.{Sdor, read_expected_char, sdo_read_string, sdo_read_string_sz}
use client_sdk.Reader.Fields.{sdo_tag_max_len, sdo_read_expected_tag}
use client_sdk.Reader.Scan.{rest, IsReadable}
use client_sdk.Reader.Strings.{NoQuote, sdo_read_string-Leaves}
use client_sdk.Reader.Values.{Leaves, Leaves-trans, Leaves-comma, read_expected_char-Leaves}

length-c_string : (s : Bytes) → length (c_string s) ≤ length s
length-c_string [] = omega arith
length-c_string (zero ∷ s) = omega arith
length-c_string (suc c ∷ s) = omega (arith, length-c_string s)

-- On the due comma and a quoted text, sdo_read_string_sz returns the length of the text and leaves
-- the whole reader unchanged.
pub sdo_read_string_sz_lem :
    (r : Sdor) (s u : Bytes)
    → IsReadable r.b
    → rest r.b ≡ separator r.need_comma ++ (b'"' ∷ (s ++ b'"' ∷ u))
    → NoQuote s
    → sdo_read_string_sz r ≡ (r, length s)
unfolding sdo_read_string_sz
sdo_read_string_sz_lem r s u k h q =
    let (count, _, p) = sdo_read_string-Leaves r 1 s u k h q in
    ground (
      arith, p.steps.block_kept, p.steps.size_kept, p.steps.max_kept, p.have_kept, p.type_kept,
      p.receive_kept,
    )

-- On a quoted text followed by any character, sdo_read_expected_tag succeeds exactly if the first
-- 31 characters of the text are the tag expected, up to terminators, and it takes the character
-- whether or not it is a colon; only behind a colon is no comma due. Strings compare as
-- documented.
pub sdo_read_expected_tag-any :
    (e : Env) (r : Sdor) (tag s : Bytes) (x : ℕ) (u : Bytes)
    → ComparesStrings e
    → IsReadable r.b
    → rest r.b ≡ separator r.need_comma ++ (b'"' ∷ (s ++ b'"' ∷ x ∷ u))
    → NoQuote s
    → (((sdo_read_expected_tag e r tag).1 ≡ true) ↔ (c_string (take 31 s) ≡ c_string tag))
      × Leaves r (sdo_read_expected_tag e r tag).0 u (if x == b':' then false else true)
unfolding sdo_read_expected_tag
sdo_read_expected_tag-any e r tag s x u cmp k h q =
    let (count, held, p) = sdo_read_string-Leaves r sdo_tag_max_len s (x ∷ u) k h q in
    let got = (sdo_read_string r sdo_tag_max_len).0 in
    let (colon, o) = read_expected_char-Leaves got x b':' u p.steps.left in
    let short : length (c_string (take 31 s)) < 32 =
      omega (arith, length-c_string (take 31 s), length-take {0} 31 s) in
    elim (Bool-cases (x == b':')) [
      | inl yes_colon ↦
          rw (colon ∙ yes_colon, yes_colon, held)
            (cmp (take 31 s) 32 tag short, Leaves-comma false (Leaves-trans p o))
      | inr no_colon ↦
          rw (colon ∙ no_colon, no_colon, held)
            (
              cmp (take 31 s) 32 tag short,
              subst (λ d. Leaves r (read_expected_char got b':').0 u d) p.comma_is
                  (Leaves-trans p o),
            )
    ]
