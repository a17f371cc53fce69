-- ===== src/Reader/Encoded.antt =====
-- The base64 fields of lib/sdoblockio.c's reader.
use client_sdk.Base.{
  ℕ, zero, suc, ◌+◌, ◌≡◌, refl, ◌∙◌, true, some, [], ◌∷◌, ◌++◌, arith, Bytes, length, take,
  take_all, drop, subst, eq→==,
}
use client_sdk.Env.{Env, bytes_of}
use client_sdk.Base64.{b64_to_bin}
use client_sdk.Writer.Emit.{separator}
use client_sdk.Reader.{Sdor, read_comma, read_expected_char}
use client_sdk.Reader.Fields.{sdo_read_byte_array_field, field_body}
use client_sdk.Reader.Scan.{rest}
use client_sdk.Reader.Values.{
  Steps, Leaves, Leaves-trans, Leaves-Steps, Leaves-comma, read_expected_char-Leaves,
  read_comma-Leaves,
}

-- The text ahead, as the codec is given it.
take_ahead :
    (s t : Bytes) (i n : ℕ) (xs : Bytes)
    → drop i (take n xs) ≡ s ++ t
    → take (length s) (drop i xs) ≡ s
take_ahead [] t i n xs h = refl
take_ahead (c ∷ s) t zero zero xs h = cc
take_ahead (c ∷ s) t zero (suc n) [] h = cc
take_ahead (c ∷ s) t zero (suc n) (x ∷ xs) h =
    let same : x ≡ c = cc in rw (same, take_ahead s t zero n xs (cc)) refl
take_ahead (c ∷ s) t (suc i) zero xs h = cc
take_ahead (c ∷ s) t (suc i) (suc n) [] h = cc
take_ahead (c ∷ s) t (suc i) (suc n) (x ∷ xs) h = take_ahead (c ∷ s) t i n xs h

drop_cons : (i c : ℕ) (u xs : Bytes) → drop i xs ≡ c ∷ u → drop (suc i) xs ≡ u
drop_cons zero c u [] h = cc
drop_cons zero c u (x ∷ xs) h = cc
drop_cons (suc i) c u [] h = cc
drop_cons (suc i) c u (x ∷ xs) h = drop_cons i c u xs h

-- The text behind a part of it.
drop_part :
    (s t : Bytes) (i k : ℕ) (xs : Bytes) → k ≡ i + length s → drop i xs ≡ s ++ t → drop k xs ≡ t
drop_part [] t i k xs at h =
    let same : i ≡ k = omega (arith, at) in subst (λ (j : ℕ). drop j xs ≡ t) same h
drop_part (c ∷ s) t i k xs at h =
    drop_part s t (suc i) k xs (omega (arith, at)) (drop_cons i c (s ++ t) xs h)

module _ (e : Env) (s u bs : Bytes) where
  -- The codec sees the text alone.
  decoded_ahead :
      (i n room : ℕ) (xs : Bytes)
      → drop i (take n xs) ≡ s ++ (b'"' ∷ u)
      → b64_to_bin e (length s) xs i room ≡ b64_to_bin e (length s) s 0 room
  unfolding b64_to_bin
  decoded_ahead i n zero xs h = refl
  decoded_ahead i n (suc room) xs h =
      rw (take_ahead s (b'"' ∷ u) i n xs h, take_all (length s) s (omega arith)) refl

  field_body-Leaves :
      (r : Sdor)
      → rest r.b ≡ s ++ (b'"' ∷ u)
      → ((field_body e r (length s) (some bs)).1 ≡ bs)
        × Leaves r (field_body e r (length s) (some bs)).0 u true
  unfolding field_body
  field_body-Leaves r h =
      let b = record (r.b) { cursor = r.b.cursor + length s } in
      let moved : Steps r.b b (b'"' ∷ u) = record {
        left =
            drop_part s (b'"' ∷ u) r.b.cursor (r.b.cursor + length s)
              (take r.b.block_size (bytes_of r.b.block)) refl h;
        block_kept = refl;
        size_kept = refl;
        max_kept = refl;
      } in
      let p = Leaves-Steps r r.need_comma moved in
      let (same, q) = read_expected_char-Leaves (record r { b = b }) b'"' b'"' u moved.left in
      rw (same ∙ eq→== b'"' b'"' refl) (refl, Leaves-comma true (Leaves-trans p q))

  -- done
  pub sdo_read_byte_array_field-Leaves :
      (r : Sdor) (buf_sz : ℕ)
      → rest r.b ≡ separator r.need_comma ++ (b'"' ∷ (s ++ (b'"' ∷ u)))
      → b64_to_bin e (length s) s 0 buf_sz ≡ some bs
      → ((sdo_read_byte_array_field e r (length s) buf_sz).1 ≡ bs)
        × Leaves r (sdo_read_byte_array_field e r (length s) buf_sz).0 u true
  unfolding sdo_read_byte_array_field
  sdo_read_byte_array_field-Leaves r buf_sz h d =
      let (there, p) = read_comma-Leaves r (b'"' ∷ (s ++ (b'"' ∷ u))) h in
      let v = (read_comma r).0 in
      let (same, q) = read_expected_char-Leaves v b'"' b'"' (s ++ (b'"' ∷ u)) p.steps.left in
      let w = (read_expected_char v b'"').0 in
      let given =
        decoded_ahead w.b.cursor w.b.block_size buf_sz (bytes_of w.b.block) q.steps.left in
      let (got, o) = field_body-Leaves w q.steps.left in
      rw (there, same ∙ eq→== b'"' b'"' refl, given ∙ d) (got, Leaves-trans p (Leaves-trans q o))
