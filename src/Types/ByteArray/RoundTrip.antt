-- ===== src/Types/ByteArray/RoundTrip.antt =====
-- lib/sdotypes.c and lib/sdoblockio.c: a byte array that is written as a base64 text and read back.
use client_sdk.Base.{
  ℕ, zero, suc, ◌+◌, ◌*◌, ◌/◌, ◌≤◌, ◌<◌, ◌≡◌, refl, ◌∙◌, ap, true, some, [], ◌∷◌, ◌++◌,
  append_assoc, arith, Bytes, false, length, take_all, subst, ◌==◌,
}
use client_sdk.Env.{Env, Reliable}
use client_sdk.Base64.{
  b64_to_bin, b64_to_bin_length, bin_to_b64, bin_to_b64_length, b64_to_bin_length-bin_to_b64_length,
}
use client_sdk.Writer.{Sdow}
use client_sdk.Writer.Arrays.{encoded}
use client_sdk.Writer.Emit.{IsReady, separator}
use client_sdk.Writer.Numbers.{field_text, sdo_write_byte_array_field-Emits}
use client_sdk.Reader.{Sdor}
use client_sdk.Reader.Encoded.{sdo_read_byte_array_field-Leaves}
use client_sdk.Reader.Fields.{sdo_read_byte_array_field}
use client_sdk.Reader.Scan.{rest}
use client_sdk.Reader.Strings.{NoQuote}
use client_sdk.Reader.Tags.{sdo_read_string_sz_lem}
use client_sdk.Reader.Values.{Leaves}
use client_sdk.Wire.{InStep, ahead}
use client_sdk.Types.ByteArray.{ByteArray, sdo_byte_array_read_chars, sdo_byte_array_write_chars}

-- The codec gives some bytes a text of the length of base64, without quotes, where there is room for
-- it and a terminator, and takes that text back to the bytes, where there is room for them.
pub record Codes (e : Env) (bs t : Bytes) : Type 0 where
  pub size : length t ≡ bin_to_b64_length (length bs)
  pub no_quote : NoQuote t
  pub encodes : e.bio_encode bs (bin_to_b64_length (length bs) + 1) ≡ some t
  pub decodes : (room : ℕ) → length bs ≤ room → e.bio_decode t room ≡ some bs

abbrev pub array_of : Bytes → ByteArray
array_of bs = record { byte_sz = length bs; bytes = some bs }

size_pos : (n : ℕ) → 0 < n → 0 < b64_to_bin_length (bin_to_b64_length n)
unfolding b64_to_bin_length bin_to_b64_length
size_pos n h = ground arith

text_long : (n : ℕ) → 0 < n → (bin_to_b64_length n / 4 * 4 == 0) ≡ false
unfolding bin_to_b64_length
text_long n h = ground arith

module _ (e : Env) (bs t : Bytes) (some_bytes : 0 < length bs) (codes : Codes e bs t) where
  encodes_n :
      (n room : ℕ) → 0 < n → length bs ≤ n → bin_to_b64 e n (some bs) room ≡ e.bio_encode bs room
  unfolding bin_to_b64
  encodes_n zero room h k = absurd (omega arith)
  encodes_n (suc n) room h k = rw (take_all (suc n) bs k, bin_to_b64)

  encoded-text :
      encoded (bin_to_b64 e (length bs) (some bs) (bin_to_b64_length (length bs) + 1)) ≡ t
  encoded-text =
      rw
        (
          encodes_n (length bs) (bin_to_b64_length (length bs) + 1) some_bytes (omega arith),
          codes.encodes,
        )
        refl

  decoded : (room : ℕ) → length bs ≤ room → b64_to_bin e (length t) t 0 room ≡ some bs
  unfolding b64_to_bin
  decoded zero h = absurd (omega arith)
  decoded (suc room) h =
      rw
        (
          codes.size,
          text_long (length bs) some_bytes,
          take_all (bin_to_b64_length (length bs)) t (omega (arith, codes.size)),
        )
        (codes.decodes (suc room) h)

  -- A byte array that sdo_byte_array_write_chars writes is the byte array that
  -- sdo_byte_array_read_chars reads, whatever the array held, and the reader is left at the text
  -- behind it with a comma due. The codec takes the bytes to a quote-free text of the length of
  -- base64 and back, the array is not empty, the environment is reliable, the writer is ready, and
  -- the reader is in step with it.
  pub chars_round_trip :
      (ok : Reliable e) (w : Sdow) (r : Sdor) (u : Bytes) (old : ByteArray)
      → IsReady w
      → InStep w (sdo_byte_array_write_chars e w (array_of bs)) r u
      → ((sdo_byte_array_read_chars e r old).1 ≡ array_of bs)
        × ((sdo_byte_array_read_chars e r old).2 ≡ length bs)
        × Leaves r (sdo_byte_array_read_chars e r old).0 u true
  unfolding sdo_byte_array_read_chars sdo_byte_array_write_chars
  chars_round_trip ok w r u old ready st =
      let p = sdo_write_byte_array_field-Emits e ok w (some bs) (length bs) ready in
      let text_ahead : rest r.b ≡ separator r.need_comma ++ (b'"' ∷ (t ++ (b'"' ∷ u))) =
        ahead (field_text e (some bs) (length bs)) st p
        ∙ ap (λ (x : Bytes). separator r.need_comma ++ (b'"' ∷ ((x ++ b'"' ∷ []) ++ u)))
            encoded-text
        ∙ ap (λ (x : Bytes). separator r.need_comma ++ (b'"' ∷ x)) (append_assoc t (b'"' ∷ []) u) in
      let n = bin_to_b64_length (length bs) in
      let room = b64_to_bin_length n in
      let fits = b64_to_bin_length-bin_to_b64_length (length bs) in
      let nonzero : (room == 0) ≡ false = ground (arith, size_pos (length bs) some_bytes) in
      let got = sdo_read_byte_array_field-Leaves e t u bs r room text_ahead (decoded room fits) in
      let (value, p') =
        subst
          (λ (k : ℕ).
            ((sdo_read_byte_array_field e r k room).1 ≡ bs)
            × Leaves r (sdo_read_byte_array_field e r k room).0 u true)
          codes.size got in
      rw
        (
          sdo_read_string_sz_lem r t u st.readable text_ahead codes.no_quote,
          codes.size,
          nonzero,
          ok.allocates room,
          value,
        )
        (refl, refl, p')
