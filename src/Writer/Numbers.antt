-- ===== src/Writer/Numbers.antt =====
-- Numbers and byte arrays of lib/sdoblockio.c's writer: the text that each appends.
use client_sdk.Base.{
  ℕ, zero, suc, ◌+◌, ◌<◌, ◌≡◌, refl, ap, Bool, true, false, ◌&&◌, Option, none, [], ◌∷◌, ◌++◌,
  append_assoc, arith, Bytes, ltb, if◌then◌else◌,
}
use client_sdk.Decimal.{decimal, AreDigits, decimal-AreDigits, u32_mod}
use client_sdk.Env.{Env, c_string, Reliable}
use client_sdk.Base64.{bin_to_b64_length, bin_to_b64}
use client_sdk.Block.{Block, sdo_b_put_c}
use client_sdk.Block.Bounds.{IsValid, Puts, Puts-refl, Puts-trans, sdo_b_put_c-Puts}
use client_sdk.Writer.{Sdow, write_comma, sdo_write_uint}
use client_sdk.Writer.Arrays.{
  encoded, put_all, sdo_write_byte_array_field, field_or_empty, sdo_write_byte_array,
  sdo_write_byte_array_one_int, is_set,
}
use client_sdk.Writer.Emit.{
  IsReady, Emits, Emits-trans, Emits-Puts, Emits-raised, Emits-as, Emits-next, comma-next,
  separator, write_comma-Emits, sdow_begin_sequence-Emits, sdow_end_sequence-Emits,
}
use client_sdk.Writer.Strings.{
  padded, AreBytes, padstring-Emits, quoted_text, sdo_write_string-Emits,
}

-- Digits hold no terminator, and nothing in them is escaped.
digits_plain : (s : Bytes) → AreDigits s → padded false (c_string s) ≡ s
digits_plain [] h = refl
digits_plain (zero ∷ s) h = absurd (omega (arith, h.0))
digits_plain (suc c ∷ s) h = ap (λ t. suc c ∷ t) (digits_plain s h.1)

digits-AreBytes : (s : Bytes) → AreDigits s → AreBytes s
digits-AreBytes [] h = tt
digits-AreBytes (c ∷ s) h = (omega (arith, h.0), digits-AreBytes s h.1)

-- The base64 text of a byte array, in quotes.
abbrev pub field_text : Env → Option Bytes → ℕ → Bytes
field_text e bufp n = b'"' ∷ (encoded (bin_to_b64 e n bufp (bin_to_b64_length n + 1)) ++ b'"' ∷ [])

-- The bytes of an array, or the empty string where there are none.
abbrev pub element_text : Env → Bool → Option Bytes → ℕ → Bytes
element_text e full bufp n = if full then field_text e bufp n else quoted_text []

-- `[n,"…"]`
abbrev pub byte_array_text : Env → Option Bytes → ℕ → Bytes
byte_array_text e bufp n =
    b'[' ∷ (decimal n ++ (b',' ∷ (element_text e (ltb 0 n) bufp n ++ b']' ∷ [])))

-- `[n,val1,"…"]`
abbrev pub one_int_text : Env → ℕ → Option Bytes → ℕ → Bytes
one_int_text e val1 bufp n =
    b'['
    ∷ (decimal n
        ++ (b','
            ∷ (decimal val1
                ++ (b',' ∷ (element_text e (ltb 0 n && is_set bufp) bufp n ++ b']' ∷ [])))))

module _ (e : Env) (ok : Reliable e) where
  -- A number, with its comma.
  pub sdo_write_uint-Emits :
      (w : Sdow) (i : ℕ)
      → IsReady w
      → i < u32_mod
      → Emits w (sdo_write_uint e w i) (separator w.need_comma ++ decimal i) true
  unfolding sdo_write_uint
  sdo_write_uint-Emits w i r h =
      let p = write_comma-Emits e ok w r in
      let v = write_comma e w in
      let digits = decimal-AreDigits i in
      let q =
        padstring-Emits e ok v (decimal i) none false p.ready.valid (omega (arith, p.ready.level))
          (digits-AreBytes (decimal i) digits) in
      rw (ok.prints_unsigned i h) (
        Emits-trans (separator w.need_comma) (decimal i) p
          (Emits-raised true (Emits-as (decimal i) (digits_plain (decimal i) digits) q)))

  put_all-Puts : (b : Block) (cs : Bytes) → IsValid b → Puts b (put_all e b cs) cs
  unfolding put_all
  put_all-Puts b [] v = Puts-refl v
  put_all-Puts b (c ∷ cs) v =
      let p = sdo_b_put_c-Puts e ok.grows b c v in
      Puts-trans (c ∷ []) cs p (put_all-Puts (sdo_b_put_c e b c) cs p.valid)

  -- A base64 field, with its comma and its quotes.
  pub sdo_write_byte_array_field-Emits :
      (w : Sdow) (bufp : Option Bytes) (n : ℕ)
      → IsReady w
      → Emits w
          (sdo_write_byte_array_field e w bufp n)
          (separator w.need_comma ++ field_text e bufp n)
          true
  unfolding sdo_write_byte_array_field
  sdo_write_byte_array_field-Emits w bufp n r =
      let p = write_comma-Emits e ok w r in
      let v = write_comma e w in
      let body = encoded (bin_to_b64 e n bufp (bin_to_b64_length n + 1)) in
      let q = sdo_b_put_c-Puts e ok.grows v.b b'"' p.ready.valid in
      let filled = put_all-Puts (sdo_b_put_c e v.b b'"') body q.valid in
      let whole = put_all e (sdo_b_put_c e v.b b'"') body in
      let closed = sdo_b_put_c-Puts e ok.grows whole b'"' filled.valid in
      rw (ok.allocates (bin_to_b64_length n + 1)) (
        Emits-trans (separator w.need_comma) (field_text e bufp n) p (
          Emits-Puts v true (omega (arith, p.ready.level)) (
            Puts-trans (b'"' ∷ []) (body ++ b'"' ∷ []) q
              (Puts-trans body (b'"' ∷ []) filled closed))))

  field_or_empty-Emits :
      (w : Sdow) (full : Bool) (bufp : Option Bytes) (n : ℕ)
      → IsReady w
      → Emits w
          (field_or_empty e w full bufp n)
          (separator w.need_comma ++ element_text e full bufp n)
          true
  unfolding field_or_empty
  field_or_empty-Emits w true bufp n r = sdo_write_byte_array_field-Emits w bufp n r
  field_or_empty-Emits w false bufp n r = sdo_write_string-Emits e ok w [] r tt

  -- sdo_write_byte_array appends the due comma and then the length, a comma and the base64 text of
  -- the bytes in brackets, keeps the block well-formed, and leaves a comma due, for a length below
  -- 2^32, a ready writer and a reliable environment.
  pub sdo_write_byte_array-Emits :
      (w : Sdow) (bufp : Option Bytes) (n : ℕ)
      → IsReady w
      → n < u32_mod
      → Emits w
          (sdo_write_byte_array e w bufp n)
          (separator w.need_comma ++ byte_array_text e bufp n)
          true
  unfolding sdo_write_byte_array
  sdo_write_byte_array-Emits w bufp n r h =
      let begun = sdow_begin_sequence-Emits e ok w r in
      let numbered = Emits-next _ (decimal n) begun (sdo_write_uint-Emits _ n begun.ready h) in
      let sized = comma-next e ok _ numbered in
      let filled =
        Emits-next _ (element_text e (ltb 0 n) bufp n) sized
          (field_or_empty-Emits _ (ltb 0 n) bufp n sized.ready) in
      Emits-as (separator w.need_comma ++ byte_array_text e bufp n) (simp append_assoc)
        (Emits-trans _ (b']' ∷ []) filled (sdow_end_sequence-Emits e ok _ filled.ready))

  -- sdo_write_byte_array_one_int appends a number as well, between the length and the bytes.
  pub sdo_write_byte_array_one_int-Emits :
      (w : Sdow) (val1 : ℕ) (bufp : Option Bytes) (n : ℕ)
      → IsReady w
      → val1 < u32_mod
      → n < u32_mod
      → Emits w
          (sdo_write_byte_array_one_int e w val1 bufp n)
          (separator w.need_comma ++ one_int_text e val1 bufp n)
          true
  unfolding sdo_write_byte_array_one_int
  sdo_write_byte_array_one_int-Emits w val1 bufp n r h1 h =
      let full = ltb 0 n && is_set bufp in
      let begun = sdow_begin_sequence-Emits e ok w r in
      let numbered = Emits-next _ (decimal n) begun (sdo_write_uint-Emits _ n begun.ready h) in
      let sized = comma-next e ok _ numbered in
      let second = Emits-next _ (decimal val1) sized (sdo_write_uint-Emits _ val1 sized.ready h1) in
      let valued = comma-next e ok _ second in
      let filled =
        Emits-next _ (element_text e full bufp n) valued
          (field_or_empty-Emits _ full bufp n valued.ready) in
      Emits-as (separator w.need_comma ++ one_int_text e val1 bufp n) (simp append_assoc)
        (Emits-trans _ (b']' ∷ []) filled (sdow_end_sequence-Emits e ok _ filled.ready))
