-- ===== src/Writer/Strings.antt =====
-- Strings, tags and numbers of lib/sdoblockio.c's writer: the text that each appends.
use client_sdk.Base.{
  suc-==, suc-sub_one, ℕ, zero, suc, ◌/◌, ◌%◌, ◌≤◌, ◌<◌, ◌≡◌, refl, Bool, true, false, ◌&&◌, Option,
  none, some, [], ◌∷◌, ◌++◌, append_assoc, arith, Bytes, take, All, Bool-cases, inl, inr,
  if◌then◌else◌,
}
use client_sdk.Env.{hex_digit, Env, c_string, unicode_escape, Reliable}
use client_sdk.Block.{Block, sdo_b_put_c}
use client_sdk.Block.Bounds.{IsValid, Puts, Puts-refl, Puts-trans, sdo_b_put_c-Puts}
use client_sdk.Writer.{
  Sdow, raise_size, is_special, write_comma, put_chars, pad_char, pad_loop, finish_pad, padstring,
}
use client_sdk.Writer.{quoted, sdo_write_string, sdo_write_string_len, sdo_write_tag}
use client_sdk.Writer.Emit.{
  IsReady, Emits, Emits-trans, Emits-Puts, Emits-after, separator, write_comma-Emits, closing-Emits,
}

-- What stands in the message for one character, and for a string.
abbrev pub padded_char : Bool → ℕ → Bytes
padded_char escape c = if escape && is_special c then unicode_escape c else c ∷ []

abbrev pub padded : Bool → Bytes → Bytes
padded escape [] = []
padded escape (c ∷ cs) = padded_char escape c ++ padded escape cs

-- The characters that a length lets through; `none` lets all through.
abbrev pub limited : Option ℕ → Bytes → Bytes
limited none s = s
limited (some n) s = take n s

abbrev pub AreBytes : Bytes → Type 0
AreBytes = All (λ c. c < 256)

-- The text of a string value: quotes round the escaped characters.
abbrev pub quoted_text : Bytes → Bytes
quoted_text s = b'"' ∷ (padded true (c_string s) ++ b'"' ∷ [])

hex_digit_pos : (d : ℕ) → 0 < hex_digit d
hex_digit_pos d = ground arith

module _ (e : Env) (ok : Reliable e) where
  put_chars-Puts :
      (b : Block) (cs : Bytes) → IsValid b → All (λ c. 0 < c) cs → Puts b (put_chars e b cs) cs
  unfolding put_chars
  put_chars-Puts b [] v h = Puts-refl v
  put_chars-Puts b (zero ∷ cs) v h = absurd (omega (arith, h.0))
  put_chars-Puts b (suc c ∷ cs) v h =
      let p = sdo_b_put_c-Puts e ok.grows b (suc c) v in
      Puts-trans (suc c ∷ []) cs p (put_chars-Puts (sdo_b_put_c e b (suc c)) cs p.valid h.1)

  pad_char-Puts :
      (b : Block) (escape : Bool) (c : ℕ)
      → IsValid b
      → c < 256
      → (b' : Block) × (pad_char e b escape c ≡ some b') × Puts b b' (padded_char escape c)
  unfolding pad_char
  pad_char-Puts b escape c v h = elim (Bool-cases (escape && is_special c)) [
    | inl special ↦
        rw (special, ok.prints_escapes c h)
          (
            put_chars e b (unicode_escape c),
            refl,
            put_chars-Puts b (unicode_escape c) v
                (omega (arith, hex_digit_pos (c / 16), hex_digit_pos (c % 16))),
          )
    | inr plain ↦ rw plain (sdo_b_put_c e b c, refl, sdo_b_put_c-Puts e ok.grows b c v)
  ]

  -- The loop comes to its end, and writes the characters that the length and the terminator let
  -- through.
  pad_loop-Puts :
      (b : Block) (s : Bytes) (len : Option ℕ) (escape : Bool)
      → IsValid b
      → AreBytes s
      → ((pad_loop e b s len escape).1 ≡ true)
        × Puts b (pad_loop e b s len escape).0 (padded escape (c_string (limited len s)))
  unfolding pad_loop
  pad_loop-Puts b [] none escape v h = (refl, Puts-refl v)
  pad_loop-Puts b [] (some zero) escape v h = (refl, Puts-refl v)
  pad_loop-Puts b [] (some (suc n)) escape v h = (refl, Puts-refl v)
  pad_loop-Puts b (c ∷ s) (some zero) escape v h = (refl, Puts-refl v)
  pad_loop-Puts b (zero ∷ s) none escape v h = (refl, Puts-refl v)
  pad_loop-Puts b (zero ∷ s) (some (suc n)) escape v h = rw (suc-== n, pad_loop) (refl, Puts-refl v)
  pad_loop-Puts b (suc c ∷ s) none escape v h =
      let (b', padded_one, p) = pad_char-Puts b escape (suc c) v h.0 in
      let (done, q) = pad_loop-Puts b' s none escape p.valid h.1 in
      rw (suc-== c, padded_one, pad_loop)
        (done, Puts-trans (padded_char escape (suc c)) (padded escape (c_string s)) p q)
  pad_loop-Puts b (suc c ∷ s) (some (suc n)) escape v h =
      let (b', padded_one, p) = pad_char-Puts b escape (suc c) v h.0 in
      let (done, q) = pad_loop-Puts b' s (some n) escape p.valid h.1 in
      rw (suc-== n, suc-== c, padded_one, suc-sub_one n, pad_loop)
        (done, Puts-trans (padded_char escape (suc c)) (padded escape (c_string (take n s))) p q)

  finish_pad-true :
      (w : Sdow) (q : Block × Bool)
      → q.1 ≡ true
      → finish_pad e w q ≡ record w { b = raise_size q.0 }
  unfolding finish_pad
  finish_pad-true w (b, true) h = refl
  finish_pad-true w (b, false) h = cc

  -- _padstring appends the characters of the string up to its length or its terminator, each
  -- special one as its \u00XX escape if escaping is asked for, leaves the comma flag, and raises
  -- the block size to the cursor. The environment is reliable, the block is well-formed with its
  -- size not above the cursor, and the string is one of bytes.
  pub padstring-Emits :
      (w : Sdow) (s : Bytes) (len : Option ℕ) (escape : Bool)
      → IsValid w.b
      → w.b.block_size ≤ w.b.cursor
      → AreBytes s
      → Emits w (padstring e w s len escape) (padded escape (c_string (limited len s))) w.need_comma
  unfolding padstring
  padstring-Emits w s len escape v behind h =
      let (done, p) = pad_loop-Puts w.b s len escape v h in
      rw (finish_pad-true w (pad_loop e w.b s len escape) done) (Emits-Puts w w.need_comma behind p)

  quoted-Emits :
      (w : Sdow) (s : Bytes) (len : Option ℕ)
      → IsReady w
      → AreBytes s
      → Emits w (quoted e w s len) (separator w.need_comma ++ quoted_text (limited len s)) true
  unfolding quoted
  quoted-Emits w s len r h =
      let p = write_comma-Emits e ok w r in
      let v = write_comma e w in
      let q = sdo_b_put_c-Puts e ok.grows v.b b'"' p.ready.valid in
      let opened = record v { b = sdo_b_put_c e v.b b'"' } in
      let body = padded true (c_string (limited len s)) in
      let behind : opened.b.block_size ≤ opened.b.cursor =
        omega (arith, q.moved, q.size_kept, p.ready.level) in
      let padded_all = padstring-Emits opened s len true q.valid behind h in
      let x = padstring e opened s len true in
      Emits-trans (separator w.need_comma) (quoted_text (limited len s)) p (
        Emits-after v (b'"' ∷ []) (body ++ b'"' ∷ []) q (
          Emits-trans body (b'"' ∷ []) padded_all (
            Emits-Puts x true (omega (arith, padded_all.ready.level))
              (sdo_b_put_c-Puts e ok.grows x.b b'"' padded_all.ready.valid))))

  -- A string value, with its comma and its quotes.
  pub sdo_write_string-Emits :
      (w : Sdow) (s : Bytes)
      → IsReady w
      → AreBytes s
      → Emits w (sdo_write_string e w s) (separator w.need_comma ++ quoted_text s) true
  unfolding sdo_write_string
  sdo_write_string-Emits w s r h = quoted-Emits w s none r h

  pub sdo_write_string_len-Emits :
      (w : Sdow) (s : Bytes) (len : ℕ)
      → IsReady w
      → AreBytes s
      → Emits w
          (sdo_write_string_len e w s len)
          (separator w.need_comma ++ quoted_text (take len s))
          true
  unfolding sdo_write_string_len
  sdo_write_string_len-Emits w s len r h = quoted-Emits w s (some len) r h

  -- A tag, with the colon behind it.
  pub sdo_write_tag-Emits :
      (w : Sdow) (tag : Bytes)
      → IsReady w
      → AreBytes tag
      → Emits w
          (sdo_write_tag e w tag)
          (separator w.need_comma ++ (quoted_text tag ++ b':' ∷ []))
          false
  unfolding sdo_write_tag
  sdo_write_tag-Emits w tag r h =
      let p = sdo_write_string-Emits w tag r h in
      rw (← append_assoc (separator w.need_comma) (quoted_text tag) (b':' ∷ [])) (
        Emits-trans (separator w.need_comma ++ quoted_text tag) (b':' ∷ []) p
          (closing-Emits e ok (sdo_write_string e w tag) b':' p.ready))
