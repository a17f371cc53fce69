-- ===== src/Env.antt =====
-- What the SDK takes from outside its own sources: the C heap, the formatted printing and string
-- comparison of the safe string library (`snprintf_s_i`, `strcmp_s`), and the base64 codec behind
-- lib/crypto (OpenSSL's BIO filters or mbed TLS). Each is a field of one record that the
-- components take as a parameter, with the documented behaviour as laws beside it.
use client_sdk.Base.{
  ℕ, suc, ◌+◌, ◌-◌, ◌/◌, ◌%◌, ◌^◌, ◌≤◌, ◌<◌, ◌≡◌, ◌↔◌, Bool, true, Option, none, some, [], ◌∷◌,
  Bytes, length, take, ltb, if◌then◌else◌,
}
use client_sdk.Decimal.{decimal}

-- The bytes behind a pointer; a null pointer has none.
abbrev pub bytes_of : Option Bytes → Bytes
bytes_of none = []
bytes_of (some bs) = bs

-- The digit of a value below 16, as `%x` prints it.
abbrev pub hex_digit : ℕ → ℕ
hex_digit d = if ltb d 10 then b'0' + d else b'a' + d - 10

-- The digit of a value below 16, as `%X` prints it.
abbrev pub hex_digit_upper : ℕ → ℕ
hex_digit_upper d = if ltb d 10 then b'0' + d else b'A' + d - 10

-- The part of a C string in front of its terminator.
abbrev pub c_string : Bytes → Bytes
c_string [] = []
c_string (ℕ.zero ∷ cs) = []
c_string (suc c ∷ cs) = suc c ∷ c_string cs

pub record Env : Type 0 where
  -- `realloc(p, n)`; `none` is a null result.
  pub realloc : Option Bytes → ℕ → Option Bytes
  -- `sdo_alloc(n)` is not null.
  pub alloc : ℕ → Bool
  -- `snprintf_s_i(num, 20, "%u", i)`; `none` is a negative result.
  pub print_u : ℕ → Option Bytes
  -- `snprintf_s_i(ucode, 10, "\\u%04x", c)`.
  pub print_u04x : ℕ → Option Bytes
  -- `snprintf_s_i(hex, 3, "%02X", c)`.
  pub print_02x : ℕ → Option Bytes
  -- `snprintf_s_i(err_msg, 64, "msg%d: message parse error", state)`, up to its terminator.
  pub print_parse_error : ℕ → Bytes
  -- `strcmp_s(dest, dmax, src, &r)` leaves r = 0.
  pub strcmp_s_zero : Bytes → ℕ → Bytes → Bool
  -- Base64 encoding of a byte string with room for n bytes; `none` is a failure.
  pub bio_encode : Bytes → ℕ → Option Bytes
  -- Base64 decoding with room for n bytes; `none` is a failure.
  pub bio_decode : Bytes → ℕ → Option Bytes

-- A reallocation that does not fail keeps the old bytes and has the size asked for.
abbrev pub Grows : Env → Type 0
Grows e =
    (old : Option Bytes) (n : ℕ)
    → length (bytes_of old) ≤ n
    → (m : Bytes) × (e.realloc old n ≡ some m)
      × (length m ≡ n)
      × (take (length (bytes_of old)) m ≡ bytes_of old)

abbrev pub PrintsUnsigned : Env → Type 0
PrintsUnsigned e = (i : ℕ) → i < 2 ^ 32 → e.print_u i ≡ some (decimal i)

-- The escape `\uXXXX` of one byte.
abbrev pub unicode_escape : ℕ → Bytes
unicode_escape c = b'\\' ∷ b'u' ∷ b'0' ∷ b'0' ∷ hex_digit (c / 16) ∷ hex_digit (c % 16) ∷ []

abbrev pub PrintsEscapes : Env → Type 0
PrintsEscapes e = (c : ℕ) → c < 256 → e.print_u04x c ≡ some (unicode_escape c)

abbrev pub hex_pair : ℕ → Bytes
hex_pair c = hex_digit_upper (c / 16) ∷ hex_digit_upper (c % 16) ∷ []

abbrev pub PrintsHex : Env → Type 0
PrintsHex e = (c : ℕ) → c < 256 → e.print_02x c ≡ some (hex_pair c)

-- Two strings compare equal when they agree up to their terminators, if the first fits in dmax.
abbrev pub ComparesStrings : Env → Type 0
ComparesStrings e =
    (dest : Bytes) (dmax : ℕ) (src : Bytes)
    → length (c_string dest) < dmax
    → (e.strcmp_s_zero dest dmax src ≡ true) ↔ (c_string dest ≡ c_string src)

-- What the writers rely on.
pub record Reliable (e : Env) : Type 0 where
  pub grows : Grows e
  pub allocates : (n : ℕ) → e.alloc n ≡ true
  pub prints_unsigned : PrintsUnsigned e
  pub prints_escapes : PrintsEscapes e
  pub prints_hex : PrintsHex e
