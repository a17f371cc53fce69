-- ===== src/Base64.antt =====
-- crypto/openssl/openssl_base64.c: the sizes of base64 texts, and the guards in front of the
-- OpenSSL filters, which are fields of `Env`. The two copies of these functions in
-- crypto/mbedtls/mbedtls_base64.c and device_modules/utils/base64.c have the same sizes.
use client_sdk.Base.{
  ℕ, zero, suc, ◌+◌, ◌*◌, ◌/◌, ◌≤◌, Option, none, some, [], Bytes, take, drop, arith, ◌==◌,
  if◌then◌else◌,
}
use client_sdk.Env.{Env}

unfoldable pub bin_to_b64_length : ℕ → ℕ
bin_to_b64_length n = if n == 0 then 0 else (n + 2) / 3 * 4

unfoldable pub b64_to_bin_length : ℕ → ℕ
b64_to_bin_length n = if n == 0 then 0 else n / 4 * 3 + 2

-- The result -1 is `none`, and so is a null pointer.
unfoldable pub bin_to_b64 : Env → ℕ → Option Bytes → ℕ → Option Bytes
bin_to_b64 e zero bs room = none
bin_to_b64 e (suc n) none room = none
bin_to_b64 e (suc n) (some bs) room = e.bio_encode (take (suc n) bs) room

-- `b64_len` characters of `text` from `offset` on, into a buffer of `bin_len` bytes. Fewer than
-- four characters decode to nothing, with no error.
unfoldable pub b64_to_bin : Env → ℕ → Bytes → ℕ → ℕ → Option Bytes
b64_to_bin e b64_len text offset zero = none
b64_to_bin e b64_len text offset (suc n) =
    if b64_len / 4 * 4 == 0 then some [] else e.bio_decode (take b64_len (drop offset text)) (suc n)

-- The buffer that b64To_bin_length computes for the length that bin_toB64Length gives to n bytes
-- has room for the n bytes.
pub b64_to_bin_length-bin_to_b64_length : (n : ℕ) → n ≤ b64_to_bin_length (bin_to_b64_length n)
unfolding b64_to_bin_length bin_to_b64_length
b64_to_bin_length-bin_to_b64_length n = ground arith
