-- ===== src/Prot/Nonces.antt =====
-- lib/sdotypes.c: what sdo_nonce_equal has compared.
use client_sdk.Base.{◌≡◌, refl, true, Option, none, some, take, arith}
use client_sdk.Env.{bytes_of}
use client_sdk.Prot.Action.{sdo_nonce_equal, sdo_nonce_bytes}
use client_sdk.Types.{Bits}
use client_sdk.Types.Comparison.{Memcmp, ComparesBytes}

-- Two nonces that are there and have the same sixteen bytes.
pub record SameNonce (n1 n2 : Option Bits) : Type 0 where
  pub first : Bits
  pub second : Bits
  pub first_is : n1 ≡ some first
  pub second_is : n2 ≡ some second
  pub same_bytes :
      take sdo_nonce_bytes (bytes_of first.bytes) ≡ take sdo_nonce_bytes (bytes_of second.bytes)

pub sdo_nonce_equal-SameNonce :
    (m : Memcmp)
    → ComparesBytes m
    → (n1 n2 : Option Bits) → sdo_nonce_equal m n1 n2 ≡ true
    → SameNonce n1 n2
unfolding sdo_nonce_equal
sdo_nonce_equal-SameNonce m compares none n2 ok = absurd (ground (arith, ok))
sdo_nonce_equal-SameNonce m compares (some a) none ok = absurd (ground (arith, ok))
sdo_nonce_equal-SameNonce m compares (some a) (some b) ok =
    let law =
      compares (bytes_of a.bytes) sdo_nonce_bytes (bytes_of b.bytes) sdo_nonce_bytes (omega arith)
        (omega arith) in
    record { first = a; second = b; first_is = refl; second_is = refl; same_bytes = (law.0 ok).1 }
