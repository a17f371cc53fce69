-- ===== src/Prot/Action.antt =====
-- lib/prot: what the handlers of TO1 and TO2 are made of. Each is an action on the run, whose failure
-- is the jump to the label `err` and the result -1, here 1; msg44 may fail with the result 0.
use client_sdk.Base.{ℕ, Bool, true, false, Option, none, some}
use client_sdk.Act.{Act, ◌>>=◌, ◌>>◌, modify, from}
use client_sdk.Env.{Env, bytes_of}
use client_sdk.Prot.{Prot, sdo_check_to2_round_trips}
use client_sdk.Prot.Di.{with_message}
use client_sdk.Reader.{Sdor, sdor_flush}
use client_sdk.Types.{Bits, sdo_bits_alloc}
use client_sdk.Types.Comparison.{Memcmp}
use client_sdk.Types.Reading.{read_chars}
use client_sdk.Writer.{Sdow}

abbrev pub sdo_nonce_bytes : ℕ
sdo_nonce_bytes = 16

-- An action on the reader, or on the writer, of the run.
unfoldable pub rd : {A : Type 0} → Act Sdor A → Act Prot A
rd m ps = let got = m ps.sdor in (record ps { sdor = got.0 }, got.1)

unfoldable pub wr : {A : Type 0} → Act Sdow A → Act Prot A
wr m ps = let got = m ps.sdow in (record ps { sdow = got.0 }, got.1)

-- A function on the writer that also returns a value.
unfoldable pub wrote : {A : Type 0} → (Sdow → Sdow × A) → Act Prot A
wrote f ps = let got = f ps.sdow in (record ps { sdow = got.0 }, some got.1)

abbrev pub write : (Sdow → Sdow) → Prot → Prot
write f ps = record ps { sdow = f ps.sdow }

abbrev pub flushed : Prot → Prot
flushed ps = record ps { sdor = sdor_flush ps.sdor }

-- The result of a handler.
unfoldable pub result : Prot × Option (Unit {0}) → Prot × ℕ
result (ps, none) = (ps, 1)
result (ps, some a) = (ps, 0)

-- A handler of a message that is received.
unfoldable pub received : Act Prot Unit → Prot → Prot × ℕ
unfolding result
received m ps = with_message ps (result (m ps))

-- What is done behind a failure.
unfoldable pub after_failure : (Prot → Prot) → Prot × Option (Unit {0}) → Prot × Option (Unit {0})
after_failure f (ps, none) = (f ps, none)
after_failure f (ps, some a) = (ps, some a)

unfoldable pub on_failure : (Prot → Prot) → Act Prot Unit → Act Prot Unit
unfolding after_failure
on_failure f m ps = after_failure f (m ps)

-- `sdo_nonce_equal`. A nonce is taken to have its 16 bytes.
unfoldable pub sdo_nonce_equal : Memcmp → Option Bits → Option Bits → Bool
sdo_nonce_equal memcmp_s none n2 = false
sdo_nonce_equal memcmp_s (some n1) none = false
sdo_nonce_equal memcmp_s (some n1) (some n2) =
    memcmp_s (bytes_of n1.bytes) sdo_nonce_bytes (bytes_of n2.bytes) sdo_nonce_bytes

module _ (e : Env) where
  -- A nonce is read into a new array, which the run points to.
  unfoldable pub read_nonce : (Option Bits → Prot → Prot) → Act Prot Unit
  read_nonce set = do
    modify (set (sdo_bits_alloc e sdo_nonce_bytes))
    ba ← from (sdo_bits_alloc e sdo_nonce_bytes)
    n ← rd (read_chars e ba)
    modify (set (some n))

  -- The limit of round trips is checked in front of a message of TO2.
  unfoldable pub within_limit : (Prot → Prot × ℕ) → Prot × Bool → Prot × ℕ
  within_limit k (ps, false) = (ps, 1)
  within_limit k (ps, true) = k ps

  unfoldable pub counted : (Prot → Prot × ℕ) → Prot → Prot × ℕ
  unfolding within_limit
  counted k ps = within_limit k (sdo_check_to2_round_trips e ps)
