-- ===== src/Tests.antt =====
-- A concrete heap, printing and comparison, and the readers and writers of the examples.
mod Messages
mod Runs
mod Devices
mod Services
mod Initialise
mod Network
mod Rendezvous
mod Comparison
mod Transfer
use client_sdk.Base.{
  ℕ, zero, suc, ◌<◌, ◌+◌, ◌-◌, ◌≤◌, ◌≡◌, ◌↔◌, refl, ◌∙◌, ap, Bool, true, false, ◌&&◌, Option, none,
  some, [], ◌∷◌, ◌++◌, arith, Bytes, length, replicate, take, length-append, take-append_length,
  All-append, ◌==◌,
}
use client_sdk.Decimal.{decimal, AreDigits, decimal-AreDigits}
use client_sdk.Env.{
  Env, bytes_of, c_string, unicode_escape, hex_pair, Reliable, ComparesStrings, Grows,
}
use client_sdk.Block.{Block}
use client_sdk.Writer.{Sdow}
use client_sdk.Writer.Strings.{AreBytes}
use client_sdk.Reader.{Sdor}
use client_sdk.Prot.{codes, Prot}

abbrev pub same_bytes : Bytes → Bytes → Bool
same_bytes [] [] = true
same_bytes [] (y ∷ ys) = false
same_bytes (x ∷ xs) [] = false
same_bytes (x ∷ xs) (y ∷ ys) = x == y && same_bytes xs ys

abbrev grown : Option Bytes → ℕ → Option Bytes
grown old n = some (bytes_of old ++ replicate (n - length (bytes_of old)) 0)

abbrev pub host : Env
host = record {
  realloc = grown;
  alloc = λ n. true;
  print_u = λ i. some (decimal i);
  print_u04x = λ c. some (unicode_escape c);
  print_02x = λ c. some (hex_pair c);
  print_parse_error = λ s. codes "msg" ++ (decimal s ++ codes ": message parse error");
  strcmp_s_zero = λ dest dmax src. same_bytes (c_string dest) (c_string src);
  bio_encode = λ bs n. none;
  bio_decode = λ bs n. none;
}

length-replicate : (n x : ℕ) → length (replicate n x) ≡ n
length-replicate zero x = refl
length-replicate (suc n) x = omega (arith, length-replicate n x)

pub host-Grows : Grows host
host-Grows old n fits = (
  bytes_of old ++ replicate (n - length (bytes_of old)) 0,
  refl,
  omega (
    arith,
    length-append (bytes_of old) (replicate (n - length (bytes_of old)) 0),
    length-replicate (n - length (bytes_of old)) 0,
  ),
  take-append_length (bytes_of old) _,
)

pub host-Reliable : Reliable host
host-Reliable = record {
  grows = host-Grows;
  allocates = λ n. refl;
  prints_unsigned = λ i h. refl;
  prints_escapes = λ c h. refl;
  prints_hex = λ c h. refl;
}

heads :
    (x y : ℕ) (xs ys : Bytes)
    → (x == y && same_bytes xs ys) ≡ true
    → (same_bytes xs ys ≡ true → xs ≡ ys)
    → Path Bytes (x ∷ xs) (y ∷ ys)
heads x y xs ys h to =
    let same : x ≡ y = ground arith in
    let more : same_bytes xs ys ≡ true = ground arith in λ i. same i ∷ to more i

pub same_bytes-lem : (xs ys : Bytes) → (same_bytes xs ys ≡ true) ↔ (xs ≡ ys)
same_bytes-lem [] [] = (λ h. refl, λ h. refl)
same_bytes-lem [] (y ∷ ys) = (λ h. cc, λ h. cc)
same_bytes-lem (x ∷ xs) [] = (λ h. cc, λ h. cc)
same_bytes-lem (x ∷ xs) (y ∷ ys) =
    let (to, from) = same_bytes-lem xs ys in
    (λ h. heads x y xs ys h to, λ h. ground (arith, h, from))

pub host-ComparesStrings : ComparesStrings host
host-ComparesStrings dest dmax src h = same_bytes-lem (c_string dest) (c_string src)

digits-AreBytes : (s : Bytes) → AreDigits s → AreBytes s
digits-AreBytes [] h = tt
digits-AreBytes (c ∷ s) h = (omega (arith, h.0), digits-AreBytes s h.1)

pub host-AreBytes : (s : ℕ) → AreBytes (host.print_parse_error s)
host-AreBytes s =
    All-append (λ c. c < 256) (codes "msg") (decimal s ++ codes ": message parse error")
      (omega arith)
      (All-append (λ c. c < 256) (decimal s) (codes ": message parse error")
        (digits-AreBytes _ (decimal-AreDigits s)) (omega arith))

abbrev pub empty_block : Block
empty_block = record { cursor = 0; block_max = 0; block_size = 0; block = none }

abbrev pub writer : Sdow
writer = record { b = empty_block; need_comma = false; msg_type = 10 }

abbrev pub full_block : Bytes → Block
full_block bs = record {
  cursor = 0;
  block_max = length bs;
  block_size = length bs;
  block = some bs;
}

abbrev pub reader : Bytes → Sdor
reader bs = record {
  b = full_block bs;
  need_comma = false;
  have_block = true;
  msg_type = 10;
  receive_set = false;
}

-- A run with nothing in it but its state and the text in its reader.
abbrev pub blank_run : ℕ → Sdor → Prot
blank_run s r = record {
  state = s;
  success = false;
  sdor = r;
  sdow = writer;
  g2 = none;
  i1 = record { length = 0; addr = [] };
  port1 = 0;
  dns1 = none;
  key_encoding = 0;
  new_pk = none;
  dev_cred = none;
  owner_public_key = none;
  iv = none;
  service_info = none;
  ov_entry_num = 0;
  ovoucher = none;
  new_ov_hdr_hmac = none;
  serv_req_info_num = 0;
  owner_supplied_service_info_count = 0;
  owner_supplied_service_info_num = 0;
  owner_supplied_service_info_rcv = 0;
  osc = none;
  n4 = none;
  n5 = none;
  n7 = none;
  n5r = none;
  n6 = none;
  n7r = none;
  plain_text = none;
  obsig = none;
  round_trip_count = 0;
  sv_info_mod_list_head = none;
  dsi_info = none;
  total_dsi_rounds = 0;
  reuse_enabled = false;
}
