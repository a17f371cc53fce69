-- ===== src/Prot/To2/Owner/Quiet.antt =====
-- lib/prot/to2: msg40 and msg42 keep the reader, msg41 and msg43 its `receive` pointer.
use client_sdk.Base.{ℕ, ◌≡◌, Option, arith}
use client_sdk.Act.Keeps.{Keeps}
use client_sdk.Env.{Env}
use client_sdk.Prot.{OvEntry, Voucher, Prot}
use client_sdk.Prot.Steps.{quiet, reader, running}
use client_sdk.Prot.To2.{To2Calls}
use client_sdk.Prot.To2.Owner.{
  msg40, read_header, msg41_header, msg41_exchange, msg41_proof, after_header, msg41_body, msg42,
  msg43_number, msg43_fields, msg43_entry, msg43_checks, msg43_next, msg43_body,
}
use client_sdk.Prot.To2.Quiet.{KeepsReader, exchanging}
use client_sdk.Types.{Bits}
use client_sdk.Types.Keys.{PublicKey}
use client_sdk.Types.Keys.Receive.{sdo_public_key_read-Keeps}
use client_sdk.Types.Reading.Receive.{
  receive_set, reading, sdo_byte_array_read-Keeps, sdo_hash_read-Keeps, sdo_eb_read-Keeps,
}
use client_sdk.Types.Rendezvous.{Hash}
use client_sdk.Types.Signature.Receive.{
  sdo_begin_read_signature-Keeps, sdo_end_read_signature_full-Keeps,
  sdo_ov_signature_verification-Keeps,
}

module _ (e : Env) (c : To2Calls) where
  pub msg40-Keeps : Keeps reader (msg40 e c)
  unfolding msg40
  msg40-Keeps = search exchanging depth 60 fits 6000

  read_header-Keeps : KeepsReader c → Keeps quiet (read_header e c)
  unfolding read_header
  read_header-Keeps law = record { kept = λ ps. law.header ps.sdor ps.new_ov_hdr_hmac }

  header-Keeps : KeepsReader c → (n : ℕ) → Keeps quiet (msg41_header e c n)
  unfolding msg41_header
  header-Keeps law n = search (running, read_header-Keeps, law) depth 30 fits 3000

  exchange-Keeps : Keeps quiet (msg41_exchange e c)
  unfolding msg41_exchange
  exchange-Keeps =
      search (exchanging, sdo_byte_array_read-Keeps, sdo_eb_read-Keeps) depth 60 fits 6000

  proof-Keeps : (start : ℕ) (xa : Option Bits) → Keeps quiet (msg41_proof e c start xa)
  unfolding msg41_proof
  proof-Keeps start xa = search (exchanging, sdo_end_read_signature_full-Keeps) depth 60 fits 6000

  after_header_kept : (ov : Voucher) (ps : Prot) → quiet (after_header e c ov ps) ≡ quiet ps
  unfolding after_header
  after_header_kept ov ps = ground arith

  pub msg41-Keeps : KeepsReader c → Keeps quiet (msg41_body e c)
  unfolding msg41_body
  msg41-Keeps law =
      search
        (
          exchanging, sdo_begin_read_signature-Keeps, header-Keeps, law, exchange-Keeps,
          proof-Keeps, after_header_kept,
        )
        depth 60 fits 6000

  pub msg42-Keeps : Keeps reader (msg42 e c)
  unfolding msg42
  msg42-Keeps = search exchanging depth 20

  number-Keeps : Keeps quiet (msg43_number e c)
  unfolding msg43_number
  number-Keeps = search (exchanging, sdo_begin_read_signature-Keeps) depth 60 fits 6000

  fields-Keeps : Keeps receive_set (msg43_fields e c)
  unfolding msg43_fields
  fields-Keeps = search (reading, sdo_hash_read-Keeps, sdo_public_key_read-Keeps) depth 60 fits 6000

  entry-Keeps : Keeps quiet (msg43_entry e c)
  unfolding msg43_entry
  entry-Keeps = search (exchanging, fields-Keeps) depth 60 fits 6000

  checks_keep :
      (start : ℕ) (entry : OvEntry) (digest : Hash) (ov : Voucher) (held : OvEntry)
      → Keeps quiet (msg43_checks e c start entry digest ov held)
  unfolding msg43_checks
  checks_keep start entry digest ov held =
      search (exchanging, sdo_ov_signature_verification-Keeps) depth 60 fits 6000

  next-Keeps :
      (ov : Voucher) (pk : Option PublicKey) (num : ℕ) → Keeps quiet (msg43_next e c ov pk num)
  unfolding msg43_next
  next-Keeps ov pk num = search exchanging depth 20

  pub msg43-Keeps : Keeps quiet (msg43_body e c)
  unfolding msg43_body
  msg43-Keeps =
      search (exchanging, number-Keeps, entry-Keeps, checks_keep, next-Keeps) depth 60 fits 6000
