-- ===== src/Prot/To2/Info/Quiet.antt =====
-- lib/prot/to2: msg46 and msg48 keep the reader, the others its `receive` pointer.
use client_sdk.Base.{ℕ, ◌≡◌, refl, Bool, true, false, arith}
use client_sdk.Act.Keeps.{Keeps}
use client_sdk.Env.{Env}
use client_sdk.Prot.{Prot}
use client_sdk.Prot.Steps.{quiet, reader, rd-Keeps}
use client_sdk.Prot.To2.{To2Calls}
use client_sdk.Prot.To2.Device.{
  msg45_request, string_read, msg45_body, msg46_pairs, after_info, msg46,
}
use client_sdk.Prot.To2.Info.{
  supplied_alloc, read_rendezvous, msg47_supplied, msg47_key, msg47_next, msg47_body, msg48,
  parse_values, msg49_values, after_values, msg49_body,
}
use client_sdk.Prot.To2.Quiet.{KeepsReader, exchanging}
use client_sdk.Types.{Bits, no_bits}
use client_sdk.Types.ServiceInfo.{ServiceInfo}
use client_sdk.Types.Reading.Receive.{string_read_kept}
use client_sdk.Types.Signature.Receive.{
  sdo_begin_read_signature-Keeps, sdo_end_read_signature_full-Keeps,
}

module _ (e : Env) (c : To2Calls) where
  request-Keeps : (nn : ℕ) (psi : Bits) → Keeps quiet (msg45_request e c nn psi)
  unfolding msg45_request
  request-Keeps nn psi = search exchanging depth 60 fits 6000

  string-Keeps : Keeps quiet (string_read e c)
  unfolding string_read
  string-Keeps = rd-Keeps (record { kept = λ r. string_read_kept e no_bits r })

  pub msg45-Keeps : Keeps quiet (msg45_body e c)
  unfolding msg45_body
  msg45-Keeps = search (exchanging, request-Keeps, string-Keeps) depth 60 fits 6000

  pairs_keep : (si : ServiceInfo) (nn : ℕ) → Keeps reader (msg46_pairs e c si nn)
  unfolding msg46_pairs
  pairs_keep si nn = search exchanging depth 60 fits 6000

  after_info_kept : (ps : Prot) → (after_info e c ps).sdor ≡ ps.sdor
  unfolding after_info
  after_info_kept ps = ground arith

  pub msg46-Keeps : Keeps reader (msg46 e c)
  unfolding msg46
  msg46-Keeps = search (exchanging, pairs_keep, after_info_kept) depth 60 fits 6000

  alloc-Keeps : Keeps quiet (supplied_alloc e c)
  unfolding supplied_alloc
  alloc-Keeps = search exchanging depth 60 fits 6000

  rendezvous-Keeps : KeepsReader c → Keeps quiet (read_rendezvous e c)
  unfolding read_rendezvous
  rendezvous-Keeps law = rd-Keeps (record { kept = λ r. law.rendezvous r _ })

  supplied-Keeps : KeepsReader c → Keeps quiet (msg47_supplied e c)
  unfolding msg47_supplied
  supplied-Keeps law = search (exchanging, rendezvous-Keeps, law) depth 60 fits 6000

  key-Keeps : (start : ℕ) → Keeps quiet (msg47_key e c start)
  unfolding msg47_key
  key-Keeps start = search (exchanging, sdo_end_read_signature_full-Keeps) depth 60 fits 6000

  next-Keeps : (n : ℕ) → Keeps quiet (msg47_next e c n)
  unfolding msg47_next
  next-Keeps n = search exchanging depth 60 fits 6000

  pub msg47-Keeps : KeepsReader c → Keeps quiet (msg47_body e c)
  unfolding msg47_body
  msg47-Keeps law =
      search
        (
          exchanging, sdo_begin_read_signature-Keeps, alloc-Keeps, supplied-Keeps, law, key-Keeps,
          next-Keeps,
        )
        depth 60 fits 6000

  pub msg48-Keeps : Keeps reader (msg48 e c)
  unfolding msg48
  msg48-Keeps = search exchanging depth 60 fits 6000

  parse-Keeps : KeepsReader c → Keeps quiet (parse_values e c)
  unfolding parse_values
  parse-Keeps law = record { kept = λ ps. law.values ps.sdor ps.sv_info_mod_list_head }

  values_keep : KeepsReader c → (b : Bool) → Keeps quiet (msg49_values e c b)
  unfolding msg49_values
  values_keep law false = search exchanging
  values_keep law true = search (exchanging, parse-Keeps, law) depth 30 fits 3000

  after_values_kept : (ps : Prot) → quiet (after_values e c ps) ≡ quiet ps
  unfolding after_values
  after_values_kept ps = refl

  pub msg49-Keeps : KeepsReader c → Keeps quiet (msg49_body e c)
  unfolding msg49_body
  msg49-Keeps law = search (exchanging, values_keep, law, after_values_kept) depth 60 fits 6000
