-- ===== src/Prot/To1/Quiet.antt =====
-- lib/prot/to1: msg30 and msg32 keep the reader, msg31 and msg33 its `receive` pointer.
use client_sdk.Base.{Option, none, some, Bytes}
use client_sdk.Act.Keeps.{Keeps}
use client_sdk.Env.{Env}
use client_sdk.Prot.Steps.{quiet, reader, running}
use client_sdk.Prot.To1.{
  msg30, msg31_body, msg32, redirect_text, msg33_owner, msg33_signature, msg33_body,
}
use client_sdk.Types.{Bits}
use client_sdk.Types.Keys.Receive.{sdo_public_key_read-Keeps}
use client_sdk.Types.Reading.Receive.{
  reading, sdo_byte_array_read-Keeps, sdo_hash_read-Keeps, sdo_read_ipaddress-Keeps,
  sdo_read_dns-Keeps, sdo_eb_read-Keeps,
}
use client_sdk.Types.Signature.Receive.{sdo_begin_read_signature-Keeps}

module _ (e : Env) where
  pub msg30-Keeps : Keeps reader (msg30 e)
  unfolding msg30
  msg30-Keeps = search running depth 40 fits 4000

  pub msg31-Keeps : Keeps quiet (msg31_body e)
  unfolding msg31_body
  msg31-Keeps = search (running, reading, sdo_eb_read-Keeps) depth 40 fits 4000

  pub msg32-Keeps : (sign : Bytes → Option Bits) → Keeps reader (msg32 e sign)
  unfolding msg32
  msg32-Keeps sign = search running depth 50 fits 5000

  redirect-Keeps : (text : Option Bytes) → Keeps quiet (redirect_text e text)
  unfolding redirect_text
  redirect-Keeps none = search running
  redirect-Keeps (some text) = search running depth 20

  owner-Keeps : Keeps quiet (msg33_owner e)
  unfolding msg33_owner
  owner-Keeps =
      search (running, reading, sdo_hash_read-Keeps, sdo_read_ipaddress-Keeps, sdo_read_dns-Keeps)
        depth 50 fits 5000

  signature-Keeps : Keeps quiet (msg33_signature e)
  unfolding msg33_signature
  signature-Keeps =
      search (running, reading, sdo_byte_array_read-Keeps, sdo_public_key_read-Keeps) depth 50 fits
        5000

  pub msg33-Keeps : Keeps quiet (msg33_body e)
  unfolding msg33_body
  msg33-Keeps =
      search (running, sdo_begin_read_signature-Keeps, redirect-Keeps, owner-Keeps, signature-Keeps)
        depth 50 fits 5000
