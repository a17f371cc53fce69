-- ===== src/Prot/To2/Quiet.antt =====
-- lib/prot/to2: what the handlers are made of keeps the reader's `receive` pointer.
use client_sdk.Base.{ℕ, ◌≡◌, Option}
use client_sdk.Act.{Act}
use client_sdk.Act.Keeps.{Keeps}
use client_sdk.Env.{Env}
use client_sdk.Prot.{Prot}
use client_sdk.Prot.Steps.{quiet, reader, running, rd-Keeps}
use client_sdk.Prot.To2.{
  To2Calls, attempted, fresh_nonce, write_held, opened, header_passed, sealed,
}
use client_sdk.Reader.{Sdor}
use client_sdk.Types.{Bits}
use client_sdk.Types.Packet.Receive.{
  sdo_encrypted_packet_read-Keeps, sdo_encrypted_packet_unwind-Keeps,
}
use client_sdk.Types.Reading.Receive.{
  receive_set, reading, sdo_byte_array_read-Keeps, sdo_hash_read-Keeps, sdo_eb_read-Keeps,
}
use client_sdk.Types.Rendezvous.{Hash, RendezvousList}

-- What the calls that read from the message do to the reader: its `receive` pointer stays.
pub record KeepsReader (c : To2Calls) : Type 0 where
  pub header :
      (r : Sdor) (hmac : Option Hash) → (c.ov_hdr_read r hmac).0.receive_set ≡ r.receive_set
  pub values : (r : Sdor) (list : Option ℕ) → (c.osi_parsing r list).0.receive_set ≡ r.receive_set
  pub rendezvous :
      (r : Sdor) (l : RendezvousList) → (c.rendezvous_list_read r l).0.receive_set ≡ r.receive_set

pub attempted-Keeps :
    {A : Type 0} (m : Act Sdor A) → Keeps receive_set m → Keeps receive_set (attempted m)
unfolding attempted
attempted-Keeps m h = record { kept = h.kept }

module _ (e : Env) where
  pub write_held-Keeps : (f : Prot → Option Bits) → Keeps reader (write_held e f)
  unfolding write_held
  write_held-Keeps f = search running depth 20

module _ (e : Env) (c : To2Calls) where
  pub fresh_nonce-Keeps :
      (set : Option Bits → Prot → Prot)
      → ((n : Option Bits) (ps : Prot) → (set n ps).sdor ≡ ps.sdor)
      → Keeps reader (fresh_nonce e c set)
  unfolding fresh_nonce
  fresh_nonce-Keeps set same = search (running, same) depth 20

  pub opened-Keeps : Keeps quiet (opened e c)
  unfolding opened
  opened-Keeps =
      search (running, sdo_encrypted_packet_read-Keeps, sdo_encrypted_packet_unwind-Keeps) depth 20

  pub header_passed-Keeps : Keeps quiet (header_passed e c)
  unfolding header_passed
  header_passed-Keeps = search running depth 20

  pub sealed-Keeps : (type : ℕ) → Keeps reader (sealed e c type)
  unfolding sealed
  sealed-Keeps type = search running depth 20

pub ruleset exchanging = (
  running, reading, attempted-Keeps, write_held-Keeps, fresh_nonce-Keeps, opened-Keeps,
  header_passed-Keeps, sealed-Keeps,
)
