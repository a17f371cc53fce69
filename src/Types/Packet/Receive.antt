-- ===== src/Types/Packet/Receive.antt =====
-- lib/sdotypes.c: reading and decrypting a packet keeps the reader's `receive` pointer.
use client_sdk.Base.{Bool, Option, Bytes}
use client_sdk.Act.Keeps.{Keeps}
use client_sdk.Env.{Env}
use client_sdk.Reader.Receive.{
  begin_sequence_kept, end_sequence_kept, array_kept, array_sz_kept, flush_kept,
}
use client_sdk.Types.Packet.{
  Packet, scanned, sized, sdo_byte_array_read_with_type, sdo_encrypted_packet_read,
  sdo_encrypted_packet_unwind,
}
use client_sdk.Types.Reading.Receive.{receive_set, reading}

module _ (e : Env) where
  scanned-Keeps : Keeps receive_set (scanned e)
  scanned-Keeps = record { kept = array_kept }

  sized-Keeps : Keeps receive_set (sized e)
  sized-Keeps = record { kept = array_sz_kept }

  typed-Keeps : Keeps receive_set (sdo_byte_array_read_with_type e)
  unfolding sdo_byte_array_read_with_type
  typed-Keeps =
      search (reading, scanned-Keeps, sized-Keeps, begin_sequence_kept, end_sequence_kept) depth 60
        fits 6000

  pub sdo_encrypted_packet_read-Keeps : Keeps receive_set (sdo_encrypted_packet_read e)
  unfolding sdo_encrypted_packet_read
  sdo_encrypted_packet_read-Keeps = search (reading, typed-Keeps) depth 60 fits 6000

  pub sdo_encrypted_packet_unwind-Keeps :
      (decrypt : Packet → Option Bytes) (iv : Bool) (pkt : Packet)
      → Keeps receive_set (sdo_encrypted_packet_unwind e decrypt iv pkt)
  unfolding sdo_encrypted_packet_unwind
  sdo_encrypted_packet_unwind-Keeps decrypt iv pkt = search (reading, flush_kept) depth 30 fits 3000
