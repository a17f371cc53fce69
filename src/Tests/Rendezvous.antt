-- ===== src/Tests/Rendezvous.antt =====
-- Examples of the rendezvous list: two entries, with and without an address.
use client_sdk.Base.{refl, none, some, [], ◌∷◌, arith}
use client_sdk.Block.Bounds.{IsValid}
use client_sdk.Types.Rendezvous.{Rendezvous, RendezvousList, sdo_rendezvous_list_write}
use client_sdk.Types.Rendezvous.Printing.{AllPrintable, Written, list_text, list_write-Written}
use client_sdk.Writer.Emit.{IsReady}
use client_sdk.Tests.{host, host-Reliable, empty_block, writer}

abbrev bare : Rendezvous
bare = record {
  num_params = 0;
  only = none;
  ip = none;
  po = none;
  pow = none;
  dn = none;
  sch = none;
  cch = none;
  ui = none;
  ss = none;
  pw = none;
  wsp = none;
  me = none;
  pr = none;
  delaysec = none;
}

abbrev two : RendezvousList
two = record {
  num_entries = 2;
  rv_entries =
      record bare {
        num_params = 2;
        ip = some (record { length = 4; addr = 10 ∷ 0 ∷ 0 ∷ 1 ∷ [] });
        po = some 8040;
      }
      ∷ record bare {
        num_params = 1;
        dn = some (record { byte_sz = 2; bytes = some (b'r' ∷ b'v' ∷ []) });
      }
      ∷ [];
}

two-AllPrintable : AllPrintable host host-Reliable two.rv_entries
two-AllPrintable = ground arith

empty-IsValid : IsValid empty_block
empty-IsValid = record { cursor_in = omega arith; size_in = omega arith; allocated = refl }

writer-IsReady : IsReady writer
writer-IsReady = record { valid = empty-IsValid; level = refl }

list_write-Written_example :
    Written host host-Reliable writer
      (list_text host host-Reliable two)
      (sdo_rendezvous_list_write host writer two)
list_write-Written_example =
    list_write-Written host host-Reliable writer two writer-IsReady refl (omega arith) (omega arith)
      two-AllPrintable
