-- ===== src/Prot/To2/Info.antt =====
-- lib/prot/to2: msg47 to msg49, the credentials and the service information of the owner.
-- The integers of the C code that count messages are int: a count that is read is taken as 0 where its
-- sign bit is set, since the code only tests whether it is above 0 and above an index.
pub mod Quiet
pub mod Outcome
pub mod Values
use client_sdk.Base.{
  ℕ, ◌+◌, ◌%◌, ◌-◌, Bool, true, false, ◌||◌, ◌&&◌, not, Option, none, some, Bytes, codes, ltb, ◌==◌,
  if◌then◌else◌, [],
}
use client_sdk.Act.{Act, ◌>>=◌, ◌>>◌, pure, guard, modify, gets, from, tested}
use client_sdk.Env.{Env}
use client_sdk.Prot.{OwnerSupplied, Prot}
use client_sdk.Prot.Action.{rd, wr, wrote, write, flushed, read_nonce}
use client_sdk.Prot.To1.{sdo_app_id_write}
use client_sdk.Prot.To2.{To2Calls, fresh_nonce, write_held, opened, header_passed, sealed}
use client_sdk.Prot.To2.Owner.{log_size}
use client_sdk.Types.{Bits, sdo_bits_alloc, no_bits, sdo_string_read}
use client_sdk.Types.ByteArray.{sdo_byte_array_write}
use client_sdk.Types.Modules.{SiKeyValue}
use client_sdk.Types.Modules.Dsi.{sdo_mod_kv_write}
use client_sdk.Types.Reading.{
  begin_object, end_object, tag, uint, array_allocated, read_chars, returning,
}
use client_sdk.Types.Rendezvous.{RendezvousList}
use client_sdk.Types.ServiceInfo.{ServiceInfo, sdo_combine_platform_dsis}
use client_sdk.Types.Signature.{
  sdo_begin_read_signature, sdo_end_read_signature_full, sdo_begin_write_signature,
  sdo_end_write_signature,
}
use client_sdk.Writer.{
  Sdow, sdow_next_block, sdow_begin_object, sdow_end_object, sdo_write_tag, sdo_write_uint,
}
use client_sdk.Prot.To2.Device.{is_some, named}

-- The sizes of the structs on a 64-bit target.
abbrev credentials_size : ℕ
credentials_size = 24

abbrev list_size : ℕ
list_size = 16

abbrev pub service_info_size : ℕ
service_info_size = 16

-- A count that is 0 where it is negative as an int.
abbrev pub as_count : ℕ → ℕ
as_count n = if ltb n 0x80000000 then n else 0

module _ (e : Env) (c : To2Calls) where
  -- The credentials that the owner supplies: an empty list, which is read into.
  abbrev no_credentials : OwnerSupplied
  no_credentials = record { rvlst = none; guid = none }

  unfoldable pub supplied_alloc : Act Prot Unit
  supplied_alloc = do
    modify
        (λ ps. record ps { osc = if e.alloc credentials_size then some no_credentials else none })
    guard (e.alloc credentials_size)
    guard (e.alloc list_size)
    modify (λ ps. record ps {
      osc =
          some (record { rvlst = some (record { num_entries = 0; rv_entries = [] }); guid = none });
    })

  unfoldable pub read_rendezvous : Act Prot RendezvousList
  read_rendezvous =
      rd (returning (λ r. c.rendezvous_list_read r (record { num_entries = 0; rv_entries = [] })))

  unfoldable pub msg47_supplied : Act Prot Unit
  unfolding read_rendezvous
  msg47_supplied = do
    rd begin_object
    rd (tag e (codes "r3"))
    list ← read_rendezvous
    modify (λ ps. record ps { osc = some (record { rvlst = some list; guid = none }) })
    rd (tag e (codes "g3"))
    ba ← from (sdo_bits_alloc e 0)
    guid ← rd (read_chars e ba)
    modify (λ ps. record ps { osc = some (record { rvlst = some list; guid = some guid }) })
    rd (tag e (codes "n7"))
    read_nonce e (λ n ps. record ps { n7r = n })
    rd end_object

  -- The next owner's key.
  unfoldable pub msg47_key : ℕ → Act Prot Unit
  msg47_key start = do
    read ← rd (sdo_end_read_signature_full e c.ov_verify start)
    modify (λ ps. record ps { new_pk = read.0 })
    guard read.1
    guard (is_some read.0)
    guard (e.alloc log_size)
    modify flushed

  unfoldable pub msg47_next : ℕ → Act Prot Unit
  msg47_next n =
      if n == 0
      then modify (λ ps. record ps { state = 50 })
      else (modify (λ ps. record ps { owner_supplied_service_info_num = 0 })
          >> (guard (e.alloc service_info_size) >> modify (λ ps. record ps { state = 48 })))

  unfoldable pub msg47_body : Act Prot Unit
  unfolding opened header_passed supplied_alloc msg47_supplied msg47_key msg47_next
  msg47_body = do
    opened e c
    mtype ← header_passed e c
    supplied_alloc
    rd begin_object
    rd (tag e (codes "osinn"))
    n ← rd uint
    modify (λ ps. record ps { owner_supplied_service_info_count = as_count n })
    rd (tag e (codes "noh"))
    start ← rd (sdo_begin_read_signature e)
    msg47_supplied
    msg47_key start
    msg47_next (as_count n)

  unfoldable pub msg48 : Act Prot Unit
  unfolding sealed
  msg48 = do
    modify (write (λ w. sdow_begin_object e (sdow_next_block w 48)))
    modify (named e (codes "nn"))
    modify (λ ps. record ps {
      sdow = sdow_end_object e (sdo_write_uint e ps.sdow ps.owner_supplied_service_info_num);
    })
    sealed e c 48
    modify (λ ps. record ps { state = 49 })

  unfoldable pub parse_values : Act Prot Bool
  parse_values ps =
      let got = c.osi_parsing ps.sdor ps.sv_info_mod_list_head in
      (record ps { sdor = got.0; sv_info_mod_list_head = got.1 }, some got.2)

  -- The values of a message with the index that was asked for; another one is passed over.
  unfoldable pub msg49_values : Bool → Act Prot Unit
  unfolding parse_values
  msg49_values false = pure tt
  msg49_values true = do
    rd (tag e (codes "sv"))
    rd begin_object
    fine ← parse_values
    guard fine
    rd end_object

  -- Another message, or the end.
  unfoldable pub after_values : Prot → Prot
  after_values ps =
      let num = ps.owner_supplied_service_info_num + 1 in
      record ps {
        owner_supplied_service_info_num = num;
        state = if ltb num ps.owner_supplied_service_info_count then 48 else 50;
      }

  unfoldable pub msg49_body : Act Prot Unit
  unfolding opened header_passed msg49_values after_values
  msg49_body = do
    opened e c
    mtype ← header_passed e c
    rd begin_object
    rd (tag e (codes "nn"))
    n ← rd uint
    modify (λ ps. record ps { owner_supplied_service_info_rcv = n })
    num ← gets (λ ps. ps.owner_supplied_service_info_num)
    msg49_values (num == n)
    rd end_object
    modify flushed
    modify after_values
