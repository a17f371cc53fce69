-- ===== src/Types/Rendezvous.antt =====
-- lib/sdotypes.c: the rendezvous entries and their list, with the hashes and IP addresses as they are
-- written. An entry that is added to a list is not in another one. `none` as a result, around the
-- result of the C code, is a read through a null pointer.
pub mod Printing
use client_sdk.Base.{
  ℕ, zero, suc, ◌+◌, ◌%◌, ◌^◌, Bool, true, false, Option, none, some, List, [], ◌∷◌, ◌++◌, Bytes,
  codes, ltb, ◌==◌, if◌then◌else◌,
}
use client_sdk.Env.{Env, bytes_of}
use client_sdk.Reader.{Sdor, sdor_begin_sequence, sdor_end_sequence, sdo_read_uint}
use client_sdk.Rest.{IpAddress}
use client_sdk.Types.{Bits, SdoString}
use client_sdk.Writer.{
  Sdow, sdow_begin_sequence, sdow_end_sequence, sdow_begin_object, sdow_end_object, sdo_write_uint,
  sdo_write_tag, sdo_write_string_len,
}
use client_sdk.Writer.Arrays.{sdo_write_byte_array, sdo_write_byte_array_one_int}

pub record Hash : Type 0 where
  pub hash_type : ℕ
  pub hash : Bits

-- `sdo_rendezvous_t`, without the pointer to the next entry.
pub record Rendezvous : Type 0 where
  pub num_params : ℕ
  pub only : Option SdoString
  pub ip : Option IpAddress
  pub po : Option ℕ
  pub pow : Option ℕ
  pub dn : Option SdoString
  pub sch : Option Hash
  pub cch : Option Hash
  pub ui : Option ℕ
  pub ss : Option SdoString
  pub pw : Option SdoString
  pub wsp : Option SdoString
  pub me : Option SdoString
  pub pr : Option SdoString
  pub delaysec : Option ℕ

pub record RendezvousList : Type 0 where
  pub num_entries : ℕ
  pub rv_entries : List Rendezvous

-- What a parameter holds.
pub data Value : Type 0 where
  a_string : SdoString → Value
  an_address : IpAddress → Value
  a_number : ℕ → Value
  a_hash : Hash → Value

abbrev pub Param : Type 0
Param = Bytes × Option Value

abbrev strings : Option SdoString → Option Value
strings none = none
strings (some s) = some (a_string s)

abbrev numbers : Option ℕ → Option Value
numbers none = none
numbers (some n) = some (a_number n)

abbrev hashes : Option Hash → Option Value
hashes none = none
hashes (some h) = some (a_hash h)

abbrev addresses : Option IpAddress → Option Value
addresses none = none
addresses (some a) = some (an_address a)

-- The parameters with their tags, in the order in which they are written.
abbrev pub params : Rendezvous → List Param
params rv =
    (codes "only", strings rv.only)
    ∷ (codes "ip", addresses rv.ip)
    ∷ (codes "po", numbers rv.po)
    ∷ (codes "pow", numbers rv.pow)
    ∷ (codes "dn", strings rv.dn)
    ∷ (codes "sch", hashes rv.sch)
    ∷ (codes "cch", hashes rv.cch)
    ∷ (codes "ui", numbers rv.ui)
    ∷ (codes "ss", strings rv.ss)
    ∷ (codes "pw", strings rv.pw)
    ∷ (codes "wsp", strings rv.wsp)
    ∷ (codes "me", strings rv.me)
    ∷ (codes "pr", strings rv.pr)
    ∷ (codes "delaysec", numbers rv.delaysec)
    ∷ []

unfoldable pub sdo_rendezvous_list_add : RendezvousList → Rendezvous → Option RendezvousList
sdo_rendezvous_list_add list rv =
    let count = (list.num_entries + 1) % 2 ^ 16 in
    if list.num_entries == 0
    then some (record { num_entries = count; rv_entries = rv ∷ [] })
    else elim list.rv_entries [
      | [] ↦ none
      | first ∷ rest ↦ some (record { num_entries = count; rv_entries = (first ∷ rest) ++ rv ∷ [] })
    ]

-- So many steps along the list; a step from its end reads through a null pointer.
unfoldable pub walk_list : List Rendezvous → ℕ → Option (Option Rendezvous)
walk_list [] zero = some none
walk_list (rv ∷ rvs) zero = some (some rv)
walk_list [] (suc n) = none
walk_list (rv ∷ rvs) (suc n) = walk_list rvs n

unfoldable pub from_head : List Rendezvous → ℕ → Option (Option Rendezvous)
unfolding walk_list
from_head [] num = some none
from_head (rv ∷ rvs) num = walk_list (rv ∷ rvs) num

unfoldable pub sdo_rendezvous_list_get : RendezvousList → ℕ → Option (Option Rendezvous)
unfolding from_head
sdo_rendezvous_list_get list num =
    if list.num_entries == 0 then some none else from_head list.rv_entries num

module _ (e : Env) where
  unfoldable pub sdo_hash_write : Sdow → Hash → Sdow
  sdo_hash_write w h = sdo_write_byte_array_one_int e w h.hash_type h.hash.bytes h.hash.byte_sz

  -- SDO_CRYPTO_HASH_TYPE_NONE is 0.
  unfoldable pub sdo_hash_null_write : Sdow → Sdow
  sdo_hash_null_write w = sdo_write_byte_array_one_int e w 0 none 0

  unfoldable pub sdo_write_ipaddress : Sdow → IpAddress → Sdow
  sdo_write_ipaddress w ip = sdo_write_byte_array e w (some ip.addr) ip.length

  unfoldable pub write_value : Sdow → Value → Sdow
  unfolding sdo_hash_write sdo_write_ipaddress
  write_value w (a_string s) = sdo_write_string_len e w (bytes_of s.bytes) s.byte_sz
  write_value w (an_address ip) = sdo_write_ipaddress w ip
  write_value w (a_number n) = sdo_write_uint e w n
  write_value w (a_hash h) = sdo_hash_write w h

  -- A parameter that is null is left out.
  unfoldable pub write_params : Sdow → List Param → Sdow
  unfolding write_value
  write_params w [] = w
  write_params w ((tag, none) ∷ ps) = write_params w ps
  write_params w ((tag, some v) ∷ ps) = write_params (write_value (sdo_write_tag e w tag) v) ps

  unfoldable pub sdo_rendezvous_write : Sdow → Rendezvous → Sdow
  unfolding write_params
  sdo_rendezvous_write w rv =
      let counted =
        sdo_write_uint e (record (sdow_begin_sequence e w) { need_comma = false }) rv.num_params in
      let begun = sdow_begin_object e (record counted { need_comma = true }) in
      sdow_end_sequence e (sdow_end_object e (write_params begun (params rv)))

  -- A null entry is left out.
  unfoldable pub write_rendezvous : Sdow → Option (Option Rendezvous) → Option Sdow
  unfolding sdo_rendezvous_write
  write_rendezvous w none = none
  write_rendezvous w (some none) = some w
  write_rendezvous w (some (some rv)) = some (sdo_rendezvous_write w rv)

  -- So many rounds, from an index on.
  unfoldable pub write_loop : RendezvousList → ℕ → ℕ → Sdow → Option Sdow
  unfolding write_rendezvous sdo_rendezvous_list_get
  write_loop list zero index w = some w
  write_loop list (suc n) index w = elim (write_rendezvous w (sdo_rendezvous_list_get list index)) [
    | none ↦ none
    | some w' ↦ write_loop list n (index + 1) w'
  ]

  abbrev pub closed : Option Sdow → Option Sdow
  closed none = none
  closed (some w) = some (sdow_end_sequence e w)

  unfoldable pub sdo_rendezvous_list_write : Sdow → RendezvousList → Option Sdow
  unfolding write_loop
  sdo_rendezvous_list_write w list =
      let counted = sdo_write_uint e (sdow_begin_sequence e w) list.num_entries in
      closed (write_loop list list.num_entries 0 (record counted { need_comma = true }))

-- The number of rounds for a count that is read into an int.
abbrev pub rounds_of : ℕ → ℕ
rounds_of n = if ltb n (2 ^ 31) then n else 0

-- `sdo_rendezvous_read` is passed; `none` as its result is a failure, which leaves the entry out.
module _ (read : Sdor → Sdor × Option Rendezvous) where
  unfoldable pub add_read : RendezvousList → Option Rendezvous → Option RendezvousList
  unfolding sdo_rendezvous_list_add
  add_read list none = some list
  add_read list (some rv) = sdo_rendezvous_list_add list rv

  unfoldable pub read_loop : ℕ → Sdor → RendezvousList → Option (Sdor × RendezvousList)
  unfolding add_read
  read_loop zero r list = some (r, list)
  read_loop (suc n) r list =
      let got = read r in
      elim (add_read list got.1) [ none ↦ none | some list' ↦ read_loop n got.0 list' ]

  abbrev ended : Option (Sdor × RendezvousList) → Option (Sdor × (RendezvousList × Bool))
  ended none = none
  ended (some (r, list)) = let end = sdor_end_sequence r in some (end.0, (list, end.1))

  unfoldable pub sdo_rendezvous_list_read :
      Sdor → RendezvousList → Option (Sdor × (RendezvousList × Bool))
  unfolding read_loop
  sdo_rendezvous_list_read r list =
      let begun = sdor_begin_sequence r in
      let num_rvs = sdo_read_uint begun.0 in
      if begun.1
      then ended (read_loop (rounds_of num_rvs.1) num_rvs.0 list)
      else some (begun.0, (list, false))
