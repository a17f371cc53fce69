-- ===== src/Types/ServiceInfo.antt =====
-- lib/sdotypes.c: the key-value list of the service information. A pointer into the list, such as
-- `sdo_service_info_fetch` returns, is an index; the index behind the last entry is that of the
-- null pointer at the end.
pub mod Lookup
pub mod Update
use client_sdk.Base.{
  ℕ, zero, suc, ◌+◌, Bool, true, false, ◌&&◌, not, Option, none, some, List, [], ◌∷◌, ◌++◌, Bytes,
  length, get_elem?, set, ◌==◌, if◌then◌else◌,
}
use client_sdk.Env.{Env, bytes_of}
use client_sdk.Writer.{Sdow, sdo_write_tag_len, sdo_write_string_len}
use client_sdk.Types.{
  Bits, SdoString, sdo_max_str_size, strnlen_s, bad_length, no_bits, sdo_bits_alloc_with,
  sdo_string_alloc_with, sdo_string_alloc_with_str, sdo_string_resize_with,
}

pub record KeyValue : Type 0 where
  pub key : SdoString
  pub val : Option SdoString

pub record ServiceInfo : Type 0 where
  pub num_kv : ℕ
  pub kv : List KeyValue

-- `strcasecmp_s(dest, dmax, src, &res)` returns 0 with res = 0.
abbrev pub SameKey : Type 0
SameKey = Bytes → ℕ → Bytes → Bool

abbrev key_value_size : ℕ
key_value_size = 24

unfoldable pub no_service_info : ServiceInfo
no_service_info = record { num_kv = 0; kv = [] }

pair_up : Option SdoString → Option SdoString → Option KeyValue
pair_up none val = none
pair_up (some k) none = none
pair_up (some k) (some v) = some (record { key = k; val = some v })

module _ (e : Env) where
  unfoldable pub sdo_kv_alloc_with_str : Bytes → Bytes → Option KeyValue
  unfolding pair_up
  sdo_kv_alloc_with_str key val =
      let key_len = strnlen_s key sdo_max_str_size in
      let val_len = strnlen_s val sdo_max_str_size in
      if not (e.alloc key_value_size)
      then none
      else if bad_length key_len
      then none
      else if val_len == sdo_max_str_size
      then none
      else pair_up (sdo_string_alloc_with e (some key) key_len)
          (sdo_string_alloc_with e (some val) val_len)

  unfoldable pub sdo_kv_alloc_with_array : Bytes → Bits → Option KeyValue
  unfolding pair_up
  sdo_kv_alloc_with_array key val =
      let key_len = strnlen_s key sdo_max_str_size in
      if not (e.alloc key_value_size)
      then none
      else if bad_length key_len
      then none
      else pair_up (sdo_string_alloc_with e (some key) key_len)
          (sdo_bits_alloc_with e val.byte_sz val.bytes)

  unfoldable pub sdo_kv_write : Sdow → SdoString → SdoString → Sdow
  sdo_kv_write w key val =
      record (sdo_write_string_len e (sdo_write_tag_len e w (bytes_of key.bytes) key.byte_sz)
        (bytes_of val.bytes) val.byte_sz) { need_comma = true }

module _ (same : SameKey) where
  unfoldable pub matches : Bytes → KeyValue → Bool
  matches key kv =
      let keylen = strnlen_s key sdo_max_str_size in
      not (bad_length keylen) && same key keylen (bytes_of kv.key.bytes)

  unfoldable pub sdo_service_info_fetch : List KeyValue → Bytes → ℕ
  sdo_service_info_fetch [] key = 0
  sdo_service_info_fetch (kv ∷ kvs) key =
      if matches key kv then 0 else suc (sdo_service_info_fetch kvs key)

-- The loop stops at the index, or at the end.
unfoldable pub sdo_service_info_get : List KeyValue → ℕ → ℕ
sdo_service_info_get [] num = 0
sdo_service_info_get (kv ∷ kvs) zero = 0
sdo_service_info_get (kv ∷ kvs) (suc num) = suc (sdo_service_info_get kvs num)

module _ (e : Env) where
  append_kv : ServiceInfo → Option KeyValue → ServiceInfo × Bool
  append_kv si none = (si, false)
  append_kv si (some kv) = (record { num_kv = si.num_kv + 1; kv = si.kv ++ kv ∷ [] }, true)

  -- The entry's new value. A length that is refused frees the string, and its pointer stays: the
  -- value is without its bytes then.
  new_string : Option SdoString → Bytes → Option SdoString × Bool
  new_string none val = (sdo_string_alloc_with_str e (some val), true)
  new_string (some old) val =
      let val_len = strnlen_s val sdo_max_str_size in
      if bad_length val_len
      then (some no_bits, false)
      else (some (sdo_string_resize_with e old val_len val).0, true)

  put_at : ServiceInfo → ℕ → KeyValue → Option SdoString × Bool → ServiceInfo × Bool
  put_at si i kv (v, ok) = (record si { kv = set si.kv i (record kv { val = v }) }, ok)

  add_or_update : ServiceInfo → ℕ → Option KeyValue → Bytes → Bytes → ServiceInfo × Bool
  unfolding append_kv new_string put_at
  add_or_update si i none key val = append_kv si (sdo_kv_alloc_with_str e key val)
  add_or_update si i (some kv) key val = put_at si i kv (new_string kv.val val)

  unfoldable pub sdo_service_info_add_kv_str :
      SameKey → ServiceInfo → Bytes → Bytes → ServiceInfo × Bool
  unfolding add_or_update
  sdo_service_info_add_kv_str same si key val =
      let i = sdo_service_info_fetch same si.kv key in
      add_or_update si i (get_elem? si.kv i) key val

-- At the head of an empty list the count starts again at 1.
unfoldable pub sdo_service_info_add_kv : ServiceInfo → KeyValue → ServiceInfo
sdo_service_info_add_kv si kv = elim si.kv [
  | [] ↦ record { num_kv = 1; kv = kv ∷ [] }
  | first ∷ rest ↦ record { num_kv = si.num_kv + 1; kv = si.kv ++ kv ∷ [] }
]

module _ (e : Env) where
  -- The entry at an index is written, where it has a value.
  write_entry : Sdow → Option KeyValue → Sdow × Bool
  write_entry w none = (w, false)
  write_entry w (some kv) = elim kv.val [
    | none ↦ (w, false)
    | some val ↦ (sdo_kv_write e w kv.key val, true)
  ]

  -- The loop from the entry `num` on, with the number of entries left as fuel.
  unfoldable pub combine_loop : ℕ → ℕ → Sdow → List KeyValue → Sdow × Bool
  unfolding write_entry
  combine_loop zero num w kvs = (w, true)
  combine_loop (suc left) num w kvs =
      let written = write_entry w (get_elem? kvs (sdo_service_info_get kvs num)) in
      elim written.1 [
        | true ↦ combine_loop left (num + 1) written.0 kvs
        | false ↦ (written.0, false)
      ]

  unfoldable pub sdo_combine_platform_dsis : Sdow → ServiceInfo → Sdow × Bool
  unfolding combine_loop
  sdo_combine_platform_dsis w si = combine_loop si.num_kv 0 w si.kv
