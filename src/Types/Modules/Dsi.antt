-- ===== src/Types/Modules/Dsi.antt =====
-- lib/sdotypes.c: the device service information of the modules, one pair for each round trip.
pub mod Rounds
use client_sdk.Base.{
  ℕ, suc, ◌+◌, Bool, true, false, ◌||◌, Option, none, some, List, [], ◌∷◌, ◌++◌, Bytes, length, ltb,
  ◌==◌, if◌then◌else◌,
}
use client_sdk.Env.{Env, bytes_of}
use client_sdk.Writer.{Sdow, sdo_write_tag_len, sdo_write_string_len}
use client_sdk.Types.{sdo_max_str_size, strnlen_s, bad_length}
use client_sdk.Types.Modules.{Module, SiKeyValue, get_dsi, si_internal_error, si_success}

module _ (e : Env) where
  -- The copy of the value, with the new key in place.
  data_value : SiKeyValue → Bytes → SiKeyValue × Bool
  data_value sv value =
      let size = strnlen_s value sdo_max_str_size in
      if size == sdo_max_str_size
      then (sv, false)
      else if e.alloc (size + 1)
      then (record sv { value = some value }, true)
      else (sv, false)

  data_key : Bytes → SiKeyValue → Bytes → Bytes → SiKeyValue × Bool
  unfolding data_value
  data_key mod_name sv key value =
      let strlen_name = strnlen_s mod_name sdo_max_str_size in
      let strlen_sv_key = strnlen_s key sdo_max_str_size in
      if bad_length strlen_name || bad_length strlen_sv_key
      then (sv, false)
      else if e.alloc (strlen_name + strlen_sv_key + 2)
      then data_value (record sv { key = some (mod_name ++ (b':' ∷ key)) }) value
      else (sv, false)

  -- The module's name goes in front of the key. Null strings are refused.
  unfoldable pub sdo_mod_data_kv : Bytes → SiKeyValue → SiKeyValue × Bool
  unfolding data_key
  sdo_mod_data_kv mod_name sv = elim sv.key [
    | none ↦ (sv, false)
    | some key ↦ elim sv.value [ none ↦ (sv, false) | some value ↦ data_key mod_name sv key value ]
  ]

  -- `strnlen_s` of a null pointer is 0.
  unfoldable pub sdo_mod_kv_write : Sdow → SiKeyValue → Sdow × Bool
  sdo_mod_kv_write w sv =
      let key_len = strnlen_s (bytes_of sv.key) sdo_max_str_size in
      let value_len = strnlen_s (bytes_of sv.value) sdo_max_str_size in
      if bad_length key_len || value_len == sdo_max_str_size
      then (w, false)
      else let tagged = sdo_write_tag_len e w (bytes_of sv.key) key_len in
        let written = sdo_write_string_len e tagged (bytes_of sv.value) value_len in
        (record written { need_comma = true }, true)

pub record DsiInfo (W : Type 0) : Type 0 where
  pub list_dsi : List (Module W)
  pub module_dsi_index : ℕ

-- The pointers' targets after the call, its result and the world.
pub record Built (W : Type 0) : Type 0 where
  pub dsi_info : DsiInfo W
  pub sv_kv : SiKeyValue
  pub cb_return_val : ℕ
  pub ok : Bool
  pub world : W

module _ {W : Type 0} where
  -- Behind the last pair of a module the next module is to come.
  unfoldable pub next_module : Module W → List (Module W) → ℕ → DsiInfo W
  next_module m ms index =
      if index == m.module_dsi_count
      then record { list_dsi = ms; module_dsi_index = 0 }
      else record { list_dsi = m ∷ ms; module_dsi_index = index }

  -- The pair with its key, or the refusal.
  finish : Module W → List (Module W) → ℕ → W → SiKeyValue → Bool → Built W
  unfolding next_module
  finish m ms index w sv true = record {
    dsi_info = next_module m ms (index + 1);
    sv_kv = sv;
    cb_return_val = si_success;
    ok = true;
    world = w;
  }
  finish m ms index w sv false = record {
    dsi_info = record { list_dsi = m ∷ ms; module_dsi_index = index };
    sv_kv = sv;
    cb_return_val = si_internal_error;
    ok = false;
    world = w;
  }

  module _ (e : Env) where
    ask_module : Module W → List (Module W) → ℕ → SiKeyValue → W → Built W
    unfolding finish
    ask_module m ms index sv w =
        let reply = m.service_info_callback get_dsi (some index) (some sv) w in
        let named = sdo_mod_data_kv e m.module_name reply.si in
        if reply.ret == si_success
        then finish m ms reply.count reply.world named.0 named.1
        else record {
          dsi_info = record { list_dsi = m ∷ ms; module_dsi_index = reply.count };
          sv_kv = reply.si;
          cb_return_val = reply.ret;
          ok = false;
          world = reply.world;
        }

    -- The pointers are those of the caller's objects; `none` is a read through a null list.
    unfoldable pub sdo_construct_module_dsi : DsiInfo W → SiKeyValue → W → Option (Built W)
    unfolding ask_module next_module
    sdo_construct_module_dsi info sv w = elim info.list_dsi [
      | [] ↦ none
      | m ∷ ms ↦
          if ltb info.module_dsi_index m.module_dsi_count
          then some (ask_module m ms info.module_dsi_index sv w)
          else some (record {
            dsi_info = next_module m ms info.module_dsi_index;
            sv_kv = sv;
            cb_return_val = si_success;
            ok = true;
            world = w;
          })
    ]
