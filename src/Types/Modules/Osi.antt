-- ===== src/Types/Modules/Osi.antt =====
-- lib/sdotypes.c: the owner's service information, pairs with a key `module:message`.
pub mod Keys
use client_sdk.Base.{
  ℕ, zero, suc, ◌+◌, ◌-◌, Bool, true, false, Option, none, some, List, [], ◌∷◌, Bytes, length, take,
  ltb, ◌==◌, if◌then◌else◌,
}
use client_sdk.Env.{Env, bytes_of}
use client_sdk.Reader.{Sdor, sdo_read_string, sdo_read_string_sz}
use client_sdk.Reader.Fields.{sdo_read_tag}
use client_sdk.Types.{strnlen_s}
use client_sdk.Types.Modules.{
  Module, SiKeyValue, Supplied, si_internal_error, si_success, message_body_error,
  sdo_module_name_len, sdo_supply_module_osi,
}

name_char : ℕ → Option (Bytes × ℕ × Bytes) → Option (Bytes × ℕ × Bytes)
name_char c none = none
name_char c (some (name, left, behind)) = some (c ∷ name, left, behind)

-- The characters in front of the first `:`, how many of the n are left there, and what is behind it.
-- The loop stops with an error at the index n.
unfoldable pub split_key : ℕ → Bytes → Option (Bytes × ℕ × Bytes)
unfolding name_char
split_key n [] = none
split_key zero (c ∷ s) = if c == b':' then some ([], 0, s) else none
split_key (suc n) (c ∷ s) =
    let more = name_char c (split_key n s) in if c == b':' then some ([], suc n, s) else more

module _ (e : Env) {W : Type 0} where
  -- What a failure leaves.
  fails : List (Module W) → SiKeyValue → ℕ → W → Supplied W
  fails ms sv code w = record {
    module_list = ms;
    sv_kv = some sv;
    cb_return_val = some code;
    ok = false;
    world = w;
  }

  -- The return value of a callback that failed stays.
  unfoldable pub settled : Supplied W → Supplied W
  settled s = if s.ok then record s { cb_return_val = some si_success } else s

  -- The message's name, which ends at the key's last character that is looked at, becomes the key.
  supply_split : List (Module W) → SiKeyValue → ℕ → W → Option (Bytes × ℕ × Bytes) → Supplied W
  unfolding fails settled
  supply_split ms sv cb w none = fails ms sv message_body_error w
  supply_split ms sv cb w (some (mod_name, left, behind)) =
      let mod_msg = take left behind in
      settled (
        sdo_supply_module_osi e ms (some mod_name) (some (record sv { key = some mod_msg }))
          (some cb) w)

  -- The pair is not null, as in the one caller.
  unfoldable pub sdo_osi_handling : List (Module W) → SiKeyValue → Option ℕ → W → Supplied W
  unfolding supply_split
  sdo_osi_handling ms sv none w = record {
    module_list = ms;
    sv_kv = some sv;
    cb_return_val = none;
    ok = false;
    world = w;
  }
  sdo_osi_handling ms sv (some cb) w = elim sv.key [
    | none ↦ fails ms sv si_internal_error w
    | some key ↦
        let osi_key_len = strnlen_s key sdo_module_name_len in
        if osi_key_len == 0
        then fails ms sv si_internal_error w
        else supply_split ms sv cb w (split_key osi_key_len key)
  ]
