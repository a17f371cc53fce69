-- ===== src/Types/Modules/Psi.antt =====
-- lib/sdotypes.c: the pre-service information, a text of entries `module:message~value` with commas
-- between them. `psi_len` is the length that the text is given with, its terminator included, and
-- every index stays inside the text. Each part is copied into a buffer with the size of its limit: where
-- a part has just that length, its terminator is written behind the buffer, and the model ends there.
pub mod Parsing
pub mod Loop
use client_sdk.Base.{
  ℕ, zero, suc, ◌+◌, ◌-◌, Bool, true, false, not, Option, none, some, List, [], ◌∷◌, Bytes, length,
  take, drop, ltb, ◌==◌, if◌then◌else◌, ◌||◌,
}
use client_sdk.Env.{Env}
use client_sdk.Types.{sdo_max_str_size, strnlen_s, bad_length}
use client_sdk.Types.Modules.{
  Module, SiKeyValue, Supplied, si_content_error, si_internal_error, si_success, message_body_error,
  sdo_module_name_len, sdo_module_msg_len, sdo_module_value_len, sdo_supply_module_psi,
}

-- The parts of an entry, what `*cb_return_val` is left at, or a write behind a buffer.
pub data Parsed : Type 0 where
  parts : Bytes → Bytes → Bytes → Parsed
  refused : ℕ → Parsed
  overrun : Parsed

-- `strchr`: the string from the first such character on.
abbrev pub strchr : Bytes → ℕ → Option Bytes
strchr [] c = none
strchr (x ∷ s) c = if x == c then some (x ∷ s) else strchr s c

-- The value is what stands behind `~`, up to its length of `rem_len`.
value_part : Bytes → Bytes → Bytes → Parsed
value_part name msg rem =
    let rem_len = strnlen_s rem sdo_max_str_size - 1 in
    if ltb 0 rem_len
    then if ltb sdo_module_value_len rem_len
      then refused si_content_error
      else if rem_len == sdo_module_value_len
      then overrun
      else parts name msg (take rem_len (drop 1 rem))
    else parts name msg []

-- `psi_tuple` and `psi_len` are behind the `:`.
msg_part : Bytes → Bytes → ℕ → Option Bytes → Parsed
unfolding value_part
msg_part name psi_tuple psi_len none = refused message_body_error
msg_part name psi_tuple psi_len (some rem) =
    let rem_len = strnlen_s rem sdo_max_str_size in
    let msg_len = psi_len - rem_len in
    if bad_length rem_len
    then refused si_internal_error
    else if msg_len == 0
    then value_part name [] rem
    else if ltb sdo_module_msg_len msg_len
    then refused si_content_error
    else if msg_len == sdo_module_msg_len
    then overrun
    else value_part name (take msg_len psi_tuple) rem

name_part : Bytes → ℕ → Option Bytes → Parsed
unfolding msg_part
name_part psi_tuple psi_len none = refused message_body_error
name_part psi_tuple psi_len (some rem) =
    let rem_len = strnlen_s rem sdo_max_str_size in
    let name_len = psi_len - rem_len in
    if bad_length rem_len
    then refused si_internal_error
    else if name_len == 0
    then refused message_body_error
    else if ltb sdo_module_name_len name_len
    then refused si_content_error
    else if name_len == sdo_module_name_len
    then overrun
    else let behind = drop (name_len + 1) psi_tuple in
      msg_part (take name_len psi_tuple) behind (psi_len - name_len - 1) (strchr behind b'~')

-- An entry of length 0 is refused with `*cb_return_val` as it was.
unfoldable pub sdo_get_module_name_msg_value : Bytes → ℕ → ℕ → Parsed
unfolding name_part
sdo_get_module_name_msg_value psi_tuple psi_len cb =
    if psi_len == 0 then refused cb else name_part psi_tuple psi_len (strchr psi_tuple b':')

-- `strtok_s(s, &len, ",", &ptr)`: the token, and the text and the length that are left behind it.
abbrev pub Tokenizer : Type 0
Tokenizer = Bytes → ℕ → Option (Bytes × Bytes × ℕ)

-- What a run of the parser leaves: a result, a write behind a buffer, or no result since the fuel
-- ran out.
pub data PsiEnd (W : Type 0) : Type 0 where
  ended : Supplied W → PsiEnd W
  overran : PsiEnd W
  out_of_fuel : PsiEnd W

module _ (e : Env) {W : Type 0} where
  -- The pair is a local variable: nothing of it is left.
  supply : Supplied W → Parsed → PsiEnd W
  supply s overrun = overran
  supply s (refused cb) = ended (record s { cb_return_val = some cb; ok = false })
  supply s (parts name msg value) =
      ended
        (record (sdo_supply_module_psi e s.module_list (some name)
          (some (record { key = some msg; value = some value })) s.cb_return_val s.world) {
            sv_kv = none;
          })

  cb_of : Supplied W → ℕ
  cb_of s = elim s.cb_return_val [ none ↦ 0 | some cb ↦ cb ]

  -- One entry of the text.
  entry : Supplied W → Bytes → PsiEnd W
  unfolding supply cb_of
  entry s psi_tuple =
      let psi_tuple_len = strnlen_s psi_tuple sdo_max_str_size in
      if bad_length psi_tuple_len
      then ended (record s { cb_return_val = some si_internal_error; ok = false })
      else supply s (sdo_get_module_name_msg_value psi_tuple psi_tuple_len (cb_of s))

module _ (e : Env) (strtok_s : Tokenizer) {W : Type 0} where
  -- Behind an entry, the next token, unless the entry has failed.
  go_on : PsiEnd W → (Supplied W → PsiEnd W) → PsiEnd W
  go_on overran later = overran
  go_on out_of_fuel later = out_of_fuel
  go_on (ended done) later = let next = later done in if done.ok then next else ended done

  -- The loop over the tokens.
  unfoldable pub psi_loop : ℕ → Supplied W → Option (Bytes × Bytes × ℕ) → PsiEnd W
  unfolding entry go_on
  psi_loop zero s token = out_of_fuel
  psi_loop (suc fuel) s none = ended (record s { cb_return_val = some si_success; ok = true })
  psi_loop (suc fuel) s (some (psi_tuple, left, len)) =
      go_on (entry e s psi_tuple) (λ done. psi_loop fuel done (strtok_s left len))

  unfoldable pub sdo_psi_parsing : ℕ → List (Module W) → Bytes → ℕ → Option ℕ → W → PsiEnd W
  unfolding psi_loop
  sdo_psi_parsing fuel ms psi psi_len none w =
      ended (record { module_list = ms; sv_kv = none; cb_return_val = none; ok = false; world = w })
  sdo_psi_parsing fuel [] psi psi_len (some cb) w = ended (record {
    module_list = [];
    sv_kv = none;
    cb_return_val = some si_success;
    ok = true;
    world = w;
  })
  sdo_psi_parsing fuel (m ∷ ms) psi psi_len (some cb) w =
      psi_loop fuel
        (record {
          module_list = m ∷ ms;
          sv_kv = none;
          cb_return_val = some cb;
          ok = true;
          world = w;
        })
        (strtok_s psi (psi_len - 1))
