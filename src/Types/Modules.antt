-- ===== src/Types/Modules.antt =====
-- include/sdomodules.h and lib/sdotypes.c: the service information modules, their list and the calls
-- of their callbacks. A module's callback is code outside the SDK: a function of its arguments and
-- of a world `W` that it may change. The counts and indices are `int`s that never become negative.
pub mod Psi
pub mod Osi
pub mod Dsi
pub mod Dispatch
use client_sdk.Base.{
  ℕ, ◌+◌, ◌-◌, ◌&&◌, Bool, true, false, Option, none, some, List, [], ◌∷◌, ◌++◌, Bytes, length,
  take, drop, ltb, leb, ◌==◌, if◌then◌else◌,
}
use client_sdk.Env.{Env}
use client_sdk.Types.{sdo_max_str_size, strnlen_s, bad_length}

pub data SiType : Type 0 where
  start : SiType
  get_dsi_count : SiType
  set_psi : SiType
  get_dsi : SiType
  set_osi : SiType
  end : SiType
  failure : SiType

-- `SDO_SI_CONTENT_ERROR`, `SDO_SI_INTERNAL_ERROR` and `SDO_SI_SUCCESS`.
abbrev pub si_content_error : ℕ
si_content_error = 0

abbrev pub si_internal_error : ℕ
si_internal_error = 1

abbrev pub si_success : ℕ
si_success = 2

abbrev pub message_body_error : ℕ
message_body_error = 100

abbrev pub sdo_module_name_len : ℕ
sdo_module_name_len = 32

abbrev pub sdo_module_msg_len : ℕ
sdo_module_msg_len = 32

abbrev pub sdo_module_value_len : ℕ
sdo_module_value_len = 100

pub record SiKeyValue : Type 0 where
  pub key : Option Bytes
  pub value : Option Bytes

-- What a callback returns and what it leaves in `*count`, in `*si` and in the world.
pub record Reply (W : Type 0) : Type 0 where
  pub ret : ℕ
  pub count : ℕ
  pub si : SiKeyValue
  pub world : W

-- The pointers `count` and `si` may be null.
abbrev pub ModuleCallback : Type 0 → Type 0
ModuleCallback W = SiType → Option ℕ → Option SiKeyValue → W → Reply W

pub record Module (W : Type 0) : Type 0 where
  pub module_name : Bytes
  pub service_info_callback : ModuleCallback W
  pub module_psi_index : ℕ
  pub module_dsi_count : ℕ
  pub module_osi_index : ℕ

-- The list, the pair, `*cb_return_val` (none where that pointer is null), the result and the world.
pub record Supplied (W : Type 0) : Type 0 where
  pub module_list : List (Module W)
  pub sv_kv : Option SiKeyValue
  pub cb_return_val : Option ℕ
  pub ok : Bool
  pub world : W

module _ {W : Type 0} where
  unfoldable pub sdo_mod_exec_sv_infotype : List (Module W) → SiType → W → W × Bool
  sdo_mod_exec_sv_infotype [] type w = (w, true)
  sdo_mod_exec_sv_infotype (m ∷ ms) type w =
      let reply = m.service_info_callback type none none w in
      elim (reply.ret == si_success) [
        | true ↦ sdo_mod_exec_sv_infotype ms type reply.world
        | false ↦ (reply.world, false)
      ]

  -- The loop: the list, the sum, the callback's return value, the result and the world.
  unfoldable pub count_loop : List (Module W) → ℕ → W → List (Module W) × ℕ × ℕ × Bool × W
  count_loop [] sum w = ([], sum, si_success, true, w)
  count_loop (m ∷ ms) sum w =
      let reply = m.service_info_callback get_dsi_count (some 0) none w in
      elim (reply.ret == si_success) [
        | true ↦
            let more = count_loop ms (sum + reply.count) reply.world in
            (record m { module_dsi_count = reply.count } ∷ more.0, more.1, more.2, more.3, more.4)
        | false ↦ (m ∷ ms, sum, reply.ret, false, reply.world)
      ]

  -- The list, `*mod_mes_count`, `*cb_return_val`, the result and the world.
  unfoldable pub sdo_get_dsi_count :
      List (Module W) → Option ℕ → Option ℕ → W → List (Module W) × Option ℕ × Option ℕ × Bool × W
  unfolding count_loop
  sdo_get_dsi_count ms count none w = (ms, count, none, false, w)
  sdo_get_dsi_count [] count (some cb) w = ([], count, some si_success, true, w)
  sdo_get_dsi_count (m ∷ ms) none (some cb) w = (m ∷ ms, none, some si_internal_error, false, w)
  sdo_get_dsi_count (m ∷ ms) (some sum) (some cb) w =
      let got = count_loop (m ∷ ms) sum w in (got.0, some got.1, some got.2, got.3, got.4)

  unfoldable pub sdo_sv_info_clear_module_psi_osi_index : List (Module W) → List (Module W)
  sdo_sv_info_clear_module_psi_osi_index [] = []
  sdo_sv_info_clear_module_psi_osi_index (m ∷ ms) =
      record m { module_psi_index = 0; module_osi_index = 0 }
      ∷ sdo_sv_info_clear_module_psi_osi_index ms

  -- The callback of the module is called for OSI, and its index goes up.
  unfoldable pub call_osi : Module W → SiKeyValue → W → Supplied W
  call_osi m sv w =
      let reply = m.service_info_callback set_osi (some m.module_osi_index) (some sv) w in
      record {
        module_list = record m { module_osi_index = reply.count + 1 } ∷ [];
        sv_kv = some reply.si;
        cb_return_val = some reply.ret;
        ok = reply.ret == si_success;
        world = reply.world;
      }

  unfoldable pub call_psi : Module W → SiKeyValue → W → Supplied W
  call_psi m sv w =
      let reply = m.service_info_callback set_psi (some m.module_psi_index) (some sv) w in
      record {
        module_list = record m { module_psi_index = reply.count + 1 } ∷ [];
        sv_kv = some reply.si;
        cb_return_val = some reply.ret;
        ok = reply.ret == si_success;
        world = reply.world;
      }

module _ (e : Env) {W : Type 0} where
  -- `strcmp_s(module_name, SDO_MODULE_NAME_LEN, mod_name, &strcmp_result)` leaves 0.
  abbrev pub is_named : Bytes → Module W → Bool
  is_named name m = e.strcmp_s_zero m.module_name sdo_module_name_len name

  -- The walk to the first module of the name; `call` is what is done there.
  unfoldable pub walk :
      (Module W → SiKeyValue → W → Supplied W)
      → List (Module W)
      → Bytes
      → SiKeyValue
      → ℕ
      → W
      → Supplied W
  walk call [] name sv cb w = record {
    module_list = [];
    sv_kv = some sv;
    cb_return_val = some cb;
    ok = true;
    world = w;
  }
  walk call (m ∷ ms) name sv cb w =
      let here = call m sv w in
      let later = walk call ms name sv cb w in
      if is_named name m
      then record here { module_list = here.module_list ++ ms }
      else record later { module_list = m ∷ later.module_list }

  -- A null name or pair is an internal error.
  unfoldable pub sdo_supply_module :
      (Module W → SiKeyValue → W → Supplied W)
      → List (Module W)
      → Option Bytes
      → Option SiKeyValue
      → Option ℕ
      → W
      → Supplied W
  unfolding walk
  sdo_supply_module call ms name sv none w = record {
    module_list = ms;
    sv_kv = sv;
    cb_return_val = none;
    ok = false;
    world = w;
  }
  sdo_supply_module call ms none sv (some cb) w = record {
    module_list = ms;
    sv_kv = sv;
    cb_return_val = some si_internal_error;
    ok = false;
    world = w;
  }
  sdo_supply_module call ms (some name) none (some cb) w = record {
    module_list = ms;
    sv_kv = none;
    cb_return_val = some si_internal_error;
    ok = false;
    world = w;
  }
  sdo_supply_module call ms (some name) (some sv) (some cb) w = walk call ms name sv cb w

  unfoldable pub sdo_supply_module_osi :
      List (Module W) → Option Bytes → Option SiKeyValue → Option ℕ → W → Supplied W
  unfolding sdo_supply_module call_osi
  sdo_supply_module_osi = sdo_supply_module call_osi

  unfoldable pub sdo_supply_module_psi :
      List (Module W) → Option Bytes → Option SiKeyValue → Option ℕ → W → Supplied W
  unfolding sdo_supply_module call_psi
  sdo_supply_module_psi = sdo_supply_module call_psi

-- `strcpy_s` of a string behind the first n bytes of the buffer of `SDO_MAX_STR_SIZE` bytes fails.
abbrev no_room : ℕ → Bytes → Bool
no_room n s = leb (sdo_max_str_size - n) (length s)

module _ {W : Type 0} where
  -- `SEPARATOR` between two names, and nothing behind the last.
  abbrev pub separator : List (Module W) → Bytes
  separator [] = []
  separator (m ∷ ms) = b';' ∷ []

  unfoldable pub list_loop : List (Module W) → Bytes → Option Bytes
  list_loop [] temp = some temp
  list_loop (m ∷ ms) temp =
      let name = m.module_name in
      let more = list_loop ms ((temp ++ name) ++ separator ms) in
      if no_room (length temp) name
      then none
      else if bad_length (strnlen_s name sdo_max_str_size)
      then none
      else if no_room (length temp + length name) (separator ms)
      then none
      else more

  -- Without modules the string is empty. The buffer is cleared, so the string ends behind the names.
  unfoldable pub sdo_construct_module_list : Env → List (Module W) → Option Bytes
  unfolding list_loop
  sdo_construct_module_list e [] = if e.alloc 1 then some [] else none
  sdo_construct_module_list e (m ∷ ms) =
      if e.alloc sdo_max_str_size then list_loop (m ∷ ms) [] else none
