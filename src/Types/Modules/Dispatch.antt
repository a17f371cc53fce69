-- ===== src/Types/Modules/Dispatch.antt =====
-- lib/sdotypes.c: to whom `sdo_supply_modulePSI` and `sdo_supply_moduleOSI` pass a pair, and what
-- `sdo_construct_module_list` joins.
use client_sdk.Base.{
  ℕ, ◌+◌, ◌<◌, ◌≡◌, refl, ◌∙◌, true, false, Option, none, some, List, [], ◌∷◌, ◌++◌, append_assoc,
  append-nil, arith, Bytes, All, length, length-append, ltb, ◌==◌, if◌then◌else◌,
}
use client_sdk.Env.{Env}
use client_sdk.Types.{sdo_max_str_size}
use client_sdk.Types.Modules.{
  set_psi, set_osi, si_success, SiKeyValue, Module, Supplied, is_named, call_psi, call_osi, walk,
  sdo_supply_module, sdo_supply_module_psi, sdo_supply_module_osi, list_loop,
  sdo_construct_module_list,
}

module _ (e : Env) {W : Type 0} where
  -- No module of the list has the name.
  abbrev pub NoneNamed : Bytes → List (Module W) → Type 0
  NoneNamed name ms = All (λ m. is_named e name m ≡ false) ms

  walk-skips :
      (call : Module W → SiKeyValue → W → Supplied W) (before ms : List (Module W)) (name : Bytes)
      (sv : SiKeyValue) (cb : ℕ) (w : W)
      → NoneNamed name before
      → walk e call (before ++ ms) name sv cb w ≡ record (walk e call ms name sv cb w) {
        module_list = before ++ (walk e call ms name sv cb w).module_list;
      }
  unfolding walk
  walk-skips call [] ms name sv cb w h = refl
  walk-skips call (m ∷ before) ms name sv cb w h =
      rw (h.0, walk-skips call before ms name sv cb w h.1)

  walk-first :
      (call : Module W → SiKeyValue → W → Supplied W) (before : List (Module W)) (m : Module W)
      (after : List (Module W)) (name : Bytes) (sv : SiKeyValue) (cb : ℕ) (w : W)
      → NoneNamed name before
      → is_named e name m ≡ true
      → walk e call (before ++ m ∷ after) name sv cb w
        ≡ record (call m sv w) { module_list = before ++ ((call m sv w).module_list ++ after) }
  unfolding walk
  walk-first call before m after name sv cb w h named =
      walk-skips call before (m ∷ after) name sv cb w h ∙ rw named

  -- sdo_supply_modulePSI and sdo_supply_moduleOSI call the first module that has the name, with
  -- its index and the pair, set the index to one above what the callback leaves there, pass on its
  -- return value, and leave every other module as it was.
  pub supply-first :
      (before : List (Module W)) (m : Module W) (after : List (Module W)) (name : Bytes)
      (sv : SiKeyValue) (cb : ℕ) (w : W)
      → NoneNamed name before
      → is_named e name m ≡ true
      → (let reply = m.service_info_callback set_psi (some m.module_psi_index) (some sv) w in
          sdo_supply_module_psi e (before ++ m ∷ after) (some name) (some sv) (some cb) w ≡ record {
            module_list = before ++ record m { module_psi_index = reply.count + 1 } ∷ after;
            sv_kv = some reply.si;
            cb_return_val = some reply.ret;
            ok = reply.ret == si_success;
            world = reply.world;
          })
        × (let reply = m.service_info_callback set_osi (some m.module_osi_index) (some sv) w in
            sdo_supply_module_osi e (before ++ m ∷ after) (some name) (some sv) (some cb) w
            ≡ record {
              module_list = before ++ record m { module_osi_index = reply.count + 1 } ∷ after;
              sv_kv = some reply.si;
              cb_return_val = some reply.ret;
              ok = reply.ret == si_success;
              world = reply.world;
            })
  unfolding sdo_supply_module_psi sdo_supply_module_osi sdo_supply_module call_psi call_osi
  supply-first before m after name sv cb w h named = (
    walk-first call_psi before m after name sv cb w h named,
    walk-first call_osi before m after name sv cb w h named,
  )

  pub supply-nobody :
      (call : Module W → SiKeyValue → W → Supplied W) (ms : List (Module W)) (name : Bytes)
      (sv : SiKeyValue) (cb : ℕ) (w : W)
      → NoneNamed name ms
      → sdo_supply_module e call ms (some name) (some sv) (some cb) w ≡ record {
        module_list = ms;
        sv_kv = some sv;
        cb_return_val = some cb;
        ok = true;
        world = w;
      }
  unfolding sdo_supply_module walk
  supply-nobody call [] name sv cb w h = refl
  supply-nobody call (m ∷ ms) name sv cb w h = rw (h.0, supply-nobody call ms name sv cb w h.1)

fitting : Bytes → Bytes → Option Bytes
fitting temp s = if ltb (length temp + length s) sdo_max_str_size then some (temp ++ s) else none

module _ {W : Type 0} where
  -- The names with `;` between them.
  unfoldable pub joined : List (Module W) → Bytes
  joined [] = []
  joined (m ∷ []) = m.module_name
  joined (m ∷ m' ∷ ms) = m.module_name ++ (b';' ∷ joined (m' ∷ ms))

  abbrev pub AllNamed : List (Module W) → Type 0
  AllNamed ms = All (λ m. 0 < length m.module_name) ms

  list_loop-joined :
      (m : Module W) (ms : List (Module W)) (temp : Bytes)
      → AllNamed (m ∷ ms)
      → list_loop (m ∷ ms) temp ≡ fitting temp (joined (m ∷ ms))
  unfolding list_loop joined fitting
  list_loop-joined m [] temp h = ground (arith, append-nil (temp ++ m.module_name), h.0)
  list_loop-joined m (m' ∷ ms) temp h =
      rw (list_loop-joined m' ms ((temp ++ m.module_name) ++ b';' ∷ []) h.1) (
        ground (
          arith,
          h.0,
          length-append ((temp ++ m.module_name)) (b';' ∷ []),
          length-append temp m.module_name,
          length-append m.module_name (b';' ∷ joined (m' ∷ ms)),
          append_assoc (temp ++ m.module_name) (b';' ∷ []) (joined (m' ∷ ms)),
          append_assoc temp m.module_name (b';' ∷ joined (m' ∷ ms)),
        ))

  -- Where memory is there and every module has a name, sdo_construct_module_list gives the names
  -- with semicolons between them if they are shorter than 512 characters together, and fails if
  -- not.
  pub construct-joined :
      (e : Env) (m : Module W) (ms : List (Module W))
      → e.alloc sdo_max_str_size ≡ true
      → AllNamed (m ∷ ms)
      → sdo_construct_module_list e (m ∷ ms)
        ≡ (if ltb (length (joined (m ∷ ms))) sdo_max_str_size then some (joined (m ∷ ms)) else none)
  unfolding sdo_construct_module_list fitting
  construct-joined e m ms room h = rw (room, list_loop-joined m ms [] h) (ground arith)
