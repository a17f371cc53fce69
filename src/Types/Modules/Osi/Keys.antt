-- ===== src/Types/Modules/Osi/Keys.antt =====
-- lib/sdotypes.c: how the key of a module's pair is joined and split again.
use client_sdk.Base.{
  ℕ, zero, suc, ◌+◌, ◌-◌, ◌<◌, ◌≤◌, ◌≡◌, refl, sym, inl, inr, Bool-cases, ◌∙◌, true, false, Option,
  some, List, [], ◌∷◌, ◌++◌, arith, Bytes, length, length-append, take, take_all, ltb, ◌==◌,
}
use client_sdk.Env.{Env}
use client_sdk.Types.{sdo_max_str_size, strnlen_s}
use client_sdk.Types.Modules.{Module, sdo_module_name_len, sdo_supply_module_osi}
use client_sdk.Types.Modules.Dsi.{sdo_mod_data_kv}
use client_sdk.Types.Modules.Dsi.Rounds.{IsKey, mod_data_kv-named}
use client_sdk.Types.Modules.Psi.Parsing.{Without}
use client_sdk.Types.Modules.Osi.{split_key, supply_split, settled, sdo_osi_handling}

split_key-joined :
    (name behind : Bytes) (n : ℕ)
    → Without b':' name
    → length name ≤ n
    → split_key n (name ++ (b':' ∷ behind)) ≡ some (name, n - length name, behind)
unfolding split_key
split_key-joined [] behind zero h fits = refl
split_key-joined [] behind (suc n) h fits = ground arith
split_key-joined (c ∷ name) behind zero h fits = absurd (omega (arith, fits))
split_key-joined (c ∷ name) behind (suc n) h fits =
    rw (h.0, split_key-joined name behind n h.1 (omega (arith, fits))) (ground arith)

-- The message's name, cut where the key ends to be looked at.
message :
    (name msg : Bytes)
    → length name ≤ 32
    → take (strnlen_s (name ++ (b':' ∷ msg)) sdo_module_name_len - length name) msg
      ≡ take (32 - length name) msg
message name msg h = elim (Bool-cases (ltb (length (name ++ (b':' ∷ msg))) 32)) [
  | inl m ↦ rw m (
      take_all (length (name ++ (b':' ∷ msg)) - length name) msg
        (omega (arith, length-append name (b':' ∷ msg)))
      ∙ sym (take_all (32 - length name) msg (ground (arith, length-append name (b':' ∷ msg)))))
  | inr m ↦ rw m refl
]

module _ (e : Env) {W : Type 0} where
  -- For a module name without a colon, of 1 to 32 characters, sdo_osi_handling gives the module
  -- the message name that stands behind the colon, cut so that both names have at most 32
  -- characters together.
  pub handling-joined :
      (ms : List (Module W)) (name msg : Bytes) (value : Option Bytes) (cb : ℕ) (w : W)
      → 0 < length name
      → length name ≤ 32
      → Without b':' name
      → sdo_osi_handling e ms
          (record { key = some (name ++ (b':' ∷ msg)); value = value })
          (some cb)
          w
        ≡ settled e (
            sdo_supply_module_osi e ms
              (some name)
              (some (record { key = some (take (32 - length name) msg); value = value }))
              (some cb)
              w)
  unfolding sdo_osi_handling supply_split
  handling-joined ms name msg value cb w some_name short plain =
      let len = length-append name (b':' ∷ msg) in
      let enough : length name ≤ strnlen_s (name ++ (b':' ∷ msg)) sdo_module_name_len =
        ground (arith, len) in
      let more : (strnlen_s (name ++ (b':' ∷ msg)) sdo_module_name_len == 0) ≡ false =
        ground (arith, len) in
      rw (
        more,
        split_key-joined name msg (strnlen_s (name ++ (b':' ∷ msg)) sdo_module_name_len) plain
            enough,
        message name msg short,
      )

  -- A pair whose key sdo_mod_data_kv has put behind a module name reaches that module unchanged
  -- through sdo_osi_handling, which ends as the call of sdo_supply_moduleOSI does. The name has no
  -- colon, both names are not empty and have at most 32 characters together, the value is shorter
  -- than 512, and the heap gives memory.
  pub handling-mod_data_kv :
      (allocates : (n : ℕ) → e.alloc n ≡ true) (ms : List (Module W)) (name key value : Bytes)
      (cb : ℕ) (w : W)
      → IsKey name
      → IsKey key
      → length value < sdo_max_str_size
      → Without b':' name
      → length name + length key ≤ 32
      → sdo_osi_handling e ms
          (sdo_mod_data_kv e name (record { key = some key; value = some value })).0
          (some cb)
          w
        ≡ settled e (
            sdo_supply_module_osi e ms
              (some name)
              (some (record { key = some key; value = some value }))
              (some cb)
              w)
  handling-mod_data_kv allocates ms name key value cb w h k v plain short = rw (
    mod_data_kv-named e allocates name key value h k v,
    handling-joined ms name key (some value) cb w h.some_key (omega (arith, short)) plain,
    take_all (32 - length name) key (omega (arith, short)),
  )
