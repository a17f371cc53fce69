-- ===== src/Types/Modules/Dsi/Rounds.antt =====
-- lib/sdotypes.c: the round trips that send the device service information of all modules.
use client_sdk.Base.{
  inl, inr, Bool-cases, subst, ℕ, zero, suc, ◌+◌, ◌-◌, ◌<◌, ◌≡◌, refl, ap, ◌∙◌, true, false, ◌||◌,
  Option, none, some, List, [], ◌∷◌, ◌++◌, arith, Bytes, All, length, lt→ltb, ◌==◌, if◌then◌else◌,
}
use client_sdk.Env.{Env}
use client_sdk.Types.{sdo_max_str_size}
use client_sdk.Types.Modules.{
  Module, SiKeyValue, get_dsi, get_dsi_count, si_success, count_loop, sdo_get_dsi_count,
}
use client_sdk.Types.Modules.Dsi.{
  sdo_mod_data_kv, data_key, data_value, DsiInfo, next_module, finish, ask_module,
  sdo_construct_module_dsi,
}

pub record IsKey (s : Bytes) : Type 0 where
  pub some_key : 0 < length s
  pub short : length s < sdo_max_str_size

-- A module that has a pair for each of its indices, and leaves the index as it is.
pub record Answers {W : Type 0} (m : Module W) : Type 0 where
  pub keys : ℕ → Bytes
  pub values : ℕ → Bytes
  pub named : IsKey m.module_name
  pub some_pairs : 0 < m.module_dsi_count
  pub key_fits : (i : ℕ) → IsKey (keys i)
  pub value_fits : (i : ℕ) → length (values i) < sdo_max_str_size
  pub succeeds :
      (i : ℕ) (sv : SiKeyValue) (w : W)
      → (m.service_info_callback get_dsi (some i) (some sv) w).ret ≡ si_success
  pub keeps :
      (i : ℕ) (sv : SiKeyValue) (w : W)
      → (m.service_info_callback get_dsi (some i) (some sv) w).count ≡ i
  pub gives :
      (i : ℕ) (sv : SiKeyValue) (w : W)
      → (m.service_info_callback get_dsi (some i) (some sv) w).si
        ≡ record { key = some (keys i); value = some (values i) }

module _ {W : Type 0} where
  -- How many pairs the modules have.
  pub dsi_total : List (Module W) → ℕ
  dsi_total [] = 0
  dsi_total (m ∷ ms) = m.module_dsi_count + dsi_total ms

one_less : (c : ℕ) → 0 < c → suc (c - 1) ≡ c
one_less c h = omega arith

fine_key : (s : Bytes) → IsKey s → (length s == 0 || length s == sdo_max_str_size) ≡ false
fine_key s h = ground (arith, h.some_key, h.short)

not_long : (s : Bytes) → length s < sdo_max_str_size → (length s == sdo_max_str_size) ≡ false
not_long s h = ground (arith, h)

abbrev pub no_pair : SiKeyValue
no_pair = record { key = none; value = none }

module _ (e : Env) {W : Type 0} where
  -- So many round trips, each with an empty pair: the pairs that they send, and what is left.
  pub rounds : ℕ → DsiInfo W → W → Option (List SiKeyValue × DsiInfo W)
  rounds zero info w = some ([], info)
  rounds (suc n) info w = elim (sdo_construct_module_dsi e info no_pair w) [
    | none ↦ none
    | some built ↦ elim (rounds n built.dsi_info built.world) [
      | none ↦ none
      | some (sent, left) ↦ if built.ok then some (built.sv_kv ∷ sent, left) else none
    ]
  ]

module _ {W : Type 0} where
  pub pair_at : (m : Module W) → Answers m → ℕ → SiKeyValue
  pair_at m d i = record {
    key = some (m.module_name ++ (b':' ∷ d.keys i));
    value = some (d.values i);
  }

  -- The pairs of a module from an index on.
  pub pairs_from : (m : Module W) → Answers m → ℕ → ℕ → List SiKeyValue
  pairs_from m d i zero = []
  pairs_from m d i (suc n) = pair_at m d i ∷ pairs_from m d (i + 1) n

  -- All pairs, module by module.
  pub all_pairs : (ms : List (Module W)) → All Answers ms → List SiKeyValue
  all_pairs [] ds = []
  all_pairs (m ∷ ms) ds = pairs_from m ds.0 0 m.module_dsi_count ++ all_pairs ms ds.1

module _ (e : Env) (allocates : (n : ℕ) → e.alloc n ≡ true) where
  pub mod_data_kv-named :
      (name key value : Bytes)
      → IsKey name
      → IsKey key
      → length value < sdo_max_str_size
      → sdo_mod_data_kv e name (record { key = some key; value = some value })
        ≡ (record { key = some (name ++ (b':' ∷ key)); value = some value }, true)
  unfolding sdo_mod_data_kv data_key data_value
  mod_data_kv-named name key value h k v = rw (
    lt→ltb (length name) sdo_max_str_size h.short,
    lt→ltb (length key) sdo_max_str_size k.short,
    lt→ltb (length value) sdo_max_str_size v,
    fine_key name h,
    fine_key key k,
    not_long value v,
    allocates (length name + length key + 2),
    allocates (length value + 1),
  )

  module _ {W : Type 0} where
    built_pair :
        (m : Module W) (ms : List (Module W)) (d : Answers m) (i : ℕ) (w : W)
        → i < m.module_dsi_count
        → sdo_construct_module_dsi e (record { list_dsi = m ∷ ms; module_dsi_index = i }) no_pair w
          ≡ some (record {
            dsi_info = next_module m ms (i + 1);
            sv_kv = pair_at m d i;
            cb_return_val = si_success;
            ok = true;
            world = (m.service_info_callback get_dsi (some i) (some no_pair) w).world;
          })
    unfolding sdo_construct_module_dsi ask_module finish pair_at
    built_pair m ms d i w h =
        let named =
          ap (sdo_mod_data_kv e m.module_name) (d.gives i no_pair w)
          ∙ mod_data_kv-named m.module_name (d.keys i) (d.values i) d.named (d.key_fits i)
              (d.value_fits i) in
        rw (lt→ltb i m.module_dsi_count h, d.succeeds i no_pair w, named, d.keeps i no_pair w)

    one_round :
        (m : Module W) (ms : List (Module W)) (d : Answers m) (i n : ℕ) (w : W)
        (sent : List SiKeyValue) (left : DsiInfo W)
        → i < m.module_dsi_count
        → ((w' : W) → rounds e n (next_module m ms (i + 1)) w' ≡ some (sent, left))
        → rounds e (suc n) (record { list_dsi = m ∷ ms; module_dsi_index = i }) w
          ≡ some (pair_at m d i ∷ sent, left)
    unfolding rounds
    one_round m ms d i n w sent left h ih = rw (built_pair m ms d i w h, rounds, ih _)

    next_done :
        (m : Module W) (ms : List (Module W)) (i : ℕ)
        → i ≡ m.module_dsi_count
        → next_module m ms i ≡ record { list_dsi = ms; module_dsi_index = 0 }
    unfolding next_module
    next_done m ms i h = ground arith

    next_same :
        (m : Module W) (ms : List (Module W)) (i : ℕ)
        → i < m.module_dsi_count
        → next_module m ms i ≡ record { list_dsi = m ∷ ms; module_dsi_index = i }
    unfolding next_module
    next_same m ms i h = ground arith

    module_rounds :
        (m : Module W) (ms : List (Module W)) (d : Answers m) (n : ℕ) (sent : List SiKeyValue)
        (fin : DsiInfo W)
        → ((w' : W)
            → rounds e n (record { list_dsi = ms; module_dsi_index = 0 }) w' ≡ some (sent, fin))
        → (left i k : ℕ) (w : W) → i + suc left ≡ m.module_dsi_count
        → k ≡ suc left + n
        → rounds e k (record { list_dsi = m ∷ ms; module_dsi_index = i }) w
          ≡ some (pairs_from m d i (suc left) ++ sent, fin)
    unfolding pairs_from
    module_rounds m ms d n sent fin ih left i zero w at total = absurd (omega (arith, total))
    module_rounds m ms d n sent fin ih zero i (suc k) w at total =
        one_round m ms d i k w sent fin (omega (arith, at)) (λ w'. rw (next_done m ms (i + 1) at) (
          subst
            (λ (r : ℕ).
              rounds e r (record { list_dsi = ms; module_dsi_index = 0 }) w' ≡ some (sent, fin))
            (omega (arith, total)) (ih w')))
    module_rounds m ms d n sent fin ih (suc left) i (suc k) w at total =
        one_round m ms d i k w _ fin (omega (arith, at)) (λ w'.
          rw (next_same m ms (i + 1) (omega (arith, at))) (
            module_rounds m ms d n sent fin ih left (i + 1) k w' (omega (arith, at))
              (omega (arith, total))))

    -- As many calls of sdo_construct_module_dsi as the modules have pairs give every pair of every
    -- module once, module by module and in the order of their indices, each with the key
    -- module:key, and leave no module. Every module has at least one pair, answers each index with
    -- a key and a value that fit, and leaves the index alone; the heap gives memory.
    pub rounds-all_pairs :
        (ms : List (Module W)) (ds : All Answers ms) (w : W)
        → rounds e (dsi_total ms) (record { list_dsi = ms; module_dsi_index = 0 }) w
          ≡ some (all_pairs ms ds, record { list_dsi = []; module_dsi_index = 0 })
    unfolding rounds dsi_total all_pairs
    rounds-all_pairs [] ds w = refl
    rounds-all_pairs (m ∷ ms) ds w =
        subst
          (λ (c : ℕ).
            rounds e (m.module_dsi_count + dsi_total ms)
              (record { list_dsi = m ∷ ms; module_dsi_index = 0 }) w
            ≡ some (
              pairs_from m ds.0 0 c ++ all_pairs ms ds.1,
              record { list_dsi = []; module_dsi_index = 0 },
            ))
          (one_less m.module_dsi_count ds.0.some_pairs)
          (module_rounds m ms ds.0 (dsi_total ms) (all_pairs ms ds.1)
            (record { list_dsi = []; module_dsi_index = 0 }) (rounds-all_pairs ms ds.1)
            (m.module_dsi_count - 1) 0 (m.module_dsi_count + dsi_total ms) w
            (omega (arith, ds.0.some_pairs)) (omega (arith, ds.0.some_pairs)))

module _ {W : Type 0} where
  count_loop-total :
      (ms : List (Module W)) (sum : ℕ) (w : W)
      → (count_loop ms sum w).3 ≡ true
      → (count_loop ms sum w).1 ≡ sum + dsi_total (count_loop ms sum w).0
  unfolding count_loop dsi_total
  count_loop-total [] sum w h = omega arith
  count_loop-total (m ∷ ms) sum w h =
      let reply = m.service_info_callback get_dsi_count (some 0) none w in
      elim (Bool-cases (reply.ret == si_success)) [
        | inl t ↦
            rw (t, count_loop)
              (omega (
                arith,
                count_loop-total ms (sum + reply.count) reply.world (rw (t, count_loop) at h),
              ))
        | inr f ↦ absurd (cc (rw (f, count_loop) at h))
      ]

  -- Where sdo_get_dsi_count succeeds on a list of modules, it has added to the count the sum of
  -- the counts that it has noted in the list.
  pub get_dsi_count-total :
      (m : Module W) (ms : List (Module W)) (sum cb : ℕ) (w : W)
      → (sdo_get_dsi_count (m ∷ ms) (some sum) (some cb) w).3 ≡ true
      → (sdo_get_dsi_count (m ∷ ms) (some sum) (some cb) w).1
        ≡ some (sum + dsi_total (sdo_get_dsi_count (m ∷ ms) (some sum) (some cb) w).0)
  unfolding sdo_get_dsi_count
  get_dsi_count-total m ms sum cb w h = ap some (count_loop-total (m ∷ ms) sum w h)
