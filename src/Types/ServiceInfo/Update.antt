-- ===== src/Types/ServiceInfo/Update.antt =====
-- lib/sdotypes.c: adding to the service information, as a change of the map that it stands for.
use client_sdk.Base.{
  subst, ℕ, zero, suc, ◌+◌, ◌≡◌, ◌≢◌, ◌↔◌, inl, inr, refl, sym, ◌∙◌, ap, Bool, true, false, ◌||◌,
  Option, none, some, List, [], ◌∷◌, ◌++◌, arith, Bytes, All, length, length-append, length-set,
  take_all, get_elem?, set, lt→ltb, ◌==◌, if◌then◌else◌, Bool-cases, Option-cases,
}
use client_sdk.Env.{Env, bytes_of, c_string}
use client_sdk.Types.{
  SdoString, sdo_max_str_size, sdo_string_alloc_with, sdo_string_alloc_with_str, sdo_string_resize,
  sdo_string_resize_with, filled,
}
use client_sdk.Types.ServiceInfo.{
  KeyValue, ServiceInfo, SameKey, matches, pair_up, sdo_kv_alloc_with_str, sdo_service_info_fetch,
  append_kv, new_string, put_at, add_or_update, sdo_service_info_add_kv_str,
}
use client_sdk.Types.ServiceInfo.Lookup.{
  IsText, Folds, text_of, IsCounted, terminated, lookup, lookup-append_other, lookup-append_new,
  lookup-set_same, lookup-set_other, fetch-matches,
}

-- A map changed at the keys that are the same as one.
abbrev pub updated : SameKey → (Bytes → Option Bytes) → Bytes → Bytes → Bytes → Option Bytes
updated same f key val k = if same k (length k) key then some val else f k

-- The string that holds a text, with its terminator.
abbrev pub held : Bytes → SdoString
held s = record { byte_sz = length s + 1; bytes = some (s ++ 0 ∷ []) }

held-text : (s : Bytes) → IsText s → text_of (held s) ≡ s
held-text s h = terminated s [] h.plain

plain_end : (s : Bytes) → All (λ c. c ≢ 0) s → c_string s ≡ s
plain_end [] h = refl
plain_end (zero ∷ s) h = absurd (h.0 refl)
plain_end (suc c ∷ s) h = ap (λ x. suc c ∷ x) (plain_end s h.1)

plain_text : (s : Bytes) → IsText s → c_string s ≡ s
plain_text s h = plain_end s h.plain

bool_iff : (a b : Bool) → (a ≡ true) ↔ (b ≡ true) → a ≡ b
bool_iff true true h = refl
bool_iff true false h = sym (h.0 refl)
bool_iff false true h = h.1 refl
bool_iff false false h = refl

fine_length : (s : Bytes) → IsText s → (length s == 0 || length s == sdo_max_str_size) ≡ false
fine_length s h = ground (arith, h.some_text, h.short)

not_long : (s : Bytes) → IsText s → (length s == sdo_max_str_size) ≡ false
not_long s h = ground (arith, h.short)

module _ (e : Env) (allocates : (n : ℕ) → e.alloc n ≡ true) where
  string_held : (s : Bytes) → sdo_string_alloc_with e (some s) (length s) ≡ some (held s)
  unfolding sdo_string_alloc_with
  string_held s = rw (allocates 16, allocates (length s + 1), take_all (length s) s (omega arith))

  string_resized :
      (b : SdoString) (s : Bytes) → sdo_string_resize_with e b (length s) s ≡ (held s, true)
  unfolding sdo_string_resize_with sdo_string_resize filled
  string_resized b s =
      rw (allocates (suc (length s)), take_all (length s) s (omega arith)) (ground arith)

  kv_held :
      (key val : Bytes)
      → IsText key
      → IsText val
      → sdo_kv_alloc_with_str e key val ≡ some (record { key = held key; val = some (held val) })
  unfolding sdo_kv_alloc_with_str pair_up
  kv_held key val h v = rw (
    lt→ltb (length key) sdo_max_str_size h.short,
    lt→ltb (length val) sdo_max_str_size v.short,
    allocates 24,
    fine_length key h,
    not_long val v,
    string_held key,
    string_held val,
  )

  value_held :
      (old : Option SdoString) (val : Bytes)
      → IsText val
      → new_string e old val ≡ (some (held val), true)
  unfolding new_string sdo_string_alloc_with_str
  value_held none val v =
      rw (lt→ltb (length val) sdo_max_str_size v.short, not_long val v, string_held val)
  value_held (some old) val v =
      rw (lt→ltb (length val) sdo_max_str_size v.short, fine_length val v, string_resized old val)

module _ (same : SameKey) (fold : Bytes → Bytes) (folds : Folds same fold) where
  matches-fold :
      (k : Bytes) (kv : KeyValue)
      → IsText k
      → (matches same k kv ≡ true) ↔ (fold k ≡ fold (text_of kv.key))
  unfolding matches
  matches-fold k kv h =
      rw (lt→ltb (length k) sdo_max_str_size h.short, fine_length k h)
        (folds k (bytes_of kv.key.bytes))

  same-fold : (k key : Bytes) → IsText key → (same k (length k) key ≡ true) ↔ (fold k ≡ fold key)
  same-fold k key h =
      subst (λ (t : Bytes). (same k (length k) key ≡ true) ↔ (fold k ≡ fold t)) (plain_text key h)
        (folds k key)

  matches-cong :
      (k key : Bytes) (kv : KeyValue)
      → IsText k
      → IsText key
      → fold k ≡ fold key
      → matches same k kv ≡ matches same key kv
  matches-cong k key kv h h' eq =
      let a = matches-fold k kv h in
      let b = matches-fold key kv h' in
      bool_iff _ _ (λ m. b.1 (sym eq ∙ a.0 m), λ m. a.1 (eq ∙ b.0 m))

  fetch-cong :
      (l : List KeyValue) (k key : Bytes)
      → IsText k
      → IsText key
      → fold k ≡ fold key
      → sdo_service_info_fetch same l key ≡ sdo_service_info_fetch same l k
  unfolding sdo_service_info_fetch
  fetch-cong [] k key h h' eq = refl
  fetch-cong (x ∷ l) k key h h' eq = rw (matches-cong k key x h h' eq, fetch-cong l k key h h' eq)

  entry-matches :
      (key : Bytes) (v : Option SdoString) (k : Bytes)
      → IsText key
      → IsText k
      → matches same k (record { key = held key; val = v }) ≡ same k (length k) key
  entry-matches key v k h h' =
      let a = matches-fold k (record { key = held key; val = v }) h' in
      let b = same-fold k key h in
      bool_iff _ _ (
        λ m. b.1 (a.0 m ∙ ap fold (held-text key h)),
        λ m. a.1 (b.0 m ∙ sym (ap fold (held-text key h))),
      )

  -- The value does not matter for a match.
  matches-val :
      (k : Bytes) (old : KeyValue) (v : Option SdoString)
      → matches same k (record old { val = v }) ≡ matches same k old
  unfolding matches
  matches-val k old v = refl

  -- Two keys that are the same match the same entries, and others match others.
  keys_apart :
      (k key : Bytes) (kv : KeyValue)
      → IsText k
      → IsText key
      → same k (length k) key ≡ false
      → matches same key kv ≡ true
      → matches same k kv ≡ false
  keys_apart k key kv h h' apart m = elim (Bool-cases (matches same k kv)) [
    | inr no_match ↦ no_match
    | inl both ↦ absurd (
        cc (
          apart,
          (same-fold k key h').1
              ((matches-fold k kv h).0 both ∙ sym ((matches-fold key kv h').0 m)),
        ))
  ]

  module _ (key val k : Bytes) (h : IsText key) (v : IsText val) (h' : IsText k) where
    lookup-appended :
        (kvs : List KeyValue)
        → get_elem? kvs (sdo_service_info_fetch same kvs key) ≡ none
        → lookup same (kvs ++ record { key = held key; val = some (held val) } ∷ []) k
          ≡ updated same (lookup same kvs) key val k
    lookup-appended kvs gone = elim (Bool-cases (same k (length k) key)) [
      | inl m ↦
          let to_key = fetch-cong kvs k key h' h ((same-fold k key h).0 m) in
          rw m (
            lookup-append_new same kvs _ k (subst (λ (i : ℕ). get_elem? kvs i ≡ none) to_key gone)
              (entry-matches key (some (held val)) k h h' ∙ m)
            ∙ ap some (held-text val v))
      | inr m ↦
          rw m (lookup-append_other same kvs _ k (entry-matches key (some (held val)) k h h' ∙ m))
    ]

    lookup-set :
        (kvs : List KeyValue) (old : KeyValue)
        → get_elem? kvs (sdo_service_info_fetch same kvs key) ≡ some old
        → lookup same
            (set kvs (sdo_service_info_fetch same kvs key) (record old { val = some (held val) }))
            k
          ≡ updated same (lookup same kvs) key val k
    lookup-set kvs old there = elim (Bool-cases (same k (length k) key)) [
      | inl m ↦
          let to_key = fetch-cong kvs k key h' h ((same-fold k key h).0 m) in
          let found = fetch-matches same kvs old key there in
          let found' = matches-cong k key old h' h ((same-fold k key h).0 m) ∙ found in
          rw (m, to_key)
            (lookup-set_same same kvs old _ k
                (subst (λ (i : ℕ). get_elem? kvs i ≡ some old) to_key there)
                (matches-val k old (some (held val)) ∙ found')
              ∙ ap some (held-text val v))
      | inr m ↦
          let other = keys_apart k key old h' h m (fetch-matches same kvs old key there) in
          rw m (
            lookup-set_other same kvs old _ key k there other
              (matches-val k old (some (held val)) ∙ other))
    ]

module _ (e : Env) (allocates : (n : ℕ) → e.alloc n ≡ true) where
  module _ (same : SameKey) (si : ServiceInfo) (key val : Bytes) (v : IsText val) where
    add_new :
        IsText key
        → get_elem? si.kv (sdo_service_info_fetch same si.kv key) ≡ none
        → sdo_service_info_add_kv_str e same si key val ≡ (
          record {
            num_kv = si.num_kv + 1;
            kv = si.kv ++ record { key = held key; val = some (held val) } ∷ [];
          },
          true,
        )
    unfolding sdo_service_info_add_kv_str add_or_update append_kv
    add_new h gone = rw (gone, add_or_update, kv_held e allocates key val h v)

    add_known :
        (old : KeyValue)
        → get_elem? si.kv (sdo_service_info_fetch same si.kv key) ≡ some old
        → sdo_service_info_add_kv_str e same si key val ≡ (
          record si {
            kv =
                set si.kv
                  (sdo_service_info_fetch same si.kv key)
                  (record old { val = some (held val) });
          },
          true,
        )
    unfolding sdo_service_info_add_kv_str add_or_update put_at
    add_known old there = rw (there, add_or_update, value_held e allocates old.val val v)

  module _ (same : SameKey) (fold : Bytes → Bytes) (folds : Folds same fold) where
    -- sdo_service_info_add_kv_str succeeds, keeps the count of the entries right, and changes the
    -- map from keys to values that the list stands for at exactly the keys that are the same as
    -- the one given: they have the new value, and all others what they had. Keys and values are
    -- texts of 1 to 511 characters, the heap gives memory, and the comparison of keys ignores what
    -- some function on texts removes.
    pub add-updated :
        (si : ServiceInfo) (key val k : Bytes)
        → IsText key
        → IsText val
        → IsText k
        → IsCounted si
        → ((sdo_service_info_add_kv_str e same si key val).1 ≡ true)
          × IsCounted (sdo_service_info_add_kv_str e same si key val).0
          × (lookup same (sdo_service_info_add_kv_str e same si key val).0.kv k
              ≡ updated same (lookup same si.kv) key val k)
    add-updated si key val k h v h' counted =
        elim (Option-cases (get_elem? si.kv (sdo_service_info_fetch same si.kv key))) [
          | inl gone ↦ rw (add_new same si key val v h gone) (
            refl,
            omega (
              arith,
              counted,
              length-append si.kv (record { key = held key; val = some (held val) } ∷ []),
            ),
            lookup-appended same fold folds key val k h v h' si.kv gone,
          )
          | inr (old, there) ↦ rw (add_known same si key val v old there) (
            refl,
            counted ∙ sym (length-set si.kv _ _),
            lookup-set same fold folds key val k h v h' si.kv old there,
          )
        ]
