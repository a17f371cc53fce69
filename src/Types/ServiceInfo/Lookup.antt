-- ===== src/Types/ServiceInfo/Lookup.antt =====
-- lib/sdotypes.c: the service information as a map from keys, up to their case, to values.
use mathlib.Core.Option.{some-injective}
use client_sdk.Base.{
  subst, zero, suc, ◌<◌, ◌≡◌, ◌≢◌, ◌↔◌, inl, inr, refl, ap, true, false, Option, none, some, List,
  [], ◌∷◌, ◌++◌, arith, Bytes, All, length, get_elem?, set, lt→ltb, if◌then◌else◌, Bool-cases,
}
use client_sdk.Env.{bytes_of, c_string}
use client_sdk.Types.{SdoString, sdo_max_str_size, strnlen_s, bad_length}
use client_sdk.Types.ServiceInfo.{KeyValue, ServiceInfo, SameKey, matches, sdo_service_info_fetch}

-- Strings that the code takes as keys and as values.
pub record IsText (s : Bytes) : Type 0 where
  pub some_text : 0 < length s
  pub short : length s < sdo_max_str_size
  pub plain : All (λ c. c ≢ 0) s

-- The comparison ignores what `fold` removes, such as the case of letters.
abbrev pub Folds : SameKey → (Bytes → Bytes) → Type 0
Folds same fold = (d s : Bytes) → (same d (length d) s ≡ true) ↔ (fold d ≡ fold (c_string s))

abbrev pub text_of : SdoString → Bytes
text_of s = c_string (bytes_of s.bytes)

abbrev pub value_of : KeyValue → Option Bytes
value_of kv = elim kv.val [ none ↦ none | some v ↦ some (text_of v) ]

-- The count is that of the entries.
abbrev pub IsCounted : ServiceInfo → Type 0
IsCounted si = si.num_kv ≡ length si.kv

pub terminated : (s t : Bytes) → All (λ c. c ≢ 0) s → c_string (s ++ 0 ∷ t) ≡ s
terminated [] t h = refl
terminated (zero ∷ s) t h = absurd (h.0 refl)
terminated (suc c ∷ s) t h = ap (λ x. suc c ∷ x) (terminated s t h.1)

pub strnlen_short : (s : Bytes) → IsText s → strnlen_s s sdo_max_str_size ≡ length s
strnlen_short s h = rw (lt→ltb (length s) sdo_max_str_size h.short)

pub length-fine : (s : Bytes) → IsText s → bad_length (strnlen_s s sdo_max_str_size) ≡ false
length-fine s h = ground (arith, h.some_text, h.short)

module _ (same : SameKey) where
  -- The abstract view: the value of the first entry with the key.
  pub lookup : List KeyValue → Bytes → Option Bytes
  lookup [] k = none
  lookup (kv ∷ l) k = if matches same k kv then value_of kv else lookup l k

  pub lookup-append_other :
      (l : List KeyValue) (kv : KeyValue) (k : Bytes)
      → matches same k kv ≡ false
      → lookup (l ++ kv ∷ []) k ≡ lookup l k
  unfolding lookup
  lookup-append_other [] kv k h = rw h
  lookup-append_other (x ∷ l) kv k h = rw (lookup-append_other l kv k h)

  pub lookup-append_new :
      (l : List KeyValue) (kv : KeyValue) (key : Bytes)
      → get_elem? l (sdo_service_info_fetch same l key) ≡ none
      → matches same key kv ≡ true
      → lookup (l ++ kv ∷ []) key ≡ value_of kv
  unfolding lookup sdo_service_info_fetch
  lookup-append_new [] kv key gone h = rw h
  lookup-append_new (x ∷ l) kv key gone h = elim (Bool-cases (matches same key x)) [
    | inl m ↦ absurd (cc (rw m at gone))
    | inr m ↦ rw m (lookup-append_new l kv key (rw m at gone) h)
  ]

  pub lookup-set_same :
      (l : List KeyValue) (old kv : KeyValue) (key : Bytes)
      → get_elem? l (sdo_service_info_fetch same l key) ≡ some old
      → matches same key kv ≡ true
      → lookup (set l (sdo_service_info_fetch same l key) kv) key ≡ value_of kv
  unfolding lookup sdo_service_info_fetch
  lookup-set_same [] old kv key there h = cc
  lookup-set_same (x ∷ l) old kv key there h = elim (Bool-cases (matches same key x)) [
    | inl m ↦ rw (m, h) refl
    | inr m ↦ rw (m, m) (lookup-set_same l old kv key (rw m at there) h)
  ]

  head_other :
      (old : KeyValue) (k : Bytes) (x : KeyValue)
      → Path (Option KeyValue) (some x) (some old)
      → matches same k old ≡ false
      → matches same k x ≡ false
  head_other old k x there h = cc

  pub lookup-set_other :
      (l : List KeyValue) (old kv : KeyValue) (key k : Bytes)
      → get_elem? l (sdo_service_info_fetch same l key) ≡ some old
      → matches same k old ≡ false
      → matches same k kv ≡ false
      → lookup (set l (sdo_service_info_fetch same l key) kv) k ≡ lookup l k
  unfolding lookup sdo_service_info_fetch
  lookup-set_other [] old kv key k there h h' = cc
  lookup-set_other (x ∷ l) old kv key k there h h' = elim (Bool-cases (matches same key x)) [
    | inl m ↦ rw (m, h', head_other old k x (rw m at there) h) refl
    | inr m ↦ rw (m, lookup-set_other l old kv key k (rw m at there) h h') refl
  ]

  pub fetch-matches :
      (l : List KeyValue) (kv : KeyValue) (key : Bytes)
      → get_elem? l (sdo_service_info_fetch same l key) ≡ some kv
      → matches same key kv ≡ true
  unfolding sdo_service_info_fetch
  fetch-matches [] kv key there = cc
  fetch-matches (x ∷ l) kv key there = elim (Bool-cases (matches same key x)) [
    | inl m ↦ subst (λ y. matches same key y ≡ true) (some-injective _ _ (rw m at there)) m
    | inr m ↦ fetch-matches l kv key (rw m at there)
  ]
