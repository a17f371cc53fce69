-- ===== src/Types/Modules/Psi/Parsing.antt =====
-- lib/sdotypes.c: what the parser of the pre-service information reads.
use client_sdk.Base.{
  subst, ℕ, suc, ◌+◌, ◌-◌, ◌<◌, ◌≡◌, refl, false, Option, none, some, [], ◌∷◌, ◌++◌, arith, Bytes,
  All, length, length-append, length-take, take, take_all, take-append_length, drop, ◌==◌,
}
use client_sdk.Types.{sdo_max_str_size, strnlen_s, bad_length}
use client_sdk.Types.Modules.Psi.{
  Parsed, parts, refused, overrun, strchr, value_part, msg_part, name_part,
  sdo_get_module_name_msg_value,
}

abbrev pub Without : ℕ → Bytes → Type 0
Without c s = All (λ x. (x == c) ≡ false) s

past_length : (xs ys : Bytes) (c : ℕ) → drop (suc (length xs)) (xs ++ (c ∷ ys)) ≡ ys
past_length [] ys c = refl
past_length (x ∷ xs) ys c = past_length xs ys c

one_more : (xs : Bytes) → suc (length xs) ≡ length xs + 1
one_more xs = ground arith

drop_more : (xs ys : Bytes) (c : ℕ) → drop (length xs + 1) (xs ++ (c ∷ ys)) ≡ ys
drop_more xs ys c =
    subst (λ (n : ℕ). drop n (xs ++ (c ∷ ys)) ≡ ys) (one_more xs) (past_length xs ys c)

strchr-append : (s t : Bytes) (c : ℕ) → Without c s → strchr (s ++ (c ∷ t)) c ≡ some (c ∷ t)
strchr-append [] t c h = ground arith
strchr-append (x ∷ s) t c h = rw h.0 (strchr-append s t c h.1)

-- `name:message~value`
abbrev pub printed : Bytes → Bytes → Bytes → Bytes
printed name msg value = name ++ (b':' ∷ (msg ++ (b'~' ∷ value)))

pub record IsEntry (name msg value : Bytes) : Type 0 where
  pub some_name : 0 < length name
  pub short_name : length name < 32
  pub short_msg : length msg < 32
  pub short_value : length value < 100
  pub plain_name : Without b':' name
  pub plain_msg : Without b'~' msg

-- The length in front of what `strchr` finds.
before :
    (s t : Bytes)
    → length t < sdo_max_str_size
    → length (s ++ t) - strnlen_s t sdo_max_str_size ≡ length s
before s t h = ground (arith, length-append s t)

good_rest :
    (c : ℕ) (t : Bytes)
    → length (c ∷ t) < sdo_max_str_size
    → bad_length (strnlen_s (c ∷ t) sdo_max_str_size) ≡ false
good_rest c t h = ground arith

behind : (s t : Bytes) → length (s ++ (b':' ∷ t)) - length s - 1 ≡ length t
behind s t = ground (arith, length-append s (b':' ∷ t))

value_part-printed :
    (name msg value : Bytes)
    → length value < 100
    → value_part name msg (b'~' ∷ value) ≡ parts name msg value
unfolding value_part
value_part-printed name msg [] h = refl
value_part-printed name msg (x ∷ value) h =
    ground (arith, take_all (suc (length value)) (x ∷ value), take_all (length value) value)

msg_part-printed :
    (name msg value : Bytes)
    → IsEntry name msg value
    → msg_part name (msg ++ (b'~' ∷ value)) (length (msg ++ (b'~' ∷ value))) (some (b'~' ∷ value))
      ≡ parts name msg value
unfolding msg_part
msg_part-printed name [] value h =
    rw
      (
        before [] (b'~' ∷ value) (omega (arith, h.short_value)),
        good_rest b'~' value (omega (arith, h.short_value)),
      )
      (value_part-printed name [] value h.short_value)
msg_part-printed name (x ∷ msg) value h =
    rw
      (
        before (x ∷ msg) (b'~' ∷ value) (omega (arith, h.short_value)),
        good_rest b'~' value (omega (arith, h.short_value)),
        take-append_length msg (b'~' ∷ value),
        value_part-printed name (x ∷ msg) value h.short_value,
      )
      (ground (arith, h.short_msg))

name_part-printed :
    (name msg value : Bytes)
    → IsEntry name msg value
    → name_part
        (printed name msg value)
        (length (printed name msg value))
        (some (b':' ∷ (msg ++ (b'~' ∷ value))))
      ≡ parts name msg value
unfolding name_part
name_part-printed name msg value h =
    let rest = msg ++ (b'~' ∷ value) in
    let short : length (b':' ∷ rest) < sdo_max_str_size =
      ground (arith, h.short_msg, h.short_value, length-append msg (b'~' ∷ value)) in
    rw
      (
        before name (b':' ∷ rest) short,
        good_rest b':' rest short,
        take-append_length name (b':' ∷ rest),
        drop_more name rest b':',
        strchr-append msg value b'~' h.plain_msg,
        behind name rest,
      )
      (ground (arith, h.some_name, h.short_name, msg_part-printed name msg value h))

pub printed_fits :
    (name msg value : Bytes)
    → IsEntry name msg value
    → (0 < length (printed name msg value)) × (length (printed name msg value) < sdo_max_str_size)
printed_fits name msg value h = ground (
  arith,
  h.some_name,
  h.short_name,
  h.short_msg,
  h.short_value,
  length-append name (b':' ∷ (msg ++ (b'~' ∷ value))),
  length-append msg (b'~' ∷ value),
)

pub get-printed :
    (name msg value : Bytes) (cb : ℕ)
    → IsEntry name msg value
    → sdo_get_module_name_msg_value (printed name msg value) (length (printed name msg value)) cb
      ≡ parts name msg value
unfolding sdo_get_module_name_msg_value
get-printed name msg value cb h =
    rw (strchr-append name (msg ++ (b'~' ∷ value)) b':' h.plain_name)
      (ground (arith, printed_fits name msg value h, name_part-printed name msg value h))

-- The parts fit their buffers, with their terminators.
abbrev pub InBounds : Parsed → Type 0
InBounds (refused cb) = Unit {0}
InBounds overrun = Unit {0}
InBounds (parts name msg value) = (length name < 32) × (length msg < 32) × (length value < 100)

value_part_bounds :
    (name msg rem : Bytes) → length name < 32 → length msg < 32 → InBounds (value_part name msg rem)
unfolding value_part
value_part_bounds name msg rem h h' =
    ground (arith, length-take (strnlen_s rem sdo_max_str_size - 1) (drop 1 rem))

msg_part_bounds :
    (name tuple : Bytes) (n : ℕ) (rem : Option Bytes)
    → length name < 32
    → InBounds (msg_part name tuple n rem)
unfolding msg_part
msg_part_bounds name tuple n none h = tt
msg_part_bounds name tuple n (some rem) h =
    let len = strnlen_s rem sdo_max_str_size in
    ground (
      arith,
      length-take (n - len) tuple,
      value_part_bounds name [] rem,
      value_part_bounds name (take (n - len) tuple) rem,
    )

name_part_bounds : (tuple : Bytes) (n : ℕ) (rem : Option Bytes) → InBounds (name_part tuple n rem)
unfolding name_part
name_part_bounds tuple n none = tt
name_part_bounds tuple n (some rem) =
    let len = n - strnlen_s rem sdo_max_str_size in
    let left = drop (len + 1) tuple in
    ground (
      arith,
      length-take len tuple,
      msg_part_bounds (take len tuple) left (n - len - 1) (strchr left b'~'),
    )

-- Where sdo_get_module_name_msg_value succeeds on any text and any length, the name and the
-- message have at most 31 characters and the value has at most 99.
pub get_bounds : (tuple : Bytes) (n cb : ℕ) → InBounds (sdo_get_module_name_msg_value tuple n cb)
unfolding sdo_get_module_name_msg_value
get_bounds tuple n cb = ground (arith, name_part_bounds tuple n (strchr tuple b':'))
