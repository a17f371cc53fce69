-- ===== src/Tests/Services.antt =====
-- Examples of the service information: its list, the modules, and the texts of their pairs.
use client_sdk.Base.{
  ℕ, ◌+◌, ◌-◌, ◌<◌, ◌≤◌, ◌≡◌, refl, sym, ap, true, none, some, List, [], ◌∷◌, ◌++◌, arith, Bytes,
  All, length, length-append, leb, ◌&&◌, ◌==◌, if◌then◌else◌,
}
use client_sdk.Env.{Env, c_string}
use client_sdk.Prot.{codes}
use client_sdk.Writer.Numbers.{sdo_write_byte_array_field-Emits}
use client_sdk.Writer.Emit.{IsReady}
use client_sdk.Block.Bounds.{IsValid}
use client_sdk.Base64.{bin_to_b64_length, bin_to_b64}
use client_sdk.Wire.{InStep}
use client_sdk.Reader.Values.{Leaves}
use client_sdk.Env.{Reliable}
use client_sdk.Types.ByteArray.{sdo_byte_array_read_chars, sdo_byte_array_write_chars}
use client_sdk.Types.ByteArray.RoundTrip.{Codes, array_of, chars_round_trip}
use client_sdk.Types.ServiceInfo.{ServiceInfo, SameKey, sdo_service_info_add_kv_str}
use client_sdk.Types.ServiceInfo.Lookup.{IsText, Folds, IsCounted, lookup}
use client_sdk.Types.ServiceInfo.Update.{updated, held, add-updated}
use client_sdk.Types.Modules.{
  SiKeyValue, ModuleCallback, Module, Supplied, si_success, sdo_supply_module_psi,
  sdo_supply_module_osi, sdo_construct_module_list, sdo_get_dsi_count, count_loop,
}
use client_sdk.Types.Modules.Dispatch.{supply-first, joined, construct-joined}
use client_sdk.Types.Modules.Dsi.{sdo_mod_data_kv}
use client_sdk.Types.Modules.Dsi.Rounds.{
  Answers, IsKey, rounds, rounds-all_pairs, get_dsi_count-total, all_pairs, dsi_total,
}
use client_sdk.Types.Modules.Osi.{sdo_osi_handling, settled}
use client_sdk.Types.Modules.Osi.Keys.{handling-joined, handling-mod_data_kv}
use client_sdk.Types.Modules.Psi.{ended, sdo_get_module_name_msg_value, Tokenizer, sdo_psi_parsing}
use client_sdk.Types.Modules.Psi.Parsing.{Without, InBounds, get_bounds}
use client_sdk.Types.Modules.Psi.Loop.{
  Entry, IsGood, Tokenizes, psi_text, feed_all, psi_parsing-feed_all,
}
use client_sdk.Tests.{host, host-Reliable, same_bytes, same_bytes-lem, empty_block, writer, reader}

abbrev lower : Bytes → Bytes
lower [] = []
lower (c ∷ s) = (if leb b'A' c && leb c b'Z' then c + 32 else c) ∷ lower s

abbrev same_case : SameKey
same_case d n s = same_bytes (lower d) (lower (c_string s))

same_case-Folds : Folds same_case lower
same_case-Folds d s = same_bytes-lem (lower d) (lower (c_string s))

abbrev known : ServiceInfo
known = record {
  num_kv = 1;
  kv = record { key = held (codes "name"); val = some (held (codes "x")) } ∷ [];
}

name-IsText : IsText (codes "NAME")
name-IsText = record { some_text = omega arith; short = omega arith; plain = ground arith }

value-IsText : IsText (codes "y")
value-IsText = record { some_text = omega arith; short = omega arith; plain = ground arith }

add-updated_example :
    ((sdo_service_info_add_kv_str host same_case known (codes "NAME") (codes "y")).1 ≡ true)
    × IsCounted (sdo_service_info_add_kv_str host same_case known (codes "NAME") (codes "y")).0
    × (lookup same_case
          (sdo_service_info_add_kv_str host same_case known (codes "NAME") (codes "y")).0.kv
          (codes "NAME")
        ≡ updated same_case (lookup same_case known.kv) (codes "NAME") (codes "y") (codes "NAME"))
add-updated_example =
    add-updated host (λ n. refl) same_case lower same_case-Folds known (codes "NAME") (codes "y")
      (codes "NAME") name-IsText value-IsText name-IsText refl

-- A module that counts its calls, and answers `key` with `value`.
abbrev answer : ModuleCallback ℕ
answer type count si w = record {
  ret = si_success;
  count = elim count [ none ↦ 0 | some c ↦ c ];
  si = record { key = some (codes "key"); value = some (codes "value") };
  world = w + 1;
}

abbrev module_of : Bytes → Module ℕ
module_of name = record {
  module_name = name;
  service_info_callback = answer;
  module_psi_index = 0;
  module_dsi_count = 2;
  module_osi_index = 4;
}

abbrev sys : Module ℕ
sys = module_of (codes "sys")

abbrev net : Module ℕ
net = module_of (codes "net")

abbrev pair : SiKeyValue
pair = record { key = some (codes "a"); value = some (codes "b") }

abbrev after_call : List (Module ℕ) → Supplied ℕ
after_call ms = record {
  module_list = ms;
  sv_kv = some (record { key = some (codes "key"); value = some (codes "value") });
  cb_return_val = some si_success;
  ok = true;
  world = 8;
}

supply-first_example :
    (sdo_supply_module_psi host (sys ∷ net ∷ []) (some (codes "net")) (some pair) (some 0) 7
      ≡ after_call (sys ∷ record net { module_psi_index = 1 } ∷ []))
    × (sdo_supply_module_osi host (sys ∷ net ∷ []) (some (codes "net")) (some pair) (some 0) 7
        ≡ after_call (sys ∷ record net { module_osi_index = 5 } ∷ []))
supply-first_example = supply-first host (sys ∷ []) net [] (codes "net") pair 0 7 (refl, tt) refl

construct-joined_example : sdo_construct_module_list host (sys ∷ net ∷ []) ≡ some (codes "sys;net")
unfolding joined
construct-joined_example = construct-joined host sys (net ∷ []) refl (omega arith)

get_bounds_example : InBounds (sdo_get_module_name_msg_value (codes "sys:a~b") 7 0)
get_bounds_example = get_bounds (codes "sys:a~b") 7 0

-- The part in front of the first comma, and what is behind it.
cut : Bytes → Bytes × Bytes
cut [] = ([], [])
cut (c ∷ s) = let more = cut s in if c == b',' then ([], s) else (c ∷ more.0, more.1)

abbrev at_comma : Tokenizer
at_comma [] n = none
at_comma (c ∷ s) n =
    let t = cut (c ∷ s) in
    some (t.0, t.1, if length t.0 == length (c ∷ s) then n - length t.0 else n - length t.0 - 1)

cut_last : (t : Bytes) → Without b',' t → cut t ≡ (t, [])
unfolding cut
cut_last [] h = refl
cut_last (c ∷ t) h = rw (h.0, cut_last t h.1)

cut_next : (t left : Bytes) → Without b',' t → cut (t ++ (b',' ∷ left)) ≡ (t, left)
unfolding cut
cut_next [] left h = refl
cut_next (c ∷ t) left h = rw (h.0, cut_next t left h.1)

at_comma-last :
    (t : Bytes) (n : ℕ)
    → 0 < length t
    → Without b',' t
    → length t ≤ n
    → at_comma t n ≡ some (t, [], n - length t)
at_comma-last [] n h k room = absurd (omega arith)
at_comma-last (c ∷ t) n h k room = rw (cut_last (c ∷ t) k) (ground arith)

at_comma-next :
    (t left : Bytes) (n : ℕ)
    → 0 < length t
    → Without b',' t
    → length t < n
    → at_comma (t ++ (b',' ∷ left)) n ≡ some (t, left, n - length t - 1)
at_comma-next [] left n h k room = absurd (omega arith)
at_comma-next (c ∷ t) left n h k room =
    rw (cut_next (c ∷ t) left k) (ground (arith, length-append t (b',' ∷ left)))

at_comma-Tokenizes : Tokenizes at_comma
at_comma-Tokenizes = record { at_end = λ n. refl; last = at_comma-last; next = at_comma-next }

abbrev entries : List Entry
entries =
    record { name = codes "sys"; msg = codes "a"; value = codes "b" }
    ∷ record { name = codes "net"; msg = codes "c"; value = [] }
    ∷ []

entries-IsGood : All IsGood entries
entries-IsGood = (
  record {
    fits = record {
      some_name = omega arith;
      short_name = omega arith;
      short_msg = omega arith;
      short_value = omega arith;
      plain_name = ground arith;
      plain_msg = ground arith;
    };
    plain = ground arith;
  },
  (
    record {
      fits = record {
        some_name = omega arith;
        short_name = omega arith;
        short_msg = omega arith;
        short_value = omega arith;
        plain_name = ground arith;
        plain_msg = ground arith;
      };
      plain = ground arith;
    },
    tt,
  ),
)

abbrev start : Supplied ℕ
start = record {
  module_list = sys ∷ net ∷ [];
  sv_kv = none;
  cb_return_val = some 0;
  ok = true;
  world = 7;
}

psi_parsing-feed_all_example :
    sdo_psi_parsing host at_comma 3 (sys ∷ net ∷ []) (codes "sys:a~b,net:c~") 15 (some 0) 7
    ≡ ended (feed_all host start entries)
unfolding psi_text
psi_parsing-feed_all_example =
    psi_parsing-feed_all host at_comma at_comma-Tokenizes sys (net ∷ []) entries 0 7 entries-IsGood

sys-Answers : Answers sys
sys-Answers = record {
  keys = λ i. codes "key";
  values = λ i. codes "value";
  named = record { some_key = omega arith; short = omega arith };
  some_pairs = omega arith;
  key_fits = λ i. record { some_key = omega arith; short = omega arith };
  value_fits = λ i. omega arith;
  succeeds = λ i sv w. refl;
  keeps = λ i sv w. refl;
  gives = λ i sv w. refl;
}

rounds-all_pairs_example :
    rounds host (dsi_total (sys ∷ [])) (record { list_dsi = sys ∷ []; module_dsi_index = 0 }) 7
    ≡ some (all_pairs (sys ∷ []) (sys-Answers, tt), record { list_dsi = []; module_dsi_index = 0 })
rounds-all_pairs_example = rounds-all_pairs host (λ n. refl) (sys ∷ []) (sys-Answers, tt) 7

word_good : IsKey (codes "key")
word_good = record { some_key = omega arith; short = omega arith }

abbrev sent_pair : SiKeyValue
sent_pair = record { key = some (codes "key"); value = some (codes "value") }

handling-mod_data_kv_example :
    sdo_osi_handling host
      (sys ∷ net ∷ [])
      (sdo_mod_data_kv host (codes "net") sent_pair).0
      (some 0)
      7
    ≡ settled host (
        sdo_supply_module_osi host
          (sys ∷ net ∷ [])
          (some (codes "net"))
          (some sent_pair)
          (some 0)
          7)
handling-mod_data_kv_example =
    handling-mod_data_kv host (λ n. refl) (sys ∷ net ∷ []) (codes "net") (codes "key")
      (codes "value") 0 7 (record { some_key = omega arith; short = omega arith }) word_good
      (omega arith) (ground arith) (omega arith)

abbrev long_key : Bytes
long_key = codes "interface_of_the_device_at_hand"

handling-joined_example :
    sdo_osi_handling host
      (net ∷ [])
      (record { key = some (codes "net:interface_of_the_device_at_hand"); value = none })
      (some 0)
      7
    ≡ settled host (
        sdo_supply_module_osi host
          (net ∷ [])
          (some (codes "net"))
          (some (record { key = some (codes "interface_of_the_device_at_ha"); value = none }))
          (some 0)
          7)
handling-joined_example =
    handling-joined host (net ∷ []) (codes "net") long_key none 0 7 (omega arith) (omega arith)
      (ground arith)

empty-IsValid : IsValid empty_block
empty-IsValid = record { cursor_in = omega arith; size_in = omega arith; allocated = refl }

writer-IsReady : IsReady writer
writer-IsReady = record { valid = empty-IsValid; level = refl }

abbrev three : Bytes
three = 1 ∷ 2 ∷ 3 ∷ []

-- A codec for the three bytes.
abbrev coder : Env
coder = record host {
  bio_encode = λ bs n. if same_bytes bs three then some (codes "AQID") else none;
  bio_decode = λ t n. if same_bytes t (codes "AQID") then some three else none;
}

coder-Reliable : Reliable coder
coder-Reliable = record {
  grows = host-Reliable.grows;
  allocates = λ n. refl;
  prints_unsigned = λ i h. refl;
  prints_escapes = λ c h. refl;
  prints_hex = λ c h. refl;
}

coder-Codes : Codes coder three (codes "AQID")
unfolding bin_to_b64_length
coder-Codes = record { size = refl; no_quote = ground arith; encodes = refl; decodes = λ n h. refl }

bytes-InStep :
    InStep writer
      (sdo_byte_array_write_chars coder writer (array_of three))
      (reader (codes "\"AQID\"]"))
      (b']' ∷ [])
unfolding sdo_byte_array_write_chars bin_to_b64 bin_to_b64_length
bytes-InStep = record {
  readable = omega arith;
  commas = refl;
  sent = sym (
      ap (λ t. t ++ b']' ∷ [])
        (sdo_write_byte_array_field-Emits coder coder-Reliable writer (some three) 3
          writer-IsReady).appended);
}

chars_round_trip_example :
    ((sdo_byte_array_read_chars coder (reader (codes "\"AQID\"]")) (array_of [])).1
      ≡ array_of three)
    × ((sdo_byte_array_read_chars coder (reader (codes "\"AQID\"]")) (array_of [])).2 ≡ 3)
    × Leaves
        (reader (codes "\"AQID\"]"))
        (sdo_byte_array_read_chars coder (reader (codes "\"AQID\"]")) (array_of [])).0
        (b']' ∷ [])
        true
chars_round_trip_example =
    chars_round_trip coder three (codes "AQID") (omega arith) coder-Codes coder-Reliable writer
      (reader (codes "\"AQID\"]")) (b']' ∷ []) (array_of []) writer-IsReady bytes-InStep

get_dsi_count-total_example :
    (sdo_get_dsi_count (sys ∷ net ∷ []) (some 3) (some 0) 7).1
    ≡ some (3 + dsi_total (sdo_get_dsi_count (sys ∷ net ∷ []) (some 3) (some 0) 7).0)
unfolding sdo_get_dsi_count count_loop
get_dsi_count-total_example = get_dsi_count-total sys (net ∷ []) 3 0 7 refl
