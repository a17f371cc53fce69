-- ===== src/Tests/Messages.antt =====
-- Examples of the message writer and reader at concrete blocks.
use client_sdk.Base.{
  ◌≤◌, ◌≡◌, ◌↔◌, refl, sym, ap, true, false, none, some, [], ◌∷◌, ◌++◌, arith, Bytes, length, take,
}
use client_sdk.Decimal.{decimal, value_from}
use client_sdk.Env.{c_string}
use client_sdk.Base64.{bin_to_b64_length, b64_to_bin_length, b64_to_bin_length-bin_to_b64_length}
use client_sdk.Block.{sdo_resize_block, sdo_b_put_c}
use client_sdk.Block.Bounds.{IsValid, text, Puts, sdo_resize_block-grows, sdo_b_put_c-Puts}
use client_sdk.Writer.{padstring, sdo_write_uint, sdo_write_string, sdo_write_tag}
use client_sdk.Writer.Arrays.{sdo_write_byte_array}
use client_sdk.Writer.Emit.{IsReady, Emits}
use client_sdk.Writer.Strings.{padded, padstring-Emits, sdo_write_string-Emits, sdo_write_tag-Emits}
use client_sdk.Writer.Numbers.{byte_array_text, sdo_write_uint-Emits, sdo_write_byte_array-Emits}
use client_sdk.Reader.{sdo_read_uint, sdo_read_string, sdo_read_string_sz}
use client_sdk.Reader.Fields.{
  sdo_read_expected_tag, sdo_read_array_no_state_change, sdo_read_array_sz,
}
use client_sdk.Reader.Arrays.{sdo_read_array_no_state_change_lem, sdo_read_array_sz_short}
use client_sdk.Reader.Scan.{rest}
use client_sdk.Reader.Strings.{sdo_read_string-Leaves}
use client_sdk.Reader.Tags.{sdo_read_string_sz_lem, sdo_read_expected_tag-any}
use client_sdk.Reader.Values.{Leaves, sdo_read_uint-Leaves}
use client_sdk.Wire.{InStep, uint_round_trip, string_round_trip, plain_round_trip, tag_round_trip}
use client_sdk.Tests.{
  host, host-Reliable, host-Grows, host-ComparesStrings, empty_block, writer, reader,
}

empty-IsValid : IsValid empty_block
empty-IsValid = record { cursor_in = omega arith; size_in = omega arith; allocated = refl }

writer-IsReady : IsReady writer
writer-IsReady = record { valid = empty-IsValid; level = refl }

-- `42]`, `"a"]` and `"a":1`
abbrev number_text : Bytes
number_text = b'4' ∷ b'2' ∷ b']' ∷ []

abbrev letter_text : Bytes
letter_text = b'"' ∷ b'a' ∷ b'"' ∷ b']' ∷ []

abbrev tag_text : Bytes
tag_text = b'"' ∷ b'a' ∷ b'"' ∷ b':' ∷ b'1' ∷ []

abbrev letter : Bytes
letter = b'a' ∷ []

number-InStep : InStep writer (sdo_write_uint host writer 42) (reader number_text) (b']' ∷ [])
unfolding decimal
number-InStep = record {
  readable = omega arith;
  commas = refl;
  sent = sym (
      ap (λ t. t ++ b']' ∷ [])
        (sdo_write_uint-Emits host host-Reliable writer 42 writer-IsReady (omega arith)).appended);
}

letter-InStep : InStep writer (sdo_write_string host writer letter) (reader letter_text) (b']' ∷ [])
letter-InStep = record {
  readable = omega arith;
  commas = refl;
  sent = sym (
      ap (λ t. t ++ b']' ∷ [])
        (sdo_write_string-Emits host host-Reliable writer letter writer-IsReady
          (omega arith)).appended);
}

tag-InStep : InStep writer (sdo_write_tag host writer letter) (reader tag_text) (b'1' ∷ [])
tag-InStep = record {
  readable = omega arith;
  commas = refl;
  sent = sym (
      ap (λ t. t ++ b'1' ∷ [])
        (sdo_write_tag-Emits host host-Reliable writer letter writer-IsReady
          (omega arith)).appended);
}

uint_round_trip_example :
    ((sdo_read_uint (reader number_text)).1 ≡ 42)
    × Leaves (reader number_text) (sdo_read_uint (reader number_text)).0 (b']' ∷ []) true
    × ((sdo_write_uint host writer 42).need_comma ≡ true)
uint_round_trip_example =
    uint_round_trip host host-Reliable writer (reader number_text) (b']' ∷ []) writer-IsReady 42
      (omega arith) refl number-InStep

string_round_trip_example :
    ((sdo_read_string (reader letter_text) 8).1 ≡ length (padded true (c_string letter)))
    × ((sdo_read_string (reader letter_text) 8).2 ≡ some (take 7 (padded true (c_string letter))))
    × Leaves (reader letter_text) (sdo_read_string (reader letter_text) 8).0 (b']' ∷ []) true
string_round_trip_example =
    string_round_trip host host-Reliable writer (reader letter_text) (b']' ∷ []) writer-IsReady
      letter 8 (omega arith, tt) letter-InStep

plain_round_trip_example :
    ((sdo_read_string (reader letter_text) 8).1 ≡ 1)
    × ((sdo_read_string (reader letter_text) 8).2 ≡ some letter)
    × Leaves (reader letter_text) (sdo_read_string (reader letter_text) 8).0 (b']' ∷ []) true
plain_round_trip_example =
    plain_round_trip host host-Reliable writer (reader letter_text) (b']' ∷ []) writer-IsReady
      letter 8 (refl, tt) (omega arith) letter-InStep

tag_round_trip_example :
    (((sdo_read_expected_tag host (reader tag_text) letter).1 ≡ true) ↔ (letter ≡ c_string letter))
    × Leaves
        (reader tag_text)
        (sdo_read_expected_tag host (reader tag_text) letter).0
        (b'1' ∷ [])
        false
tag_round_trip_example =
    tag_round_trip host host-Reliable writer (reader tag_text) (b'1' ∷ []) writer-IsReady letter
      letter host-ComparesStrings (refl, tt) (omega arith) tag-InStep

sdo_write_byte_array-Emits_example :
    Emits writer
      (sdo_write_byte_array host writer (some letter) 1)
      (byte_array_text host (some letter) 1)
      true
sdo_write_byte_array-Emits_example =
    sdo_write_byte_array-Emits host host-Reliable writer (some letter) 1 writer-IsReady
      (omega arith)

sdo_b_put_c-Puts_example : Puts empty_block (sdo_b_put_c host empty_block b'{') (b'{' ∷ [])
sdo_b_put_c-Puts_example = sdo_b_put_c-Puts host host-Grows empty_block b'{' empty-IsValid

sdo_resize_block-grows_example :
    IsValid (sdo_resize_block host empty_block 300)
    × (text (sdo_resize_block host empty_block 300) ≡ [])
    × (300 ≤ (sdo_resize_block host empty_block 300).block_max)
    × ((sdo_resize_block host empty_block 300).cursor ≡ 0)
    × ((sdo_resize_block host empty_block 300).block_size ≡ 0)
sdo_resize_block-grows_example =
    sdo_resize_block-grows host host-Grows empty_block 300 empty-IsValid

padstring-Emits_example :
    Emits writer (padstring host writer (b'<' ∷ []) none true) (padded true (b'<' ∷ [])) false
padstring-Emits_example =
    padstring-Emits host host-Reliable writer (b'<' ∷ []) none true empty-IsValid (omega arith)
      (omega arith, tt)

-- A quoted tag with no colon behind it.
abbrev broken_tag : Bytes
broken_tag = b'"' ∷ b'a' ∷ b'"' ∷ b'!' ∷ b'1' ∷ []

sdo_read_expected_tag-any_example :
    (((sdo_read_expected_tag host (reader broken_tag) letter).1 ≡ true)
      ↔ (c_string (take 31 letter) ≡ c_string letter))
    × Leaves
        (reader broken_tag)
        (sdo_read_expected_tag host (reader broken_tag) letter).0
        (b'1' ∷ [])
        true
sdo_read_expected_tag-any_example =
    sdo_read_expected_tag-any host (reader broken_tag) letter letter b'!' (b'1' ∷ [])
      host-ComparesStrings (omega arith) refl ((λ x. cc), tt)

abbrev number_array : Bytes
number_array = b'1' ∷ b',' ∷ b'[' ∷ b'2' ∷ b']' ∷ b']' ∷ b',' ∷ []

sdo_read_array_no_state_change_example :
    sdo_read_array_no_state_change (reader number_array)
    ≡ (reader number_array, some (b'1' ∷ b',' ∷ b'[' ∷ b'2' ∷ b']' ∷ b']' ∷ []))
sdo_read_array_no_state_change_example =
    sdo_read_array_no_state_change_lem (reader number_array) (b'1' ∷ b',' ∷ b'[' ∷ b'2' ∷ []) []
      (b',' ∷ []) (omega arith) refl (omega arith) tt

sdo_read_array_sz_short_example :
    ((sdo_read_array_sz (reader number_text)).1 ≡ none)
    × (rest (sdo_read_array_sz (reader number_text)).0.b ≡ [])
sdo_read_array_sz_short_example =
    sdo_read_array_sz_short (reader number_text) (omega arith) (omega arith)

sdo_read_string-Leaves_example :
    ((sdo_read_string (reader letter_text) 1).1 ≡ 1)
    × ((sdo_read_string (reader letter_text) 1).2 ≡ some [])
    × Leaves (reader letter_text) (sdo_read_string (reader letter_text) 1).0 (b']' ∷ []) true
sdo_read_string-Leaves_example =
    sdo_read_string-Leaves (reader letter_text) 1 letter (b']' ∷ []) (omega arith) refl
      (omega arith)

sdo_read_string_sz_example : sdo_read_string_sz (reader letter_text) ≡ (reader letter_text, 1)
sdo_read_string_sz_example =
    sdo_read_string_sz_lem (reader letter_text) letter (b']' ∷ []) (omega arith) refl (omega arith)

sdo_read_uint-Leaves_example :
    ((sdo_read_uint (reader number_text)).1 ≡ value_from 0 (b'4' ∷ b'2' ∷ []))
    × Leaves (reader number_text) (sdo_read_uint (reader number_text)).0 (b']' ∷ []) true
sdo_read_uint-Leaves_example =
    sdo_read_uint-Leaves (reader number_text) (b'4' ∷ b'2' ∷ []) (b']' ∷ []) (omega arith) refl
      (omega arith) refl

b64_to_bin_length-bin_to_b64_length_example : 32 ≤ b64_to_bin_length (bin_to_b64_length 32)
b64_to_bin_length-bin_to_b64_length_example = b64_to_bin_length-bin_to_b64_length 32
