-- ===== src/Tests/Transfer.antt =====
-- Examples of the transfer of ownership, with calls that succeed.
use client_sdk.Base.{◌≡◌, refl, Bool, true, false, none, some, arith, ℕ, [], ◌∷◌, Bytes}
use client_sdk.Env.{Env}
use client_sdk.Prot.{codes, OvEntry, Prot, Voucher}
use client_sdk.Prot.To2.{To2Calls, write_held, attempted, header_passed, opened}
use client_sdk.Act.{◌>>=◌, ◌>>◌, tested, gets, guard, follow, from, modify, pure}
use client_sdk.Prot.Action.{rd, wr, read_nonce, sdo_nonce_equal}
use client_sdk.Reader.{
  sdor_begin_object, sdo_read_string, string_loop, sdo_read_uint, uint_loop, read_comma,
  read_expected_char, read_expected_char_comma_after, read_expected_char_comma_before,
  sdo_read_string_sz, sdor_begin_sequence, sdor_end_object, sdor_end_sequence, sdor_flush,
  sdor_get_block_ptr, sdor_peek, sdor_next_block,
}
use client_sdk.Block.{
  sdob_getc, sdob_peekc, sdo_skip_c, has_char, sdo_block_reset, sdo_resize_block,
}
use client_sdk.Reader.Fields.{
  sdo_read_expected_tag, field_body, ignore_loop, sdo_read_byte_array_field, sdo_read_tag,
  array_loop, put_back, sdo_read_array_no_state_change, sdo_read_array_sz,
  sdor_read_and_ignore_until, sdor_read_and_ignore_until_end_sequence,
}
use client_sdk.Types.Reading.{
  uint, array_allocated, field, sdo_byte_array_read, sdo_hash_read, string_sz, read_chars,
  sdo_eb_read, string,
}
use client_sdk.Types.Signature.{
  sdo_begin_read_signature, block_text, sdo_ov_signature_verification, signature_read,
  signature_checked, tried, sdo_end_read_signature_full, sdo_signature_verification,
}
use client_sdk.Base64.{b64_to_bin, bin_to_b64_length, b64_to_bin_length}
use client_sdk.Prot.To2.Owner.{
  msg41_body, msg43_body, msg43_checks, msg43_entry, msg43_next, msg43_number, msg43_fields,
  after_header, msg41_exchange, msg41_header, msg41_proof,
}
use client_sdk.Types.Keys.{
  PublicKey, null_at_failure, or_null, sdo_compare_public_keys, sdo_public_key_read,
  sdo_read_pk_null, clone_parts, clone_with, sdo_public_key_clone,
}
use client_sdk.Types.{
  Bits, sdo_bits_alloc, sdo_bits_init, sdo_bits_alloc_with, sdo_bits_fill, sdo_string_init,
  sdo_string_read, sdo_string_resize,
}
use client_sdk.Types.Rendezvous.{Hash}
use client_sdk.Types.Comparison.{sdo_compare_byte_arrays, sdo_compare_rv_lists}
use client_sdk.Types.Packet.{
  sdo_encrypted_packet_windup, clear_block, sdo_byte_array_read_with_type,
  sdo_encrypted_packet_read, sdo_encrypted_packet_unwind,
}
use client_sdk.Types.ByteArray.{sdo_byte_array_read_chars}
use client_sdk.Tests.{host, reader, blank_run}
use client_sdk.Tests.Comparison.{memcmp, memcmp-ComparesBytes}
use client_sdk.Tests.Initialise
use client_sdk.Prot.To2.Owner.Outcome.{HeaderDone, msg41-HeaderDone}
use client_sdk.Prot.To2.Owner.Chain.{no_entry, entry, Verified, entries-Verified}
use client_sdk.Prot.To2.Finish.{msg50, msg51_body}
use client_sdk.Prot.To2.Finish.Outcome.{Replaced, Finished, msg50-Replaced, msg51-Finished}
use client_sdk.Prot.To2.Device.{msg45_body, msg45_request}
use client_sdk.Prot.To2.Info.{msg49_body, after_values, msg49_values, parse_values}
use client_sdk.Prot.To2.Info.Outcome.{InfoAsked, msg45-InfoAsked}
use client_sdk.Prot.To2.Info.Values.{no_message, message, Counted, Messages-Counted}
use client_sdk.Prot.To2.Quiet.{KeepsReader}
use client_sdk.Prot.Machine.{sdo_process_states}
use client_sdk.Prot.Nonces.{SameNonce}
use client_sdk.Prot.Tables.{state_handlers, state_handlers-terminates}

-- The codec gives one byte for any text.
abbrev decoding : Env
decoding = record host { bio_decode = λ bs n. some (7 ∷ []) }

abbrev byte : Bits
byte = record { byte_sz = 1; bytes = some (7 ∷ []) }

abbrev hash : Hash
hash = record { hash_type = 8; hash = byte }

abbrev key : PublicKey
key = record { pkalg = 13; pkenc = 1; key1 = some byte; key2 = none }

abbrev header : OvEntry
header = record { hp_hash = hash; hc_hash = hash; pk = some key }

abbrev voucher : Voucher
voucher = record {
  prot_version = 113;
  key_encoding = 1;
  rvlst2 = none;
  g2 = none;
  dev_info = none;
  mfg_pub_key = some key;
  ovoucher_hdr_hash = some hash;
  num_ov_entries = 1;
  ov_entries = some header;
  hdc = none;
}

abbrev calls : To2Calls
calls = record {
  memcmp_s = memcmp;
  kex_method = byte;
  crypto_suite = byte;
  nonce_rand = 7 ∷ [];
  ov_hdr_read = λ r h. (r, some hash, some voucher);
  ov_verify = λ t s k. true;
  set_kex_param_a = λ a k. true;
  get_kex_param_b = (true, some byte);
  crypto_hash = λ t. some (7 ∷ []);
  device_sign = λ t. some byte;
  encrypt = λ t. some (record { em_body = some byte; hmac = some byte; iv = []; ct_string = [] });
  decrypt = λ p. some (codes "{\"n7\":\"AAAA\"}");
  get_dsi_count = λ l. (l, 0, true, false);
  psi_parsing = λ l s n. (l, true);
  construct_module_dsi = λ d. (d, none);
  osi_parsing = λ r l. (r, l, true);
  exec_sv_end = λ l. l;
  rendezvous_list_read = λ r l. (r, l);
  generate_ov_hmac_key = true;
  store_credential = λ d. true;
  new_ov_hdr_sign = λ d k h. some hash;
  pub_key_hash = λ k. some hash;
  reuse_supported = true;
  resale_supported = true;
}

abbrev entry_run : Prot
entry_run =
    record (blank_run 43 (
      reader (
        codes
          "{\"enn\":0,\"eni\":{\"bo\":{\"hp\":[1,8,\"AAAA\"],\"hc\":[1,8,\"AAAA\"],\"pk\":[13,1,[1,\"AAAA\"]]},\"pk\":[0,0,[0]],\"sg\":[1,\"AAAA\"]}}"))) {
            ovoucher = some voucher;
            owner_public_key = some key;
          }

entry_passes : (msg43_body decoding calls entry_run).1 ≡ some tt
unfolding ◌>>=◌ ◌>>◌ tested gets guard follow from modify pure rd sdor_begin_object sdo_read_string
    string_loop sdo_read_uint uint_loop read_comma read_expected_char read_expected_char_comma_after
    read_expected_char_comma_before sdo_read_string_sz sdor_begin_sequence sdor_end_object
    sdor_end_sequence sdor_flush sdor_get_block_ptr sdor_peek sdob_getc sdob_peekc sdo_skip_c
    has_char sdo_block_reset sdo_read_expected_tag field_body ignore_loop sdo_read_byte_array_field
    sdo_read_tag uint array_allocated field sdo_byte_array_read sdo_hash_read string_sz
    sdo_begin_read_signature block_text sdo_ov_signature_verification signature_read msg43_fields
    b64_to_bin bin_to_b64_length msg43_body msg43_checks msg43_entry msg43_next msg43_number
    null_at_failure or_null sdo_compare_public_keys sdo_public_key_read sdo_read_pk_null
    sdo_bits_alloc sdo_bits_init
entry_passes = refl

abbrev asked_run : Prot
asked_run = record entry_run { state = 42 }

entries-Verified_example :
    Verified decoding calls asked_run
      (msg43_body decoding calls entry_run).0
      voucher
      header
      (entry_run ∷ [])
entries-Verified_example =
    entries-Verified decoding calls voucher header refl refl refl refl (omega arith) (omega arith) (
      entry {p = asked_run} {q = asked_run} {r = entry_run} no_entry refl
        (record { same_voucher = refl; same_number = refl; same_key = refl }) entry_passes)

abbrev header_run : Prot
header_run =
    record (blank_run 41 (
      reader (
        codes
          "{\"bo\":{\"sz\":1,\"n5\":\"AAAA\",\"n6\":\"AAAA\",\"eB\":[13,0,\"\"],\"xA\":[1,\"AAAA\"]},\"pk\":[13,1,[1,\"AAAA\"]],\"sg\":[1,\"AAAA\"]}"))) {
            n5 = some byte;
            plain_text = some byte;
            obsig = some byte;
          }

header_passes : (msg41_body decoding calls header_run).1 ≡ some tt
unfolding msg41_body ◌>>=◌ rd sdo_begin_read_signature ◌>>◌ tested sdor_begin_object sdob_getc
    sdo_read_expected_tag sdo_read_string string_loop gets uint from modify guard sdo_read_uint
    uint_loop follow pure b64_to_bin b64_to_bin_length bin_to_b64_length has_char sdo_block_reset
    sdo_skip_c sdob_peekc read_nonce sdo_nonce_equal after_header msg41_exchange msg41_header
    msg41_proof attempted field_body ignore_loop sdo_read_byte_array_field sdo_read_tag
    sdor_read_and_ignore_until sdor_read_and_ignore_until_end_sequence read_comma read_expected_char
    read_expected_char_comma_after read_expected_char_comma_before sdo_read_string_sz
    sdor_begin_sequence sdor_end_object sdor_end_sequence sdor_flush sdor_get_block_ptr sdor_peek
    sdo_byte_array_read_chars clone_parts clone_with null_at_failure or_null sdo_public_key_clone
    sdo_public_key_read array_allocated field read_chars sdo_byte_array_read sdo_eb_read string
    block_text sdo_end_read_signature_full signature_checked tried sdo_signature_verification
    sdo_bits_alloc sdo_bits_alloc_with sdo_bits_fill sdo_bits_init
header_passes = refl

msg41-HeaderDone_example :
    HeaderDone decoding calls header_run (msg41_body decoding calls header_run).0
    × SameNonce (msg41_body decoding calls header_run).0.n5r header_run.n5
msg41-HeaderDone_example =
    msg41-HeaderDone decoding calls header_run memcmp-ComparesBytes header_passes

-- A packet whose text is what the calls decrypt it to.
abbrev sealed_run : ℕ → Prot
sealed_run s =
    record (blank_run s
      (reader (codes "{\"ct\":[[1,\"AAAA\"],1,\"AAAA\"],\"hmac\":[1,\"AAAA\"]}"))) {
        iv = some 5;
        n6 = some byte;
        n7 = some byte;
        n7r = some byte;
        osc = some (record {
          rvlst = some (record { num_entries = 0; rv_entries = [] });
          guid = some byte;
        });
        dev_cred = some (client_sdk.Tests.Initialise.owned);
        ovoucher = some voucher;
        owner_public_key = some key;
        new_pk = some key;
        owner_supplied_service_info_count = 1;
      }

finish_passes : (msg51_body decoding calls (sealed_run 51)).1 ≡ some tt
unfolding msg51_body ◌>>◌ rd sdo_encrypted_packet_read tested sdor_begin_object sdob_getc modify
    sdo_read_expected_tag sdo_read_string string_loop sdor_begin_sequence guard sdo_bits_alloc
    sdo_read_array_sz array_loop sdo_read_byte_array_field sdo_read_uint follow from gets pure ◌>>=◌
    b64_to_bin b64_to_bin_length bin_to_b64_length has_char sdo_block_reset sdo_resize_block
    sdo_skip_c sdob_peekc sdo_nonce_equal opened field_body put_back sdo_read_array_no_state_change
    sdo_read_tag read_comma read_expected_char read_expected_char_comma_after
    read_expected_char_comma_before sdo_read_string_sz sdor_end_object sdor_end_sequence sdor_flush
    uint_loop sdo_byte_array_read_chars clear_block sdo_byte_array_read_with_type
    sdo_encrypted_packet_unwind array_allocated field read_chars string_sz uint sdo_bits_init
finish_passes = refl

msg51-Finished_example :
    Finished decoding calls (sealed_run 51) (msg51_body decoding calls (sealed_run 51)).0
    × SameNonce (msg51_body decoding calls (sealed_run 51)).0.n7r (sealed_run 51).n7
msg51-Finished_example =
    msg51-Finished decoding calls (sealed_run 51) memcmp-ComparesBytes finish_passes

replaced_passes : (msg50 decoding calls (sealed_run 50)).1 ≡ some tt
unfolding msg50 ◌>>=◌ gets from ◌>>◌ modify sdo_compare_public_keys sdo_compare_byte_arrays
    sdo_compare_rv_lists guard array_allocated sdo_bits_alloc pure write_held wr
    sdo_encrypted_packet_windup
replaced_passes = refl

msg50-Replaced_example :
    Replaced decoding calls (sealed_run 50) (msg50 decoding calls (sealed_run 50)).0
msg50-Replaced_example = msg50-Replaced decoding calls (sealed_run 50) replaced_passes

-- The calls of a run in which a packet has another text.
abbrev decrypting : Bytes → To2Calls
decrypting text = record calls { decrypt = λ p. some text }

abbrev request : To2Calls
request = decrypting (codes "{\"nn\":0,\"psi\":\"\"}")

request_passes : (msg45_body decoding request (sealed_run 45)).1 ≡ some tt
unfolding msg45_body ◌>>◌ rd sdo_encrypted_packet_read tested sdor_begin_object sdob_getc modify
    sdo_read_expected_tag sdo_read_string string_loop sdor_begin_sequence guard sdo_bits_alloc
    sdo_read_array_sz array_loop sdo_read_byte_array_field sdo_read_uint follow from gets pure ◌>>=◌
    b64_to_bin bin_to_b64_length has_char sdo_block_reset sdo_resize_block sdo_skip_c sdob_peekc
    msg45_request header_passed opened field_body put_back sdo_read_array_no_state_change
    sdo_read_tag read_comma read_expected_char read_expected_char_comma_after
    read_expected_char_comma_before sdo_read_string_sz sdor_end_object sdor_end_sequence sdor_flush
    sdor_next_block uint_loop clear_block sdo_byte_array_read_with_type sdo_encrypted_packet_unwind
    array_allocated field string_sz uint sdo_bits_init sdo_string_init sdo_string_read
    sdo_string_resize
request_passes = refl

msg45-InfoAsked_example :
    InfoAsked decoding request (sealed_run 45) (msg45_body decoding request (sealed_run 45)).0
msg45-InfoAsked_example = msg45-InfoAsked decoding request (sealed_run 45) request_passes

abbrev values : To2Calls
values = decrypting (codes "{\"nn\":0,\"sv\":{}}")

values_pass : (msg49_body decoding values (sealed_run 49)).1 ≡ some tt
unfolding msg49_body ◌>>◌ rd sdo_encrypted_packet_read tested sdor_begin_object sdob_getc modify
    sdo_read_expected_tag sdo_read_string string_loop sdor_begin_sequence guard sdo_bits_alloc
    sdo_read_array_sz array_loop sdo_read_byte_array_field sdo_read_uint follow from gets pure ◌>>=◌
    b64_to_bin bin_to_b64_length has_char sdo_block_reset sdo_resize_block sdo_skip_c sdob_peekc
    after_values msg49_values parse_values header_passed opened field_body put_back
    sdo_read_array_no_state_change sdo_read_tag read_comma read_expected_char
    read_expected_char_comma_after read_expected_char_comma_before sdo_read_string_sz
    sdor_end_object sdor_end_sequence sdor_flush sdor_next_block uint_loop clear_block
    sdo_byte_array_read_with_type sdo_encrypted_packet_unwind array_allocated field string_sz uint
    sdo_bits_init
values_pass = refl

Messages-Counted_example :
    Counted decoding values (sealed_run 48) (msg49_body decoding values (sealed_run 49)).0 1
Messages-Counted_example = Messages-Counted decoding values refl refl (omega arith) (
    message {p = sealed_run 48} {q = sealed_run 48} {r = sealed_run 49} no_message refl
      (record { same_number = refl; same_count = refl }) values_pass)

transfer-KeepsReader : KeepsReader calls
transfer-KeepsReader = record {
  header = λ r h. refl;
  values = λ r l. refl;
  rendezvous = λ r l. refl;
}

state_handlers-terminates_example :
    (result : Prot × Bool) × (sdo_process_states host
        (state_handlers host client_sdk.Tests.Initialise.calls calls)
        4
        entry_run
      ≡ some result)
state_handlers-terminates_example =
    state_handlers-terminates host client_sdk.Tests.Initialise.calls calls
      client_sdk.Tests.Initialise.calls-KeepsReader transfer-KeepsReader 4 entry_run (omega arith)
      refl refl
