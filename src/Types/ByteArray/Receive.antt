-- ===== src/Types/ByteArray/Receive.antt =====
-- lib/sdotypes.c: sdo_byte_array_read_chars keeps the reader's `receive` pointer.
use client_sdk.Base.{ℕ, ◌≡◌, ◌∙◌, ◌==◌}
use client_sdk.Base64.{b64_to_bin_length}
use client_sdk.Env.{Env}
use client_sdk.Reader.{Sdor, sdo_read_string_sz}
use client_sdk.Reader.Receive.{ReceiveKept, either_holds, string_kept, string_sz_kept, field_kept}
use client_sdk.Types.ByteArray.{ByteArray, sdo_byte_array_read_chars, stored}

pub chars_kept :
    (e : Env) (ba : ByteArray) → ReceiveKept (λ r. (sdo_byte_array_read_chars e r ba).0)
unfolding sdo_byte_array_read_chars stored
chars_kept e ba r =
    let sized = sdo_read_string_sz r in
    let n = b64_to_bin_length sized.1 in
    either_holds (λ (x : Sdor × ByteArray × ℕ). x.0.receive_set ≡ r.receive_set) (n == 0) _ _
      (string_kept 1 sized.0 ∙ string_sz_kept r)
      (either_holds (λ (x : Sdor × ByteArray × ℕ). x.0.receive_set ≡ r.receive_set) (e.alloc n) _ _
        (field_kept e sized.1 n sized.0 ∙ string_sz_kept r) (string_sz_kept r))
