-- ===== src/Prot/To2/Device.antt =====
-- lib/prot/to2: msg44 to msg46, the proof of the device and its service information.
pub mod Sending
use client_sdk.Base.{
  ℕ, ◌+◌, ◌%◌, Bool, true, false, ◌||◌, not, Option, none, some, Bytes, codes, ltb, ◌==◌,
  if◌then◌else◌,
}
use client_sdk.Act.{pure, Act, ◌>>=◌, ◌>>◌, guard, modify, gets, from, tested}
use client_sdk.Env.{Env}
use client_sdk.Prot.{Prot}
use client_sdk.Prot.Action.{rd, wr, wrote, write, flushed}
use client_sdk.Prot.To1.{sdo_app_id_write}
use client_sdk.Prot.To2.{To2Calls, fresh_nonce, write_held, opened, header_passed, sealed}
use client_sdk.Types.{Bits, no_bits, sdo_string_read}
use client_sdk.Types.ByteArray.{sdo_byte_array_write}
use client_sdk.Types.Modules.Dsi.{sdo_mod_kv_write}
use client_sdk.Types.Reading.{begin_object, end_object, tag, uint}
use client_sdk.Types.ServiceInfo.{ServiceInfo, sdo_combine_platform_dsis}
use client_sdk.Types.Signature.{sdo_begin_write_signature, sdo_end_write_signature}
use client_sdk.Writer.{
  Sdow, sdow_next_block, sdow_begin_object, sdow_end_object, sdo_write_tag, sdo_write_uint,
}

abbrev uint16_mod : ℕ
uint16_mod = 65536

-- The size of the buffer that holds an empty string.
abbrev empty_string_len : ℕ
empty_string_len = 1

-- The size of the struct on a 64-bit target.
abbrev key_value_size : ℕ
key_value_size = 16

abbrev pub is_some : {A : Type 0} → Option A → Bool
is_some o = elim o [ none ↦ false | some a ↦ true ]

-- Whether there is service information to send.
unfoldable pub has_info : Option ServiceInfo → Bool
has_info none = false
has_info (some si) = not (si.num_kv == 0)

module _ (e : Env) where
  abbrev pub named : Bytes → Prot → Prot
  named name = write (λ w. sdo_write_tag e w name)

  unfoldable pub write_rounds : Option ServiceInfo → ℕ → Sdow → Sdow
  write_rounds none n w = w
  write_rounds (some si) n w = sdo_write_uint e w n

  unfoldable pub after_proof : Prot → Prot
  after_proof ps =
      if has_info ps.service_info then record ps { state = 45 } else record ps { state = 47 }

module _ (e : Env) (c : To2Calls) where
  unfoldable pub count_rounds : Act Prot Unit
  count_rounds = do
    counts ← gets (λ ps. c.get_dsi_count ps.sv_info_mod_list_head)
    modify (λ ps. record ps { sv_info_mod_list_head = counts.0 })
    guard (counts.2 || not counts.3)
    modify (λ ps. record ps { total_dsi_rounds = 1 + counts.1 })
    modify (named e (codes "nn"))
    modify (λ ps. record ps { sdow = write_rounds e ps.service_info ps.total_dsi_rounds ps.sdow })

  unfoldable pub msg44_begin : Act Prot ℕ
  msg44_begin = do
    modify (write (λ w. sdow_next_block w 44))
    start ← wrote (sdo_begin_write_signature e)
    guard (c.get_kex_param_b.0 || is_some c.get_kex_param_b.1)
    pure start

  unfoldable pub msg44_body : ℕ → Act Prot Unit
  unfolding count_rounds sdo_app_id_write
  msg44_body start = do
    modify (write (sdow_begin_object e))
    modify (named e (codes "ai"))
    modify (write (sdo_app_id_write e))
    modify (named e (codes "n6"))
    write_held e (λ ps. ps.n6)
    modify (named e (codes "n7"))
    fresh_nonce e c (λ n ps. record ps { n7 = n })
    write_held e (λ ps. ps.n7)
    modify (named e (codes "g2"))
    write_held e (λ ps. ps.g2)
    count_rounds
    modify (named e (codes "xB"))
    xb ← from c.get_kex_param_b.1
    modify (write (λ w. sdow_end_object e (sdo_byte_array_write e w xb)))
    wr (sdo_end_write_signature e c.device_sign start)

  -- Behind the key exchange a failure leaves its result, which is 0 where it has succeeded.
  unfoldable pub msg44_ended : Prot × Option (Unit {0}) → Prot × ℕ
  unfolding after_proof
  msg44_ended (ps, none) = (ps, if c.get_kex_param_b.0 then 0 else 1)
  msg44_ended (ps, some a) = (after_proof e ps, 0)

  unfoldable pub msg44_begun : Prot × Option ℕ → Prot × ℕ
  unfolding msg44_body msg44_ended
  msg44_begun (ps, none) = (ps, 1)
  msg44_begun (ps, some start) = msg44_ended (msg44_body start ps)

  unfoldable pub msg44 : Prot → Prot × ℕ
  unfolding msg44_begin msg44_begun
  msg44 ps = msg44_begun (msg44_begin ps)

  -- What the two fields of the request have to be to each other.
  unfoldable pub msg45_request : ℕ → Bits → Act Prot Unit
  msg45_request nn psi =
      if nn == 0
      then (if ltb empty_string_len psi.byte_sz
          then (gets (λ ps. c.psi_parsing ps.sv_info_mod_list_head psi.bytes psi.byte_sz) >>= λ got.
              modify (λ ps. record ps { sv_info_mod_list_head = got.0 }) >> guard got.1)
          else guard true)
      else (gets (λ ps. ps.total_dsi_rounds) >>= λ rounds.
          guard (ltb nn rounds) >> guard (psi.byte_sz == empty_string_len))

  unfoldable pub string_read : Act Prot Bits
  string_read = rd (λ r.
      let got = sdo_string_read e r no_bits in (got.0, if got.1.1 then some got.1.0 else none))

  unfoldable pub msg45_body : Act Prot Unit
  unfolding opened header_passed msg45_request string_read
  msg45_body = do
    opened e c
    mtype ← header_passed e c
    rd begin_object
    rd (tag e (codes "nn"))
    nn ← rd uint
    modify (λ ps. record ps { serv_req_info_num = nn % uint16_mod })
    rd (tag e (codes "psi"))
    guard (e.alloc 16)
    psi ← string_read
    msg45_request (nn % uint16_mod) psi
    rd end_object
    modify flushed
    modify (λ ps. record ps { state = 46 })

  -- The pairs of the platform first, then those of the modules.
  unfoldable pub msg46_pairs : ServiceInfo → ℕ → Act Prot Unit
  msg46_pairs si nn =
      if nn == 0
      then wr (tested (λ w. sdo_combine_platform_dsis e w si))
      else (guard (e.alloc key_value_size)
          >> (gets (λ ps. c.construct_module_dsi ps.dsi_info) >>= λ got.
              modify (λ ps. record ps { dsi_info = got.0 })
              >> (from got.1 >>= λ kv. wr (tested (λ w. sdo_mod_kv_write e w kv)))))

  -- Another round, or on to the setup.
  unfoldable pub after_info : Prot → Prot
  after_info ps =
      if ltb (ps.serv_req_info_num + 1) ps.total_dsi_rounds
      then record ps { state = 45 }
      else record ps { state = 47 }

  unfoldable pub msg46 : Act Prot Unit
  unfolding msg46_pairs after_info sealed
  msg46 = do
    modify (write (λ w. sdow_begin_object e (sdow_next_block w 46)))
    modify (named e (codes "nn"))
    modify (λ ps. record ps { sdow = sdo_write_uint e ps.sdow ps.serv_req_info_num })
    modify (named e (codes "dsi"))
    modify (write (sdow_begin_object e))
    held ← gets (λ ps. ps.service_info)
    si ← from held
    nn ← gets (λ ps. ps.serv_req_info_num)
    msg46_pairs si nn
    modify (write (λ w. sdow_end_object e (sdow_end_object e w)))
    sealed e c 46
    modify after_info
