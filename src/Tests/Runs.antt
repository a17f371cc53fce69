-- ===== src/Tests/Runs.antt =====
-- Examples of the protocol's loop and of its context, with small handlers and a quiet network.
use client_sdk.Base.{
  ◌≤◌, ◌<◌, ◌+◌, ◌⊎◌, ◌≡◌, ℕ, refl, Bool, true, false, ◌&&◌, none, some, [], ◌∷◌, arith, ◌==◌,
  if◌then◌else◌,
}
use client_sdk.Block.Bounds.{IsValid, text}
use client_sdk.Writer.Emit.{IsReady}
use client_sdk.Prot.{
  codes, sdo_check_to2_round_trips, max_to2_round_trips, internal_server_error, Prot,
  sdo_state_done, sdo_state_error, message_body_error, sdo_type_error, sdo_send_error_message,
}
use client_sdk.Prot.Errors.{
  sdo_check_to2_round_trips-cases, error_text, IsFreed, sdo_send_error_message_lem,
  sdo_process_states-fails,
}
use client_sdk.Prot.Machine.{
  di_state_fn, Handlers, choose_fn, parse_error, round, sdo_process_states,
}
use client_sdk.Prot.Termination.{Lawful, sdo_process_states-terminates}
use client_sdk.Context.{Network, Context, negative, sdo_prot_ctx_connect}
use client_sdk.Context.Connected.{failed, Counts, sdo_prot_ctx_connect-resumes, send_loop-bound}
use client_sdk.Context.Finished.{sdo_prot_ctx_run-done}
use client_sdk.Context.Run.{exchange, sdo_prot_ctx_run, send_loop}
use client_sdk.Tests.{blank_run, host, host-Reliable, host-AreBytes, empty_block, writer, reader}

empty-IsValid : IsValid empty_block
empty-IsValid = record { cursor_in = omega arith; size_in = omega arith; allocated = refl }

abbrev start : Prot
start = record (blank_run 10 (reader [])) { n5 = some (record { byte_sz = 0; bytes = none }) }

-- Handlers that fail, and handlers that send at 10 and finish with the block that comes at 11.
abbrev failing : Handlers
failing fn ps = (ps, 1)

abbrev two_messages : Handlers
two_messages fn ps =
    if ps.state == 10
    then (record ps { state = 11 }, 0)
    else if ps.state == 11 && ps.sdor.have_block
    then (record ps { state = sdo_state_done; sdor = record ps.sdor { have_block = false } }, 0)
    else if ps.state == 11
    then (ps, 0)
    else (ps, 1)

two_messages-Lawful : Lawful two_messages
two_messages-Lawful = record {
  sends = λ ps fn c even ok. ground (arith, even, ok);
  waits = λ ps fn c odd free quiet ok. ground (arith, odd, free, ok);
  unset = λ ps fn c quiet ok. ground (arith, quiet, ok);
  receives = λ ps fn c odd block ok. ground (arith, odd, block, ok);
}

sdo_process_states-terminates_example :
    (result : Prot × Bool) × (sdo_process_states host two_messages 4 start ≡ some result)
sdo_process_states-terminates_example =
    sdo_process_states-terminates host two_messages two_messages-Lawful 4 start (omega arith) refl
      refl

starts : choose_fn 10 none ≡ some (di_state_fn 0)
unfolding choose_fn
starts = refl

failing_run : sdo_process_states host failing 4 start ≡ some (parse_error host start, false)
unfolding sdo_process_states round choose_fn
failing_run = refl

sdo_process_states-fails_example :
    (s : ℕ) × (text (parse_error host start).sdow.b
      ≡ error_text message_body_error sdo_state_error (host.print_parse_error s))
    × ((parse_error host start).sdow.msg_type ≡ sdo_type_error)
    × ((parse_error host start).state ≡ sdo_state_error)
    × IsFreed (parse_error host start)
sdo_process_states-fails_example =
    sdo_process_states-fails host host-Reliable failing 4 start (di_state_fn 0) (λ g p v. v)
      host-AreBytes empty-IsValid starts failing_run

sdo_send_error_message_example :
    let w = sdo_send_error_message host writer 100 61 (b'x' ∷ []) in
    (text w.b ≡ error_text 100 61 (b'x' ∷ [])) × (w.msg_type ≡ sdo_type_error) × IsReady w
sdo_send_error_message_example =
    sdo_send_error_message_lem host host-Reliable writer 100 61 (b'x' ∷ []) empty-IsValid
      (omega arith) (omega arith) (omega arith, tt)

-- A network that counts what is sent, and whose sends all fail.
abbrev quiet : Network ℕ
quiet = record {
  con_setup = λ w. (w, false);
  resolve_dn = λ server dn old port tls w. (w, (none, false));
  connect_to = λ server ip port old tls w. (w, (some 1, true));
  con_connect = λ ip port w. (w, some 1);
  send_message = λ h type body w. (w + 1, negative);
  recv_msg_header = λ h w. (w, none);
  recv_msg_body = λ h n bs w. (w, (negative, bs));
  disconnect = λ h w. (w, false);
  teardown = λ w. w;
}

abbrev context : Context ℕ
context = record {
  world = 0;
  prevstate = 0;
  host_ip = some 5;
  host_dns = none;
  resolved_ip = none;
  host_port = 8039;
  tls = false;
  sock_hdl = none;
  protdata = start;
}

quiet-Counts : Counts quiet (λ w. w)
quiet-Counts = record {
  on_send = λ h type body w. refl;
  on_disconnect = λ h w. refl;
  on_connect = λ ip port w. refl;
}

send_loop-bound_example :
    (0 + 1 ≤ (send_loop host quiet 2 context).0.world)
    × ((send_loop host quiet 2 context).0.world ≤ 0 + (2 + 1))
send_loop-bound_example = send_loop-bound host quiet (λ w. w) quiet-Counts 2 context

sdo_prot_ctx_connect-resumes_example :
    let c1 = failed (sdo_prot_ctx_connect quiet context).0 in
    let c2 = (sdo_prot_ctx_connect quiet c1).0 in (c2.protdata ≡ start) × (c2.prevstate ≡ 10)
sdo_prot_ctx_connect-resumes_example = sdo_prot_ctx_connect-resumes quiet context (λ x. cc)

abbrev finishing : Prot → Prot
finishing p = record p { state = sdo_state_done }

abbrev finished : Context ℕ
finished = record context { protdata = finishing start }

finished_run : sdo_prot_ctx_run host quiet (some finishing) 1 context ≡ some (finished, true)
unfolding sdo_prot_ctx_run exchange
finished_run = refl

sdo_prot_ctx_run-done_example :
    (p : Prot) × ((finishing p).state ≡ sdo_state_done)
    × (finished.protdata.state ≡ sdo_state_done)
    × (finished.protdata.sdow ≡ (finishing p).sdow)
sdo_prot_ctx_run-done_example = sdo_prot_ctx_run-done host quiet finishing 1 context finished_run

-- A run that has made one round trip too many.
abbrev long_run : Prot
long_run = record start { round_trip_count = 1000001 }

sdo_check_to2_round_trips-cases_example :
    let ps = (sdo_check_to2_round_trips host long_run).0 in
    let within = (sdo_check_to2_round_trips host long_run).1 in
    ((1000001 ≤ max_to2_round_trips)
      × (within ≡ true)
      × (ps.round_trip_count ≡ 1000001 + 1)
      × (ps.state ≡ 10))
    ⊎ ((max_to2_round_trips < 1000001)
        × (within ≡ false)
        × (ps.state ≡ sdo_state_error)
        × (text ps.sdow.b
            ≡ error_text internal_server_error 10 (codes "Exceeded max number of rounds")))
sdo_check_to2_round_trips-cases_example =
    sdo_check_to2_round_trips-cases host host-Reliable long_run empty-IsValid (omega arith)
