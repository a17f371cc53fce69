-- ===== src/Context/Run.antt =====
-- lib/sdoprotctx.c: `sdo_prot_ctx_run`, which runs the protocol and exchanges its messages. The
-- protocol is the function `protrun` of the context, from a run to a run (its result is not read).
use mathlib.Core.Option
use client_sdk.Base.{
  ℕ, zero, suc, ◌+◌, ◌%◌, Bool, true, false, not, ◌||◌, ◌&&◌, Option, none, some, Bytes, set, take,
  drop, replicate, ◌++◌, ltb, ◌==◌, if◌then◌else◌,
}
use client_sdk.Decimal.{u32_mod}
use client_sdk.Env.{Env, bytes_of}
use client_sdk.Block.{Block, sdo_resize_block}
use client_sdk.Reader.{Sdor, sdor_flush, sdor_set_have_block}
use client_sdk.Prot.{Prot, sdo_state_done, sdo_di_app_start, sdo_type_error}
use client_sdk.Types.Comparison.{rsize_max_mem}
use client_sdk.Context.{
  Outcome, negative, nothing_moved, positive, Network, Context, sdo_prot_ctx_connect, renew,
}

abbrev pub connection_retry : ℕ
connection_retry = 2

-- How a round ends: the loop breaks, with the result 0 or -1 and whether a response has been
-- awaited, or goes on.
pub data Step (W : Type 0) : Type 0 where
  ends : Context W → Bool → Bool → Step W
  goes : Context W → Step W

-- The byte behind the message is cleared; where the block ends there, the model writes nothing.
unfoldable pub terminated : Block → Block
terminated b = record b { block = Option.map (λ bs. set bs b.block_size 0) b.block }

abbrev with_sdor : {W : Type 0} → Context W → Sdor → Context W
with_sdor c r = record c { protdata = record c.protdata { sdor = r } }

abbrev with_sdow_block : {W : Type 0} → Context W → Block → Context W
with_sdow_block c b = record c {
  protdata = record c.protdata { sdow = record c.protdata.sdow { b = b } };
}

-- The bytes that are in a block behind its `memset_s`.
abbrev cleared : ℕ → Bytes → Bytes
cleared n bs = replicate n 0 ++ drop n bs

unfoldable pub cleared_block : Block → ℕ → Option Bytes → Block × Bool
cleared_block b msglen none = (b, false)
cleared_block b msglen (some bs) =
    (record b { block = some (cleared ((msglen + 4) % u32_mod) bs); block_size = msglen }, true)

-- The sizes that `memset_s` refuses.
abbrev refused_size : ℕ → Bool
refused_size n = (n == 0) || ltb rsize_max_mem n

-- The block made ready for a message of a length; false where `memset_s` fails, on a null pointer or
-- for its size.
unfoldable pub fit_block : Env → Block → ℕ → Block × Bool
unfolding cleared_block
fit_block e b msglen =
    let n = (msglen + 4) % u32_mod in
    let sized = sdo_resize_block e b n in
    if refused_size n then (sized, false) else cleared_block sized msglen sized.block

module _ {W : Type 0} (e : Env) (net : Network W) where
  unfoldable pub after_try : Context W → Outcome → Context W × (Outcome × Bool)
  after_try c positive = (c, (positive, false))
  after_try c nothing_moved = ((renew net c).0, (nothing_moved, false))
  after_try c negative = let renewed = renew net c in (renewed.0, (negative, not renewed.1))

  -- One try; the flag is whether another one makes sense.
  unfoldable pub try_send : Context W → Context W × (Outcome × Bool)
  unfolding after_try
  try_send c =
      let w = c.protdata.sdow in
      let sent =
        net.send_message c.sock_hdl w.msg_type (take w.b.block_size (bytes_of w.b.block)) c.world in
      after_try (record c { world = sent.0 }) sent.1

  -- Tries, as many as the retries and one more.
  unfoldable pub send_loop : ℕ → Context W → Context W × Outcome
  unfolding try_send
  send_loop zero c = let t = try_send c in (t.0, t.1.0)
  send_loop (suc retries) c =
      let t = try_send c in elim t.1.1 [ true ↦ send_loop retries t.0 | false ↦ (t.0, t.1.0) ]

  unfoldable pub after_read : Context W → Outcome → Context W × (Outcome × Bool)
  after_read c positive = (c, (positive, false))
  after_read c nothing_moved = (c, (nothing_moved, false))
  after_read c negative = let renewed = renew net c in (renewed.0, (negative, not renewed.1))

  unfoldable pub try_recv : ℕ → Context W → Context W × (Outcome × Bool)
  unfolding after_read
  try_recv msglen c =
      let r = c.protdata.sdor in
      let got = net.recv_msg_body c.sock_hdl msglen (bytes_of r.b.block) c.world in
      after_read
        (with_sdor (record c { world = got.0 })
          (record r { b = record r.b { block = some got.1.1 } }))
        got.1.0

  unfoldable pub recv_loop : ℕ → ℕ → Context W → Context W × Outcome
  unfolding try_recv
  recv_loop zero msglen c = let t = try_recv msglen c in (t.0, t.1.0)
  recv_loop (suc retries) msglen c =
      let t = try_recv msglen c in
      elim t.1.1 [ true ↦ recv_loop retries msglen t.0 | false ↦ (t.0, t.1.0) ]

  -- The response is there: the connection is closed, and what came decides about the next round.
  unfoldable pub conclude : ℕ → Context W → Step W
  conclude msglen c =
      let closed = net.disconnect c.sock_hdl c.world in
      let c1 = record c { world = closed.0 } in
      if closed.1
      then ends c1 false true
      else let c2 = with_sdor c1 (sdor_set_have_block c1.protdata.sdor) in
        if msglen == 0 && c2.protdata.sdow.msg_type == sdo_type_error
        then ends c2 false true
        else if c2.protdata.sdor.msg_type == sdo_type_error
        then ends c2 false true
        else goes c2

  unfoldable pub after_body : ℕ → Context W × Outcome → Step W
  after_body msglen (c, positive) = conclude msglen c
  after_body msglen (c, nothing_moved) = ends (with_sdor c (sdor_flush c.protdata.sdor)) false true
  after_body msglen (c, negative) = ends (with_sdor c (sdor_flush c.protdata.sdor)) false true

  unfoldable pub receive_body : ℕ → Context W → Block × Bool → Step W
  receive_body msglen c (b, false) =
      ends (with_sdor c (record c.protdata.sdor { b = b })) false true
  receive_body msglen c (b, true) =
      let c' = with_sdor c (record c.protdata.sdor { b = b }) in
      if msglen == 0
      then conclude msglen c'
      else after_body msglen (recv_loop connection_retry msglen c')

  unfoldable pub receive : Context W → W × Option (ℕ × ℕ) → Step W
  receive c (w, none) = ends (record c { world = w }) false true
  receive c (w, some (msg_type, msglen)) =
      let flushed = sdor_flush (record c.protdata.sdor { msg_type = msg_type }) in
      receive_body msglen (with_sdor (record c { world = w }) flushed)
        (fit_block e flushed.b msglen)

  unfoldable pub after_send : Context W × Outcome → Step W
  after_send (c, negative) = ends c false false
  after_send (c, nothing_moved) = receive c (net.recv_msg_header c.sock_hdl c.world)
  after_send (c, positive) = receive c (net.recv_msg_header c.sock_hdl c.world)

  unfoldable pub after_connect : Context W × Bool → Step W
  after_connect (c, false) = ends c false false
  after_connect (c, true) =
      after_send (send_loop connection_retry (with_sdow_block c (terminated c.protdata.sdow.b)))

  -- One round: the protocol, then its message and the response.
  unfoldable pub exchange : (Prot → Prot) → Context W → Step W
  exchange protrun c =
      let c1 = record c { protdata = protrun c.protdata } in
      if c1.protdata.state == sdo_state_done
      then ends c1 true false
      else if ltb c1.protdata.sdow.msg_type sdo_di_app_start
          || ltb sdo_type_error c1.protdata.sdow.msg_type
      then ends c1 false false
      else after_connect (sdo_prot_ctx_connect net c1)

  -- What is done where `sdob` is set, as the first response that is awaited does, and has a block.
  unfoldable pub close_block : Bool → Option Bytes → Context W → Context W
  close_block false block c = c
  close_block true none c = c
  close_block true (some bs) c = with_sdor c (record c.protdata.sdor {
    b = record c.protdata.sdor.b { block_max = 0; block_size = 0; cursor = 0; block = none };
  })

  unfoldable pub leave : Bool → Context W → Context W
  unfolding close_block
  leave awaited c =
      close_block awaited c.protdata.sdor.b.block (record c { world = net.teardown c.world })

  unfoldable pub run_loop : (Prot → Prot) → ℕ → Bool → Context W → Option (Context W × Bool)
  unfolding leave
  run_loop protrun zero awaited c = none
  run_loop protrun (suc fuel) awaited c = elim (exchange protrun c) [
    | ends c' ok now ↦ some (leave (awaited || now) c', ok)
    | goes c' ↦ run_loop protrun fuel true c'
  ]

  -- A null `protrun` ends the loop at once. True is the result 0; `none` is no result of the C
  -- function: the fuel ran out.
  unfoldable pub sdo_prot_ctx_run : Option (Prot → Prot) → ℕ → Context W → Option (Context W × Bool)
  unfolding leave run_loop
  sdo_prot_ctx_run protrun fuel c =
      let setup = net.con_setup c.world in
      let c' = record c { world = setup.0 } in
      if setup.1
      then some (c', false)
      else elim protrun [ none ↦ some (leave false c', false) | some f ↦ run_loop f fuel false c' ]
