-- ===== src/Context/Finished.antt =====
-- lib/sdoprotctx.c: what the result of `sdo_prot_ctx_run` says of the run.
use mathlib.Core.Option.{some-injective}
use client_sdk.Base.{
  ℕ, zero, suc, ◌≡◌, ◌≢◌, refl, ap, sym, ◌∙◌, Bool, true, false, Option, none, some, arith, ◌==◌,
  ◌||◌, if◌then◌else◌, Bool-cases, ne→==, inl, inr, Bytes,
}
use client_sdk.Env.{Env}
use client_sdk.Block.{Block}
use client_sdk.Prot.{Prot, sdo_state_done}
use client_sdk.Context.{Network, Context, Outcome, negative, nothing_moved, positive}
use client_sdk.Context.Run.{
  Step, ends, goes, conclude, after_body, receive_body, receive, after_send, after_connect,
  exchange, leave, close_block, run_loop, sdo_prot_ctx_run,
}

-- A round that does not end the loop with the result 0.
data Stays {W : Type 0} : Step W → Type 0 where
  broke : {c : Context W} {now : Bool} → Stays (ends c false now)
  going : {c : Context W} → Stays (goes c)

if-Stays : {W : Type 0} (b : Bool) {s t : Step W} → Stays s → Stays t → Stays (if b then s else t)
if-Stays true x y = x
if-Stays false x y = y

if_false-Stays :
    {W : Type 0} (b : Bool) (s t : Step W) → b ≡ false → Stays t → Stays (if b then s else t)
if_false-Stays true s t h y = cc
if_false-Stays false s t h y = y

ends-Stays :
    {W : Type 0} {s : Step W} → Stays s → (c : Context W) (now : Bool) → s ≢ ends c true now
ends-Stays broke c now x = cc
ends-Stays going c now x = cc

module _ {W : Type 0} (e : Env) (net : Network W) where
  conclude-Stays : (n : ℕ) (c : Context W) → Stays (conclude e net n c)
  unfolding conclude
  conclude-Stays n c = search (if-Stays, broke, going)

  after_body-Stays : (n : ℕ) (p : Context W × Outcome) → Stays (after_body e net n p)
  unfolding after_body
  after_body-Stays n (c, negative) = broke
  after_body-Stays n (c, nothing_moved) = broke
  after_body-Stays n (c, positive) = conclude-Stays n c

  receive_body-Stays : (n : ℕ) (c : Context W) (p : Block × Bool) → Stays (receive_body e net n c p)
  unfolding receive_body
  receive_body-Stays n c (b, false) = broke
  receive_body-Stays n c (b, true) = search (if-Stays, conclude-Stays, after_body-Stays)

  receive-Stays : (c : Context W) (p : W × Option (ℕ × ℕ)) → Stays (receive e net c p)
  unfolding receive
  receive-Stays c (w, none) = broke
  receive-Stays c (w, some (type, n)) = search receive_body-Stays

  after_send-Stays : (p : Context W × Outcome) → Stays (after_send e net p)
  unfolding after_send
  after_send-Stays (c, negative) = broke
  after_send-Stays (c, nothing_moved) = receive-Stays c _
  after_send-Stays (c, positive) = receive-Stays c _

  after_connect-Stays : (p : Context W × Bool) → Stays (after_connect e net p)
  unfolding after_connect
  after_connect-Stays (c, false) = broke
  after_connect-Stays (c, true) = after_send-Stays _

  -- A protocol that is not done does not end the loop with the result 0.
  exchange-Stays :
      (f : Prot → Prot) (c : Context W)
      → (f c.protdata).state ≢ sdo_state_done
      → Stays (exchange e net f c)
  unfolding exchange
  exchange-Stays f c more = search (if_false-Stays, if-Stays, broke, after_connect-Stays, ne→==)

  exchange-done :
      (f : Prot → Prot) (c : Context W)
      → (f c.protdata).state ≡ sdo_state_done
      → exchange e net f c ≡ ends (record c { protdata = f c.protdata }) true false
  unfolding exchange
  exchange-done f c done = ground (arith, done)

  close_block-keeps :
      (awaited : Bool) (b : Option Bytes) (c : Context W)
      → ((close_block e net awaited b c).protdata.state ≡ c.protdata.state)
        × ((close_block e net awaited b c).protdata.sdow ≡ c.protdata.sdow)
  unfolding close_block
  close_block-keeps false b c = (refl, refl)
  close_block-keeps true none c = (refl, refl)
  close_block-keeps true (some bs) c = (refl, refl)

  leave-keeps :
      (awaited : Bool) (c : Context W)
      → ((leave e net awaited c).protdata.state ≡ c.protdata.state)
        × ((leave e net awaited c).protdata.sdow ≡ c.protdata.sdow)
  unfolding leave
  leave-keeps awaited c = close_block-keeps awaited _ _

  run_loop-done :
      (f : Prot → Prot) (fuel : ℕ) (awaited : Bool) (c : Context W) {c' : Context W}
      → run_loop e net f fuel awaited c ≡ some (c', true)
      → (p : Prot) × ((f p).state ≡ sdo_state_done)
        × (c'.protdata.state ≡ sdo_state_done)
        × (c'.protdata.sdow ≡ (f p).sdow)
  unfolding run_loop
  run_loop-done f zero awaited c r = cc
  run_loop-done f (suc fuel) awaited c {c'} r =
      go (exchange e net f c) refl (λ d x. run_loop-done f fuel true d x)
    where
      go :
          (s : Step W)
          → exchange e net f c ≡ s
          → ((d : Context W)
              → run_loop e net f fuel true d ≡ some (c', true)
              → (p : Prot) × ((f p).state ≡ sdo_state_done)
                × (c'.protdata.state ≡ sdo_state_done)
                × (c'.protdata.sdow ≡ (f p).sdow))
          → (p : Prot) × ((f p).state ≡ sdo_state_done)
            × (c'.protdata.state ≡ sdo_state_done)
            × (c'.protdata.sdow ≡ (f p).sdow)
      go (goes d) x ih = ih d (rw (x, run_loop) at r)
      go (ends d false now) x ih = absurd (cc (rw (x, run_loop) at r))
      go (ends d true now) x ih = elim (Bool-cases ((f c.protdata).state == sdo_state_done)) [
        | inl is_done ↦
            let done : (f c.protdata).state ≡ sdo_state_done = ground (arith, is_done) in
            let both : Path (Context W × Bool) (leave e net (awaited || now) d, true) (c', true) =
              some-injective _ _ (rw (x, run_loop) at r) in
            let last : leave e net (awaited || now) d ≡ c' = ap (λ k. k.0) both in
            let this : Path (Step W) (ends (record c { protdata = f c.protdata }) true false)
                (ends d true now) =
              sym (exchange-done f c done) ∙ x in
            let same : d.protdata ≡ f c.protdata = cc in
            let (state, sdow) = leave-keeps (awaited || now) d in
            (
              c.protdata,
              done,
              ap (λ k. k.protdata.state) (sym last) ∙ state ∙ ap (λ k. k.state) same ∙ done,
              ap (λ k. k.protdata.sdow) (sym last) ∙ sdow ∙ ap (λ k. k.sdow) same,
            )
        | inr is_more ↦
            let more : (f c.protdata).state ≢ sdo_state_done = ground (arith, is_more) in
            absurd (ends-Stays (exchange-Stays f c more) d now x)
      ]

  -- When sdo_prot_ctx_run returns 0, the protocol has been run to the state DONE: the run that is
  -- left has that state and the writer that the last call of the protocol left.
  pub sdo_prot_ctx_run-done :
      (f : Prot → Prot) (fuel : ℕ) (c : Context W) {c' : Context W}
      → sdo_prot_ctx_run e net (some f) fuel c ≡ some (c', true)
      → (p : Prot) × ((f p).state ≡ sdo_state_done)
        × (c'.protdata.state ≡ sdo_state_done)
        × (c'.protdata.sdow ≡ (f p).sdow)
  unfolding sdo_prot_ctx_run
  sdo_prot_ctx_run-done f fuel c {c'} r = elim (Bool-cases (net.con_setup c.world).1) [
    | inl fails ↦ absurd (cc (rw fails at r))
    | inr set_up ↦ run_loop-done f fuel false _ (rw set_up at r)
  ]
