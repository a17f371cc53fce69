-- ===== src/Context/Connected.antt =====
-- lib/sdoprotctx.c and lib/sdonet.c: which state a connection is for, and how often a message is
-- tried.
use client_sdk.Base.{
  ℕ, zero, suc, ◌+◌, ◌≤◌, ◌≡◌, refl, ap, ◌∙◌, Bool, true, false, Option, none, some, arith, Bytes,
  ◌≢◌, inl, inr, Bool-cases, Option-cases,
}
use client_sdk.Env.{Env}
use client_sdk.Prot.{Address, sdo_state_error}
use client_sdk.Context.{
  Server, Network, Context, Outcome, negative, nothing_moved, positive, restored, server_of,
  resolved, resolve_host, find_host, open_connection, connect_server, sdo_prot_ctx_connect,
  reconnect, sdo_connection_restablish, renew, owner_connect_retries, resolves,
}
use client_sdk.Context.Run.{after_try, try_send, send_loop}

-- A run that has met its error behind a connection.
abbrev pub failed : {W : Type 0} → Context W → Context W
failed c = record c { protdata = record c.protdata { state = sdo_state_error } }

module _ {W : Type 0} (net : Network W) where
  resolved-data :
      (c : Context W) (p : W × (Option Address × Bool)) → (resolved net c p).0.protdata ≡ c.protdata
  unfolding resolved
  resolved-data c (w, (ip, false)) = refl
  resolved-data c (w, (ip, true)) = refl

  resolve_host-data :
      (server : Server) (c : Context W) (dns : Option Address)
      → (resolve_host net server c dns).0.protdata ≡ c.protdata
  unfolding resolve_host
  resolve_host-data server c none = refl
  resolve_host-data server c (some dn) = resolved-data c _

  find_host-data :
      (server : Server) (c : Context W) → (find_host net server c).0.protdata ≡ c.protdata
  unfolding find_host
  find_host-data server c = elim (Bool-cases (resolves c.protdata.state)) [
    | inl does ↦ rw does (resolve_host-data server c _)
    | inr not_so ↦ rw not_so
  ]

  open_connection-data :
      (server : Server) (p : Context W × Bool)
      → (open_connection net server p).0.protdata ≡ p.0.protdata
  unfolding open_connection
  open_connection-data server (c, false) = refl
  open_connection-data server (c, true) = refl

module _ {W : Type 0} (net : Network W) where
  connect_server-data :
      (server : Option Server) (c : Context W)
      → (connect_server net server c).0.protdata ≡ c.protdata
  unfolding connect_server
  connect_server-data none c = refl
  connect_server-data (some server) c =
      open_connection-data net server (find_host net server c) ∙ find_host-data net server c

  sdo_prot_ctx_connect-data :
      (c : Context W)
      → ((sdo_prot_ctx_connect net c).0.protdata ≡ (restored c).protdata)
        × ((sdo_prot_ctx_connect net c).0.prevstate ≡ (restored c).protdata.state)
  unfolding sdo_prot_ctx_connect
  sdo_prot_ctx_connect-data c =
      let same = connect_server-data (server_of (restored c).protdata.state) (restored c) in
      (same, ap (λ p. p.state) same)

  restored-fine : (c : Context W) → c.protdata.state ≢ sdo_state_error → restored c ≡ c
  unfolding restored
  restored-fine c fine = ground (arith, fine)

  restored-failed :
      (c : Context W) → (restored (failed c)).protdata ≡ record c.protdata { state = c.prevstate }
  unfolding restored
  restored-failed c = refl

  -- A run that goes into the error state behind a connection is set back by the next connection to
  -- the data and the state that the first connection was for, provided that was not the error
  -- state.
  pub sdo_prot_ctx_connect-resumes :
      (c : Context W)
      → c.protdata.state ≢ sdo_state_error
      → let c1 = failed (sdo_prot_ctx_connect net c).0 in
        let c2 = (sdo_prot_ctx_connect net c1).0 in
        (c2.protdata ≡ c.protdata) × (c2.prevstate ≡ c.protdata.state)
  sdo_prot_ctx_connect-resumes c fine =
      let d = (sdo_prot_ctx_connect net c).0 in
      let (one, prev) = sdo_prot_ctx_connect-data c in
      let (two, prev2) = sdo_prot_ctx_connect-data (failed d) in
      let first : d.protdata ≡ c.protdata = one ∙ ap (λ k. k.protdata) (restored-fine c fine) in
      let before : d.prevstate ≡ c.protdata.state =
        prev ∙ ap (λ k. k.protdata.state) (restored-fine c fine) in
      let back : (restored (failed d)).protdata ≡ c.protdata =
        restored-failed d ∙ (λ i. record (first i) { state = before i }) in
      (two ∙ back, prev2 ∙ ap (λ p. p.state) back)

-- A count of the messages sent, which only a send changes.
pub record Counts {W : Type 0} (net : Network W) (sent : W → ℕ) : Type 0 where
  pub on_send :
      (h : Option ℕ) (type : ℕ) (body : Bytes) (w : W)
      → sent (net.send_message h type body w).0 ≡ sent w + 1
  pub on_disconnect : (h : Option ℕ) (w : W) → sent (net.disconnect h w).0 ≡ sent w
  pub on_connect :
      (ip : Option Address) (port : ℕ) (w : W) → sent (net.con_connect ip port w).0 ≡ sent w

module _ {W : Type 0} (e : Env) (net : Network W) (sent : W → ℕ) (counts : Counts net sent) where
  reconnect-count :
      (retries : ℕ) (c : Context W) → sent (reconnect net retries c).0.world ≡ sent c.world
  unfolding reconnect
  reconnect-count zero c = counts.on_connect _ _ _
  reconnect-count (suc retries) c =
      elim (Option-cases (net.con_connect c.host_ip c.host_port c.world).1) [
        | inl x ↦ rw (x, reconnect, x) (reconnect-count retries _ ∙ counts.on_connect _ _ _)
        | inr (h, x) ↦ rw (x, reconnect) (counts.on_connect _ _ _)
      ]

  renew-count : (c : Context W) → sent (renew net c).0.world ≡ sent c.world
  unfolding renew sdo_connection_restablish
  renew-count c = elim (Bool-cases (net.disconnect c.sock_hdl c.world).1) [
    | inl x ↦ rw x (counts.on_disconnect c.sock_hdl c.world)
    | inr x ↦ rw x (
        reconnect-count owner_connect_retries
          (record c { world = (net.disconnect c.sock_hdl c.world).0 })
        ∙ counts.on_disconnect c.sock_hdl c.world)
  ]

  after_try-count :
      (c : Context W) (o : Outcome) → sent (after_try e net c o).0.world ≡ sent c.world
  unfolding after_try
  after_try-count c negative = renew-count c
  after_try-count c nothing_moved = renew-count c
  after_try-count c positive = refl

  try_send-count : (c : Context W) → sent (try_send e net c).0.world ≡ sent c.world + 1
  unfolding try_send
  try_send-count c = after_try-count _ _ ∙ counts.on_send _ _ _ _

  -- The loop that sends a message sends it at least once and at most one more time than its
  -- retries, whatever the network answers, for any count of the sends that reconnecting does not
  -- change.
  pub send_loop-bound :
      (retries : ℕ) (c : Context W)
      → (sent c.world + 1 ≤ sent (send_loop e net retries c).0.world)
        × (sent (send_loop e net retries c).0.world ≤ sent c.world + (retries + 1))
  unfolding send_loop
  send_loop-bound zero c = let one = try_send-count c in omega (arith, one)
  send_loop-bound (suc retries) c =
      let one = try_send-count c in
      let ih = send_loop-bound retries (try_send e net c).0 in
      elim (Bool-cases (try_send e net c).1.1) [
        | inl x ↦ rw (x, send_loop) (omega (arith, one, ih))
        | inr x ↦ rw (x, send_loop) (omega (arith, one))
      ]
