-- ===== src/Context.antt =====
-- lib/sdoprotctx.c and `sdo_connection_restablish` of lib/sdonet.c: the context of a protocol run,
-- with its connection to a server. The network (network/, and the calls of lib/sdonet.c that reach
-- it) is a parameter, a record of functions on a state of the outside world; a TLS session is part
-- of that world. A socket handle of `none` is SDO_CON_INVALID_HANDLE.
pub mod Run
pub mod Connected
pub mod Finished
use client_sdk.Base.{
  ℕ, zero, suc, Bool, true, false, ◌||◌, Option, none, some, Bytes, ◌==◌, if◌then◌else◌,
}
use client_sdk.Prot.{Address, Prot, sdo_state_error}
use client_sdk.Prot.Machine.{within}

pub data Server : Type 0 where
  manufacturer : Server
  rendezvous : Server
  owner : Server

-- The sign of the number that a transfer returns.
pub data Outcome : Type 0 where
  negative : Outcome
  nothing_moved : Outcome
  positive : Outcome

pub record Network (W : Type 0) : Type 0 where
  -- `sdo_con_setup`; true is a failure.
  pub con_setup : W → W × Bool
  -- `resolve_dn`, for the server whose proxy it looks at, with what its pointer to the address
  -- holds before and after; the flag is a TLS session.
  pub resolve_dn : Server → Address → Option Address → ℕ → Bool → W → W × (Option Address × Bool)
  -- `connect_to_manufacturer`, `connect_to_rendezvous` and `connect_to_owner`: the handle that is
  -- stored before and after, and the result.
  pub connect_to : Server → Option Address → ℕ → Option ℕ → Bool → W → W × (Option ℕ × Bool)
  -- `sdo_con_connect`.
  pub con_connect : Option Address → ℕ → W → W × Option ℕ
  -- `sdo_con_send_message`, of a type and a body.
  pub send_message : Option ℕ → ℕ → Bytes → W → W × Outcome
  -- `sdo_con_recv_msg_header`: the type and the length; `none` is -1.
  pub recv_msg_header : Option ℕ → W → W × Option (ℕ × ℕ)
  -- `sdo_con_recv_msg_body`, of a length, into a buffer that it is given and returns.
  pub recv_msg_body : Option ℕ → ℕ → Bytes → W → W × (Outcome × Bytes)
  -- `sdo_con_disconnect`; true is a failure.
  pub disconnect : Option ℕ → W → W × Bool
  pub teardown : W → W

-- `sdo_prot_ctx_t`, with the static `prevstate` of `sdo_prot_ctx_connect` and the outside world.
pub record Context (W : Type 0) : Type 0 where
  pub world : W
  pub prevstate : ℕ
  pub host_ip : Option Address
  pub host_dns : Option Address
  pub resolved_ip : Option Address
  pub host_port : ℕ
  pub tls : Bool
  pub sock_hdl : Option ℕ
  pub protdata : Prot

abbrev pub owner_connect_retries : ℕ
owner_connect_retries = 2

abbrev is_none : Option Address → Bool
is_none none = true
is_none (some a) = false

-- A new context: `none` where no address is given or the allocation fails. The memory is taken to
-- be cleared, as `sdo_alloc` does.
unfoldable pub sdo_prot_ctx_alloc :
    {W : Type 0}
    → W
    → ℕ
    → Bool
    → Prot
    → Option Address
    → Option Address
    → ℕ
    → Bool
    → Option (Context W)
sdo_prot_ctx_alloc w prevstate allocated protdata none none port tls = none
sdo_prot_ctx_alloc w prevstate allocated protdata host_ip host_dns port tls =
    if allocated
    then some (record {
      world = w;
      prevstate = prevstate;
      host_ip = host_ip;
      host_dns = host_dns;
      resolved_ip = none;
      host_port = port;
      tls = tls;
      sock_hdl = none;
      protdata = protdata;
    })
    else none

-- The cases of the switch that go on to `connect_to_…`.
unfoldable pub server_of : ℕ → Option Server
server_of state =
    if within 10 13 state
    then some manufacturer
    else if within 30 33 state
    then some rendezvous
    else if within 40 51 state
    then some owner
    else none

-- The cases that resolve a host name first.
abbrev pub resolves : ℕ → Bool
resolves state = within 10 11 state || within 30 31 state || within 40 41 state

-- Only the rendezvous server is reached through TLS.
abbrev pub tls_for : Server → Bool → Bool
tls_for manufacturer tls = false
tls_for rendezvous tls = tls
tls_for owner tls = false

-- A run in the error state goes back to the state of the last connection.
unfoldable pub restored : {W : Type 0} → Context W → Context W
restored c =
    if c.protdata.state == sdo_state_error
    then record c { protdata = record c.protdata { state = c.prevstate } }
    else c

module _ {W : Type 0} (net : Network W) where
  unfoldable pub resolved : Context W → W × (Option Address × Bool) → Context W × Bool
  resolved c (w, (ip, false)) = (record c { world = w; resolved_ip = ip }, false)
  resolved c (w, (ip, true)) = (record c { world = w; resolved_ip = ip; host_ip = ip }, true)

  unfoldable pub resolve_host : Server → Context W → Option Address → Context W × Bool
  unfolding resolved
  resolve_host server c none = (c, true)
  resolve_host server c (some dn) =
      resolved c (net.resolve_dn server dn c.resolved_ip c.host_port (tls_for server c.tls) c.world)

  unfoldable pub find_host : Server → Context W → Context W × Bool
  unfolding resolve_host
  find_host server c =
      if resolves c.protdata.state then resolve_host server c c.host_dns else (c, true)

  unfoldable pub open_connection : Server → Context W × Bool → Context W × Bool
  open_connection server (c, false) = (c, false)
  open_connection server (c, true) =
      let got =
        net.connect_to server c.host_ip c.host_port c.sock_hdl (tls_for server c.tls) c.world in
      (record c { world = got.0; sock_hdl = got.1.0 }, got.1.1)

  unfoldable pub connect_server : Option Server → Context W → Context W × Bool
  unfolding find_host open_connection
  connect_server none c = (c, false)
  connect_server (some server) c = open_connection server (find_host server c)

  unfoldable pub sdo_prot_ctx_connect : Context W → Context W × Bool
  unfolding restored server_of connect_server
  sdo_prot_ctx_connect c =
      let r = restored c in
      let done = connect_server (server_of r.protdata.state) r in
      (record done.0 { prevstate = done.0.protdata.state }, done.1)

  -- True is the failure, -1: no try has given a handle.
  unfoldable pub reconnect : ℕ → Context W → Context W × Bool
  reconnect zero c =
      let got = net.con_connect c.host_ip c.host_port c.world in
      (record c { world = got.0; sock_hdl = got.1 }, is_none got.1)
  reconnect (suc retries) c =
      let got = net.con_connect c.host_ip c.host_port c.world in
      let c' = record c { world = got.0; sock_hdl = got.1 } in
      elim got.1 [ none ↦ reconnect retries c' | some handle ↦ (c', false) ]

  unfoldable pub sdo_connection_restablish : Context W → Context W × Bool
  unfolding reconnect
  sdo_connection_restablish c = reconnect owner_connect_retries c

  -- Behind a transfer that failed: true where the retries are given up.
  unfoldable pub renew : Context W → Context W × Bool
  unfolding sdo_connection_restablish
  renew c =
      let closed = net.disconnect c.sock_hdl c.world in
      if closed.1
      then (record c { world = closed.0 }, true)
      else sdo_connection_restablish (record c { world = closed.0 })
