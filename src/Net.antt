-- ===== src/Net.antt =====
-- lib/sdonet.c: the connections to the three servers, with the proxies that are built in where
-- HTTPPROXY is defined, as it is by default. The sockets (network/network_if_*.c) are a parameter,
-- a record of functions on a state of the outside world. A handle of `none` is
-- SDO_CON_INVALID_HANDLE; the flag `ssl` says that the caller's TLS pointer is not null.

pub mod Reached
pub mod Resolved
use client_sdk.Base.{
  ℕ, Bool, true, false, not, Option, none, some, List, [], ◌∷◌, Bytes, ◌==◌, if◌then◌else◌,
}
use client_sdk.Env.{Env}
use client_sdk.Rest.{
  IpAddress, RestCtx, cache_host_dns, cache_host_ip, cache_host_port, cache_tls_connection,
  ip_address_size,
}

pub record Sockets (W : Type 0) : Type 0 where
  -- `sdo_con_dns_lookup`; `none` is -1. A null list and an empty one are the same here.
  pub dns_lookup : Bytes → W → W × Option (List IpAddress)
  -- `sdo_con_connect`.
  pub con_connect : IpAddress → ℕ → Bool → W → W × Option ℕ
  -- `sdo_con_disconnect`, whose result is not looked at.
  pub con_disconnect : ℕ → Bool → W → W
  -- `sdo_sleep`.
  pub sleep : ℕ → W → W

-- The two static variables of a proxy.
pub record Proxy : Type 0 where
  pub ip : IpAddress
  pub port : ℕ

-- The static variables of sdonet.c and of rest_interface.c, and the outside world.
pub record Net (W : Type 0) : Type 0 where
  pub world : W
  pub rest : Option RestCtx
  pub mfgproxy : Proxy
  pub rvproxy : Proxy
  pub ownerproxy : Proxy

-- The handle that is stored, and the result.
abbrev pub Connected : Type 0 → Type 0
Connected W = Net W × (Option ℕ × Bool)

-- `is_mfg_proxy_defined`, `is_rv_proxy_defined` and `is_owner_proxy_defined`.
unfoldable pub is_proxy_defined : Proxy → Bool
is_proxy_defined p = not (p.port == 0)

-- RETRY_DELAY.
abbrev pub retry_delay : ℕ
retry_delay = 1

-- The address and the port that the socket is opened to.
unfoldable pub via_proxy : Proxy → Option IpAddress → ℕ → Option IpAddress × ℕ
unfolding is_proxy_defined
via_proxy p ip port = if is_proxy_defined p then (some p.ip, p.port) else (ip, port)

module _ {W : Type 0} (e : Env) (s : Sockets W) where
  unfoldable pub then_port : Option RestCtx × Bool → ℕ → Option RestCtx × Bool
  then_port (rest, false) port = (rest, false)
  then_port (rest, true) port = cache_host_port rest port

  -- The address, where one is given, and the port.
  unfoldable pub cache_address : Option RestCtx → Option IpAddress → ℕ → Option RestCtx × Bool
  unfolding then_port
  cache_address rest none port = cache_host_port rest port
  cache_address rest (some ip) port = then_port (cache_host_ip e rest (some ip)) port

  -- One attempt. The retries that are counted down behind a failure are not made.
  unfoldable pub attempt : Net W → IpAddress → ℕ → Bool → W × Option ℕ → Connected W
  attempt n ip port ssl (w, none) = (record n { world = s.sleep retry_delay w }, (none, false))
  attempt n ip port ssl (w, some h) = (record n { world = w }, (some h, true))

  -- The last flag is an address of length 0.
  unfoldable pub try_address : Net W → IpAddress → ℕ → Bool → Option ℕ → Bool → Connected W
  unfolding attempt
  try_address n ip port ssl old true = (n, (old, false))
  try_address n ip port ssl old false = attempt n ip port ssl (s.con_connect ip port ssl n.world)

  unfoldable pub open_socket : Net W → Option IpAddress × ℕ → Bool → Option ℕ → Connected W
  unfolding try_address
  open_socket n (none, port) ssl old = (n, (old, false))
  open_socket n (some ip, port) ssl old = try_address n ip port ssl old (ip.length == 0)

  -- Behind the caching, which has the last result.
  unfoldable pub connect_with :
      Net W → Option RestCtx × Bool → Option IpAddress × ℕ → Bool → Option ℕ → Connected W
  unfolding open_socket
  connect_with n (rest, false) target ssl old = (record n { rest = rest }, (old, false))
  connect_with n (rest, true) target ssl old = open_socket (record n { rest = rest }) target ssl old

  -- `*sock_hdl` is passed; without a place for it nothing is done.
  unfoldable pub connect_to_manufacturer :
      Net W → Option IpAddress → ℕ → Option (Option ℕ) → Bool → Connected W
  unfolding cache_address connect_with via_proxy
  connect_to_manufacturer n ip port none ssl = (n, (none, false))
  connect_to_manufacturer n ip port (some old) ssl =
      connect_with n (cache_address n.rest ip port) (via_proxy n.mfgproxy ip port) ssl old

  -- TLS is noted behind the port.
  unfoldable pub cache_tls : Bool → Option RestCtx × Bool → Option RestCtx × Bool
  cache_tls ssl (rest, false) = (rest, false)
  cache_tls true (rest, true) = cache_tls_connection rest
  cache_tls false (rest, true) = (rest, true)

  unfoldable pub connect_to_rendezvous :
      Net W → Option IpAddress → ℕ → Option (Option ℕ) → Bool → Connected W
  unfolding cache_address cache_tls connect_with via_proxy is_proxy_defined
  connect_to_rendezvous n ip port none ssl = (n, (none, false))
  connect_to_rendezvous n ip port (some old) ssl =
      connect_with n (cache_tls ssl (cache_address n.rest ip port)) (via_proxy n.rvproxy ip port)
        (if is_proxy_defined n.rvproxy then false else ssl) old

  unfoldable pub connect_to_owner :
      Net W → Option IpAddress → ℕ → Option (Option ℕ) → Bool → Connected W
  unfolding cache_address connect_with via_proxy
  connect_to_owner n ip port none ssl = (n, (none, false))
  connect_to_owner n ip port (some old) ssl =
      connect_with n (cache_address n.rest ip port) (via_proxy n.ownerproxy ip port) ssl old

  -- The first address that answers, with its handle.
  unfoldable pub first_answer : List IpAddress → ℕ → Bool → W → W × Option (IpAddress × ℕ)
  first_answer [] port ssl w = (w, none)
  first_answer (ip ∷ ips) port ssl w =
      let got = s.con_connect ip port ssl w in
      elim got.1 [ none ↦ first_answer ips port ssl got.0 | some h ↦ (got.0, some (ip, h)) ]

  -- The last two flags: the name is cached, and there is memory for the address.
  unfoldable pub kept :
      Net W → IpAddress → Option IpAddress → Bool → Bool → Net W × (Option IpAddress × Bool)
  kept n found ip false given = (n, (ip, false))
  kept n found ip true false = (n, (none, false))
  kept n found ip true true = (n, (some found, true))

  -- Behind the loop; the argument `ip` is what the caller's pointer holds.
  unfoldable pub answered :
      Net W
      → Bytes
      → Bool
      → Option IpAddress
      → W × Option (IpAddress × ℕ)
      → Net W × (Option IpAddress × Bool)
  unfolding kept
  answered n dn ssl ip (w, none) = (record n { world = w }, (none, false))
  answered n dn ssl ip (w, some (found, h)) =
      let cached = cache_host_dns e n.rest (some dn) in
      let n' = record n { world = s.con_disconnect h ssl w; rest = cached.0 } in
      kept n' found ip cached.1 (e.alloc ip_address_size)

  unfoldable pub looked_up :
      Net W
      → Bytes
      → Option IpAddress
      → ℕ
      → Bool
      → W × Option (List IpAddress)
      → Net W × (Option IpAddress × Bool)
  unfolding first_answer answered
  looked_up n dn ip port ssl (w, none) = (record n { world = w }, (ip, false))
  looked_up n dn ip port ssl (w, some []) = (record n { world = w }, (ip, false))
  looked_up n dn ip port ssl (w, some (i ∷ is)) =
      answered n dn ssl ip (first_answer (i ∷ is) port ssl w)

  -- With a proxy the name is noted, and the caller's pointer stays as it is.
  unfoldable pub resolve_dn :
      Net W → Option Bytes → Option IpAddress → ℕ → Bool → Bool → Net W × (Option IpAddress × Bool)
  unfolding looked_up
  resolve_dn n none ip port ssl proxy = (n, (ip, false))
  resolve_dn n (some dn) ip port ssl true =
      let cached = cache_host_dns e n.rest (some dn) in
      (record n { rest = cached.0 }, (ip, cached.1))
  resolve_dn n (some dn) ip port ssl false = looked_up n dn ip port ssl (s.dns_lookup dn n.world)
