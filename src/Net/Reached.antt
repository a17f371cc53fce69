-- ===== src/Net/Reached.antt =====
-- lib/sdonet.c: what a connection that succeeds has reached, and what it has noted.
use client_sdk.Base.{
  ℕ, ◌≡◌, refl, sym, subst, ◌≢◌, Bool, true, false, Option, none, some, ◌==◌, arith, if◌then◌else◌,
}
use client_sdk.Env.{Env}
use client_sdk.Rest.{IpAddress, RestCtx, cache_host_port}
use client_sdk.Rest.Noted.{
  Notes, Secured, cache_host_ip-Notes, cache_host_port-Notes, cache_tls_connection-Notes,
}
use client_sdk.Net.{
  Sockets, Net, Connected, attempt, try_address, open_socket, connect_with, then_port,
  cache_address, cache_tls, via_proxy, is_proxy_defined, connect_to_manufacturer,
  connect_to_rendezvous, connect_to_owner,
}

module _ {W : Type 0} (e : Env) (s : Sockets W) where
  -- One call of `sdo_con_connect`, for a target whose address is not empty, gave the handle.
  abbrev pub Opened : W → Option IpAddress × ℕ → Bool → Connected W → Type 0
  Opened w target ssl got =
      (t : IpAddress) × (h : ℕ) × (target.0 ≡ some t)
      × (t.length ≢ 0)
      × (s.con_connect t target.1 ssl w ≡ (got.0.world, some h))
      × (got.1.0 ≡ some h)

  attempt-Opened :
      (n : Net W) (ip : IpAddress) (port : ℕ) (ssl : Bool) (p : W × Option ℕ)
      → s.con_connect ip port ssl n.world ≡ p
      → ip.length ≢ 0
      → (attempt e s n ip port ssl p).1.1 ≡ true
      → Opened n.world (some ip, port) ssl (attempt e s n ip port ssl p)
        × ((attempt e s n ip port ssl p).0.rest ≡ n.rest)
  unfolding attempt
  attempt-Opened n ip port ssl (w, none) is full done = ground (arith, done)
  attempt-Opened n ip port ssl (w, some h) is full done = ((ip, h, refl, full, is, refl), refl)

  try_address-Opened :
      (n : Net W) (ip : IpAddress) (port : ℕ) (ssl : Bool) (old : Option ℕ) (b : Bool)
      → (ip.length == 0) ≡ b
      → (try_address e s n ip port ssl old b).1.1 ≡ true
      → Opened n.world (some ip, port) ssl (try_address e s n ip port ssl old b)
        × ((try_address e s n ip port ssl old b).0.rest ≡ n.rest)
  unfolding try_address
  try_address-Opened n ip port ssl old true is done = ground (arith, done)
  try_address-Opened n ip port ssl old false is done =
      attempt-Opened n ip port ssl _ refl (λ z. ground (arith, z, is)) done

  open_socket-Opened :
      (n : Net W) (target : Option IpAddress × ℕ) (ssl : Bool) (old : Option ℕ)
      → (open_socket e s n target ssl old).1.1 ≡ true
      → Opened n.world target ssl (open_socket e s n target ssl old)
        × ((open_socket e s n target ssl old).0.rest ≡ n.rest)
  unfolding open_socket
  open_socket-Opened n (none, port) ssl old done = ground (arith, done)
  open_socket-Opened n (some ip, port) ssl old done =
      try_address-Opened n ip port ssl old (ip.length == 0) refl done

  connect_with-Opened :
      (n : Net W) (p : Option RestCtx × Bool) (target : Option IpAddress × ℕ) (ssl : Bool)
      (old : Option ℕ)
      → (connect_with e s n p target ssl old).1.1 ≡ true
      → Opened n.world target ssl (connect_with e s n p target ssl old)
        × ((connect_with e s n p target ssl old).0.rest ≡ p.0)
        × (p.1 ≡ true)
  unfolding connect_with
  connect_with-Opened n (rest, false) target ssl old done = ground (arith, done)
  connect_with-Opened n (rest, true) target ssl old done =
      let (opened, same) = open_socket-Opened (record n { rest = rest }) target ssl old done in
      (opened, same, refl)

  then_port-Notes :
      (p : Option RestCtx × Bool) (ip : IpAddress) (port : ℕ)
      → (p.1 ≡ true → Notes (cache_host_port p.0 port).0 (some ip) port)
      → (then_port e s p port).1 ≡ true
      → Notes (then_port e s p port).0 (some ip) port
  unfolding then_port
  then_port-Notes (rest, false) ip port notes done = ground (arith, done)
  then_port-Notes (rest, true) ip port notes done = notes refl

  cache_address-Notes :
      (rest : Option RestCtx) (ip : Option IpAddress) (port : ℕ)
      → (cache_address e s rest ip port).1 ≡ true
      → Notes (cache_address e s rest ip port).0 ip port
  unfolding cache_address
  cache_address-Notes rest none port done = cache_host_port-Notes rest port done
  cache_address-Notes rest (some ip) port done =
      then_port-Notes _ ip port (cache_host_ip-Notes e rest ip port) done

  cache_tls-Notes :
      (ssl : Bool) (p : Option RestCtx × Bool) (ip : Option IpAddress) (port : ℕ)
      → (p.1 ≡ true → Notes p.0 ip port)
      → (cache_tls e s ssl p).1 ≡ true
      → Notes (cache_tls e s ssl p).0 ip port × Secured ssl (cache_tls e s ssl p).0
  unfolding cache_tls
  cache_tls-Notes ssl (rest, false) ip port notes done = ground (arith, done)
  cache_tls-Notes true (rest, true) ip port notes done =
      cache_tls_connection-Notes rest ip port done (notes refl)
  cache_tls-Notes false (rest, true) ip port notes done = (notes refl, tt)

  -- Where connect_to_rendezvous succeeds, one call of sdo_con_connect gave the handle: for the
  -- proxy, without TLS, if its port is set, and for the server otherwise, with an address that is
  -- not empty. The REST context has the address, where one is given, and the port of the server
  -- itself, and TLS where it is asked for.
  pub connect_to_rendezvous-Opened :
      (n : Net W) (ip : Option IpAddress) (port : ℕ) (old : Option ℕ) (ssl : Bool)
      → let got = connect_to_rendezvous e s n ip port (some old) ssl in
        got.1.1 ≡ true
        → Opened n.world
            (via_proxy n.rvproxy ip port)
            (if is_proxy_defined n.rvproxy then false else ssl)
            got
          × Notes got.0.rest ip port
          × Secured ssl got.0.rest
  unfolding connect_to_rendezvous
  connect_to_rendezvous-Opened n ip port old ssl done =
      let cached = cache_tls e s ssl (cache_address e s n.rest ip port) in
      let (opened, same, cached_all) = connect_with-Opened n cached _ _ old done in
      let (notes, secured) =
        cache_tls-Notes ssl _ ip port (cache_address-Notes n.rest ip port) cached_all in
      (
        opened,
        subst (λ r. Notes r ip port) (sym same) notes,
        subst (Secured ssl) (sym same) secured,
      )

  pub connect_to_manufacturer-Opened :
      (n : Net W) (ip : Option IpAddress) (port : ℕ) (old : Option ℕ) (ssl : Bool)
      → let got = connect_to_manufacturer e s n ip port (some old) ssl in
        got.1.1 ≡ true
        → Opened n.world (via_proxy n.mfgproxy ip port) ssl got × Notes got.0.rest ip port
  unfolding connect_to_manufacturer
  connect_to_manufacturer-Opened n ip port old ssl done =
      let (opened, same, cached) = connect_with-Opened n _ _ ssl old done in
      (opened, subst (λ r. Notes r ip port) (sym same) (cache_address-Notes n.rest ip port cached))

  pub connect_to_owner-Opened :
      (n : Net W) (ip : Option IpAddress) (port : ℕ) (old : Option ℕ) (ssl : Bool)
      → let got = connect_to_owner e s n ip port (some old) ssl in
        got.1.1 ≡ true
        → Opened n.world (via_proxy n.ownerproxy ip port) ssl got × Notes got.0.rest ip port
  unfolding connect_to_owner
  connect_to_owner-Opened n ip port old ssl done =
      let (opened, same, cached) = connect_with-Opened n _ _ ssl old done in
      (opened, subst (λ r. Notes r ip port) (sym same) (cache_address-Notes n.rest ip port cached))
