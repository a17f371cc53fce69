-- ===== src/Tests/Network.antt =====
-- Examples of the network logic: a name server with two addresses, of which the second answers.
use client_sdk.Base.{
  All, ◌+◌, codes, ℕ, ◌+◌, ◌↔◌, refl, Bool, true, false, none, some, [], ◌∷◌, Bytes, arith, ◌==◌,
  length, if◌then◌else◌,
}
use client_sdk.Rest.{
  IpAddress, cleared, cache_host_dns, cache_host_ip, cache_host_port, cache_tls_connection,
}
use client_sdk.Rest.Noted.{Untouched, Fits, Notes, Secured, note_all, note_all-Untouched}
use client_sdk.Net.{
  Sockets, Proxy, Net, via_proxy, is_proxy_defined, connect_to_rendezvous, resolve_dn,
}
use client_sdk.Net.Reached.{Opened, connect_to_rendezvous-Opened}
use client_sdk.Net.Resolved.{Found, resolve_dn-Found}
use client_sdk.Tests.{host}

abbrev near : IpAddress
near = record { length = 4; addr = 10 ∷ 0 ∷ 0 ∷ 1 ∷ [] }

abbrev far : IpAddress
far = record { length = 4; addr = 10 ∷ 0 ∷ 0 ∷ 2 ∷ [] }

-- The world counts the connections; only an address that ends in 2 answers, with its count.
abbrev last_is : Bytes → ℕ → Bool
last_is [] c = false
last_is (b ∷ []) c = b == c
last_is (a ∷ b ∷ bs) c = last_is (b ∷ bs) c

abbrev sockets : Sockets ℕ
sockets = record {
  dns_lookup = λ dn w. (w, some (near ∷ far ∷ []));
  con_connect = λ ip port ssl w. (w + 1, if last_is ip.addr 2 then some w else none);
  con_disconnect = λ h ssl w. w;
  sleep = λ n w. w;
}

abbrev no_proxy : Proxy
no_proxy = record { ip = near; port = 0 }

abbrev net : Net ℕ
net = record {
  world = 0;
  rest = some cleared;
  mfgproxy = no_proxy;
  rvproxy = record { ip = far; port = 911 };
  ownerproxy = no_proxy;
}

-- Through the proxy, without TLS; the context notes the server behind it, and TLS.
connect_to_rendezvous-Opened_example :
    let got = connect_to_rendezvous host sockets net (some near) 443 (some none) true in
    Opened host sockets 0 (some far, 911) false got
    × Notes got.0.rest (some near) 443
    × Secured true got.0.rest
unfolding connect_to_rendezvous cache_host_ip cache_host_port cache_tls_connection via_proxy
    is_proxy_defined
connect_to_rendezvous-Opened_example =
    connect_to_rendezvous-Opened host sockets net (some near) 443 none true refl

resolve_dn-Found_example :
    Found host sockets net
      (b'r' ∷ b'v' ∷ [])
      443
      false
      (resolve_dn host sockets net (some (b'r' ∷ b'v' ∷ [])) none 443 false false)
unfolding resolve_dn cache_host_dns
resolve_dn-Found_example = resolve_dn-Found host sockets net (b'r' ∷ b'v' ∷ []) none 443 false refl

abbrev dns : Bytes
dns = b'd' ∷ b'n' ∷ b's' ∷ []

abbrev longer : Bytes
longer = codes "owner.org"

-- The second name is shorter than the first one.
note_all-Untouched_example :
    Untouched (note_all host (some cleared) (longer ∷ dns ∷ []))
    ↔ All (Fits (length longer + 1)) (dns ∷ [])
note_all-Untouched_example =
    note_all-Untouched host cleared longer (dns ∷ []) refl (λ n. refl)
      ((omega arith, omega arith), ((omega arith, omega arith), tt))
