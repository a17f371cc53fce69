-- ===== src/Rest/Noted.antt =====
-- network/rest_interface.c: what the context holds behind a note, and the room of a host name.
use client_sdk.Base.{
  ℕ, ◌+◌, ◌-◌, ◌<◌, ◌≤◌, ◌∙◌, sym, subst, ap, List, [], ◌∷◌, ◌++◌, All, drop, replicate,
  length-take, length-drop, length-append, ◌↔◌, ◌≡◌, refl, Bool, true, false, Option, none, some,
  Bytes, length, arith,
}
use client_sdk.Env.{Env}
use client_sdk.Types.{sdo_max_str_size, strnlen_s, bad_length}
use client_sdk.Rest.{
  IpAddress, HostName, overwrite, pointer_size, RestCtx, store_dns, cache_host_dns, keep_dns,
  cache_host_ip, keep_ip, cache_host_port, cache_tls_connection,
}

-- Nothing has been written behind the buffer of the host name.
abbrev pub Clean : Option HostName → Type 0
Clean none = Unit
Clean (some h) = h.behind ≡ []

abbrev pub Untouched : Option RestCtx → Type 0
Untouched none = Unit
Untouched (some r) = Clean r.host_dns

-- A name that is copied over another one, behind the clearing of eight bytes.
abbrev pub Fits : ℕ → Bytes → Type 0
Fits room dns = (pointer_size ≤ room) × (length dns < room)

-- A name that strnlen_s gives the length of.
abbrev pub IsName : Bytes → Type 0
IsName dns = (0 < length dns) × (length dns < 512)

-- The context notes the address, where there is one, and the port.
abbrev pub Host : Option IpAddress → Option IpAddress → Type 0
Host none noted = Unit
Host (some ip) noted = noted ≡ some ip

abbrev pub Notes : Option RestCtx → Option IpAddress → ℕ → Type 0
Notes none ip port = ⊥
Notes (some r) ip port = Host ip r.host_ip × (r.portno ≡ port)

module _ (e : Env) where
  -- The context when one name after the other has been noted.
  pub note_all : Option RestCtx → List Bytes → Option RestCtx
  note_all rest [] = rest
  note_all rest (dns ∷ names) = note_all (cache_host_dns e rest (some dns)).0 names

  -- The size of what stands behind the buffer.
  spilled : HostName → ℕ
  spilled h = length h.behind

  room : HostName → ℕ
  room h = length h.buffer

  overwrite-room : (w : Bytes) (h : HostName) → room (overwrite w h) ≡ room h
  unfolding overwrite room
  overwrite-room w h = omega (
    arith,
    length-take (length h.buffer) (w ++ drop (length w) h.buffer),
    length-append w (drop (length w) h.buffer),
    length-drop (length w) h.buffer,
  )

  overwrite-spilled :
      (w : Bytes) (h : HostName)
      → spilled (overwrite w h) ≡ (length w - room h) + (spilled h - (length w - room h))
  unfolding overwrite spilled room
  overwrite-spilled w h = omega (
    arith,
    length-append (drop (length h.buffer) w) (drop (length w - length h.buffer) h.behind),
    length-drop (length h.buffer) w,
    length-drop (length w - length h.buffer) h.behind,
  )

  -- The clearing, and a name with its terminator, over a buffer that is there.
  abbrev renamed : Bytes → HostName → HostName
  renamed dns h = overwrite (dns ++ (0 ∷ [])) (overwrite (replicate pointer_size 0) h)

  renamed-room : (dns : Bytes) (h : HostName) → room (renamed dns h) ≡ room h
  renamed-room dns h =
      overwrite-room (dns ++ (0 ∷ [])) _ ∙ overwrite-room (replicate pointer_size 0) h

  renamed-spilled :
      (dns : Bytes) (h : HostName)
      → (spilled (renamed dns h) ≡ 0) ↔ ((spilled h ≡ 0) × Fits (room h) dns)
  renamed-spilled dns h =
      let cleared = overwrite (replicate pointer_size 0) h in
      let one = overwrite-spilled (replicate pointer_size 0) h in
      let two = overwrite-spilled (dns ++ (0 ∷ [])) cleared in
      let same = overwrite-room (replicate pointer_size 0) h in
      let len : length (dns ++ (0 ∷ [])) ≡ length dns + 1 = length-append dns (0 ∷ []) in
      (
        λ none. (
          omega (arith, one, two, same, len, none),
          (omega (arith, one, two, same, len, none), omega (arith, one, two, same, len, none)),
        ),
        λ (clean, (wide, short)). omega (arith, one, two, same, len, clean, wide, short),
      )

  good_length : (dns : Bytes) → IsName dns → bad_length (strnlen_s dns sdo_max_str_size) ≡ false
  good_length dns (some_text, short) = ground arith

  note-renamed :
      (r : RestCtx) (dns : Bytes) (h : HostName)
      → r.host_dns ≡ some h
      → IsName dns
      → (cache_host_dns e (some r) (some dns)).0
        ≡ some (record r { host_dns = some (renamed dns h) })
  unfolding cache_host_dns store_dns keep_dns
  note-renamed r dns h is name = rw (good_length dns name, is) refl

  no_bytes : (s : Bytes) → length s ≡ 0 → s ≡ []
  no_bytes [] h = refl
  no_bytes (x ∷ s) h = absurd (omega (arith, h))

  renamed-Clean :
      (dns : Bytes) (h : HostName)
      → ((renamed dns h).behind ≡ []) ↔ ((h.behind ≡ []) × Fits (room h) dns)
  unfolding spilled
  renamed-Clean dns h =
      let (forth, back) = renamed-spilled dns h in
      (
        λ none. let (clean, fits) = forth (ap length none) in (no_bytes h.behind clean, fits),
        λ (clean, fits). no_bytes ((renamed dns h).behind) (back (ap length clean, fits)),
      )

  names-Untouched :
      (r : RestCtx) (h : HostName) (names : List Bytes)
      → r.host_dns ≡ some h
      → All IsName names
      → Untouched (note_all (some r) names) ↔ ((h.behind ≡ []) × All (Fits (room h)) names)
  unfolding note_all
  names-Untouched r h [] is good =
      (λ clean. (subst Clean is clean, tt), λ (clean, rest). subst Clean (sym is) clean)
  names-Untouched r h (dns ∷ names) is good =
      let (forth, back) =
        names-Untouched (record r { host_dns = some (renamed dns h) }) (renamed dns h) names refl
          good.1 in
      let (split, join) = renamed-Clean dns h in
      let same = renamed-room dns h in
      rw (note-renamed r dns h is good.0) (
        λ clean.
            let (here, later) = forth clean in
            let (before, fits) = split here in
            (before, (fits, subst (λ n. All (Fits n) names) same later)),
        λ (before, (fits, later)).
            back (join (before, fits), subst (λ n. All (Fits n) names) (sym same) later),
      )

  note-first :
      (r : RestCtx) (dns : Bytes)
      → r.host_dns ≡ none
      → ((n : ℕ) → e.alloc n ≡ true)
      → IsName dns
      → (cache_host_dns e (some r) (some dns)).0
        ≡ some (record r { host_dns = some (record { buffer = dns ++ (0 ∷ []); behind = [] }) })
  unfolding cache_host_dns store_dns keep_dns
  note-first r dns is memory name = rw (good_length dns name, is, memory (length dns + 1)) refl

  -- Where cache_host_dns notes one name after another in a context that has none, nothing is
  -- written behind the buffer of the host name exactly if every name behind the first one is not
  -- longer than it, and the first one has at least 7 characters if another follows. The names have
  -- 1 to 511 characters, and the heap gives memory.
  pub note_all-Untouched :
      (r : RestCtx) (dns : Bytes) (names : List Bytes)
      → r.host_dns ≡ none
      → ((n : ℕ) → e.alloc n ≡ true)
      → All IsName (dns ∷ names)
      → Untouched (note_all (some r) (dns ∷ names)) ↔ All (Fits (length dns + 1)) names
  unfolding note_all room
  note_all-Untouched r dns names is memory good =
      let first : HostName = record { buffer = dns ++ (0 ∷ []); behind = [] } in
      let (forth, back) =
        names-Untouched (record r { host_dns = some first }) first names refl good.1 in
      let same : length (dns ++ (0 ∷ [])) ≡ length dns + 1 = length-append dns (0 ∷ []) in
      rw (note-first r dns is memory good.0) (
        λ clean. subst (λ n. All (Fits n) names) same (forth clean).1,
        λ later. back (refl, subst (λ n. All (Fits n) names) (sym same) later),
      )

  keep_ip-Host :
      (r : RestCtx) (ip : IpAddress) (old : Option IpAddress)
      → (keep_ip e r ip old).1 ≡ true
      → (keep_ip e r ip old).0.host_ip ≡ some ip
  unfolding keep_ip
  keep_ip-Host r ip none done = ground (arith, done)
  keep_ip-Host r ip (some old) done = refl

  -- An address that is noted, and then the port.
  pub cache_host_ip-Notes :
      (rest : Option RestCtx) (ip : IpAddress) (port : ℕ)
      → (cache_host_ip e rest (some ip)).1 ≡ true
      → Notes (cache_host_port (cache_host_ip e rest (some ip)).0 port).0 (some ip) port
  unfolding cache_host_ip cache_host_port
  cache_host_ip-Notes none ip port done = ground (arith, done)
  cache_host_ip-Notes (some r) ip port done = (keep_ip-Host r ip r.host_ip done, refl)

pub cache_host_port-Notes :
    (rest : Option RestCtx) (port : ℕ)
    → (cache_host_port rest port).1 ≡ true
    → Notes (cache_host_port rest port).0 none port
unfolding cache_host_port
cache_host_port-Notes none port done = ground (arith, done)
cache_host_port-Notes (some r) port done = (tt, refl)

-- The context notes TLS where it is wanted.
abbrev pub Secured : Bool → Option RestCtx → Type 0
Secured false rest = Unit
Secured true none = ⊥
Secured true (some r) = r.tls ≡ true

pub cache_tls_connection-Notes :
    (rest : Option RestCtx) (ip : Option IpAddress) (port : ℕ)
    → (cache_tls_connection rest).1 ≡ true
    → Notes rest ip port
    → Notes (cache_tls_connection rest).0 ip port × Secured true (cache_tls_connection rest).0
unfolding cache_tls_connection
cache_tls_connection-Notes none ip port done notes = absurd notes
cache_tls_connection-Notes (some r) ip port done notes = (notes, refl)
