-- ===== src/Rest.antt =====
-- network/rest_interface.c: the REST context, in which the network layer notes the server that the
-- next message goes to. The static pointer `rest` is passed and returned; `none` is a null pointer.
-- The text of a header is not modelled.

pub mod Noted
use client_sdk.Base.{
  ℕ, ◌+◌, ◌-◌, [], ◌∷◌, ◌++◌, take, drop, replicate, Bool, true, false, Option, none, some, Bytes,
  length, if◌then◌else◌,
}
use client_sdk.Env.{Env}
use client_sdk.Types.{sdo_max_str_size, strnlen_s, bad_length}

-- `sdo_ip_address_t`, with the 16 bytes of `addr`.
pub record IpAddress : Type 0 where
  pub length : ℕ
  pub addr : Bytes

-- The buffer of a host name, and what has been written behind its end.
pub record HostName : Type 0 where
  pub buffer : Bytes
  pub behind : Bytes

-- `rest_ctx_t`.
pub record RestCtx : Type 0 where
  pub prot_ver : ℕ
  pub msg_type : ℕ
  pub tls : Bool
  pub content_length : ℕ
  pub keep_alive : Bool
  pub authorization : Option Bytes
  pub x_token_authorization : Option Bytes
  pub host_ip : Option IpAddress
  pub portno : ℕ
  pub host_dns : Option HostName
  pub is_dns : Bool

-- Bytes that are written from the start of the buffer on, over its end.
unfoldable pub overwrite : Bytes → HostName → HostName
overwrite written h = record {
  buffer = take (length h.buffer) (written ++ drop (length written) h.buffer);
  behind = drop (length h.buffer) written ++ drop (length written - length h.buffer) h.behind;
}

-- `sizeof(rest->host_dns)` on a 64-bit target, that of a pointer.
abbrev pub pointer_size : ℕ
pointer_size = 8

-- The size of the struct on a 64-bit target.
abbrev rest_ctx_size : ℕ
rest_ctx_size = 64

-- The size of `sdo_ip_address_t`.
abbrev pub ip_address_size : ℕ
ip_address_size = 17

abbrev pub cleared : RestCtx
cleared = record {
  prot_ver = 0;
  msg_type = 0;
  tls = false;
  content_length = 0;
  keep_alive = false;
  authorization = none;
  x_token_authorization = none;
  host_ip = none;
  portno = 0;
  host_dns = none;
  is_dns = false;
}

-- Frees, and clears the pointer.
unfoldable pub exit_rest_context : Option RestCtx → Option RestCtx
exit_rest_context rest = none

unfoldable pub cache_host_port : Option RestCtx → ℕ → Option RestCtx × Bool
cache_host_port none port = (none, false)
cache_host_port (some r) port = (some (record r { portno = port }), true)

unfoldable pub cache_tls_connection : Option RestCtx → Option RestCtx × Bool
cache_tls_connection none = (none, false)
cache_tls_connection (some r) = (some (record r { tls = true }), true)

module _ (e : Env) where
  unfoldable pub init_rest_context : Option RestCtx → Option RestCtx × Bool
  init_rest_context (some r) = (some r, false)
  init_rest_context none = if e.alloc rest_ctx_size then (some cleared, true) else (none, false)

  -- A name that is there keeps its buffer, of which as many bytes as a pointer has are cleared. The
  -- functions of the safe string library succeed, as they do for sizes in range, whatever the real
  -- size of the buffer is.
  unfoldable pub keep_dns : RestCtx → Bytes → Option HostName → RestCtx × Bool
  unfolding overwrite
  keep_dns r dns none =
      if e.alloc (length dns + 1)
      then (record r { host_dns = some (record { buffer = dns ++ (0 ∷ []); behind = [] }) }, true)
      else (r, false)
  keep_dns r dns (some old) = (
    record r {
      host_dns = some (overwrite (dns ++ (0 ∷ [])) (overwrite (replicate pointer_size 0) old));
    },
    true,
  )

  -- The flag is a length that is refused.
  unfoldable pub store_dns : RestCtx → Bytes → Bool → Option RestCtx × Bool
  unfolding keep_dns
  store_dns r dns true = (some r, false)
  store_dns r dns false = let kept = keep_dns r dns r.host_dns in (some kept.0, kept.1)

  unfoldable pub cache_host_dns : Option RestCtx → Option Bytes → Option RestCtx × Bool
  unfolding store_dns
  cache_host_dns rest none = (rest, false)
  cache_host_dns none (some dns) = (none, false)
  cache_host_dns (some r) (some dns) = store_dns r dns (bad_length (strnlen_s dns sdo_max_str_size))

  unfoldable pub keep_ip : RestCtx → IpAddress → Option IpAddress → RestCtx × Bool
  keep_ip r ip none =
      if e.alloc ip_address_size then (record r { host_ip = some ip }, true) else (r, false)
  keep_ip r ip (some old) = (record r { host_ip = some ip }, true)

  unfoldable pub cache_host_ip : Option RestCtx → Option IpAddress → Option RestCtx × Bool
  unfolding keep_ip
  cache_host_ip rest none = (rest, false)
  cache_host_ip none (some ip) = (none, false)
  cache_host_ip (some r) (some ip) = let kept = keep_ip r ip r.host_ip in (some kept.0, kept.1)
