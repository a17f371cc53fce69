-- ===== src/Prot/To2/Finish/Quiet.antt =====
-- lib/prot/to2: msg50 keeps the reader, and msg51 its `receive` pointer.
use client_sdk.Base.{◌≡◌, refl, Bool}
use client_sdk.Act.Keeps.{Keeps}
use client_sdk.Env.{Env}
use client_sdk.Prot.{OwnerBlk, OwnerSupplied, Prot}
use client_sdk.Prot.Steps.{quiet, reader}
use client_sdk.Prot.To2.{To2Calls}
use client_sdk.Prot.To2.Finish.{
  msg50_credentials, reuse_hmac, resale_hmac, no_hmac, new_hmac, msg50_hmac, msg50_send,
  msg50_stored, msg50, msg51_body,
}
use client_sdk.Prot.To2.Quiet.{exchanging}
use client_sdk.Types.Rendezvous.{Hash}

module _ (e : Env) (c : To2Calls) where
  reuse-Keeps : Keeps reader (reuse_hmac e c)
  unfolding reuse_hmac
  reuse-Keeps = search exchanging depth 60 fits 6000

  resale-Keeps : Keeps reader (resale_hmac e c)
  unfolding resale_hmac
  resale-Keeps = search exchanging depth 60 fits 6000

  no_hmac-Keeps : Keeps reader (no_hmac e c)
  unfolding no_hmac
  no_hmac-Keeps = search exchanging depth 60 fits 6000

  new_hmac-Keeps : (b : Bool) → Keeps reader (new_hmac e c b)
  unfolding new_hmac
  new_hmac-Keeps b = search (exchanging, resale-Keeps, no_hmac-Keeps) depth 60 fits 6000

  hmac-Keeps : Keeps reader (msg50_hmac e c)
  unfolding msg50_hmac
  hmac-Keeps = search (exchanging, reuse-Keeps, new_hmac-Keeps) depth 60 fits 6000

  send-Keeps : (hmac : Hash) → Keeps reader (msg50_send e c hmac)
  unfolding msg50_send
  send-Keeps hmac = search exchanging depth 60 fits 6000

  stored-Keeps : (hmac : Hash) → Keeps reader (msg50_stored e c hmac)
  unfolding msg50_stored
  stored-Keeps hmac = search (exchanging, send-Keeps) depth 60 fits 6000

  credentials_kept :
      (owner : OwnerBlk) (osc : OwnerSupplied) (ps : Prot)
      → (msg50_credentials e c owner osc ps).sdor ≡ ps.sdor
  unfolding msg50_credentials
  credentials_kept owner osc ps = refl

  pub msg50-Keeps : Keeps reader (msg50 e c)
  unfolding msg50
  msg50-Keeps = search (exchanging, hmac-Keeps, stored-Keeps, credentials_kept) depth 60 fits 6000

  pub msg51-Keeps : Keeps quiet (msg51_body e c)
  unfolding msg51_body
  msg51-Keeps = search exchanging depth 60 fits 6000
