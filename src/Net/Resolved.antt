-- ===== src/Net/Resolved.antt =====
-- lib/sdonet.c, `resolve_dn`: the address that a host name stands for.
use client_sdk.Base.{
  ℕ, ◌≡◌, refl, sym, ap, subst, Bool, true, false, Option, none, some, List, [], ◌∷◌, ◌++◌, Bytes,
  arith, Option-cases, inl, inr,
}
use client_sdk.Env.{Env}
use client_sdk.Rest.{IpAddress, cache_host_dns}
use client_sdk.Net.{Sockets, Net, first_answer, kept, answered, looked_up, resolve_dn}

module _ {W : Type 0} (e : Env) (s : Sockets W) where
  -- None of the addresses answers, and the attempts lead from one world to the other.
  abbrev pub Silent : List IpAddress → ℕ → Bool → W → W → Type 0
  Silent [] port ssl w w' = w ≡ w'
  Silent (ip ∷ ips) port ssl w w' =
      ((s.con_connect ip port ssl w).1 ≡ none)
      × Silent ips port ssl (s.con_connect ip port ssl w).0 w'

  -- The address is the first of the list that answers.
  abbrev pub Answers : List IpAddress → ℕ → Bool → W → W × Option (IpAddress × ℕ) → Type 0
  Answers ips port ssl w (w', none) = Silent ips port ssl w w'
  Answers ips port ssl w (w', some (found, h)) =
      (before : List IpAddress) × (after : List IpAddress) × (w1 : W) × (ips
        ≡ before ++ found ∷ after)
      × Silent before port ssl w w1
      × (s.con_connect found port ssl w1 ≡ (w', some h))

  -- An address that is silent in front of the list.
  Answers-cons :
      (ip : IpAddress) (ips : List IpAddress) (port : ℕ) (ssl : Bool) (w : W)
      (p : W × Option (IpAddress × ℕ))
      → (s.con_connect ip port ssl w).1 ≡ none
      → Answers ips port ssl (s.con_connect ip port ssl w).0 p
      → Answers (ip ∷ ips) port ssl w p
  Answers-cons ip ips port ssl w (w', none) quiet rest = (quiet, rest)
  Answers-cons ip ips port ssl w (w', some (found, h)) quiet
        (before, after, w1, split, silent, is) =
      (ip ∷ before, after, w1, ap (λ l. ip ∷ l) split, (quiet, silent), is)

  -- What the loop does with the result of its first attempt.
  abbrev after_first :
      IpAddress → List IpAddress → ℕ → Bool → W → Option ℕ → W × Option (IpAddress × ℕ)
  after_first ip ips port ssl w none = first_answer e s ips port ssl w
  after_first ip ips port ssl w (some h) = (w, some (ip, h))

  at_head :
      (ip : IpAddress) (ips : List IpAddress) (port : ℕ) (ssl : Bool) (w : W) {o : Option ℕ}
      → (s.con_connect ip port ssl w).1 ≡ o
      → Answers
          (ip ∷ ips)
          port
          ssl
          w
          (after_first ip ips port ssl (s.con_connect ip port ssl w).0 o)
      → Answers (ip ∷ ips) port ssl w (
          after_first ip ips port ssl
            (s.con_connect ip port ssl w).0
            (s.con_connect ip port ssl w).1)
  at_head ip ips port ssl w is =
      subst
        (λ o.
          Answers (ip ∷ ips) port ssl w
            (after_first ip ips port ssl (s.con_connect ip port ssl w).0 o))
        (sym is)

  pub first_answer-Answers :
      (ips : List IpAddress) (port : ℕ) (ssl : Bool) (w : W)
      → Answers ips port ssl w (first_answer e s ips port ssl w)
  unfolding first_answer
  first_answer-Answers [] port ssl w = refl
  first_answer-Answers (ip ∷ ips) port ssl w = elim (Option-cases (s.con_connect ip port ssl w).1) [
    | inl quiet ↦ at_head ip ips port ssl w quiet (
        Answers-cons ip ips port ssl w _ quiet
          (first_answer-Answers ips port ssl (s.con_connect ip port ssl w).0))
    | inr (h, is) ↦
        at_head ip ips port ssl w is
          ([], ips, w, refl, refl, λ i. ((s.con_connect ip port ssl w).0, is i))
  ]

  -- What the caller gets without a proxy.
  abbrev pub Found : Net W → Bytes → ℕ → Bool → Net W × (Option IpAddress × Bool) → Type 0
  Found n dn port ssl got =
      (ips : List IpAddress) × (found : IpAddress) × (h : ℕ) × (w : W) × (((s.dns_lookup dn
          n.world).1)
        ≡ some ips)
      × Answers ips port ssl (s.dns_lookup dn n.world).0 (w, some (found, h))
      × (got.1.0 ≡ some found)
      × (got.0.world ≡ s.con_disconnect h ssl w)
      × ((cache_host_dns e n.rest (some dn)).1 ≡ true)
      × (got.0.rest ≡ (cache_host_dns e n.rest (some dn)).0)

  kept-true :
      (n : Net W) (found : IpAddress) (ip : Option IpAddress) (cached given : Bool)
      → (kept e s n found ip cached given).1.1 ≡ true
      → (cached ≡ true) × (kept e s n found ip cached given ≡ (n, (some found, true)))
  unfolding kept
  kept-true n found ip false given done = ground (arith, done)
  kept-true n found ip true false done = ground (arith, done)
  kept-true n found ip true true done = (refl, refl)

  answered-Found :
      (n : Net W) (dn : Bytes) (port : ℕ) (ssl : Bool) (ip : Option IpAddress)
      (ips : List IpAddress) (p : W × Option (IpAddress × ℕ))
      → (s.dns_lookup dn n.world).1 ≡ some ips
      → Answers ips port ssl (s.dns_lookup dn n.world).0 p
      → (answered e s n dn ssl ip p).1.1 ≡ true
      → Found n dn port ssl (answered e s n dn ssl ip p)
  unfolding answered
  answered-Found n dn port ssl ip ips (w, none) looked answers done = ground (arith, done)
  answered-Found n dn port ssl ip ips (w, some (found, h)) looked answers done =
      let (cached, is) = kept-true _ found ip _ _ done in
      (
        ips,
        found,
        h,
        w,
        looked,
        answers,
        ap (λ g. g.1.0) is,
        ap (λ g. g.0.world) is,
        cached,
        ap (λ g. g.0.rest) is,
      )

  looked_up-Found :
      (n : Net W) (dn : Bytes) (ip : Option IpAddress) (port : ℕ) (ssl : Bool)
      (p : W × Option (List IpAddress))
      → s.dns_lookup dn n.world ≡ p
      → (looked_up e s n dn ip port ssl p).1.1 ≡ true
      → Found n dn port ssl (looked_up e s n dn ip port ssl p)
  unfolding looked_up
  looked_up-Found n dn ip port ssl (w, none) is done = ground (arith, done)
  looked_up-Found n dn ip port ssl (w, some []) is done = ground (arith, done)
  looked_up-Found n dn ip port ssl (w, some (i ∷ rest)) is done =
      answered-Found n dn port ssl ip (i ∷ rest) _ (ap (λ p. p.1) is)
        (subst (λ w'. Answers (i ∷ rest) port ssl w' (first_answer e s (i ∷ rest) port ssl w))
          (ap (λ p. p.0) (sym is)) (first_answer-Answers (i ∷ rest) port ssl w))
        done

  -- Where resolve_dn succeeds without a proxy, it gives the first address of the looked-up list
  -- that answers: those in front of it were tried in order and gave no handle. The connection to
  -- it is closed again, and the name is cached.
  pub resolve_dn-Found :
      (n : Net W) (dn : Bytes) (ip : Option IpAddress) (port : ℕ) (ssl : Bool)
      → (resolve_dn e s n (some dn) ip port ssl false).1.1 ≡ true
      → Found n dn port ssl (resolve_dn e s n (some dn) ip port ssl false)
  unfolding resolve_dn
  resolve_dn-Found n dn ip port ssl = looked_up-Found n dn ip port ssl _ refl
