-- ===== src/Prot/Steps.antt =====
-- lib/prot: rules for the actions of the handlers of TO1 and TO2.
use client_sdk.Base.{◌≡◌, refl, ◌∙◌, ap, Bool, Option, none, some}
use client_sdk.Act.{Act, ◌>>=◌, ◌>>◌, Ensures, Ensures-bind, Ensures-then, Ensures-modify}
use client_sdk.Act.Keeps.{Keeps, keeps}
use client_sdk.Act.Steps.{modify-then, from-then}
use client_sdk.Env.{Env}
use client_sdk.Prot.{Prot}
use client_sdk.Prot.Action.{rd, wr, wrote, after_failure, on_failure, read_nonce, sdo_nonce_bytes}
use client_sdk.Reader.{Sdor}
use client_sdk.Reader.Receive.{flush_kept}
use client_sdk.Types.{Bits, sdo_bits_alloc}
use client_sdk.Types.Reading.Receive.{receive_set, reading}
use client_sdk.Writer.{Sdow}

abbrev pub quiet : Prot → Bool
quiet ps = ps.sdor.receive_set

abbrev pub reader : Prot → Sdor
reader ps = ps.sdor

pub rd-Keeps : {A : Type 0} {m : Act Sdor A} → Keeps receive_set m → Keeps quiet (rd m)
unfolding rd
rd-Keeps h = record { kept = λ ps. h.kept ps.sdor }

pub wr-Keeps : {A : Type 0} (m : Act Sdow A) → Keeps reader (wr m)
unfolding wr
wr-Keeps m = record { kept = λ ps. refl }

pub wrote-Keeps : {A : Type 0} (f : Sdow → Sdow × A) → Keeps reader (wrote f)
unfolding wrote
wrote-Keeps f = record { kept = λ ps. refl }

-- What is set of the run when a nonce is read leaves the reader as it is.
pub read_nonce-Keeps :
    (e : Env) (set : Option Bits → Prot → Prot)
    → ((n : Option Bits) (ps : Prot) → (set n ps).sdor ≡ ps.sdor)
    → Keeps quiet (read_nonce e set)
unfolding read_nonce
read_nonce-Keeps e set h =
    let same : (n : Option Bits) (ps : Prot) → quiet (set n ps) ≡ quiet ps =
      λ n ps. ap receive_set (h n ps) in
    search (reading, rd-Keeps, same) depth 30 fits 3000

after_failure_kept :
    (f : Prot → Prot) (p : Prot × Option (Unit {0}))
    → ((ps : Prot) → (f ps).sdor ≡ ps.sdor)
    → quiet (after_failure f p).0 ≡ quiet p.0
unfolding after_failure
after_failure_kept f (ps, none) same = ap receive_set (same ps)
after_failure_kept f (ps, some a) same = refl

pub on_failure-Keeps :
    (f : Prot → Prot) (m : Act Prot Unit)
    → ((ps : Prot) → (f ps).sdor ≡ ps.sdor)
    → Keeps quiet m
    → Keeps quiet (on_failure f m)
unfolding on_failure
on_failure-Keeps f m same h = record { kept = λ ps. after_failure_kept f (m ps) same ∙ h.kept ps }

pub ruleset running = (keeps, rd-Keeps, wr-Keeps, wrote-Keeps, read_nonce-Keeps, flush_kept)

-- A step on the reader or the writer, and what follows it: nothing else of the run changes.
module _ {A B : Type 0} {ps : Prot} {Q : B → Prot → Type 0} where
  pub rd-bind :
      (m : Act Sdor A) (k : A → Act Prot B)
      → ((r : Sdor) (a : A) → Ensures (k a) (record ps { sdor = r }) Q)
      → Ensures (rd m >>= k) ps Q
  unfolding rd
  rd-bind m k h = Ensures-bind (record { holds = λ a got. h _ a })

  pub rd-known :
      (m : Act Sdor A) (k : A → Act Prot B)
      → ((r : Sdor) (a : A) → m ps.sdor ≡ (r, some a) → Ensures (k a) (record ps { sdor = r }) Q)
      → Ensures (rd m >>= k) ps Q
  unfolding rd
  rd-known m k h = Ensures-bind (record { holds = λ a got. h _ a (λ i. ((m ps.sdor).0, got i)) })

  pub wrote-bind :
      (f : Sdow → Sdow × A) (k : A → Act Prot B)
      → ((w : Sdow) (a : A) → Ensures (k a) (record ps { sdow = w }) Q)
      → Ensures (wrote f >>= k) ps Q
  unfolding wrote
  wrote-bind f k h = Ensures-bind (record { holds = λ a got. h _ a })

module _ {A : Type 0} {ps : Prot} {Q : A → Prot → Type 0} where
  pub Ensures-rd :
      (m : Act Sdor A) → ((r : Sdor) (a : A) → Q a (record ps { sdor = r })) → Ensures (rd m) ps Q
  unfolding rd
  Ensures-rd m h = record { holds = λ a got. h _ a }

  pub Ensures-wr :
      (m : Act Sdow A) → ((w : Sdow) (a : A) → Q a (record ps { sdow = w })) → Ensures (wr m) ps Q
  unfolding wr
  Ensures-wr m h = record { holds = λ a got. h _ a }

module _ {B : Type 0} {ps : Prot} {Q : B → Prot → Type 0} where
  pub rd-then :
      (m : Act Sdor Unit) (k : Act Prot B)
      → ((r : Sdor) → Ensures k (record ps { sdor = r }) Q)
      → Ensures (rd m >> k) ps Q
  unfolding rd
  rd-then m k h = Ensures-then (record { holds = λ a got. h _ })

  -- What the action on the reader has established is known behind it.
  pub rd-by :
      (m : Act Sdor Unit) (k : Act Prot B) {P : Unit {0} → Sdor → Type 0}
      → Ensures m ps.sdor P
      → ((r : Sdor) → P tt r → Ensures k (record ps { sdor = r }) Q)
      → Ensures (rd m >> k) ps Q
  unfolding rd
  rd-by m k known h = Ensures-then (record { holds = λ a got. h _ (known.holds a got) })

  pub wr-then :
      (m : Act Sdow Unit) (k : Act Prot B)
      → ((w : Sdow) → Ensures k (record ps { sdow = w }) Q)
      → Ensures (wr m >> k) ps Q
  unfolding wr
  wr-then m k h = Ensures-then (record { holds = λ a got. h _ })

-- A nonce that is read, and what follows it.
pub read_nonce-then :
    (e : Env) {B : Type 0} {ps : Prot} {Q : B → Prot → Type 0} (set : Option Bits → Prot → Prot)
    (k : Act Prot B)
    → ((r : Sdor) (n : Bits)
        → Ensures k
            (set (some n) (record (set (sdo_bits_alloc e sdo_nonce_bytes) ps) { sdor = r }))
            Q)
    → Ensures (read_nonce e set >> k) ps Q
unfolding read_nonce
read_nonce-then e set k h =
    Ensures-then
      (modify-then _ _ (from-then _ _ λ ba got. rd-bind _ _ λ r n. Ensures-modify _ (h r n)))
