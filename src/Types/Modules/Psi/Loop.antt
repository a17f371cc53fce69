-- ===== src/Types/Modules/Psi/Loop.antt =====
-- lib/sdotypes.c: the loop of `sdo_psi_parsing` over the entries of a text.
use client_sdk.Base.{
  ℕ, zero, suc, ◌+◌, ◌-◌, ◌<◌, ◌≤◌, ◌≡◌, refl, Bool, true, false, none, some, List, [], ◌∷◌, ◌++◌,
  arith, Bytes, All, length, length-append, lt→ltb, if◌then◌else◌,
}
use client_sdk.Env.{Env}
use client_sdk.Types.{sdo_max_str_size}
use client_sdk.Types.Modules.{Module, Supplied, si_success, sdo_supply_module_psi}
use client_sdk.Types.Modules.Psi.{
  ended, go_on, Tokenizer, supply, entry, cb_of, psi_loop, sdo_psi_parsing,
}
use client_sdk.Types.Modules.Psi.Parsing.{Without, IsEntry, printed, printed_fits, get-printed}

pub record Entry : Type 0 where
  pub name : Bytes
  pub msg : Bytes
  pub value : Bytes

abbrev pub entry_text : Entry → Bytes
entry_text x = printed x.name x.msg x.value

-- The entries with commas between them.
unfoldable pub psi_text : List Entry → Bytes
psi_text [] = []
psi_text (x ∷ []) = entry_text x
psi_text (x ∷ y ∷ l) = entry_text x ++ (b',' ∷ psi_text (y ∷ l))

pub record IsGood (x : Entry) : Type 0 where
  pub fits : IsEntry x.name x.msg x.value
  pub plain : Without b',' (entry_text x)

-- `strtok_s` at the start of a token.
pub record Tokenizes (strtok_s : Tokenizer) : Type 0 where
  pub at_end : (n : ℕ) → strtok_s [] n ≡ none
  pub last :
      (t : Bytes) (n : ℕ)
      → 0 < length t
      → Without b',' t
      → length t ≤ n
      → strtok_s t n ≡ some (t, [], n - length t)
  pub next :
      (t left : Bytes) (n : ℕ)
      → 0 < length t
      → Without b',' t
      → length t < n
      → strtok_s (t ++ (b',' ∷ left)) n ≡ some (t, left, n - length t - 1)

module _ (e : Env) {W : Type 0} where
  ended_if :
      (b : Bool) (x y : Supplied W) → (if b then ended x else ended y) ≡ ended (if b then x else y)
  ended_if true x y = refl
  ended_if false x y = refl

  -- One entry is given to the module of its name.
  feed : Supplied W → Entry → Supplied W
  feed s x =
      record (sdo_supply_module_psi e s.module_list (some x.name)
        (some (record { key = some x.msg; value = some x.value })) s.cb_return_val s.world) {
          sv_kv = none;
        }

  -- One entry after the other, until a callback fails.
  pub feed_all : Supplied W → List Entry → Supplied W
  feed_all s [] = record s { cb_return_val = some si_success; ok = true }
  feed_all s (x ∷ l) =
      let done = feed s x in let later = feed_all done l in if done.ok then later else done

  entry-feed : (s : Supplied W) (x : Entry) → IsGood x → entry e s (entry_text x) ≡ ended (feed s x)
  unfolding entry feed supply
  entry-feed s x h =
      let len = printed_fits x.name x.msg x.value h.fits in
      rw
        (
          lt→ltb (length (entry_text x)) sdo_max_str_size len.1,
          get-printed x.name x.msg x.value (cb_of e s) h.fits,
        )
        (ground (arith, len))

  module _ (strtok_s : Tokenizer) (law : Tokenizes strtok_s) where
    one_entry :
        (fuel : ℕ) (s : Supplied W) (x : Entry) (left : Bytes) (n : ℕ) (r : Supplied W)
        → IsGood x
        → psi_loop e strtok_s fuel (feed s x) (strtok_s left n) ≡ ended r
        → psi_loop e strtok_s (suc fuel) s (some (entry_text x, left, n))
          ≡ ended (if (feed s x).ok then r else feed s x)
    unfolding psi_loop go_on
    one_entry fuel s x left n r good ih =
        rw (entry-feed s x good, ih) (ended_if (feed s x).ok r (feed s x))

    pub psi_loop-feed_all :
        (fuel : ℕ) (s : Supplied W) (l : List Entry) (n : ℕ)
        → length l < fuel
        → All IsGood l
        → length (psi_text l) ≤ n
        → psi_loop e strtok_s fuel s (strtok_s (psi_text l) n) ≡ ended (feed_all s l)
    unfolding psi_loop psi_text feed_all
    psi_loop-feed_all zero s l n enough good room = absurd (omega arith)
    psi_loop-feed_all (suc fuel) s [] n enough good room = rw (law.at_end n, psi_loop)
    psi_loop-feed_all (suc fuel) s (x ∷ []) n enough good room =
        let len = printed_fits x.name x.msg x.value good.0.fits in
        rw (law.last (entry_text x) n len.0 good.0.plain room) (
          one_entry fuel s x [] (n - length (entry_text x)) _ good.0
            (psi_loop-feed_all fuel (feed s x) [] _ (omega (arith, enough)) tt (omega arith)))
    psi_loop-feed_all (suc fuel) s (x ∷ y ∷ l) n enough good room =
        let len = printed_fits x.name x.msg x.value good.0.fits in
        let left = psi_text (y ∷ l) in
        let whole = length-append (entry_text x) (b',' ∷ left) in
        let rest = n - length (entry_text x) - 1 in
        rw (law.next (entry_text x) left n len.0 good.0.plain (omega (arith, whole, room))) (
          one_entry fuel s x left rest _ good.0 (
            psi_loop-feed_all fuel (feed s x) (y ∷ l) rest (omega (arith, enough)) good.1
              (omega (arith, whole, room))))

    -- On the printed form name:message~value of a list of entries with commas between them,
    -- sdo_psi_parsing does what giving the entries one by one to sdo_supply_modulePSI does, until
    -- a callback fails; success is reported where none does. The names and messages have at most
    -- 31 characters and the values at most 99, one fewer than the limits of the code, so that no
    -- buffer is written behind its end; the names are not empty, no name has a colon, no message a
    -- tilde and no entry a comma; strtok_s cuts at commas, and the list of modules is not empty.
    pub psi_parsing-feed_all :
        (m : Module W) (ms : List (Module W)) (l : List Entry) (cb : ℕ) (w : W)
        → All IsGood l
        → sdo_psi_parsing e strtok_s
            (length l + 1)
            (m ∷ ms)
            (psi_text l)
            (length (psi_text l) + 1)
            (some cb)
            w
          ≡ ended (
              feed_all
                (record {
                  module_list = m ∷ ms;
                  sv_kv = none;
                  cb_return_val = some cb;
                  ok = true;
                  world = w;
                })
                l)
    unfolding sdo_psi_parsing
    psi_parsing-feed_all m ms l cb w good =
        psi_loop-feed_all (length l + 1) _ l (length (psi_text l) + 1 - 1) (omega arith) good
          (omega arith)
