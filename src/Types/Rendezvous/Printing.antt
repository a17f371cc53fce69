-- ===== src/Types/Rendezvous/Printing.antt =====
-- lib/sdotypes.c: the text of the rendezvous list, as a function of the list, and the writing of it.
use client_sdk.Base.{
  ℕ, suc, ◌+◌, ◌<◌, ◌≡◌, refl, sym, ap, subst, ◌∙◌, Bool, true, false, Option, none, some, List, [],
  ◌∷◌, ◌++◌, append-nil, append_assoc, arith, Bytes, All, length, length-append, take, ◌==◌,
}
use client_sdk.Decimal.{decimal, u32_mod}
use client_sdk.Env.{Env, bytes_of, Reliable}
use client_sdk.Types.Rendezvous.{
  Rendezvous, RendezvousList, Value, a_string, an_address, a_number, a_hash, Param, params,
  walk_list, from_head, sdo_rendezvous_list_get, sdo_hash_write, sdo_write_ipaddress, write_value,
  write_params, sdo_rendezvous_write, write_rendezvous, write_loop, closed,
  sdo_rendezvous_list_write,
}
use client_sdk.Writer.{Sdow, sdow_begin_sequence, sdow_end_sequence, sdo_write_uint, sdo_write_tag}
use client_sdk.Writer.Emit.{
  IsReady, Emits, Emits-trans, Emits-as, Emits-next, Emits-comma, separator,
  sdow_begin_sequence-Emits, sdow_end_sequence-Emits, sdow_begin_object-Emits,
  sdow_end_object-Emits,
}
use client_sdk.Writer.Numbers.{
  byte_array_text, sdo_write_uint-Emits, sdo_write_byte_array-Emits, one_int_text,
  sdo_write_byte_array_one_int-Emits,
}
use client_sdk.Writer.Strings.{
  AreBytes, quoted_text, sdo_write_string_len-Emits, sdo_write_tag-Emits,
}

-- The strings hold bytes, and the numbers and lengths fit in 32 bits.
abbrev pub IsPrintable : Value → Type 0
IsPrintable (a_string s) = AreBytes (bytes_of s.bytes)
IsPrintable (an_address ip) = ip.length < u32_mod
IsPrintable (a_number n) = n < u32_mod
IsPrintable (a_hash h) = (h.hash_type < u32_mod) × (h.hash.byte_sz < u32_mod)

abbrev pub ArePrintable : List Param → Type 0
ArePrintable [] = Unit
ArePrintable ((tag, none) ∷ ps) = ArePrintable ps
ArePrintable ((tag, some v) ∷ ps) = AreBytes tag × IsPrintable v × ArePrintable ps

abbrev pub value_text : Env → Value → Bytes
value_text e (a_string s) = quoted_text (take s.byte_sz (bytes_of s.bytes))
value_text e (an_address ip) = byte_array_text e (some ip.addr) ip.length
value_text e (a_number n) = decimal n
value_text e (a_hash h) = one_int_text e h.hash_type h.hash.bytes h.hash.byte_sz

-- The parameters that are there, with commas between them; the flag is a comma that is due.
abbrev pub params_text : Env → Bool → List Param → Bytes
params_text e due [] = []
params_text e due ((tag, none) ∷ ps) = params_text e due ps
params_text e due ((tag, some v) ∷ ps) =
    (separator due ++ (quoted_text tag ++ b':' ∷ [])) ++ (value_text e v ++ params_text e true ps)

-- `[n,{…}]`
abbrev pub entry_text : Env → Rendezvous → Bytes
entry_text e rv =
    b'['
    ∷ (decimal rv.num_params ++ b',' ∷ b'{' ∷ (params_text e false (params rv) ++ b'}' ∷ b']' ∷ []))

-- Each entry behind a comma.
abbrev pub entries_text : Env → List Rendezvous → Bytes
entries_text e [] = []
entries_text e (rv ∷ rvs) = (b',' ∷ entry_text e rv) ++ entries_text e rvs

module _ (e : Env) (ok : Reliable e) where
  write_value-Emits :
      (w : Sdow) (v : Value)
      → IsReady w
      → IsPrintable v
      → Emits w (write_value e w v) (separator w.need_comma ++ value_text e v) true
  unfolding write_value sdo_write_ipaddress sdo_hash_write
  write_value-Emits w (a_string s) r h =
      sdo_write_string_len-Emits e ok w (bytes_of s.bytes) s.byte_sz r h
  write_value-Emits w (an_address ip) r h =
      sdo_write_byte_array-Emits e ok w (some ip.addr) ip.length r h
  write_value-Emits w (a_number n) r h = sdo_write_uint-Emits e ok w n r h
  write_value-Emits w (a_hash k) r (type, size) =
      sdo_write_byte_array_one_int-Emits e ok w k.hash_type k.hash.bytes k.hash.byte_sz r type size

  abbrev due_behind : Bool → List Param → Bool
  due_behind due [] = due
  due_behind due ((tag, none) ∷ ps) = due_behind due ps
  due_behind due ((tag, some v) ∷ ps) = due_behind true ps

  write_params-Emits :
      (ps : List Param) (w : Sdow)
      → IsReady w
      → ArePrintable ps
      → Emits w (write_params e w ps) (params_text e w.need_comma ps) (due_behind w.need_comma ps)
  unfolding write_params
  write_params-Emits [] w r h = record {
    ready = r;
    appended = sym (append-nil _);
    comma_is = refl;
    type_kept = refl;
  }
  write_params-Emits ((tag, none) ∷ ps) w r h = write_params-Emits ps w r h
  write_params-Emits ((tag, some v) ∷ ps) w r (tagged, printable, others) =
      let named = sdo_write_tag-Emits e ok w tag r tagged in
      let w1 = write_value e (sdo_write_tag e w tag) v in
      let valued =
        Emits-next _ (value_text e v) named (write_value-Emits _ v named.ready printable) in
      let rest =
        subst (λ d. Emits w1 (write_params e w1 ps) (params_text e d ps) (due_behind d ps))
          valued.comma_is (write_params-Emits ps w1 valued.ready others) in
      Emits-as _ (append_assoc _ (value_text e v) (params_text e true ps))
        (Emits-trans _ (params_text e true ps) valued rest)

  params-next :
      {w v : Sdow} (s : Bytes) {c : Bool} (ps : List Param)
      → Emits w v s c
      → ArePrintable ps
      → Emits w (write_params e v ps) (s ++ params_text e c ps) (due_behind c ps)
  params-next {w} {v} s {c} ps p printable = Emits-trans s (params_text e c ps) p (
      subst (λ d. Emits v (write_params e v ps) (params_text e d ps) (due_behind d ps)) p.comma_is
        (write_params-Emits ps v p.ready printable))

  sdo_rendezvous_write-Emits :
      (w : Sdow) (rv : Rendezvous)
      → IsReady w
      → rv.num_params < u32_mod
      → ArePrintable (params rv)
      → Emits w (sdo_rendezvous_write e w rv) (separator w.need_comma ++ entry_text e rv) true
  unfolding sdo_rendezvous_write
  sdo_rendezvous_write-Emits w rv r fits printable =
      let begun = Emits-comma false (sdow_begin_sequence-Emits e ok w r) in
      let numbered =
        Emits-next _ (decimal rv.num_params) begun
          (sdo_write_uint-Emits e ok _ rv.num_params begun.ready fits) in
      let counted = Emits-comma true numbered in
      let opened =
        Emits-next _ (b'{' ∷ []) counted (sdow_begin_object-Emits e ok _ counted.ready) in
      let filled = params-next _ (params rv) opened printable in
      let shut = Emits-trans _ (b'}' ∷ []) filled (sdow_end_object-Emits e ok _ filled.ready) in
      Emits-as (separator w.need_comma ++ entry_text e rv) (simp append_assoc)
        (Emits-trans _ (b']' ∷ []) shut (sdow_end_sequence-Emits e ok _ shut.ready))

  -- The result of a write that appends the text, with a comma due behind it.
  abbrev pub Written : Sdow → Bytes → Option Sdow → Type 0
  Written w t got = (w' : Sdow) × (got ≡ some w') × Emits w w' t true

  walk_list-length :
      (before : List Rendezvous) (rv : Rendezvous) (after : List Rendezvous)
      → walk_list (before ++ rv ∷ after) (length before) ≡ some (some rv)
  unfolding walk_list
  walk_list-length [] rv after = refl
  walk_list-length (b ∷ before) rv after = walk_list-length before rv after

  from_head-length :
      (rvs before : List Rendezvous) (rv : Rendezvous) (after : List Rendezvous)
      → rvs ≡ before ++ rv ∷ after
      → from_head rvs (length before) ≡ some (some rv)
  unfolding from_head
  from_head-length [] [] rv after is = ground (arith, is)
  from_head-length [] (b ∷ before) rv after is = ground (arith, is)
  from_head-length (x ∷ xs) before rv after is =
      subst (λ l. walk_list l (length before) ≡ some (some rv)) (sym is)
        (walk_list-length before rv after)

  -- The entry behind those in front of it.
  pub list_get-length :
      (list : RendezvousList) (before : List Rendezvous) (rv : Rendezvous) (after : List Rendezvous)
      → (list.num_entries == 0) ≡ false
      → list.rv_entries ≡ before ++ rv ∷ after
      → sdo_rendezvous_list_get list (length before) ≡ some (some rv)
  unfolding sdo_rendezvous_list_get
  list_get-length list before rv after full is =
      rw full (from_head-length list.rv_entries before rv after is)

  abbrev pub AllPrintable : List Rendezvous → Type 0
  AllPrintable = All (λ rv. (rv.num_params < u32_mod) × ArePrintable (params rv))

  write_loop-step :
      (list : RendezvousList) (n index : ℕ) (w : Sdow) (rv : Rendezvous)
      → sdo_rendezvous_list_get list index ≡ some (some rv)
      → write_loop e list (suc n) index w
        ≡ write_loop e list n (index + 1) (sdo_rendezvous_write e w rv)
  unfolding write_loop write_rendezvous
  write_loop-step list n index w rv found =
      ap
        (λ o. elim (write_rendezvous e w o) as (λ x. Option Sdow) [
          | none ↦ none
          | some w' ↦ write_loop e list n (index + 1) w'
        ])
        found

  write_loop-Written :
      (rest : List Rendezvous) (list : RendezvousList) (before : List Rendezvous) (w : Sdow)
      → (list.num_entries == 0) ≡ false
      → list.rv_entries ≡ before ++ rest
      → IsReady w
      → w.need_comma ≡ true
      → AllPrintable rest
      → Written w (entries_text e rest) (write_loop e list (length rest) (length before) w)
  unfolding write_loop
  write_loop-Written [] list before w full is r due printable = (
    w,
    refl,
    record { ready = r; appended = sym (append-nil _); comma_is = due; type_kept = refl },
  )
  write_loop-Written (rv ∷ rvs) list before w full is r due ((fits, printable), others) =
      let found = list_get-length list before rv rvs full is in
      let one =
        subst (λ d. Emits w (sdo_rendezvous_write e w rv) (separator d ++ entry_text e rv) true) due
          (sdo_rendezvous_write-Emits w rv r fits printable) in
      let (w', loop, rest) =
        write_loop-Written rvs list (before ++ rv ∷ []) (sdo_rendezvous_write e w rv) full
          (is ∙ sym (append_assoc before (rv ∷ []) rvs)) one.ready one.comma_is others in
      let next =
        subst (λ n. write_loop e list (length rvs) n (sdo_rendezvous_write e w rv) ≡ some w')
          (length-append before (rv ∷ [])) loop in
      (
        w',
        write_loop-step list (length rvs) (length before) w rv found ∙ next,
        Emits-trans (b',' ∷ entry_text e rv) (entries_text e rvs) one rest,
      )

  -- The text of a list: its count, and each entry behind a comma, in brackets.
  abbrev pub list_text : RendezvousList → Bytes
  list_text list =
      b'[' ∷ (decimal list.num_entries ++ (entries_text e list.rv_entries ++ b']' ∷ []))

  -- For a list whose count is right, of at least one entry, whose strings hold bytes and whose
  -- numbers and lengths are below 2^32, sdo_rendezvous_list_write succeeds, keeps a ready writer
  -- ready in a reliable environment and appends the due comma and then the text of the list: the
  -- count and each entry in brackets, where an entry is its number of parameters and an object
  -- with the parameters that are there, in the order of the code.
  pub list_write-Written :
      (w : Sdow) (list : RendezvousList)
      → IsReady w
      → list.num_entries ≡ length list.rv_entries
      → 0 < list.num_entries
      → list.num_entries < u32_mod
      → AllPrintable list.rv_entries
      → Written w (separator w.need_comma ++ list_text list) (sdo_rendezvous_list_write e w list)
  unfolding sdo_rendezvous_list_write
  list_write-Written w list r counted full fits printable =
      let begun = sdow_begin_sequence-Emits e ok w r in
      let w0 = record (sdo_write_uint e (sdow_begin_sequence e w) list.num_entries) {
        need_comma = true;
      } in
      let numbered = Emits-comma true (
        Emits-next _ (decimal list.num_entries) begun
          (sdo_write_uint-Emits e ok _ list.num_entries begun.ready fits)) in
      let (w1, loop, entries) =
        write_loop-Written list.rv_entries list [] _ (ground (arith, full)) refl numbered.ready refl
          printable in
      let done =
        Emits-trans _ (b']' ∷ []) (Emits-trans _ (entries_text e list.rv_entries) numbered entries)
          (sdow_end_sequence-Emits e ok _ entries.ready) in
      (
        sdow_end_sequence e w1,
        ap (closed e) (subst (λ n. write_loop e list n 0 w0 ≡ some w1) (sym counted) loop),
        Emits-as (separator w.need_comma ++ list_text list) (simp append_assoc) done,
      )
