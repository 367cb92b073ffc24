-- ===== src/Quotes/Ends.antt =====
-- The loop over the entries of a message ends, and what is printed are lines.
use coins.Prelude.{
  ℕ, zero, suc, ◌+◌, ◌*◌, ◌≤◌, ◌<◌, ◌≡◌, refl, sym, ap, ◌∙◌, Option, none, some, [], ◌∷◌, ◌++◌,
  append_assoc, Bool, not, ◌||◌, Bytes, length, length-append, length-drop, drop, ltb, leb, ◌==◌,
  bit_xor, arith,
}
use coins.Libc.{codes, u64, starts_with, memchr}
use coins.Search.{xmemmem}
use coins.Search.Correct.{xmemmem-split}
use coins.Clock.{nsecs, strtons, tvtostr}
use coins.Fix.{Parsed, message_of, fix_parse}
use coins.Output.{
  in_room-Prints, Printed, printed, fault, Prints, IsLine, either-Prints, emit-Prints,
}
use coins.Quotes.{
  tim, ins, ccy, nup, ety, prc, qty, field, behind, span_nul, contract, head_of, at_updates, at_ins,
  at_clock, at_tim, route_quote, entries, at_amount, second_try, first_try, at_price, at_side,
  side_text, at_entry, split_prefix, on_parsed, procln,
}

abbrev pub IsShorter : ℕ → Option Bytes → Type 0
IsShorter n none = Unit
IsShorter n (some on) = length on < n

behind-IsShorter :
    (msg : Bytes) (n : ℕ) (np : Bytes) (o : Option ℕ)
    → xmemmem msg (n ∷ np) ≡ o
    → IsShorter (length msg) (behind msg o)
behind-IsShorter msg n np none e = tt
behind-IsShorter msg n np (some k) e =
    let (before, after, split, at) = xmemmem-split msg (n ∷ np) k e in
    omega (
      arith,
      length-drop k msg,
      ap length split,
      length-append before (n ∷ np ++ after),
      length-append (n ∷ np) after,
    )

-- What is found is shorter than what was searched.
pub field-IsShorter : (n : ℕ) (np msg : Bytes) → IsShorter (length msg) (field (n ∷ np) msg)
unfolding field
field-IsShorter n np msg = behind-IsShorter msg n np (xmemmem msg (n ∷ np)) refl

pub length-span_nul : (s : Bytes) → length (span_nul s).1 ≤ length s
unfolding span_nul
length-span_nul [] = omega arith
length-span_nul (c ∷ s) = ground (arith, length-span_nul s)

module _ (ini : Bytes) (n : ℕ) (again : Bytes → Printed)
    (h : (on : Bytes) → length on < n → Prints (IsLine ini) (again on)) where
  at_amount-Prints :
      (mid on : Bytes) → length on < n → Prints (IsLine ini) (at_amount again (ini ++ mid) on)
  unfolding at_amount
  at_amount-Prints mid on k =
      let q = (span_nul on).0 in
      let shape : (ini ++ mid) ++ b'\t' ∷ (q ++ b'\n' ∷ [])
          ≡ ini ++ ((mid ++ b'\t' ∷ q) ++ b'\n' ∷ []) =
        append_assoc ini mid (b'\t' ∷ (q ++ b'\n' ∷ []))
        ∙ ap (λ (t : Bytes). ini ++ t) (sym (append_assoc mid (b'\t' ∷ q) (b'\n' ∷ []))) in
      emit-Prints (IsLine ini) ((ini ++ mid) ++ b'\t' ∷ (q ++ b'\n' ∷ [])) (again on)
        (λ fits. (mid ++ b'\t' ∷ q, shape, fits)) (h on k)

  second_try-Prints :
      (mid on : Bytes) → length on < n → Prints (IsLine ini) (second_try again (ini ++ mid) on)
  unfolding second_try
  second_try-Prints mid [] k = tt
  second_try-Prints mid (c ∷ on) k =
      either-Prints (IsLine ini) (not (starts_with qty (c ∷ on))) _ _ (h (c ∷ on) k) (
        at_amount-Prints mid (drop (length qty) (c ∷ on))
          (omega (arith, length-drop (length qty) (c ∷ on))))

  first_try-Prints :
      (mid on : Bytes) → length on < n → Prints (IsLine ini) (first_try again (ini ++ mid) on)
  unfolding first_try
  first_try-Prints mid [] k = tt
  first_try-Prints mid (c ∷ on) k =
      either-Prints (IsLine ini) (not (starts_with qty (c ∷ on))) _ _
        (second_try-Prints mid (span_nul on).1 (omega (arith, length-span_nul on)))
        (at_amount-Prints mid (drop (length qty) (c ∷ on))
          (omega (arith, length-drop (length qty) (c ∷ on))))

  at_price-Prints :
      (mid : Bytes) (r : Bytes × Bytes)
      → length r.1 < n
      → Prints (IsLine ini) (at_price again (ini ++ mid) r)
  unfolding at_price
  at_price-Prints mid (p, rest) k =
      rw (append_assoc ini mid p)
        (in_room-Prints (IsLine ini) (ini ++ (mid ++ p)) _ (first_try-Prints (mid ++ p) rest k))

  at_side-Prints :
      (mid on : Bytes) → length on < n → Prints (IsLine ini) (at_side again (ini ++ mid) on)
  unfolding at_side
  at_side-Prints mid [] k = tt
  at_side-Prints mid (c ∷ on) k =
      let value = drop (length prc) (c ∷ on) in
      in_room-Prints (IsLine ini) (ini ++ mid) _ (
        either-Prints (IsLine ini) (not (starts_with prc (c ∷ on))) _ _ (h (c ∷ on) k) (
          at_price-Prints mid (span_nul value)
            (omega (arith, length-span_nul value, length-drop (length prc) (c ∷ on)))))

  at_entry-Prints : (o : Option Bytes) → IsShorter n o → Prints (IsLine ini) (at_entry again ini o)
  unfolding at_entry
  at_entry-Prints none k = tt
  at_entry-Prints (some []) k = tt
  at_entry-Prints (some (c ∷ on)) k =
      let sd = bit_xor c b'0' in
      either-Prints (IsLine ini) (leb 2 sd) _ _ (h on (omega arith))
        (at_side-Prints (side_text sd ++ b'\t' ∷ []) on (omega arith))

pub IsShorter-le : (m n : ℕ) (o : Option Bytes) → m ≤ n → IsShorter m o → IsShorter n o
IsShorter-le m n none le h = tt
IsShorter-le m n (some on) le h = omega arith

entries-Prints :
    (ini : Bytes) (fuel : ℕ) (on : Bytes)
    → length on < fuel
    → Prints (IsLine ini) (entries fuel ini on)
unfolding entries
entries-Prints ini zero on k = absurd (omega arith)
entries-Prints ini (suc fuel) on k =
    at_entry-Prints ini fuel (entries fuel ini) (entries-Prints ini fuel) (field ety on) (
      IsShorter-le (length on) fuel (field ety on) (omega arith)
        (field-IsShorter 0 (codes "269=") on))

-- From the stamp of a message and a prefix on.
abbrev pub IsQuote : Bytes → Bytes → Type 0
IsQuote prfx line = (t : ℕ) × IsLine (tvtostr t ++ b'\t' ∷ prfx) line

pub IsLine-IsQuote :
    (prfx more : Bytes) (t : ℕ) (r : Printed)
    → Prints (IsLine ((tvtostr t ++ b'\t' ∷ prfx) ++ more)) r
    → Prints (IsQuote prfx) r
IsLine-IsQuote prfx more t (printed []) h = tt
IsLine-IsQuote prfx more t (printed (line ∷ lines)) h =
    let (mid, shape, fits) = h.0 in
    let head = tvtostr t ++ b'\t' ∷ prfx in
    let shape' : line ≡ head ++ ((more ++ mid) ++ b'\n' ∷ []) =
      shape
      ∙ append_assoc head more (mid ++ b'\n' ∷ [])
      ∙ ap (λ (s : Bytes). head ++ s) (sym (append_assoc more mid (b'\n' ∷ []))) in
    ((t, (more ++ mid, shape', fits)), IsLine-IsQuote prfx more t (printed lines) h.1)
IsLine-IsQuote prfx more t fault h = tt
IsLine-IsQuote prfx more t Printed.out_of_fuel h = elim h [ ]

at_updates-Prints :
    (ini : Bytes) (rstp : Bool) (o : Option Bytes) → Prints (IsLine ini) (at_updates ini rstp o)
unfolding at_updates
at_updates-Prints ini rstp none = tt
at_updates-Prints ini rstp (some on) =
    let more = entries-Prints ini (suc (length on)) on (omega arith) in
    either-Prints (IsLine ini) rstp _ _
      (emit-Prints (IsLine ini) (ini ++ codes "clr0\t\t\n") _
        (λ fits. (codes "clr0\t\t", refl, fits)) more)
      more

module _ (prfx : Bytes) where
  at_ins-Prints :
      (t : ℕ) (msg : Bytes) (rstp : Bool) (o : Option Bytes)
      → Prints (IsQuote prfx) (at_ins (tvtostr t ++ b'\t' ∷ prfx) msg rstp o)
  unfolding at_ins
  at_ins-Prints t msg rstp none = tt
  at_ins-Prints t msg rstp (some on) =
      let head = tvtostr t ++ b'\t' ∷ prfx in
      let more = (span_nul on).0 ++ (contract (field ccy msg) ++ b'\t' ∷ []) in
      in_room-Prints (IsQuote prfx) (head ++ more) _
        (IsLine-IsQuote prfx more t _ (at_updates-Prints (head ++ more) rstp (field nup msg)))

  at_clock-Prints :
      (msg : Bytes) (rstp : Bool) (o : Option (ℕ × Bytes))
      → Prints (IsQuote prfx) (at_clock msg prfx rstp o)
  unfolding at_clock head_of
  at_clock-Prints msg rstp none = tt
  at_clock-Prints msg rstp (some (s, on)) =
      in_room-Prints (IsQuote prfx) (head_of s on prfx) _
        (at_ins-Prints (u64 (u64 (s * nsecs) + strtons on)) msg rstp (field ins msg))

  at_tim-Prints :
      (strptime : Bytes → Option (ℕ × Bytes)) (msg : Bytes) (rstp : Bool) (o : Option Bytes)
      → Prints (IsQuote prfx) (at_tim strptime msg prfx rstp o)
  unfolding at_tim
  at_tim-Prints strptime msg rstp none = tt
  at_tim-Prints strptime msg rstp (some on) = at_clock-Prints msg rstp (strptime on)

  on_parsed-Prints :
      (strptime : Bytes → Option (ℕ × Bytes)) (r : Bytes × Option Parsed)
      → Prints (IsQuote prfx) (on_parsed strptime prfx r)
  unfolding on_parsed route_quote
  on_parsed-Prints strptime (buf, none) = tt
  on_parsed-Prints strptime (buf, some p) =
      let msg = message_of buf p in
      either-Prints (IsQuote prfx) (not (p.typ == b'W' || p.typ == b'X')) _ _ tt (
        either-Prints (IsQuote prfx) (ltb (length buf) p.off) _ _ tt
          (at_tim-Prints strptime msg (p.typ == b'W') (field tim msg)))

-- Whatever a line of the log holds, the loop over its entries ends; unless an access leaves the
-- line or the buffer, each line printed starts with a stamp and the prefix of the line that was
-- read, ends in a newline, and has at most 256 octets.
pub procln-IsQuote :
    (strptime : Bytes → Option (ℕ × Bytes)) (stale ln : Bytes)
    → Prints (IsQuote (split_prefix ln (memchr b'\t' ln)).0) (procln strptime stale ln)
unfolding procln
procln-IsQuote strptime stale ln =
    let (prfx, rest) = split_prefix ln (memchr b'\t' ln) in
    on_parsed-Prints prfx strptime (fix_parse rest (0 ∷ stale))
