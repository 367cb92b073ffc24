-- ===== src/Btcc/Ends.antt =====
-- The loop over the entries of a message of btcc ends, and what is printed are lines.
use coins.Prelude.{
  ℕ, zero, suc, ◌+◌, ◌*◌, ◌≤◌, ◌<◌, sym, ap, ◌∙◌, Option, none, some, [], ◌∷◌, ◌++◌, append_assoc,
  not, ◌||◌, Bytes, length, length-drop, drop, ltb, leb, ◌==◌, bit_xor, arith,
}
use coins.Libc.{codes, u64, starts_with, memchr}
use coins.Clock.{nsecs, strtons, tvtostr}
use coins.Fix.{Parsed, message_of, fix_parse}
use coins.Output.{Printed, printed, Prints, IsLine, either-Prints, emit-Prints, in_room-Prints}
use coins.Quotes.{tim, ins, nup, ety, prc, qty, span_nul, field, head_of, split_prefix}
use coins.Quotes.Ends.{IsShorter, IsShorter-le, field-IsShorter, length-span_nul, IsQuote}
use coins.Btcc.{
  at_qty, at_px, at_prc, with_name, at_name, at_ety, quotes, at_nup, at_first, at_stamp, at_time,
  route_quote, on_message, procln,
}

ends-IsLine :
    (ini mid text : Bytes)
    → length ((ini ++ mid) ++ (text ++ b'\n' ∷ [])) ≤ 256
    → IsLine ini ((ini ++ mid) ++ (text ++ b'\n' ∷ []))
ends-IsLine ini mid text fits = (
  mid ++ text,
  append_assoc ini mid (text ++ b'\n' ∷ [])
      ∙ ap (λ (s : Bytes). ini ++ s) (sym (append_assoc mid text (b'\n' ∷ []))),
  fits,
)

module _ (ini : Bytes) (n : ℕ) where
  module _ (again : Bytes → Printed)
      (h : (on : Bytes) → length on < n → Prints (IsLine ini) (again on)) where
    at_qty-Prints :
        (mid on : Bytes) → length on < n → Prints (IsLine ini) (at_qty again (ini ++ mid) on)
    unfolding at_qty
    at_qty-Prints mid [] k = tt
    at_qty-Prints mid (c ∷ on) k =
        let on' = drop (length qty) (c ∷ on) in
        either-Prints (IsLine ini) (starts_with qty (c ∷ on)) _ _
          (emit-Prints (IsLine ini) _ (again on') (ends-IsLine ini mid (b'\t' ∷ (span_nul on').0))
            (h on' (omega (arith, length-drop (length qty) (c ∷ on)))))
          (emit-Prints (IsLine ini) _ (again (c ∷ on)) (ends-IsLine ini mid []) (h (c ∷ on) k))

    at_px-Prints :
        (mid : Bytes) (r : Bytes × Bytes)
        → length r.1 < n
        → Prints (IsLine ini) (at_px again (ini ++ mid) r)
    unfolding at_px
    at_px-Prints mid (p, rest) k = rw (append_assoc ini mid (b'\t' ∷ p)) (
        in_room-Prints (IsLine ini) (ini ++ (mid ++ b'\t' ∷ p)) _
          (at_qty-Prints (mid ++ b'\t' ∷ p) rest k))

    at_prc-Prints :
        (mid on : Bytes) → length on < n → Prints (IsLine ini) (at_prc again (ini ++ mid) on)
    unfolding at_prc
    at_prc-Prints mid [] k = tt
    at_prc-Prints mid (c ∷ on) k =
        let value = drop (length prc) (c ∷ on) in
        either-Prints (IsLine ini) (not (starts_with prc (c ∷ on))) _ _ (h (c ∷ on) k) (
          at_px-Prints mid (span_nul value)
            (omega (arith, length-span_nul value, length-drop (length prc) (c ∷ on))))

  module _ (again : Bytes → Bytes → Printed)
      (h : (name on : Bytes) → length on < n → Prints (IsLine ini) (again name on)) (typ : ℕ) where
    with_name-Prints :
        (sd : ℕ) (name on : Bytes)
        → length on < n
        → Prints (IsLine ini) (with_name again typ ini sd name on)
    unfolding with_name
    with_name-Prints sd name on k =
        in_room-Prints (IsLine ini) _ _ (at_prc-Prints (again name) (h name) _ on k)

    at_name-Prints :
        (sd : ℕ) (name on : Bytes)
        → length on < n
        → Prints (IsLine ini) (at_name again typ ini sd name on)
    unfolding at_name
    at_name-Prints sd name [] k = tt
    at_name-Prints sd name (c ∷ on) k =
        let own = drop (length ins) (c ∷ on) in
        either-Prints (IsLine ini) (starts_with ins (c ∷ on)) _ _
          (with_name-Prints sd own (span_nul own).1
            (omega (arith, length-span_nul own, length-drop (length ins) (c ∷ on))))
          (with_name-Prints sd name (c ∷ on) k)

    at_ety-Prints :
        (name : Bytes) (o : Option Bytes)
        → IsShorter n o
        → Prints (IsLine ini) (at_ety again typ ini name o)
    unfolding at_ety
    at_ety-Prints name none k = tt
    at_ety-Prints name (some []) k = tt
    at_ety-Prints name (some (c ∷ on)) k =
        either-Prints (IsLine ini) (leb 3 (bit_xor c b'0')) _ _ (h name on (omega arith))
          (at_name-Prints (bit_xor c b'0') name on (omega arith))

quotes-Prints :
    (ini : Bytes) (fuel typ : ℕ) (name on : Bytes)
    → length on < fuel
    → Prints (IsLine ini) (quotes fuel typ ini name on)
unfolding quotes
quotes-Prints ini zero typ name on k = absurd (omega arith)
quotes-Prints ini (suc fuel) typ name on k =
    at_ety-Prints ini fuel (quotes fuel typ ini) (quotes-Prints ini fuel typ) typ name
      (field ety on)
      (IsShorter-le (length on) fuel (field ety on) (omega arith)
        (field-IsShorter 0 (codes "269=") on))

at_nup-Prints :
    (ini : Bytes) (typ : ℕ) (name : Bytes) (o : Option Bytes)
    → Prints (IsLine ini) (at_nup typ ini name o)
unfolding at_nup
at_nup-Prints ini typ name none = tt
at_nup-Prints ini typ name (some on) = quotes-Prints ini (suc (length on)) typ name on (omega arith)

at_first-Prints :
    (ini : Bytes) (typ : ℕ) (msg : Bytes) (o : Option Bytes)
    → Prints (IsLine ini) (at_first typ ini msg o)
unfolding at_first
at_first-Prints ini typ msg none = tt
at_first-Prints ini typ msg (some name) = at_nup-Prints ini typ name (field nup msg)

printed-IsQuote :
    (prfx : Bytes) (t : ℕ) (r : Printed)
    → Prints (IsLine (tvtostr t ++ b'\t' ∷ prfx)) r
    → Prints (IsQuote prfx) r
printed-IsQuote prfx t (printed []) h = tt
printed-IsQuote prfx t (printed (line ∷ lines)) h =
    ((t, h.0), printed-IsQuote prfx t (printed lines) h.1)
printed-IsQuote prfx t Printed.fault h = tt
printed-IsQuote prfx t Printed.out_of_fuel h = elim h [ ]

module _ (prfx : Bytes) where
  at_stamp-Prints :
      (typ : ℕ) (msg : Bytes) (o : Option (ℕ × Bytes))
      → Prints (IsQuote prfx) (at_stamp typ msg prfx o)
  unfolding at_stamp head_of
  at_stamp-Prints typ msg none = tt
  at_stamp-Prints typ msg (some (s, on)) =
      let t = u64 (u64 (s * nsecs) + strtons on) in
      in_room-Prints (IsQuote prfx) (head_of s on prfx) _ (
        printed-IsQuote prfx t _
          (at_first-Prints (tvtostr t ++ b'\t' ∷ prfx) typ msg (field ins msg)))

  at_time-Prints :
      (strptime : Bytes → Option (ℕ × Bytes)) (typ : ℕ) (msg : Bytes) (o : Option Bytes)
      → Prints (IsQuote prfx) (at_time strptime typ msg prfx o)
  unfolding at_time
  at_time-Prints strptime typ msg none = tt
  at_time-Prints strptime typ msg (some on) = at_stamp-Prints typ msg (strptime on)

  on_message-Prints :
      (strptime : Bytes → Option (ℕ × Bytes)) (r : Bytes × Option Parsed)
      → Prints (IsQuote prfx) (on_message strptime prfx r)
  unfolding on_message route_quote
  on_message-Prints strptime (buf, none) = tt
  on_message-Prints strptime (buf, some p) =
      let msg = message_of buf p in
      either-Prints (IsQuote prfx) (not (p.typ == b'W' || p.typ == b'X')) _ _ tt (
        either-Prints (IsQuote prfx) (ltb (length buf) p.off) _ _ tt
          (at_time-Prints strptime p.typ msg (field tim msg)))

-- Whatever a line of the log of btcc holds, the loop over its entries ends; unless an access leaves
-- the line or the buffer, each line printed starts with a stamp and the prefix of the line that was
-- read, ends in a newline, and has at most 256 octets.
pub procln_ends :
    (strptime : Bytes → Option (ℕ × Bytes)) (stale ln : Bytes)
    → Prints (IsQuote (split_prefix ln (memchr b'\t' ln)).0) (procln strptime stale ln)
unfolding procln
procln_ends strptime stale ln =
    let (prfx, rest) = split_prefix ln (memchr b'\t' ln) in
    on_message-Prints prfx strptime (fix_parse rest (0 ∷ stale))
