-- ===== src/Bitfin/Ends.antt =====
-- The loops of the converter of bitfinex end, and what they print are lines.
use coins.Prelude.{
  ℕ, zero, suc, ◌-◌, ◌%◌, ◌≤◌, ◌<◌, Option, none, some, Bool, true, false, not, ◌&&◌, [], ◌∷◌, ◌++◌,
  Bytes, length, length-drop, take, drop, ltb, ◌==◌, bit_xor, if◌then◌else◌, arith, ◌≡◌,
  append_assoc, refl,
}
use coins.Libc.{codes, peek, starts_with, memchr, strtoul}
use coins.Libc.Chars.{IsWithin, memchr-IsWithin, length-strtoul}
use coins.Output.{Printed, printed, Prints, IsLine, either-Prints, emit-Prints}
use coins.Bitfin.{Subt, Btf}
use coins.Bitfin.Event.{
  side_bid, side_ask, side_tra, ini_of, level_line, behind_level, print_level, at_bracket,
  at_quantity, at_count, at_price, levels, evtbok, to_comma, top_line, print_top, evttop,
  last_comma, trade_line, print_trade, evttra, into_book, subty_of, on_subty, events,
}

text-IsLine :
    (ini head p q : Bytes)
    → length (ini ++ (head ++ (p ++ b'\t' ∷ (q ++ b'\n' ∷ [])))) ≤ 256
    → IsLine ini (ini ++ (head ++ (p ++ b'\t' ∷ (q ++ b'\n' ∷ []))))
text-IsLine ini head p q fits =
    let shape : ini ++ (head ++ (p ++ b'\t' ∷ (q ++ b'\n' ∷ [])))
        ≡ ini ++ ((head ++ (p ++ b'\t' ∷ q)) ++ b'\n' ∷ []) =
      rw (append_assoc head (p ++ b'\t' ∷ q) (b'\n' ∷ []), append_assoc p (b'\t' ∷ q) (b'\n' ∷ []))
        refl in
    (head ++ (p ++ b'\t' ∷ q), shape, fits)

module _ (ini : Bytes) where
  -- A loop that prints lines from any rest shorter than `n`.
  abbrev IsAgain : ℕ → (Bytes → Bytes → Printed) → Type 0
  IsAgain n again = (q on : Bytes) → length on < n → Prints (IsLine ini) (again q on)

  module _ (n : ℕ) (again : Bytes → Bytes → Printed) (h : IsAgain n again) where
    print_level-Prints :
        (sd : ℕ) (p q on : Bytes)
        → length on < n
        → Prints (IsLine ini) (print_level again ini sd p q on)
    unfolding print_level level_line behind_level
    print_level-Prints sd p q on k =
        emit-Prints (IsLine ini) (level_line ini sd p q) (behind_level again q on)
          (text-IsLine ini (bit_xor (side_tra - sd) b'@' ∷ b'2' ∷ b'\t' ∷ []) p q)
          (either-Prints (IsLine ini) (peek on == b',' && peek (drop 1 on) == b'[') _ _
            (h q (drop 1 (drop 1 on)) (omega (arith, length-drop 1 (drop 1 on), length-drop 1 on)))
            tt)

    at_bracket-Prints :
        (sd : ℕ) (p : Bytes) (m : ℕ) (o : Option (Bytes × Bytes))
        → IsWithin m o
        → m < n
        → Prints (IsLine ini) (at_bracket again ini sd p o)
    unfolding at_bracket
    at_bracket-Prints sd p m none w k = tt
    at_bracket-Prints sd p m (some (q, rest)) w k =
        print_level-Prints sd p q (drop 1 rest) (omega (arith, length-drop 1 rest, w.0))

    at_sign-Prints :
        (sd : ℕ) (p q : Bytes) (cnt : ℕ) (on : Bytes)
        → length on < n
        → Prints (IsLine ini) (
            if ltb 0 cnt
            then at_bracket again ini sd p (memchr b']' on)
            else print_level again ini sd p q on)
    at_sign-Prints sd p q cnt on k =
        either-Prints (IsLine ini) (ltb 0 cnt) _ _
          (at_bracket-Prints sd p (length on) (memchr b']' on) (memchr-IsWithin b']' on) k)
          (print_level-Prints sd p q on k)

    shorter : (b : Bool) (on : Bytes) → length (if b then drop 1 on else on) ≤ length on
    shorter true on = omega (arith, length-drop 1 on)
    shorter false on = omega arith

    at_quantity-Prints :
        (p q : Bytes) (cnt : ℕ) (on : Bytes)
        → length on < n
        → Prints (IsLine ini) (at_quantity again ini p q cnt on)
    unfolding at_quantity
    at_quantity-Prints p q cnt on k =
        let sd = if peek on == b'-' then side_ask else side_bid in
        at_sign-Prints sd p q cnt (if sd == side_ask then drop 1 on else on)
          (omega (arith, shorter (sd == side_ask) on))

    at_count-Prints :
        (p q : Bytes) (r : ℕ × Bytes)
        → length r.1 < n
        → Prints (IsLine ini) (at_count again ini p q r)
    unfolding at_count
    at_count-Prints p q (x, on) k =
        either-Prints (IsLine ini) (not (peek on == b',')) _ _ tt
          (at_quantity-Prints p q x (drop 1 on) (omega (arith, length-drop 1 on)))

    at_price-Prints :
        (q : Bytes) (m : ℕ) (o : Option (Bytes × Bytes))
        → IsWithin m o
        → m ≤ n
        → Prints (IsLine ini) (at_price again ini q o)
    unfolding at_price
    at_price-Prints q m none w k = tt
    at_price-Prints q m (some (p, rest)) w k =
        at_count-Prints p q (strtoul (drop 1 rest))
          (omega (arith, length-strtoul (drop 1 rest), length-drop 1 rest, w.0, w.1))

  levels-Prints : (fuel : ℕ) → IsAgain fuel (levels fuel ini)
  unfolding levels
  levels-Prints zero q on h = absurd (omega arith)
  levels-Prints (suc fuel) q on h =
      at_price-Prints fuel (levels fuel ini) (levels-Prints fuel) q (length on) (memchr b',' on)
        (memchr-IsWithin b',' on) (omega arith)

  to_comma-Prints :
      (next : Bytes → Bytes → Printed) (o : Option (Bytes × Bytes))
      → ((field on : Bytes) → Prints (IsLine ini) (next field on))
      → Prints (IsLine ini) (to_comma next o)
  unfolding to_comma
  to_comma-Prints next none h = tt
  to_comma-Prints next (some (field, rest)) h = h field (drop 1 rest)

  print_top-Prints : (bid bsz ask asz : Bytes) → Prints (IsLine ini) (print_top ini bid bsz ask asz)
  unfolding print_top top_line
  print_top-Prints bid bsz ask asz =
      emit-Prints (IsLine ini) (top_line ini b'B' bid bsz) _
        (text-IsLine ini (b'B' ∷ b'1' ∷ b'\t' ∷ []) bid bsz)
        (emit-Prints (IsLine ini) (top_line ini b'A' ask asz) (printed [])
          (text-IsLine ini (b'A' ∷ b'1' ∷ b'\t' ∷ []) ask asz) tt)

  print_trade-Prints :
      (pr : Option Bytes) (on : Bytes) (o : Option (Bytes × Bytes))
      → Prints (IsLine ini) (print_trade ini pr on o)
  unfolding print_trade trade_line
  print_trade-Prints pr on none = tt
  print_trade-Prints none on (some (q, rest)) = tt
  print_trade-Prints (some pr) on (some (q, rest)) =
      emit-Prints (IsLine ini) _ (printed [])
        (text-IsLine ini ((b'T' - (if peek on == b'-' then 1 else 0)) ∷ b'0' ∷ b'\t' ∷ [])
          (take (length pr - length on - 1) pr) (if peek on == b'-' then drop 1 q else q))
        tt

evttop-Prints : (line : Bytes) (ci : ℕ) (b : Btf) → Prints (IsLine (ini_of b ci)) (evttop line ci b)
unfolding evttop
evttop-Prints line ci b =
    let ini = ini_of b ci in
    to_comma-Prints ini _ (memchr b',' line) (λ bid on.
      to_comma-Prints ini _ (memchr b',' on) (λ bsz on'.
        to_comma-Prints ini _ (memchr b',' on') (λ ask on''.
          to_comma-Prints ini _ (memchr b',' on'')
            (λ asz on'''. print_top-Prints ini bid bsz ask asz))))

on_subty-Prints :
    (st : Subt) (on : Bytes) (ci : ℕ) (b : Btf)
    → Prints (IsLine (ini_of b ci)) (on_subty st on ci b)
unfolding on_subty evtbok evttra
on_subty-Prints Subt.subt_bok on ci b =
    let on' = into_book on in
    levels-Prints (ini_of b ci) (suc (length on')) (codes "0") on' (omega arith)
on_subty-Prints Subt.subt_top on ci b = evttop-Prints on ci b
on_subty-Prints Subt.subt_tra on ci b =
    let (pr, on') = last_comma none on on in
    either-Prints (IsLine (ini_of b ci)) (not (starts_with (codes "\"te\"") on)) _ _ tt
      (print_trade-Prints (ini_of b ci) pr on' (memchr b']' on'))
on_subty-Prints Subt.subt_unk on ci b = tt

-- Whatever stands in an array on a channel, the loops over it end; unless a line leaves the buffer
-- or a trade has no price, each line printed starts with the stamp and the instrument of the
-- channel, ends in a newline, and has at most 256 octets.
pub events-IsLine :
    (line : Bytes) (b : Btf) → Prints (IsLine (ini_of b ((strtoul line).0 % 256))) (events line b)
unfolding events
events-IsLine line b =
    let (x, on) = strtoul line in
    let ci = x % 256 in
    either-Prints (IsLine (ini_of b ci)) (not (peek on == b',')) _ _ tt
      (on_subty-Prints (subty_of b ci) (drop 1 on) ci b)
