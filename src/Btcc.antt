-- ===== src/Btcc.antt =====
-- The converter of btcc (src/btcc2b.c): quotes out of FIX messages, each of which may name an
-- instrument. `strptime` with `timegm` is an argument, as in Quotes, whose tags and fields these are.
pub mod Ends
pub mod Offers
pub mod Lines
pub mod Route
use coins.Prelude.{
  ℕ, zero, suc, ◌+◌, Option, none, some, not, [], ◌∷◌, ◌++◌, Bool, true, false, ◌||◌, ◌&&◌, Bytes,
  length, drop, ltb, leb, ◌==◌, bit_xor, if◌then◌else◌,
}
use coins.Libc.{codes, peek, starts_with, memchr}
use coins.Output.{Printed, printed, fault, out_of_fuel, in_room, emit}
use coins.Fix.{Parsed, fix_parse, message_of}
use coins.Quotes.{tim, ins, nup, ety, prc, qty, span_nul, field, head_of, split_prefix}

abbrev pub sides : ℕ → Bytes
sides sd = if sd == 0 then codes "BID" else if sd == 1 then codes "ASK" else codes "TRA"

-- The flavour of a level: only two instruments have real depth, and a change is another flavour than
-- a whole book. Where an instrument of fewer than three octets ends the line, what stands behind the
-- line is read as 0.
unfoldable pub flavour_of : ℕ → Bytes → ℕ → ℕ
flavour_of typ name sd =
    if not (ltb sd 2)
    then 0
    else if peek name == b'X' || peek (drop 3 name) == b'U'
    then (if typ == b'X' then 3 else 2)
    else 1

-- From the price's end on: a quantity may follow. A comparison at the end of the line reads behind
-- its NUL.
unfoldable pub at_qty : (Bytes → Printed) → Bytes → Bytes → Printed
unfolding emit span_nul starts_with
at_qty again line [] = fault
at_qty again line (c ∷ on) =
    let on' = drop (length qty) (c ∷ on) in
    let without = emit (line ++ b'\n' ∷ []) (again (c ∷ on)) in
    let with_it = emit (line ++ b'\t' ∷ ((span_nul on').0 ++ b'\n' ∷ [])) (again on') in
    if starts_with qty (c ∷ on) then with_it else without

unfoldable pub at_px : (Bytes → Printed) → Bytes → Bytes × Bytes → Printed
unfolding at_qty in_room
at_px again line (p, rest) = in_room (line ++ b'\t' ∷ p) (at_qty again (line ++ b'\t' ∷ p) rest)

-- Where the price should be.
unfoldable pub at_prc : (Bytes → Printed) → Bytes → Bytes → Printed
unfolding at_px span_nul starts_with
at_prc again line [] = fault
at_prc again line (c ∷ on) =
    let more = again (c ∷ on) in
    let priced = at_px again line (span_nul (drop (length prc) (c ∷ on))) in
    if not (starts_with prc (c ∷ on)) then more else priced

-- The instrument at `name`, the side, and the flavour.
unfoldable pub with_name : (Bytes → Bytes → Printed) → ℕ → Bytes → ℕ → Bytes → Bytes → Printed
unfolding at_prc flavour_of span_nul in_room
with_name again typ head sd name on =
    let line =
      head
      ++ ((span_nul name).0 ++ b'\t' ∷ (sides sd ++ bit_xor (flavour_of typ name sd) b'0' ∷ [])) in
    in_room line (at_prc (again name) line on)

-- An instrument of the entry's own replaces the one so far.
unfoldable pub at_name : (Bytes → Bytes → Printed) → ℕ → Bytes → ℕ → Bytes → Bytes → Printed
unfolding with_name span_nul starts_with
at_name again typ head sd name [] = fault
at_name again typ head sd name (c ∷ on) =
    let own = drop (length ins) (c ∷ on) in
    if starts_with ins (c ∷ on)
    then with_name again typ head sd own (span_nul own).1
    else with_name again typ head sd name (c ∷ on)

unfoldable pub at_ety : (Bytes → Bytes → Printed) → ℕ → Bytes → Bytes → Option Bytes → Printed
unfolding at_name
at_ety again typ head name none = printed []
at_ety again typ head name (some []) = fault
at_ety again typ head name (some (c ∷ on)) =
    let sd = bit_xor c b'0' in
    let more = again name on in
    let named = at_name again typ head sd name on in if leb 3 sd then more else named

-- The loop over the entries, with the instrument so far.
unfoldable pub quotes : ℕ → ℕ → Bytes → Bytes → Bytes → Printed
unfolding at_ety field
quotes zero typ head name on = out_of_fuel
quotes (suc fuel) typ head name on = at_ety (quotes fuel typ head) typ head name (field ety on)

unfoldable pub at_nup : ℕ → Bytes → Bytes → Option Bytes → Printed
unfolding quotes
at_nup typ head name none = printed []
at_nup typ head name (some on) = quotes (suc (length on)) typ head name on

unfoldable pub at_first : ℕ → Bytes → Bytes → Option Bytes → Printed
unfolding at_nup field
at_first typ head msg none = printed []
at_first typ head msg (some name) = at_nup typ head name (field nup msg)

unfoldable pub at_stamp : ℕ → Bytes → Bytes → Option (ℕ × Bytes) → Printed
unfolding at_first in_room head_of field
at_stamp typ msg prfx none = printed []
at_stamp typ msg prfx (some (s, on)) =
    in_room (head_of s on prfx) (at_first typ (head_of s on prfx) msg (field ins msg))

unfoldable pub at_time : (Bytes → Option (ℕ × Bytes)) → ℕ → Bytes → Bytes → Option Bytes → Printed
unfolding at_stamp
at_time strptime typ msg prfx none = printed []
at_time strptime typ msg prfx (some on) = at_stamp typ msg prfx (strptime on)

-- What is printed; the caller drops the result.
unfoldable pub route_quote : (Bytes → Option (ℕ × Bytes)) → ℕ → Bytes → Bytes → Printed
unfolding at_time field
route_quote strptime typ msg prfx = at_time strptime typ msg prfx (field tim msg)

-- The switch over the type. A message that starts behind the end of the line has a length that
-- wraps, and the searches run behind the line.
unfoldable pub on_message : (Bytes → Option (ℕ × Bytes)) → Bytes → Bytes × Option Parsed → Printed
unfolding route_quote
on_message strptime prfx (buf, none) = printed []
on_message strptime prfx (buf, some p) =
    let routed = route_quote strptime p.typ (message_of buf p) prfx in
    if not (p.typ == b'W' || p.typ == b'X')
    then printed []
    else if ltb (length buf) p.off
    then fault
    else routed

-- What goes to standard output for a line; `stale` is what stands behind its NUL.
unfoldable pub procln : (Bytes → Option (ℕ × Bytes)) → Bytes → Bytes → Printed
unfolding on_message fix_parse split_prefix memchr
procln strptime stale ln =
    let (prfx, rest) = split_prefix ln (memchr b'\t' ln) in
    on_message strptime prfx (fix_parse rest (0 ∷ stale))
