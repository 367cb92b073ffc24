-- ===== src/Quotes.antt =====
-- The converter of okcoin (src/ok2b.c): quotes out of FIX messages. `strptime` with `timegm` is an
-- argument: the seconds since the epoch, and the text behind the clock.
pub mod Entries
pub mod Route
pub mod Ends
use coins.Prelude.{
  ℕ, zero, suc, ◌+◌, ◌-◌, ◌*◌, Option, none, some, not, List, [], ◌∷◌, ◌++◌, Bool, true, false,
  ◌||◌, Bytes, length, drop, ltb, leb, ◌==◌, bit_xor, if◌then◌else◌,
}
use coins.Libc.{codes, starts_with, memchr, u64}
use coins.Search.{xmemmem}
use coins.Clock.{nsecs, tvtostr, strtons}
use coins.Output.{Printed, printed, fault, out_of_fuel, in_room, emit}
use coins.Fix.{Parsed, fix_parse, message_of}

-- The tags, each behind the NUL that ends the field before it.
abbrev pub tim : Bytes
tim = 0 ∷ codes "52="

abbrev pub ins : Bytes
ins = 0 ∷ codes "55="

abbrev pub ccy : Bytes
ccy = 0 ∷ codes "15="

abbrev pub nup : Bytes
nup = 0 ∷ codes "268="

abbrev pub ety : Bytes
ety = 0 ∷ codes "269="

abbrev pub prc : Bytes
prc = 0 ∷ codes "270="

abbrev pub qty : Bytes
qty = 0 ∷ codes "271="

-- The `strlen` octets at a pointer, and what stands behind them.
unfoldable pub span_nul : Bytes → Bytes × Bytes
span_nul [] = ([], [])
span_nul (c ∷ s) = let r = span_nul s in if c == 0 then ([], c ∷ s) else (c ∷ r.0, r.1)

abbrev pub behind : Bytes → Option ℕ → Option Bytes
behind msg none = none
behind msg (some k) = some (drop k msg)

-- From behind the first such tag on.
unfoldable pub field : Bytes → Bytes → Option Bytes
unfolding xmemmem
field tag msg = behind msg (xmemmem msg tag)

-- The quantity at `on` completes the line; the search for the next entry goes on from there.
unfoldable pub at_amount : (Bytes → Printed) → Bytes → Bytes → Printed
unfolding span_nul emit
at_amount again head on = emit (head ++ b'\t' ∷ ((span_nul on).0 ++ b'\n' ∷ [])) (again on)

-- The second try at the quantity. A comparison at the end of the line reads behind its NUL.
unfoldable pub second_try : (Bytes → Printed) → Bytes → Bytes → Printed
unfolding at_amount starts_with
second_try again head [] = fault
second_try again head (c ∷ on) =
    let more = again (c ∷ on) in
    let found = at_amount again head (drop (length qty) (c ∷ on)) in
    if not (starts_with qty (c ∷ on)) then more else found

unfoldable pub first_try : (Bytes → Printed) → Bytes → Bytes → Printed
unfolding at_amount second_try span_nul starts_with
first_try again head [] = fault
first_try again head (c ∷ on) =
    if not (starts_with qty (c ∷ on))
    then second_try again head (span_nul on).1
    else at_amount again head (drop (length qty) (c ∷ on))

unfoldable pub at_price : (Bytes → Printed) → Bytes → Bytes × Bytes → Printed
unfolding first_try in_room
at_price again head (p, rest) = in_room (head ++ p) (first_try again (head ++ p) rest)

-- Behind the side, where the price should be.
unfoldable pub at_side : (Bytes → Printed) → Bytes → Bytes → Printed
unfolding at_price in_room span_nul starts_with
at_side again head [] = fault
at_side again head (c ∷ on) =
    let more = again (c ∷ on) in
    let found = at_price again head (span_nul (drop (length prc) (c ∷ on))) in
    in_room head (if not (starts_with prc (c ∷ on)) then more else found)

abbrev pub side_text : ℕ → Bytes
side_text sd = if sd == 0 then codes "BID2" else codes "ASK2"

-- Behind the tag of an entry. At the end of the line, the pointer is left behind its end.
unfoldable pub at_entry : (Bytes → Printed) → Bytes → Option Bytes → Printed
unfolding at_side
at_entry again ini none = printed []
at_entry again ini (some []) = fault
at_entry again ini (some (c ∷ on)) =
    let sd = bit_xor c b'0' in
    let more = again on in
    let found = at_side again (ini ++ (side_text sd ++ b'\t' ∷ [])) on in
    if leb 2 sd then more else found

-- The loop over the entries. Each search goes on behind the tag it has found.
unfoldable pub entries : ℕ → Bytes → Bytes → Printed
unfolding at_entry field
entries zero ini on = out_of_fuel
entries (suc fuel) ini on = at_entry (entries fuel ini) ini (field ety on)

unfoldable pub at_updates : Bytes → Bool → Option Bytes → Printed
unfolding entries emit
at_updates ini rstp none = printed []
at_updates ini rstp (some on) =
    let more = entries (suc (length on)) ini on in
    if rstp then emit (ini ++ codes "clr0\t\t\n") more else more

-- They encode the contract in field 15.
unfoldable pub contract : Option Bytes → Bytes
unfolding span_nul
contract none = []
contract (some on) = b'/' ∷ (span_nul on).0

unfoldable pub at_ins : Bytes → Bytes → Bool → Option Bytes → Printed
unfolding at_updates contract in_room field span_nul
at_ins head msg rstp none = printed []
at_ins head msg rstp (some on) =
    let ini = head ++ ((span_nul on).0 ++ (contract (field ccy msg) ++ b'\t' ∷ [])) in
    in_room ini (at_updates ini rstp (field nup msg))

-- The stamp and the prefix of the line.
unfoldable pub head_of : ℕ → Bytes → Bytes → Bytes
unfolding tvtostr strtons
head_of s on prfx = tvtostr (u64 (u64 (s * nsecs) + strtons on)) ++ b'\t' ∷ prfx

unfoldable pub at_clock : Bytes → Bytes → Bool → Option (ℕ × Bytes) → Printed
unfolding at_ins in_room head_of field
at_clock msg prfx rstp none = printed []
at_clock msg prfx rstp (some (s, on)) =
    in_room (head_of s on prfx) (at_ins (head_of s on prfx) msg rstp (field ins msg))

unfoldable pub at_tim : (Bytes → Option (ℕ × Bytes)) → Bytes → Bytes → Bool → Option Bytes → Printed
unfolding at_clock
at_tim strptime msg prfx rstp none = printed []
at_tim strptime msg prfx rstp (some on) = at_clock msg prfx rstp (strptime on)

-- What is printed; the caller drops the result.
unfoldable pub route_quote : (Bytes → Option (ℕ × Bytes)) → Bytes → Bytes → Bool → Printed
unfolding at_tim field
route_quote strptime msg prfx rstp = at_tim strptime msg prfx rstp (field tim msg)

-- The line's prefix, with its tab, and the rest.
unfoldable pub split_prefix : Bytes → Option (Bytes × Bytes) → Bytes × Bytes
split_prefix ln none = ([], ln)
split_prefix ln (some (before, rest)) = (before ++ b'\t' ∷ [], drop 1 rest)

-- The switch over the type. A message that starts behind the end of the line has a length that
-- wraps, and the searches run behind the line.
unfoldable pub on_parsed : (Bytes → Option (ℕ × Bytes)) → Bytes → Bytes × Option Parsed → Printed
unfolding route_quote
on_parsed strptime prfx (buf, none) = printed []
on_parsed strptime prfx (buf, some p) =
    let quotes = route_quote strptime (message_of buf p) prfx (p.typ == b'W') in
    if not (p.typ == b'W' || p.typ == b'X')
    then printed []
    else if ltb (length buf) p.off
    then fault
    else quotes

-- What goes to standard output for a line; `stale` is what stands behind its NUL.
unfoldable pub procln : (Bytes → Option (ℕ × Bytes)) → Bytes → Bytes → Printed
unfolding on_parsed fix_parse split_prefix memchr
procln strptime stale ln =
    let (prfx, rest) = split_prefix ln (memchr b'\t' ln) in
    on_parsed strptime prfx (fix_parse rest (0 ∷ stale))
