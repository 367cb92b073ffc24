-- ===== src/Bitfin/Event.antt =====
-- The events on a channel (`evtbok`, `evttop`, `evttra`, `events`) and the line processor. `main`
-- drops what they return, so that only what they print and store is kept.
use coins.Prelude.{
  ℕ, zero, suc, ◌-◌, ◌%◌, Option, none, some, not, ◌&&◌, List, [], ◌∷◌, ◌++◌, Bytes, length, take,
  drop, get_or, ltb, ◌==◌, bit_xor, if◌then◌else◌,
}
use coins.Libc.{codes, peek, starts_with, memchr, strtoul}
use coins.Clock.{strtotv, tvtostr, not_a_time}
use coins.Output.{Printed, printed, fault, out_of_fuel, emit}
use coins.Bitfin.{Subt, subt_unk, Btf, instostr, subscr}

-- `btf_side_t`
abbrev pub side_bid : ℕ
side_bid = 1

abbrev pub side_ask : ℕ
side_ask = 2

abbrev pub side_tra : ℕ
side_tra = 3

-- The stamp and the instrument, which each line starts with.
unfoldable pub ini_of : Btf → ℕ → Bytes
unfolding tvtostr instostr
ini_of b ci = tvtostr b.metr ++ b'\t' ∷ (instostr b ci ++ b'\t' ∷ [])

unfoldable pub level_line : Bytes → ℕ → Bytes → Bytes → Bytes
level_line ini sd p q =
    ini ++ bit_xor (side_tra - sd) b'@' ∷ b'2' ∷ b'\t' ∷ (p ++ b'\t' ∷ (q ++ b'\n' ∷ []))

-- The line of a level is written, and another level may follow; `q` is the quantity so far.
unfoldable pub behind_level : (Bytes → Bytes → Printed) → Bytes → Bytes → Printed
behind_level again q on =
    let on' = drop 1 on in
    let more = again q (drop 1 on') in
    if peek on == b',' && peek on' == b'[' then more else printed []

unfoldable pub print_level : (Bytes → Bytes → Printed) → Bytes → ℕ → Bytes → Bytes → Bytes → Printed
unfolding emit level_line behind_level
print_level again ini sd p q on = emit (level_line ini sd p q) (behind_level again q on)

unfoldable pub at_bracket :
    (Bytes → Bytes → Printed) → Bytes → ℕ → Bytes → Option (Bytes × Bytes) → Printed
unfolding print_level
at_bracket again ini sd p none = printed []
at_bracket again ini sd p (some (q, rest)) = print_level again ini sd p q (drop 1 rest)

-- The quantity, which is read only where `cnt` is not 0.
unfoldable pub at_quantity : (Bytes → Bytes → Printed) → Bytes → Bytes → Bytes → ℕ → Bytes → Printed
unfolding at_bracket print_level memchr
at_quantity again ini p q cnt on =
    let sd = if peek on == b'-' then side_ask else side_bid in
    let on' = if sd == side_ask then drop 1 on else on in
    if ltb 0 cnt
    then at_bracket again ini sd p (memchr b']' on')
    else print_level again ini sd p q on'

unfoldable pub at_count : (Bytes → Bytes → Printed) → Bytes → Bytes → Bytes → ℕ × Bytes → Printed
unfolding at_quantity
at_count again ini p q (x, on) =
    if not (peek on == b',') then printed [] else at_quantity again ini p q x (drop 1 on)

unfoldable pub at_price :
    (Bytes → Bytes → Printed) → Bytes → Bytes → Option (Bytes × Bytes) → Printed
unfolding at_count strtoul
at_price again ini q none = printed []
at_price again ini q (some (p, rest)) = at_count again ini p q (strtoul (drop 1 rest))

-- The levels of the book from `on` on. Each takes an octet at least.
unfoldable pub levels : ℕ → Bytes → Bytes → Bytes → Printed
unfolding at_price memchr
levels zero ini q on = out_of_fuel
levels (suc fuel) ini q on = at_price (levels fuel ini) ini q (memchr b',' on)

unfoldable pub evtbok : Bytes → ℕ → Btf → Printed
unfolding levels ini_of
evtbok line ci b = levels (suc (length line)) (ini_of b ci) (codes "0") line

-- The next field, up to a comma, and the rest behind the comma.
unfoldable pub to_comma : (Bytes → Bytes → Printed) → Option (Bytes × Bytes) → Printed
to_comma next none = printed []
to_comma next (some (field, rest)) = next field (drop 1 rest)

unfoldable pub top_line : Bytes → ℕ → Bytes → Bytes → Bytes
top_line ini side p q = ini ++ side ∷ b'1' ∷ b'\t' ∷ (p ++ b'\t' ∷ (q ++ b'\n' ∷ []))

unfoldable pub print_top : Bytes → Bytes → Bytes → Bytes → Bytes → Printed
unfolding top_line emit
print_top ini bid bsz ask asz =
    emit (top_line ini b'B' bid bsz) (emit (top_line ini b'A' ask asz) (printed []))

unfoldable pub evttop : Bytes → ℕ → Btf → Printed
unfolding to_comma print_top memchr ini_of
evttop line ci b =
    to_comma
      (λ bid on.
        to_comma
          (λ bsz on'.
            to_comma
              (λ ask on''.
                to_comma (λ asz on'''. print_top (ini_of b ci) bid bsz ask asz) (memchr b',' on''))
              (memchr b',' on'))
          (memchr b',' on))
      (memchr b',' line)

-- The walk to the last comma: `pr` is the field before the one at `on`, if there is one, and the
-- search is at `s`.
unfoldable pub last_comma : Option Bytes → Bytes → Bytes → Option Bytes × Bytes
last_comma pr on [] = (pr, on)
last_comma pr on (c ∷ s) =
    last_comma (if c == b',' then some on else pr) (if c == b',' then s else on) s

unfoldable pub trade_line : Bytes → Bytes → Bytes → Bytes → Bytes
trade_line ini p on q =
    ini
    ++ (b'T' - (if peek on == b'-' then 1 else 0)) ∷ b'0' ∷ b'\t' ∷ (p ++ b'\t' ∷ (q ++ b'\n' ∷ []))

-- The quantity ends at `rest`; without a comma the place of the price was never set.
unfoldable pub print_trade : Bytes → Option Bytes → Bytes → Option (Bytes × Bytes) → Printed
unfolding trade_line emit
print_trade ini pr on none = printed []
print_trade ini none on (some (q, rest)) = fault
print_trade ini (some pr) on (some (q, rest)) =
    let p = take (length pr - length on - 1) pr in
    let q' = if peek on == b'-' then drop 1 q else q in emit (trade_line ini p on q') (printed [])

unfoldable pub evttra : Bytes → ℕ → Btf → Printed
unfolding print_trade last_comma starts_with memchr ini_of
evttra line ci b =
    let (pr, on) = last_comma none line line in
    if not (starts_with (codes "\"te\"") line)
    then printed []
    else print_trade (ini_of b ci) pr on (memchr b']' on)

abbrev pub subty_of : Btf → ℕ → Subt
subty_of b ci = get_or b.subtys ci subt_unk

-- A book may be an array of arrays.
unfoldable pub into_book : Bytes → Bytes
into_book on =
    let on' = drop 1 on in
    if peek on == b'[' then (if peek on' == b'[' then drop 1 on' else on') else on

unfoldable pub on_subty : Subt → Bytes → ℕ → Btf → Printed
unfolding evtbok evttop evttra into_book
on_subty Subt.subt_bok on ci b = evtbok (into_book on) ci b
on_subty Subt.subt_top on ci b = evttop on ci b
on_subty Subt.subt_tra on ci b = evttra on ci b
on_subty Subt.subt_unk on ci b = printed []

unfoldable pub events : Bytes → Btf → Printed
unfolding on_subty strtoul
events line b =
    let (x, on) = strtoul line in
    let ci = x % 256 in
    if not (peek on == b',') then printed [] else on_subty (subty_of b ci) (drop 1 on) ci b

-- What `subscr` leaves behind.
abbrev pub subscribed : Btf → Option Btf → Btf
subscribed b none = b
subscribed b (some b') = b'

unfoldable pub procln : Bytes → Btf → Btf × Printed
unfolding strtotv events subscr
procln line b =
    let (t, on) = strtotv line in
    let b' : Btf = record b { metr = t } in
    let json = drop 1 on in
    if t == not_a_time
    then (b', printed [])
    else if not (peek on == b'\t')
    then (b', printed [])
    else if peek json == b'{'
    then (subscribed b' (subscr (drop 1 json) b'), printed [])
    else if peek json == b'['
    then (b', events (drop 1 json) b')
    else (b', printed [])

-- The lines that `main` reads.
abbrev pub convert : List Bytes → Btf → Btf × List Printed
convert [] b = (b, [])
convert (line ∷ lines) b =
    let (b', out) = procln line b in let (b'', more) = convert lines b' in (b'', out ∷ more)
