-- ===== src/Bitfin/Levels.antt =====
-- The book of a channel of bitfinex: levels as a text, and the lines for them.
use coins.Prelude.{
  ℕ, zero, suc, bit_xor, ◌-◌, ◌%◌, ◌≤◌, ◌<◌, ◌≡◌, ◌≢◌, refl, ◌∙◌, Bool, true, false, ◌&&◌, List, [],
  ◌∷◌, ◌++◌, Bytes, All, length, length-append, drop, ltb, ◌==◌, if◌then◌else◌, arith,
}
use coins.Libc.{peek, memchr, strtoul, ulong_max, print_ulong}
use coins.Libc.Chars.{memchr-append}
use coins.Libc.Decimal.{strtoul-print_ulong}
use coins.Clock.{tvtostr, not_a_time}
use coins.Clock.RoundTrip.{strtotv-tvtostr}
use coins.Output.{Printed, printed, emit, emit-printed}
use coins.Bitfin.{Subt, Btf}
use coins.Bitfin.Event.{
  side_bid, side_ask, side_tra, ini_of, level_line, behind_level, print_level, at_bracket,
  at_quantity, at_count, at_price, levels, evtbok, into_book, subty_of, on_subty, events, procln,
}

-- A level of a book: so many orders on one side at a price.
pub record Level : Type 0 where
  pub price : Bytes
  pub count : ℕ
  pub ask : Bool
  pub amount : Bytes

abbrev pub signed : Bool → Bytes → Bytes
signed true s = b'-' ∷ s
signed false s = s

-- Its text, with what follows the bracket.
abbrev pub level_text : Level → Bytes → Bytes
level_text l rest =
    l.price ++ b',' ∷ (print_ulong l.count ++ b',' ∷ signed l.ask (l.amount ++ b']' ∷ rest))

-- Levels in brackets, from behind the first on.
abbrev pub book_text : Level → List Level → Bytes → Bytes
book_text l [] rest = level_text l rest
book_text l (next ∷ more) rest = level_text l (b',' ∷ b'[' ∷ book_text next more rest)

abbrev pub line_of : Bytes → Level → Bytes
line_of ini l =
    ini
    ++ (if l.ask then b'A' else b'B') ∷ b'2' ∷ b'\t' ∷ (l.price ++ b'\t' ∷ (l.amount ++ b'\n' ∷ []))

abbrev pub lines_of : Bytes → List Level → List Bytes
lines_of ini [] = []
lines_of ini (l ∷ ls) = line_of ini l ∷ lines_of ini ls

-- A level that stands in the book, whose line fits the buffer.
pub record IsLevel (ini : Bytes) (l : Level) : Type 0 where
  pub one_field : All (λ (c : ℕ). c ≢ b',') l.price
  pub stands : 0 < l.count
  pub counted : l.count ≤ ulong_max
  pub in_brackets : All (λ (c : ℕ). c ≢ b']') l.amount
  pub unsigned : peek l.amount ≢ b'-'
  pub fits : length (line_of ini l) ≤ 256

-- No level follows.
abbrev pub IsEnd : Bytes → Type 0
IsEnd rest = (peek rest == b',' && peek (drop 1 rest) == b'[') ≡ false

pub unsigned_text : (s rest : Bytes) → peek s ≢ b'-' → peek (s ++ b']' ∷ rest) ≢ b'-'
unsigned_text [] rest h = ground arith
unsigned_text (c ∷ s) rest h = h

side_letter :
    (ask : Bool)
    → bit_xor (side_tra - (if ask then side_ask else side_bid)) b'@' ≡ (if ask then b'A' else b'B')
side_letter true = refl
side_letter false = refl

module _ (again : Bytes → Bytes → Printed) (ini : Bytes) where
  at_quantity-signed :
      (p q : Bytes) (cnt : ℕ) (ask : Bool) (s rest : Bytes)
      → 0 < cnt
      → All (λ (c : ℕ). c ≢ b']') s
      → peek s ≢ b'-'
      → at_quantity again ini p q cnt (signed ask (s ++ b']' ∷ rest))
        ≡ print_level again ini (if ask then side_ask else side_bid) p s rest
  unfolding at_quantity at_bracket
  at_quantity-signed p q cnt true s rest k h u =
      let e : ltb 0 cnt ≡ true = ground arith in rw (e, memchr-append b']' s rest h) refl
  at_quantity-signed p q cnt false s rest k h u =
      let e : ltb 0 cnt ≡ true = ground arith in
      let v : (peek (s ++ b']' ∷ rest) == b'-') ≡ false =
        let w = unsigned_text s rest u in ground arith in
      rw (v, e, memchr-append b']' s rest h) refl

  -- A level is read, and its line is what goes out before the levels behind it.
  one_level :
      (l : Level) (q rest : Bytes)
      → IsLevel ini l
      → at_price again ini q (memchr b',' (level_text l rest))
        ≡ emit (line_of ini l) (behind_level again l.amount rest)
  unfolding at_price at_count print_level level_line
  one_level l q rest h =
      rw
        (
          memchr-append b',' l.price _ h.one_field,
          strtoul-print_ulong l.count _ h.counted refl,
          at_quantity-signed l.price q l.count l.ask l.amount rest h.stands h.in_brackets
              h.unsigned,
        )
        (rw (side_letter l.ask) refl)

levels-book_text :
    (ini : Bytes) (fuel : ℕ) (l : Level) (ls : List Level) (q rest : Bytes)
    → length ls < fuel
    → All (IsLevel ini) (l ∷ ls)
    → IsEnd rest
    → levels fuel ini q (book_text l ls rest) ≡ printed (lines_of ini (l ∷ ls))
unfolding levels behind_level
levels-book_text ini zero l ls q rest k h e = absurd (omega arith)
levels-book_text ini (suc fuel) l [] q rest k h e =
    one_level (levels fuel ini) ini l q rest h.0 ∙ rw e (emit-printed (line_of ini l) [] h.0.fits)
levels-book_text ini (suc fuel) l (next ∷ more) q rest k h e =
    one_level (levels fuel ini) ini l q (b',' ∷ b'[' ∷ book_text next more rest) h.0
    ∙ rw (levels-book_text ini fuel next more l.amount rest (omega arith) h.1 e)
        (emit-printed (line_of ini l) (lines_of ini (next ∷ more)) h.0.fits)

length-signed : (ask : Bool) (s : Bytes) → length s ≤ length (signed ask s)
length-signed true s = omega arith
length-signed false s = omega arith

length-level_text : (l : Level) (rest : Bytes) → length rest < length (level_text l rest)
length-level_text l rest = omega (
  arith,
  length-append l.price
      (b',' ∷ (print_ulong l.count ++ b',' ∷ signed l.ask (l.amount ++ b']' ∷ rest))),
  length-append (print_ulong l.count) (b',' ∷ signed l.ask (l.amount ++ b']' ∷ rest)),
  length-signed l.ask (l.amount ++ b']' ∷ rest),
  length-append l.amount (b']' ∷ rest),
)

length-book_text :
    (l : Level) (ls : List Level) (rest : Bytes) → length ls < length (book_text l ls rest)
length-book_text l [] rest = omega (arith, length-level_text l rest)
length-book_text l (next ∷ more) rest = omega (
  arith,
  length-book_text next more rest,
  length-level_text l (b',' ∷ b'[' ∷ book_text next more rest),
)

-- A line of the log with a book on a channel.
abbrev pub book_line : ℕ → ℕ → Level → List Level → Bytes → Bytes
book_line t x l ls rest =
    tvtostr t ++ b'\t' ∷ b'[' ∷ (print_ulong x ++ b',' ∷ b'[' ∷ b'[' ∷ book_text l ls rest)

-- A line of the log that holds a book, on a channel with a subscription to one: what is printed are
-- the lines of its levels in order, and only the stamp is stored. Each level has orders, its fields
-- hold none of the marks that end them, and its line fits the buffer.
pub procln-book_line :
    (b : Btf) (t x : ℕ) (l : Level) (ls : List Level) (rest : Bytes)
    → t < not_a_time
    → x ≤ ulong_max
    → subty_of b (x % 256) ≡ Subt.subt_bok
    → All (IsLevel (ini_of (record b { metr = t }) (x % 256))) (l ∷ ls)
    → IsEnd rest
    → procln (book_line t x l ls rest) b ≡ (
      record b { metr = t },
      printed (lines_of (ini_of (record b { metr = t }) (x % 256)) (l ∷ ls)),
    )
unfolding procln events on_subty evtbok into_book
procln-book_line b t x l ls rest ht hx sub h e =
    let timely : (t == not_a_time) ≡ false = ground arith in
    rw
      (
        strtotv-tvtostr t
            (b'\t' ∷ b'[' ∷ (print_ulong x ++ b',' ∷ b'[' ∷ b'[' ∷ book_text l ls rest))
            (omega arith) refl,
        timely,
        strtoul-print_ulong x (b',' ∷ b'[' ∷ b'[' ∷ book_text l ls rest) hx refl,
        sub,
        levels-book_text (ini_of (record b { metr = t }) (x % 256))
            (suc (length (book_text l ls rest))) l ls (b'0' ∷ []) rest
            (omega (arith, length-book_text l ls rest)) h e,
      )
      refl

-- A level without orders goes out with the quantity 0, whatever quantity it came with.
pub evtbok-removal :
    (b : Btf) (ci : ℕ) (p rest : Bytes) (ask : Bool)
    → All (λ (c : ℕ). c ≢ b',') p
    → peek rest ≢ b'-'
    → peek rest ≢ b','
    → length
        (line_of (ini_of b ci) (record { price = p; count = 0; ask = ask; amount = b'0' ∷ [] }))
      ≤ 256
    → evtbok (p ++ b',' ∷ b'0' ∷ b',' ∷ signed ask rest) ci b
      ≡ printed (
          line_of (ini_of b ci) (record { price = p; count = 0; ask = ask; amount = b'0' ∷ [] })
          ∷ [])
unfolding evtbok levels at_price at_count at_quantity print_level level_line behind_level strtoul
evtbok-removal b ci p rest true h u v fits =
    let e : (peek rest == b',') ≡ false = ground arith in
    rw (memchr-append b',' p _ h, e) (emit-printed _ [] fits)
evtbok-removal b ci p rest false h u v fits =
    let e : (peek rest == b',') ≡ false = ground arith in
    let f : (peek rest == b'-') ≡ false = ground arith in
    rw (memchr-append b',' p _ h, f, e) (emit-printed _ [] fits)
