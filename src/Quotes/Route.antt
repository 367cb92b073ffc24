-- ===== src/Quotes/Route.antt =====
-- What is printed of a message of quotes.
use coins.Prelude.{
  ◌*◌, ◌+◌, ℕ, suc, ◌≤◌, ◌<◌, ◌≡◌, refl, Option, none, some, List, [], ◌∷◌, ◌++◌, Bool, true, false,
  Bytes, All, length, length-append, if◌then◌else◌, arith,
}
use coins.Libc.{codes, u64}
use coins.Clock.{nsecs, tvtostr, strtons}
use coins.Search.{xmemmem}
use coins.Output.{printed, emit, in_room-fits, emit-printed}
use coins.Quotes.{
  tim, ins, ccy, nup, ety, qty, field, contract, head_of, at_updates, at_ins, at_clock, at_tim,
  route_quote,
}
use coins.Quotes.Entries.{
  Entry, entries_text, lines_of, IsEntry, NoNul, span_nul-append, entries-entries_text,
}

-- The stamp of a message, with its fraction of a second, and the prefix of the line.
abbrev pub stamp_of : ℕ → Bytes → Bytes → Bytes
stamp_of s on prfx = tvtostr (u64 (u64 (s * nsecs) + strtons on)) ++ b'\t' ∷ prfx

-- What each line starts with.
abbrev pub start_of : Bytes → Bytes → Bytes → Bytes
start_of head name msg = head ++ (name ++ (contract (field ccy msg) ++ b'\t' ∷ []))

-- A full refresh starts with a line that clears the book.
abbrev pub book_of : Bytes → Bool → List Entry → List Bytes
book_of ini rstp es =
    if rstp then (ini ++ codes "clr0\t\t\n") ∷ lines_of ini es else lines_of ini es

length-entries_text : (es : List Entry) (rest : Bytes) → length es ≤ length (entries_text es rest)
length-entries_text [] rest = omega arith
length-entries_text (e ∷ es) rest = omega (
  arith,
  length-entries_text es rest,
  length-append e.price (qty ++ (e.amount ++ entries_text es rest)),
  length-append e.amount (entries_text es rest),
)

at_updates-entries :
    (ini : Bytes) (rstp : Bool) (cnt rest : Bytes) (es : List Entry)
    → NoNul cnt
    → All (IsEntry ini) es
    → xmemmem (0 ∷ rest) ety ≡ none
    → length (ini ++ codes "clr0\t\t\n") ≤ 256
    → at_updates ini rstp (some (cnt ++ entries_text es (0 ∷ rest))) ≡ printed (book_of ini rstp es)
unfolding at_updates
at_updates-entries ini rstp cnt rest es hc he none' fits =
    let text = cnt ++ entries_text es (0 ∷ rest) in
    let enough : length es < suc (length text) =
      omega (
        arith,
        length-append cnt (entries_text es (0 ∷ rest)),
        length-entries_text es (0 ∷ rest),
      ) in
    rw (entries-entries_text ini (suc (length text)) cnt es rest enough hc he none') (chosen rstp)
  where
    chosen :
        (r : Bool)
        → (if r
            then emit (ini ++ codes "clr0\t\t\n") (printed (lines_of ini es))
            else printed (lines_of ini es))
          ≡ printed (book_of ini r es)
    chosen true = emit-printed (ini ++ codes "clr0\t\t\n") (lines_of ini es) fits
    chosen false = refl

-- Where the fields of a message are found, in whatever order they stand, each entry goes out as a
-- line, in order, behind the stamp of the message, the prefix and the instrument; a full refresh
-- clears the book first. The values hold no NUL, nothing behind the entries looks like another,
-- and the lines fit the buffer.
pub route_quote-entries :
    (strptime : Bytes → Option (ℕ × Bytes)) (msg prfx clock on name after cnt rest : Bytes) (s : ℕ)
    (es : List Entry) (rstp : Bool)
    → field tim msg ≡ some clock
    → strptime clock ≡ some (s, on)
    → field ins msg ≡ some (name ++ 0 ∷ after)
    → NoNul name
    → field nup msg ≡ some (cnt ++ entries_text es (0 ∷ rest))
    → NoNul cnt
    → All (IsEntry (start_of (stamp_of s on prfx) name msg)) es
    → xmemmem (0 ∷ rest) ety ≡ none
    → length (start_of (stamp_of s on prfx) name msg ++ codes "clr0\t\t\n") ≤ 256
    → route_quote strptime msg prfx rstp
      ≡ printed (book_of (start_of (stamp_of s on prfx) name msg) rstp es)
unfolding route_quote at_tim at_clock at_ins head_of
route_quote-entries strptime msg prfx clock on name after cnt rest s es rstp ht hs hi hn hu hc he
      none' fits =
    let head = stamp_of s on prfx in
    let ini = start_of head name msg in
    let room : length ini ≤ 256 = omega (arith, length-append ini (codes "clr0\t\t\n")) in
    let room' : length head ≤ 256 =
      omega (arith, length-append head (name ++ (contract (field ccy msg) ++ b'\t' ∷ []))) in
    rw
      (
        ht,
        hs,
        in_room-fits head _ room',
        hi,
        span_nul-append name after hn,
        in_room-fits ini _ room,
        hu,
      )
      (at_updates-entries ini rstp cnt rest es hc he none' fits)
