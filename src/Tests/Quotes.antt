-- ===== src/Tests/Quotes.antt =====
-- A message of quotes from okcoin.
use coins.Prelude.{
  ℕ, ◌≡◌, ◌≤◌, refl, Option, none, some, List, [], ◌∷◌, ◌++◌, Bytes, All, length, true, false,
  arith,
}
use mathlib.Core.Path.{subst}
use coins.Libc.{starts_with, codes, memchr}
use coins.Search.{xmemmem}
use coins.Clock.{tvtostr, strtons}
use coins.Output.{printed, Prints}
use coins.Quotes.{contract, tim, ins, nup, ety, field, split_prefix, route_quote, procln}
use coins.Quotes.Entries.{Entry, IsEntry, entries_text}
use coins.Quotes.Route.{stamp_of, start_of, book_of, route_quote-entries}
use coins.Quotes.Ends.{IsQuote, procln-IsQuote}

abbrev bid : Entry
bid = record { ask = false; price = codes "1500.1"; amount = codes "2" }

abbrev ask : Entry
ask = record { ask = true; price = codes "1501"; amount = codes "0.5" }

-- What ends the message: its checksum, and the newline.
abbrev rest : Bytes
rest = codes "10=123" ++ 0 ∷ codes "\n"

abbrev updates : Bytes
updates = codes "2" ++ entries_text (bid ∷ ask ∷ []) (0 ∷ rest)

abbrev message : Bytes
message =
    0
    ∷ (codes "34=7"
        ++ 0
          ∷ (codes "52=20150101-00:00:02.5"
              ++ 0 ∷ (codes "55=BTC/CNY" ++ 0 ∷ (codes "268=" ++ updates))))

-- The clock of 17 characters.
abbrev strptime : Bytes → Option (ℕ × Bytes)
strptime s = some (1420070402, codes ".5" ++ 0 ∷ [])

abbrev prfx : Bytes
prfx = codes "3.000000000\t"

abbrev ini : Bytes
ini = codes "1420070402.500000000\t3.000000000\tBTC/CNY\t"

bid-IsEntry : IsEntry ini bid
bid-IsEntry = record { price_ends = ground arith; amount_ends = ground arith; fits = omega arith }

ask-IsEntry : IsEntry ini ask
ask-IsEntry = record { price_ends = ground arith; amount_ends = ground arith; fits = omega arith }

finds_tim :
    field tim message
    ≡ some
        (codes "20150101-00:00:02.5" ++ 0 ∷ (codes "55=BTC/CNY" ++ 0 ∷ (codes "268=" ++ updates)))
unfolding field starts_with
finds_tim = refl

finds_ins : field ins message ≡ some (codes "BTC/CNY" ++ 0 ∷ (codes "268=" ++ updates))
unfolding field starts_with
finds_ins = refl

finds_nup : field nup message ≡ some updates
unfolding field starts_with
finds_nup = refl

starts : ini ≡ start_of (stamp_of 1420070402 (codes ".5" ++ 0 ∷ []) prfx) (codes "BTC/CNY") message
unfolding tvtostr strtons field contract
starts = refl

abbrev start : Bytes
start = start_of (stamp_of 1420070402 (codes ".5" ++ 0 ∷ []) prfx) (codes "BTC/CNY") message

quoted_levels : All (IsEntry start) (bid ∷ ask ∷ [])
quoted_levels =
    subst (λ (s : Bytes). All (IsEntry s) (bid ∷ ask ∷ [])) starts (bid-IsEntry, (ask-IsEntry, tt))

fits : length (start ++ codes "clr0\t\t\n") ≤ 256
fits = subst (λ (s : Bytes). length (s ++ codes "clr0\t\t\n") ≤ 256) starts (omega arith)

no_more : xmemmem (0 ∷ rest) ety ≡ none
unfolding xmemmem
no_more = refl

route_quote-entries_example :
    route_quote strptime message prfx true ≡ printed (book_of start true (bid ∷ ask ∷ []))
route_quote-entries_example =
    route_quote-entries strptime message prfx
      (codes "20150101-00:00:02.5" ++ 0 ∷ (codes "55=BTC/CNY" ++ 0 ∷ (codes "268=" ++ updates)))
      (codes ".5" ++ 0 ∷ []) (codes "BTC/CNY") (codes "268=" ++ updates) (codes "2") rest 1420070402
      (bid ∷ ask ∷ []) true finds_tim refl finds_ins (ground arith) finds_nup (ground arith)
      quoted_levels no_more fits

abbrev separator : List ℕ
separator = 1 ∷ []

-- A line of the log, as it is read.
abbrev line : Bytes
line =
    prfx
    ++ (codes "8=FIX.4.4"
        ++ (separator
            ++ (codes "9=123"
                ++ (separator
                    ++ (codes "35=X"
                        ++ (separator
                            ++ (codes "52=20150101-00:00:02.5"
                                ++ (separator
                                    ++ (codes "55=BTC/CNY"
                                        ++ (separator
                                            ++ (codes "268=1"
                                                ++ (separator
                                                    ++ (codes "269=0"
                                                        ++ (separator
                                                            ++ (codes "270=7"
                                                            ++ (separator
                                                            ++ (codes "271=9"
                                                            ++ (separator
                                                            ++ codes "\n"))))))))))))))))))

one_update :
    procln strptime [] line
    ≡ printed (codes "1420070402.500000000\t3.000000000\tBTC/CNY\tBID2\t7\t9\n" ∷ [])
unfolding procln
one_update = refl

procln-IsQuote_example :
    Prints (IsQuote (split_prefix line (memchr b'\t' line)).0) (procln strptime [] line)
procln-IsQuote_example = procln-IsQuote strptime [] line
