-- ===== src/Tests/Bitfin.antt =====
-- Lines of the log of bitfinex: a subscription, a book, a trade, and the best prices.
use coins.Prelude.{◌%◌, ◌≡◌, ◌≤◌, ◌≢◌, refl, [], ◌∷◌, Bytes, All, length, true, false, arith}
use mathlib.Core.Path.{subst}
use coins.Libc.{codes, strtoul}
use coins.Clock.{tvtostr}
use coins.Output.{printed, Prints, IsLine}
use coins.Bitfin.{Subt, Btf, no_channels, instostr, strtoins}
use coins.Bitfin.Event.{ini_of, top_line, evtbok, evttra, subty_of, events, procln, convert}
use coins.Bitfin.Levels.{Level, IsLevel, book_line}
use coins.Bitfin.Trades.{trade_text, sale_line, evttra-trade_text}
use coins.Bitfin.Ends.{events-IsLine}
use coins.Bitfin.Tables.{IsBtf, no_channels-IsBtf, convert-IsBtf}
use coins.Bitfin.Names.{subscription_line, procln-subscription_book}

abbrev bid : Level
bid = record { price = codes "100.5"; count = 2; ask = false; amount = codes "1.25" }

abbrev ask : Level
ask = record { price = codes "101"; count = 1; ask = true; amount = codes "3" }

abbrev ini : Bytes
ini = codes "2.000000000\tBTCUSD\t"

bid-IsLevel : IsLevel ini bid
bid-IsLevel = record {
  one_field = ground arith;
  stands = omega arith;
  counted = omega arith;
  in_brackets = ground arith;
  unsigned = ground arith;
  fits = omega arith;
}

ask-IsLevel : IsLevel ini ask
ask-IsLevel = record {
  one_field = ground arith;
  stands = omega arith;
  counted = omega arith;
  in_brackets = ground arith;
  unsigned = ground arith;
  fits = omega arith;
}

abbrev subscription : Bytes
subscription = subscription_line 1000000000 Subt.subt_bok 258 (codes "BTCUSD") (codes "}\n")

abbrev book : Bytes
book = book_line 2000000000 258 bid (ask ∷ []) (codes "]\n")

-- Channel 258 is kept as 2.
abbrev listening : Btf
listening = (procln subscription no_channels).0

as_text : book ≡ codes "2.000000000\t[258,[[100.5,2,1.25],[101,1,-3]]\n"
unfolding tvtostr
as_text = refl

apart : 258 % 256 ≢ 3
apart = ground arith

both_levels : All (IsLevel ini) (bid ∷ ask ∷ [])
both_levels = (bid-IsLevel, (ask-IsLevel, tt))

procln-subscription_book_example :
    ((procln book listening).1
      ≡ printed (
          codes "2.000000000\tBTCUSD\tB2\t100.5\t1.25\n"
          ∷ codes "2.000000000\tBTCUSD\tA2\t101\t3\n"
          ∷ []))
    × (instostr listening 3 ≡ instostr no_channels 3)
    × (subty_of listening 3 ≡ subty_of no_channels 3)
unfolding tvtostr
procln-subscription_book_example =
    procln-subscription_book no_channels 1000000000 2000000000 258 3 (codes "BTCUSD") (codes "}\n")
      bid (ask ∷ []) (codes "]\n") no_channels-IsBtf (omega arith) (omega arith) (omega arith)
      (ground arith) (omega arith) both_levels refl apart

-- A channel with a book that was named before.
abbrev named : Btf
named =
    let b = strtoins (codes "BTCUSD") 6 2 no_channels in
    record b { subtys = Subt.subt_unk ∷ Subt.subt_unk ∷ Subt.subt_bok ∷ [] }

same_start : ini ≡ ini_of (record named { metr = 2000000000 }) (258 % 256)
unfolding ini_of strtoins no_channels
same_start = refl

named_levels :
    All (IsLevel (ini_of (record named { metr = 2000000000 }) (258 % 256))) (bid ∷ ask ∷ [])
named_levels = subst (λ (s : Bytes). All (IsLevel s) (bid ∷ ask ∷ [])) same_start both_levels

-- A removal goes out with the quantity 0.
removes :
    evtbok (codes "100.5,0,1]\n") 2 named
    ≡ printed (codes "0.000000000\tBTCUSD\tB2\t100.5\t0\n" ∷ [])
unfolding evtbok strtoins no_channels
removes = refl

-- Behind a level that stands, a removal carries the quantity of that level.
removal_after :
    evtbok (codes "100.5,2,1.25],[101,0,1]\n") 2 named
    ≡ printed (
        codes "0.000000000\tBTCUSD\tB2\t100.5\t1.25\n"
        ∷ codes "0.000000000\tBTCUSD\tB2\t101\t1.25\n"
        ∷ [])
unfolding evtbok strtoins no_channels
removal_after = refl

short_lines :
    (length (top_line (ini_of named 2) b'B' (codes "100") (codes "2")) ≤ 256)
    × (length (top_line (ini_of named 2) b'A' (codes "101") (codes "3")) ≤ 256)
    × (length (sale_line (ini_of named 2) (codes "100.5") true (codes "0.7")) ≤ 256)
unfolding top_line ini_of strtoins no_channels
short_lines = (omega arith, omega arith, omega arith)

evttra-trade_text_example :
    evttra
      (trade_text (codes "12-BTC,1420070400") (codes "100.5") true (codes "0.7") (codes "\n"))
      2
      named
    ≡ printed (sale_line (ini_of named 2) (codes "100.5") true (codes "0.7") ∷ [])
evttra-trade_text_example =
    evttra-trade_text named 2 (codes "12-BTC,1420070400") (codes "100.5") (codes "0.7") (codes "\n")
      true (ground arith) (ground arith) (ground arith) (ground arith) (ground arith) short_lines.2

abbrev update : Bytes
update = codes "258,[100.5,2,1.25]]\n"

events-IsLine_example :
    Prints (IsLine (ini_of named ((strtoul update).0 % 256))) (events update named)
events-IsLine_example = events-IsLine update named

convert-IsBtf_example : IsBtf (convert (subscription ∷ book ∷ []) no_channels).0
convert-IsBtf_example = convert-IsBtf (subscription ∷ book ∷ [])
