-- ===== src/Tests/Btcc.antt =====
-- A message of quotes from btcc.
use coins.Prelude.{ℕ, ◌≡◌, ◌≤◌, refl, Option, none, some, [], ◌∷◌, ◌++◌, Bytes, length, arith}
use mathlib.Core.Path.{subst}
use coins.Libc.{starts_with, codes, memchr}
use coins.Search.{xmemmem}
use coins.Clock.{tvtostr, strtons}
use coins.Output.{printed, Prints}
use coins.Quotes.{tim, ins, nup, ety, field, split_prefix}
use coins.Quotes.Route.{stamp_of}
use coins.Quotes.Ends.{IsQuote}
use coins.Btcc.{route_quote, procln}
use coins.Btcc.Offers.{Side, Offer, offers_text, lines_of, IsName, IsOffer, AreOffers}
use coins.Btcc.Ends.{procln_ends}
use coins.Btcc.Route.{route_quote-offers}

abbrev bid : Offer
bid = record {
  side = Side.bid;
  name = some (codes "XBTCNY");
  price = codes "1500.1";
  amount = codes "2";
}

-- A trade of the instrument that the entry before it names.
abbrev trade : Offer
trade = record { side = Side.trade; name = none; price = codes "1501"; amount = codes "0.5" }

-- What ends the message: its checksum, and the newline.
abbrev rest : Bytes
rest = codes "10=123" ++ 0 ∷ codes "\n"

abbrev updates : Bytes
updates = codes "2" ++ offers_text (bid ∷ trade ∷ []) (0 ∷ rest)

abbrev message : Bytes
message = 0 ∷ (codes "52=20150101-00:00:02.5" ++ 0 ∷ (codes "268=" ++ updates))

abbrev strptime : Bytes → Option (ℕ × Bytes)
strptime s = some (1420070402, codes ".5" ++ 0 ∷ [])

abbrev prfx : Bytes
prfx = codes "3.000000000\t"

abbrev head : Bytes
head = codes "1420070402.500000000\t3.000000000\t"

abbrev stamp : Bytes
stamp = stamp_of 1420070402 (codes ".5" ++ 0 ∷ []) prfx

is_stamp : head ≡ stamp
unfolding tvtostr strtons
is_stamp = refl

named : IsName (codes "XBTCNY")
named = record { ends = ground arith; long = omega arith }

bid-IsOffer : IsOffer b'X' head (codes "XBTCNY") bid
bid-IsOffer = record {
  named = named;
  price_ends = ground arith;
  amount_ends = ground arith;
  fits = omega arith;
}

trade-IsOffer : IsOffer b'X' head (codes "XBTCNY") trade
trade-IsOffer = record {
  named = named;
  price_ends = ground arith;
  amount_ends = ground arith;
  fits = omega arith;
}

quoted : AreOffers b'X' stamp (codes "XBTCNY") (bid ∷ trade ∷ [])
quoted =
    subst (λ (h : Bytes). AreOffers b'X' h (codes "XBTCNY") (bid ∷ trade ∷ [])) is_stamp
      (bid-IsOffer, (trade-IsOffer, tt))

fits : length stamp ≤ 256
fits = subst (λ (h : Bytes). length h ≤ 256) is_stamp (omega arith)

finds_tim : field tim message ≡ some (codes "20150101-00:00:02.5" ++ 0 ∷ (codes "268=" ++ updates))
unfolding field starts_with
finds_tim = refl

-- What stands behind the instrument that the first entry names.
abbrev behind : Bytes
behind = codes "270=1500.1" ++ 0 ∷ (codes "271=2" ++ offers_text (trade ∷ []) (0 ∷ rest))

finds_ins : field ins message ≡ some (codes "XBTCNY" ++ 0 ∷ behind)
unfolding field starts_with
finds_ins = refl

finds_nup : field nup message ≡ some updates
unfolding field starts_with
finds_nup = refl

no_more : xmemmem (0 ∷ rest) ety ≡ none
unfolding xmemmem
no_more = refl

route_quote-offers_example :
    route_quote strptime b'X' message prfx
    ≡ printed (lines_of b'X' stamp (codes "XBTCNY") (bid ∷ trade ∷ []))
route_quote-offers_example =
    route_quote-offers strptime b'X' message prfx
      (codes "20150101-00:00:02.5" ++ 0 ∷ (codes "268=" ++ updates)) (codes ".5" ++ 0 ∷ [])
      (codes "XBTCNY") behind (codes "2") rest 1420070402 (bid ∷ trade ∷ []) finds_tim refl fits
      finds_ins finds_nup (ground arith) quoted no_more

abbrev separator : ℕ
separator = 1

-- A line of the log, as it is read.
abbrev line : Bytes
line =
    prfx
    ++ (codes "8=FIX.4.4"
        ++ separator
          ∷ (codes "9=123"
              ++ separator
                ∷ (codes "35=W"
                    ++ separator
                      ∷ (codes "52=20150101-00:00:02.5"
                          ++ separator
                            ∷ (codes "268=1"
                                ++ separator
                                  ∷ (codes "269=0"
                                      ++ separator
                                        ∷ (codes "55=BTCUSD"
                                            ++ separator
                                              ∷ (codes "270=7"
                                                  ++ separator
                                                    ∷ (codes "271=9"
                                                        ++ separator ∷ codes "\n")))))))))

-- A level of a whole book of an instrument with depth.
one_level :
    procln strptime [] line
    ≡ printed (codes "1420070402.500000000\t3.000000000\tBTCUSD\tBID2\t7\t9\n" ∷ [])
unfolding procln
one_level = refl

procln_ends_example :
    Prints (IsQuote (split_prefix line (memchr b'\t' line)).0) (procln strptime [] line)
procln_ends_example = procln_ends strptime [] line
