-- ===== src/Btcc/Route.antt =====
-- What is printed of a message of btcc.
use coins.Prelude.{
  ℕ, suc, ◌≤◌, ◌<◌, ◌≡◌, Option, none, some, List, [], ◌∷◌, ◌++◌, Bytes, length, length-append,
  arith,
}
use coins.Search.{xmemmem}
use coins.Output.{printed, in_room-fits}
use coins.Quotes.{tim, ins, nup, ety, prc, qty, field, head_of}
use coins.Quotes.Entries.{NoNul}
use coins.Quotes.Route.{stamp_of}
use coins.Btcc.{at_nup, at_first, at_stamp, at_time, route_quote}
use coins.Btcc.Offers.{Offer, name_text, offers_text, lines_of, AreOffers}
use coins.Btcc.Lines.{quotes-offers_text}

length-name_text : (nm : Option Bytes) (s : Bytes) → length s ≤ length (name_text nm s)
length-name_text none s = omega arith
length-name_text (some n) s = omega (arith, length-append n s)

length-offers_text : (os : List Offer) (rest : Bytes) → length os ≤ length (offers_text os rest)
length-offers_text [] rest = omega arith
length-offers_text (o ∷ os) rest =
    let fields = prc ++ (o.price ++ (qty ++ (o.amount ++ offers_text os rest))) in
    omega (
      arith,
      length-offers_text os rest,
      length-name_text o.name fields,
      length-append o.price (qty ++ (o.amount ++ offers_text os rest)),
      length-append o.amount (offers_text os rest),
    )

at_nup-offers :
    (typ : ℕ) (head name after cnt rest : Bytes) (os : List Offer)
    → NoNul cnt
    → AreOffers typ head name os
    → xmemmem (0 ∷ rest) ety ≡ none
    → at_nup typ head (name ++ 0 ∷ after) (some (cnt ++ offers_text os (0 ∷ rest)))
      ≡ printed (lines_of typ head name os)
unfolding at_nup
at_nup-offers typ head name after cnt rest os hc he none' =
    let text = cnt ++ offers_text os (0 ∷ rest) in
    let enough : length os < suc (length text) =
      omega
        (arith, length-append cnt (offers_text os (0 ∷ rest)), length-offers_text os (0 ∷ rest)) in
    quotes-offers_text typ head (suc (length text)) name after cnt os rest enough hc he none'

-- Where the fields of a message are found, each entry behind the count goes out as a line, in order,
-- behind the stamp of the message and the prefix, with the instrument that it names, or else with
-- the last one named, which is the first of the message to begin with. The values hold no NUL, names
-- have four octets at least, nothing behind the entries looks like another, and the lines fit the
-- buffer.
pub route_quote-offers :
    (strptime : Bytes → Option (ℕ × Bytes)) (typ : ℕ)
    (msg prfx clock on name after cnt rest : Bytes) (s : ℕ) (os : List Offer)
    → field tim msg ≡ some clock
    → strptime clock ≡ some (s, on)
    → length (stamp_of s on prfx) ≤ 256
    → field ins msg ≡ some (name ++ 0 ∷ after)
    → field nup msg ≡ some (cnt ++ offers_text os (0 ∷ rest))
    → NoNul cnt
    → AreOffers typ (stamp_of s on prfx) name os
    → xmemmem (0 ∷ rest) ety ≡ none
    → route_quote strptime typ msg prfx ≡ printed (lines_of typ (stamp_of s on prfx) name os)
unfolding route_quote at_time at_stamp at_first head_of
route_quote-offers strptime typ msg prfx clock on name after cnt rest s os ht hs fits hi hu hc he
      none' =
    rw (ht, hs, in_room-fits (stamp_of s on prfx) _ fits, hi, hu)
      (at_nup-offers typ (stamp_of s on prfx) name after cnt rest os hc he none')
