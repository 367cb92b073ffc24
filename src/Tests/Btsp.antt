-- ===== src/Tests/Btsp.antt =====
-- A line of bitstamp with a whole book.
use coins.Prelude.{
  ℕ, ◌+◌, ◌*◌, ◌≡◌, ◌≤◌, ◌<◌, refl, Option, some, List, [], ◌∷◌, ◌++◌, Bytes, All, length, drop,
  true, arith,
}
use coins.Libc.{codes, ulong_max}
use coins.Clock.{tvtostr, strtotv}
use coins.Output.{printed, Prints}
use coins.Json.{Kind, Token, token, is_array, copied}
use coins.Json.Levels.{level_line, Level, IsLevel, Side}
use coins.Btsp.{Chan, Ins, Beef, no_beef, filled, fill, Sides, Found, find_sides, on_beef, procln}
use coins.Btsp.Book.{whole, first_start, later_start, book_lines, on_beef-book}
use coins.Btsp.Ends.{IsSideLine, procln-IsSideLine}

abbrev tok : Kind → ℕ → ℕ → Token
tok k start last = record { typ = k; start = start; end' = last; size = 0 }

abbrev base : Bytes
base =
    codes
      "{\"event\":\"data\",\"channel\":\"order_book_btceur\",\"data\":{\"bids\":[[\"1\",\"2\"],[\"3\",\"4\"]],\"asks\":[[\"5\",\"6\"]]}}\n"

abbrev tokens : List Token
tokens =
    tok Kind.object 0 103
    ∷ tok Kind.string 2 7
    ∷ tok Kind.string 10 14
    ∷ tok Kind.string 17 24
    ∷ tok Kind.string 27 44
    ∷ tok Kind.string 47 51
    ∷ tok Kind.object 53 102
    ∷ tok Kind.string 55 59
    ∷ tok Kind.array 61 82
    ∷ tok Kind.array 62 71
    ∷ tok Kind.string 64 65
    ∷ tok Kind.string 68 69
    ∷ tok Kind.array 72 81
    ∷ tok Kind.string 74 75
    ∷ tok Kind.string 78 79
    ∷ tok Kind.string 84 88
    ∷ tok Kind.array 90 101
    ∷ tok Kind.array 91 100
    ∷ tok Kind.string 93 94
    ∷ tok Kind.string 97 98
    ∷ []

abbrev stale : List Token
stale = tok Kind.undefined 0 0 ∷ tok Kind.undefined 0 0 ∷ []

-- With the finaliser.
abbrev arr : List Token
arr = tokens ++ tok Kind.undefined ulong_max 0 ∷ tok Kind.undefined 0 0 ∷ []

-- A hash that tells texts apart.
abbrev hash : Bytes → ℕ
hash [] = 1
hash (c ∷ s) = c + 256 * hash s

abbrev beef : Beef
beef = record { ch = Chan.chan_book; ins = Ins.ins_btceur; dbeg = 7; dend = 102 }

fills : fill 21 hash base arr 20 1 no_beef ≡ filled beef
unfolding fill no_beef copied
fills = refl

abbrev sides : Sides
sides = record { bid = 8; eob = 82; ask = 16; eoa = 101 }

finds :
    find_sides 23 hash base arr 102 7 (record { bid = 0; eob = 0; ask = 0; eoa = 0 })
    ≡ Found.found sides
unfolding find_sides copied
finds = refl

abbrev level : ℕ → ℕ → ℕ → Level
level i p q = record { at = token tokens i; price = token tokens p; amount = token tokens q }

abbrev bids : List Level
bids = level 9 10 11 ∷ level 12 13 14 ∷ []

abbrev asks : List Level
asks = level 17 18 19 ∷ []

abbrev bid_side : Side 82 arr 8 bids
bid_side = record { stop = token arr 15; rest = drop 16 arr; laid_out = refl; ended = omega arith }

abbrev ask_side : Side 101 arr 16 asks
ask_side = record { stop = token arr 20; rest = drop 21 arr; laid_out = refl; ended = omega arith }

a_level :
    (i p q eo : ℕ) (ini later : Bytes)
    → is_array (token tokens i).typ ≡ true
    → (token tokens i).start < eo
    → (token tokens p).start ≤ (token tokens p).end'
    → (token tokens q).start ≤ (token tokens q).end'
    → length (level_line base ini (token tokens p) (token tokens q)) ≤ 256
    → length (level_line base later (token tokens p) (token tokens q)) ≤ 256
    → IsLevel base ini later eo (level i p q)
a_level i p q eo ini later a b c d e f = record {
  arrayed = a;
  inside = b;
  priced = c;
  sized = d;
  fits = e;
  fits_later = f;
}

bid_levels :
    All (IsLevel base (first_start 2000000000 beef b'B') (later_start 2000000000 beef b'B') 82) bids
unfolding tvtostr copied
bid_levels = (
  a_level 9 10 11 82 (first_start 2000000000 beef b'B') (later_start 2000000000 beef b'B') refl
      (omega arith) (omega arith) (omega arith) (omega arith) (omega arith),
  (
    a_level 12 13 14 82 (first_start 2000000000 beef b'B') (later_start 2000000000 beef b'B') refl
        (omega arith) (omega arith) (omega arith) (omega arith) (omega arith),
    tt,
  ),
)

ask_levels :
    All
      (IsLevel base (first_start 2000000000 beef b'A') (later_start 2000000000 beef b'A') 101)
      asks
unfolding tvtostr copied
ask_levels = (
  a_level 17 18 19 101 (first_start 2000000000 beef b'A') (later_start 2000000000 beef b'A') refl
      (omega arith) (omega arith) (omega arith) (omega arith) (omega arith),
  tt,
)

on_beef-book_example :
    on_beef hash 2000000000 base arr (filled beef)
    ≡ printed (book_lines 2000000000 base beef bids asks)
on_beef-book_example =
    on_beef-book hash 2000000000 base arr beef sides bids asks whole finds bid_side ask_side
      bid_levels ask_levels

abbrev parsed : Bytes → Option (List Token)
parsed s = some tokens

abbrev line : Bytes
line = codes "2.000000000\t" ++ base

printed_whole :
    procln hash parsed stale line
    ≡ printed (
        codes "2.000000000\tBTCEUR\tB1\t1\t2\n"
        ∷ codes "2.000000000\tBTCEUR\tB2\t3\t4\n"
        ∷ codes "2.000000000\tBTCEUR\tA1\t5\t6\n"
        ∷ [])
unfolding procln copied
printed_whole = refl

procln-IsSideLine_example : Prints (IsSideLine (strtotv line).0) (procln hash parsed stale line)
procln-IsSideLine_example = procln-IsSideLine hash parsed stale line
