-- ===== src/Tests/Cex.antt =====
-- A line of cex with a book.
use coins.Prelude.{
  ℕ, ◌+◌, ◌*◌, ◌≡◌, ◌≢◌, ◌≤◌, ◌<◌, refl, Option, some, List, [], ◌∷◌, ◌++◌, Bytes, All, length,
  drop, true, arith,
}
use coins.Libc.{codes}
use coins.Clock.{tvtostr, strtotv, not_a_time}
use coins.Output.{printed, Prints}
use coins.Json.{is_array, copied, Kind, Token, token}
use coins.Json.Levels.{level_line, Level, IsLevel, lines_of}
use coins.Cex.{outran, Scan, nothing_yet, scanned, scan, finished, on_scanned, procln}
use coins.Cex.Book.{IsBook, start_of, on_scanned-book}
use coins.Cex.Ends.{IsBookLine, procln-IsBookLine}

abbrev tok : Kind → ℕ → ℕ → Token
tok k start last = record { typ = k; start = start; end' = last; size = 0 }

abbrev base : Bytes
base =
    codes
      "{\"e\":\"md\",\"data\":{\"time\":1500,\"pair\":\"BTC:USD\",\"bids\":[[1,2],[3,4]],\"asks\":[[5,6]]}}\n"

abbrev tokens : List Token
tokens =
    tok Kind.object 0 84
    ∷ tok Kind.string 2 3
    ∷ tok Kind.string 6 8
    ∷ tok Kind.string 11 15
    ∷ tok Kind.object 17 83
    ∷ tok Kind.string 19 23
    ∷ tok Kind.primitive 25 29
    ∷ tok Kind.string 31 35
    ∷ tok Kind.string 38 45
    ∷ tok Kind.string 48 52
    ∷ tok Kind.array 54 67
    ∷ tok Kind.array 55 60
    ∷ tok Kind.primitive 56 57
    ∷ tok Kind.primitive 58 59
    ∷ tok Kind.array 61 66
    ∷ tok Kind.primitive 62 63
    ∷ tok Kind.primitive 64 65
    ∷ tok Kind.string 69 73
    ∷ tok Kind.array 75 82
    ∷ tok Kind.array 76 81
    ∷ tok Kind.primitive 77 78
    ∷ tok Kind.primitive 79 80
    ∷ []

-- What an earlier line has left.
abbrev stale : List Token
stale = tok Kind.primitive 90 91 ∷ tok Kind.primitive 5 6 ∷ []

abbrev arr : List Token
arr = tokens ++ stale

abbrev found : Scan
found = record { xt = 1500000000; pair = some 8; bids = some 10; asks = some 18 }

-- A hash that tells texts apart.
abbrev hash : Bytes → ℕ
hash [] = 1
hash (c ∷ s) = c + 256 * hash s

scans : scan 23 hash base arr 22 5 nothing_yet ≡ scanned found
unfolding scan nothing_yet copied
scans = refl

-- Where what an earlier line has left does not start behind the last array, the scan leaves the
-- array of tokens.
abbrev zeros : List Token
zeros = tok Kind.undefined 0 0 ∷ tok Kind.undefined 0 0 ∷ []

runs_out : scan 23 hash base (tokens ++ zeros) 22 5 nothing_yet ≡ outran
unfolding scan nothing_yet copied
runs_out = refl

abbrev level : ℕ → ℕ → ℕ → Level
level i p q = record { at = token tokens i; price = token tokens p; amount = token tokens q }

abbrev bids : List Level
bids = level 11 12 13 ∷ level 14 15 16 ∷ []

abbrev asks : List Level
asks = level 19 20 21 ∷ []

in_time : 1500000000 ≢ not_a_time
in_time = ground arith

abbrev book : IsBook 2000000000 22 base arr found bids asks
book = record {
  pair = 8;
  bids = 10;
  asks = 18;
  has_pair = refl;
  has_bids = refl;
  has_asks = refl;
  pair_before = omega arith;
  bids_before = omega arith;
  asks_before = omega arith;
  timely = in_time;
  bid_side = record {
    stop = token (finished arr 22) 17;
    rest = drop 18 (finished arr 22);
    laid_out = refl;
    ended = omega arith;
  };
  ask_side = record {
    stop = token (finished arr 22) 22;
    rest = drop 23 (finished arr 22);
    laid_out = refl;
    ended = omega arith;
  };
}

abbrev start : Bytes
start = start_of 2000000000 22 base arr found 8

start_text : start ≡ codes "1.500000000\t2.000000000\tBTC:USD\t"
unfolding tvtostr copied
start_text = refl

abbrev LevelOf : Level → Bytes → ℕ → Type 0
LevelOf l ini eo = IsLevel base ini ini eo l

a_level :
    (i p q eo : ℕ) (ini : Bytes)
    → is_array (token tokens i).typ ≡ true
    → (token tokens i).start < eo
    → (token tokens p).start ≤ (token tokens p).end'
    → (token tokens q).start ≤ (token tokens q).end'
    → length (level_line base ini (token tokens p) (token tokens q)) ≤ 256
    → LevelOf (level i p q) ini eo
a_level i p q eo ini a b c d e = record {
  arrayed = a;
  inside = b;
  priced = c;
  sized = d;
  fits = e;
  fits_later = e;
}

bid_levels : All (IsLevel base (start ++ codes "B2\t") (start ++ codes "B2\t") 67) bids
unfolding tvtostr copied
bid_levels = (
  a_level 11 12 13 67 (start ++ codes "B2\t") refl (omega arith) (omega arith) (omega arith)
      (omega arith),
  (
    a_level 14 15 16 67 (start ++ codes "B2\t") refl (omega arith) (omega arith) (omega arith)
        (omega arith),
    tt,
  ),
)

ask_levels : All (IsLevel base (start ++ codes "A2\t") (start ++ codes "A2\t") 82) asks
unfolding tvtostr copied
ask_levels = (
  a_level 19 20 21 82 (start ++ codes "A2\t") refl (omega arith) (omega arith) (omega arith)
      (omega arith),
  tt,
)

fits : length (start ++ codes "B2\t") ≤ 256
unfolding tvtostr copied
fits = omega arith

on_scanned-book_example :
    on_scanned 2000000000 base arr 22 (scanned found)
    ≡ printed (
        lines_of base (start ++ codes "B2\t") (start ++ codes "B2\t") bids
        ++ lines_of base (start ++ codes "A2\t") (start ++ codes "A2\t") asks)
on_scanned-book_example =
    on_scanned-book 2000000000 22 base arr found bids asks book refl bid_levels ask_levels fits

abbrev parsed : Bytes → Option (List Token)
parsed s = some tokens

abbrev line : Bytes
line = codes "2.000000000\t" ++ base

procln-IsBookLine_example : Prints (IsBookLine (strtotv line).0) (procln hash parsed stale line)
procln-IsBookLine_example = procln-IsBookLine hash parsed stale line

whole :
    procln hash parsed stale line
    ≡ printed (
        codes "1.500000000\t2.000000000\tBTC:USD\tB2\t1\t2\n"
        ∷ codes "1.500000000\t2.000000000\tBTC:USD\tB2\t3\t4\n"
        ∷ codes "1.500000000\t2.000000000\tBTC:USD\tA2\t5\t6\n"
        ∷ [])
unfolding procln copied
whole = refl
