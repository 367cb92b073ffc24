-- ===== src/Tests/Trt.antt =====
-- Lines of therocktrading with a whole book, and with a change.
use coins.Prelude.{
  ℕ, ◌+◌, ◌*◌, ◌≡◌, ◌≤◌, ◌<◌, refl, Option, some, List, [], ◌∷◌, ◌++◌, Bytes, All, length, drop,
  arith,
}
use coins.Libc.{codes}
use coins.Clock.{tvtostr}
use coins.Output.{printed}
use coins.Json.{Kind, Token, token, copied}
use coins.Trt.{get_tok, proc_obk, procln}
use coins.Trt.Rows.{Row, IsRow, line_of}
use coins.Trt.Book.{Side, start_of, book_lines, proc_obk-book}

abbrev tok : Kind → ℕ → ℕ → Token
tok k start last = record { typ = k; start = start; end' = last; size = 0 }

abbrev base : Bytes
base =
    codes
      "{\"event\":\"orderbook\",\"data\":{\"asks\":[{\"price\":1,\"amount\":2}],\"bids\":[{\"price\":3,\"amount\":4},{\"price\":5,\"amount\":6}]},\"channel\":\"BTCEUR\"}\n"

abbrev tokens : List Token
tokens =
    tok Kind.object 0 136
    ∷ tok Kind.string 2 7
    ∷ tok Kind.string 10 19
    ∷ tok Kind.string 22 26
    ∷ tok Kind.object 28 116
    ∷ tok Kind.string 30 34
    ∷ tok Kind.array 36 60
    ∷ tok Kind.object 37 59
    ∷ tok Kind.string 39 44
    ∷ tok Kind.primitive 46 47
    ∷ tok Kind.string 49 55
    ∷ tok Kind.primitive 57 58
    ∷ tok Kind.string 62 66
    ∷ tok Kind.array 68 115
    ∷ tok Kind.object 69 91
    ∷ tok Kind.string 71 76
    ∷ tok Kind.primitive 78 79
    ∷ tok Kind.string 81 87
    ∷ tok Kind.primitive 89 90
    ∷ tok Kind.object 92 114
    ∷ tok Kind.string 94 99
    ∷ tok Kind.primitive 101 102
    ∷ tok Kind.string 104 110
    ∷ tok Kind.primitive 112 113
    ∷ tok Kind.string 118 125
    ∷ tok Kind.string 128 134
    ∷ []

-- A hash that tells texts apart.
abbrev hash : Bytes → ℕ
hash [] = 1
hash (c ∷ s) = c + 256 * hash s

abbrev row : ℕ → Row
row i = record {
  at = token tokens i;
  price_key = token tokens (i + 1);
  price = token tokens (i + 2);
  amount_key = token tokens (i + 3);
  amount = token tokens (i + 4);
}

abbrev asks : List Row
asks = row 7 ∷ []

abbrev bids : List Row
bids = row 14 ∷ row 19 ∷ []

abbrev start : Bytes
start = start_of 2000000000 base tokens 26

a_row :
    (i n : ℕ) (in2 : Bytes)
    → (row i).at.start < n
    → (row i).price.start ≤ (row i).price.end'
    → (row i).amount.start ≤ (row i).amount.end'
    → length (line_of base in2 (row i)) ≤ 256
    → IsRow base in2 n (row i)
a_row i n in2 a b c d = record { inside = a; priced = b; sized = c; fits = d }

ask_levels : All (IsRow base (start ++ codes "ask2\t") (token tokens 6).end') asks
unfolding tvtostr copied
ask_levels = (
  a_row 7 (token tokens 6).end' (start ++ codes "ask2\t") (omega arith) (omega arith) (omega arith)
      (omega arith),
  tt,
)

bid_levels : All (IsRow base (start ++ codes "bid2\t") (token tokens 13).end') bids
unfolding tvtostr copied
bid_levels = (
  a_row 14 (token tokens 13).end' (start ++ codes "bid2\t") (omega arith) (omega arith)
      (omega arith) (omega arith),
  (
    a_row 19 (token tokens 13).end' (start ++ codes "bid2\t") (omega arith) (omega arith)
        (omega arith) (omega arith),
    tt,
  ),
)

ask_side : Side base (start ++ codes "ask2\t") tokens 26 (token tokens 6).end' 7 asks
ask_side = record {
  rest = drop 12 tokens;
  laid_out = refl;
  levels = ask_levels;
  within = omega arith;
  stops = refl;
}

bid_side : Side base (start ++ codes "bid2\t") tokens 26 (token tokens 13).end' 14 bids
bid_side = record {
  rest = drop 24 tokens;
  laid_out = refl;
  levels = bid_levels;
  within = omega arith;
  stops = refl;
}

on_channel : get_tok hash base tokens 24 ≡ hash (codes "channel")
unfolding copied
on_channel = refl

fits : length (start ++ codes "clr0\t\t\n") ≤ 256
unfolding tvtostr copied
fits = omega arith

proc_obk-book_example :
    proc_obk hash 2000000000 base tokens 26 ≡ printed (book_lines base start asks bids)
proc_obk-book_example =
    proc_obk-book hash 2000000000 base tokens 26 asks bids (omega arith) on_channel refl refl
      ask_side bid_side fits

abbrev parsed : Bytes → Option (List Token)
parsed s = some tokens

whole :
    procln hash parsed [] (codes "2.000000000\t" ++ base)
    ≡ printed (
        codes "2.000000000\tBTCEUR\tclr0\t\t\n"
        ∷ codes "2.000000000\tBTCEUR\task2\t1\t2\n"
        ∷ codes "2.000000000\tBTCEUR\tbid2\t3\t4\n"
        ∷ codes "2.000000000\tBTCEUR\tbid2\t5\t6\n"
        ∷ [])
unfolding procln copied
whole = refl

abbrev diff : Bytes
diff =
    codes
      "{\"event\":\"orderbook_diff\",\"data\":{\"side\":\"bid\",\"price\":7,\"amount\":8},\"channel\":\"BTCEUR\"}\n"

abbrev diff_tokens : List Token
diff_tokens =
    tok Kind.object 0 88
    ∷ tok Kind.string 2 7
    ∷ tok Kind.string 10 24
    ∷ tok Kind.string 27 31
    ∷ tok Kind.object 33 68
    ∷ tok Kind.string 35 39
    ∷ tok Kind.string 42 45
    ∷ tok Kind.string 48 53
    ∷ tok Kind.primitive 55 56
    ∷ tok Kind.string 58 64
    ∷ tok Kind.primitive 66 67
    ∷ tok Kind.string 70 77
    ∷ tok Kind.string 80 86
    ∷ []

change :
    procln hash (λ s. some diff_tokens) [] (codes "2.000000000\t" ++ diff)
    ≡ printed (codes "2.000000000\tBTCEUR\tbid2\t7\t8\n" ∷ [])
unfolding procln copied
change = refl
