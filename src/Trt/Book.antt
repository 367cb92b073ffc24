-- ===== src/Trt/Book.antt =====
-- The lines of a whole book of therocktrading.
use coins.Prelude.{
  append-nil, ℕ, suc, ◌+◌, ◌-◌, ◌≤◌, ◌≡◌, List, [], ◌∷◌, ◌++◌, true, false, Bytes, All, length,
  length-append, drop, ltb, ◌==◌, arith, ==_iff,
}
use coins.Libc.{codes}
use coins.Clock.{tvtostr}
use coins.Output.{Printed, printed, and_printed, in_room-fits, emit-printed}
use coins.Json.{Token, token, text_at, outside}
use coins.Trt.{get_tok, rows, bid_rows, ask_rows, ini_of, proc_obk}
use coins.Trt.Rows.{Row, IsRow, IsStop, tokens_of, lines_of, behind_rows, rows-tokens_of}

-- The stamp of the line, and the text of its last token.
abbrev pub start_of : ℕ → Bytes → List Token → ℕ → Bytes
start_of rt base arr ntok =
    tvtostr rt ++ b'\t' ∷ (text_at base (token arr (ntok - 1)) ++ b'\t' ∷ [])

-- One side: levels from token `j` on, within an array that ends at `n`.
pub record Side (base in2 : Bytes) (arr : List Token) (ntok n j : ℕ) (ls : List Row) : Type 0 where
  pub rest : List Token
  pub laid_out : drop j arr ≡ tokens_of ls rest
  pub levels : All (IsRow base in2 n) ls
  pub within : behind_rows j ls ≤ ntok
  pub stops : IsStop arr ntok n (behind_rows j ls)

length-behind_rows : (j : ℕ) (ls : List Row) → j + length ls ≤ behind_rows j ls
length-behind_rows j [] = omega arith
length-behind_rows j (l ∷ ls) = omega (arith, length-behind_rows (j + 5) ls)

rows-Side :
    (base in2 : Bytes) (arr : List Token) (ntok n : ℕ) (next : ℕ → Printed) (j : ℕ) (ls : List Row)
    → Side base in2 arr ntok n j ls
    → rows (suc ntok) base in2 arr ntok n next j
      ≡ and_printed (lines_of base in2 ls) (next (behind_rows j ls))
rows-Side base in2 arr ntok n next j ls side =
    rows-tokens_of (suc ntok) base in2 arr ntok n next j ls side.rest
      (let w = side.within in omega (arith, length-behind_rows j ls)) side.laid_out side.levels
      side.within side.stops

-- What is printed of a book: a line that clears the one before it, the asks, and the bids.
abbrev pub book_lines : Bytes → Bytes → List Row → List Row → List Bytes
book_lines base ini sa bs =
    (ini ++ codes "clr0\t\t\n")
    ∷ (lines_of base (ini ++ codes "ask2\t") sa ++ lines_of base (ini ++ codes "bid2\t") bs)

-- A book with its asks from token 7 on, and its bids behind them and two tokens more: the one
-- before it is cleared, then the asks go out in order, then the bids, each behind the stamp of the
-- line and the symbol. The last token but one names the channel, and the lines fit the buffer.
pub proc_obk-book :
    (hash : Bytes → ℕ) (rt : ℕ) (base : Bytes) (arr : List Token) (ntok : ℕ) (sa bs : List Row)
    → 2 ≤ ntok
    → get_tok hash base arr (ntok - 2) ≡ hash (codes "channel")
    → outside arr 6 ≡ false
    → outside arr (behind_rows 7 sa + 1) ≡ false
    → Side base (start_of rt base arr ntok ++ codes "ask2\t") arr ntok (token arr 6).end' 7 sa
    → Side base
        (start_of rt base arr ntok ++ codes "bid2\t")
        arr
        ntok
        (token arr (behind_rows 7 sa + 1)).end'
        (behind_rows 7 sa + 2)
        bs
    → length (start_of rt base arr ntok ++ codes "clr0\t\t\n") ≤ 256
    → proc_obk hash rt base arr ntok ≡ printed (book_lines base (start_of rt base arr ntok) sa bs)
unfolding proc_obk ask_rows bid_rows ini_of
proc_obk-book hash rt base arr ntok sa bs two chan six beyond asks bids fits =
    let ini = start_of rt base arr ntok in
    let enough : ltb ntok 2 ≡ false = ground arith in
    let named : (get_tok hash base arr (ntok - 2) == hash (codes "channel")) ≡ true =
      (==_iff (get_tok hash base arr (ntok - 2)) (hash (codes "channel"))).1 chan in
    let room : length ini ≤ 256 = omega (arith, length-append ini (codes "clr0\t\t\n")) in
    rw
      (
        enough,
        named,
        in_room-fits ini _ room,
        six,
        rows-Side base (ini ++ codes "ask2\t") arr ntok (token arr 6).end' _ 7 sa asks,
        beyond,
        rows-Side base (ini ++ codes "bid2\t") arr ntok (token arr (behind_rows 7 sa + 1)).end' _
            (behind_rows 7 sa + 2) bs bids,
      )
      (rw (append-nil (lines_of base (ini ++ codes "bid2\t") bs)) (
        emit-printed (ini ++ codes "clr0\t\t\n")
          (lines_of base (ini ++ codes "ask2\t") sa ++ lines_of base (ini ++ codes "bid2\t") bs)
          fits))
