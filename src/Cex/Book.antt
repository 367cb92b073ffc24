-- ===== src/Cex/Book.antt =====
-- The book of a line of cex, and what is printed where a part of it is missing.
use coins.Prelude.{
  [], ◌∷◌, ℕ, ◌≤◌, ◌<◌, ◌≡◌, ◌≢◌, refl, none, some, List, ◌++◌, Bool, true, false, Bytes, All,
  length, leb, ◌==◌, if◌then◌else◌, arith,
}
use coins.Libc.{codes}
use coins.Clock.{tvtostr, not_a_time}
use coins.Output.{both, printed, fault, in_room-fits}
use coins.Json.{text_at, Token, token, outside}
use coins.Json.Levels.{Level, IsLevel, lines_of, Side, one_side-Side}
use coins.Cex.{Scan, scanned, missing, ini_of, print_book, finished, on_scanned}

-- A book of which the scan has found all parts in the line, in the finished array.
pub record IsBook (rt r : ℕ) (base : Bytes) (arr : List Token) (s : Scan) (bs sa : List Level)
    : Type 0 where
  pub pair : ℕ
  pub bids : ℕ
  pub asks : ℕ
  pub has_pair : s.pair ≡ some pair
  pub has_bids : s.bids ≡ some bids
  pub has_asks : s.asks ≡ some asks
  pub pair_before : pair < r
  pub bids_before : bids < r
  pub asks_before : asks < r
  pub timely : s.xt ≢ not_a_time
  pub bid_side : Side (token (finished arr r) bids).end' (finished arr r) bids bs
  pub ask_side : Side (token (finished arr r) asks).end' (finished arr r) asks sa

abbrev pub start_of : ℕ → ℕ → Bytes → List Token → Scan → ℕ → Bytes
start_of rt r base arr s pair =
    tvtostr s.xt
    ++ b'\t' ∷ (tvtostr rt ++ b'\t' ∷ (text_at base (token (finished arr r) pair) ++ b'\t' ∷ []))

abbrev AreLevels : Bytes → Bytes → ℕ → List Level → Type 0
AreLevels base ini eo ls = All (IsLevel base ini ini eo) ls

beyond : (n r : ℕ) → n < r → leb r n ≡ false
beyond n r h = ground arith

-- Where the scan has found the parts of a book, the bids go out in order, then the asks in order,
-- each line behind the stamp of the exchange, that of the log, the pair and the side. The lines fit
-- the buffer, and the array has room for the finaliser.
pub on_scanned-book :
    (rt r : ℕ) (base : Bytes) (arr : List Token) (s : Scan) (bs sa : List Level)
    → (book : IsBook rt r base arr s bs sa) → outside arr r ≡ false
    → AreLevels base
        (start_of rt r base arr s book.pair ++ codes "B2\t")
        (token (finished arr r) book.bids).end'
        bs
    → AreLevels base
        (start_of rt r base arr s book.pair ++ codes "A2\t")
        (token (finished arr r) book.asks).end'
        sa
    → length (start_of rt r base arr s book.pair ++ codes "B2\t") ≤ 256
    → on_scanned rt base arr r (scanned s)
      ≡ printed (
          lines_of base
            (start_of rt r base arr s book.pair ++ codes "B2\t")
            (start_of rt r base arr s book.pair ++ codes "B2\t")
            bs
          ++ lines_of base
              (start_of rt r base arr s book.pair ++ codes "A2\t")
              (start_of rt r base arr s book.pair ++ codes "A2\t")
              sa)
unfolding on_scanned print_book both ini_of
on_scanned-book rt r base arr s bs sa book inside hb ha fits =
    let ini = start_of rt r base arr s book.pair in
    let time : (s.xt == not_a_time) ≡ false = let t = book.timely in ground arith in
    rw
      (
        book.has_pair,
        book.has_bids,
        book.has_asks,
        beyond book.pair r book.pair_before,
        beyond book.bids r book.bids_before,
        beyond book.asks r book.asks_before,
        time,
        inside,
        in_room-fits (ini ++ codes "B2\t") _ fits,
        one_side-Side base (ini ++ codes "B2\t") (ini ++ codes "B2\t")
            (token (finished arr r) book.bids).end' (finished arr r) book.bids bs book.bid_side hb,
        one_side-Side base (ini ++ codes "A2\t") (ini ++ codes "A2\t")
            (token (finished arr r) book.asks).end' (finished arr r) book.asks sa book.ask_side ha,
      )
      refl

-- Where the line has no pair, the test for all parts passes, and the token in front of the array is
-- read.
pub on_scanned-lacks :
    (rt r : ℕ) (base : Bytes) (arr : List Token) (s : Scan)
    → s.pair ≡ none
    → missing r s.bids ≡ false
    → missing r s.asks ≡ false
    → s.xt ≢ not_a_time
    → on_scanned rt base arr r (scanned s) ≡ fault
unfolding on_scanned print_book
on_scanned-lacks rt r base arr s e b a timely =
    let time : (s.xt == not_a_time) ≡ false = ground arith in
    rw (e, b, a, time) (either-fault (outside arr r))
  where
    either-fault : (c : Bool) → (if c then fault else fault) ≡ fault
    either-fault true = refl
    either-fault false = refl
