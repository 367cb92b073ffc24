-- ===== src/Trt/Rows.antt =====
-- The levels of one side of a book as a list, and the lines for them.
use coins.Prelude.{
  ℕ, zero, suc, ◌+◌, ◌≤◌, ◌<◌, ◌≡◌, refl, sym, ap, ◌∙◌, List, [], ◌∷◌, ◌++◌, true, false, ◌&&◌,
  Bytes, All, length, drop, ltb, arith,
}
use coins.Output.{Printed, printed, fault, and_printed, in_room-fits, emit}
use coins.Json.{Token, token, text_at, outside}
use coins.Json.Levels.{no_text}
use coins.Trt.{rows, row_line}

-- A level: its object, and the names and texts of price and amount.
pub record Row : Type 0 where
  pub at : Token
  pub price_key : Token
  pub price : Token
  pub amount_key : Token
  pub amount : Token

abbrev pub tokens_of : List Row → List Token → List Token
tokens_of [] rest = rest
tokens_of (l ∷ ls) rest = l.at ∷ l.price_key ∷ l.price ∷ l.amount_key ∷ l.amount ∷ tokens_of ls rest

abbrev pub line_of : Bytes → Bytes → Row → Bytes
line_of base in2 l = in2 ++ (text_at base l.price ++ b'\t' ∷ (text_at base l.amount ++ b'\n' ∷ []))

abbrev pub lines_of : Bytes → Bytes → List Row → List Bytes
lines_of base in2 [] = []
lines_of base in2 (l ∷ ls) = line_of base in2 l ∷ lines_of base in2 ls

-- A level before `n`, whose line fits the buffer.
pub record IsRow (base in2 : Bytes) (n : ℕ) (l : Row) : Type 0 where
  pub inside : l.at.start < n
  pub priced : l.price.start ≤ l.price.end'
  pub sized : l.amount.start ≤ l.amount.end'
  pub fits : length (line_of base in2 l) ≤ 256

token-drop : (arr : List Token) (j k : ℕ) → token arr (j + k) ≡ token (drop j arr) k
token-drop arr zero k = ap (λ (i : ℕ). token arr i) (omega arith)
token-drop [] (suc j) zero = refl
token-drop [] (suc j) (suc k) = refl
token-drop (t ∷ arr) (suc j) k =
    let e : suc j + k ≡ suc (j + k) = omega arith in rw e (token-drop arr j k)

outside-drop : (arr : List Token) (j k : ℕ) → outside arr (j + k) ≡ outside (drop j arr) k
outside-drop arr zero k = ap (λ (i : ℕ). outside arr i) (omega arith)
outside-drop [] (suc j) k = refl
outside-drop (t ∷ arr) (suc j) k =
    let e : suc j + k ≡ suc (j + k) = omega arith in rw e (outside-drop arr j k)

drop-nil : (k : ℕ) → drop {A = Token} k [] ≡ []
drop-nil zero = refl
drop-nil (suc k) = refl

drop-drop : (arr : List Token) (j k : ℕ) → drop (j + k) arr ≡ drop k (drop j arr)
drop-drop arr zero k = ap (λ (i : ℕ). drop i arr) (omega arith)
drop-drop [] (suc j) k = let e : suc j + k ≡ suc (j + k) = omega arith in rw e (sym (drop-nil k))
drop-drop (t ∷ arr) (suc j) k =
    let e : suc j + k ≡ suc (j + k) = omega arith in rw e (drop-drop arr j k)

and_printed-nil : (r : Printed) → and_printed [] r ≡ r
and_printed-nil (printed lines) = refl
and_printed-nil fault = refl
and_printed-nil Printed.out_of_fuel = refl

emit-and_printed :
    (line : Bytes) (lines : List Bytes) (r : Printed)
    → length line ≤ 256
    → emit line (and_printed lines r) ≡ and_printed (line ∷ lines) r
unfolding emit
emit-and_printed line lines (printed more) h = in_room-fits line _ h
emit-and_printed line lines fault h = in_room-fits line _ h
emit-and_printed line lines Printed.out_of_fuel h = in_room-fits line _ h

-- Where the loop stops.
abbrev pub IsStop : List Token → ℕ → ℕ → ℕ → Type 0
IsStop arr ntok n j = (ltb j ntok && ltb (token arr j).start n) ≡ false

-- The place behind levels that start at `j`.
abbrev pub behind_rows : ℕ → List Row → ℕ
behind_rows j [] = j
behind_rows j (l ∷ ls) = behind_rows (j + 5) ls

behind_rows_le : (j : ℕ) (ls : List Row) → j ≤ behind_rows j ls
behind_rows_le j [] = omega arith
behind_rows_le j (l ∷ ls) = omega (arith, behind_rows_le (j + 5) ls)

not_stopped :
    (a b : ℕ) (t : Token) (n : ℕ) → a < b → t.start < n → (ltb a b && ltb t.start n) ≡ true
not_stopped a b t n h k = ground arith

has_text : (t : Token) → t.start ≤ t.end' → no_text t ≡ false
has_text t h = ground arith

-- Levels from token `j` on, and then a token at which the loop stops: a line for each, in order,
-- and what follows the loop.
pub rows-tokens_of :
    (fuel : ℕ) (base in2 : Bytes) (arr : List Token) (ntok n : ℕ) (next : ℕ → Printed) (j : ℕ)
    (ls : List Row) (rest : List Token)
    → length ls < fuel
    → drop j arr ≡ tokens_of ls rest
    → All (IsRow base in2 n) ls
    → behind_rows j ls ≤ ntok
    → IsStop arr ntok n (behind_rows j ls)
    → rows fuel base in2 arr ntok n next j
      ≡ and_printed (lines_of base in2 ls) (next (behind_rows j ls))
unfolding rows row_line
rows-tokens_of zero base in2 arr ntok n next j ls rest k e h b s = absurd (omega arith)
rows-tokens_of (suc fuel) base in2 arr ntok n next j [] rest k e h b s =
    rw s (sym (and_printed-nil (next j)))
rows-tokens_of (suc fuel) base in2 arr ntok n next j (l ∷ ls) rest k e h b s =
    let none_on : j + 0 ≡ j = omega arith in
    let at : token arr j ≡ l.at =
      sym (ap (λ (i : ℕ). token arr i) none_on)
      ∙ token-drop arr j 0
      ∙ ap (λ (s : List Token). token s 0) e in
    let price : token arr (j + 2) ≡ l.price =
      token-drop arr j 2 ∙ ap (λ (s : List Token). token s 2) e in
    let amount : token arr (j + 4) ≡ l.amount =
      token-drop arr j 4 ∙ ap (λ (s : List Token). token s 4) e in
    let there : outside arr (j + 4) ≡ false =
      outside-drop arr j 4 ∙ ap (λ (s : List Token). outside s 4) e in
    let behind : drop (j + 5) arr ≡ tokens_of ls rest =
      drop-drop arr j 5 ∙ ap (λ (s : List Token). drop 5 s) e in
    let below : j < ntok = omega (arith, behind_rows_le (j + 5) ls) in
    rw
      (
        at,
        price,
        amount,
        not_stopped j ntok l.at n below h.0.inside,
        there,
        has_text l.price h.0.priced,
        has_text l.amount h.0.sized,
        rows-tokens_of fuel base in2 arr ntok n next (j + 5) ls rest (omega arith) behind h.1 b s,
      )
      (emit-and_printed (line_of base in2 l) (lines_of base in2 ls) (next (behind_rows (j + 5) ls))
        h.0.fits)
