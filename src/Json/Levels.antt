-- ===== src/Json/Levels.antt =====
-- The loop of the converters over an array of levels, each an array of a price and a quantity, and
-- the lines that it prints (src/cex2b.c and src/btsp2b.c).
use coins.Prelude.{
  ℕ, zero, suc, ◌+◌, ◌≤◌, ◌<◌, ◌≡◌, refl, List, [], ◌∷◌, ◌++◌, Bool, true, false, not, ◌||◌, Bytes,
  All, length, length-drop, drop, ltb, if◌then◌else◌, arith, sym, ap, ◌∙◌, append_assoc,
}
use coins.Json.{Token, token, is_array, text_at, outside}
use coins.Output.{
  Printed, printed, fault, out_of_fuel, emit, emit-printed, Prints, IsLine, either-Prints,
  emit-Prints,
}

-- A level's line: the texts of two tokens behind `ini`.
abbrev pub level_line : Bytes → Bytes → Token → Token → Bytes
level_line base ini p q = ini ++ (text_at base p ++ b'\t' ∷ (text_at base q ++ b'\n' ∷ []))

-- A token that ends before it starts is none: its text runs out of the line.
abbrev pub no_text : Token → Bool
no_text t = ltb t.end' t.start

-- From the tokens given on, up to one that starts at `eo` or behind it; what is no array is passed
-- over. The first line starts with `ini`, and those behind it with `later`. Each round goes on by a
-- token at least, so that the count of tokens is fuel enough.
unfoldable pub levels : ℕ → Bytes → Bytes → Bytes → ℕ → List Token → Printed
unfolding emit
levels zero base ini later eo toks = out_of_fuel
levels (suc fuel) base ini later eo toks =
    let t = token toks 0 in
    let p = token toks 1 in
    let q = token toks 2 in
    let ini' = if is_array t.typ then later else ini in
    let more = levels fuel base ini' later eo (drop (if is_array t.typ then 3 else 1) toks) in
    if outside toks 0
    then fault
    else if not (ltb t.start eo)
    then printed []
    else if not (is_array t.typ)
    then more
    else if outside toks 2 || (no_text p || no_text q)
    then fault
    else emit (level_line base ini p q) more

-- One side of a book, whose array is at `i` and ends at `eo`.
unfoldable pub one_side : Bytes → Bytes → Bytes → ℕ → List Token → ℕ → Printed
unfolding levels
one_side base ini later eo arr i = levels (suc (length arr)) base ini later eo (drop (i + 1) arr)

-- A level in the array: its own token, and those of its price and its quantity.
pub record Level : Type 0 where
  pub at : Token
  pub price : Token
  pub amount : Token

abbrev pub tokens_of : List Level → List Token → List Token
tokens_of [] rest = rest
tokens_of (l ∷ ls) rest = l.at ∷ l.price ∷ l.amount ∷ tokens_of ls rest

-- Its line: the texts of price and quantity.
abbrev pub line_of : Bytes → Bytes → Level → Bytes
line_of base ini l = ini ++ (text_at base l.price ++ b'\t' ∷ (text_at base l.amount ++ b'\n' ∷ []))

abbrev pub lines_of : Bytes → Bytes → Bytes → List Level → List Bytes
lines_of base ini later [] = []
lines_of base ini later (l ∷ ls) = line_of base ini l ∷ lines_of base later later ls

-- A level before `eo`, whose line fits the buffer behind either start.
pub record IsLevel (base ini later : Bytes) (eo : ℕ) (l : Level) : Type 0 where
  pub arrayed : is_array l.at.typ ≡ true
  pub inside : l.at.start < eo
  pub priced : l.price.start ≤ l.price.end'
  pub sized : l.amount.start ≤ l.amount.end'
  pub fits : length (line_of base ini l) ≤ 256
  pub fits_later : length (line_of base later l) ≤ 256

IsLevel-later :
    (base ini later : Bytes) (eo : ℕ) (l : Level)
    → IsLevel base ini later eo l
    → IsLevel base later later eo l
IsLevel-later base ini later eo l h = record {
  arrayed = h.arrayed;
  inside = h.inside;
  priced = h.priced;
  sized = h.sized;
  fits = h.fits_later;
  fits_later = h.fits_later;
}

All-later :
    (base ini later : Bytes) (eo : ℕ) (ls : List Level)
    → All (IsLevel base ini later eo) ls
    → All (IsLevel base later later eo) ls
All-later base ini later eo [] h = tt
All-later base ini later eo (l ∷ ls) h =
    (IsLevel-later base ini later eo l h.0, All-later base ini later eo ls h.1)

-- Levels in an array, up to a token behind it: a line for each, in order.
pub levels-tokens_of :
    (fuel : ℕ) (base ini later : Bytes) (eo : ℕ) (ls : List Level) (stop : Token)
    (rest : List Token)
    → length ls < fuel
    → All (IsLevel base ini later eo) ls
    → eo ≤ stop.start
    → levels fuel base ini later eo (tokens_of ls (stop ∷ rest))
      ≡ printed (lines_of base ini later ls)
unfolding levels
levels-tokens_of zero base ini later eo ls stop rest k h e = absurd (omega arith)
levels-tokens_of (suc fuel) base ini later eo [] stop rest k h e =
    let behind : ltb stop.start eo ≡ false = ground arith in rw behind refl
levels-tokens_of (suc fuel) base ini later eo (l ∷ ls) stop rest k h e =
    let inside : ltb l.at.start eo ≡ true = let v = h.0.inside in ground arith in
    let price : ltb l.price.end' l.price.start ≡ false = let v = h.0.priced in ground arith in
    let amount : ltb l.amount.end' l.amount.start ≡ false = let v = h.0.sized in ground arith in
    rw
      (
        h.0.arrayed,
        inside,
        price,
        amount,
        levels-tokens_of fuel base later later eo ls stop rest (omega arith)
            (All-later base ini later eo ls h.1) e,
      )
      (emit-printed (line_of base ini l) (lines_of base later later ls) h.0.fits)

-- The levels in an array at `i`, up to a token that starts at `eo` or behind it.
pub record Side (eo : ℕ) (arr : List Token) (i : ℕ) (ls : List Level) : Type 0 where
  pub stop : Token
  pub rest : List Token
  pub laid_out : drop (i + 1) arr ≡ tokens_of ls (stop ∷ rest)
  pub ended : eo ≤ stop.start

length-tokens_of : (ls : List Level) (rest : List Token) → length ls ≤ length (tokens_of ls rest)
length-tokens_of [] rest = omega arith
length-tokens_of (l ∷ ls) rest = omega (arith, length-tokens_of ls rest)

pub one_side-Side :
    (base ini later : Bytes) (eo : ℕ) (arr : List Token) (i : ℕ) (ls : List Level)
    → Side eo arr i ls
    → All (IsLevel base ini later eo) ls
    → one_side base ini later eo arr i ≡ printed (lines_of base ini later ls)
unfolding one_side
one_side-Side base ini later eo arr i ls side h =
    let enough : length ls < suc (length arr) = omega (
      arith,
      length-drop (i + 1) arr,
      ap length side.laid_out,
      length-tokens_of ls (side.stop ∷ side.rest),
    ) in
    rw side.laid_out (
      levels-tokens_of (suc (length arr)) base ini later eo ls side.stop side.rest enough h
        side.ended)

module _ (base head : Bytes) (eo : ℕ) where
  level_line_shape :
      (ini : Bytes) (p q : Token)
      → length (level_line base (head ++ ini) p q) ≤ 256
      → IsLine head (level_line base (head ++ ini) p q)
  level_line_shape ini p q fits =
      let a = text_at base p in
      let b = text_at base q in
      let shape : level_line base (head ++ ini) p q
          ≡ head ++ ((ini ++ (a ++ b'\t' ∷ b)) ++ b'\n' ∷ []) =
        append_assoc head ini (a ++ b'\t' ∷ (b ++ b'\n' ∷ []))
        ∙ ap (λ (s : Bytes). head ++ s)
            (sym (
              append_assoc ini (a ++ b'\t' ∷ b) (b'\n' ∷ [])
              ∙ ap (λ (s : Bytes). ini ++ s) (append_assoc a (b'\t' ∷ b) (b'\n' ∷ [])))) in
      (ini ++ (a ++ b'\t' ∷ b), shape, fits)

  rest-Prints :
      (fuel : ℕ) (ini later : Bytes) (t : Token) (toks : List Token) (b : Bool)
      → ((i : Bytes) (rest : List Token)
          → length rest < fuel
          → Prints (IsLine head) (levels fuel base (head ++ i) (head ++ later) eo rest))
      → length toks < fuel
      → Prints (IsLine head) (
          levels fuel base
            (if b then head ++ later else head ++ ini)
            (head ++ later)
            eo
            (drop (if b then 3 else 1) (t ∷ toks)))
  rest-Prints fuel ini later t toks true h k =
      h later (drop 2 toks) (omega (arith, length-drop 2 toks))
  rest-Prints fuel ini later t toks false h k = h ini toks k

  -- Whatever the tokens are, the loop ends, and it prints lines behind one start.
  pub levels-Prints :
      (fuel : ℕ) (ini later : Bytes) (toks : List Token)
      → length toks < fuel
      → Prints (IsLine head) (levels fuel base (head ++ ini) (head ++ later) eo toks)
  unfolding levels
  levels-Prints zero ini later toks k = absurd (omega arith)
  levels-Prints (suc fuel) ini later [] k = tt
  levels-Prints (suc fuel) ini later (t ∷ toks) k =
      let p = token toks 0 in
      let q = token toks 1 in
      let more =
        rest-Prints fuel ini later t toks (is_array t.typ)
          (λ i rest h. levels-Prints fuel i later rest h) (omega arith) in
      either-Prints (IsLine head) (not (ltb t.start eo)) _ _ tt (
        either-Prints (IsLine head) (not (is_array t.typ)) _ _ more (
          either-Prints (IsLine head) (outside toks 1 || (no_text p || no_text q)) _ _ tt (
            emit-Prints (IsLine head) (level_line base (head ++ ini) p q) _
              (level_line_shape ini p q) more)))
