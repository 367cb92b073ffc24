-- ===== src/Btsp/Ends.antt =====
-- What the converter of bitstamp prints are lines.
use coins.Prelude.{
  ℕ, suc, ◌+◌, Option, none, some, List, [], ◌∷◌, ◌++◌, not, ◌||◌, Bytes, All, length, length-drop,
  drop, set, ◌==◌, arith,
}
use coins.Libc.{peek, ulong_max}
use coins.Clock.{strtotv, not_a_time}
use coins.Output.{Printed, printed, fault, Prints, IsLine, either-Prints, both-Prints}
use coins.Json.{Token, token, is_object, outside}
use coins.Json.Levels.{one_side, levels-Prints}
use coins.Btsp.Places.{IsFilled, fill-IsFilled, IsFound, find_sides-IsFound}
use coins.Btsp.{
  Chan, Ins, Beef, no_beef, Filled, filled, fill, Found, found, flavour, ini_of, print_sides,
  if_book, on_beef, on_tokens, procln,
}

-- From the stamp of the line and an instrument on.
abbrev pub IsSideLine : ℕ → Bytes → Type 0
IsSideLine rt line = (i : Ins) × IsLine (ini_of rt i) line

each-IsSideLine :
    (rt : ℕ) (i : Ins) (lines : List Bytes)
    → All (IsLine (ini_of rt i)) lines
    → All (IsSideLine rt) lines
each-IsSideLine rt i [] h = tt
each-IsSideLine rt i (line ∷ lines) h = ((i, h.0), each-IsSideLine rt i lines h.1)

printed-IsSideLine :
    (rt : ℕ) (i : Ins) (r : Printed) → Prints (IsLine (ini_of rt i)) r → Prints (IsSideLine rt) r
printed-IsSideLine rt i (printed lines) h = each-IsSideLine rt i lines h
printed-IsSideLine rt i fault h = tt
printed-IsSideLine rt i Printed.out_of_fuel h = h

if_book-Prints :
    (rt : ℕ) (c : Chan) (r : Printed)
    → Prints (IsSideLine rt) r
    → Prints (IsSideLine rt) (if_book c r)
if_book-Prints rt Chan.chan_book r h = h
if_book-Prints rt Chan.chan_diff r h = h
if_book-Prints rt Chan.chan_unk r h = tt
if_book-Prints rt Chan.chan_tras r h = tt
if_book-Prints rt Chan.chan_ords r h = tt

module _ (rt : ℕ) (base : Bytes) where
  one_side-Prints :
      (ini first later : Bytes) (eo : ℕ) (arr : List Token) (i : ℕ)
      → Prints (IsLine ini) (one_side base (ini ++ first) (ini ++ later) eo arr i)
  unfolding one_side
  one_side-Prints ini first later eo arr i =
      levels-Prints base ini eo (suc (length arr)) first later (drop (i + 1) arr)
        (omega (arith, length-drop (i + 1) arr))

  print_sides-Prints :
      (arr : List Token) (f : Beef) (o : Found)
      → IsFound o
      → Prints (IsSideLine rt) (print_sides rt base arr f o)
  unfolding print_sides
  print_sides-Prints arr f (found s) h =
      let ini = ini_of rt f.ins in
      let side = λ (c : ℕ) (eo : ℕ) (i : ℕ).
        printed-IsSideLine rt f.ins _
          (one_side-Prints ini (c ∷ flavour f.ch ∷ b'\t' ∷ []) (c ∷ b'2' ∷ b'\t' ∷ []) eo arr i) in
      both-Prints (IsSideLine rt) _ _ (side b'B' s.eob s.bid) (side b'A' s.eoa s.ask)
  print_sides-Prints arr f Found.lost h = tt
  print_sides-Prints arr f Found.searching h = elim h [ ]

  on_beef-Prints :
      (hash : Bytes → ℕ) (arr : List Token) (o : Filled)
      → IsFilled o
      → Prints (IsSideLine rt) (on_beef hash rt base arr o)
  unfolding on_beef
  on_beef-Prints hash arr (filled f) h = if_book-Prints rt f.ch _ (
      print_sides-Prints arr f _ (
        find_sides-IsFound (suc (length arr)) hash base arr f.dend f.dbeg
          (record { bid = 0; eob = 0; ask = 0; eoa = 0 }) (omega arith) (omega arith)))
  on_beef-Prints hash arr Filled.strayed h = tt
  on_beef-Prints hash arr Filled.endless h = elim h [ ]

  on_tokens-Prints :
      (hash : Bytes → ℕ) (stale : List Token) (o : Option (List Token))
      → Prints (IsSideLine rt) (on_tokens hash rt base stale o)
  unfolding on_tokens
  on_tokens-Prints hash stale none = tt
  on_tokens-Prints hash stale (some toks) =
      let r = length toks in
      let arr = toks ++ stale in
      let arr' = set arr r (record (token arr r) { start = ulong_max }) in
      either-Prints (IsSideLine rt) (r == 0 || not (is_object (token toks 0).typ)) _ _ tt (
        either-Prints (IsSideLine rt) (outside arr r) _ _ tt (
          on_beef-Prints hash arr' (fill (suc r) hash base arr' r 1 no_beef)
            (fill-IsFilled (suc r) hash base arr' r 1 no_beef (omega arith) (omega arith))))

-- Whatever a line holds and whatever its tokens are, the loops over them end; unless they leave the
-- array or the buffer, each line printed has the stamp of the line that was read and an instrument,
-- ends in a newline, and has at most 256 octets.
pub procln-IsSideLine :
    (hash : Bytes → ℕ) (jsmn_parse : Bytes → Option (List Token)) (stale : List Token)
    (line : Bytes)
    → Prints (IsSideLine (strtotv line).0) (procln hash jsmn_parse stale line)
unfolding procln
procln-IsSideLine hash jsmn_parse stale line =
    let (rt, on) = strtotv line in
    let base = drop 1 on in
    either-Prints (IsSideLine rt) (rt == not_a_time) _ _ tt (
      either-Prints (IsSideLine rt) (not (peek on == b'\t')) _ _ tt (
        either-Prints (IsSideLine rt) (not (peek base == b'{')) _ _ tt
          (on_tokens-Prints rt base hash stale (jsmn_parse base))))
