-- ===== src/Cex/Ends.antt =====
-- The loops of the converter of cex end, and what is printed are lines.
use coins.Prelude.{
  ap, sym, ◌∙◌, ℕ, zero, suc, ◌+◌, ◌≤◌, ◌<◌, ◌≡◌, Option, none, some, List, [], ◌∷◌, ◌++◌,
  append_assoc, Bool, true, false, not, ◌||◌, Bytes, All, length, length-drop, drop, ltb, leb, ◌==◌,
  if◌then◌else◌, arith, inl, inr, Bool-cases,
}
use coins.Libc.{codes, peek, starts_with}
use coins.Clock.{strtotv, tvtostr, not_a_time}
use coins.Output.{
  both-Prints, in_room-Prints, Printed, printed, fault, Prints, IsLine, either-Prints,
}
use coins.Json.{
  ffw, Token, token, is_object, is_string, is_array, is_primitive, text_at, outside, Kind,
}
use coins.Json.Levels.{one_side, levels-Prints}
use coins.Cex.{
  Scan, nothing_yet, Round, at, refused, overrun, ffwd, value, array_at, round, Scanned, scanned,
  next, scan, missing, ini_of, print_book, finished, on_scanned, on_tokens, procln,
}

-- The scan of a line has ended.
abbrev IsScanned : Scanned → Type 0
IsScanned Scanned.unfinished = ⊥
IsScanned _ = Unit

abbrev IsGoing : ℕ → Round → Type 0
IsGoing i (at j s) = i ≤ j
IsGoing i _ = Unit

either-IsGoing :
    (i : ℕ) (c : Bool) (a b : Round) → IsGoing i a → IsGoing i b → IsGoing i (if c then a else b)
either-IsGoing i true a b h k = h
either-IsGoing i false a b h k = k

ffw-IsGoing :
    (toks : List Token) (i j eoa : ℕ) (s : Scan) → i ≤ j → IsGoing i (ffwd (ffw toks j eoa) s)
unfolding ffw ffwd
ffw-IsGoing [] i j eoa s h = tt
ffw-IsGoing (t ∷ toks) i j eoa s h = elim (Bool-cases (ltb t.start eoa)) [
  | inl on ↦ rw on (ffw-IsGoing toks i (j + 1) eoa s (omega arith))
  | inr off ↦ rw off h
]

value-IsGoing :
    (arr : List Token) (i j : ℕ) (is_kind : Kind → Bool) (found : Round)
    → IsGoing i found
    → IsGoing i (value arr j is_kind found)
unfolding value
value-IsGoing arr i j is_kind found h =
    either-IsGoing i (outside arr j) overrun _ tt
      (either-IsGoing i (not (is_kind (token arr j).typ)) refused found tt h)

round-IsGoing :
    (hash : Bytes → ℕ) (base : Bytes) (arr : List Token) (i : ℕ) (s : Scan)
    → IsGoing i (round hash base arr i s)
unfolding round array_at
round-IsGoing hash base arr i s =
    let hx = hash (text_at base (token arr i)) in
    let le : i ≤ i + 1 = omega arith in
    let array = λ (s' : Scan).
      value-IsGoing arr i (i + 1) is_array _
        (ffw-IsGoing (drop (i + 1 + 1) arr) i (i + 1) (token arr (i + 1)).end' s' le) in
    either-IsGoing i (hx == hash (codes "time")) _ _ (value-IsGoing arr i (i + 1) is_primitive _ le)
      (either-IsGoing i (hx == hash (codes "timestamp")) _ _
        (value-IsGoing arr i (i + 1) is_primitive _ le)
        (either-IsGoing i (hx == hash (codes "pair")) _ _
          (value-IsGoing arr i (i + 1) is_string _ le)
          (either-IsGoing i (hx == hash (codes "bids")) _ _
            (array (record s { bids = some (i + 1) }))
            (either-IsGoing i (hx == hash (codes "asks")) _ _
              (array (record s { asks = some (i + 1) })) (omega arith)))))

next-IsScanned :
    (again : ℕ → Scan → Scanned) (i : ℕ) (o : Round)
    → ((j : ℕ) (s : Scan) → i < j → IsScanned (again j s))
    → IsGoing i o
    → IsScanned (next again o)
unfolding next
next-IsScanned again i (at j s) h k = h (j + 1) s (omega arith)
next-IsScanned again i Round.refused h k = tt
next-IsScanned again i Round.overrun h k = tt

scan-IsScanned :
    (fuel : ℕ) (hash : Bytes → ℕ) (base : Bytes) (arr : List Token) (r i : ℕ) (s : Scan)
    → 0 < fuel
    → r < i + fuel
    → IsScanned (scan fuel hash base arr r i s)
unfolding scan
scan-IsScanned zero hash base arr r i s some' h = absurd (omega arith)
scan-IsScanned (suc fuel) hash base arr r i s some' h = elim (Bool-cases (leb r i)) [
  | inl behind ↦ rw behind tt
  | inr within ↦ rw within (
      let below : i < r = ground arith in
      next-IsScanned (scan fuel hash base arr r) i (round hash base arr i s)
        (λ j s' lt. scan-IsScanned fuel hash base arr r j s' (omega arith) (omega arith))
        (round-IsGoing hash base arr i s))
]

-- From a stamp on, and then that of the line.
abbrev pub IsBookLine : ℕ → Bytes → Type 0
IsBookLine rt line = (xt : ℕ) × IsLine (tvtostr xt ++ b'\t' ∷ (tvtostr rt ++ b'\t' ∷ [])) line

each-IsBookLine :
    (rt xt : ℕ) (lines : List Bytes)
    → All (IsLine (tvtostr xt ++ b'\t' ∷ (tvtostr rt ++ b'\t' ∷ []))) lines
    → All (IsBookLine rt) lines
each-IsBookLine rt xt [] h = tt
each-IsBookLine rt xt (line ∷ lines) h = ((xt, h.0), each-IsBookLine rt xt lines h.1)

printed-IsBookLine :
    (rt xt : ℕ) (r : Printed)
    → Prints (IsLine (tvtostr xt ++ b'\t' ∷ (tvtostr rt ++ b'\t' ∷ []))) r
    → Prints (IsBookLine rt) r
printed-IsBookLine rt xt (printed lines) h = each-IsBookLine rt xt lines h
printed-IsBookLine rt xt fault h = tt
printed-IsBookLine rt xt Printed.out_of_fuel h = h

start_shape :
    (a b name side : Bytes)
    → (a ++ b'\t' ∷ (b ++ b'\t' ∷ name)) ++ side
      ≡ (a ++ b'\t' ∷ (b ++ b'\t' ∷ [])) ++ (name ++ side)
start_shape a b name side =
    append_assoc a (b'\t' ∷ (b ++ b'\t' ∷ name)) side
    ∙ ap (λ (s : Bytes). a ++ b'\t' ∷ s) (append_assoc b (b'\t' ∷ name) side)
    ∙ sym (
        append_assoc a (b'\t' ∷ (b ++ b'\t' ∷ [])) (name ++ side)
        ∙ ap (λ (s : Bytes). a ++ b'\t' ∷ s) (append_assoc b (b'\t' ∷ []) (name ++ side)))

module _ (rt : ℕ) (base : Bytes) where
  side-Prints :
      (xt : ℕ) (tail : Bytes) (arr : List Token) (i : ℕ)
      → Prints (IsBookLine rt) (
          one_side base
            ((tvtostr xt ++ b'\t' ∷ (tvtostr rt ++ b'\t' ∷ [])) ++ tail)
            ((tvtostr xt ++ b'\t' ∷ (tvtostr rt ++ b'\t' ∷ [])) ++ tail)
            (token arr i).end'
            arr
            i)
  unfolding one_side
  side-Prints xt tail arr i =
      let head = tvtostr xt ++ b'\t' ∷ (tvtostr rt ++ b'\t' ∷ []) in
      printed-IsBookLine rt xt _ (
        levels-Prints base head (token arr i).end' (suc (length arr)) tail tail (drop (i + 1) arr)
          (omega (arith, length-drop (i + 1) arr)))

  book-Prints :
      (xt : ℕ) (arr : List Token) (pair bids asks : ℕ)
      → Prints (IsBookLine rt) (print_book rt xt base arr (some pair) (some bids) (some asks))
  unfolding print_book ini_of
  book-Prints xt arr pair bids asks =
      let name = text_at base (token arr pair) ++ b'\t' ∷ [] in
      let ini = tvtostr xt ++ b'\t' ∷ (tvtostr rt ++ b'\t' ∷ name) in
      in_room-Prints (IsBookLine rt) (ini ++ codes "B2\t") _ (
        both-Prints (IsBookLine rt) _ _
          (rw (start_shape (tvtostr xt) (tvtostr rt) name (codes "B2\t"))
            (side-Prints xt (name ++ codes "B2\t") arr bids))
          (rw (start_shape (tvtostr xt) (tvtostr rt) name (codes "A2\t"))
            (side-Prints xt (name ++ codes "A2\t") arr asks)))

  print_book-Prints :
      (xt : ℕ) (arr : List Token) (pair bids asks : Option ℕ)
      → Prints (IsBookLine rt) (print_book rt xt base arr pair bids asks)
  unfolding print_book
  print_book-Prints xt arr (some pair) (some bids) (some asks) = book-Prints xt arr pair bids asks
  print_book-Prints xt arr none bids asks = tt
  print_book-Prints xt arr (some pair) none asks = tt
  print_book-Prints xt arr (some pair) (some bids) none = tt

  on_scanned-Prints :
      (arr : List Token) (r : ℕ) (o : Scanned)
      → IsScanned o
      → Prints (IsBookLine rt) (on_scanned rt base arr r o)
  unfolding on_scanned
  on_scanned-Prints arr r (scanned s) h =
      either-Prints (IsBookLine rt)
        (missing r s.pair || (missing r s.bids || (missing r s.asks || s.xt == not_a_time))) _ _ tt
        (either-Prints (IsBookLine rt) (outside arr r) _ _ tt
          (print_book-Prints s.xt (finished arr r) s.pair s.bids s.asks))
  on_scanned-Prints arr r Scanned.rejected h = tt
  on_scanned-Prints arr r Scanned.outran h = tt
  on_scanned-Prints arr r Scanned.unfinished h = elim h [ ]

  on_tokens-Prints :
      (hash : Bytes → ℕ) (stale : List Token) (o : Option (List Token))
      → Prints (IsBookLine rt) (on_tokens hash rt base stale o)
  unfolding on_tokens
  on_tokens-Prints hash stale none = tt
  on_tokens-Prints hash stale (some toks) =
      let r = length toks in
      let arr = toks ++ stale in
      either-Prints (IsBookLine rt) (r == 0 || not (is_object (token toks 0).typ)) _ _ tt (
        either-Prints (IsBookLine rt) (leb r 3) _ _ tt (
          either-Prints (IsBookLine rt) (not (is_string (token toks 3).typ)) _ _ tt (
            either-Prints (IsBookLine rt)
              (not (starts_with (codes "data") (drop (token toks 3).start base))) _ _ tt
              (either-Prints (IsBookLine rt) (not (is_object (token arr 4).typ)) _ _ tt (
                on_scanned-Prints arr r (scan (suc r) hash base arr r 5 nothing_yet) (
                  scan-IsScanned (suc r) hash base arr r 5 nothing_yet (omega arith)
                    (omega arith)))))))

-- Whatever a line holds and whatever its tokens are, the scan and the loops over the levels end;
-- unless they leave the array or the buffer, each line printed has a stamp, then that of the line
-- that was read, ends in a newline, and has at most 256 octets.
pub procln-IsBookLine :
    (hash : Bytes → ℕ) (jsmn_parse : Bytes → Option (List Token)) (stale : List Token)
    (line : Bytes)
    → Prints (IsBookLine (strtotv line).0) (procln hash jsmn_parse stale line)
unfolding procln
procln-IsBookLine hash jsmn_parse stale line =
    let (rt, on) = strtotv line in
    let base = drop 1 on in
    either-Prints (IsBookLine rt) (rt == not_a_time) _ _ tt (
      either-Prints (IsBookLine rt) (not (peek on == b'\t')) _ _ tt (
        either-Prints (IsBookLine rt) (not (peek base == b'{')) _ _ tt
          (on_tokens-Prints rt base hash stale (jsmn_parse base))))
