-- ===== src/Plx/Event.antt =====
-- `events` and `procln` (src/plx2b.c): a line of the log becomes a line for each event in it. The
-- token array is as long as `arr`: the tokens of the line and, behind them, what earlier lines
-- left there. A step behind its end, and a line of more than 256 octets, is a fault.
pub mod Steps
pub mod Lines
pub mod Stored
use coins.Prelude.{
  ℕ, zero, suc, ◌+◌, ◌-◌, Option, none, some, Bool, true, false, not, ◌||◌, List, [], ◌∷◌, ◌++◌,
  Bytes, length, drop, ltb, leb, ◌==◌, if◌then◌else◌,
}
use coins.Libc.{codes, peek, starts_with}
use coins.Clock.{strtotv, tvtostr, not_a_time}
use coins.Output.{Printed, printed, fault, out_of_fuel, and_printed}
use coins.Json.{Token, is_primitive, is_array, is_object, token, copied}
use coins.Plx.{Plx, instostr, toktoprim, subscr, subscd, find_sub}

-- What one event comes to: the index that it was left at, and the lines printed.
pub data Outcome : Type 0 where
  went : ℕ → List Bytes → Outcome
  overrun : Outcome

-- Up to the token that starts at `eot` or behind it.
unfoldable pub fast_forward : List Token → ℕ → ℕ → Option ℕ
fast_forward [] i eot = none
fast_forward (t ∷ toks) i eot =
    let later = fast_forward toks (i + 1) eot in if ltb t.start eot then later else some i

-- The room of `buf`.
unfoldable pub bounded : Bytes → Outcome → Outcome
bounded buf more = if ltb 256 (length buf) then overrun else more

module _ (hash : Bytes → ℕ) (base : Bytes) (arr : List Token) where
  abbrev pub says : ℕ → Bytes → Bool
  says i lit = starts_with lit (drop (token arr i).start base)

  abbrev pub token_text : ℕ → Bytes
  token_text i = copied ((token arr i).end' - (token arr i).start) (drop (token arr i).start base)

  -- The amount, at index `i` with the price in `buf`; a removal has none.
  unfoldable pub with_amount : Bytes → ℕ → ℕ → Bool → Outcome
  unfolding bounded copied starts_with
  with_amount buf i eot removed =
      let line = buf ++ (token_text (i + 1) ++ b'\n' ∷ []) in
      let none_left = buf ++ (b'0' ∷ b'\n' ∷ []) in
      if ltb (token arr i).start eot
      then (if says i (codes "amount")
          then bounded line (went (i + 1) (line ∷ []))
          else went (i + 1) [])
      else if removed
      then bounded none_left (went i (none_left ∷ []))
      else went i []

  -- A change of the book, from the key `data` at index `i` on.
  unfoldable pub on_book : Bytes → ℕ → ℕ → Bool → Outcome
  unfolding with_amount bounded copied starts_with
  on_book ini i eot removed =
      let buf =
        ini
        ++ (copied 3 (drop (token arr (i + 3)).start base)
            ++ b'2' ∷ b'\t' ∷ (token_text (i + 5) ++ b'\t' ∷ [])) in
      if not (says i (codes "data"))
      then went (i + 1) []
      else if not (is_object (token arr (i + 1)).typ)
      then went (i + 2) []
      else if not (says (i + 2) (codes "type"))
      then went (i + 3) []
      else if not (says (i + 4) (codes "rate"))
      then went (i + 5) []
      else bounded buf (with_amount buf (i + 6) eot removed)

  -- A trade, from the key `data` at index `i` on.
  unfoldable pub on_trade : Bytes → ℕ → Outcome
  unfolding bounded copied starts_with
  on_trade ini i =
      let buf = ini ++ (codes "tra0" ++ b'\t' ∷ (token_text (i + 7) ++ b'\t' ∷ [])) in
      let line = buf ++ (token_text (i + 3) ++ b'\n' ∷ []) in
      if not (says i (codes "data"))
      then went (i + 1) []
      else if not (is_object (token arr (i + 1)).typ)
      then went (i + 1) []
      else if not (says (i + 6) (codes "rate"))
      then went (i + 1) []
      else bounded buf (
          if says (i + 2) (codes "amount")
          then bounded line (went (i + 1) (line ∷ []))
          else went (i + 1) [])

  -- One event, at index `i`; `hx` is the hash of its type.
  unfoldable pub on_type : Bytes → ℕ → ℕ → ℕ → Outcome
  unfolding on_book on_trade
  on_type ini i eot hx =
      if hx == hash (codes "orderBookModify") || hx == hash (codes "orderBookRemove")
      then on_book ini (i + 3) eot (hx == hash (codes "orderBookRemove"))
      else if hx == hash (codes "newTrade")
      then on_trade ini (i + 3)
      else went (i + 2) []

  unfoldable pub one_event : Bytes → ℕ → Outcome
  unfolding on_type copied starts_with
  one_event ini i =
      if says (i + 1) (codes "type")
      then on_type ini i (token arr i).end' (hash (token_text (i + 2)))
      else went (i + 2) []

  abbrev pub at_next : (ℕ → Printed) → Option ℕ → Printed
  at_next later none = fault
  at_next later (some i) = later i

  abbrev pub after_event : (ℕ → Printed) → ℕ → Outcome → Printed
  after_event later eot (went i lines) =
      and_printed lines (at_next later (fast_forward (drop i arr) i eot))
  after_event later eot overrun = fault

  -- The loop over the events that start before `n`. A round goes on by a token at least, so that
  -- the length of the array is fuel enough (Lines).
  unfoldable pub each_event : Bytes → ℕ → ℕ → ℕ → Printed
  unfolding one_event fast_forward
  each_event ini n zero i = out_of_fuel
  each_event ini n (suc fuel) i =
      let round = after_event (each_event ini n fuel) (token arr i).end' (one_event ini i) in
      if leb (length arr) i then fault else if ltb (token arr i).start n then round else printed []

  unfoldable pub on_sub : Plx → Option ℕ → Printed
  unfolding each_event tvtostr instostr
  on_sub p none = printed []
  on_sub p (some subix) =
      let ini = tvtostr p.metr ++ b'\t' ∷ (instostr p subix ++ b'\t' ∷ []) in
      each_event ini (token arr 5).end' (suc (length arr)) 6

  -- `ntoks` of the tokens are of this line.
  unfoldable pub events : ℕ → Plx → Printed
  unfolding on_sub find_sub toktoprim
  events ntoks p =
      if leb ntoks 8
      then printed []
      else if not (is_primitive (token arr 2).typ)
      then printed []
      else if not (is_array (token arr 5).typ)
      then printed []
      else if not (is_object (token arr 6).typ)
      then printed []
      else on_sub p (find_sub (toktoprim base (token arr 2)) p.subids 0)

abbrev pub stored : Plx → Option Plx → Plx
stored p none = p
stored p (some p') = p'

-- The switch on the code of the message.
unfoldable pub on_code : (Bytes → ℕ) → Bytes → List Token → List Token → ℕ → Plx → Plx × Printed
unfolding events subscr subscd
on_code hash base toks stale x p =
    if x == 32
    then (stored p (subscr base toks p), printed [])
    else if x == 33
    then (stored p (subscd base toks p), printed [])
    else if x == 36
    then (p, events hash base (toks ++ stale) (length toks) p)
    else (p, printed [])

unfoldable pub on_tokens :
    (Bytes → ℕ) → Bytes → List Token → Plx → Option (List Token) → Plx × Printed
unfolding on_code toktoprim
on_tokens hash base stale p none = (p, printed [])
on_tokens hash base stale p (some []) = (p, printed [])
on_tokens hash base stale p (some (t ∷ toks)) =
    let code = token (t ∷ toks ++ stale) 1 in
    if not (is_array t.typ)
    then (p, printed [])
    else if not (is_primitive code.typ)
    then (p, printed [])
    else on_code hash base (t ∷ toks) stale (toktoprim base code) p

-- `procln`, with what `jsmn_parse` makes of a text, and what stands in the array behind that.
unfoldable pub procln :
    (Bytes → ℕ) → (Bytes → Option (List Token)) → List Token → Bytes → Plx → Plx × Printed
unfolding on_tokens strtotv
procln hash jsmn_parse stale line p =
    let (t, on) = strtotv line in
    let p' : Plx = record p { metr = t } in
    let base = drop 1 on in
    if t == not_a_time
    then (p', printed [])
    else if not (peek on == b'\t')
    then (p', printed [])
    else if not (peek base == b'[')
    then (p', printed [])
    else on_tokens hash base stale p' (jsmn_parse base)

-- The lines that `main` reads, each with what stands in the array behind its tokens.
abbrev pub convert :
    (Bytes → ℕ) → (Bytes → Option (List Token)) → List (Bytes × List Token) → Plx → Plx
convert hash jsmn_parse [] p = p
convert hash jsmn_parse ((line, stale) ∷ lines) p =
    convert hash jsmn_parse lines (procln hash jsmn_parse stale line p).0
