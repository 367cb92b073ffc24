-- ===== src/Trt.antt =====
-- The converter of therocktrading (src/trt2b.c): whole books and changes to one. The tokens of a
-- line and the hash of a text are arguments, as is what stands in the array of tokens behind those
-- of the line.
pub mod Rows
pub mod Book
use coins.Prelude.{
  ℕ, zero, suc, ◌+◌, ◌-◌, Option, none, some, not, List, [], ◌∷◌, ◌++◌, Bool, true, false, ◌&&◌,
  ◌||◌, Bytes, length, drop, ltb, leb, ◌==◌, if◌then◌else◌,
}
use coins.Libc.{codes, peek}
use coins.Clock.{strtotv, tvtostr, not_a_time}
use coins.Output.{Printed, printed, fault, out_of_fuel, in_room, emit}
use coins.Json.{Token, token, is_string, is_object, text_at, outside}
use coins.Json.Levels.{no_text}

-- `GET_TOK(tok[i])`
abbrev pub get_tok : (Bytes → ℕ) → Bytes → List Token → ℕ → ℕ
get_tok hash base arr i = hash (text_at base (token arr i))

unfoldable pub row_line : Bytes → Bytes → Token → Token → Bytes
row_line base in2 px qx = in2 ++ (text_at base px ++ b'\t' ∷ (text_at base qx ++ b'\n' ∷ []))

-- The loop over the levels of one side, from token `j` up to one that starts at `n` or behind it,
-- or to the last of the `ntok`; `next` is what follows it. Each round takes five tokens.
unfoldable pub rows : ℕ → Bytes → Bytes → List Token → ℕ → ℕ → (ℕ → Printed) → ℕ → Printed
unfolding emit row_line
rows zero base in2 arr ntok n next j = out_of_fuel
rows (suc fuel) base in2 arr ntok n next j =
    let px = token arr (j + 2) in
    let qx = token arr (j + 4) in
    let more = rows fuel base in2 arr ntok n next (j + 5) in
    let done = next j in
    if not (ltb j ntok && ltb (token arr j).start n)
    then done
    else if outside arr (j + 4) || (no_text px || no_text qx)
    then fault
    else emit (row_line base in2 px qx) more

-- The bids, whose name is token `j`.
unfoldable pub bid_rows : Bytes → Bytes → List Token → ℕ → ℕ → Printed
unfolding rows
bid_rows base ini arr ntok j =
    let bids =
      rows (suc ntok) base (ini ++ codes "bid2\t") arr ntok (token arr (j + 1)).end'
        (λ k. printed []) (j + 2) in
    if outside arr (j + 1) then fault else bids

-- The asks, which start at token 6, and then the bids.
unfoldable pub ask_rows : Bytes → Bytes → List Token → ℕ → Printed
unfolding rows bid_rows
ask_rows base ini arr ntok =
    let asks =
      rows (suc ntok) base (ini ++ codes "ask2\t") arr ntok (token arr 6).end'
        (bid_rows base ini arr ntok) 7 in
    if outside arr 6 then fault else asks

-- The stamp, and the symbol, which is the last token.
unfoldable pub ini_of : ℕ → Bytes → List Token → ℕ → Bytes
unfolding tvtostr
ini_of rt base arr ntok = tvtostr rt ++ b'\t' ∷ (text_at base (token arr (ntok - 1)) ++ b'\t' ∷ [])

-- A book is complete, so that the one before it is cleared. With a single token, the one in front
-- of the array is read.
unfoldable pub proc_obk : (Bytes → ℕ) → ℕ → Bytes → List Token → ℕ → Printed
unfolding ask_rows ini_of in_room emit
proc_obk hash rt base arr ntok =
    let ini = ini_of rt base arr ntok in
    if ltb ntok 2
    then fault
    else if not (get_tok hash base arr (ntok - 2) == hash (codes "channel"))
    then printed []
    else in_room ini (emit (ini ++ codes "clr0\t\t\n") (ask_rows base ini arr ntok))

-- A change: the side, the price and the amount are tokens 6, 8 and 10.
unfoldable pub proc_odf : (Bytes → ℕ) → ℕ → Bytes → List Token → ℕ → Printed
unfolding ini_of emit row_line
proc_odf hash rt base arr ntok =
    let in2 = ini_of rt base arr ntok ++ (text_at base (token arr 6) ++ b'2' ∷ b'\t' ∷ []) in
    if ltb ntok 2
    then fault
    else if not (get_tok hash base arr (ntok - 2) == hash (codes "channel"))
    then printed []
    else if outside arr 10
        || (no_text (token arr 6) || (no_text (token arr 8) || no_text (token arr 10)))
    then fault
    else emit (row_line base in2 (token arr 8) (token arr 10)) (printed [])

-- The event's name is token 2. What is non-conformant is only warned of, on standard error.
unfoldable pub on_event : (Bytes → ℕ) → ℕ → Bytes → List Token → ℕ → Printed
unfolding proc_obk proc_odf
on_event hash rt base arr ntok =
    let e = get_tok hash base arr 2 in
    if not (is_string (token arr 1).typ)
    then printed []
    else if not (get_tok hash base arr 1 == hash (codes "event"))
    then printed []
    else if not (get_tok hash base arr 3 == hash (codes "data"))
    then printed []
    else if e == hash (codes "orderbook")
    then proc_obk hash rt base arr ntok
    else if e == hash (codes "orderbook_diff")
    then proc_odf hash rt base arr ntok
    else printed []

unfoldable pub on_tokens : (Bytes → ℕ) → ℕ → Bytes → List Token → Option (List Token) → Printed
unfolding on_event
on_tokens hash rt base stale none = printed []
on_tokens hash rt base stale (some toks) =
    let r = length toks in
    let arr = toks ++ stale in
    if r == 0 || not (is_object (token toks 0).typ) then printed [] else on_event hash rt base arr r

-- What a line prints; `none` of `jsmn_parse` is its negative result.
unfoldable pub procln : (Bytes → ℕ) → (Bytes → Option (List Token)) → List Token → Bytes → Printed
unfolding on_tokens strtotv
procln hash jsmn_parse stale line =
    let (rt, on) = strtotv line in
    let base = drop 1 on in
    if rt == not_a_time
    then printed []
    else if not (peek on == b'\t')
    then printed []
    else if not (peek base == b'{')
    then printed []
    else on_tokens hash rt base stale (jsmn_parse base)
