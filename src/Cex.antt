-- ===== src/Cex.antt =====
-- The converter of cex (src/cex2b.c): order books. The tokens of a line and the hash of a text are
-- arguments, as is what stands in the array of tokens behind those of the line.
pub mod Book
pub mod Ends
use coins.Prelude.{
  ℕ, zero, suc, ◌+◌, ◌-◌, Option, none, some, not, List, [], ◌∷◌, ◌++◌, Bool, true, false, ◌||◌,
  Bytes, length, drop, set, ltb, leb, ◌==◌, if◌then◌else◌,
}
use coins.Libc.{codes, peek, starts_with, ulong_max}
use coins.Clock.{strtotv, smstotv, tvtostr, not_a_time}
use coins.Output.{Printed, printed, fault, out_of_fuel, in_room, both}
use coins.Json.{
  Token, token, Kind, is_primitive, is_string, is_array, is_object, text_at, outside, ffw,
}
use coins.Json.Levels.{one_side}

-- What the scan looks for; a place is `none` for the -1 that it starts as.
pub record Scan : Type 0 where
  pub xt : ℕ
  pub pair : Option ℕ
  pub bids : Option ℕ
  pub asks : Option ℕ

unfoldable pub nothing_yet : Scan
nothing_yet = record { xt = not_a_time; pair = none; bids = none; asks = none }

-- One round of the scan: the place and what is known then, the -1, or an access outside of the
-- array.
pub data Round : Type 0 where
  at : ℕ → Scan → Round
  refused : Round
  overrun : Round

unfoldable pub ffwd : Option ℕ → Scan → Round
ffwd none s = overrun
ffwd (some i) s = at i s

-- The value behind a key, which is to be of a kind.
unfoldable pub value : List Token → ℕ → (Kind → Bool) → Round → Round
value arr i is_kind found =
    if outside arr i then overrun else if not (is_kind (token arr i).typ) then refused else found

unfoldable pub array_at : List Token → ℕ → Scan → Round
unfolding value ffwd ffw
array_at arr i s = value arr i is_array (ffwd (ffw (drop (i + 1) arr) i (token arr i).end') s)

unfoldable pub round : (Bytes → ℕ) → Bytes → List Token → ℕ → Scan → Round
unfolding value array_at smstotv strtotv
round hash base arr i s =
    let hx = hash (text_at base (token arr i)) in
    let text = drop (token arr (i + 1)).start base in
    if hx == hash (codes "time")
    then value arr (i + 1) is_primitive (at (i + 1) (record s { xt = (smstotv text).0 }))
    else if hx == hash (codes "timestamp")
    then value arr (i + 1) is_primitive (at (i + 1) (record s { xt = (strtotv text).0 }))
    else if hx == hash (codes "pair")
    then value arr (i + 1) is_string (at (i + 1) (record s { pair = some (i + 1) }))
    else if hx == hash (codes "bids")
    then array_at arr (i + 1) (record s { bids = some (i + 1) })
    else if hx == hash (codes "asks")
    then array_at arr (i + 1) (record s { asks = some (i + 1) })
    else at i s

-- What the scan leaves behind.
pub data Scanned : Type 0 where
  scanned : Scan → Scanned
  rejected : Scanned
  outran : Scanned
  unfinished : Scanned

unfoldable pub next : (ℕ → Scan → Scanned) → Round → Scanned
next again (at i s) = again (i + 1) s
next again Round.refused = rejected
next again Round.overrun = outran

-- The `r` tokens from `i` on. Each round goes on by a token at least.
unfoldable pub scan : ℕ → (Bytes → ℕ) → Bytes → List Token → ℕ → ℕ → Scan → Scanned
unfolding round next
scan zero hash base arr r i s = unfinished
scan (suc fuel) hash base arr r i s =
    let more = next (scan fuel hash base arr r) (round hash base arr i s) in
    if leb r i then scanned s else more

-- The comparison of signed numbers lets the -1 pass.
abbrev pub missing : ℕ → Option ℕ → Bool
missing r none = false
missing r (some i) = leb r i

unfoldable pub ini_of : ℕ → ℕ → Bytes → Token → Bytes
unfolding tvtostr
ini_of rt xt base pair =
    tvtostr xt ++ b'\t' ∷ (tvtostr rt ++ b'\t' ∷ (text_at base pair ++ b'\t' ∷ []))

-- The book is printed; the token of a place that was not found would stand in front of the array.
unfoldable pub print_book : ℕ → ℕ → Bytes → List Token → Option ℕ → Option ℕ → Option ℕ → Printed
unfolding ini_of in_room one_side both
print_book rt xt base arr (some pair) (some bids) (some asks) =
    let ini = ini_of rt xt base (token arr pair) in
    in_room (ini ++ codes "B2\t") (
      both
        (one_side base (ini ++ codes "B2\t") (ini ++ codes "B2\t") (token arr bids).end' arr bids)
        (one_side base (ini ++ codes "A2\t") (ini ++ codes "A2\t") (token arr asks).end' arr asks))
print_book rt xt base arr pair bids asks = fault

-- The array with a finaliser behind the `r` tokens.
abbrev pub finished : List Token → ℕ → List Token
finished arr r = set arr r (record (token arr r) { start = ulong_max })

unfoldable pub on_scanned : ℕ → Bytes → List Token → ℕ → Scanned → Printed
unfolding print_book
on_scanned rt base arr r (scanned s) =
    if missing r s.pair || (missing r s.bids || (missing r s.asks || s.xt == not_a_time))
    then printed []
    else if outside arr r
    then fault
    else print_book rt s.xt base (finished arr r) s.pair s.bids s.asks
on_scanned rt base arr r Scanned.rejected = printed []
on_scanned rt base arr r Scanned.outran = fault
on_scanned rt base arr r Scanned.unfinished = out_of_fuel

-- Market data only.
unfoldable pub on_tokens : (Bytes → ℕ) → ℕ → Bytes → List Token → Option (List Token) → Printed
unfolding on_scanned scan nothing_yet starts_with
on_tokens hash rt base stale none = printed []
on_tokens hash rt base stale (some toks) =
    let r = length toks in
    let arr = toks ++ stale in
    if r == 0 || not (is_object (token toks 0).typ)
    then printed []
    else if leb r 3
    then printed []
    else if not (is_string (token toks 3).typ)
    then printed []
    else if not (starts_with (codes "data") (drop (token toks 3).start base))
    then printed []
    else if not (is_object (token arr 4).typ)
    then printed []
    else on_scanned rt base arr r (scan (suc r) hash base arr r 5 nothing_yet)

-- What a line prints; `none` of `jsmn_parse` is its negative result.
unfoldable pub procln : (Bytes → ℕ) → (Bytes → Option (List Token)) → List Token → Bytes → Printed
unfolding on_tokens strtotv
procln hash jsmn_parse stale line =
    let (rt, on) = strtotv line in
    let base = drop 1 on in
    if rt == not_a_time
    then printed []
    else if not (peek on == b'\t')
    then printed []
    else if not (peek base == b'{')
    then printed []
    else on_tokens hash rt base stale (jsmn_parse base)
