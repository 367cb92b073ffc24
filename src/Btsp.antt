-- ===== src/Btsp.antt =====
-- The converter of bitstamp (src/btsp2b.c): order books and their changes. The tokens of a line and
-- the hash of a text are arguments, as is what stands in the array of tokens behind those of the
-- line.
pub mod Book
pub mod Places
pub mod Ends
use coins.Prelude.{
  ℕ, zero, suc, ◌+◌, ◌-◌, Option, none, some, not, List, [], ◌∷◌, ◌++◌, Bool, true, false, ◌&&◌,
  ◌||◌, Bytes, length, drop, set, ltb, leb, ◌==◌, if◌then◌else◌,
}
use coins.Libc.{codes, peek, ulong_max}
use coins.Clock.{strtotv, tvtostr, not_a_time}
use coins.Output.{Printed, printed, fault, out_of_fuel, in_room, both}
use coins.Json.{Token, token, is_string, is_object, copied, text_at, outside, ffw}
use coins.Json.Levels.{one_side}

-- `btsp_chan_t`
pub data Chan : Type 0 where
  chan_unk chan_tras chan_book chan_diff chan_ords : Chan

-- `btsp_ins_t`
pub data Ins : Type 0 where
  ins_unk ins_btcusd ins_btceur ins_eurusd : Ins

-- What is used of `beef`: the place of the data, and where they end.
pub record Beef : Type 0 where
  pub ch : Chan
  pub ins : Ins
  pub dbeg : ℕ
  pub dend : ℕ

unfoldable pub no_beef : Beef
no_beef = record { ch = Chan.chan_unk; ins = Ins.ins_unk; dbeg = 0; dend = 0 }

-- The kind of a channel, of whose name certain octets are hashed.
unfoldable pub snarf_chan : (Bytes → ℕ) → Bytes → Chan
unfolding copied
snarf_chan hash val =
    let hx = hash (copied 4 val) in
    let hx' = hash (copied 6 (drop 5 val)) in
    if hx == hash (codes "live")
    then (if not (peek (drop 4 val) == b'_')
        then Chan.chan_unk
        else if hx' == hash (codes "orders")
        then Chan.chan_ords
        else if hx' == hash (codes "trades")
        then Chan.chan_tras
        else Chan.chan_unk)
    else if hx == hash (codes "diff")
    then (if hash (copied 6 (drop 9 val)) == hash (codes "r_book")
        then Chan.chan_diff
        else Chan.chan_unk)
    else if hx == hash (codes "orde")
    then (if hash (copied 6 (drop 4 val)) == hash (codes "r_book")
        then Chan.chan_book
        else Chan.chan_unk)
    else Chan.chan_unk

-- The instrument is the suffix of the name; without one it is bitcoin in dollars.
unfoldable pub snarf_ins : (Bytes → ℕ) → Bytes → ℕ → Ins
unfolding copied
snarf_ins hash val len =
    let hx = hash (copied 6 (drop (len - 6) val)) in
    if not (leb 6 len)
    then Ins.ins_unk
    else if hx == hash (codes "orders")
        || (hx == hash (codes "trades") || hx == hash (codes "r_book"))
    then Ins.ins_btcusd
    else if hx == hash (codes "btceur")
    then Ins.ins_btceur
    else if hx == hash (codes "eurusd")
    then Ins.ins_eurusd
    else Ins.ins_unk

-- One round of a loop over tokens: the place and what is known then, or an access outside of the
-- array.
pub data Went : Type 0 where
  went : ℕ → Beef → Went
  off : Went

unfoldable pub skipped : Option ℕ → Beef → Went
skipped none f = off
skipped (some i) f = went i f

-- The third test, with the place that the tests before it have left.
unfoldable pub on_data : (Bytes → ℕ) → List Token → ℕ → ℕ → Beef → Went
unfolding ffw skipped
on_data hash arr hx i f =
    let i' = i + 1 in
    let t = token arr i' in
    let f' : Beef = record f { dend = t.end'; dbeg = i' + 1 } in
    if not (hx == hash (codes "data"))
    then went i f
    else if outside arr i'
    then off
    else if is_object t.typ
    then skipped (ffw (drop (i' + 1) arr) i' t.end') f'
    else went i' f

-- The second test; what it stores is used nowhere.
unfoldable pub on_evnt : (Bytes → ℕ) → List Token → ℕ → ℕ → Beef → Went
unfolding on_data
on_evnt hash arr hx i f =
    let i' = i + 1 in
    if not (hx == hash (codes "even"))
    then on_data hash arr hx i f
    else if outside arr i'
    then off
    else if is_string (token arr i').typ
    then went i' f
    else on_data hash arr hx i' f

-- The first test.
unfoldable pub on_chan : (Bytes → ℕ) → Bytes → List Token → ℕ → ℕ → Beef → Went
unfolding on_evnt snarf_chan snarf_ins
on_chan hash base arr hx i f =
    let i' = i + 1 in
    let t = token arr i' in
    let val = drop t.start base in
    if not (hx == hash (codes "chan"))
    then on_evnt hash arr hx i f
    else if outside arr i'
    then off
    else if is_string t.typ
    then went i'
        (record f { ch = snarf_chan hash val; ins = snarf_ins hash val (t.end' - t.start) })
    else on_evnt hash arr hx i' f

-- What a loop leaves behind: the beef, or nothing where it has left the array.
pub data Filled : Type 0 where
  filled : Beef → Filled
  strayed : Filled
  endless : Filled

unfoldable pub filling : (ℕ → Beef → Filled) → Went → Filled
filling again (went i f) = again (i + 1) f
filling again off = strayed

-- The `r` tokens from `i` on. Each round goes on by a token at least.
unfoldable pub fill : ℕ → (Bytes → ℕ) → Bytes → List Token → ℕ → ℕ → Beef → Filled
unfolding on_chan filling copied
fill zero hash base arr r i f = endless
fill (suc fuel) hash base arr r i f =
    let t = token arr i in
    let hx = hash (copied 4 (drop t.start base)) in
    let round = if is_string t.typ then on_chan hash base arr hx i f else went i f in
    let more = filling (fill fuel hash base arr r) round in if leb r i then filled f else more

-- The places of bids and asks, and where they end.
pub record Sides : Type 0 where
  pub bid : ℕ
  pub eob : ℕ
  pub ask : ℕ
  pub eoa : ℕ

pub data Found : Type 0 where
  found : Sides → Found
  lost : Found
  searching : Found

unfoldable pub found_next : (ℕ → Sides → Found) → Sides → Option ℕ → Found
found_next again s none = lost
found_next again s (some i) = again (i + 1) s

-- The label `ffw` at a side's array.
unfoldable pub past : List Token → ℕ → Option ℕ
unfolding ffw
past arr i = if outside arr i then none else ffw (drop (i + 1) arr) i (token arr i).end'

-- The tokens of the data from `i` on.
unfoldable pub find_sides : ℕ → (Bytes → ℕ) → Bytes → List Token → ℕ → ℕ → Sides → Found
unfolding past found_next
find_sides zero hash base arr dend i s = searching
find_sides (suc fuel) hash base arr dend i s =
    let t = token arr i in
    let e = (token arr (i + 1)).end' in
    let hx = hash (text_at base t) in
    let is_bids = hx == hash (codes "bids") in
    let is_asks = hx == hash (codes "asks") in
    let s' : Sides =
      if is_bids
      then record s { bid = i + 1; eob = e }
      else if is_asks
      then record s { ask = i + 1; eoa = e }
      else s in
    let place = if is_bids || is_asks then past arr (i + 1) else some i in
    let more = found_next (find_sides fuel hash base arr dend) s' place in
    if outside arr i then lost else if not (ltb t.start dend) then found s else more

abbrev pub ins_text : Ins → Bytes
ins_text Ins.ins_unk = codes "??????"
ins_text Ins.ins_btcusd = codes "BTCUSD"
ins_text Ins.ins_btceur = codes "BTCEUR"
ins_text Ins.ins_eurusd = codes "EURUSD"

-- `'2' - (beef.ch == CHAN_BOOK)`
abbrev pub flavour : Chan → ℕ
flavour Chan.chan_book = b'2' - 1
flavour _ = b'2'

unfoldable pub ini_of : ℕ → Ins → Bytes
unfolding tvtostr
ini_of rt i = tvtostr rt ++ b'\t' ∷ (ins_text i ++ b'\t' ∷ [])

-- Of a book, the first line of a side has another flavour than those behind it.
unfoldable pub print_sides : ℕ → Bytes → List Token → Beef → Found → Printed
unfolding ini_of both one_side
print_sides rt base arr f (found s) =
    let ini = ini_of rt f.ins in
    let side = λ (c : ℕ) (eo : ℕ) (i : ℕ).
      one_side base (ini ++ c ∷ flavour f.ch ∷ b'\t' ∷ []) (ini ++ c ∷ b'2' ∷ b'\t' ∷ []) eo arr
        i in
    both (side b'B' s.eob s.bid) (side b'A' s.eoa s.ask)
print_sides rt base arr f Found.lost = fault
print_sides rt base arr f Found.searching = out_of_fuel

-- The switch over the channel. Trades and orders print nothing.
abbrev pub if_book : Chan → Printed → Printed
if_book Chan.chan_book book = book
if_book Chan.chan_diff book = book
if_book _ book = printed []

unfoldable pub on_beef : (Bytes → ℕ) → ℕ → Bytes → List Token → Filled → Printed
unfolding print_sides find_sides
on_beef hash rt base arr (filled f) =
    let book = print_sides rt base arr f (
      find_sides (suc (length arr)) hash base arr f.dend f.dbeg
        (record { bid = 0; eob = 0; ask = 0; eoa = 0 })) in
    if_book f.ch book
on_beef hash rt base arr Filled.strayed = fault
on_beef hash rt base arr Filled.endless = out_of_fuel

-- The finaliser is stored behind the tokens first.
unfoldable pub on_tokens : (Bytes → ℕ) → ℕ → Bytes → List Token → Option (List Token) → Printed
unfolding on_beef fill no_beef
on_tokens hash rt base stale none = printed []
on_tokens hash rt base stale (some toks) =
    let r = length toks in
    let arr = toks ++ stale in
    let arr' = set arr r (record (token arr r) { start = ulong_max }) in
    if r == 0 || not (is_object (token toks 0).typ)
    then printed []
    else if outside arr r
    then fault
    else on_beef hash rt base arr' (fill (suc r) hash base arr' r 1 no_beef)

-- What a line prints; `none` of `jsmn_parse` is its negative result.
unfoldable pub procln : (Bytes → ℕ) → (Bytes → Option (List Token)) → List Token → Bytes → Printed
unfolding on_tokens strtotv
procln hash jsmn_parse stale line =
    let (rt, on) = strtotv line in
    let base = drop 1 on in
    if rt == not_a_time
    then printed []
    else if not (peek on == b'\t')
    then printed []
    else if not (peek base == b'{')
    then printed []
    else on_tokens hash rt base stale (jsmn_parse base)
