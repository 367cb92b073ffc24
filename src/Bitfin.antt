-- ===== src/Bitfin.antt =====
-- The converter of bitfinex (src/bitfin2b.c): channels of 8 bits and what is subscribed on them.
pub mod Event
pub mod Ends
pub mod Levels
pub mod Trades
pub mod Tables
pub mod Names
use coins.Prelude.{
  ℕ, ◌+◌, ◌-◌, ◌%◌, ◌^◌, ◌||◌, Option, none, some, Bool, true, false, not, List, [], ◌∷◌, ◌++◌,
  Bytes, length, take, drop, get_or, set, replicate, ltb, leb, ◌==◌, if◌then◌else◌,
}
use coins.Libc.{codes, peek, starts_with, memchr, strtoul}
use coins.Search.{xmemmem}
use coins.Json.{copied}

-- `btf_subt_t`
pub data Subt : Type 0 where
  subt_unk subt_bok subt_top subt_tra : Subt

-- The static tables, with a place for each value of a `uint8_t`: the instrument in 16 octets, the
-- last of which is 15 less the length, and the kind of the subscription. `metr` is the stamp of the
-- line, and `wrote_outside` says whether a write has gone out of the tables.
pub record Btf : Type 0 where
  pub subins : List Bytes
  pub subtys : List Subt
  pub metr : ℕ
  pub wrote_outside : Bool

abbrev pub empty_ins : Bytes
empty_ins = replicate 16 0

unfoldable pub no_channels : Btf
no_channels = record {
  subins = replicate 256 empty_ins;
  subtys = replicate 256 subt_unk;
  metr = 0;
  wrote_outside = false;
}

abbrev pub ins_of : Btf → ℕ → Bytes
ins_of b ci = get_or b.subins ci empty_ins

unfoldable pub instostr : Btf → ℕ → Bytes
instostr b ci = take (15 - get_or (ins_of b ci) 15 0) (ins_of b ci)

-- The last octet is a `uint8_t`.
unfoldable pub strtoins : Bytes → ℕ → ℕ → Btf → Btf
unfolding copied
strtoins ins len ci b =
    let z = if ltb len 16 then len else 15 in
    let slot = copied z ins ++ drop z (ins_of b ci) in
    record b {
      subins = set b.subins ci (set slot 15 ((2 ^ 8 + 15 - z) % 2 ^ 8));
      wrote_outside = b.wrote_outside || leb 256 ci;
    }

abbrev pub sbok : Bytes
sbok = codes "\"event\":\"subscribed\",\"channel\":\"book\",\"chanId\":"

abbrev pub stop : Bytes
stop = codes "\"event\":\"subscribed\",\"channel\":\"ticker\",\"chanId\":"

abbrev pub stra : Bytes
stra = codes "\"event\":\"subscribed\",\"channel\":\"trades\",\"chanId\":"

abbrev pub pair : Bytes
pair = codes "\"pair\":"

-- The name of the instrument ends at the next quotation mark.
unfoldable pub memorise : Subt → ℕ → Option (Bytes × Bytes) → Btf → Option Btf
unfolding strtoins
memorise st ci none b = none
memorise st ci (some (name, rest)) b =
    let b' = strtoins (name ++ rest) (length name) ci b in
    some (record b' { subtys = set b'.subtys ci st })

-- `p` is behind the text `pair`.
unfoldable pub at_pair : Subt → ℕ → Bytes → Option ℕ → Btf → Option Btf
unfolding memorise memchr
at_pair st ci line none b = none
at_pair st ci line (some k) b =
    let p = drop k line in
    if not (peek p == b'"') then none else memorise st ci (memchr b'"' (drop 1 p)) b

-- The line from the channel's number on; the cast keeps 8 bits.
unfoldable pub at_channel : Subt → Bytes → Btf → Option Btf
unfolding at_pair strtoul xmemmem
at_channel st line b = at_pair st ((strtoul line).0 % 256) line (xmemmem line pair) b

-- `none` is the -1, which comes before anything is stored.
unfoldable pub subscr : Bytes → Btf → Option Btf
unfolding at_channel starts_with
subscr line b =
    if leb (length line) (length stra)
    then none
    else if starts_with sbok line
    then at_channel subt_bok (drop (length sbok) line) b
    else if starts_with stop line
    then at_channel subt_top (drop (length stop) line) b
    else if starts_with stra line
    then at_channel subt_tra (drop (length stra) line) b
    else none
