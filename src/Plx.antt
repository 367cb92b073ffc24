-- ===== src/Plx.antt =====
-- The converter of poloniex (src/plx2b.c): channels and their instruments. The tokens of a line and
-- the hash of a text are what src/jsmn.c and src/hash.c give, and are arguments.
pub mod Tables
pub mod Found
pub mod Event
use coins.Prelude.{
  ℕ, zero, suc, ◌+◌, ◌-◌, ◌%◌, ◌^◌, ◌||◌, Option, none, some, Bool, true, false, not, ◌&&◌, List,
  [], ◌∷◌, ◌++◌, Bytes, length, take, drop, get_or, set, replicate, ltb, leb, ◌==◌, if◌then◌else◌,
}
use coins.Json.{Token, is_primitive, is_string, token, copied}
use coins.Libc.{ulong_max, strtoul}

-- The static tables: the channel of each subscription, and its instrument in 16 octets, the last
-- of which is 15 less the length; and whether a write has gone out of the tables.
pub record Plx : Type 0 where
  pub subids : List ℕ
  pub subins : List Bytes
  pub metr : ℕ
  pub wrote_outside : Bool

abbrev pub empty_slot : Bytes
empty_slot = replicate 16 0

unfoldable pub no_subscriptions : Plx
no_subscriptions = record {
  subids = replicate 128 0;
  subins = replicate 128 empty_slot;
  metr = 0;
  wrote_outside = false;
}

abbrev pub not_a_prim : ℕ
not_a_prim = ulong_max

unfoldable pub strtoprim : Bytes → ℕ → ℕ
unfolding strtoul
strtoprim str len =
    let r = strtoul str in if length str - length r.1 == len then r.0 else not_a_prim

abbrev pub slot_of : Plx → ℕ → Bytes
slot_of p iid = get_or p.subins iid empty_slot

unfoldable pub instostr : Plx → ℕ → Bytes
instostr p iid = take (15 - get_or (slot_of p iid) 15 0) (slot_of p iid)

-- The last octet is a `uint8_t`.
unfoldable pub strtoins : Bytes → ℕ → ℕ → Plx → Plx
unfolding copied
strtoins ins len iid p =
    let z = if ltb len 16 then len else 15 in
    let slot = copied z ins ++ drop z (slot_of p iid) in
    record p {
      subins = set p.subins iid (set slot 15 ((2 ^ 8 + 15 - z) % 2 ^ 8));
      wrote_outside = p.wrote_outside || leb 128 iid;
    }

-- `subids[ix] = subid`
unfoldable pub set_channel : ℕ → ℕ → Plx → Plx
set_channel ix subid p = record p {
  subids = set p.subids ix subid;
  wrote_outside = p.wrote_outside || leb 128 ix;
}

unfoldable pub toktoprim : Bytes → Token → ℕ
unfolding strtoprim
toktoprim base t = strtoprim (drop t.start base) (t.end' - t.start)

-- A subscription; `none` is the -1, which comes before anything is stored.
unfoldable pub subscr : Bytes → List Token → Plx → Option Plx
unfolding strtoins set_channel toktoprim
subscr base toks p =
    let subid = toktoprim base (token toks 2) in
    let ins = token toks 4 in
    if leb (length toks) 4
    then none
    else if not (is_primitive (token toks 2).typ)
    then none
    else if not (is_string ins.typ)
    then none
    else if leb 128 subid
    then none
    else some (strtoins (drop ins.start base) (ins.end' - ins.start) subid (set_channel subid 0 p))

-- The confirmation of a subscription, with its channel.
unfoldable pub subscd : Bytes → List Token → Plx → Option Plx
unfolding set_channel toktoprim
subscd base toks p =
    let subix = toktoprim base (token toks 2) in
    let subid = toktoprim base (token toks 3) in
    if leb (length toks) 3
    then none
    else if not (is_primitive (token toks 2).typ)
    then none
    else if not (is_primitive (token toks 3).typ)
    then none
    else if leb 128 subix
    then none
    else if get_or (slot_of p subix) 0 0 == 0
    then none
    else some (set_channel subix subid p)

-- The first subscription of a channel, from index `ix` on.
unfoldable pub find_sub : ℕ → List ℕ → ℕ → Option ℕ
find_sub subid [] ix = none
find_sub subid (s ∷ subids) ix =
    let later = find_sub subid subids (ix + 1) in if s == subid then some ix else later
