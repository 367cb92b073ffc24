-- ===== src/Bitfin/Tables.antt =====
-- The tables of the converter of bitfinex stay well-formed.
use coins.Prelude.{
  [], ◌∷◌, List, ℕ, ◌%◌, ◌<◌, ◌≡◌, refl, ◌∙◌, Option, none, some, Bool, true, false, not, ◌++◌,
  Bytes, All, All-set, All-get_or, All-replicate, length, length-set, drop, set, leb, ◌==◌,
  if◌then◌else◌, arith,
}
use coins.Libc.{peek, memchr, strtoul, starts_with}
use coins.Slots.{IsSlot, name_size, name_size_le, slot_with, slot_with-IsSlot}
use coins.Clock.{strtotv, not_a_time}
use coins.Search.{xmemmem}
use coins.Output.{Printed}
use coins.Bitfin.{
  Subt, Btf, empty_ins, no_channels, ins_of, strtoins, sbok, stop, stra, pair, memorise, at_pair,
  at_channel, subscr,
}
use coins.Bitfin.Event.{convert, subscribed, procln}

-- There is a place for each channel, each name has its length in the last octet, and nothing was
-- written out of the tables.
pub record IsBtf (b : Btf) : Type 0 where
  pub names : length b.subins ≡ 256
  pub kinds : length b.subtys ≡ 256
  pub slots : All IsSlot b.subins
  pub inside : b.wrote_outside ≡ false

pub no_channels-IsBtf : IsBtf no_channels
unfolding no_channels
no_channels-IsBtf = record {
  names = refl;
  kinds = refl;
  slots = All-replicate IsSlot 256 empty_ins (refl, omega arith);
  inside = refl;
}

pub ins_of-IsSlot : (b : Btf) (ci : ℕ) → IsBtf b → IsSlot (ins_of b ci)
ins_of-IsSlot b ci h = All-get_or IsSlot b.subins ci empty_ins h.slots (refl, omega arith)

stored-IsBtf :
    (st : Subt) (ins : Bytes) (len ci : ℕ) (b : Btf)
    → ci < 256
    → IsBtf b
    → IsBtf (record (strtoins ins len ci b) { subtys = set b.subtys ci st })
unfolding strtoins
stored-IsBtf st ins len ci b small h =
    let slot = slot_with ins (name_size len) (ins_of b ci) in
    record {
      names = length-set b.subins ci slot ∙ h.names;
      kinds = length-set b.subtys ci st ∙ h.kinds;
      slots = All-set IsSlot b.subins ci slot h.slots (
          slot_with-IsSlot ins (name_size len) (ins_of b ci) (name_size_le len)
            (ins_of-IsSlot b ci h).0);
      inside = ground (arith, h.inside);
    }

memorise-IsBtf :
    (st : Subt) (ci : ℕ) (o : Option (Bytes × Bytes)) (b : Btf)
    → ci < 256
    → IsBtf b
    → IsBtf (subscribed b (memorise st ci o b))
unfolding memorise strtoins
memorise-IsBtf st ci none b small h = h
memorise-IsBtf st ci (some (name, rest)) b small h =
    stored-IsBtf st (name ++ rest) (length name) ci b small h

either-IsBtf :
    (c : Bool) (b : Btf) (o p : Option Btf)
    → IsBtf (subscribed b o)
    → IsBtf (subscribed b p)
    → IsBtf (subscribed b (if c then o else p))
either-IsBtf true b o p h k = h
either-IsBtf false b o p h k = k

at_pair-IsBtf :
    (st : Subt) (ci : ℕ) (line : Bytes) (o : Option ℕ) (b : Btf)
    → ci < 256
    → IsBtf b
    → IsBtf (subscribed b (at_pair st ci line o b))
unfolding at_pair
at_pair-IsBtf st ci line none b small h = h
at_pair-IsBtf st ci line (some k) b small h =
    either-IsBtf (not (peek (drop k line) == b'"')) b none _ h
      (memorise-IsBtf st ci (memchr b'"' (drop 1 (drop k line))) b small h)

subscr-IsBtf : (line : Bytes) (b : Btf) → IsBtf b → IsBtf (subscribed b (subscr line b))
unfolding subscr at_channel
subscr-IsBtf line b h =
    let kept = λ (st : Subt) (s : Bytes).
      at_pair-IsBtf st ((strtoul s).0 % 256) s (xmemmem s pair) b (omega arith) h in
    either-IsBtf (leb (length line) (length stra)) b none _ h (
      either-IsBtf (starts_with sbok line) b _ _ (kept Subt.subt_bok (drop (length sbok) line)) (
        either-IsBtf (starts_with stop line) b _ _ (kept Subt.subt_top (drop (length stop) line)) (
          either-IsBtf (starts_with stra line) b _ none
            (kept Subt.subt_tra (drop (length stra) line)) h)))

either-pair :
    (c : Bool) (r s : Btf × Printed) → IsBtf r.0 → IsBtf s.0 → IsBtf (if c then r else s).0
either-pair true r s h k = h
either-pair false r s h k = k

pub procln-IsBtf : (line : Bytes) (b : Btf) → IsBtf b → IsBtf (procln line b).0
unfolding procln
procln-IsBtf line b h =
    let r = strtotv line in
    let b' : Btf = record b { metr = r.0 } in
    let h' : IsBtf b' = record {
      names = h.names;
      kinds = h.kinds;
      slots = h.slots;
      inside = h.inside;
    } in
    either-pair (r.0 == not_a_time) _ _ h' (
      either-pair (not (peek r.1 == b'\t')) _ _ h' (
        either-pair (peek (drop 1 r.1) == b'{') _ _ (subscr-IsBtf (drop 1 (drop 1 r.1)) b' h')
          (either-pair (peek (drop 1 r.1) == b'[') _ _ h' h')))

convert_keeps : (lines : List Bytes) (b : Btf) → IsBtf b → IsBtf (convert lines b).0
convert_keeps [] b h = h
convert_keeps (line ∷ lines) b h = convert_keeps lines (procln line b).0 (procln-IsBtf line b h)

-- Whatever lines are read, no write goes out of the tables, there is a name and a kind for each of
-- the 256 channels, and each name has 16 octets, the last of which is at most 15.
pub convert-IsBtf : (lines : List Bytes) → IsBtf (convert lines no_channels).0
convert-IsBtf lines = convert_keeps lines no_channels no_channels-IsBtf
