-- ===== src/Plx/Tables.antt =====
-- What is stored of an instrument is what is printed of it.
use coins.Prelude.{
  ℕ, ◌-◌, ◌<◌, ◌≡◌, ◌≢◌, refl, ap, ◌∙◌, Option, none, some, List, Bytes, length, take, drop,
  length-set, get_or-set, get_or-set_other, All-set, All-get_or, All-replicate, get_or, leb, ◌==◌,
  if◌then◌else◌, arith, All, Bool, true, false, not, Bool-cases, inl, inr,
}
use coins.Slots.{IsSlot, name_size, name_size_le, slot_with, slot_with-IsSlot, slot_name}
use coins.Json.{Token, token, is_primitive, is_string, copied}
use coins.Plx.{
  Plx, no_subscriptions, slot_of, empty_slot, instostr, strtoins, subscr, subscd, toktoprim,
  set_channel,
}

pub record IsTables (p : Plx) : Type 0 where
  pub channels : length p.subids ≡ 128
  pub instruments : length p.subins ≡ 128
  pub slots : All IsSlot p.subins
  pub inside : p.wrote_outside ≡ false

slot_of-IsSlot : (p : Plx) (iid : ℕ) → IsTables p → IsSlot (slot_of p iid)
slot_of-IsSlot p iid h = All-get_or IsSlot p.subins iid empty_slot h.slots (refl, omega arith)

-- What is printed for a subscription is the name that was stored for it, cut to 15 octets, and what
-- is printed for the others stays.
pub instostr-strtoins :
    (ins : Bytes) (len iid other : ℕ) (p : Plx)
    → IsTables p
    → iid < 128
    → iid ≢ other
    → (instostr (strtoins ins len iid p) iid ≡ copied (name_size len) ins)
      × (instostr (strtoins ins len iid p) other ≡ instostr p other)
unfolding instostr strtoins
instostr-strtoins ins len iid other p h small apart =
    let slot = slot_with ins (name_size len) (slot_of p iid) in
    (
      ap (λ (s : Bytes). take (15 - get_or s 15 0) s)
            (get_or-set p.subins iid slot empty_slot (omega (arith, h.instruments)))
          ∙ slot_name ins (name_size len) (slot_of p iid) (name_size_le len)
              (slot_of-IsSlot p iid h).0,
      ap (λ (s : Bytes). take (15 - get_or s 15 0) s)
          (get_or-set_other p.subins iid other slot empty_slot apart),
    )

pub strtoins-IsTables :
    (ins : Bytes) (len iid : ℕ) (p : Plx)
    → iid < 128
    → IsTables p
    → IsTables (strtoins ins len iid p)
unfolding strtoins
strtoins-IsTables ins len iid p small h =
    let slot = slot_with ins (name_size len) (slot_of p iid) in
    record {
      channels = h.channels;
      instruments = length-set p.subins iid slot ∙ h.instruments;
      slots = All-set IsSlot p.subins iid slot h.slots (
          slot_with-IsSlot ins (name_size len) (slot_of p iid) (name_size_le len)
            (slot_of-IsSlot p iid h).0);
      inside = ground (arith, h.inside);
    }

pub channel-IsTables : (p : Plx) (ix v : ℕ) → ix < 128 → IsTables p → IsTables (set_channel ix v p)
unfolding set_channel
channel-IsTables p ix v small h = record {
  channels = length-set p.subids ix v ∙ h.channels;
  instruments = h.instruments;
  slots = h.slots;
  inside = ground (arith, h.inside);
}

-- The tables, or those after a message that was taken.
pub data AreTables : Option Plx → Type 0 where
  refused : AreTables none
  taken : {p : Plx} → IsTables p → AreTables (some p)

either-AreTables : (b : Bool) (o : Option Plx) → AreTables o → AreTables (if b then none else o)
either-AreTables true o h = refused
either-AreTables false o h = h

within-AreTables :
    (ix : ℕ) (o : Option Plx)
    → (ix < 128 → AreTables o)
    → AreTables (if leb 128 ix then none else o)
within-AreTables ix o h = elim (Bool-cases (leb 128 ix)) [
  | inl out ↦ rw out refused
  | inr in' ↦ rw in' (h (ground (arith, in')))
]

pub subscr-AreTables :
    (base : Bytes) (toks : List Token) (p : Plx) → IsTables p → AreTables (subscr base toks p)
unfolding subscr
subscr-AreTables base toks p h =
    let subid = toktoprim base (token toks 2) in
    let ins = token toks 4 in
    either-AreTables (leb (length toks) 4) _ (
      either-AreTables (not (is_primitive (token toks 2).typ)) _ (
        either-AreTables (not (is_string ins.typ)) _ (
          within-AreTables subid _ (λ small. taken (
            strtoins-IsTables (drop ins.start base) (ins.end' - ins.start) subid
              (set_channel subid 0 p) small (channel-IsTables p subid 0 small h))))))

pub subscd-AreTables :
    (base : Bytes) (toks : List Token) (p : Plx) → IsTables p → AreTables (subscd base toks p)
unfolding subscd
subscd-AreTables base toks p h =
    let subix = toktoprim base (token toks 2) in
    let subid = toktoprim base (token toks 3) in
    either-AreTables (leb (length toks) 3) _ (
      either-AreTables (not (is_primitive (token toks 2).typ)) _ (
        either-AreTables (not (is_primitive (token toks 3).typ)) _ (
          within-AreTables subix _ (λ small.
            either-AreTables (get_or (slot_of p subix) 0 0 == 0) _
              (taken (channel-IsTables p subix subid small h))))))

pub no_subscriptions-IsTables : IsTables no_subscriptions
unfolding no_subscriptions
no_subscriptions-IsTables = record {
  channels = refl;
  instruments = refl;
  slots = All-replicate IsSlot 128 empty_slot (refl, omega arith);
  inside = refl;
}
