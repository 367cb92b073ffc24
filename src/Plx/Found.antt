-- ===== src/Plx/Found.antt =====
-- The events of a channel are those of a subscription that was confirmed for it.
use coins.Prelude.{
  ℕ, zero, suc, ◌+◌, ◌≤◌, ◌<◌, ◌≡◌, refl, ap, ◌∙◌, Option, none, some, Bool, true, false, not, List,
  [], ◌∷◌, Bytes, length, get_or, set, length-set, get_or-set, leb, ◌==◌, if◌then◌else◌, arith,
  Bool-cases, inl, inr, ==_iff,
}
use mathlib.Core.Path.{subst}
use coins.Json.{Token, token, is_primitive}
use coins.Plx.{set_channel, Plx, slot_of, toktoprim, subscd, find_sub}
use coins.Plx.Tables.{IsTables}

-- Where a channel stands, the search finds it there or before.
find_sub-get_or :
    (subid : ℕ) (subids : List ℕ) (from at : ℕ)
    → at < length subids
    → get_or subids at 0 ≡ subid
    → (ix : ℕ) × (find_sub subid subids from ≡ some (from + ix))
      × (ix ≤ at)
      × (get_or subids ix 0 ≡ subid)
unfolding find_sub
find_sub-get_or subid [] from at h k = absurd (omega arith)
find_sub-get_or subid (s ∷ subids) from zero h k = (0, ground arith, omega arith, k)
find_sub-get_or subid (s ∷ subids) from (suc at) h k = elim (Bool-cases (s == subid)) [
  | inl here ↦ (0, rw here (ground arith), omega arith, (==_iff s subid).0 here)
  | inr away ↦
      let (ix, found, le, channel) = find_sub-get_or subid subids (from + 1) at (omega arith) k in
      (suc ix, rw (away, found) (ap some (omega arith)), omega arith, channel)
]

some_injective : {A : Type 0} {a b : A} → ◌≡◌ {A = Option A} (some a) (some b) → a ≡ b
some_injective e = cc

unless-some :
    {A : Type 0} (b : Bool) (o : Option A) (a : A)
    → (if b then none else o) ≡ some a
    → (b ≡ false) × (o ≡ some a)
unless-some true o a h = absurd (cc)
unless-some false o a h = (refl, h)

-- A subscription with channel `subid` is found, at `subix` or before, and the instruments are those
-- of `p`.
abbrev Found : ℕ → ℕ → Plx → Plx → Type 0
Found subix subid p q =
    (ix : ℕ) × (find_sub subid q.subids 0 ≡ some ix)
    × (ix ≤ subix)
    × (get_or q.subids ix 0 ≡ subid)
    × (q.subins ≡ p.subins)

stored-Found :
    (subix subid : ℕ) (p : Plx)
    → IsTables p
    → subix < 128
    → Found subix subid p (set_channel subix subid p)
unfolding set_channel
stored-Found subix subid p h below =
    let (ix, found, le, channel) =
      find_sub-get_or subid (set p.subids subix subid) 0 subix
        (omega (arith, length-set p.subids subix subid, h.channels))
        (get_or-set p.subids subix subid 0 (omega (arith, h.channels))) in
    (ix, found ∙ ap some (omega arith), le, channel, refl)

-- After the confirmation of subscription `subix` with channel `subid`, the search for that channel
-- finds a subscription that has it, `subix` itself or one before it, and the instruments stay.
pub subscd-find_sub :
    (base : Bytes) (toks : List Token) (p p' : Plx)
    → IsTables p
    → subscd base toks p ≡ some p'
    → (ix : ℕ) × (find_sub (toktoprim base (token toks 3)) p'.subids 0 ≡ some ix)
      × (ix ≤ toktoprim base (token toks 2))
      × (get_or p'.subids ix 0 ≡ toktoprim base (token toks 3))
      × (p'.subins ≡ p.subins)
unfolding subscd
subscd-find_sub base toks p p' h e =
    let subix = toktoprim base (token toks 2) in
    let subid = toktoprim base (token toks 3) in
    let e1 = unless-some (leb (length toks) 3) _ p' e in
    let e2 = unless-some (not (is_primitive (token toks 2).typ)) _ p' e1.1 in
    let e3 = unless-some (not (is_primitive (token toks 3).typ)) _ p' e2.1 in
    let e4 = unless-some (leb 128 subix) _ p' e3.1 in
    let e5 = unless-some (get_or (slot_of p subix) 0 0 == 0) _ p' e4.1 in
    let below : subix < 128 = ground (arith, e4.0) in
    let stored : set_channel subix subid p ≡ p' = some_injective e5.1 in
    subst (Found subix subid p) stored (stored-Found subix subid p h below)
