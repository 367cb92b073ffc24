-- ===== src/Search/Correct.antt =====
-- `xmemmem` finds what the naive search finds, and with it the first occurrence of the needle.
use coins.Prelude.{
  ℕ, ◌+◌, ◌≤◌, ◌≡◌, refl, sym, ◌∙◌, ap, ap₂, true, false, ◌&&◌, Option, none, some, [], ◌∷◌, ◌++◌,
  Bytes, ◌==◌, bit_xor, if◌then◌else◌, length, length-take, take, drop, take-append-drop, arith,
  Bool-cases, inl, inr, ==_iff,
}
use native.Mathlib.Decide.{dec_le}
use native.Mathlib.Nat.{add-zero, zero-add}
use coins.Prelude.Xor.{zero-bit_xor}
use mathlib.Core.Path.{subst}
use coins.Libc.{starts_with, memchr}
use coins.Search.{from_candidate, uint_of_char, roll, match_from, xmemmem, find_after}
use coins.Search.Rolling.{
  xor_sum, find_after_short, find_later, find_after_step, roll-find_later, scan_heads_long,
  scan_heads_short,
}

starts_with_same : (n : ℕ) (np hp : Bytes) → starts_with (n ∷ np) (n ∷ hp) ≡ starts_with np hp
unfolding starts_with
starts_with_same n np hp = ground arith

pub starts_with_ne :
    (n d : ℕ) (np s : Bytes) → (d == n) ≡ false → starts_with (n ∷ np) (d ∷ s) ≡ false
unfolding starts_with
starts_with_ne n d np s h = ground arith

-- Behind the first character, the two loops are the naive search.
match_from-find_after :
    (n : ℕ) (np hp : Bytes) (skipped : ℕ)
    → match_from (n ∷ np) skipped (n ∷ hp) ≡ find_after (n ∷ np) (n ∷ hp) skipped
unfolding match_from
match_from-find_after n np hp skipped = elim (dec_le (length np) (length hp)) [
  | no short ↦
      let (c, more, e) =
        scan_heads_short np hp (uint_of_char n) (uint_of_char n) true (omega arith) in
      rw (e, match_from) (sym (find_after_short (n ∷ np) (n ∷ hp) skipped (omega arith)))
  | yes long ↦
      let f = scan_heads_long np hp (uint_of_char n) (uint_of_char n) true long in
      rw (f.0, f.1, f.2, f.3, f.4, match_from) (chosen long)
]
  where
    from_zero : uint_of_char n ≡ bit_xor 0 (uint_of_char n)
    from_zero = sym (zero-bit_xor (uint_of_char n))

    rolled :
        length np ≤ length hp
        → roll
            (n ∷ np)
            (xor_sum (uint_of_char n) np)
            (n ∷ hp)
            (drop (length np) hp)
            skipped
            (xor_sum (uint_of_char n) (take (length np) hp))
          ≡ find_later (n ∷ np) (n ∷ hp) skipped
    rolled long =
        subst
          (λ (t : Bytes).
            roll (n ∷ np) (xor_sum (uint_of_char n) np) (n ∷ t) (drop (length np) hp) skipped
              (xor_sum (uint_of_char n) (take (length np) hp))
            ≡ find_later (n ∷ np) (n ∷ t) skipped)
          (take-append-drop (length np) hp)
          (ap
              (λ (t : ℕ).
                roll (n ∷ np) (xor_sum t np) (n ∷ take (length np) hp ++ drop (length np) hp)
                  (drop (length np) hp) skipped (xor_sum (uint_of_char n) (take (length np) hp)))
              from_zero
            ∙ roll-find_later n np (n ∷ take (length np) hp) (drop (length np) hp) skipped
                (xor_sum (uint_of_char n) (take (length np) hp))
                (omega (arith, length-take (length np) hp))
                (ap (λ (t : ℕ). xor_sum t (take (length np) hp)) from_zero))

    chosen :
        length np ≤ length hp
        → (if true && starts_with np hp
            then some (skipped + length (n ∷ np))
            else roll
                (n ∷ np)
                (xor_sum (uint_of_char n) np)
                (n ∷ hp)
                (drop (length np) hp)
                skipped
                (xor_sum (uint_of_char n) (take (length np) hp)))
          ≡ find_after (n ∷ np) (n ∷ hp) skipped
    chosen long =
        rw (rolled long, ← starts_with_same n np hp)
          (sym (find_after_step (n ∷ np) (n ∷ hp) skipped))

-- The naive search in what `memchr` leaves.
abbrev in_candidate : Bytes → ℕ → Option (Bytes × Bytes) → Option ℕ
in_candidate ndl offset none = none
in_candidate ndl offset (some (before, rest)) = find_after ndl rest (offset + length before)

-- No occurrence begins before the first character that fits.
memchr-find_after :
    (n : ℕ) (np hay : Bytes) (offset : ℕ)
    → in_candidate (n ∷ np) offset (memchr n hay) ≡ find_after (n ∷ np) hay offset
unfolding memchr
memchr-find_after n np [] offset = sym (find_after_short (n ∷ np) [] offset (omega arith))
memchr-find_after n np (d ∷ s) offset = elim (Bool-cases (d == n)) [
  | inl same ↦ rw same (ap (λ (t : ℕ). find_after (n ∷ np) (d ∷ s) t) (add-zero offset))
  | inr differs ↦ rw differs (
      cons_candidate (memchr n s)
      ∙ memchr-find_after n np s (offset + 1)
      ∙ sym (find_after_step (n ∷ np) (d ∷ s) offset ∙ rw (starts_with_ne n d np s differs) refl))
]
  where
    cons_candidate :
        (o : Option (Bytes × Bytes))
        → in_candidate
            (n ∷ np)
            offset
            (elim o [ none ↦ none | some (before, rest) ↦ some (d ∷ before, rest) ])
          ≡ in_candidate (n ∷ np) (offset + 1) o
    cons_candidate none = refl
    cons_candidate (some (before, rest)) = ap (λ (t : ℕ). find_after (n ∷ np) rest t) (omega arith)

abbrev StartsAt : ℕ → Option (Bytes × Bytes) → Type 0
StartsAt n none = Unit
StartsAt n (some (before, rest)) = (t : Bytes) × (rest ≡ n ∷ t)

memchr-StartsAt : (n : ℕ) (hay : Bytes) → StartsAt n (memchr n hay)
unfolding memchr
memchr-StartsAt n [] = tt
memchr-StartsAt n (d ∷ s) = elim (Bool-cases (d == n)) [
  | inl same ↦ rw same (s, ap (λ (t : ℕ). t ∷ s) ((==_iff d n).0 same))
  | inr differs ↦ rw differs (cons_starts (memchr n s) (memchr-StartsAt n s))
]
  where
    cons_starts :
        (o : Option (Bytes × Bytes))
        → StartsAt n o
        → StartsAt n (elim o [ none ↦ none | some (before, rest) ↦ some (d ∷ before, rest) ])
    cons_starts none h = tt
    cons_starts (some (before, rest)) h = h

from_candidate-in_candidate :
    (n : ℕ) (np : Bytes) (o : Option (Bytes × Bytes))
    → StartsAt n o
    → from_candidate (n ∷ np) o ≡ in_candidate (n ∷ np) 0 o
unfolding from_candidate
from_candidate-in_candidate n np none h = refl
from_candidate-in_candidate n np (some (before, rest)) h =
    rw (h.1, zero-add (length before)) (match_from-find_after n np h.0 (length before))

-- The rolling search returns what the naive search returns, at every haystack and needle.
pub xmemmem-find_after : (hay ndl : Bytes) → xmemmem hay ndl ≡ find_after ndl hay 0
unfolding xmemmem starts_with
xmemmem-find_after hay [] = sym (find_after_step [] hay 0)
xmemmem-find_after hay (n ∷ np) =
    from_candidate-in_candidate n np (memchr n hay) (memchr-StartsAt n hay)
    ∙ memchr-find_after n np hay 0

starts_with-split :
    (ndl hay : Bytes) → starts_with ndl hay ≡ true → (after : Bytes) × (hay ≡ ndl ++ after)
unfolding starts_with
starts_with-split [] hay h = (hay, refl)
starts_with-split (x ∷ nd) [] h = absurd (cc)
starts_with-split (x ∷ nd) (c ∷ hay) h =
    let parts : ((x == c) ≡ true) × (starts_with nd hay ≡ true) = ground arith in
    let (after, e) = starts_with-split nd hay parts.1 in
    (after, ap₂ ◌∷◌ (sym ((==_iff x c).0 parts.0)) e)

pub starts_with-append : (ndl after : Bytes) → starts_with ndl (ndl ++ after) ≡ true
unfolding starts_with
starts_with-append [] after = refl
starts_with-append (x ∷ nd) after = ground (arith, starts_with-append nd after)

find_after-split :
    (ndl hay : Bytes) (offset e : ℕ)
    → find_after ndl hay offset ≡ some e
    → (before : Bytes) × (after : Bytes) × (hay ≡ before ++ (ndl ++ after))
      × (e ≡ offset + length before + length ndl)
find_after-split ndl [] offset e h = elim (Bool-cases (starts_with ndl [])) [
  | inl here ↦
      let (after, split) = starts_with-split ndl [] here in
      ([], after, split, ground (arith, find_after_step ndl [] offset))
  | inr away ↦ absurd (ground (arith, find_after_step ndl [] offset))
]
find_after-split ndl (c ∷ hay) offset e h = elim (Bool-cases (starts_with ndl (c ∷ hay))) [
  | inl here ↦
      let (after, split) = starts_with-split ndl (c ∷ hay) here in
      ([], after, split, ground (arith, find_after_step ndl (c ∷ hay) offset))
  | inr away ↦
      let (before, after, split, at) =
        find_after-split ndl hay (offset + 1) e
          (ground (arith, find_after_step ndl (c ∷ hay) offset)) in
      (c ∷ before, after, ap (λ (t : Bytes). c ∷ t) split, omega arith)
]

find_after-first :
    (ndl before after : Bytes) (offset : ℕ)
    → (e : ℕ) × (find_after ndl (before ++ (ndl ++ after)) offset ≡ some e)
      × (e ≤ offset + length before + length ndl)
find_after-first ndl [] after offset = (
  offset + length ndl,
  find_after_step ndl (ndl ++ after) offset ∙ rw (starts_with-append ndl after) refl,
  omega arith,
)
find_after-first ndl (b ∷ before) after offset =
    elim (Bool-cases (starts_with ndl (b ∷ (before ++ (ndl ++ after))))) [
      | inl here ↦ (
        offset + length ndl,
        find_after_step ndl (b ∷ (before ++ (ndl ++ after))) offset ∙ rw here refl,
        omega arith,
      )
      | inr away ↦
          let (e, found, bound) = find_after-first ndl before after (offset + 1) in
          (
            e,
            find_after_step ndl (b ∷ (before ++ (ndl ++ after))) offset ∙ rw away found,
            omega arith,
          )
    ]

-- What is found is an occurrence of the needle, and the result is the offset behind it.
pub xmemmem-split :
    (hay ndl : Bytes) (e : ℕ)
    → xmemmem hay ndl ≡ some e
    → (before : Bytes) × (after : Bytes) × (hay ≡ before ++ (ndl ++ after))
      × (e ≡ length before + length ndl)
xmemmem-split hay ndl e h =
    let (before, after, split, at) =
      find_after-split ndl hay 0 e (sym (xmemmem-find_after hay ndl) ∙ h) in
    (before, after, split, omega arith)

-- Wherever the needle occurs, something is found, and it ends no later than that occurrence.
pub xmemmem-first :
    (ndl before after : Bytes)
    → (e : ℕ) × (xmemmem (before ++ (ndl ++ after)) ndl ≡ some e) × (e ≤ length before + length ndl)
xmemmem-first ndl before after =
    let (e, found, bound) = find_after-first ndl before after 0 in
    (e, xmemmem-find_after (before ++ (ndl ++ after)) ndl ∙ found, omega arith)
