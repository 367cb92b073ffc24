-- ===== src/Libc/Chars.antt =====
-- What `memchr` finds.
use coins.Prelude.{
  Option, ◌≤◌, ◌<◌, length, Bool-cases, inl, inr, ◌==◌, suc, Bool, true, false, ℕ, ◌≡◌, ◌≢◌, refl,
  none, some, [], ◌∷◌, ◌++◌, Bytes, All, arith,
}
use coins.Libc.{skip_space, span_digits, finish_strtoul, after_sign, strtoul, memchr}

-- The first character that fits, if none stands before it.
pub memchr-append :
    (c : ℕ) (before rest : Bytes)
    → All (λ (d : ℕ). d ≢ c) before
    → memchr c (before ++ c ∷ rest) ≡ some (before, c ∷ rest)
unfolding memchr
memchr-append c [] rest h = ground arith
memchr-append c (d ∷ before) rest h = ground (arith, memchr-append c before rest h.1)

pub memchr-eq-none : (c : ℕ) (s : Bytes) → All (λ (d : ℕ). d ≢ c) s → memchr c s ≡ none
unfolding memchr
memchr-eq-none c [] h = refl
memchr-eq-none c (d ∷ s) h = ground (arith, memchr-eq-none c s h.1)

-- What is found is not longer, and not empty.
abbrev pub IsWithin : ℕ → Option (Bytes × Bytes) → Type 0
IsWithin n none = Unit
IsWithin n (some (before, rest)) = (length rest ≤ n) × (0 < length rest)

cons-IsWithin :
    (n d : ℕ) (o : Option (Bytes × Bytes))
    → IsWithin n o
    → IsWithin (suc n) (elim o [ none ↦ none | some (before, rest) ↦ some (d ∷ before, rest) ])
cons-IsWithin n d none h = tt
cons-IsWithin n d (some (before, rest)) h = (omega (arith, h.0), h.1)

pub memchr-IsWithin : (c : ℕ) (s : Bytes) → IsWithin (length s) (memchr c s)
unfolding memchr
memchr-IsWithin c [] = tt
memchr-IsWithin c (d ∷ s) = elim (Bool-cases (d == c)) [
  | inl here ↦ rw here (omega arith, omega arith)
  | inr later ↦ rw later (cons-IsWithin (length s) d (memchr c s) (memchr-IsWithin c s))
]

length-skip_space : (s : Bytes) → length (skip_space s) ≤ length s
unfolding skip_space
length-skip_space [] = omega arith
length-skip_space (c ∷ s) = ground (arith, length-skip_space s)

length-span_digits : (s : Bytes) → length (span_digits s).1 ≤ length s
unfolding span_digits
length-span_digits [] = omega arith
length-span_digits (c ∷ s) = ground (arith, length-span_digits s)

length-finish :
    (start : Bytes) (negative : Bool) (r : Bytes × Bytes)
    → length r.1 ≤ length start
    → length (finish_strtoul start negative r).1 ≤ length start
unfolding finish_strtoul
length-finish start negative ([], rest) h = omega arith
length-finish start negative (d ∷ ds, rest) h = h

length-after_sign :
    (start s : Bytes) → length s ≤ length start → length (after_sign start s).1 ≤ length start
unfolding after_sign
length-after_sign start [] h = omega arith
length-after_sign start (c ∷ s) h =
    let shorter = length-span_digits s in
    elim (Bool-cases (c == b'-')) [
      | inl minus ↦ rw minus (length-finish start true (span_digits s) (omega arith))
      | inr other ↦ rw other (elim (Bool-cases (c == b'+')) [
        | inl plus ↦ rw plus (length-finish start false (span_digits s) (omega arith))
        | inr digit ↦ rw digit (
            length-finish start false (span_digits (c ∷ s))
              (omega (arith, length-span_digits (c ∷ s))))
      ])
    ]

-- A number is read forwards.
pub length-strtoul : (s : Bytes) → length (strtoul s).1 ≤ length s
unfolding strtoul
length-strtoul s = length-after_sign s (skip_space s) (length-skip_space s)
