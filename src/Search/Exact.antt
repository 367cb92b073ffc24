-- ===== src/Search/Exact.antt =====
-- Where the first character of a needle does not stand before it, that is where it is found.
use coins.Prelude.{
  Bool-cases, inl, inr, sym, ℕ, ◌+◌, ◌≡◌, ◌≢◌, refl, ap, ◌∙◌, none, some, false, [], ◌∷◌, ◌++◌,
  Bytes, All, length, arith, ◌==◌,
}
use coins.Libc.{starts_with}
use coins.Search.{xmemmem, find_after}
use coins.Search.Rolling.{find_after_step}
use coins.Search.Correct.{xmemmem-find_after, starts_with-append, starts_with_ne}

find_after-append :
    (n : ℕ) (np before after : Bytes) (offset : ℕ)
    → All (λ (c : ℕ). c ≢ n) before
    → find_after (n ∷ np) (before ++ (n ∷ np ++ after)) offset
      ≡ some (offset + length before + length (n ∷ np))
find_after-append n np [] after offset h =
    find_after_step (n ∷ np) (n ∷ np ++ after) offset
    ∙ rw (starts_with-append (n ∷ np) after) (ap some (omega arith))
find_after-append n np (b ∷ before) after offset h =
    let other : (b == n) ≡ false = ground arith in
    find_after_step (n ∷ np) (b ∷ (before ++ (n ∷ np ++ after))) offset
    ∙ rw (starts_with_ne n b np (before ++ (n ∷ np ++ after)) other)
        (find_after-append n np before after (offset + 1) h.1 ∙ ap some (omega arith))

pub xmemmem-append :
    (n : ℕ) (np before after : Bytes)
    → All (λ (c : ℕ). c ≢ n) before
    → xmemmem (before ++ (n ∷ np ++ after)) (n ∷ np) ≡ some (length before + length (n ∷ np))
xmemmem-append n np before after h =
    xmemmem-find_after (before ++ (n ∷ np ++ after)) (n ∷ np)
    ∙ find_after-append n np before after 0 h
    ∙ ap some (omega arith)

find_after-skip :
    (n : ℕ) (np before rest : Bytes) (offset : ℕ)
    → All (λ (c : ℕ). c ≢ n) before
    → find_after (n ∷ np) (before ++ rest) offset
      ≡ find_after (n ∷ np) rest (offset + length before)
find_after-skip n np [] rest offset h = ap (λ (k : ℕ). find_after (n ∷ np) rest k) (omega arith)
find_after-skip n np (c ∷ before) rest offset h =
    let other : (c == n) ≡ false = ground arith in
    find_after_step (n ∷ np) (c ∷ (before ++ rest)) offset
    ∙ rw (starts_with_ne n c np (before ++ rest) other) (
        find_after-skip n np before rest (offset + 1) h.1
        ∙ ap (λ (k : ℕ). find_after (n ∷ np) rest k) (omega arith))

find_after-offset :
    (ndl s : Bytes) (k l : ℕ) → find_after ndl s k ≡ none → find_after ndl s l ≡ none
find_after-offset ndl [] k l h = elim (Bool-cases (starts_with ndl [])) [
  | inl here ↦ absurd (ground (arith, find_after_step ndl [] k))
  | inr away ↦ find_after_step ndl [] l ∙ rw away refl
]
find_after-offset ndl (c ∷ s) k l h = elim (Bool-cases (starts_with ndl (c ∷ s))) [
  | inl here ↦ absurd (ground (arith, find_after_step ndl (c ∷ s) k))
  | inr away ↦
      find_after_step ndl (c ∷ s) l
      ∙ rw away
          (find_after-offset ndl s (k + 1) (l + 1) (ground (arith, find_after_step ndl (c ∷ s) k)))
]

-- Where the needle is not in the rest either.
pub xmemmem-skip :
    (n : ℕ) (np before rest : Bytes)
    → All (λ (c : ℕ). c ≢ n) before
    → xmemmem rest (n ∷ np) ≡ none
    → xmemmem (before ++ rest) (n ∷ np) ≡ none
xmemmem-skip n np before rest h e =
    xmemmem-find_after (before ++ rest) (n ∷ np)
    ∙ find_after-skip n np before rest 0 h
    ∙ find_after-offset (n ∷ np) rest 0 (0 + length before)
        (sym (xmemmem-find_after rest (n ∷ np)) ∙ e)
