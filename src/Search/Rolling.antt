-- ===== src/Search/Rolling.antt =====
-- The rolling sum of `xmemmem`: what the two loops compute, in terms of the window they stand at.
use coins.Prelude.{
  ℕ, suc, ◌+◌, ◌-◌, ◌≤◌, ◌<◌, ◌≡◌, refl, sym, ◌∙◌, ap, Bool, true, false, ◌&&◌, Option, none, some,
  [], ◌∷◌, ◌++◌, append_assoc, append-nil, Bytes, ◌==◌, bit_xor, if◌then◌else◌, length,
  length-append, take, drop, arith, Bool-cases, inl, inr, ==_iff,
}
use coins.Prelude.Xor.{
  zero-bit_xor, bit_xor_comm, bit_xor_assoc, bit_xor_cancel, bit_xor_left_injective,
}
use coins.Libc.{starts_with}
use mathlib.Core.Path.{subst}
use coins.Search.{uint_of_char, scan_heads, roll, find_after}

-- The exclusive or of a run of characters.
abbrev pub xor_sum : ℕ → Bytes → ℕ
xor_sum acc [] = acc
xor_sum acc (c ∷ s) = xor_sum (bit_xor acc (uint_of_char c)) s

xor_sum_acc : (acc : ℕ) (s : Bytes) → xor_sum acc s ≡ bit_xor acc (xor_sum 0 s)
xor_sum_acc acc [] = cc (bit_xor_comm acc 0, zero-bit_xor acc)
xor_sum_acc acc (c ∷ s) = cc (
  xor_sum_acc (bit_xor acc (uint_of_char c)) s,
  xor_sum_acc (bit_xor 0 (uint_of_char c)) s,
  zero-bit_xor (uint_of_char c),
  bit_xor_assoc acc (uint_of_char c) (xor_sum 0 s),
)

xor_sum-snoc :
    (acc : ℕ) (s : Bytes) (h : ℕ)
    → xor_sum acc (s ++ h ∷ []) ≡ bit_xor (xor_sum acc s) (uint_of_char h)
xor_sum-snoc acc [] h = refl
xor_sum-snoc acc (c ∷ s) h = xor_sum-snoc (bit_xor acc (uint_of_char c)) s h

-- Taking the first character out and the next one in moves the window by one.
pub xor_sum_moves :
    (c : ℕ) (w : Bytes) (h : ℕ)
    → bit_xor (bit_xor (xor_sum 0 (c ∷ w)) (uint_of_char c)) (uint_of_char h)
      ≡ xor_sum 0 (w ++ h ∷ [])
xor_sum_moves c w h = cc (
  xor_sum-snoc 0 w h,
  xor_sum_acc (bit_xor 0 (uint_of_char c)) w,
  zero-bit_xor (uint_of_char c),
  bit_xor_comm (bit_xor (uint_of_char c) (xor_sum 0 w)) (uint_of_char c),
  bit_xor_cancel (uint_of_char c) (xor_sum 0 w),
)

uint_of_char-injective : (a b : ℕ) → uint_of_char a ≡ uint_of_char b → a ≡ b
uint_of_char-injective a b h = ground arith

last_by_sum :
    (acc x h : ℕ) → (bit_xor acc (uint_of_char h) == bit_xor acc (uint_of_char x)) ≡ (x == h)
last_by_sum acc x h = elim (Bool-cases (x == h)) [
  | inl same ↦
      let e : x ≡ h = (==_iff x h).0 same in
      rw e (
        let r = (==_iff h h).1 refl in
        (==_iff (bit_xor acc (uint_of_char h)) (bit_xor acc (uint_of_char h))).1 refl ∙ sym r)
  | inr differs ↦
      rw differs (elim (Bool-cases (bit_xor acc (uint_of_char h) == bit_xor acc (uint_of_char x))) [
        | inr f ↦ f
        | inl t ↦ absurd (
            ground (
              arith,
              differs,
              uint_of_char-injective h x
                  (bit_xor_left_injective acc (uint_of_char h) (uint_of_char x) ((==_iff _ _).0 t)),
            ))
      ])
]

and_false : (b : Bool) → (b && false) ≡ false
and_false true = refl
and_false false = refl

and_true : (b : Bool) → (b && true) ≡ b
and_true true = refl
and_true false = refl

and_swap : (b : Bool) (c x : ℕ) (t : Bool) → ((b && c == x) && t) ≡ (b && (x == c && t))
and_swap true c x t = elim (Bool-cases (x == c)) [
  | inl same ↦ rw (same, (==_iff c x).1 (sym ((==_iff x c).0 same)))
  | inr differs ↦ ground (arith, differs)
]
and_swap false c x t = refl

-- Equal sums and all characters but the last equal: so is the last.
pub window_test :
    (acc : ℕ) (ndl w : Bytes) (h : ℕ) (hp : Bytes)
    → length ndl ≡ suc (length w)
    → ((xor_sum acc (w ++ h ∷ []) == xor_sum acc ndl)
        && starts_with (take (length w) ndl) (w ++ h ∷ hp))
      ≡ starts_with ndl (w ++ h ∷ hp)
unfolding starts_with
window_test acc [] w h hp e = absurd (omega arith)
window_test acc (x ∷ []) [] h hp e = ap (λ (b : Bool). b && true) (last_by_sum acc x h)
window_test acc (x ∷ y ∷ nd) [] h hp e = absurd (omega arith)
window_test acc (x ∷ nd) (c ∷ w) h hp e = elim (Bool-cases (x == c)) [
  | inr differs ↦ rw differs (and_false _)
  | inl same ↦ rw same (
      subst
        (λ (t : ℕ).
          ((xor_sum (bit_xor acc (uint_of_char t)) (w ++ h ∷ [])
              == xor_sum (bit_xor acc (uint_of_char x)) nd)
            && starts_with (take (length w) nd) (w ++ h ∷ hp))
          ≡ starts_with nd (w ++ h ∷ hp))
        ((==_iff x c).0 same) (window_test (bit_xor acc (uint_of_char x)) nd w h hp (omega arith)))
]

-- A needle longer than what is left is not found.
pub starts_with_short : (ndl hay : Bytes) → length hay < length ndl → starts_with ndl hay ≡ false
unfolding starts_with
starts_with_short [] hay h = absurd (omega arith)
starts_with_short (x ∷ nd) [] h = refl
starts_with_short (x ∷ nd) (c ∷ hay) h = rw (starts_with_short nd hay (omega arith)) (and_false _)

pub find_after_short :
    (ndl hay : Bytes) (offset : ℕ) → length hay < length ndl → find_after ndl hay offset ≡ none
unfolding find_after
find_after_short ndl [] offset h = rw (starts_with_short ndl [] h)
find_after_short ndl (c ∷ hay) offset h =
    rw (starts_with_short ndl (c ∷ hay) h) (find_after_short ndl hay (offset + 1) (omega arith))

-- The search from the second place on.
abbrev pub find_later : Bytes → Bytes → ℕ → Option ℕ
find_later ndl [] offset = none
find_later ndl (c ∷ hay) offset = find_after ndl hay (offset + 1)

pub find_after_step :
    (ndl hay : Bytes) (offset : ℕ)
    → find_after ndl hay offset
      ≡ (if starts_with ndl hay then some (offset + length ndl) else find_later ndl hay offset)
unfolding find_after
find_after_step ndl [] offset = refl
find_after_step ndl (c ∷ hay) offset = refl

-- The second loop: from a window `w` on, it is the naive search from the next place on.
pub roll-find_later :
    (x : ℕ) (nd w hp : Bytes) (offset hsum : ℕ)
    → length w ≡ suc (length nd)
    → hsum ≡ xor_sum 0 w
    → roll (x ∷ nd) (xor_sum 0 (x ∷ nd)) (w ++ hp) hp offset hsum
      ≡ find_later (x ∷ nd) (w ++ hp) offset
unfolding roll
roll-find_later x nd [] hp offset hsum e sum = absurd (omega arith)
roll-find_later x nd (c ∷ w) [] offset hsum e sum =
    rw append-nil (sym (find_after_short (x ∷ nd) w (offset + 1) (omega arith)))
roll-find_later x nd (c ∷ w) (h ∷ hp) offset hsum e sum =
    let sums : bit_xor (bit_xor hsum (uint_of_char c)) (uint_of_char h) ≡ xor_sum 0 (w ++ h ∷ []) =
      ap (λ (t : ℕ). bit_xor (bit_xor t (uint_of_char c)) (uint_of_char h)) sum
      ∙ xor_sum_moves c w h in
    let len : suc (length nd) - 1 ≡ length w = omega arith in
    let rest =
      roll-find_later x nd (w ++ h ∷ []) hp (offset + 1) (xor_sum 0 (w ++ h ∷ []))
        (omega (arith, length-append w (h ∷ []))) refl in
    let rest' : roll (x ∷ nd) (xor_sum 0 (x ∷ nd)) (w ++ h ∷ hp) hp (offset + 1)
          (xor_sum 0 (w ++ h ∷ []))
        ≡ find_later (x ∷ nd) (w ++ h ∷ hp) (offset + 1) =
      subst
        (λ (t : Bytes).
          roll (x ∷ nd) (xor_sum 0 (x ∷ nd)) t hp (offset + 1) (xor_sum 0 (w ++ h ∷ []))
          ≡ find_later (x ∷ nd) t (offset + 1))
        (append_assoc w (h ∷ []) hp) rest in
    rw (sums, len, window_test 0 (x ∷ nd) w h hp (omega arith), rest')
      (sym (find_after_step (x ∷ nd) (w ++ h ∷ hp) (offset + 1)))

-- The first loop, where the haystack is long enough: it ends behind the needle.
pub scan_heads_long :
    (np hp : Bytes) (hsum nsum : ℕ) (eqp : Bool)
    → length np ≤ length hp
    → ((scan_heads hp np hsum nsum eqp).np ≡ [])
      × ((scan_heads hp np hsum nsum eqp).hp ≡ drop (length np) hp)
      × ((scan_heads hp np hsum nsum eqp).hsum ≡ xor_sum hsum (take (length np) hp))
      × ((scan_heads hp np hsum nsum eqp).nsum ≡ xor_sum nsum np)
      × ((scan_heads hp np hsum nsum eqp).eqp ≡ (eqp && starts_with np hp))
unfolding scan_heads starts_with
scan_heads_long [] [] hsum nsum eqp h = (refl, refl, refl, refl, sym (and_true eqp))
scan_heads_long [] (c ∷ hp) hsum nsum eqp h = (refl, refl, refl, refl, sym (and_true eqp))
scan_heads_long (x ∷ np) [] hsum nsum eqp h = absurd (omega arith)
scan_heads_long (x ∷ np) (c ∷ hp) hsum nsum eqp h =
    let rest =
      scan_heads_long np hp (bit_xor hsum (uint_of_char c)) (bit_xor nsum (uint_of_char x))
        (eqp && c == x) (omega arith) in
    (rest.0, rest.1, rest.2, rest.3, rest.4 ∙ and_swap eqp c x (starts_with np hp))

-- Where it is not, some of the needle is left over.
pub scan_heads_short :
    (np hp : Bytes) (hsum nsum : ℕ) (eqp : Bool)
    → length hp < length np
    → (c : ℕ) × (more : Bytes) × ((scan_heads hp np hsum nsum eqp).np ≡ c ∷ more)
unfolding scan_heads
scan_heads_short [] hp hsum nsum eqp h = absurd (omega arith)
scan_heads_short (x ∷ np) [] hsum nsum eqp h = (x, np, refl)
scan_heads_short (x ∷ np) (c ∷ hp) hsum nsum eqp h =
    scan_heads_short np hp (bit_xor hsum (uint_of_char c)) (bit_xor nsum (uint_of_char x))
      (eqp && c == x) (omega arith)
