-- ===== src/Fix/Sequence.antt =====
-- The sequence number goes out in decimal.
use coins.Prelude.{
  ℕ, zero, suc, ◌+◌, ◌-◌, ◌/◌, ◌%◌, ◌≤◌, ◌<◌, ◌≡◌, refl, sym, ap, ◌∙◌, [], ◌∷◌, ◌++◌, append_assoc,
  append-nil, Bytes, length, length-append, get_or, set, if◌then◌else◌, ltb, leb, ◌==◌, ◌&&◌, arith,
  bit_xor, lt→ltb, not-lt→ltb,
}
use mathlib.Core.List.{reverse, reverse-append}
use native.Mathlib.Decide.{dec_lt}
use coins.Libc.{emit_digits, print_ulong}
use coins.Fix.{digit, seq_digits, swap_ends, render_seq}

length-set : (s : Bytes) (i v : ℕ) → length (set s i v) ≡ length s
length-set [] i v = refl
length-set (c ∷ s) zero v = refl
length-set (c ∷ s) (suc i) v = ap suc (length-set s i v)

get_or-set :
    (s : Bytes) (i v j : ℕ)
    → j < length s
    → get_or (set s i v) j 0 ≡ (if i == j then v else get_or s j 0)
get_or-set [] i v j h = absurd (omega arith)
get_or-set (c ∷ s) zero v zero h = refl
get_or-set (c ∷ s) zero v (suc j) h = ground arith
get_or-set (c ∷ s) (suc i) v zero h = ground arith
get_or-set (c ∷ s) (suc i) v (suc j) h = ground (arith, get_or-set s i v j (omega arith))

get_or-append :
    (s t : Bytes) (j : ℕ)
    → get_or (s ++ t) j 0 ≡ (if ltb j (length s) then get_or s j 0 else get_or t (j - length s) 0)
get_or-append [] t j = ground arith
get_or-append (c ∷ s) t zero = ground arith
get_or-append (c ∷ s) t (suc j) = ground (arith, get_or-append s t j)

reverse_cons : (c : ℕ) (s : Bytes) → reverse (c ∷ s) ≡ reverse s ++ c ∷ []
reverse_cons c s = reverse-append (c ∷ []) s

length-reverse : (s : Bytes) → length (reverse s) ≡ length s
length-reverse [] = refl
length-reverse (c ∷ s) =
    omega
      (arith, ap length (reverse_cons c s), length-append (reverse s) (c ∷ []), length-reverse s)

get_or-reverse :
    (s : Bytes) (j : ℕ) → j < length s → get_or (reverse s) j 0 ≡ get_or s (length s - (j + 1)) 0
get_or-reverse [] j h = absurd (omega arith)
get_or-reverse (c ∷ s) j h =
    let whole =
      ap (λ (t : Bytes). get_or t j 0) (reverse_cons c s) ∙ get_or-append (reverse s) (c ∷ []) j in
    elim (dec_lt j (length s)) [
      | yes p ↦
          let e : suc (length s) - (j + 1) ≡ suc (length s - (j + 1)) = omega arith in
          rw e (ground (arith, whole, length-reverse s, get_or-reverse s j p))
      | no p ↦
          let e : suc (length s) - (j + 1) ≡ 0 = omega arith in
          let e' : j - length (reverse s) ≡ 0 = omega (arith, length-reverse s) in
          rw e (whole ∙ rw e' (ground (arith, length-reverse s)))
    ]

list_ext :
    (s t : Bytes)
    → length s ≡ length t
    → ((j : ℕ) → j < length s → get_or s j 0 ≡ get_or t j 0)
    → s ≡ t
list_ext [] [] l h = refl
list_ext [] (d ∷ t) l h = absurd (omega arith)
list_ext (c ∷ s) [] l h = absurd (omega arith)
list_ext (c ∷ s) (d ∷ t) l h =
    cc (h 0 (omega arith), list_ext s t (omega arith) (λ j lt. h (suc j) (omega arith)))

length-swap_ends : (rounds i : ℕ) (s : Bytes) → length (swap_ends rounds i s) ≡ length s
unfolding swap_ends
length-swap_ends zero i s = refl
length-swap_ends (suc rounds) i s =
    let j = length s - (i + 1) in
    let t = set (set s i (get_or s j 0)) j (get_or s i 0) in
    length-swap_ends rounds (i + 1) t
    ∙ length-set (set s i (get_or s j 0)) j (get_or s i 0)
    ∙ length-set s i (get_or s j 0)

-- With so many rounds left as there are pairs inside, what lies inside ends up mirrored.
swap_ends_mirrors :
    (rounds i : ℕ) (s : Bytes) (j : ℕ)
    → i + rounds ≡ length s / 2
    → j < length s
    → get_or (swap_ends rounds i s) j 0
      ≡ (if leb i j && ltb j (length s - i) then get_or s (length s - (j + 1)) 0 else get_or s j 0)
unfolding swap_ends
swap_ends_mirrors zero i s j e h = ground (arith, mid)
  where
    mid : i ≤ j → j < length s - i → get_or s (length s - (j + 1)) 0 ≡ get_or s j 0
    mid p q = ap (λ (n : ℕ). get_or s n 0) (omega arith)
swap_ends_mirrors (suc rounds) i s j e h =
    let k = length s - (i + 1) in
    let t = set (set s i (get_or s k 0)) k (get_or s i 0) in
    let len' = length-set s i (get_or s k 0) in
    let len : length t ≡ length s = length-set (set s i (get_or s k 0)) k (get_or s i 0) ∙ len' in
    ground (
      arith,
      len,
      swap_ends_mirrors rounds (i + 1) t j (omega arith) (omega arith),
      get_or-set (set s i (get_or s k 0)) k (get_or s i 0) j (omega arith),
      get_or-set s i (get_or s k 0) j (omega arith),
      get_or-set (set s i (get_or s k 0)) k (get_or s i 0) (length s - (j + 1)) (omega arith),
      get_or-set s i (get_or s k 0) (length s - (j + 1)) (omega arith),
    )

swap_ends-reverse : (s : Bytes) → swap_ends (length s / 2) 0 s ≡ reverse s
swap_ends-reverse s =
    list_ext (swap_ends (length s / 2) 0 s) (reverse s)
      (length-swap_ends (length s / 2) 0 s ∙ sym (length-reverse s))
      (λ j lt.
        let lt' : j < length s = omega (arith, length-swap_ends (length s / 2) 0 s) in
        swap_ends_mirrors (length s / 2) 0 s j (omega arith) lt'
        ∙ ground (arith, get_or-reverse s j lt'))

-- `x ^ '0'` of a digit is its character.
digit_table : (n : ℕ) → n < 10 → bit_xor n b'0' ≡ b'0' + n
digit_table zero h = refl
digit_table (suc zero) h = refl
digit_table (suc (suc zero)) h = refl
digit_table (suc (suc (suc zero))) h = refl
digit_table (suc (suc (suc (suc zero)))) h = refl
digit_table (suc (suc (suc (suc (suc zero))))) h = refl
digit_table (suc (suc (suc (suc (suc (suc zero)))))) h = refl
digit_table (suc (suc (suc (suc (suc (suc (suc zero))))))) h = refl
digit_table (suc (suc (suc (suc (suc (suc (suc (suc zero)))))))) h = refl
digit_table (suc (suc (suc (suc (suc (suc (suc (suc (suc zero))))))))) h = refl
digit_table (suc (suc (suc (suc (suc (suc (suc (suc (suc (suc n)))))))))) h = absurd (omega arith)

pub digit_lem : (n : ℕ) → digit n ≡ b'0' + n % 10
digit_lem n = digit_table (n % 10) (omega arith)

seq_digits_zero : (g : ℕ) → seq_digits g 0 ≡ []
unfolding seq_digits
seq_digits_zero zero = refl
seq_digits_zero (suc g) = refl

seq_digits_step : (g n : ℕ) → 0 < n → seq_digits (suc g) n ≡ digit n ∷ seq_digits g (n / 10)
unfolding seq_digits
seq_digits_step g n h = ground arith

-- The lowest digit goes last.
reverse_step :
    (g n : ℕ) (out : Bytes)
    → 0 < n
    → reverse (seq_digits (suc g) n) ++ out
      ≡ reverse (seq_digits g (n / 10)) ++ (b'0' + n % 10) ∷ out
reverse_step g n out h =
    ap (λ (t : Bytes). reverse t ++ out) (seq_digits_step g n h)
    ∙ ap (λ (t : Bytes). t ++ out) (reverse_cons (digit n) (seq_digits g (n / 10)))
    ∙ append_assoc (reverse (seq_digits g (n / 10))) (digit n ∷ []) out
    ∙ ap (λ (d : ℕ). reverse (seq_digits g (n / 10)) ++ d ∷ out) (digit_lem n)

emit_digits-seq_digits :
    (f g n : ℕ) (out : Bytes)
    → 0 < n
    → n ≤ f
    → n ≤ g
    → emit_digits f n out ≡ reverse (seq_digits g n) ++ out
unfolding emit_digits
emit_digits-seq_digits zero g n out p q r = absurd (omega arith)
emit_digits-seq_digits (suc f) zero n out p q r = absurd (omega arith)
emit_digits-seq_digits (suc f) (suc g) n out p q r = elim (dec_lt n 10) [
  | yes small ↦
      let e : n / 10 ≡ 0 = omega arith in
      let e' : n % 10 ≡ n = omega arith in
      rw (lt→ltb n 10 small) (
        sym (
          reverse_step g n out p
          ∙ ap (λ (k : ℕ). reverse (seq_digits g k) ++ (b'0' + n % 10) ∷ out) e
          ∙ ap (λ (t : Bytes). reverse t ++ (b'0' + n % 10) ∷ out) (seq_digits_zero g)
          ∙ ap (λ (k : ℕ). (b'0' + k) ∷ out) e'))
  | no large ↦ rw (not-lt→ltb n 10 large) (
      emit_digits-seq_digits f g (n / 10) ((b'0' + n % 10) ∷ out) (omega arith) (omega arith)
        (omega arith)
      ∙ sym (reverse_step g n out p))
]

-- The sequence number is printed as "%u" would, but that nothing is printed for zero.
render_seq-print_ulong : (n : ℕ) → 0 < n → render_seq n ≡ print_ulong n
unfolding render_seq print_ulong
render_seq-print_ulong n h =
    swap_ends-reverse (seq_digits n n)
    ∙ sym (append-nil (reverse (seq_digits n n)))
    ∙ sym (emit_digits-seq_digits n n n [] h (omega arith) (omega arith))
