-- ===== src/Libc/Decimal.antt =====
-- Reading back what was printed in decimal.
use coins.Prelude.{
  ℕ, zero, suc, ◌+◌, ◌-◌, ◌*◌, ◌/◌, ◌%◌, ◌^◌, ◌≤◌, ◌<◌, ◌≡◌, refl, ◌∙◌, ap, true, false, [], ◌∷◌,
  ◌++◌, Bytes, All, All-append, length, length-append, arith, ltb, Bool-cases, inl, inr,
}
use coins.Libc.{
  peek, ulong_max, is_digit, span_digits, digits_value, ulong_of, strtoul, emit_digits, print_ulong,
  print_padded,
}
use native.Mathlib.Nat.{pow-suc}
use mathlib.Core.Path.{subst}

abbrev pub IsDigit : ℕ → Type 0
IsDigit c = is_digit c ≡ true

-- The digits end where `rest` begins.
pub span_digits-append :
    (ds rest : Bytes)
    → All IsDigit ds
    → is_digit (peek rest) ≡ false
    → span_digits (ds ++ rest) ≡ (ds, rest)
unfolding span_digits
span_digits-append [] [] h e = refl
span_digits-append [] (c ∷ rest) h e = ground arith
span_digits-append (d ∷ ds) rest h e = ground (arith, span_digits-append ds rest h.1 e)

-- A run of digits is read as the number it stands for.
pub strtoul-digits :
    (d : ℕ) (ds rest : Bytes)
    → All IsDigit (d ∷ ds)
    → is_digit (peek rest) ≡ false
    → digits_value 0 (d ∷ ds) ≤ ulong_max
    → strtoul (d ∷ ds ++ rest) ≡ (digits_value 0 (d ∷ ds), rest)
unfolding strtoul ulong_of
strtoul-digits d ds rest h e fits = ground (arith, span_digits-append (d ∷ ds) rest h e)

pub digits_value-append :
    (acc : ℕ) (xs ys : Bytes) → digits_value acc (xs ++ ys) ≡ digits_value (digits_value acc xs) ys
unfolding digits_value
digits_value-append acc [] ys = refl
digits_value-append acc (x ∷ xs) ys = digits_value-append (acc * 10 + (x - b'0')) xs ys

emit_digits-value :
    (fuel n : ℕ) (out : Bytes)
    → n ≤ fuel
    → digits_value 0 (emit_digits fuel n out) ≡ digits_value n out
unfolding emit_digits digits_value
emit_digits-value zero n out h = ground arith
emit_digits-value (suc fuel) n out h =
    ground (arith, emit_digits-value fuel (n / 10) ((b'0' + n % 10) ∷ out))

emit_digits-IsDigit :
    (fuel n : ℕ) (out : Bytes) → All IsDigit out → All IsDigit (emit_digits fuel n out)
unfolding emit_digits
emit_digits-IsDigit zero n out h = ground arith
emit_digits-IsDigit (suc fuel) n out h =
    ground (arith, emit_digits-IsDigit fuel (n / 10) ((b'0' + n % 10) ∷ out))

IsDigit-of : (n : ℕ) → n < 10 → IsDigit (b'0' + n)
IsDigit-of n h = ground arith

emit_digits-cons :
    (fuel n : ℕ) (out : Bytes) → (d : ℕ) × (ds : Bytes) × (emit_digits fuel n out ≡ d ∷ ds)
unfolding emit_digits
emit_digits-cons zero n out = (b'0' + n % 10, out, refl)
emit_digits-cons (suc fuel) n out = elim (Bool-cases (ltb n 10)) [
  | inl small ↦ (b'0' + n, out, rw small)
  | inr large ↦ rw large (emit_digits-cons fuel (n / 10) ((b'0' + n % 10) ∷ out))
]

strtoul_of_digits :
    (ds rest : Bytes) (d : ℕ) (ds' : Bytes)
    → ds ≡ d ∷ ds'
    → All IsDigit ds
    → is_digit (peek rest) ≡ false
    → digits_value 0 ds ≤ ulong_max
    → strtoul (ds ++ rest) ≡ (digits_value 0 ds, rest)
strtoul_of_digits ds rest d ds' e h stop fits =
    let h' : All IsDigit (d ∷ ds') = subst (λ (t : Bytes). All IsDigit t) e h in
    let fits' : digits_value 0 (d ∷ ds') ≤ ulong_max =
      subst (λ (t : Bytes). digits_value 0 t ≤ ulong_max) e fits in
    rw e (strtoul-digits d ds' rest h' stop fits')

-- A printed number is read back, up to the octet behind it.
pub strtoul-print_ulong :
    (n : ℕ) (rest : Bytes)
    → n ≤ ulong_max
    → is_digit (peek rest) ≡ false
    → strtoul (print_ulong n ++ rest) ≡ (n, rest)
unfolding print_ulong digits_value
strtoul-print_ulong n rest fits stop =
    let value : digits_value 0 (emit_digits n n []) ≡ n = emit_digits-value n n [] (omega arith) in
    let (d, ds, e) = emit_digits-cons n n [] in
    strtoul_of_digits (emit_digits n n []) rest d ds e (emit_digits-IsDigit n n [] tt) stop
      (rw value fits)
    ∙ ap (λ (v : ℕ). (v, rest)) value

pub print_padded-IsDigit : (k n : ℕ) → All IsDigit (print_padded k n)
unfolding print_padded
print_padded-IsDigit zero n = tt
print_padded-IsDigit (suc k) n =
    All-append IsDigit (print_padded k (n / 10)) ((b'0' + n % 10) ∷ [])
      (print_padded-IsDigit k (n / 10)) (IsDigit-of (n % 10) (omega arith), tt)

pub length-print_padded : (k n : ℕ) → length (print_padded k n) ≡ k
unfolding print_padded
length-print_padded zero n = refl
length-print_padded (suc k) n = omega (
  arith,
  length-append (print_padded k (n / 10)) ((b'0' + n % 10) ∷ []),
  length-print_padded k (n / 10),
)

print_padded-value : (k n : ℕ) → n < 10 ^ k → digits_value 0 (print_padded k n) ≡ n
unfolding print_padded digits_value
print_padded-value zero n h = omega arith
print_padded-value (suc k) n h =
    digits_value-append 0 (print_padded k (n / 10)) ((b'0' + n % 10) ∷ [])
    ∙ omega (arith, print_padded-value k (n / 10) (omega (arith, pow-suc 10 k)))

padded-cons : (k n : ℕ) → (d : ℕ) × (ds : Bytes) × (print_padded (suc k) n ≡ d ∷ ds)
unfolding print_padded
padded-cons zero n = (b'0' + n % 10, [], refl)
padded-cons (suc k) n =
    let (d, ds, e) = padded-cons k (n / 10) in
    (d, ds ++ (b'0' + n % 10) ∷ [], ap (λ (t : Bytes). t ++ (b'0' + n % 10) ∷ []) e)

-- So is a number printed with leading zeros.
pub strtoul-print_padded :
    (k n : ℕ) (rest : Bytes)
    → n < 10 ^ suc k
    → n ≤ ulong_max
    → is_digit (peek rest) ≡ false
    → strtoul (print_padded (suc k) n ++ rest) ≡ (n, rest)
strtoul-print_padded k n rest below fits stop =
    let value = print_padded-value (suc k) n below in
    let (d, ds, e) = padded-cons k n in
    strtoul_of_digits (print_padded (suc k) n) rest d ds e (print_padded-IsDigit (suc k) n) stop
      (rw value fits)
    ∙ ap (λ (v : ℕ). (v, rest)) value

pub print_ulong-IsDigit : (n : ℕ) → All IsDigit (print_ulong n)
unfolding print_ulong
print_ulong-IsDigit n = emit_digits-IsDigit n n [] tt
