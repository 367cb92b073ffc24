-- ===== src/Clock/RoundTrip.antt =====
-- What the converters print as a time stamp is what they read, and fractions are scaled right.
use coins.Prelude.{
  ℕ, zero, suc, ◌+◌, ◌-◌, ◌*◌, ◌/◌, ◌%◌, ◌^◌, ◌≤◌, ◌<◌, ◌≡◌, refl, sym, ◌∙◌, ap, false, [], ◌∷◌,
  ◌++◌, append_assoc, Bytes, ◌==◌, if◌then◌else◌, length, length-append, arith,
}
use native.Mathlib.Nat.{pow-suc, one-le-pow}
use coins.Libc.{emit_digits, peek, ulong_max, is_digit, u64, print_ulong, print_padded}
use coins.Libc.Decimal.{strtoul-print_ulong, strtoul-print_padded, length-print_padded}
use coins.Clock.{nsecs, not_a_time, strtotv, tvtostr, times_ten, strtons}

-- Seconds, a point, and `suc k` digits.
abbrev pub stamp : ℕ → ℕ → ℕ → Bytes
stamp s k x = print_ulong s ++ b'.' ∷ print_padded (suc k) x

-- A stamp is read up to the octet behind it. Three, six and nine digits are milli-, micro- and
-- nanoseconds; with any other count, up to nineteen, there is no time.
pub strtotv-stamp :
    (s k x : ℕ) (rest : Bytes)
    → s ≤ ulong_max
    → x < 10 ^ suc k
    → x ≤ ulong_max
    → is_digit (peek rest) ≡ false
    → strtotv (stamp s k x ++ rest) ≡ (
        if suc k == 3
        then (u64 (s * nsecs + u64 (u64 (x * 1000) * 1000)), rest)
        else if suc k == 6
        then (u64 (s * nsecs + u64 (x * 1000)), rest)
        else if suc k == 9
        then (u64 (s * nsecs + x), rest)
        else (not_a_time, print_padded (suc k) x ++ rest))
unfolding strtotv
strtotv-stamp s k x rest hs hx fits stop =
    rw (append_assoc (print_ulong s) (b'.' ∷ print_padded (suc k) x) rest) (
      rw
        (
          strtoul-print_ulong s (b'.' ∷ print_padded (suc k) x ++ rest) hs refl,
          strtoul-print_padded k x rest hx fits stop,
        )
        (ground
          (arith, length-append (print_padded (suc k) x) rest, length-print_padded (suc k) x)))

-- A printed stamp is read back exactly, whatever follows that is no digit.
pub strtotv-tvtostr :
    (t : ℕ) (rest : Bytes)
    → t ≤ ulong_max
    → is_digit (peek rest) ≡ false
    → strtotv (tvtostr t ++ rest) ≡ (t, rest)
unfolding tvtostr
strtotv-tvtostr t rest h stop =
    strtotv-stamp (t / nsecs) 8 (t % nsecs) rest (omega arith) (omega arith) (omega arith) stop
    ∙ ap (λ (v : ℕ). (v, rest)) (omega arith)

-- `times_ten` is a multiplication as long as nothing wraps.
times_ten-pow : (n r : ℕ) → r * 10 ^ n ≤ ulong_max → times_ten n r ≡ r * 10 ^ n
unfolding times_ten
times_ten-pow zero r h = omega arith
times_ten-pow (suc n) r h =
    let grows : r * 10 ^ suc n ≡ r * 10 * 10 ^ n =
      omega (arith, ap (λ (t : ℕ). r * t) (pow-suc 10 n)) in
    let small : r * 10 ≤ r * 10 * 10 ^ n = grind (arith, one-le-pow n 10) in
    let wraps_not : u64 (r * 10) ≡ r * 10 = omega arith in
    rw wraps_not (times_ten-pow n (r * 10) (omega arith) ∙ sym grows)

below_second : (k x : ℕ) → k < 9 → x < 10 ^ suc k → x * 10 ^ (8 - k) < nsecs
below_second zero x hk hx = omega arith
below_second (suc zero) x hk hx = omega arith
below_second (suc (suc zero)) x hk hx = omega arith
below_second (suc (suc (suc zero))) x hk hx = omega arith
below_second (suc (suc (suc (suc zero)))) x hk hx = omega arith
below_second (suc (suc (suc (suc (suc zero))))) x hk hx = omega arith
below_second (suc (suc (suc (suc (suc (suc zero)))))) x hk hx = omega arith
below_second (suc (suc (suc (suc (suc (suc (suc zero))))))) x hk hx = omega arith
below_second (suc (suc (suc (suc (suc (suc (suc (suc zero)))))))) x hk hx = omega arith
below_second (suc (suc (suc (suc (suc (suc (suc (suc (suc k))))))))) x hk hx = absurd (omega arith)

scaled :
    (k x : ℕ) (rest : Bytes)
    → k < 9
    → x < 10 ^ suc k
    → is_digit (peek rest) ≡ false
    → strtons (b'.' ∷ print_padded (suc k) x ++ rest) ≡ x * 10 ^ (8 - k)
unfolding strtons
scaled k x rest hk hx stop =
    let small = below_second k x hk hx in
    let one : 1 ≤ 10 ^ (8 - k) = one-le-pow (8 - k) 10 (omega arith) in
    let fits : x ≤ x * 10 ^ (8 - k) = grind arith in
    let count : 9 - (length (print_padded (suc k) x ++ rest) - length rest) ≡ 8 - k =
      omega (arith, length-append (print_padded (suc k) x) rest, length-print_padded (suc k) x) in
    rw (strtoul-print_padded k x rest hx (omega arith) stop)
      (rw count (times_ten-pow (8 - k) x (omega arith)))

-- Up to nine digits behind the point are nanoseconds, less than a second of them.
pub strtons-padded :
    (k x : ℕ) (rest : Bytes)
    → k < 9
    → x < 10 ^ suc k
    → is_digit (peek rest) ≡ false
    → (strtons (b'.' ∷ print_padded (suc k) x ++ rest) ≡ x * 10 ^ (8 - k))
      × (strtons (b'.' ∷ print_padded (suc k) x ++ rest) < nsecs)
strtons-padded k x rest hk hx stop =
    (scaled k x rest hk hx stop, rw (scaled k x rest hk hx stop) (below_second k x hk hx))

emit_digits-length :
    (k fuel n : ℕ) (out : Bytes)
    → n < 10 ^ suc k
    → length (emit_digits fuel n out) ≤ suc k + length out
unfolding emit_digits
emit_digits-length k zero n out h = omega arith
emit_digits-length zero (suc fuel) n out h = ground arith
emit_digits-length (suc k) (suc fuel) n out h = ground (
  arith,
  emit_digits-length k fuel (n / 10) ((b'0' + n % 10) ∷ out) (omega (arith, pow-suc 10 (suc k))),
)

-- A stamp takes at most 21 octets, `INI_GBOF` in src/wssnarf.c.
pub tvtostr-length : (t : ℕ) → t ≤ ulong_max → length (tvtostr t) ≤ 21
unfolding tvtostr print_ulong
tvtostr-length t h = omega (
  arith,
  length-append (print_ulong (t / nsecs)) (b'.' ∷ print_padded 9 (t % nsecs)),
  length-print_padded 9 (t % nsecs),
  emit_digits-length 10 (t / nsecs) (t / nsecs) [] (omega arith),
)
