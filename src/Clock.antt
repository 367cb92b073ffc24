-- ===== src/Clock.antt =====
-- The time stamps of the converters (src/*2b.c): seconds with a fraction, held as nanoseconds in
-- an `unsigned long`. The functions stand verbatim in each converter.
pub mod RoundTrip
use coins.Prelude.{
  ℕ, zero, suc, ◌+◌, ◌-◌, ◌*◌, ◌/◌, ◌%◌, [], ◌∷◌, ◌++◌, Bytes, ltb, ◌==◌, ◌||◌, not, if◌then◌else◌,
  length, drop,
}
use coins.Libc.{peek, ulong_max, u64, strtoul, print_ulong, print_padded}

abbrev pub nsecs : ℕ
nsecs = 1000000000

abbrev pub msecs : ℕ
msecs = 1000

-- `(tv_t)-1ULL`
abbrev pub not_a_time : ℕ
not_a_time = ulong_max

-- The switch on the count of digits, its cases falling through to the next.
unfoldable pub scale_fraction : ℕ → ℕ → ℕ
scale_fraction n x =
    if n == 0
    then u64 (u64 (u64 (x * msecs) * msecs) * msecs)
    else if n == 3
    then u64 (u64 (x * msecs) * msecs)
    else if n == 6
    then u64 (x * msecs)
    else x

-- The part from the point on: `s` are the seconds, `x` and `moron` what `strtoul` made of `on`.
unfoldable pub with_fraction : ℕ → Bytes → ℕ × Bytes → ℕ × Bytes
unfolding scale_fraction
with_fraction s on (x, moron) =
    let n = length on - length moron in
    if ltb 9 n
    then (not_a_time, on)
    else if not (n % 3 == 0)
    then (not_a_time, on)
    else (u64 (s * nsecs + scale_fraction n x), moron)

unfoldable pub after_seconds : ℕ × Bytes → ℕ × Bytes
unfolding with_fraction strtoul
after_seconds (s, on) =
    let on' = drop 1 on in
    let fraction = with_fraction s on' (strtoul on') in
    if peek on == b'.' then fraction else (u64 (s * nsecs), on)

-- The stamp, and the text behind it. `strtoul` sets its end pointer always, so that the test for
-- NULL never holds; the early returns leave `*endptr` as it was, and no caller looks at it then.
unfoldable pub strtotv : Bytes → ℕ × Bytes
unfolding after_seconds strtoul
strtotv ln = after_seconds (strtoul ln)

-- "%lu.%09lu"; the buffers of the callers have room for it (RoundTrip).
unfoldable pub tvtostr : ℕ → Bytes
unfolding print_ulong print_padded
tvtostr t = print_ulong (t / nsecs) ++ b'.' ∷ print_padded 9 (t % nsecs)

-- Milliseconds since the epoch.
unfoldable pub smstotv : Bytes → ℕ × Bytes
unfolding strtoul
smstotv ln = let r = strtoul ln in (u64 (u64 (r.0 * msecs) * msecs), r.1)

-- One `r *= 10U` for each digit that is missing from nine.
unfoldable pub times_ten : ℕ → ℕ → ℕ
times_ten zero r = r
times_ten (suc n) r = times_ten n (u64 (r * 10))

unfoldable pub scale_subsecond : Bytes → ℕ × Bytes → ℕ
unfolding times_ten
scale_subsecond buf (r, on) = times_ten (9 - (length buf - length on)) r

-- A fraction such as ".8455", as nanoseconds. With more than nine digits the switch has no case.
unfoldable pub strtons : Bytes → ℕ
unfolding scale_subsecond strtoul
strtons buf =
    let after = drop 1 buf in if peek buf == b'.' then scale_subsecond after (strtoul after) else 0
