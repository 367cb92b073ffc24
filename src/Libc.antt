-- ===== src/Libc.antt =====
-- The calls of the C library that the sources make, over lists of octets. A pointer into a buffer
-- is the run of octets from it to the end of the buffer, so that a difference of two pointers is a
-- difference of two lengths.
pub mod Chars
pub mod Decimal
pub mod Hex
use coins.Prelude.{
  ℕ, zero, suc, ◌+◌, ◌-◌, ◌*◌, ◌/◌, ◌%◌, ◌^◌, Bool, true, false, ◌&&◌, ◌||◌, Option, none, some, [],
  ◌∷◌, ◌++◌, Bytes, ltb, leb, ◌==◌, if◌then◌else◌,
}
use Prim.Native.Char.{code}
use Prim.Native.String.{String}

-- The octets of a literal.
abbrev pub codes : String → Bytes
codes String.[] = []
codes (String.◌∷◌ c s) = code c ∷ codes s

-- `*p`; the strings of the sources end in a NUL.
abbrev pub peek : Bytes → ℕ
peek [] = 0
peek (c ∷ s) = c

-- `memcmp(p, lit, strlenof(lit)) == 0`: the octet behind a short `p` is a NUL, and no literal of
-- the sources that is compared so has one where `p` may end.
unfoldable pub starts_with : Bytes → Bytes → Bool
starts_with [] s = true
starts_with (c ∷ lit) [] = false
starts_with (c ∷ lit) (d ∷ s) = c == d && starts_with lit s

-- `memchr(p, c, n)` at the `n` octets given: what stands before the octet found, and the octets
-- from it on.
unfoldable pub memchr : ℕ → Bytes → Option (Bytes × Bytes)
memchr c [] = none
memchr c (d ∷ s) =
    if d == c
    then some ([], d ∷ s)
    else elim (memchr c s) [ none ↦ none | some (before, rest) ↦ some (d ∷ before, rest) ]

abbrev pub ulong_max : ℕ
ulong_max = 18446744073709551615

abbrev pub u64 : ℕ → ℕ
u64 n = n % 18446744073709551616

abbrev pub is_digit : ℕ → Bool
is_digit c = leb b'0' c && leb c b'9'

abbrev pub is_space : ℕ → Bool
is_space c = c == 32 || (leb 9 c && leb c 13)

unfoldable pub skip_space : Bytes → Bytes
skip_space [] = []
skip_space (c ∷ s) = if is_space c then skip_space s else c ∷ s

unfoldable pub span_digits : Bytes → Bytes × Bytes
span_digits [] = ([], [])
span_digits (c ∷ s) =
    let rest = span_digits s in if is_digit c then (c ∷ rest.0, rest.1) else ([], c ∷ s)

-- The number that digits stand for, behind those read so far.
unfoldable pub digits_value : ℕ → Bytes → ℕ
digits_value acc [] = acc
digits_value acc (c ∷ s) = digits_value (acc * 10 + (c - b'0')) s

-- `strtoul` saturates at its greatest value, and takes a minus sign modulo 2 ^ 64.
unfoldable pub ulong_of : Bool → ℕ → ℕ
ulong_of negative v =
    if ltb ulong_max v then ulong_max else if negative then u64 (ulong_max + 1 - v) else v

-- With no digit at all the value is 0, and the end pointer is the start.
unfoldable pub finish_strtoul : Bytes → Bool → Bytes × Bytes → ℕ × Bytes
unfolding ulong_of digits_value
finish_strtoul start negative ([], rest) = (0, start)
finish_strtoul start negative (d ∷ ds, rest) = (ulong_of negative (digits_value 0 (d ∷ ds)), rest)

unfoldable pub after_sign : Bytes → Bytes → ℕ × Bytes
unfolding finish_strtoul span_digits
after_sign start [] = (0, start)
after_sign start (c ∷ s) =
    if c == b'-'
    then finish_strtoul start true (span_digits s)
    else if c == b'+'
    then finish_strtoul start false (span_digits s)
    else finish_strtoul start false (span_digits (c ∷ s))

-- `strtoul(p, &end, 10)`: the value, and the octets from `end` on.
unfoldable pub strtoul : Bytes → ℕ × Bytes
unfolding after_sign skip_space
strtoul s = after_sign s (skip_space s)

-- The digits of `n`, most significant first, before `out`.
unfoldable pub emit_digits : ℕ → ℕ → Bytes → Bytes
emit_digits zero n out = (b'0' + n % 10) ∷ out
emit_digits (suc fuel) n out =
    let more = emit_digits fuel (n / 10) ((b'0' + n % 10) ∷ out) in
    if ltb n 10 then (b'0' + n) ∷ out else more

-- "%lu"; a number has fewer digits than itself, so `n` is fuel enough.
unfoldable pub print_ulong : ℕ → Bytes
unfolding emit_digits
print_ulong n = emit_digits n n []

-- "%0kld" of a number below 10 ^ k.
unfoldable pub print_padded : ℕ → ℕ → Bytes
print_padded zero n = []
print_padded (suc k) n = print_padded k (n / 10) ++ (b'0' + n % 10) ∷ []
