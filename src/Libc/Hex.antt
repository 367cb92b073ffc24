-- ===== src/Libc/Hex.antt =====
-- `strtoul` at base 16.
use coins.Prelude.{
  ℕ, ◌+◌, ◌-◌, ◌*◌, Bool, true, false, ◌&&◌, ◌||◌, [], ◌∷◌, Bytes, leb, ◌==◌, if◌then◌else◌,
}
use coins.Libc.{is_digit, skip_space, ulong_of}

abbrev pub is_hex : ℕ → Bool
is_hex c = is_digit c || (leb b'a' c && leb c b'f' || leb b'A' c && leb c b'F')

unfoldable pub hex_value : ℕ → ℕ
hex_value c = if is_digit c then c - b'0' else if leb b'a' c then c - b'a' + 10 else c - b'A' + 10

-- The number that digits stand for, behind those read so far, and what follows them.
unfoldable pub hex_digits : ℕ → Bytes → ℕ × Bytes
unfolding hex_value
hex_digits acc [] = (acc, [])
hex_digits acc (c ∷ s) =
    let more = hex_digits (acc * 16 + hex_value c) s in if is_hex c then more else (acc, c ∷ s)

unfoldable pub saturated : Bool → ℕ × Bytes → ℕ × Bytes
unfolding ulong_of
saturated negative (v, rest) = (ulong_of negative v, rest)

-- With no digit at all the value is 0, and the end pointer is the start.
unfoldable pub hex_from : Bytes → Bool → Bytes → ℕ × Bytes
unfolding saturated hex_digits
hex_from start negative [] = (0, start)
hex_from start negative (c ∷ s) =
    if is_hex c then saturated negative (hex_digits 0 (c ∷ s)) else (0, start)

-- A `0x` is passed over where a digit follows it.
unfoldable pub behind_0x : Bytes → Bool → Bytes → ℕ × Bytes
unfolding hex_from
behind_0x start negative (z ∷ x ∷ c ∷ s) =
    if (z == b'0' && (x == b'x' || x == b'X')) && is_hex c
    then hex_from start negative (c ∷ s)
    else hex_from start negative (z ∷ x ∷ c ∷ s)
behind_0x start negative s = hex_from start negative s

unfoldable pub hex_sign : Bytes → Bytes → ℕ × Bytes
unfolding behind_0x
hex_sign start [] = (0, start)
hex_sign start (c ∷ s) =
    if c == b'-'
    then behind_0x start true s
    else if c == b'+'
    then behind_0x start false s
    else behind_0x start false (c ∷ s)

-- `strtoul(p, &end, 16)`
unfoldable pub strtoul_hex : Bytes → ℕ × Bytes
unfolding hex_sign skip_space
strtoul_hex s = hex_sign s (skip_space s)
