-- ===== src/Search.antt =====
-- `xmemmem` (src/ws.c and, verbatim, each converter that searches): find a needle in a haystack by
-- a rolling exclusive or of the characters. A result is the offset, from the start of the haystack,
-- of the octet BEHIND the match, as the source returns it; `none` is its NULL.
pub mod Rolling
pub mod Correct
pub mod Exact
use coins.Prelude.{
  ℕ, zero, suc, ◌+◌, ◌-◌, Bool, true, false, ◌&&◌, Option, none, some, [], ◌∷◌, ◌++◌, Bytes, ltb,
  ◌==◌, bit_xor, if◌then◌else◌, length, take,
}
use coins.Libc.{memchr, starts_with}

-- A `char` is signed, and is widened to an `unsigned int`.
abbrev pub uint_of_char : ℕ → ℕ
uint_of_char c = if ltb c 128 then c else c + 4294967040

-- What the loop at the heads of haystack and needle leaves behind.
pub record Heads : Type 0 where
  pub hp : Bytes
  pub np : Bytes
  pub hsum : ℕ
  pub nsum : ℕ
  pub eqp : Bool

-- The loop runs while both have characters left.
unfoldable pub scan_heads : Bytes → Bytes → ℕ → ℕ → Bool → Heads
scan_heads [] np hsum nsum eqp = record { hp = []; np = np; hsum = hsum; nsum = nsum; eqp = eqp }
scan_heads (h ∷ hp) [] hsum nsum eqp = record {
  hp = h ∷ hp;
  np = [];
  hsum = hsum;
  nsum = nsum;
  eqp = eqp;
}
scan_heads (h ∷ hp) (n ∷ np) hsum nsum eqp =
    scan_heads hp np (bit_xor hsum (uint_of_char h)) (bit_xor nsum (uint_of_char n)) (eqp && h == n)

-- The loop through the rest of the haystack: `cand` runs behind `hp` by the needle's length.
-- `offset` is that of `cand`. There is no character behind the end of `cand`.
unfoldable pub roll : Bytes → ℕ → Bytes → Bytes → ℕ → ℕ → Option ℕ
roll ndl nsum cand [] offset hsum = none
roll ndl nsum [] (h ∷ hp) offset hsum = none
roll ndl nsum (c ∷ cand) (h ∷ hp) offset hsum =
    let hsum' = bit_xor (bit_xor hsum (uint_of_char c)) (uint_of_char h) in
    let later = roll ndl nsum cand hp (offset + 1) hsum' in
    if hsum' == nsum && starts_with (take (length ndl - 1) ndl) cand
    then some (offset + 1 + length ndl)
    else later

-- The tests behind the first loop; the last argument is what is left of the needle.
unfoldable pub after_heads : Bytes → ℕ → Bytes → Heads → Bytes → Option ℕ
unfolding roll
after_heads ndl skipped hay s (c ∷ more) = none
after_heads ndl skipped hay s [] =
    if s.eqp then some (skipped + length ndl) else roll ndl s.nsum hay s.hp skipped s.hsum

-- What follows the search for the first character: `skipped` characters stand before `hay`.
unfoldable pub match_from : Bytes → ℕ → Bytes → Option ℕ
unfolding scan_heads after_heads
match_from ndl skipped [] = none
match_from [] skipped (h ∷ hp) = none
match_from (n ∷ np) skipped (h ∷ hp) =
    let s = scan_heads hp np (uint_of_char h) (uint_of_char h) true in
    after_heads (n ∷ np) skipped (h ∷ hp) s s.np

unfoldable pub from_candidate : Bytes → Option (Bytes × Bytes) → Option ℕ
unfolding match_from
from_candidate ndl none = none
from_candidate ndl (some (before, rest)) = match_from ndl (length before) rest

unfoldable pub xmemmem : Bytes → Bytes → Option ℕ
unfolding memchr from_candidate
xmemmem hay [] = some 0
xmemmem hay (n ∷ np) = from_candidate (n ∷ np) (memchr n hay)

-- The naive search: at each place in turn, does the needle start here?
unfoldable pub find_after : Bytes → Bytes → ℕ → Option ℕ
unfolding starts_with
find_after ndl [] offset = if starts_with ndl [] then some (offset + length ndl) else none
find_after ndl (h ∷ hay) offset =
    let later = find_after ndl hay (offset + 1) in
    if starts_with ndl (h ∷ hay) then some (offset + length ndl) else later
