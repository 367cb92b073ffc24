-- ===== src/Json.antt =====
-- The tokens that src/jsmn.c makes of a text, as the converters use them: a kind, the place of the
-- text, and the count of children.
pub mod Levels
use coins.Prelude.{
  Option, none, some, ◌+◌, ltb, if◌then◌else◌, ℕ, zero, suc, ◌-◌, Bool, true, false, List, [], ◌∷◌,
  Bytes, drop, get_or,
}

-- `jsmntype_t` and what is used of `jsmntok_t`.
pub data Kind : Type 0 where
  undefined object array string primitive : Kind

pub record Token : Type 0 where
  pub typ : Kind
  pub start : ℕ
  pub end' : ℕ
  pub size : ℕ

abbrev pub is_primitive : Kind → Bool
is_primitive Kind.primitive = true
is_primitive _ = false

abbrev pub is_string : Kind → Bool
is_string Kind.string = true
is_string _ = false

abbrev pub is_array : Kind → Bool
is_array Kind.array = true
is_array _ = false

abbrev pub is_object : Kind → Bool
is_object Kind.object = true
is_object _ = false

abbrev pub token : List Token → ℕ → Token
token toks i = get_or toks i (record { typ = Kind.undefined; start = 0; end' = 0; size = 0 })

-- `memncpy` of `n` octets; behind a line there are NULs.
unfoldable pub copied : ℕ → Bytes → Bytes
copied zero s = []
copied (suc n) [] = 0 ∷ copied n []
copied (suc n) (c ∷ s) = c ∷ copied n s

-- The text of a token.
abbrev pub text_at : Bytes → Token → Bytes
text_at base t = copied (t.end' - t.start) (drop t.start base)

-- There is no such element of the array.
abbrev pub outside : List Token → ℕ → Bool
outside [] i = true
outside (t ∷ toks) zero = false
outside (t ∷ toks) (suc i) = outside toks i

-- The label `ffw` of the converters: up to the last token in front of `eoa`. The tokens given are those behind `i`.
unfoldable pub ffw : List Token → ℕ → ℕ → Option ℕ
ffw [] i eoa = none
ffw (t ∷ toks) i eoa = let on = ffw toks (i + 1) eoa in if ltb t.start eoa then on else some i
