-- ===== src/Slots.antt =====
-- Slots of 16 octets, in which converters keep the names of instruments: the last octet is 15 less
-- the length of the name.
use coins.Prelude.{
  ℕ, zero, suc, ◌-◌, ◌+◌, ◌^◌, ◌%◌, ◌≤◌, ◌≡◌, refl, ap, ◌∙◌, [], ◌∷◌, ◌++◌, Bytes, length,
  length-append, length-drop, take, drop, take-length_append, length-set, get_or-set, take-set,
  get_or, set, ltb, if◌then◌else◌, arith,
}
use coins.Json.{copied}

-- Sixteen octets, the last of which is at most 15.
abbrev pub IsSlot : Bytes → Type 0
IsSlot slot = (length slot ≡ 16) × (get_or slot 15 0 ≤ 15)

pub length-copied : (n : ℕ) (s : Bytes) → length (copied n s) ≡ n
unfolding copied
length-copied zero s = refl
length-copied (suc n) [] = ap suc (length-copied n [])
length-copied (suc n) (c ∷ s) = ap suc (length-copied n s)

-- What is kept of a name of `len` octets.
abbrev pub name_size : ℕ → ℕ
name_size len = if ltb len 16 then len else 15

pub name_size_le : (len : ℕ) → name_size len ≤ 15
name_size_le len = ground arith

-- A slot with a name of `z` octets, over `old`.
abbrev pub slot_with : Bytes → ℕ → Bytes → Bytes
slot_with ins z old = set (copied z ins ++ drop z old) 15 ((2 ^ 8 + 15 - z) % 2 ^ 8)

pub slot_size :
    (ins : Bytes) (z : ℕ) (old : Bytes)
    → z ≤ 15
    → length old ≡ 16
    → length (copied z ins ++ drop z old) ≡ 16
slot_size ins z old h k =
    omega (arith, length-append (copied z ins) (drop z old), length-copied z ins, length-drop z old)

pub slot_with-IsSlot :
    (ins : Bytes) (z : ℕ) (old : Bytes) → z ≤ 15 → length old ≡ 16 → IsSlot (slot_with ins z old)
slot_with-IsSlot ins z old h k =
    let size = slot_size ins z old h k in
    (
      length-set (copied z ins ++ drop z old) 15 ((2 ^ 8 + 15 - z) % 2 ^ 8) ∙ size,
      rw (get_or-set (copied z ins ++ drop z old) 15 ((2 ^ 8 + 15 - z) % 2 ^ 8) 0 (omega arith))
          (omega arith),
    )

pub slot_name :
    (ins : Bytes) (z : ℕ) (old : Bytes)
    → z ≤ 15
    → length old ≡ 16
    → take (15 - get_or (slot_with ins z old) 15 0) (slot_with ins z old) ≡ copied z ins
slot_name ins z old h k =
    let body = copied z ins ++ drop z old in
    let last : get_or (slot_with ins z old) 15 0 ≡ (2 ^ 8 + 15 - z) % 2 ^ 8 =
      get_or-set body 15 ((2 ^ 8 + 15 - z) % 2 ^ 8) 0 (omega (arith, slot_size ins z old h k)) in
    let size : 15 - get_or (slot_with ins z old) 15 0 ≡ length (copied z ins) =
      omega (arith, length-copied z ins, last) in
    ap (λ (n : ℕ). take n (slot_with ins z old)) size
    ∙ take-set body (length (copied z ins)) 15 ((2 ^ 8 + 15 - z) % 2 ^ 8)
        (omega (arith, length-copied z ins))
    ∙ take-length_append (copied z ins) (drop z old)
