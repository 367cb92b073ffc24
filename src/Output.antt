-- ===== src/Output.antt =====
-- What the converters print: whole lines, each put together in a buffer of 256 octets.
use coins.Prelude.{
  ◌≤◌, ◌≡◌, List, [], ◌∷◌, ◌++◌, Bytes, All, length, ltb, if◌then◌else◌, arith, Bool, true, false,
  Bool-cases, All-append, inl, inr,
}

-- The lines in order, or an access outside of an array. No loop runs out of fuel.
pub data Printed : Type 0 where
  printed : List Bytes → Printed
  fault : Printed
  out_of_fuel : Printed

abbrev pub and_printed : List Bytes → Printed → Printed
and_printed lines (printed more) = printed (lines ++ more)
and_printed lines fault = fault
and_printed lines out_of_fuel = out_of_fuel

-- What follows when `buf` has been written.
unfoldable pub in_room : Bytes → Printed → Printed
in_room buf more = if ltb 256 (length buf) then fault else more

-- `fwrite` of a line, and what follows.
unfoldable pub emit : Bytes → Printed → Printed
unfolding in_room
emit line more = in_room line (and_printed (line ∷ []) more)

-- What the first loop prints, then what the second does.
unfoldable pub both : Printed → Printed → Printed
both (printed lines) more = and_printed lines more
both fault more = fault
both out_of_fuel more = out_of_fuel

-- The loop has ended, and each line satisfies `P`.
abbrev pub Prints : (Bytes → Type 0) → Printed → Type 0
Prints P (printed lines) = All P lines
Prints P fault = Unit
Prints P out_of_fuel = ⊥

pub emit-printed :
    (line : Bytes) (lines : List Bytes)
    → length line ≤ 256
    → emit line (printed lines) ≡ printed (line ∷ lines)
unfolding emit
emit-printed line lines h = ground arith

pub in_room-fits : (buf : Bytes) (r : Printed) → length buf ≤ 256 → in_room buf r ≡ r
unfolding in_room
in_room-fits buf r h = ground arith

-- A line that fits the buffer, from `ini` to a newline.
abbrev pub IsLine : Bytes → Bytes → Type 0
IsLine ini line = (mid : Bytes) × (line ≡ ini ++ (mid ++ b'\n' ∷ [])) × (length line ≤ 256)

module _ (P : Bytes → Type 0) where
  pub either-Prints :
      (b : Bool) (r s : Printed) → Prints P r → Prints P s → Prints P (if b then r else s)
  either-Prints true r s h k = h
  either-Prints false r s h k = k

  pub and_printed-Prints :
      (lines : List Bytes) (r : Printed) → All P lines → Prints P r → Prints P (and_printed lines r)
  and_printed-Prints lines (printed more) h k = All-append P lines more h k
  and_printed-Prints lines fault h k = tt
  and_printed-Prints lines out_of_fuel h k = k

  pub emit-Prints :
      (line : Bytes) (more : Printed)
      → (length line ≤ 256 → P line)
      → Prints P more
      → Prints P (emit line more)
  unfolding emit in_room
  emit-Prints line more h k = elim (Bool-cases (ltb 256 (length line))) [
    | inl long ↦ rw long tt
    | inr fits ↦ rw fits (and_printed-Prints (line ∷ []) more (h (ground arith), tt) k)
  ]

  pub in_room-Prints : (buf : Bytes) (r : Printed) → Prints P r → Prints P (in_room buf r)
  unfolding in_room
  in_room-Prints buf r h = either-Prints (ltb 256 (length buf)) fault r tt h

  pub both-Prints : (a b : Printed) → Prints P a → Prints P b → Prints P (both a b)
  unfolding both
  both-Prints (printed lines) b h k = and_printed-Prints lines b h k
  both-Prints fault b h k = tt
  both-Prints out_of_fuel b h k = h
