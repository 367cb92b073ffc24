-- ===== src/Plx/Event/Lines.antt =====
-- What the events of a line print, and that their loop ends.
use coins.Prelude.{
  ℕ, zero, suc, ◌+◌, ◌≤◌, ◌<◌, Option, none, some, not, List, [], ◌∷◌, ◌++◌, Bytes, All, length,
  drop, ltb, leb, arith, Bool-cases, inl, inr,
}
use coins.Clock.{tvtostr}
use coins.Output.{
  IsLine, either-Prints, and_printed-Prints, Printed, printed, fault, out_of_fuel, Prints,
}
use coins.Json.{Token, token, is_primitive, is_array, is_object}
use coins.Plx.{Plx, instostr, find_sub, toktoprim}
use coins.Plx.Event.{
  Outcome, went, overrun, fast_forward, one_event, at_next, after_event, each_event, on_sub, events,
}
use coins.Plx.Event.Steps.{IsEvent, IsFrom, fast_forward-IsFrom, one_event-IsEvent}

module _ (hash : Bytes → ℕ) (base : Bytes) (arr : List Token) (ini : Bytes) where
  at_next-Prints :
      (later : ℕ → Printed) (i : ℕ) (o : Option ℕ)
      → ((j : ℕ) → i ≤ j → Prints (IsLine ini) (later j))
      → IsFrom i o
      → Prints (IsLine ini) (at_next hash base arr later o)
  at_next-Prints later i none h k = tt
  at_next-Prints later i (some j) h k = h j k

  after_event-Prints :
      (later : ℕ → Printed) (eot i : ℕ) (s : Outcome)
      → IsEvent ini i s
      → ((j : ℕ) → i < j → Prints (IsLine ini) (later j))
      → Prints (IsLine ini) (after_event hash base arr later eot s)
  after_event-Prints later eot i overrun h k = tt
  after_event-Prints later eot i (went j lines) h k =
      let o = fast_forward (drop j arr) j eot in
      and_printed-Prints (IsLine ini) lines (at_next hash base arr later o) h.1 (
        at_next-Prints later j o (λ m le. k m (omega (arith, h.0)))
          (fast_forward-IsFrom (drop j arr) j eot))

  each_event-Prints :
      (n fuel i : ℕ)
      → 0 < fuel
      → length arr < i + fuel
      → Prints (IsLine ini) (each_event hash base arr ini n fuel i)
  unfolding each_event
  each_event-Prints n zero i some' h = absurd (omega arith)
  each_event-Prints n (suc fuel) i some' h = elim (Bool-cases (leb (length arr) i)) [
    | inl behind ↦ rw behind tt
    | inr within ↦ rw within (elim (Bool-cases (ltb (token arr i).start n)) [
      | inr done ↦ rw done tt
      | inl more ↦ rw more (
          let below : i < length arr = ground arith in
          after_event-Prints (each_event hash base arr ini n fuel) (token arr i).end' i
            (one_event hash base arr ini i) (one_event-IsEvent ini i hash base arr)
            (λ j lt. each_event-Prints n fuel j (omega arith) (omega arith)))
    ])
  ]

-- From the stamp of a line of the log and an instrument on.
abbrev pub IsOutput : Plx → Bytes → Type 0
IsOutput p line =
    (subix : ℕ) × IsLine (tvtostr p.metr ++ b'\t' ∷ (instostr p subix ++ b'\t' ∷ [])) line

IsLine-IsOutput :
    (p : Plx) (subix : ℕ) (lines : List Bytes)
    → All (IsLine (tvtostr p.metr ++ b'\t' ∷ (instostr p subix ++ b'\t' ∷ []))) lines
    → All (IsOutput p) lines
IsLine-IsOutput p subix [] h = tt
IsLine-IsOutput p subix (line ∷ lines) h = ((subix, h.0), IsLine-IsOutput p subix lines h.1)

printed-IsOutput :
    (p : Plx) (subix : ℕ) (r : Printed)
    → Prints (IsLine (tvtostr p.metr ++ b'\t' ∷ (instostr p subix ++ b'\t' ∷ []))) r
    → Prints (IsOutput p) r
printed-IsOutput p subix (printed lines) h = IsLine-IsOutput p subix lines h
printed-IsOutput p subix fault h = tt
printed-IsOutput p subix out_of_fuel h = h

module _ (hash : Bytes → ℕ) (base : Bytes) (arr : List Token) where
  on_sub-Prints : (p : Plx) (o : Option ℕ) → Prints (IsOutput p) (on_sub hash base arr p o)
  unfolding on_sub
  on_sub-Prints p none = tt
  on_sub-Prints p (some subix) =
      let ini = tvtostr p.metr ++ b'\t' ∷ (instostr p subix ++ b'\t' ∷ []) in
      printed-IsOutput p subix
        (each_event hash base arr ini (token arr 5).end' (suc (length arr)) 6)
        (each_event-Prints hash base arr ini (token arr 5).end' (suc (length arr)) 6 (omega arith)
          (omega arith))

  -- Whatever the tokens are, the loop over the events ends; unless it leaves the array or the
  -- buffer, each line it prints starts with the stamp and an instrument, ends in a newline, and
  -- has at most 256 octets.
  pub events-Prints : (ntoks : ℕ) (p : Plx) → Prints (IsOutput p) (events hash base arr ntoks p)
  unfolding events
  events-Prints ntoks p = either-Prints (IsOutput p) (leb ntoks 8) _ _ tt (
      either-Prints (IsOutput p) (not (is_primitive (token arr 2).typ)) _ _ tt (
        either-Prints (IsOutput p) (not (is_array (token arr 5).typ)) _ _ tt (
          either-Prints (IsOutput p) (not (is_object (token arr 6).typ)) _ _ tt
            (on_sub-Prints p (find_sub (toktoprim base (token arr 2)) p.subids 0)))))
