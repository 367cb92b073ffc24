-- ===== src/Btsp/Places.antt =====
-- The loops of the converter of bitstamp over the tokens of a line end.
use coins.Prelude.{
  ℕ, zero, suc, ◌+◌, ◌≤◌, ◌<◌, ◌≡◌, refl, Option, none, some, List, [], ◌∷◌, Bool, true, false, not,
  ◌||◌, Bytes, length, drop, ltb, leb, ◌==◌, if◌then◌else◌, arith, inl, inr, Bool-cases,
}
use coins.Libc.{codes}
use coins.Json.{Token, token, is_string, is_object, copied, text_at, outside, ffw}
use coins.Btsp.{
  Beef, Went, went, off, skipped, on_data, on_evnt, on_chan, Filled, filling, fill, Sides, Found,
  found, found_next, past, find_sides,
}

-- A place that is not before `i`.
abbrev IsFrom : ℕ → Option ℕ → Type 0
IsFrom i none = Unit
IsFrom i (some j) = i ≤ j

ffw-IsFrom : (toks : List Token) (i j eoa : ℕ) → i ≤ j → IsFrom i (ffw toks j eoa)
unfolding ffw
ffw-IsFrom [] i j eoa h = tt
ffw-IsFrom (t ∷ toks) i j eoa h = elim (Bool-cases (ltb t.start eoa)) [
  | inl on ↦ rw on (ffw-IsFrom toks i (j + 1) eoa (omega arith))
  | inr stop ↦ rw stop h
]

abbrev IsOn : ℕ → Went → Type 0
IsOn i (went j f) = i ≤ j
IsOn i _ = Unit

either-IsOn : (i : ℕ) (c : Bool) (a b : Went) → IsOn i a → IsOn i b → IsOn i (if c then a else b)
either-IsOn i true a b h k = h
either-IsOn i false a b h k = k

skipped-IsOn : (i : ℕ) (o : Option ℕ) (f : Beef) → IsFrom i o → IsOn i (skipped o f)
unfolding skipped
skipped-IsOn i none f h = tt
skipped-IsOn i (some j) f h = h

module _ (hash : Bytes → ℕ) (base : Bytes) (arr : List Token) (hx i : ℕ) where
  on_data-IsOn : (j : ℕ) (f : Beef) → i ≤ j → IsOn i (on_data hash arr hx j f)
  unfolding on_data
  on_data-IsOn j f h =
      let t = token arr (j + 1) in
      either-IsOn i (not (hx == hash (codes "data"))) _ _ h (
        either-IsOn i (outside arr (j + 1)) off _ tt (
          either-IsOn i (is_object t.typ) _ _
            (skipped-IsOn i (ffw (drop (j + 1 + 1) arr) (j + 1) t.end') _
              (ffw-IsFrom (drop (j + 1 + 1) arr) i (j + 1) t.end' (omega arith)))
            (omega arith)))

  on_evnt-IsOn : (j : ℕ) (f : Beef) → i ≤ j → IsOn i (on_evnt hash arr hx j f)
  unfolding on_evnt
  on_evnt-IsOn j f h = either-IsOn i (not (hx == hash (codes "even"))) _ _ (on_data-IsOn j f h) (
      either-IsOn i (outside arr (j + 1)) off _ tt (
        either-IsOn i (is_string (token arr (j + 1)).typ) _ _ (omega arith)
          (on_data-IsOn (j + 1) f (omega arith))))

  on_chan-IsOn : (f : Beef) → IsOn i (on_chan hash base arr hx i f)
  unfolding on_chan
  on_chan-IsOn f =
      either-IsOn i (not (hx == hash (codes "chan"))) _ _ (on_evnt-IsOn i f (omega arith)) (
        either-IsOn i (outside arr (i + 1)) off _ tt (
          either-IsOn i (is_string (token arr (i + 1)).typ) _ _ (omega arith)
            (on_evnt-IsOn (i + 1) f (omega arith))))

abbrev pub IsFilled : Filled → Type 0
IsFilled Filled.endless = ⊥
IsFilled _ = Unit

filling-IsFilled :
    (again : ℕ → Beef → Filled) (i : ℕ) (o : Went)
    → ((j : ℕ) (f : Beef) → i < j → IsFilled (again j f))
    → IsOn i o
    → IsFilled (filling again o)
unfolding filling
filling-IsFilled again i (went j f) h k = h (j + 1) f (omega arith)
filling-IsFilled again i Went.off h k = tt

pub fill-IsFilled :
    (fuel : ℕ) (hash : Bytes → ℕ) (base : Bytes) (arr : List Token) (r i : ℕ) (f : Beef)
    → 0 < fuel
    → r < i + fuel
    → IsFilled (fill fuel hash base arr r i f)
unfolding fill
fill-IsFilled zero hash base arr r i f some' h = absurd (omega arith)
fill-IsFilled (suc fuel) hash base arr r i f some' h = elim (Bool-cases (leb r i)) [
  | inl behind ↦ rw behind tt
  | inr within ↦ rw within (
      let below : i < r = ground arith in
      let t = token arr i in
      filling-IsFilled (fill fuel hash base arr r) i _
        (λ j f' lt. fill-IsFilled fuel hash base arr r j f' (omega arith) (omega arith))
        (either-IsOn i (is_string t.typ) _ _
          (on_chan-IsOn hash base arr (hash (copied 4 (drop t.start base))) i f) (omega arith)))
]

abbrev pub IsFound : Found → Type 0
IsFound Found.searching = ⊥
IsFound _ = Unit

either-IsFound : (c : Bool) (a b : Found) → IsFound a → IsFound b → IsFound (if c then a else b)
either-IsFound true a b h k = h
either-IsFound false a b h k = k

either-IsFrom :
    (i : ℕ) (c : Bool) (a b : Option ℕ) → IsFrom i a → IsFrom i b → IsFrom i (if c then a else b)
either-IsFrom i true a b h k = h
either-IsFrom i false a b h k = k

past-IsFrom : (arr : List Token) (i j : ℕ) → i ≤ j → IsFrom i (past arr j)
unfolding past
past-IsFrom arr i j h =
    either-IsFrom i (outside arr j) none _ tt
      (ffw-IsFrom (drop (j + 1) arr) i j (token arr j).end' h)

found_next-IsFound :
    (again : ℕ → Sides → Found) (s : Sides) (i : ℕ) (o : Option ℕ)
    → ((j : ℕ) → i < j → IsFound (again j s))
    → IsFrom i o
    → IsFound (found_next again s o)
unfolding found_next
found_next-IsFound again s i none h k = tt
found_next-IsFound again s i (some j) h k = h (j + 1) (omega arith)

outside-behind : (arr : List Token) (i : ℕ) → length arr ≤ i → outside arr i ≡ true
outside-behind [] i h = refl
outside-behind (t ∷ arr) zero h = absurd (omega arith)
outside-behind (t ∷ arr) (suc i) h = outside-behind arr i (omega arith)

pub find_sides-IsFound :
    (fuel : ℕ) (hash : Bytes → ℕ) (base : Bytes) (arr : List Token) (dend i : ℕ) (s : Sides)
    → 0 < fuel
    → length arr < i + fuel
    → IsFound (find_sides fuel hash base arr dend i s)
unfolding find_sides
find_sides-IsFound zero hash base arr dend i s some' h = absurd (omega arith)
find_sides-IsFound (suc fuel) hash base arr dend i s some' h =
    elim (Bool-cases (leb (length arr) i)) [
      | inl behind ↦ let le : length arr ≤ i = ground arith in rw (outside-behind arr i le) tt
      | inr within ↦
          let below : i < length arr = ground arith in
          let hx = hash (text_at base (token arr i)) in
          either-IsFound (outside arr i) Found.lost _ tt (
            either-IsFound (not (ltb (token arr i).start dend)) (found s) _ tt (
              found_next-IsFound (find_sides fuel hash base arr dend) _ i _
                (λ j lt. find_sides-IsFound fuel hash base arr dend j _ (omega arith) (omega arith))
                (either-IsFrom i (hx == hash (codes "bids") || hx == hash (codes "asks")) _ _
                  (past-IsFrom arr i (i + 1) (omega arith)) (omega arith))))
    ]
