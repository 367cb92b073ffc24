-- ===== src/Plx/Event/Steps.antt =====
-- What one event prints, and where it is left.
use coins.Prelude.{
  ℕ, ◌+◌, ◌≤◌, ◌<◌, ◌≡◌, sym, ap, ◌∙◌, Option, none, some, Bool, true, false, not, ◌||◌, List, [],
  ◌∷◌, ◌++◌, append_assoc, Bytes, All, length, drop, ltb, ◌==◌, if◌then◌else◌, arith, Bool-cases,
  inl, inr,
}
use coins.Libc.{codes}
use coins.Output.{IsLine}
use coins.Json.{Token, token, is_object, copied}
use coins.Plx.Event.{
  Outcome, went, overrun, fast_forward, bounded, says, token_text, with_amount, on_book, on_trade,
  on_type, one_event,
}

-- An event at `i` is left behind `i`, and prints lines.
abbrev pub IsEvent : Bytes → ℕ → Outcome → Type 0
IsEvent ini i (went j lines) = (i < j) × All (IsLine ini) lines
IsEvent ini i overrun = Unit

-- The next event starts no earlier than the search does.
abbrev pub IsFrom : ℕ → Option ℕ → Type 0
IsFrom i none = Unit
IsFrom i (some j) = i ≤ j

IsFrom-le : (i j : ℕ) (o : Option ℕ) → i ≤ j → IsFrom j o → IsFrom i o
IsFrom-le i j none h k = tt
IsFrom-le i j (some m) h k = omega arith

pub fast_forward-IsFrom : (toks : List Token) (i eot : ℕ) → IsFrom i (fast_forward toks i eot)
unfolding fast_forward
fast_forward-IsFrom [] i eot = tt
fast_forward-IsFrom (t ∷ toks) i eot = elim (Bool-cases (ltb t.start eot)) [
  | inl before ↦ rw before (
      IsFrom-le i (i + 1) (fast_forward toks (i + 1) eot) (omega arith)
        (fast_forward-IsFrom toks (i + 1) eot))
  | inr at ↦ rw at (omega arith)
]

module _ (ini : Bytes) (i : ℕ) where
  either-IsEvent :
      (b : Bool) (s t : Outcome)
      → IsEvent ini i s
      → IsEvent ini i t
      → IsEvent ini i (if b then s else t)
  either-IsEvent true s t h k = h
  either-IsEvent false s t h k = k

  bounded-IsEvent :
      (buf : Bytes) (s : Outcome)
      → (length buf ≤ 256 → IsEvent ini i s)
      → IsEvent ini i (bounded buf s)
  unfolding bounded
  bounded-IsEvent buf s h = elim (Bool-cases (ltb 256 (length buf))) [
    | inl long ↦ rw long tt
    | inr fits ↦ rw fits (h (ground arith))
  ]

  skipped-IsEvent : (j : ℕ) → i < j → IsEvent ini i (went j [])
  skipped-IsEvent j h = (h, tt)

  -- A line that is built behind `mid`.
  line-IsEvent :
      (mid text : Bytes) (j : ℕ)
      → i < j
      → IsEvent ini i (
          bounded
            ((ini ++ mid) ++ (text ++ b'\n' ∷ []))
            (went j (((ini ++ mid) ++ (text ++ b'\n' ∷ [])) ∷ [])))
  line-IsEvent mid text j h =
      let line = (ini ++ mid) ++ (text ++ b'\n' ∷ []) in
      let shape : line ≡ ini ++ ((mid ++ text) ++ b'\n' ∷ []) =
        append_assoc ini mid (text ++ b'\n' ∷ [])
        ∙ ap (λ (s : Bytes). ini ++ s) (sym (append_assoc mid text (b'\n' ∷ []))) in
      bounded-IsEvent line (went j (line ∷ [])) (λ fits. (h, ((mid ++ text, shape, fits), tt)))

  module _ (hash : Bytes → ℕ) (base : Bytes) (arr : List Token) where
    with_amount-IsEvent :
        (mid : Bytes) (j eot : ℕ) (removed : Bool)
        → i < j
        → IsEvent ini i (with_amount hash base arr (ini ++ mid) j eot removed)
    unfolding with_amount
    with_amount-IsEvent mid j eot removed h =
        either-IsEvent (ltb (token arr j).start eot) _ _
          (either-IsEvent (says hash base arr j (codes "amount")) _ _
            (line-IsEvent mid (token_text hash base arr (j + 1)) (j + 1) (omega arith))
            (skipped-IsEvent (j + 1) (omega arith)))
          (either-IsEvent removed _ _ (line-IsEvent mid (b'0' ∷ []) j h) (skipped-IsEvent j h))

    on_book-IsEvent :
        (j eot : ℕ) (removed : Bool)
        → i < j
        → IsEvent ini i (on_book hash base arr ini j eot removed)
    unfolding on_book
    on_book-IsEvent j eot removed h =
        let mid =
          copied 3 (drop (token arr (j + 3)).start base)
          ++ b'2' ∷ b'\t' ∷ (token_text hash base arr (j + 5) ++ b'\t' ∷ []) in
        either-IsEvent (not (says hash base arr j (codes "data"))) _ _
          (skipped-IsEvent (j + 1) (omega arith))
          (either-IsEvent (not (is_object (token arr (j + 1)).typ)) _ _
            (skipped-IsEvent (j + 2) (omega arith))
            (either-IsEvent (not (says hash base arr (j + 2) (codes "type"))) _ _
              (skipped-IsEvent (j + 3) (omega arith))
              (either-IsEvent (not (says hash base arr (j + 4) (codes "rate"))) _ _
                (skipped-IsEvent (j + 5) (omega arith))
                (bounded-IsEvent (ini ++ mid)
                  (with_amount hash base arr (ini ++ mid) (j + 6) eot removed)
                  (λ fits. with_amount-IsEvent mid (j + 6) eot removed (omega arith))))))

    on_trade-IsEvent : (j : ℕ) → i < j → IsEvent ini i (on_trade hash base arr ini j)
    unfolding on_trade
    on_trade-IsEvent j h =
        let mid = codes "tra0" ++ b'\t' ∷ (token_text hash base arr (j + 7) ++ b'\t' ∷ []) in
        either-IsEvent (not (says hash base arr j (codes "data"))) _ _
          (skipped-IsEvent (j + 1) (omega arith))
          (either-IsEvent (not (is_object (token arr (j + 1)).typ)) _ _
            (skipped-IsEvent (j + 1) (omega arith))
            (either-IsEvent (not (says hash base arr (j + 6) (codes "rate"))) _ _
              (skipped-IsEvent (j + 1) (omega arith))
              (bounded-IsEvent (ini ++ mid) _ (λ fits.
                either-IsEvent (says hash base arr (j + 2) (codes "amount")) _ _
                  (line-IsEvent mid (token_text hash base arr (j + 3)) (j + 1) (omega arith))
                  (skipped-IsEvent (j + 1) (omega arith))))))

    on_type-IsEvent : (eot hx : ℕ) → IsEvent ini i (on_type hash base arr ini i eot hx)
    unfolding on_type
    on_type-IsEvent eot hx =
        either-IsEvent
          (hx == hash (codes "orderBookModify") || hx == hash (codes "orderBookRemove")) _ _
          (on_book-IsEvent (i + 3) eot (hx == hash (codes "orderBookRemove")) (omega arith))
          (either-IsEvent (hx == hash (codes "newTrade")) _ _
            (on_trade-IsEvent (i + 3) (omega arith)) (skipped-IsEvent (i + 2) (omega arith)))

    pub one_event-IsEvent : IsEvent ini i (one_event hash base arr ini i)
    unfolding one_event
    one_event-IsEvent =
        either-IsEvent (says hash base arr (i + 1) (codes "type")) _ _
          (on_type-IsEvent (token arr i).end' (hash (token_text hash base arr (i + 2))))
          (skipped-IsEvent (i + 2) (omega arith))
