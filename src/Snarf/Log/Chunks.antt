-- ===== src/Snarf/Log/Chunks.antt =====
-- However a stream is cut into reads, the same lines are logged.
use coins.Prelude.{
  ℕ, zero, suc, ◌≤◌, ◌<◌, ◌≡◌, refl, sym, ◌∙◌, ap, Option, none, some, false, List, [], ◌∷◌, ◌++◌,
  append_assoc, append-nil, Bytes, length, drop, ◌==◌, if◌then◌else◌, arith, All, All-append,
  Bool-cases, inl, inr,
}
use coins.Libc.{memchr}
use coins.Snarf.Log.{Timespec, hrclock_print, on_line, log_lines, logwss}

module _ (record_of : Bytes → Bytes) where
  -- The lines of a text, one character at a time, behind the part `line` of a line.
  abbrev split_at : Bytes → Bytes → List Bytes × Bytes
  split_at line [] = ([], line)
  split_at line (c ∷ s) =
      if c == b'\n'
      then (record_of (line ++ b'\n' ∷ []) ∷ (split_at [] s).0, (split_at [] s).1)
      else split_at (line ++ c ∷ []) s

  split_at-append :
      (line a b : Bytes)
      → split_at line (a ++ b) ≡ (
        (split_at line a).0 ++ (split_at (split_at line a).1 b).0,
        (split_at (split_at line a).1 b).1,
      )
  split_at-append line [] b = refl
  split_at-append line (c ∷ a) b = elim (Bool-cases (c == b'\n')) [
    | inl newline ↦ rw newline (
        ap (λ (r : List Bytes × Bytes). (record_of (line ++ b'\n' ∷ []) ∷ r.0, r.1))
          (split_at-append [] a b))
    | inr other ↦ rw other (split_at-append (line ++ c ∷ []) a b)
  ]

  abbrev IsPlain : ℕ → Type 0
  IsPlain c = (c == b'\n') ≡ false

  split_at-plain :
      (line a b : Bytes) → All IsPlain a → split_at line (a ++ b) ≡ split_at (line ++ a) b
  split_at-plain line [] b h = rw (append-nil line)
  split_at-plain line (c ∷ a) b h = rw h.0 (
      split_at-plain (line ++ c ∷ []) a b h.1
      ∙ ap (λ (t : Bytes). split_at t b) (append_assoc line (c ∷ []) a))

  split_at-rest : (line s : Bytes) → All IsPlain line → All IsPlain (split_at line s).1
  split_at-rest line [] h = h
  split_at-rest line (c ∷ s) h = elim (Bool-cases (c == b'\n')) [
    | inl newline ↦ rw newline (split_at-rest [] s tt)
    | inr other ↦
        rw other (split_at-rest (line ++ c ∷ []) s (All-append IsPlain line (c ∷ []) h (other, tt)))
  ]

  -- What a round makes of the text behind the part `line` of a line.
  abbrev behind :
      (Bytes → List Bytes × Bytes) → Bytes → Bytes → Option (Bytes × Bytes) → List Bytes × Bytes
  behind later line s none = ([], line ++ s)
  behind later line s (some (l, eol)) =
      (record_of (line ++ (l ++ b'\n' ∷ [])) ∷ (later (drop 1 eol)).0, (later (drop 1 eol)).1)

  behind-cons :
      (later : Bytes → List Bytes × Bytes) (line : Bytes) (c : ℕ) (s : Bytes)
      (o : Option (Bytes × Bytes))
      → behind later line
          (c ∷ s)
          (elim o [ none ↦ none | some (before, rest) ↦ some (c ∷ before, rest) ])
        ≡ behind later (line ++ c ∷ []) s o
  behind-cons later line c s none = ap (λ (t : Bytes). ([], t)) (sym (append_assoc line (c ∷ []) s))
  behind-cons later line c s (some (l, eol)) =
      ap (λ (t : Bytes). (record_of t ∷ (later (drop 1 eol)).0, (later (drop 1 eol)).1))
        (sym (append_assoc line (c ∷ []) (l ++ b'\n' ∷ [])))

  behind-memchr :
      (later : Bytes → List Bytes × Bytes) (line s : Bytes)
      → ((t : Bytes) → length t < length s → later t ≡ split_at [] t)
      → behind later line s (memchr b'\n' s) ≡ split_at line s
  unfolding memchr
  behind-memchr later line [] h = ap (λ (t : Bytes). ([], t)) (append-nil line)
  behind-memchr later line (c ∷ s) h = elim (Bool-cases (c == b'\n')) [
    | inl newline ↦ rw newline (
        ap (λ (r : List Bytes × Bytes). (record_of (line ++ b'\n' ∷ []) ∷ r.0, r.1))
          (h s (omega arith)))
    | inr other ↦ rw other (
        behind-cons later line c s (memchr b'\n' s)
        ∙ behind-memchr later (line ++ c ∷ []) s (λ t lt. h t (omega arith)))
  ]

  on_line-behind :
      (later : Bytes → List Bytes × Bytes) (s : Bytes) (o : Option (Bytes × Bytes))
      → on_line record_of later s o ≡ behind later [] s o
  unfolding on_line
  on_line-behind later s none = refl
  on_line-behind later s (some (l, eol)) = refl

  log_lines-split_at :
      (fuel : ℕ) (s : Bytes) → length s ≤ fuel → log_lines record_of fuel s ≡ split_at [] s
  unfolding log_lines
  log_lines-split_at zero [] h = refl
  log_lines-split_at zero (c ∷ s) h = absurd (omega arith)
  log_lines-split_at (suc fuel) s h =
      on_line-behind (log_lines record_of fuel) s (memchr b'\n' s)
      ∙ behind-memchr (log_lines record_of fuel) [] s
          (λ t lt. log_lines-split_at fuel t (omega arith))

-- The reads of a connection one after the other: each is logged behind what the last one left.
abbrev pub feed : (Bytes → Bytes) → Timespec → Bytes → List Bytes → List Bytes × Bytes
feed massage t text [] = ([], text)
feed massage t text (chunk ∷ chunks) =
    let now = logwss massage t (text ++ chunk) in
    let later = feed massage t now.1 chunks in (now.0 ++ later.0, later.1)

abbrev pub concat : List Bytes → Bytes
concat [] = []
concat (chunk ∷ chunks) = chunk ++ concat chunks

module _ (massage : Bytes → Bytes) (t : Timespec) where
  abbrev stamped : Bytes → Bytes
  stamped line = hrclock_print t ++ b'\t' ∷ massage line

  logwss-split_at : (s : Bytes) → logwss massage t s ≡ split_at stamped [] s
  unfolding logwss
  logwss-split_at s = log_lines-split_at stamped (length s) s (omega arith)

  -- One read behind the rest of the last.
  logwss-append :
      (a b : Bytes)
      → logwss massage t (a ++ b) ≡ (
        (logwss massage t a).0 ++ (logwss massage t ((logwss massage t a).1 ++ b)).0,
        (logwss massage t ((logwss massage t a).1 ++ b)).1,
      )
  logwss-append a b =
      let s = split_at stamped in
      let plain = split_at-plain stamped [] (s [] a).1 b (split_at-rest stamped [] a tt) in
      logwss-split_at (a ++ b)
      ∙ split_at-append stamped [] a b
      ∙ ap (λ (r : List Bytes × Bytes). ((s [] a).0 ++ r.0, r.1))
          (sym (logwss-split_at ((s [] a).1 ++ b) ∙ plain))
      ∙ ap
          (λ (r : List Bytes × Bytes).
            (r.0 ++ (logwss massage t (r.1 ++ b)).0, (logwss massage t (r.1 ++ b)).1))
          (sym (logwss-split_at a))

  -- The lines that are logged, and what is left over, do not depend on how the stream was cut.
  pub feed-concat :
      (text : Bytes) (chunk : Bytes) (chunks : List Bytes)
      → feed massage t text (chunk ∷ chunks) ≡ logwss massage t (text ++ (chunk ++ concat chunks))
  feed-concat text chunk [] =
      ap (λ (l : List Bytes). (l, (logwss massage t (text ++ chunk)).1)) (append-nil _)
      ∙ ap (λ (s : Bytes). logwss massage t (text ++ s)) (sym (append-nil chunk))
  feed-concat text chunk (next ∷ chunks) =
      let now = logwss massage t (text ++ chunk) in
      ap (λ (r : List Bytes × Bytes). (now.0 ++ r.0, r.1)) (feed-concat now.1 next chunks)
      ∙ sym (logwss-append (text ++ chunk) (next ++ concat chunks))
      ∙ ap (logwss massage t) (append_assoc text chunk (next ++ concat chunks))
