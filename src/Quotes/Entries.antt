-- ===== src/Quotes/Entries.antt =====
-- The entries of a message of quotes as a text, and the lines for them.
use coins.Prelude.{
  ℕ, zero, suc, ◌+◌, ◌≤◌, ◌<◌, ◌≡◌, ◌≢◌, refl, sym, ap, ◌∙◌, none, some, List, [], ◌∷◌, ◌++◌,
  append_assoc, Bool, true, false, Bytes, All, length, length-append, drop-length_append,
  if◌then◌else◌, arith,
}
use coins.Libc.{codes, starts_with}
use coins.Search.{xmemmem}
use coins.Search.Exact.{xmemmem-append, xmemmem-skip}
use coins.Output.{Printed, printed, in_room-fits, emit, emit-printed}
use coins.Quotes.{
  ety, prc, qty, span_nul, field, at_amount, first_try, at_price, at_side, at_entry, entries,
}

pub record Entry : Type 0 where
  pub ask : Bool
  pub price : Bytes
  pub amount : Bytes

abbrev pub NoNul : Bytes → Type 0
NoNul s = All (λ (c : ℕ). c ≢ 0) s

-- The text of an entry, and what follows its last field.
abbrev pub entry_text : Entry → Bytes → Bytes
entry_text e rest =
    ety ++ (if e.ask then b'1' else b'0') ∷ (prc ++ (e.price ++ (qty ++ (e.amount ++ rest))))

abbrev pub entries_text : List Entry → Bytes → Bytes
entries_text [] rest = rest
entries_text (e ∷ es) rest = entry_text e (entries_text es rest)

abbrev pub line_of : Bytes → Entry → Bytes
line_of ini e =
    ini
    ++ ((if e.ask then codes "ASK2" else codes "BID2")
        ++ b'\t' ∷ (e.price ++ b'\t' ∷ (e.amount ++ b'\n' ∷ [])))

abbrev pub lines_of : Bytes → List Entry → List Bytes
lines_of ini [] = []
lines_of ini (e ∷ es) = line_of ini e ∷ lines_of ini es

-- An entry whose line fits the buffer.
pub record IsEntry (ini : Bytes) (e : Entry) : Type 0 where
  pub price_ends : NoNul e.price
  pub amount_ends : NoNul e.amount
  pub fits : length (line_of ini e) ≤ 256

pub span_nul-append : (s rest : Bytes) → NoNul s → span_nul (s ++ 0 ∷ rest) ≡ (s, 0 ∷ rest)
unfolding span_nul
span_nul-append [] rest h = refl
span_nul-append (c ∷ s) rest h = ground (arith, span_nul-append s rest h.1)

pub field-append :
    (n : ℕ) (np before after : Bytes)
    → All (λ (c : ℕ). c ≢ n) before
    → field (n ∷ np) (before ++ (n ∷ np ++ after)) ≡ some after
unfolding field
field-append n np before after h =
    let e : length before + length (n ∷ np) ≡ length (before ++ n ∷ np) =
      omega (arith, length-append before (n ∷ np)) in
    rw (xmemmem-append n np before after h) (
      ap some (
        rw (e, sym (append_assoc before (n ∷ np) after))
          (drop-length_append (before ++ n ∷ np) after)))

-- What is printed behind the side, as one line.
at_side-entry :
    (again : Bytes → Printed) (ini s p q r : Bytes)
    → NoNul p
    → NoNul q
    → length (ini ++ (s ++ b'\t' ∷ (p ++ b'\t' ∷ (q ++ b'\n' ∷ [])))) ≤ 256
    → at_side again (ini ++ (s ++ b'\t' ∷ [])) (prc ++ (p ++ (qty ++ (q ++ 0 ∷ r))))
      ≡ emit (ini ++ (s ++ b'\t' ∷ (p ++ b'\t' ∷ (q ++ b'\n' ∷ [])))) (again (q ++ 0 ∷ r))
unfolding at_side at_price first_try at_amount starts_with
at_side-entry again ini s p q r hp hq fits =
    let head = ini ++ (s ++ b'\t' ∷ []) in
    let shape : (head ++ p) ++ b'\t' ∷ (q ++ b'\n' ∷ [])
        ≡ ini ++ (s ++ b'\t' ∷ (p ++ b'\t' ∷ (q ++ b'\n' ∷ []))) =
      append_assoc head p (b'\t' ∷ (q ++ b'\n' ∷ []))
      ∙ append_assoc ini (s ++ b'\t' ∷ []) (p ++ b'\t' ∷ (q ++ b'\n' ∷ []))
      ∙ ap (λ (t : Bytes). ini ++ t)
          (append_assoc s (b'\t' ∷ []) (p ++ b'\t' ∷ (q ++ b'\n' ∷ []))) in
    let size : length (head ++ p) + suc (length (q ++ b'\n' ∷ [])) ≤ 256 =
      omega (arith, length-append (head ++ p) (b'\t' ∷ (q ++ b'\n' ∷ [])), ap length shape) in
    rw
      (
        in_room-fits head _ (omega (arith, length-append head p)),
        span_nul-append p (codes "271=" ++ (q ++ 0 ∷ r)) hp,
        in_room-fits (head ++ p) _ (omega arith),
        span_nul-append q r hq,
        shape,
      )
      refl

at_entry-side :
    (again : Bytes → Printed) (ini : Bytes) (ask : Bool) (p q r : Bytes)
    → NoNul p
    → NoNul q
    → length (line_of ini (record { ask = ask; price = p; amount = q })) ≤ 256
    → at_entry again ini
        (some ((if ask then b'1' else b'0') ∷ (prc ++ (p ++ (qty ++ (q ++ 0 ∷ r))))))
      ≡ emit (line_of ini (record { ask = ask; price = p; amount = q })) (again (q ++ 0 ∷ r))
unfolding at_entry
at_entry-side again ini true p q r hp hq fits =
    at_side-entry again ini (codes "ASK2") p q r hp hq fits
at_entry-side again ini false p q r hp hq fits =
    at_side-entry again ini (codes "BID2") p q r hp hq fits

entries_text-nul :
    (es : List Entry) (rest : Bytes) → (r : Bytes) × (entries_text es (0 ∷ rest) ≡ 0 ∷ r)
entries_text-nul [] rest = (rest, refl)
entries_text-nul (e ∷ es) rest = (_, refl)

module _ (ini : Bytes) where
  one_entry :
      (again : Bytes → Printed) (x : Entry) (t r : Bytes)
      → t ≡ 0 ∷ r
      → IsEntry ini x
      → at_entry again ini
          (some ((if x.ask then b'1' else b'0') ∷ (prc ++ (x.price ++ (qty ++ (x.amount ++ t))))))
        ≡ emit (line_of ini x) (again (x.amount ++ t))
  one_entry again x t r e h =
      rw e (at_entry-side again ini x.ask x.price x.amount r h.price_ends h.amount_ends h.fits)

  -- From a field's value on, the entries behind it are printed in order.
  pub entries-entries_text :
      (fuel : ℕ) (v : Bytes) (es : List Entry) (rest : Bytes)
      → length es < fuel
      → NoNul v
      → All (IsEntry ini) es
      → xmemmem (0 ∷ rest) ety ≡ none
      → entries fuel ini (v ++ entries_text es (0 ∷ rest)) ≡ printed (lines_of ini es)
  unfolding entries field
  entries-entries_text zero v es rest k hv h e = absurd (omega arith)
  entries-entries_text (suc fuel) v [] rest k hv h e =
      rw (xmemmem-skip 0 (codes "269=") v (0 ∷ rest) hv e) refl
  entries-entries_text (suc fuel) v (x ∷ es) rest k hv h e =
      let (r, er) = entries_text-nul es rest in
      rw (field-append 0 (codes "269=") v _ hv) (
        one_entry (entries fuel ini) x (entries_text es (0 ∷ rest)) r er h.0
        ∙ rw (entries-entries_text fuel x.amount es rest (omega arith) h.0.amount_ends h.1 e)
            (emit-printed (line_of ini x) (lines_of ini es) h.0.fits))
