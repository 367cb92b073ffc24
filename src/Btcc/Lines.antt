-- ===== src/Btcc/Lines.antt =====
-- The entries of a message of btcc go out as lines.
use coins.Prelude.{
  ℕ, zero, suc, ◌≤◌, ◌<◌, ◌≡◌, refl, ap, ◌∙◌, Option, none, some, List, [], ◌∷◌, ◌++◌, append_assoc,
  Bytes, length, length-append, arith,
}
use coins.Libc.{codes, starts_with}
use coins.Search.{xmemmem}
use coins.Search.Exact.{xmemmem-skip}
use coins.Output.{Printed, printed, in_room-fits, emit, emit-printed}
use coins.Quotes.{ety, prc, qty, span_nul, field}
use coins.Quotes.Entries.{NoNul, span_nul-append, field-append}
use coins.Btcc.{with_name, at_name, at_ety, quotes}
use coins.Btcc.Offers.{
  Side, Offer, side_char, side_name, name_text, offers_text, current, level_char, line_of, lines_of,
  IsName, IsOffer, AreOffers, number, flavour_of-char, flavour_of-append, sides-number, known,
  at_prc-fields,
}

module _ (again : Bytes → Bytes → Printed) (typ : ℕ) (head : Bytes) where
  with_name-fields :
      (s : Side) (cur t p q r : Bytes)
      → IsName cur
      → NoNul p
      → NoNul q
      → length (line_of typ head cur (record { side = s; name = none; price = p; amount = q }))
        ≤ 256
      → with_name again typ head (number s) (cur ++ 0 ∷ t) (prc ++ (p ++ (qty ++ (q ++ 0 ∷ r))))
        ≡ emit
            (line_of typ head cur (record { side = s; name = none; price = p; amount = q }))
            (again (cur ++ 0 ∷ t) (q ++ 0 ∷ r))
  unfolding with_name
  with_name-fields s cur t p q r named hp hq fits =
      let tag = side_name s ++ level_char typ cur s ∷ [] in
      let line = head ++ (cur ++ b'\t' ∷ tag) in
      let more = b'\t' ∷ (p ++ b'\t' ∷ (q ++ b'\n' ∷ [])) in
      let shape : line ++ more
          ≡ line_of typ head cur (record { side = s; name = none; price = p; amount = q }) =
        append_assoc head (cur ++ b'\t' ∷ tag) more
        ∙ ap (λ (x : Bytes). head ++ x)
            (append_assoc cur (b'\t' ∷ tag) more
              ∙ ap (λ (x : Bytes). cur ++ b'\t' ∷ x)
                  (append_assoc (side_name s) (level_char typ cur s ∷ []) more)) in
      let fits' : length (line ++ more) ≤ 256 = omega (arith, ap length shape) in
      let room : length line ≤ 256 = omega (arith, length-append line more) in
      rw
        (
          span_nul-append cur t named.ends,
          flavour_of-append typ cur (0 ∷ t) (number s) named.long,
          flavour_of-char typ cur s,
          sides-number s,
          in_room-fits line _ room,
          at_prc-fields (again (cur ++ 0 ∷ t)) line p q r hp hq fits',
          shape,
        )
        refl

  -- The instrument is left as the one of the entry, whose text goes on behind it.
  one_offer :
      (s : Side) (nm : Option Bytes) (cur t p q r : Bytes)
      → IsName (current cur nm)
      → NoNul p
      → NoNul q
      → length (
          line_of typ head (current cur nm) (record { side = s; name = nm; price = p; amount = q }))
        ≤ 256
      → (t' : Bytes) × (at_ety again typ head
            (cur ++ 0 ∷ t)
            (some (side_char s ∷ name_text nm (prc ++ (p ++ (qty ++ (q ++ 0 ∷ r))))))
          ≡ emit
              (line_of typ head
                (current cur nm)
                (record { side = s; name = nm; price = p; amount = q }))
              (again (current cur nm ++ 0 ∷ t') (q ++ 0 ∷ r)))
  unfolding at_ety at_name starts_with
  one_offer s none cur t p q r named hp hq fits =
      (t, rw (known s) (with_name-fields s cur t p q r named hp hq fits))
  one_offer s (some n) cur t p q r named hp hq fits =
      let t' = codes "270=" ++ (p ++ (qty ++ (q ++ 0 ∷ r))) in
      let behind : (span_nul (n ++ 0 ∷ t')).1 ≡ 0 ∷ t' =
        ap (λ (x : Bytes × Bytes). x.1) (span_nul-append n t' named.ends) in
      (
        t',
        rw (known s) (
            ap (with_name again typ head (number s) (n ++ 0 ∷ t')) behind
            ∙ with_name-fields s n t' p q r named hp hq fits),
      )

offers_text-nul :
    (os : List Offer) (rest : Bytes) → (r : Bytes) × (offers_text os (0 ∷ rest) ≡ 0 ∷ r)
offers_text-nul [] rest = (rest, refl)
offers_text-nul (o ∷ os) rest = (_, refl)

module _ (typ : ℕ) (head : Bytes) where
  text_offer :
      (again : Bytes → Bytes → Printed) (o : Offer) (cur t u r : Bytes)
      → u ≡ 0 ∷ r
      → IsOffer typ head cur o
      → (t' : Bytes) × (at_ety again typ head (cur ++ 0 ∷ t) (
            some
              (side_char o.side ∷ name_text o.name (prc ++ (o.price ++ (qty ++ (o.amount ++ u))))))
          ≡ emit
              (line_of typ head (current cur o.name) o)
              (again (current cur o.name ++ 0 ∷ t') (o.amount ++ u)))
  text_offer again o cur t u r e h = rw e (
      one_offer again typ head o.side o.name cur t o.price o.amount r h.named h.price_ends
        h.amount_ends h.fits)

  -- From a field's value on, the entries behind it are printed in order, each with the instrument
  -- that it names, or else with the last one named.
  pub quotes-offers_text :
      (fuel : ℕ) (cur t v : Bytes) (os : List Offer) (rest : Bytes)
      → length os < fuel
      → NoNul v
      → AreOffers typ head cur os
      → xmemmem (0 ∷ rest) ety ≡ none
      → quotes fuel typ head (cur ++ 0 ∷ t) (v ++ offers_text os (0 ∷ rest))
        ≡ printed (lines_of typ head cur os)
  unfolding quotes field at_ety
  quotes-offers_text zero cur t v os rest k hv h e = absurd (omega arith)
  quotes-offers_text (suc fuel) cur t v [] rest k hv h e =
      rw (xmemmem-skip 0 (codes "269=") v (0 ∷ rest) hv e) refl
  quotes-offers_text (suc fuel) cur t v (o ∷ os) rest k hv h e =
      let (r, er) = offers_text-nul os rest in
      let (t', step) =
        text_offer (quotes fuel typ head) o cur t (offers_text os (0 ∷ rest)) r er h.0 in
      rw (field-append 0 (codes "269=") v _ hv) (
        step
        ∙ rw
            (quotes-offers_text fuel (current cur o.name) t' o.amount os rest (omega arith)
              h.0.amount_ends h.1 e)
            (emit-printed (line_of typ head (current cur o.name) o)
              (lines_of typ head (current cur o.name) os) h.0.fits))
