-- ===== src/Btsp/Book.antt =====
-- The lines of a book of bitstamp, and of a change to one.
use coins.Prelude.{ℕ, suc, ◌≡◌, refl, List, [], ◌∷◌, ◌++◌, Bytes, All, length}
use coins.Clock.{tvtostr}
use coins.Output.{Printed, printed, both}
use coins.Json.{Token}
use coins.Json.Levels.{Level, IsLevel, lines_of, Side, one_side-Side}
use coins.Btsp.{
  ins_text, Chan, Beef, filled, Sides, found, flavour, ini_of, find_sides, print_sides, if_book,
  on_beef,
}

-- The first line of a side of a whole book tells the best price, as another flavour of level.
abbrev pub first_flavour : Chan → ℕ
first_flavour Chan.chan_book = b'1'
first_flavour _ = b'2'

flavours : (c : Chan) → flavour c ≡ first_flavour c
flavours Chan.chan_unk = refl
flavours Chan.chan_tras = refl
flavours Chan.chan_book = refl
flavours Chan.chan_diff = refl
flavours Chan.chan_ords = refl

-- The stamp of the line and the instrument.
abbrev pub start_of : ℕ → Beef → Bytes
start_of rt f = tvtostr rt ++ b'\t' ∷ (ins_text f.ins ++ b'\t' ∷ [])

-- The starts of the first line of a side, and of the others.
abbrev pub first_start : ℕ → Beef → ℕ → Bytes
first_start rt f side = start_of rt f ++ side ∷ first_flavour f.ch ∷ b'\t' ∷ []

abbrev pub later_start : ℕ → Beef → ℕ → Bytes
later_start rt f side = start_of rt f ++ side ∷ b'2' ∷ b'\t' ∷ []

-- What both sides print, in order.
abbrev pub book_lines : ℕ → Bytes → Beef → List Level → List Level → List Bytes
book_lines rt base f bs sa =
    lines_of base (first_start rt f b'B') (later_start rt f b'B') bs
    ++ lines_of base (first_start rt f b'A') (later_start rt f b'A') sa

print_sides-found :
    (rt : ℕ) (base : Bytes) (arr : List Token) (f : Beef) (s : Sides) (bs sa : List Level)
    → Side s.eob arr s.bid bs
    → Side s.eoa arr s.ask sa
    → All (IsLevel base (first_start rt f b'B') (later_start rt f b'B') s.eob) bs
    → All (IsLevel base (first_start rt f b'A') (later_start rt f b'A') s.eoa) sa
    → print_sides rt base arr f (found s) ≡ printed (book_lines rt base f bs sa)
unfolding print_sides both ini_of
print_sides-found rt base arr f s bs sa sb ss hb ha =
    rw
      (
        flavours f.ch,
        one_side-Side base (first_start rt f b'B') (later_start rt f b'B') s.eob arr s.bid bs sb hb,
        one_side-Side base (first_start rt f b'A') (later_start rt f b'A') s.eoa arr s.ask sa ss ha,
      )
      refl

-- A channel that carries a book or changes to one.
pub data IsBookish : Chan → Type 0 where
  whole : IsBookish Chan.chan_book
  change : IsBookish Chan.chan_diff

-- Where the arrays of both sides are found, the bids go out in order, then the asks in order,
-- behind the stamp of the line and the instrument. Of a whole book the first line of each side has
-- the flavour 1 and the others have 2; of a change all have 2. The lines fit the buffer.
pub on_beef-book :
    (hash : Bytes → ℕ) (rt : ℕ) (base : Bytes) (arr : List Token) (f : Beef) (s : Sides)
    (bs sa : List Level)
    → IsBookish f.ch
    → find_sides
        (suc (length arr))
        hash
        base
        arr
        f.dend
        f.dbeg
        (record { bid = 0; eob = 0; ask = 0; eoa = 0 })
      ≡ found s
    → Side s.eob arr s.bid bs
    → Side s.eoa arr s.ask sa
    → All (IsLevel base (first_start rt f b'B') (later_start rt f b'B') s.eob) bs
    → All (IsLevel base (first_start rt f b'A') (later_start rt f b'A') s.eoa) sa
    → on_beef hash rt base arr (filled f) ≡ printed (book_lines rt base f bs sa)
unfolding on_beef
on_beef-book hash rt base arr f s bs sa h e sb ss hb ha =
    rw e (chosen f.ch h _ _ (print_sides-found rt base arr f s bs sa sb ss hb ha))
  where
    chosen : (c : Chan) → IsBookish c → (r q : Printed) → r ≡ q → if_book c r ≡ q
    chosen Chan.chan_book whole r q e' = e'
    chosen Chan.chan_diff change r q e' = e'
    chosen Chan.chan_unk h' r q e' = elim h' [ ]
    chosen Chan.chan_tras h' r q e' = elim h' [ ]
    chosen Chan.chan_ords h' r q e' = elim h' [ ]
