-- ===== src/Btcc/Offers.antt =====
-- The entries of a message of btcc as a list, and the lines for them.
use coins.Prelude.{
  ℕ, ◌≤◌, ◌≡◌, refl, ap, Option, none, some, List, [], ◌∷◌, ◌++◌, append_assoc, Bool, true, false,
  ◌||◌, Bytes, length, length-append, drop, leb, ◌==◌, bit_xor, if◌then◌else◌, arith,
}
use coins.Libc.{codes, peek, starts_with}
use coins.Output.{Printed, in_room-fits, emit}
use coins.Quotes.{ins, ety, prc, qty}
use coins.Quotes.Entries.{NoNul, span_nul-append}
use coins.Btcc.{sides, flavour_of, at_qty, at_px, at_prc}

pub data Side : Type 0 where
  bid ask trade : Side

-- An entry, with an instrument of its own or that of the entry before it.
pub record Offer : Type 0 where
  pub side : Side
  pub name : Option Bytes
  pub price : Bytes
  pub amount : Bytes

abbrev pub side_char : Side → ℕ
side_char Side.bid = b'0'
side_char Side.ask = b'1'
side_char Side.trade = b'2'

abbrev pub side_name : Side → Bytes
side_name Side.bid = codes "BID"
side_name Side.ask = codes "ASK"
side_name Side.trade = codes "TRA"

abbrev pub name_text : Option Bytes → Bytes → Bytes
name_text none s = s
name_text (some n) s = ins ++ (n ++ s)

-- The text of an entry, and what follows its last field.
abbrev pub offer_text : Offer → Bytes → Bytes
offer_text o rest =
    ety ++ side_char o.side ∷ name_text o.name (prc ++ (o.price ++ (qty ++ (o.amount ++ rest))))

abbrev pub offers_text : List Offer → Bytes → Bytes
offers_text [] rest = rest
offers_text (o ∷ os) rest = offer_text o (offers_text os rest)

abbrev pub current : Bytes → Option Bytes → Bytes
current cur none = cur
current cur (some n) = n

-- Trades have flavour 0, and levels 1 but for two kinds of instruments: 2 in a whole book, 3 in a
-- change of one.
abbrev pub level_char : ℕ → Bytes → Side → ℕ
level_char typ cur Side.trade = b'0'
level_char typ cur _ =
    if peek cur == b'X' || peek (drop 3 cur) == b'U'
    then (if typ == b'X' then b'3' else b'2')
    else b'1'

abbrev pub line_of : ℕ → Bytes → Bytes → Offer → Bytes
line_of typ head cur o =
    head
    ++ (cur
        ++ b'\t'
          ∷ (side_name o.side
              ++ level_char typ cur o.side ∷ b'\t' ∷ (o.price ++ b'\t' ∷ (o.amount ++ b'\n' ∷ []))))

abbrev pub lines_of : ℕ → Bytes → Bytes → List Offer → List Bytes
lines_of typ head cur [] = []
lines_of typ head cur (o ∷ os) =
    line_of typ head (current cur o.name) o ∷ lines_of typ head (current cur o.name) os

-- A name of an instrument has four octets at least.
pub record IsName (n : Bytes) : Type 0 where
  pub ends : NoNul n
  pub long : 4 ≤ length n

pub record IsOffer (typ : ℕ) (head cur : Bytes) (o : Offer) : Type 0 where
  pub named : IsName (current cur o.name)
  pub price_ends : NoNul o.price
  pub amount_ends : NoNul o.amount
  pub fits : length (line_of typ head (current cur o.name) o) ≤ 256

abbrev pub AreOffers : ℕ → Bytes → Bytes → List Offer → Type 0
AreOffers typ head cur [] = Unit
AreOffers typ head cur (o ∷ os) =
    IsOffer typ head cur o × AreOffers typ head (current cur o.name) os

abbrev pub number : Side → ℕ
number s = bit_xor (side_char s) b'0'

deep_char :
    (c d : Bool)
    → bit_xor (if c then (if d then 3 else 2) else 1) b'0'
      ≡ (if c then (if d then b'3' else b'2') else b'1')
deep_char true true = refl
deep_char true false = refl
deep_char false d = refl

pub flavour_of-char :
    (typ : ℕ) (cur : Bytes) (s : Side)
    → bit_xor (flavour_of typ cur (number s)) b'0' ≡ level_char typ cur s
unfolding flavour_of
flavour_of-char typ cur Side.bid =
    deep_char (peek cur == b'X' || peek (drop 3 cur) == b'U') (typ == b'X')
flavour_of-char typ cur Side.ask =
    deep_char (peek cur == b'X' || peek (drop 3 cur) == b'U') (typ == b'X')
flavour_of-char typ cur Side.trade = refl

pub flavour_of-append :
    (typ : ℕ) (cur t : Bytes) (sd : ℕ)
    → 4 ≤ length cur
    → flavour_of typ (cur ++ t) sd ≡ flavour_of typ cur sd
unfolding flavour_of
flavour_of-append typ (a ∷ b ∷ c ∷ d ∷ cur) t sd h = refl
flavour_of-append typ [] t sd h = absurd (omega arith)
flavour_of-append typ (a ∷ []) t sd h = absurd (omega arith)
flavour_of-append typ (a ∷ b ∷ []) t sd h = absurd (omega arith)
flavour_of-append typ (a ∷ b ∷ c ∷ []) t sd h = absurd (omega arith)

pub sides-number : (s : Side) → sides (number s) ≡ side_name s
sides-number Side.bid = refl
sides-number Side.ask = refl
sides-number Side.trade = refl

pub known : (s : Side) → leb 3 (number s) ≡ false
known Side.bid = refl
known Side.ask = refl
known Side.trade = refl

-- The price and the quantity complete the line that was begun.
pub at_prc-fields :
    (again : Bytes → Printed) (line p q r : Bytes)
    → NoNul p
    → NoNul q
    → length (line ++ b'\t' ∷ (p ++ b'\t' ∷ (q ++ b'\n' ∷ []))) ≤ 256
    → at_prc again line (prc ++ (p ++ (qty ++ (q ++ 0 ∷ r))))
      ≡ emit (line ++ b'\t' ∷ (p ++ b'\t' ∷ (q ++ b'\n' ∷ []))) (again (q ++ 0 ∷ r))
unfolding at_prc at_px at_qty starts_with
at_prc-fields again line p q r hp hq fits =
    let shape : (line ++ b'\t' ∷ p) ++ b'\t' ∷ (q ++ b'\n' ∷ [])
        ≡ line ++ b'\t' ∷ (p ++ b'\t' ∷ (q ++ b'\n' ∷ [])) =
      append_assoc line (b'\t' ∷ p) (b'\t' ∷ (q ++ b'\n' ∷ [])) in
    let room : length (line ++ b'\t' ∷ p) ≤ 256 =
      omega
        (arith, length-append (line ++ b'\t' ∷ p) (b'\t' ∷ (q ++ b'\n' ∷ [])), ap length shape) in
    rw
      (
        span_nul-append p (codes "271=" ++ (q ++ 0 ∷ r)) hp,
        in_room-fits (line ++ b'\t' ∷ p) _ room,
        span_nul-append q r hq,
        shape,
      )
      refl
