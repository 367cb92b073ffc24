-- ===== src/Bitfin/Trades.antt =====
-- The best prices and the trades of a channel of bitfinex.
use coins.Prelude.{
  ℕ, ◌-◌, ◌≤◌, ◌≡◌, ◌≢◌, refl, ◌∙◌, Option, none, some, Bool, true, false, [], ◌∷◌, ◌++◌, Bytes,
  All, All-append, length, length-append, take, take-length_append, ◌==◌, if◌then◌else◌, arith,
}
use coins.Libc.{codes, peek, starts_with}
use coins.Libc.Chars.{memchr-append}
use coins.Output.{printed, emit-printed}
use coins.Bitfin.{Btf}
use coins.Bitfin.Event.{
  ini_of, to_comma, top_line, print_top, evttop, last_comma, trade_line, print_trade, evttra,
}
use coins.Bitfin.Levels.{signed, unsigned_text}

abbrev NoComma : Bytes → Type 0
NoComma s = All (λ (c : ℕ). c ≢ b',') s

-- Four fields and more: the best bid with its size, the best ask with its size, a line for each.
pub evttop-fields :
    (b : Btf) (ci : ℕ) (bid bsz ask asz rest : Bytes)
    → NoComma bid
    → NoComma bsz
    → NoComma ask
    → NoComma asz
    → length (top_line (ini_of b ci) b'B' bid bsz) ≤ 256
    → length (top_line (ini_of b ci) b'A' ask asz) ≤ 256
    → evttop (bid ++ b',' ∷ (bsz ++ b',' ∷ (ask ++ b',' ∷ (asz ++ b',' ∷ rest)))) ci b
      ≡ printed (top_line (ini_of b ci) b'B' bid bsz ∷ top_line (ini_of b ci) b'A' ask asz ∷ [])
unfolding evttop to_comma print_top
evttop-fields b ci bid bsz ask asz rest h₁ h₂ h₃ h₄ fits fits' =
    rw
      (
        memchr-append b',' bid (bsz ++ b',' ∷ (ask ++ b',' ∷ (asz ++ b',' ∷ rest))) h₁,
        memchr-append b',' bsz (ask ++ b',' ∷ (asz ++ b',' ∷ rest)) h₂,
        memchr-append b',' ask (asz ++ b',' ∷ rest) h₃,
        memchr-append b',' asz rest h₄,
        emit-printed (top_line (ini_of b ci) b'A' ask asz) [] fits',
      )
      (emit-printed (top_line (ini_of b ci) b'B' bid bsz) (top_line (ini_of b ci) b'A' ask asz ∷ [])
        fits)

last_comma-none : (pr : Option Bytes) (on s : Bytes) → NoComma s → last_comma pr on s ≡ (pr, on)
unfolding last_comma
last_comma-none pr on [] h = refl
last_comma-none pr on (c ∷ s) h =
    let e : (c == b',') ≡ false = ground arith in rw (last_comma, e) (last_comma-none pr on s h.1)

last_comma-field :
    (pr : Option Bytes) (on s t : Bytes)
    → NoComma s
    → last_comma pr on (s ++ b',' ∷ t) ≡ last_comma (some on) t t
unfolding last_comma
last_comma-field pr on [] t h = refl
last_comma-field pr on (c ∷ s) t h =
    let e : (c == b',') ≡ false = ground arith in
    rw (last_comma, e) (last_comma-field pr on s t h.1)

-- Whatever stands before them, the last two fields are found.
last_comma-last :
    (pr : Option Bytes) (on s p t : Bytes)
    → NoComma p
    → NoComma t
    → last_comma pr on (s ++ b',' ∷ (p ++ b',' ∷ t)) ≡ (some (p ++ b',' ∷ t), t)
unfolding last_comma
last_comma-last pr on [] p t h k =
    last_comma-field pr on [] (p ++ b',' ∷ t) tt
    ∙ last_comma-field (some on) (p ++ b',' ∷ t) p t h
    ∙ last_comma-none (some (p ++ b',' ∷ t)) t t k
last_comma-last pr on (c ∷ s) p t h k =
    last_comma-last (if c == b',' then some on else pr)
      (if c == b',' then s ++ b',' ∷ (p ++ b',' ∷ t) else on) s p t h k

NoComma-signed :
    (ask : Bool) (s rest : Bytes)
    → NoComma s
    → NoComma rest
    → NoComma (signed ask (s ++ b']' ∷ rest))
NoComma-signed true s rest h k =
    (λ e. absurd (omega arith), All-append _ s (b']' ∷ rest) h (λ e. absurd (omega arith), k))
NoComma-signed false s rest h k = All-append _ s (b']' ∷ rest) h (λ e. absurd (omega arith), k)

price_field : (p t : Bytes) → take (length (p ++ b',' ∷ t) - length t - 1) (p ++ b',' ∷ t) ≡ p
price_field p t =
    let e : length (p ++ b',' ∷ t) - length t - 1 ≡ length p =
      omega (arith, length-append p (b',' ∷ t)) in
    rw e (take-length_append p (b',' ∷ t))

-- A message of trades, up to what follows the quantity.
abbrev pub trade_text : Bytes → Bytes → Bool → Bytes → Bytes → Bytes
trade_text fields p sell q rest =
    codes "\"te\"," ++ (fields ++ b',' ∷ (p ++ b',' ∷ signed sell (q ++ b']' ∷ rest)))

abbrev pub sale_line : Bytes → Bytes → Bool → Bytes → Bytes
sale_line ini p sell q =
    ini ++ (if sell then b'S' else b'T') ∷ b'0' ∷ b'\t' ∷ (p ++ b'\t' ∷ (q ++ b'\n' ∷ []))

-- Of an executed trade, whatever fields it starts with, the line has the last two: the price, and
-- the quantity without its sign, which is told by the letter.
pub evttra-trade_text :
    (b : Btf) (ci : ℕ) (fields p q rest : Bytes) (sell : Bool)
    → NoComma p
    → NoComma q
    → NoComma rest
    → All (λ (c : ℕ). c ≢ b']') q
    → peek q ≢ b'-'
    → length (sale_line (ini_of b ci) p sell q) ≤ 256
    → evttra (trade_text fields p sell q rest) ci b
      ≡ printed (sale_line (ini_of b ci) p sell q ∷ [])
unfolding evttra print_trade trade_line starts_with
evttra-trade_text b ci fields p q rest true h₁ h₂ h₃ h₄ u fits =
    rw
      (
        last_comma-last none (trade_text fields p true q rest) (codes "\"te\"," ++ fields) p
            (b'-' ∷ (q ++ b']' ∷ rest)) h₁ (NoComma-signed true q rest h₂ h₃),
        memchr-append b']' (b'-' ∷ q) rest ((λ e. absurd (omega arith)), h₄),
        price_field p (b'-' ∷ (q ++ b']' ∷ rest)),
      )
      (emit-printed (sale_line (ini_of b ci) p true q) [] fits)
evttra-trade_text b ci fields p q rest false h₁ h₂ h₃ h₄ u fits =
    let e : (peek (q ++ b']' ∷ rest) == b'-') ≡ false =
      let v = unsigned_text q rest u in ground arith in
    rw
      (
        last_comma-last none (trade_text fields p false q rest) (codes "\"te\"," ++ fields) p
            (q ++ b']' ∷ rest) h₁ (NoComma-signed false q rest h₂ h₃),
        memchr-append b']' q rest h₄,
        price_field p (q ++ b']' ∷ rest),
        e,
      )
      (emit-printed (sale_line (ini_of b ci) p false q) [] fits)
