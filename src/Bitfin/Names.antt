-- ===== src/Bitfin/Names.antt =====
-- Subscriptions on the channels of bitfinex, and the name that the lines of a channel carry.
use coins.Prelude.{
  ℕ, ◌-◌, ◌%◌, ◌≤◌, ◌<◌, ◌≡◌, ◌≢◌, refl, ap, sym, ◌∙◌, some, false, List, [], ◌∷◌, ◌++◌,
  append_assoc, Bytes, All, All-append, length, length-append, get_or-set, get_or-set_other, drop,
  drop-length_append, get_or, set, take, leb, ◌==◌, arith,
}
use mathlib.Core.Path.{subst}
use coins.Libc.{codes, starts_with, ulong_max, print_ulong}
use coins.Libc.Chars.{memchr-append}
use coins.Libc.Decimal.{IsDigit, strtoul-print_ulong, print_ulong-IsDigit}
use coins.Json.{copied}
use coins.Slots.{name_size, name_size_le, slot_with, slot_name}
use coins.Clock.{tvtostr, not_a_time}
use coins.Clock.RoundTrip.{strtotv-tvtostr}
use coins.Search.{xmemmem}
use coins.Search.Exact.{xmemmem-append}
use coins.Output.{Printed, printed}
use coins.Bitfin.{
  Subt, subt_unk, Btf, empty_ins, ins_of, instostr, strtoins, sbok, stop, stra, pair, memorise,
  at_pair, at_channel, subscr,
}
use coins.Bitfin.Tables.{IsBtf, ins_of-IsSlot}
use coins.Bitfin.Event.{ini_of, subty_of, procln}
use coins.Bitfin.Levels.{Level, IsLevel, IsEnd, lines_of, book_line, procln-book_line}

copied-append : (s rest : Bytes) → copied (length s) (s ++ rest) ≡ s
unfolding copied
copied-append [] rest = refl
copied-append (c ∷ s) rest = ap (λ (t : Bytes). c ∷ t) (copied-append s rest)

-- A name of at most 15 octets is what is printed.
instostr-stored :
    (st : Subt) (name rest : Bytes) (ci : ℕ) (b : Btf)
    → IsBtf b
    → ci < 256
    → length name ≤ 15
    → instostr
        (record (strtoins (name ++ rest) (length name) ci b) { subtys = set b.subtys ci st })
        ci
      ≡ name
unfolding instostr strtoins
instostr-stored st name rest ci b h small short =
    let size : name_size (length name) ≡ length name = ground arith in
    let slot = slot_with (name ++ rest) (name_size (length name)) (ins_of b ci) in
    ap (λ (s : Bytes). take (15 - get_or s 15 0) s)
      (get_or-set b.subins ci slot empty_ins (omega (arith, h.names)))
    ∙ slot_name (name ++ rest) (name_size (length name)) (ins_of b ci) (name_size_le (length name))
        (ins_of-IsSlot b ci h).0
    ∙ rw size (copied-append name rest)

instostr-stored_other :
    (st : Subt) (ins : Bytes) (len ci cj : ℕ) (b : Btf)
    → ci ≢ cj
    → instostr (record (strtoins ins len ci b) { subtys = set b.subtys ci st }) cj ≡ instostr b cj
unfolding instostr strtoins
instostr-stored_other st ins len ci cj b apart =
    ap (λ (s : Bytes). take (15 - get_or s 15 0) s)
      (get_or-set_other b.subins ci cj (slot_with ins (name_size len) (ins_of b ci)) empty_ins
        apart)

-- What the exchange sends of a subscription, from behind the brace on.
abbrev pub head_of : Subt → Bytes
head_of Subt.subt_bok = sbok
head_of Subt.subt_top = stop
head_of Subt.subt_tra = stra
head_of Subt.subt_unk = []

abbrev pub channel_text : ℕ → Bytes → Bytes → Bytes
channel_text x name rest = print_ulong x ++ b',' ∷ (pair ++ b'"' ∷ (name ++ b'"' ∷ rest))

abbrev NoQuote : ℕ → Type 0
NoQuote c = c ≢ b'"'

IsDigit-NoQuote : (s : Bytes) → All IsDigit s → All NoQuote s
IsDigit-NoQuote [] h = tt
IsDigit-NoQuote (c ∷ s) h = (λ e. ground (arith, h.0), IsDigit-NoQuote s h.1)

xmemmem-channel_text :
    (x : ℕ) (name rest : Bytes)
    → xmemmem (channel_text x name rest) pair ≡ some (length (print_ulong x ++ b',' ∷ pair))
xmemmem-channel_text x name rest =
    let before = print_ulong x ++ b',' ∷ [] in
    let clear : All NoQuote before =
      All-append NoQuote (print_ulong x) (b',' ∷ [])
        (IsDigit-NoQuote (print_ulong x) (print_ulong-IsDigit x))
        ((λ e. absurd (omega arith)), tt) in
    let shape : channel_text x name rest ≡ before ++ (pair ++ b'"' ∷ (name ++ b'"' ∷ rest)) =
      sym (append_assoc (print_ulong x) (b',' ∷ []) (pair ++ b'"' ∷ (name ++ b'"' ∷ rest))) in
    rw shape (
      xmemmem-append b'"' (codes "pair\":") before (b'"' ∷ (name ++ b'"' ∷ rest)) clear
      ∙ ap some (
          omega (
            arith,
            length-append (print_ulong x) (b',' ∷ []),
            length-append (print_ulong x) (b',' ∷ pair),
          )))

drop-channel_text :
    (x : ℕ) (name rest : Bytes)
    → drop (length (print_ulong x ++ b',' ∷ pair)) (channel_text x name rest)
      ≡ b'"' ∷ (name ++ b'"' ∷ rest)
drop-channel_text x name rest =
    let shape : channel_text x name rest
        ≡ (print_ulong x ++ b',' ∷ pair) ++ b'"' ∷ (name ++ b'"' ∷ rest) =
      sym (append_assoc (print_ulong x) (b',' ∷ pair) (b'"' ∷ (name ++ b'"' ∷ rest))) in
    rw shape (drop-length_append (print_ulong x ++ b',' ∷ pair) (b'"' ∷ (name ++ b'"' ∷ rest)))

-- The tables with one more subscription.
abbrev pub with_channel : Subt → ℕ → Bytes → Bytes → Btf → Btf
with_channel st ci name rest b = record (strtoins (name ++ rest) (length name) ci b) {
  subtys = set b.subtys ci st;
}

at_channel-text :
    (st : Subt) (x : ℕ) (name rest : Bytes) (b : Btf)
    → x ≤ ulong_max
    → All NoQuote name
    → at_channel st (channel_text x name rest) b
      ≡ some (with_channel st (x % 256) name (b'"' ∷ rest) b)
unfolding at_channel at_pair memorise strtoins
at_channel-text st x name rest b hx h =
    rw
      (
        xmemmem-channel_text x name rest,
        strtoul-print_ulong x (b',' ∷ (pair ++ b'"' ∷ (name ++ b'"' ∷ rest))) hx refl,
        drop-channel_text x name rest,
        memchr-append b'"' name rest h,
      )
      refl

long_enough : (x : ℕ) (name rest : Bytes) → 3 ≤ length (channel_text x name rest)
long_enough x name rest =
    omega (arith, length-append (print_ulong x) (b',' ∷ (pair ++ b'"' ∷ (name ++ b'"' ∷ rest))))

subscr-head :
    (st : Subt) (x : ℕ) (name rest : Bytes) (b : Btf)
    → st ≢ Subt.subt_unk
    → subscr (head_of st ++ channel_text x name rest) b ≡ at_channel st (channel_text x name rest) b
unfolding subscr starts_with
subscr-head Subt.subt_bok x name rest b h =
    let e : leb (length (sbok ++ channel_text x name rest)) (length stra) ≡ false =
      ground (arith, long_enough x name rest) in
    rw e refl
subscr-head Subt.subt_top x name rest b h =
    let e : leb (length (stop ++ channel_text x name rest)) (length stra) ≡ false =
      ground (arith, long_enough x name rest) in
    rw e refl
subscr-head Subt.subt_tra x name rest b h =
    let e : leb (length (stra ++ channel_text x name rest)) (length stra) ≡ false =
      ground (arith, long_enough x name rest) in
    rw e refl
subscr-head Subt.subt_unk x name rest b h = absurd (h refl)

-- A line of the log with a confirmed subscription.
abbrev pub subscription_line : ℕ → Subt → ℕ → Bytes → Bytes → Bytes
subscription_line t st x name rest =
    tvtostr t ++ b'\t' ∷ b'{' ∷ (head_of st ++ channel_text x name rest)

procln-subscription :
    (b : Btf) (t : ℕ) (st : Subt) (x : ℕ) (name rest : Bytes)
    → t < not_a_time
    → st ≢ Subt.subt_unk
    → x ≤ ulong_max
    → All NoQuote name
    → procln (subscription_line t st x name rest) b
      ≡ (with_channel st (x % 256) name (b'"' ∷ rest) (record b { metr = t }), printed [])
unfolding procln
procln-subscription b t st x name rest ht known hx h =
    let timely : (t == not_a_time) ≡ false = ground arith in
    rw
      (
        strtotv-tvtostr t (b'\t' ∷ b'{' ∷ (head_of st ++ channel_text x name rest)) (omega arith)
            refl,
        timely,
        subscr-head st x name rest (record b { metr = t }) known,
        at_channel-text st x name rest (record b { metr = t }) hx h,
      )
      refl

abbrev IsBookKind : Subt → Type 0
IsBookKind Subt.subt_bok = Unit
IsBookKind _ = ⊥

known : Subt.subt_bok ≢ Subt.subt_unk
known u = subst IsBookKind u tt

-- After the confirmation of a subscription to a book, the levels that come on its channel go out in
-- order, each with the stamp of its own line and with the name of the instrument, of at most 15
-- octets; on other channels names and kinds stay.
pub procln-subscription_book :
    (b : Btf) (t t' x cj : ℕ) (name more : Bytes) (l : Level) (ls : List Level) (rest : Bytes)
    → IsBtf b
    → t < not_a_time
    → t' < not_a_time
    → x ≤ ulong_max
    → All NoQuote name
    → length name ≤ 15
    → All (IsLevel (tvtostr t' ++ b'\t' ∷ (name ++ b'\t' ∷ []))) (l ∷ ls)
    → IsEnd rest
    → x % 256 ≢ cj
    → let b' = (procln (subscription_line t Subt.subt_bok x name more) b).0 in
      ((procln (book_line t' x l ls rest) b').1
        ≡ printed (lines_of (tvtostr t' ++ b'\t' ∷ (name ++ b'\t' ∷ [])) (l ∷ ls)))
      × (instostr b' cj ≡ instostr b cj)
      × (subty_of b' cj ≡ subty_of b cj)
unfolding strtoins instostr ini_of
procln-subscription_book b t t' x cj name more l ls rest hb ht ht' hx hn short h e apart =
    let small : x % 256 < 256 = omega arith in
    let b₁ : Btf = record b { metr = t } in
    let h₁ : IsBtf b₁ = record {
      names = hb.names;
      kinds = hb.kinds;
      slots = hb.slots;
      inside = hb.inside;
    } in
    let b₂ = with_channel Subt.subt_bok (x % 256) name (b'"' ∷ more) b₁ in
    let b₃ : Btf = record b { metr = t' } in
    let h₃ : IsBtf b₃ = record {
      names = hb.names;
      kinds = hb.kinds;
      slots = hb.slots;
      inside = hb.inside;
    } in
    let ini : ini_of (record b₂ { metr = t' }) (x % 256)
        ≡ tvtostr t' ++ b'\t' ∷ (name ++ b'\t' ∷ []) =
      ap (λ (s : Bytes). tvtostr t' ++ b'\t' ∷ (s ++ b'\t' ∷ []))
        (instostr-stored Subt.subt_bok name (b'"' ∷ more) (x % 256) b₃ h₃ small short) in
    let kind : subty_of b₂ (x % 256) ≡ Subt.subt_bok =
      get_or-set b.subtys (x % 256) Subt.subt_bok subt_unk (omega (arith, hb.kinds)) in
    let h' : All (IsLevel (ini_of (record b₂ { metr = t' }) (x % 256))) (l ∷ ls) =
      subst (λ (s : Bytes). All (IsLevel s) (l ∷ ls)) (sym ini) h in
    rw (procln-subscription b t Subt.subt_bok x name more ht known hx hn) (
      ap (λ (r : Btf × Printed). r.1) (procln-book_line b₂ t' x l ls rest ht' hx kind h' e)
          ∙ ap (λ (s : Bytes). printed (lines_of s (l ∷ ls))) ini,
      instostr-stored_other Subt.subt_bok (name ++ b'"' ∷ more) (length name) (x % 256) cj b₁ apart,
      get_or-set_other b.subtys (x % 256) cj Subt.subt_bok subt_unk apart,
    )
