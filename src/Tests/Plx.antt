-- ===== src/Tests/Plx.antt =====
-- A line of the log with one change of the book, and the tables.
use coins.Prelude.{
  ◌≤◌, get_or, ℕ, ◌≡◌, refl, Option, some, List, [], ◌∷◌, ◌++◌, Bytes, length, arith, set,
}
use coins.Libc.{codes}
use coins.Output.{printed, Prints}
use coins.Json.{Kind, Token, copied}
use coins.Plx.{Plx, no_subscriptions, instostr, strtoins, subscd, toktoprim, find_sub}
use coins.Slots.{name_size}
use coins.Plx.Tables.{IsTables, no_subscriptions-IsTables, strtoins-IsTables, instostr-strtoins}
use coins.Plx.Found.{subscd-find_sub}
use coins.Plx.Event.{events, convert}
use coins.Plx.Event.Lines.{IsOutput, events-Prints}
use coins.Plx.Event.Stored.{convert-IsTables}

abbrev tok : Kind → ℕ → ℕ → Token
tok k start last = record { typ = k; start = start; end' = last; size = 0 }

abbrev base : Bytes
base =
    codes
      "[36,7,9,{},[{\"type\":\"orderBookModify\",\"data\":{\"type\":\"bid\",\"rate\":\"1.5\",\"amount\":\"2\"}}],{}]\n"

-- What jsmn makes of it, and one token that an earlier line has left.
abbrev tokens : List Token
tokens =
    tok Kind.array 0 91
    ∷ tok Kind.primitive 1 3
    ∷ tok Kind.primitive 4 5
    ∷ tok Kind.primitive 6 7
    ∷ tok Kind.object 8 10
    ∷ tok Kind.array 11 87
    ∷ tok Kind.object 12 86
    ∷ tok Kind.string 14 18
    ∷ tok Kind.string 21 36
    ∷ tok Kind.string 39 43
    ∷ tok Kind.object 45 85
    ∷ tok Kind.string 47 51
    ∷ tok Kind.string 54 57
    ∷ tok Kind.string 60 64
    ∷ tok Kind.string 67 70
    ∷ tok Kind.string 73 79
    ∷ tok Kind.string 82 83
    ∷ tok Kind.object 88 90
    ∷ []

abbrev stale : List Token
stale = tok Kind.array 200 220 ∷ []

abbrev digits : Bytes → ℕ
digits s = length s

abbrev subscribed : Plx
subscribed =
    let p = strtoins (codes "BTC_ETH") 7 0 no_subscriptions in
    record p { subids = set p.subids 0 7; metr = 1000000002 }

one_change :
    events digits base (tokens ++ stale) 18 subscribed
    ≡ printed (codes "1.000000002\tBTC_ETH\tbid2\t1.5\t2\n" ∷ [])
unfolding events no_subscriptions strtoins
one_change = refl

instostr-strtoins_example :
    (instostr (strtoins (codes "BTC_ETH") 7 3 no_subscriptions) 3
      ≡ copied (name_size 7) (codes "BTC_ETH"))
    × (instostr (strtoins (codes "BTC_ETH") 7 3 no_subscriptions) 4 ≡ instostr no_subscriptions 4)
instostr-strtoins_example =
    instostr-strtoins (codes "BTC_ETH") 7 3 4 no_subscriptions no_subscriptions-IsTables
      (omega arith) (omega arith)

events-Prints_example :
    Prints (IsOutput subscribed) (events digits base (tokens ++ stale) 18 subscribed)
events-Prints_example = events-Prints digits base (tokens ++ stale) 18 subscribed

abbrev parsed : Bytes → Option (List Token)
parsed s = some tokens

abbrev log : List (Bytes × List Token)
log = (codes "1.000000002\t" ++ base, stale) ∷ []

convert-IsTables_example : IsTables (convert digits parsed log no_subscriptions)
convert-IsTables_example = convert-IsTables digits parsed log

abbrev confirmation : Bytes
confirmation = codes "[33,5,7]\n"

abbrev confirmed : List Token
confirmed =
    tok Kind.array 0 8
    ∷ tok Kind.primitive 1 3
    ∷ tok Kind.primitive 4 5
    ∷ tok Kind.primitive 6 7
    ∷ []

abbrev asked : Plx
asked = strtoins (codes "BTC_ETH") 7 5 no_subscriptions

abbrev answered : Plx
answered = record asked { subids = set asked.subids 5 7 }

confirms : subscd confirmation confirmed asked ≡ some answered
unfolding subscd no_subscriptions strtoins
confirms = refl

seven : toktoprim confirmation (tok Kind.primitive 6 7) ≡ 7
unfolding toktoprim
seven = refl

subscd-find_sub_example :
    (ix : ℕ) × (find_sub (toktoprim confirmation (tok Kind.primitive 6 7)) answered.subids 0
      ≡ some ix)
    × (ix ≤ toktoprim confirmation (tok Kind.primitive 4 5))
    × (get_or answered.subids ix 0 ≡ toktoprim confirmation (tok Kind.primitive 6 7))
    × (answered.subins ≡ asked.subins)
subscd-find_sub_example =
    subscd-find_sub confirmation confirmed asked answered
      (strtoins-IsTables (codes "BTC_ETH") 7 5 no_subscriptions (omega arith)
        no_subscriptions-IsTables)
      confirms
