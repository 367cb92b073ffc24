-- ===== src/Plx/Event/Stored.antt =====
-- The tables stay well-formed, whatever is read.
use coins.Prelude.{
  ℕ, Option, none, some, Bool, true, false, not, List, [], ◌∷◌, ◌++◌, Bytes, ◌==◌, if◌then◌else◌,
  drop,
}
use coins.Libc.{peek}
use coins.Clock.{strtotv, not_a_time}
use coins.Output.{Printed}
use coins.Json.{Token, token, is_primitive, is_array}
use coins.Plx.{Plx, subscr, subscd, toktoprim, no_subscriptions}
use coins.Plx.Tables.{
  IsTables, AreTables, taken, subscr-AreTables, subscd-AreTables, no_subscriptions-IsTables,
}
use coins.Plx.Event.{stored, on_code, on_tokens, procln, convert}

stored-IsTables : (p : Plx) (o : Option Plx) → IsTables p → AreTables o → IsTables (stored p o)
stored-IsTables p none h k = h
stored-IsTables p (some p') h (taken k) = k

-- A result whose tables are well-formed.
data Stores : Plx × Printed → Type 0 where
  stores : {p : Plx} {out : Printed} → IsTables p → Stores (p, out)

Stores-IsTables : (r : Plx × Printed) → Stores r → IsTables r.0
Stores-IsTables (p, out) (stores h) = h

either-Stores : (b : Bool) (r s : Plx × Printed) → Stores r → Stores s → Stores (if b then r else s)
either-Stores true r s h k = h
either-Stores false r s h k = k

module _ (hash : Bytes → ℕ) (jsmn_parse : Bytes → Option (List Token)) where
  on_code-Stores :
      (base : Bytes) (toks stale : List Token) (x : ℕ) (p : Plx)
      → IsTables p
      → Stores (on_code hash base toks stale x p)
  unfolding on_code
  on_code-Stores base toks stale x p h =
      either-Stores (x == 32) _ _
        (stores (stored-IsTables p (subscr base toks p) h (subscr-AreTables base toks p h)))
        (either-Stores (x == 33) _ _
          (stores (stored-IsTables p (subscd base toks p) h (subscd-AreTables base toks p h)))
          (either-Stores (x == 36) _ _ (stores h) (stores h)))

  on_tokens-Stores :
      (base : Bytes) (stale : List Token) (p : Plx) (o : Option (List Token))
      → IsTables p
      → Stores (on_tokens hash base stale p o)
  unfolding on_tokens
  on_tokens-Stores base stale p none h = stores h
  on_tokens-Stores base stale p (some []) h = stores h
  on_tokens-Stores base stale p (some (t ∷ toks)) h =
      let code = token (t ∷ toks ++ stale) 1 in
      either-Stores (not (is_array t.typ)) _ _ (stores h) (
        either-Stores (not (is_primitive code.typ)) _ _ (stores h)
          (on_code-Stores base (t ∷ toks) stale (toktoprim base code) p h))

  procln-Stores :
      (stale : List Token) (line : Bytes) (p : Plx)
      → IsTables p
      → Stores (procln hash jsmn_parse stale line p)
  unfolding procln
  procln-Stores stale line p h =
      let r = strtotv line in
      let p' : Plx = record p { metr = r.0 } in
      let base = drop 1 r.1 in
      let h' : IsTables p' = record {
        channels = h.channels;
        instruments = h.instruments;
        slots = h.slots;
        inside = h.inside;
      } in
      either-Stores (r.0 == not_a_time) _ _ (stores h') (
        either-Stores (not (peek r.1 == b'\t')) _ _ (stores h') (
          either-Stores (not (peek base == b'[')) _ _ (stores h')
            (on_tokens-Stores base stale p' (jsmn_parse base) h')))

  convert_keeps :
      (lines : List (Bytes × List Token)) (p : Plx)
      → IsTables p
      → IsTables (convert hash jsmn_parse lines p)
  convert_keeps [] p h = h
  convert_keeps ((line, stale) ∷ lines) p h =
      convert_keeps lines (procln hash jsmn_parse stale line p).0
        (Stores-IsTables (procln hash jsmn_parse stale line p) (procln-Stores stale line p h))

  -- Whatever lines are read, and whatever the tokens are: no write goes out of the tables, and there
  -- are 128 channels and instruments, each of 16 octets with at most 15 in the last.
  pub convert-IsTables :
      (lines : List (Bytes × List Token))
      → IsTables (convert hash jsmn_parse lines no_subscriptions)
  convert-IsTables lines = convert_keeps lines no_subscriptions no_subscriptions-IsTables
