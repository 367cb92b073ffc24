-- ===== src/Okfix/Sessions.antt =====
-- The end of a connection, and the log of what is read.
use coins.Prelude.{
  ℕ, suc, ◌+◌, Bool, true, false, if◌then◌else◌, All, ◌≤◌, ◌<◌, ◌≡◌, refl, ap, Option, none, some,
  List, [], ◌∷◌, ◌++◌, Bytes, length, length-append, arith,
}
use coins.Libc.{print_ulong, print_padded}
use coins.Libc.Decimal.{length-print_padded}
use coins.Snarf.Log.{Timespec, hrclock_print}
use coins.Fix.{fix_parse, Parsed}
use coins.Okfix.{
  unk, off, Client, Env, Result, kept, unrolled, fault, Event, readable, interrupted, Ran, ran,
  crashed, ran_behind, call_back, call_pending, unless_over, Ended, waiting, ended, faulted, behind,
  go_on, ev_run, beef_cb, sigint_cb, session, connections, next_round, buf_print, fix_weekend_p,
  bars_for_soh, log_sent, with_log, handled, on_printed, on_message, typ_of, text_of, fix_hello,
}

-- A loop that has ended has left the client in the state UNK.
abbrev IsOver : Ended → Type 0
IsOver (waiting c sent) = Unit
IsOver (ended c sent) = c.st ≡ unk
IsOver faulted = Unit

abbrev IsOff : Result → Type 0
IsOff (kept c sent logged) = Unit
IsOff (unrolled c sent logged) = c.st ≡ unk
IsOff fault = Unit

-- An iteration that is to end the loop leaves the client in the state UNK.
abbrev LeavesOff : Ran → Type 0
LeavesOff (ran over c sent) = over ≡ true → c.st ≡ unk
LeavesOff crashed = Unit

abbrev IsUnk : Ran → Type 0
IsUnk (ran over c sent) = c.st ≡ unk
IsUnk crashed = Unit

-- Signals only are pending, or else a read that comes before them.
abbrev pub AreSignals : List Event → Type 0
AreSignals [] = Unit
AreSignals (readable clock t read ∷ evs) = ⊥
AreSignals (interrupted now ∷ evs) = AreSignals evs

abbrev pub IsOrdered : List Event → Type 0
IsOrdered [] = Unit
IsOrdered (readable clock t read ∷ evs) = AreSignals evs
IsOrdered (interrupted now ∷ evs) = AreSignals evs

abbrev pub IsRound : Option (ℕ × List (List Event)) → Type 0
IsRound none = Unit
IsRound (some (now, its)) = All IsOrdered its

length-bars_for_soh : (s : Bytes) → length (bars_for_soh s) ≡ length s
unfolding bars_for_soh
length-bars_for_soh [] = refl
length-bars_for_soh (c ∷ s) = ap suc (length-bars_for_soh s)

-- A stamp has at least a point and nine digits.
hrclock_print-length : (t : Timespec) → 10 ≤ length (hrclock_print t)
unfolding hrclock_print
hrclock_print-length t = omega (
  arith,
  length-append (print_ulong t.tv_sec) (b'.' ∷ print_padded 9 t.tv_nsec),
  length-print_padded 9 t.tv_nsec,
)

buf_print_overrun : (t : Timespec) (s : Bytes) → 16372 < length s → buf_print t s ≡ none
unfolding buf_print
buf_print_overrun t s h =
    let line = hrclock_print t ++ b'\t' ∷ (bars_for_soh s ++ b'\n' ∷ []) in
    let long : ¬ (length line ≤ 16384) = λ fits. omega (
      arith,
      length-append (hrclock_print t) (b'\t' ∷ (bars_for_soh s ++ b'\n' ∷ [])),
      length-append (bars_for_soh s) (b'\n' ∷ []),
      length-bars_for_soh s,
      hrclock_print-length t,
    ) in
    ground (arith, long)

behind-IsOver : (sent : List Bytes) (r : Ended) → IsOver r → IsOver (behind sent r)
behind-IsOver sent (waiting c more) h = tt
behind-IsOver sent (ended c more) h = h
behind-IsOver sent faulted h = tt

with_log-IsOff :
    (c : Client) (sent : List Bytes) (line : Bytes) (o : Option (List Bytes))
    → IsOff (with_log c sent line o)
with_log-IsOff c sent line none = tt
with_log-IsOff c sent line (some lines) = tt

handled-IsOff :
    (stamps : ℕ → Timespec) (line : Bytes) (o : Option (Client × List Bytes))
    → IsOff (handled stamps line o)
unfolding handled
handled-IsOff stamps line none = tt
handled-IsOff stamps line (some (c, sent)) = with_log-IsOff c sent line (log_sent stamps sent)

on_printed-IsOff :
    (e : Env) (clock : ℕ → ℕ) (stamps : ℕ → Timespec) (c : Client) (r : Bytes × Option Parsed)
    (o : Option Bytes)
    → IsOff (on_printed e clock stamps c r o)
on_printed-IsOff e clock stamps c r none = tt
on_printed-IsOff e clock stamps c r (some line) =
    handled-IsOff (λ n. stamps (n + 1)) line (on_message e clock (typ_of r.1) (text_of r.0 r.1) c)

beef_cb-IsOff :
    (e : Env) (clock : ℕ → ℕ) (stamps : ℕ → Timespec) (read : Option (Bytes × Bytes)) (c : Client)
    → IsOff (beef_cb e clock stamps read c)
unfolding beef_cb
beef_cb-IsOff e clock stamps none c = refl
beef_cb-IsOff e clock stamps (some (read, beyond)) c =
    on_printed-IsOff e clock stamps c (fix_parse read beyond) (buf_print (stamps 0) read)

ran_behind-IsUnk :
    (over : Bool) (sent : List Bytes) (r : Ran) → IsUnk r → IsUnk (ran_behind over sent r)
ran_behind-IsUnk over sent (ran later c more) h = h
ran_behind-IsUnk over sent crashed h = tt

IsUnk-LeavesOff : (r : Ran) → IsUnk r → LeavesOff r
IsUnk-LeavesOff (ran over c sent) h = λ o. h
IsUnk-LeavesOff crashed h = tt

ran_behind-LeavesOff :
    (sent : List Bytes) (r : Ran) → LeavesOff r → LeavesOff (ran_behind false sent r)
ran_behind-LeavesOff sent (ran later c more) h = h
ran_behind-LeavesOff sent crashed h = tt

-- Signals leave the state UNK as it is.
signals-IsUnk :
    (e : Env) (evs : List Event) (c : Client)
    → AreSignals evs
    → c.st ≡ unk
    → IsUnk (call_pending e evs c)
unfolding call_pending sigint_cb
signals-IsUnk e [] c h gone = gone
signals-IsUnk e (readable clock stamps read ∷ evs) c h gone = absurd h
signals-IsUnk e (interrupted now ∷ evs) c h gone =
    let r = sigint_cb e now c in
    ran_behind-IsUnk true (r.1 ∷ []) (call_pending e evs r.0) (signals-IsUnk e evs r.0 h refl)

signals-LeavesOff :
    (e : Env) (evs : List Event) (c : Client) → AreSignals evs → LeavesOff (call_pending e evs c)
unfolding call_pending sigint_cb
signals-LeavesOff e [] c h = λ o. absurd (ground (arith, o))
signals-LeavesOff e (readable clock stamps read ∷ evs) c h = absurd h
signals-LeavesOff e (interrupted now ∷ evs) c h =
    let r = sigint_cb e now c in
    let later = call_pending e evs r.0 in
    IsUnk-LeavesOff (ran_behind true (r.1 ∷ []) later)
      (ran_behind-IsUnk true (r.1 ∷ []) later (signals-IsUnk e evs r.0 h refl))

go_on-LeavesOff :
    (e : Env) (evs : List Event) (r : Result)
    → AreSignals evs
    → IsOff r
    → LeavesOff (go_on (λ c. call_pending e evs c) r)
go_on-LeavesOff e evs (kept c sent logged) h gone =
    ran_behind-LeavesOff sent (call_pending e evs c) (signals-LeavesOff e evs c h)
go_on-LeavesOff e evs (unrolled c sent logged) h gone =
    let later = call_pending e evs c in
    IsUnk-LeavesOff (ran_behind true sent later)
      (ran_behind-IsUnk true sent later (signals-IsUnk e evs c h gone))
go_on-LeavesOff e evs fault h gone = tt

ordered-LeavesOff :
    (e : Env) (evs : List Event) (c : Client) → IsOrdered evs → LeavesOff (call_pending e evs c)
unfolding call_pending call_back
ordered-LeavesOff e [] c h = λ o. absurd (ground (arith, o))
ordered-LeavesOff e (readable clock stamps read ∷ evs) c h =
    go_on-LeavesOff e evs (beef_cb e clock stamps read c) h (beef_cb-IsOff e clock stamps read c)
ordered-LeavesOff e (interrupted now ∷ evs) c h = signals-LeavesOff e (interrupted now ∷ evs) c h

unless_over-IsOver :
    (later : Client → Ended) (r : Ran)
    → LeavesOff r
    → ((c : Client) → IsOver (later c))
    → IsOver (unless_over later r)
unless_over-IsOver later (ran true c sent) h l = h refl
unless_over-IsOver later (ran false c sent) h l = behind-IsOver sent (later c) (l c)
unless_over-IsOver later crashed h l = tt

ev_run-IsOver :
    (e : Env) (its : List (List Event)) (c : Client) → All IsOrdered its → IsOver (ev_run e its c)
unfolding ev_run
ev_run-IsOver e [] c h = tt
ev_run-IsOver e (evs ∷ its) c h =
    unless_over-IsOver (λ c'. ev_run e its c') (call_pending e evs c)
      (ordered-LeavesOff e evs c h.0) (λ c'. ev_run-IsOver e its c' h.1)

next_round_one : (later : Client → ℕ) (r : Ended) → IsOver r → next_round later r ≡ 1
next_round_one later (waiting c sent) h = refl
next_round_one later (ended c sent) h = rw h
next_round_one later faulted h = refl

-- Where each iteration of the event loop has one read at most, which is handled before any interrupt,
-- the loop of `main` makes no second connection, whatever the exchange has sent and however the
-- first one ended.
pub connections-le-one :
    (e : Env) (rounds : List (Option (ℕ × List (List Event)))) (c : Client)
    → All IsRound rounds
    → connections e rounds c ≤ 1
unfolding connections
connections-le-one e [] c h = omega arith
connections-le-one e (none ∷ rounds) c h = omega arith
connections-le-one e (some (now, its) ∷ rounds) c h =
    let hello = fix_hello e now c in
    let over =
      behind-IsOver (hello.1 ∷ []) (ev_run e its hello.0) (ev_run-IsOver e its hello.0 h.0) in
    omega (arith, next_round_one (λ c'. connections e rounds c') (session e now its c) over)

-- A logout that is read behind an interrupt in the same iteration undoes it: the loop of `main` goes
-- on to the next connection.
pub connections-again :
    (e : Env) (now sig : ℕ) (clock : ℕ → ℕ) (stamps : ℕ → Timespec) (read beyond line : Bytes)
    (p : Parsed) (its : List (List Event)) (rounds : List (Option (ℕ × List (List Event))))
    (c : Client)
    → (fix_parse read beyond).1 ≡ some p
    → p.typ ≡ b'5'
    → buf_print (stamps 0) read ≡ some line
    → (c' : Client) × (c'.st ≡ off)
      × (connections e
            (some (now, (interrupted sig ∷ readable clock stamps (some (read, beyond)) ∷ []) ∷ its)
              ∷ rounds)
            c
          ≡ 1 + connections e rounds c')
unfolding connections ev_run call_pending call_back beef_cb handled on_message
connections-again e now sig clock stamps read beyond line p its rounds c parsed logout logged =
    let hello = fix_hello e now c in
    let bye = sigint_cb e sig hello.0 in
    let text = text_of (fix_parse read beyond).0 (some p) in
    (
      record bye.0 { st = off; susp = if fix_weekend_p text then 60 else 0 },
      refl,
      rw (parsed, logout, logged) refl,
    )

-- The buffer of `buf_print` is as long as that of the read, with no room for the stamp before a
-- full one: a read of more than 16372 octets is written behind its end.
pub beef_cb_overrun :
    (e : Env) (clock : ℕ → ℕ) (stamps : ℕ → Timespec) (read beyond : Bytes) (c : Client)
    → 16372 < length read
    → beef_cb e clock stamps (some (read, beyond)) c ≡ fault
unfolding beef_cb
beef_cb_overrun e clock stamps read beyond c h =
    ap (on_printed e clock stamps c (fix_parse read beyond)) (buf_print_overrun (stamps 0) read h)
