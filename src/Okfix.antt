-- ===== src/Okfix.antt =====
-- The FIX client of okcoin (src/okfix.c): its session with the exchange. TLS, libev and the clock
-- are the environment: what is read and what the clock says are arguments.
pub mod Requests
pub mod Sessions
use coins.Prelude.{
  ℕ, zero, suc, ◌+◌, ◌-◌, ◌||◌, Bool, true, false, Option, none, some, List, [], ◌∷◌, ◌++◌, Bytes,
  leb, ◌==◌, if◌then◌else◌, length, take, drop,
}
use coins.Libc.{codes}
use coins.Search.{xmemmem}
use coins.Snarf.Log.{Timespec, hrclock_print}
use coins.Fix.{Message, Fix, soh, fix_reset, fix_render, Parsed, fix_parse, message_of}

-- `okum_state_t`
pub data State : Type 0 where
  unk on sub off : State

-- The static variables; `mreq` and `treq` are those of `fix_subsc`.
pub record Client : Type 0 where
  pub st : State
  pub susp : ℕ
  pub instr : List Bytes
  pub fix : Fix
  pub mreq : Bytes
  pub treq : Bytes

-- What the program is built and run with: the credentials, and how a time is written.
pub record Env : Type 0 where
  pub api_key : Bytes
  pub api_sec : Bytes
  pub strftime : ℕ → Bytes

-- A field: the text with a SOH behind it.
abbrev pub field : Bytes → Bytes
field s = s ++ soh ∷ []

-- The static buffers up to the symbol, which takes the place of "BTC/USD".
abbrev pub mreq_head : Bytes
mreq_head =
    field (codes "262=mreq")
    ++ (field (codes "263=1")
        ++ (field (codes "264=0")
            ++ (field (codes "265=1")
                ++ (field (codes "267=2")
                    ++ (field (codes "269=0")
                        ++ (field (codes "269=1") ++ (field (codes "146=1") ++ codes "55=")))))))

abbrev pub treq_head : Bytes
treq_head =
    field (codes "262=treq")
    ++ (field (codes "263=1")
        ++ (field (codes "264=0")
            ++ (field (codes "265=1")
                ++ (field (codes "267=1")
                    ++ (field (codes "269=2") ++ (field (codes "146=1") ++ codes "55="))))))

-- `memcpy(buf + at, s, length s)`
abbrev pub write_at : ℕ → Bytes → Bytes → Bytes
write_at at s buf = take at buf ++ (s ++ drop (at + length s) buf)

-- One request of `fix_subsc`: the buffer with the symbol in it, and the message of `len` octets;
-- `none` where the symbol does not fit into the 256 octets.
unfoldable pub request : Bytes → Bytes → Bytes → Option (Bytes × Message)
request head sym buf =
    let len = length head + length sym + 1 in
    let buf' = write_at (length head) (sym ++ soh ∷ []) buf in
    if leb len 256 then some (buf', record { typ = b'V'; msg = take len buf' }) else none

-- A message rendered and sent; the clock says `now`.
abbrev pub send : Env → ℕ → Client → Message → Client × Bytes
send e now c m = let r = fix_render e.strftime now c.fix m in (record c { fix = r.0 }, r.1)

-- "98=0", "108=30", "141=Y" and the credentials.
unfoldable pub fix_hello : Env → ℕ → Client → Client × Bytes
unfolding fix_reset
fix_hello e now c =
    let helo =
      field (codes "98=0")
      ++ (field (codes "108=30")
          ++ (field (codes "141=Y")
              ++ (field (codes "553=" ++ e.api_key) ++ field (codes "554=" ++ e.api_sec)))) in
    send e now (record c { fix = fix_reset c.fix }) (record { typ = b'A'; msg = helo })

unfoldable pub fix_gdbye : Env → ℕ → Client → Client × Bytes
fix_gdbye e now c = send e now c (record { typ = b'5'; msg = [] })

-- The quotes of a symbol, and its trades; `none` is the write behind a buffer. `clock` says what
-- the time is at each call.
unfoldable pub on_trades :
    Env → (ℕ → ℕ) → Client × Bytes → Option (Bytes × Message) → Option (Client × List Bytes)
on_trades e clock r none = none
on_trades e clock r (some (treq, m)) =
    let s = send e (clock 1) (record r.0 { treq = treq }) m in some (s.0, r.1 ∷ s.1 ∷ [])

unfoldable pub on_quotes :
    Env → (ℕ → ℕ) → Bytes → Client → Option (Bytes × Message) → Option (Client × List Bytes)
unfolding on_trades
on_quotes e clock sym c none = none
on_quotes e clock sym c (some (mreq, m)) =
    on_trades e clock (send e (clock 0) (record c { mreq = mreq }) m) (request treq_head sym c.treq)

unfoldable pub fix_subsc : Env → (ℕ → ℕ) → Bytes → Client → Option (Client × List Bytes)
unfolding on_quotes
fix_subsc e clock sym c = on_quotes e clock sym c (request mreq_head sym c.mreq)

-- The loop over the instruments; the state is set in its body.
abbrev pub and_sent : List Bytes → Option (Client × List Bytes) → Option (Client × List Bytes)
and_sent sent none = none
and_sent sent (some (c, more)) = some (c, sent ++ more)

abbrev pub then_on :
    (Client → Option (Client × List Bytes))
    → Option (Client × List Bytes)
    → Option (Client × List Bytes)
then_on later none = none
then_on later (some (c, sent)) = and_sent sent (later (record c { st = sub }))

unfoldable pub subscribe_all : Env → (ℕ → ℕ) → List Bytes → Client → Option (Client × List Bytes)
subscribe_all e clock [] c = some (c, [])
subscribe_all e clock (sym ∷ syms) c =
    then_on (λ c'. subscribe_all e (λ n. clock (n + 1 + 1)) syms c') (fix_subsc e clock sym c)

-- The reason that the exchange gives, with the NULs around it.
abbrev pub weekend_reason : Bytes
weekend_reason = 0 ∷ (codes "58=Logon attempt not within session time" ++ 0 ∷ [])

abbrev pub is_found : Option ℕ → Bool
is_found none = false
is_found (some n) = true

-- `xmemmem` of this file points at the match and not behind it, which is not looked at here.
unfoldable pub fix_weekend_p : Bytes → Bool
fix_weekend_p msg = is_found (xmemmem msg weekend_reason)

-- What goes to the log: the octets with '|' for SOH, behind the time. `none` is the write behind
-- the buffer of 16384 octets.
unfoldable pub bars_for_soh : Bytes → Bytes
bars_for_soh [] = []
bars_for_soh (c ∷ s) = (if c == soh then b'|' else c) ∷ bars_for_soh s

unfoldable pub buf_print : Timespec → Bytes → Option Bytes
unfolding bars_for_soh
buf_print t buf =
    let line = hrclock_print t ++ b'\t' ∷ (bars_for_soh buf ++ b'\n' ∷ []) in
    if leb (length line) 16384 then some line else none

-- The switch on the type of a message: the client and what it sends, or `none` for a write behind
-- a buffer. `text` are the octets of the message.
unfoldable pub on_message : Env → (ℕ → ℕ) → ℕ → Bytes → Client → Option (Client × List Bytes)
on_message e clock typ text c =
    if typ == b'A'
    then subscribe_all e clock c.instr (record c { st = on })
    else if typ == b'5'
    then some (record c { st = off; susp = if fix_weekend_p text then 60 else 0 }, [])
    else some (c, [])

abbrev pub typ_of : Option Parsed → ℕ
typ_of none = 0
typ_of (some p) = p.typ

abbrev pub text_of : Bytes → Option Parsed → Bytes
text_of buf none = []
text_of buf (some p) = message_of buf p

-- What a callback leaves: the client, what was sent and what was logged; the same with the loop to end;
-- or a write behind a buffer. The log of a goodbye is left out, as is that of the hello.
pub data Result : Type 0 where
  kept : Client → List Bytes → List Bytes → Result
  unrolled : Client → List Bytes → List Bytes → Result
  fault : Result

-- Each message that is sent goes to the log as well, with a stamp of its own.
abbrev pub and_logged : Option Bytes → Option (List Bytes) → Option (List Bytes)
and_logged none lines = none
and_logged (some line) none = none
and_logged (some line) (some lines) = some (line ∷ lines)

unfoldable pub log_sent : (ℕ → Timespec) → List Bytes → Option (List Bytes)
unfolding buf_print
log_sent stamps [] = some []
log_sent stamps (m ∷ ms) = and_logged (buf_print (stamps 0) m) (log_sent (λ n. stamps (n + 1)) ms)

abbrev pub with_log : Client → List Bytes → Bytes → Option (List Bytes) → Result
with_log c sent line none = fault
with_log c sent line (some lines) = kept c sent (line ∷ lines)

unfoldable pub handled : (ℕ → Timespec) → Bytes → Option (Client × List Bytes) → Result
unfolding log_sent
handled stamps line none = fault
handled stamps line (some (c, sent)) = with_log c sent line (log_sent stamps sent)

abbrev pub on_printed :
    Env → (ℕ → ℕ) → (ℕ → Timespec) → Client → Bytes × Option Parsed → Option Bytes → Result
on_printed e clock stamps c r none = fault
on_printed e clock stamps c r (some line) =
    handled (λ n. stamps (n + 1)) line (on_message e clock (typ_of r.1) (text_of r.0 r.1) c)

-- `read` is what `tls_recv` gives, with what stands behind it in the buffer; `none` is an error or
-- the end of the connection.
unfoldable pub beef_cb : Env → (ℕ → ℕ) → (ℕ → Timespec) → Option (Bytes × Bytes) → Client → Result
beef_cb e clock stamps none c = unrolled (record c { st = unk }) [] []
beef_cb e clock stamps (some (read, beyond)) c =
    on_printed e clock stamps c (fix_parse read beyond) (buf_print (stamps 0) read)

unfoldable pub sigint_cb : Env → ℕ → Client → Client × Bytes
sigint_cb e now c = let r = fix_gdbye e now c in (record r.0 { st = unk }, r.1)

-- A callback that libev is to call.
pub data Event : Type 0 where
  readable : (ℕ → ℕ) → (ℕ → Timespec) → Option (Bytes × Bytes) → Event
  interrupted : ℕ → Event

unfoldable pub call_back : Env → Event → Client → Result
unfolding beef_cb sigint_cb
call_back e (readable clock stamps read) c = beef_cb e clock stamps read c
call_back e (interrupted now) c = let r = sigint_cb e now c in unrolled r.0 (r.1 ∷ []) []

-- What an iteration of the loop leaves: whether the loop is to end, the client and what was sent.
pub data Ran : Type 0 where
  ran : Bool → Client → List Bytes → Ran
  crashed : Ran

abbrev pub ran_behind : Bool → List Bytes → Ran → Ran
ran_behind over sent (ran later c more) = ran (over || later) c (sent ++ more)
ran_behind over sent crashed = crashed

abbrev pub go_on : (Client → Ran) → Result → Ran
go_on later (kept c sent logged) = ran_behind false sent (later c)
go_on later (unrolled c sent logged) = ran_behind true sent (later c)
go_on later fault = crashed

-- The callbacks that are pending in an iteration, in the order of their calls. `ev_unloop` does not
-- take back those behind the one that calls it.
unfoldable pub call_pending : Env → List Event → Client → Ran
unfolding call_back
call_pending e [] c = ran false c []
call_pending e (ev ∷ evs) c = go_on (λ c'. call_pending e evs c') (call_back e ev c)

-- How the loop goes, which ends only where a callback ends it; `waiting` is a loop without another
-- iteration.
pub data Ended : Type 0 where
  waiting ended : Client → List Bytes → Ended
  faulted : Ended

abbrev pub behind : List Bytes → Ended → Ended
behind sent (waiting c more) = waiting c (sent ++ more)
behind sent (ended c more) = ended c (sent ++ more)
behind sent faulted = faulted

abbrev pub unless_over : (Client → Ended) → Ran → Ended
unless_over later (ran true c sent) = ended c sent
unless_over later (ran false c sent) = behind sent (later c)
unless_over later crashed = faulted

-- `ev_run`, over the iterations of the loop.
unfoldable pub ev_run : Env → List (List Event) → Client → Ended
unfolding call_pending
ev_run e [] c = waiting c []
ev_run e (evs ∷ its) c = unless_over (λ c'. ev_run e its c') (call_pending e evs c)

abbrev pub is_unk : State → Bool
is_unk unk = true
is_unk _ = false

-- A round of `main` that opens a connection, says hello and runs the loop.
abbrev pub session : Env → ℕ → List (List Event) → Client → Ended
session e now its c = let r = fix_hello e now c in behind (r.1 ∷ []) (ev_run e its r.0)

-- `do … while (st)`: the iterations of the loop for each connection, or `none` where it cannot be made; how many are
-- made.
abbrev pub next_round : (Client → ℕ) → Ended → ℕ
next_round later (waiting c sent) = 1
next_round later (ended c sent) = let more = later c in if is_unk c.st then 1 else 1 + more
next_round later faulted = 1

unfoldable pub connections : Env → List (Option (ℕ × List (List Event))) → Client → ℕ
connections e [] c = 0
connections e (none ∷ rounds) c = 0
connections e (some (now, its) ∷ rounds) c =
    next_round (λ c'. connections e rounds c') (session e now its c)
