-- ===== src/Snarf/Receive.antt =====
-- `ws_cb`, `sio3_cb` and `rest_cb` (src/wssnarf.c): what is done with a read. The octets that a
-- realloc adds, and those behind the text, are indeterminate; an access behind the end of the
-- buffer is a fault.
pub mod Bounds
use coins.Prelude.{
  ℕ, zero, suc, ◌+◌, ◌-◌, ◌*◌, Option, none, some, Bool, true, false, List, [], ◌∷◌, ◌++◌, Bytes,
  length, take, ltb, leb, ◌==◌, if◌then◌else◌,
}
use coins.Libc.{codes}
use coins.Snarf.{
  State, conn, connd, auth, authd, join, joind, Reply, failed, waiting, succeeded, Channel,
  ini_gbof, fill,
}
use coins.Snarf.Log.{Timespec, loghim, logwss}

-- The hooks of the exchange, and the inflater at the size of its output buffer.
pub record Hooks : Type 0 where
  pub connd_coin : Bytes → Reply
  pub authd_coin : Bytes → Reply
  pub joind_coin : Bytes → Reply
  pub massage : Bytes → Bytes
  pub tinf_uncompress : ℕ → Bytes → Option Bytes

-- What a callback leaves: the channel, the size of the inflater's buffer (`sbuf[4].z`), the records
-- logged and the messages sent; or the same and the loop told to break; or a fault.
pub data Result : Type 0 where
  kept : Channel → ℕ → List Bytes → List Bytes → Result
  unrolled : Channel → ℕ → List Bytes → List Bytes → Result
  fault : Result

-- Twice the buffer, where there is no room for `need` octets.
unfoldable pub grow : ℕ → Channel → Channel
grow need c =
    if ltb c.size (fill c + need)
    then record c { size = if c.size == 0 then 4096 else c.size * 2 }
    else c

-- The memmove of `xn - npr` octets from `xp + INI_GBOF + npr`, which ends INI_GBOF octets behind
-- the text.
unfoldable pub keep_rest : Channel → ℕ → Timespec → List Bytes → List Bytes → Bytes → Result
keep_rest c infz t lines sent rest =
    if leb (fill c + ini_gbof) c.size
    then kept (record c { text = rest; last_act = t.tv_sec }) infz lines sent
    else fault

-- From `log` on, with no inflater.
unfoldable pub log_text : Hooks → Timespec → List Bytes → ℕ → Channel → Result
unfolding keep_rest
log_text k t sent infz c =
    let logged = logwss k.massage t c.text in keep_rest c infz t logged.0 sent logged.1

-- From `log` on with `p[idx].inflate`: `old` is the text before this read, and `read` the read,
-- whose first octet is passed over where it is a newline. After a read of no octets the newline
-- that `ws_recv` has put behind what it gives is passed over, and the size of the source is -1.
unfoldable pub on_inflated : Hooks → Timespec → ℕ → Channel → Bytes → Option Bytes → Result
unfolding log_text
on_inflated k t infz c before none = kept (record c { text = [] }) infz [] []
on_inflated k t infz c before (some out) =
    let xn = ini_gbof + length before in
    let size = if leb c.size (xn + length out) then xn + length out + c.size else c.size in
    log_text k t [] infz (record c { text = before ++ out; size = size })

unfoldable pub inflate_read : Hooks → Timespec → ℕ → Channel → Bytes → Bytes → Result
unfolding on_inflated
inflate_read k t infz c old [] = fault
inflate_read k t infz c old (d ∷ read) =
    let infz' = if ltb infz (10 * fill c) then 10 * fill c else infz in
    if d == b'\n'
    then on_inflated k t infz' c (old ++ d ∷ []) (k.tinf_uncompress infz' read)
    else on_inflated k t infz' c old (k.tinf_uncompress infz' (d ∷ read))

unfoldable pub log_or_inflate : Hooks → Timespec → ℕ → Bytes → Bytes → Channel → Result
unfolding inflate_read log_text
log_or_inflate k t infz old read c =
    if c.inflate then inflate_read k t infz c old read else log_text k t [] infz c

-- From `logunr` on: `xn` has the read in it already and has it added once more, so that as many
-- octets again are logged from behind the text. `beyond` is what stands there. `sbuf[idx].n` stays
-- what it was before the read.
unfoldable pub log_and_unroll : Hooks → Timespec → ℕ → Bytes → Bytes → Bytes → Channel → Result
log_and_unroll k t infz old read beyond c =
    let logged = logwss k.massage t (c.text ++ take (length read) beyond) in
    if leb (fill c + length read) c.size
    then unrolled (record c { text = old }) infz (logged.0 ++ loghim t (codes "restart") ∷ []) []
    else fault

-- A state is moved on where the hook says so, and left where it is to wait.
unfoldable pub on_reply : (Channel → Result) → (Channel → Result) → State → Reply → Channel → Result
on_reply log unroll next failed c = unroll c
on_reply log unroll next waiting c = log c
on_reply log unroll next succeeded c = log (record c { st = next })

-- The switch of `ws_cb`, at the text with the read in it.
unfoldable pub ws_switch :
    Hooks → (Channel → Result) → (Channel → Result) → ℕ → State → Channel → Result
unfolding on_reply
ws_switch k log unroll infz State.unk c =
    on_reply log unroll connd (k.connd_coin c.text) (record c { st = conn })
ws_switch k log unroll infz State.conn c = on_reply log unroll connd (k.connd_coin c.text) c
ws_switch k log unroll infz State.connd c = log c
ws_switch k log unroll infz State.auth c = on_reply log unroll authd (k.authd_coin c.text) c
ws_switch k log unroll infz State.authd c = log c
ws_switch k log unroll infz State.join c = on_reply log unroll joind (k.joind_coin c.text) c
ws_switch k log unroll infz State.joind c = log c
ws_switch k log unroll infz _ c = kept (record c { text = [] }) infz [] []

-- What `recv` gives: a failure, or the octets read, no more than there is room for.
unfoldable pub on_ws_read : Hooks → Timespec → ℕ → Bytes → Option Bytes → Channel → Result
unfolding ws_switch log_or_inflate log_and_unroll
on_ws_read k t infz beyond none c = unrolled c infz (loghim t (codes "restart") ∷ []) []
on_ws_read k t infz beyond (some read) c =
    ws_switch k (log_or_inflate k t infz c.text read) (log_and_unroll k t infz c.text read beyond)
      infz c.st (record c { text = c.text ++ read })

unfoldable pub ws_cb : Hooks → Timespec → ℕ → Bytes → Option Bytes → Channel → Result
unfolding on_ws_read grow
ws_cb k t infz beyond read c = on_ws_read k t infz beyond read (grow 4000 c)

-- `sio3_cb`: a probe is sent in CONN and CONND, and an upgrade in AUTH and AUTHD. It inflates
-- nothing.
unfoldable pub sio3_log : Hooks → Timespec → ℕ → State → Channel → Result
unfolding log_text
sio3_log k t infz State.auth c = log_text k t (codes "5" ∷ []) infz c
sio3_log k t infz State.authd c = log_text k t (codes "5" ∷ []) infz c
sio3_log k t infz State.join c = log_text k t [] infz c
sio3_log k t infz State.joind c = log_text k t [] infz c
sio3_log k t infz _ c = log_text k t (codes "2probe" ∷ []) infz c

unfoldable pub on_sio3_read : Hooks → Timespec → ℕ → Bytes → Option Bytes → Channel → Result
unfolding ws_switch sio3_log log_and_unroll
on_sio3_read k t infz beyond none c = unrolled c infz (loghim t (codes "restart") ∷ []) []
on_sio3_read k t infz beyond (some read) c =
    ws_switch k (sio3_log k t infz c.st) (log_and_unroll k t infz c.text read beyond) infz c.st
      (record c { text = c.text ++ read })

unfoldable pub sio3_cb : Hooks → Timespec → ℕ → Bytes → Option Bytes → Channel → Result
unfolding on_sio3_read grow
sio3_cb k t infz beyond read c = on_sio3_read k t infz beyond read (grow 4000 c)

-- `rest_cb`: a failure closes the connection, and the channel is opened anew by `prepare`. The
-- time of the last activity is not set.
unfoldable pub on_rest_read : Hooks → Timespec → ℕ → Option Bytes → Channel → Result
on_rest_read k t infz none c = kept (record c { ws = none; st = State.unk; text = [] }) infz [] []
on_rest_read k t infz (some read) c =
    let text = c.text ++ read in
    let logged = logwss k.massage t text in
    if leb (ini_gbof + length text + ini_gbof) c.size
    then kept (record c { text = logged.1 }) infz logged.0 []
    else fault

unfoldable pub rest_cb : Hooks → Timespec → ℕ → Option Bytes → Channel → Result
unfolding on_rest_read grow
rest_cb k t infz read c = on_rest_read k t infz read (grow 4096 c)
