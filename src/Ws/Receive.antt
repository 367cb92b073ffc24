-- ===== src/Ws/Receive.antt =====
-- `ws_recv` (src/ws.c). The result is built in the buffer that the frames stand in, from its start
-- on; it never overtakes what is still to be read (Ws/Receive/Bounds), so that the two are two runs
-- of octets here.
pub mod Bounds
pub mod Messages
use coins.Prelude.{
  ℕ, zero, suc, ◌+◌, ◌-◌, ◌*◌, ◌/◌, ◌%◌, Option, none, some, Bool, true, false, ◌&&◌, ◌||◌, List,
  [], ◌∷◌, ◌++◌, Bytes, length, take, drop, get_or, ltb, leb, ◌==◌, if◌then◌else◌, min,
}
use coins.Ws.Frames.{loaded_be, ws_pong}

-- `ws_s`: the octets to go in the frame at hand, how many octets of a frame not yet unpacked are
-- stashed in `frml`, whether the last output is still to be finished, and the frame's header.
pub record Ws : Type 0 where
  pub togo : ℕ
  pub done : ℕ
  pub state : Bool
  pub frml : Bytes

-- `received` has the socket, the result and the pongs that were sent on the way. `refused` is the
-- -1, `aborted` the abort on an unknown opcode, `overrun` a write behind the buffer; `out_of_fuel`
-- does not occur.
pub data Received : Type 0 where
  received : Ws → Bytes → List Bytes → Received
  refused : Received
  aborted : Received
  overrun : Received
  out_of_fuel : Received

-- `sizeof(wsfr_t)`
abbrev pub frame_size : ℕ
frame_size = 14

abbrev pub code_of : Bytes → ℕ
code_of frml = get_or frml 0 0 % 16

abbrev pub finp_of : Bytes → Bool
finp_of frml = leb 128 (get_or frml 0 0)

abbrev pub plen_of : Bytes → ℕ
plen_of frml = get_or frml 1 0 % 128

-- The payload's length, and the size of the header with the masking key.
unfoldable pub unpack : Bytes → ℕ × ℕ
unpack frml =
    let key = if leb 128 (get_or frml 1 0) then 4 else 0 in
    if plen_of frml == 126
    then (loaded_be 0 (take 2 (drop 2 frml)), 4 + key)
    else if plen_of frml == 127
    then (loaded_be 0 (take 8 (drop 2 frml)), 10 + key)
    else (plen_of frml, 2 + key)

-- `buf[rp] = '\n', rp += ws->state`
abbrev pub finish : Bool → Bytes → Bytes
finish true out = out ++ b'\n' ∷ []
finish false out = out

-- From `stash` on: what is left is kept at the front of `frml`, and the newline is stored behind the
-- result whether it counts or not, behind the end of the buffer if the result fills it.
unfoldable pub stash : ℕ → Ws → Bytes → Bytes → List Bytes → Received
stash bsz ws left out pongs =
    if ltb (length out) bsz
    then received (record ws { done = length left; frml = left ++ drop (length left) ws.frml })
        (finish ws.state out) pongs
    else overrun

-- The switch on the opcode, at the payload that is at hand: socket, result and pongs.
unfoldable pub on_payload : Ws → Bytes → Bytes → List Bytes → Option (Ws × Bytes × List Bytes)
unfolding ws_pong
on_payload ws payload out pongs =
    let code = code_of ws.frml in
    if leb code 2 || code == 8
    then some
        (record ws { state = ws.togo == 0 && finp_of ws.frml || code == 8 }, out ++ payload, pongs)
    else if code == 9
    then some (record ws { state = true }, out ++ payload, pongs ++ ws_pong payload ∷ [])
    else if code == 10
    then some (record ws { state = false }, out, pongs)
    else none

-- What comes after a payload: another frame where more than a header is left, else the stash.
unfoldable pub go_on :
    ℕ
    → (Ws → Bytes → Bytes → List Bytes → Received)
    → Bytes
    → Option (Ws × Bytes × List Bytes)
    → Received
unfolding stash
go_on bsz again left none = aborted
go_on bsz again left (some (ws, out, pongs)) =
    let more = again ws left out pongs in
    if ltb frame_size (length left) then more else stash bsz ws left out pongs

-- From `unpkd` on, with `inp` from the payload pointer on.
unfoldable pub unpacked :
    ℕ → (Ws → Bytes → Bytes → List Bytes → Received) → Ws → Bytes → Bytes → List Bytes → Received
unfolding go_on on_payload
unpacked bsz again ws inp out pongs =
    let pz = min ws.togo (length inp) in
    go_on bsz again (drop pz inp)
      (on_payload (record ws { togo = ws.togo - pz }) (take pz inp) out pongs)

-- From `again` on. A round takes two octets or more, so that the length of the input is fuel enough
-- (Ws/Receive/Bounds).
unfoldable pub again : ℕ → ℕ → Ws → Bytes → Bytes → List Bytes → Received
unfolding unpack unpacked
again bsz zero ws inp out pongs = out_of_fuel
again bsz (suc fuel) ws inp out pongs =
    let frml = take frame_size inp in
    let (togo, size) = unpack frml in
    unpacked bsz (again bsz fuel) (record ws { togo = togo; frml = frml }) (drop size inp)
      (finish ws.state out) pongs

-- At the octets stashed and read together.
unfoldable pub on_input : ℕ → Ws → Bytes → Received
unfolding again unpacked
on_input bsz ws inp =
    if ltb (length inp) frame_size && ws.togo == 0
    then stash bsz ws inp [] []
    else if ws.togo == 0
    then again bsz (length inp) ws inp [] []
    else unpacked bsz (again bsz (length inp)) ws inp [] []

-- `read` is what `recv` gives into the room behind what was stashed; it gives nothing where the
-- connection has failed or ended.
unfoldable pub ws_recv : ℕ → Ws → Option Bytes → Received
unfolding on_input
ws_recv bsz ws none = refused
ws_recv bsz ws (some read) = on_input bsz ws (take ws.done ws.frml ++ read)
