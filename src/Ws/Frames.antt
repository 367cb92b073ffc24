-- ===== src/Ws/Frames.antt =====
-- `ws_send`, `ws_ping` and `ws_pong` (src/ws.c): the octets that are sent.
pub mod Length
use coins.Prelude.{
  ℕ, zero, suc, ◌+◌, ◌-◌, ◌*◌, ◌/◌, ◌%◌, ◌^◌, Option, none, some, Bool, true, false, List, [], ◌∷◌,
  ◌++◌, Bytes, length, take, get_or, ltb, leb, if◌then◌else◌, bit_xor,
}

-- The octets of a `uint64_t` in memory, on a little-endian host: `n` of them.
abbrev pub stored_le : ℕ → ℕ → Bytes
stored_le zero x = []
stored_le (suc n) x = x % 256 ∷ stored_le n (x / 256)

abbrev pub loaded_le : Bytes → ℕ
loaded_le [] = 0
loaded_le (b ∷ s) = b + 256 * loaded_le s

-- `n` octets, the most significant first.
abbrev pub stored_be : ℕ → ℕ → Bytes
stored_be zero x = []
stored_be (suc n) x = stored_be n (x / 256) ++ x % 256 ∷ []

abbrev pub loaded_be : ℕ → Bytes → ℕ
loaded_be acc [] = acc
loaded_be acc (b ∷ s) = loaded_be (acc * 256 + b) s

-- `htobe64`: the number whose octets in memory are those of `x` in network order.
unfoldable pub htobe64 : ℕ → ℕ
htobe64 x = loaded_le (stored_be 8 x)

unfoldable pub htobe16 : ℕ → ℕ
htobe16 x = loaded_le (stored_be 2 x)

-- `wsfr_t` as it stands in memory; a text frame, the last of its message, masked with the key 0.
-- The length field, of seven bits, and the four words behind it are given.
unfoldable pub text_frame : ℕ → ℕ → ℕ → ℕ → ℕ → Bytes
text_frame plen w0 w1 w2 w3 =
    0x81
    ∷ (0x80 + plen)
    ∷ (stored_le 2 w0 ++ (stored_le 2 w1 ++ (stored_le 2 w2 ++ (stored_le 2 w3 ++ stored_le 4 0))))

-- The first `slen` octets of the frame: the header that is sent before `bsz` octets.
unfoldable pub send_header : ℕ → Bytes
unfolding text_frame htobe64 htobe16
send_header bsz =
    if leb 65536 bsz
    then take 14 (
        text_frame 127 (htobe64 bsz / 2 ^ 48 % 65536) (htobe64 bsz / 2 ^ 32 % 65536)
          (htobe64 bsz / 2 ^ 16 % 65536) (htobe64 bsz % 65536))
    else if leb 126 bsz
    then take 8 (text_frame 126 (htobe16 bsz) 0 0 0)
    else take 6 (text_frame bsz 0 0 0 0)

-- `ws_send`: the size of the shared buffer, and what is sent, or `none` where the buffer had to grow
-- and could not. `(x | 0xff) + 1` is the next multiple of 256.
unfoldable pub ws_send : Bool → ℕ → Bytes → ℕ × Option Bytes
unfolding send_header
ws_send can_malloc gbsz buf =
    let frame = send_header (length buf) ++ buf in
    if ltb gbsz (length frame)
    then if can_malloc then (length frame / 256 * 256 + 256, some frame) else (0, none)
    else (gbsz, some frame)

-- What `ws_ping` and `ws_pong` send: at most 125 octets of the message. The length octet is
-- `0x80 ^ msz`.
unfoldable pub control_frame : ℕ → Bytes → Bytes
control_frame code [] = code ∷ 0x80 ∷ 0 ∷ 0 ∷ 0 ∷ 0 ∷ []
control_frame code (c ∷ msg) =
    let msz = if ltb 125 (length (c ∷ msg)) then 125 else length (c ∷ msg) in
    0x8a ∷ bit_xor 0x80 msz ∷ 0 ∷ 0 ∷ 0 ∷ 0 ∷ take msz (c ∷ msg)

unfoldable pub ws_ping : Bytes → Bytes
unfolding control_frame
ws_ping msg = control_frame 0x89 msg

unfoldable pub ws_pong : Bytes → Bytes
unfolding control_frame
ws_pong msg = control_frame 0x8a msg
