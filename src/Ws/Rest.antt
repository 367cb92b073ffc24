-- ===== src/Ws/Rest.antt =====
-- `rest_recv` and `rest_send` (src/ws.c): replies of HTTP with a length or in chunks, and requests.
-- A buffer is `nrd` octets that are good, and what stands behind them.
pub mod Parts
use coins.Prelude.{
  ℕ, ◌+◌, ◌-◌, ◌^◌, Option, none, some, Bool, true, false, not, ◌&&◌, ◌||◌, [], ◌∷◌, ◌++◌, Bytes,
  length, take, drop, ltb, ◌==◌, if◌then◌else◌,
}
use coins.Libc.{codes, peek, strtoul}
use coins.Libc.Hex.{strtoul_hex}
use coins.Search.{xmemmem}
use coins.Ws.{Proto}

-- `togo`, and the bits HDR_SEEN, LEN_SEEN and ENC_SEEN of `state`. A `togo` of 2 ^ 63 or more is
-- negative.
pub record Rest : Type 0 where
  pub togo : ℕ
  pub hdr_seen : Bool
  pub len_seen : Bool
  pub enc_seen : Bool

-- What is returned: octets at the start of the buffer, or less than zero; or an access outside of
-- the buffer.
pub data Got : Type 0 where
  got : Rest → Bytes → Got
  negative : Rest → Got
  fault : Got

abbrev pub fresh : ℕ → Rest
fresh n = record { togo = n; hdr_seen = false; len_seen = false; enc_seen = false }

-- `nrd < ws->togo`
abbrev pub is_short : ℕ → ℕ → Bool
is_short nrd togo = ltb nrd togo && ltb togo (2 ^ 63)

unfoldable pub on_length : Rest → ℕ → Bytes → Got
on_length ws nrd buf =
    if is_short nrd ws.togo
    then got (record ws { togo = ws.togo - nrd }) (take nrd buf)
    else if ltb ws.togo (length buf)
    then got (fresh 0) (take ws.togo buf ++ b'\n' ∷ [])
    else fault

-- The part of a chunk.
unfoldable pub on_part : Rest → ℕ → Bytes → Got
on_part ws nrd buf =
    if is_short nrd ws.togo
    then got (record ws { togo = ws.togo - nrd }) (take nrd buf)
    else if ltb ws.togo (2 ^ 63)
    then got (record ws { togo = 0 }) (take ws.togo buf)
    else negative (record ws { togo = 0 })

-- Behind the size of a chunk, `size` and what `strtoul` leaves: the rest is moved to the front.
unfoldable pub on_size : Rest → ℕ → Bytes → ℕ × Bytes → Got
unfolding on_part
on_size ws nrd buf (size, on) =
    let used = length buf - length (drop 2 on) in
    if size == 0 || (not (peek on == b'\r') || not (peek (drop 1 on) == b'\n'))
    then got (fresh size) (b'\n' ∷ [])
    else if ltb nrd used
    then fault
    else on_part (record ws { togo = size }) (nrd - used)
        (take (nrd - used) (drop used buf) ++ drop (nrd - used) buf)

unfoldable pub on_chunk : Rest → ℕ → Bytes → Got
unfolding on_size on_part strtoul_hex
on_chunk ws nrd buf =
    if ws.togo == 0 then on_size ws nrd buf (strtoul_hex buf) else on_part ws nrd buf

unfoldable pub on_body : Rest → ℕ → Bytes → Got
unfolding on_length on_chunk
on_body ws nrd buf =
    if ws.len_seen
    then on_length ws nrd buf
    else if ws.enc_seen
    then on_chunk ws nrd buf
    else got ws (take nrd buf)

-- The end of the header, at `p` where it is found. Where nothing stands behind it, HDR_SEEN is not
-- set and nothing is moved.
unfoldable pub on_end : Rest → ℕ → Bytes → Option ℕ → Got
unfolding on_body
on_end ws nrd buf none = got ws []
on_end ws nrd buf (some p) =
    if nrd - p == 0
    then on_body ws 0 buf
    else on_body (record ws { hdr_seen = true }) (nrd - p)
        (take (nrd - p) (drop p buf) ++ drop (nrd - p) buf)

unfoldable pub on_encoding : Rest → Option ℕ → Rest
on_encoding ws none = ws
on_encoding ws (some p) = record ws { togo = 0; enc_seen = true }

unfoldable pub on_headers : Rest → Bytes → Bytes → Option ℕ → Rest
unfolding on_encoding
on_headers ws read buf none = on_encoding ws (xmemmem read (codes "Transfer-Encoding:"))
on_headers ws read buf (some p) = record ws { togo = (strtoul (drop p buf)).0; len_seen = true }

-- `!ws->state`
abbrev pub is_fresh : Rest → Bool
is_fresh ws = not (ws.hdr_seen || (ws.len_seen || ws.enc_seen))

unfoldable pub see_headers : Rest → Bytes → Bytes → Rest
unfolding on_headers
see_headers ws read buf =
    if is_fresh ws then on_headers ws read buf (xmemmem read (codes "Content-Length:")) else ws

unfoldable pub on_seen : Rest → Bytes → Bytes → Got
unfolding on_end on_body
on_seen ws read buf =
    if ws.hdr_seen
    then on_body ws (length read) buf
    else on_end ws (length read) buf (xmemmem read (codes "\r\n\r\n"))

-- `read` is what `recv` gives into the front of the buffer, `beyond` what stands behind that.
unfoldable pub rest_recv : Rest → Option Bytes → Bytes → Got
unfolding on_seen see_headers
rest_recv ws none beyond = negative ws
rest_recv ws (some read) beyond =
    let buf = read ++ beyond in on_seen (see_headers ws read buf) read buf

abbrev pub rest_request : Bytes → Bytes → Bytes
rest_request host url =
    codes "GET "
    ++ (url
        ++ (codes " HTTP/1.1\r\nHost: " ++ (host ++ codes "\r\nUser-Agent: Mozilla/4.0\r\n\r\n")))

-- What is sent for a URL; the state is then as of a new reply. Other protocols send nothing.
unfoldable pub rest_send : Proto → Bytes → Bytes → Rest → Rest × Option Bytes
rest_send Proto.rest host url ws = (fresh 0, some (rest_request host url))
rest_send _ host url ws = (ws, none)
