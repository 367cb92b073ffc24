-- ===== src/Ws/Open.antt =====
-- `_sioi`, `_init`, `ws_open` and `ws_close` (src/ws.c): the handshake, and the buffer that all
-- sockets share. `malloc` may fail, and a request may be longer than the buffer.
pub mod Handshake
pub mod Shared
pub mod Failure
use coins.Prelude.{
  ℕ, ◌+◌, Option, none, some, Bool, true, false, not, ◌||◌, ◌&&◌, ltb, List, [], ◌∷◌, ◌++◌, Bytes,
  length, drop, leb, ◌==◌, if◌then◌else◌,
}
use coins.Libc.{codes, peek, starts_with, memchr, ulong_max, u64}
use coins.Search.{xmemmem}
use coins.Ws.{Proto}
use coins.Ws.Url.{Target, parse_url}

-- What the environment does: whether `malloc` gives memory, whether `_open` connects, what the calls
-- of `recv` in `_sioi` give until one fails, what the peek of `_init` gives, which is nothing where
-- it fails, and the octet in front of the buffer, which is read where a resource is empty.
pub record Peer : Type 0 where
  pub mallocs : Bool
  pub connects : Bool
  pub reads : List Bytes
  pub peeked : Bytes
  pub in_front : ℕ

-- `gbuf`, `gbsz` and `gbrc`: whether there is a buffer, its size, and the count of references.
pub record Buffer : Type 0 where
  pub allocated : Bool
  pub gbsz : ℕ
  pub gbrc : ℕ

-- The target if a socket is returned, what was sent, how much of what was peeked at was taken off the
-- wire, and whether a request was written where there is no buffer or behind its end, with which the
-- call is at its end here.
pub record Opening : Type 0 where
  pub ws : Option Target
  pub sent : List Bytes
  pub taken : ℕ
  pub fault : Bool

abbrev pub header_end : Bytes
header_end = codes "\r\n\r\n"

-- A resource behind a slash.
unfoldable pub slash_before : Bytes → Bytes
slash_before rsrc = if peek rsrc == b'/' then rsrc else b'/' ∷ rsrc

unfoldable pub last_of : ℕ → Bytes → ℕ
last_of d [] = d
last_of d (c ∷ s) = last_of c s

-- A slash behind what is in the buffer; `d` is the octet in front of it.
unfoldable pub slash_behind : ℕ → Bytes → Bytes
unfolding last_of
slash_behind d s = if last_of d s == b'/' then s else s ++ b'/' ∷ []

abbrev pub sio_path : Proto → Bytes
sio_path Proto.sio1 = codes "socket.io/1/ HTTP/1.1\r\nHost: "
sio_path Proto.sio3 = codes "socket.io/?EIO=3&transport=polling HTTP/1.1\r\nHost: "
sio_path _ = []

unfoldable pub sio_request : Proto → Bytes → Bytes → Bytes
unfolding slash_before slash_behind
sio_request p host rsrc =
    codes "GET "
    ++ (slash_behind 0 (slash_before rsrc)
        ++ (sio_path p
            ++ (host ++ codes "\r\nUser-Agent: Dark Ninja Secret/1.0\r\nAccept: */*\r\n\r\n")))

unfoldable pub on_header_end :
    Bytes → List Bytes → Option (Bytes × List Bytes) → Option ℕ → Option (Bytes × List Bytes)
on_header_end read reads later none = later
on_header_end read reads later (some e) = some (drop e read, reads)

-- The loop of reads: what stands behind the end of the header, and the reads to come.
unfoldable pub behind_header : List Bytes → Option (Bytes × List Bytes)
unfolding on_header_end
behind_header [] = none
behind_header ([] ∷ reads) = none
behind_header ((c ∷ read) ∷ reads) =
    on_header_end (c ∷ read) reads (behind_header reads) (xmemmem (c ∷ read) header_end)

-- Where nothing stands there, one more read.
unfoldable pub one_more : Option (Bytes × List Bytes) → Option Bytes
one_more none = none
one_more (some (c ∷ s, reads)) = some (c ∷ s)
one_more (some ([], [])) = none
one_more (some ([], [] ∷ reads)) = none
one_more (some ([], (c ∷ read) ∷ reads)) = some (c ∷ read)

-- The last line of a text, behind `line`.
unfoldable pub last_line : Bytes → Bytes → Bytes
last_line line [] = line
last_line line (c ∷ s) = last_line (if c == b'\n' then [] else line ++ c ∷ []) s

-- sio1: up to the first colon, from the start of its line on.
unfoldable pub sid_before : Option (Bytes × Bytes) → Option Bytes
unfolding last_line
sid_before none = none
sid_before (some (before, colon)) = some (last_line [] before)

unfoldable pub skip_behind : ℕ → Bytes → Bytes
skip_behind c [] = []
skip_behind c (d ∷ s) = let later = skip_behind c s in if d == c then s else later

unfoldable pub up_to : ℕ → Bytes → Bytes
up_to c [] = []
up_to c (d ∷ s) = let later = up_to c s in if d == c then [] else d ∷ later

unfoldable pub some_sid : Bytes → Option Bytes
some_sid [] = none
some_sid (c ∷ s) = some (c ∷ s)

-- sio3: the text in quotes behind the colon behind the key.
unfoldable pub sid_behind : Bytes → Option ℕ → Option Bytes
unfolding skip_behind up_to some_sid
sid_behind text none = none
sid_behind text (some e) = some_sid (up_to b'"' (skip_behind b'"' (skip_behind b':' (drop e text))))

unfoldable pub session_id : Proto → Bytes → Option Bytes
unfolding sid_before sid_behind memchr
session_id Proto.sio1 text = sid_before (memchr b':' text)
session_id _ text = sid_behind text (xmemmem text (b'"' ∷ codes "sid" ++ b'"' ∷ []))

abbrev pub sio_resource : Proto → Bytes
sio_resource Proto.sio1 = codes "socket.io/1/websocket/"
sio_resource _ = codes "socket.io/?EIO=3&transport=websocket&t=1234567890000&sid="

-- The resource of the session; an id of 64 octets or more is refused.
unfoldable pub with_sid : Proto → ℕ → Bytes → Option Bytes → Option Bytes
unfolding slash_behind
with_sid p in_front rsrc none = none
with_sid p in_front rsrc (some sid) =
    if leb 64 (length sid) || leb 4096 (length sid)
    then none
    else some (slash_behind in_front rsrc ++ (sio_resource p ++ sid))

unfoldable pub in_reply : Proto → ℕ → Bytes → Option Bytes → Option Bytes
unfolding with_sid session_id
in_reply p in_front rsrc none = none
in_reply p in_front rsrc (some text) = with_sid p in_front rsrc (session_id p text)

-- `_sioi`, its request apart.
unfoldable pub sioi : Peer → Proto → Bytes → Option Bytes
unfolding in_reply one_more behind_header
sioi peer p rsrc = in_reply p peer.in_front rsrc (one_more (behind_header peer.reads))

abbrev pub upgrade_lines : Proto → Bytes
upgrade_lines Proto.wamp =
    codes
      "Sec-WebSocket-Version: 13\r\nSec-WebSocket-Key: e8w+o5wQsV0rXFezPUS8XQ==\r\nSec-WebSocket-Protocol: wamp.2.json\r\nUpgrade: websocket\r\nConnection: Upgrade\r\n\r\n"
upgrade_lines Proto.rest = codes "User-Agent: Mozilla/4.0\r\n\r\n"
upgrade_lines _ =
    codes
      "Sec-WebSocket-Version: 13\r\nSec-WebSocket-Key: e8w+o5wQsV0rXFezPUS8XQ==\r\nUpgrade: websocket\r\nConnection: Upgrade\r\n\r\n"

unfoldable pub init_request : Proto → Bytes → Bytes → Bytes
unfolding slash_before
init_request p host rsrc =
    codes "GET "
    ++ (slash_before rsrc
        ++ (codes " HTTP/1.1\r\nHost: " ++ (host ++ (codes "\r\n" ++ upgrade_lines p))))

-- What is taken off the wire: the header, if its end has been seen.
unfoldable pub header_size : Option ℕ → ℕ
header_size none = 0
header_size (some e) = e

-- `_init`, its request apart: whether the protocol was switched, and what is taken off the wire.
-- The request still stands in the buffer behind what is peeked at.
unfoldable pub init : Bytes → Bytes → Bool × ℕ
unfolding header_size starts_with
init request [] = (false, 0)
init request (c ∷ s) =
    let gbuf = c ∷ s ++ drop (length (c ∷ s)) request in
    (starts_with (codes "HTTP/1.1 101") gbuf, header_size (xmemmem (c ∷ s) header_end))

-- `ws_close`, as far as the buffer is concerned.
unfoldable pub ws_close : Buffer → Buffer
ws_close g =
    let gbrc' = u64 (g.gbrc + ulong_max) in
    if g.allocated
    then record {
      allocated = not (gbrc' == 0);
      gbsz = if gbrc' == 0 then 0 else g.gbsz;
      gbrc = gbrc';
    }
    else g

-- Nothing is returned.
abbrev pub no_socket : List Bytes → ℕ → Opening
no_socket sent taken = record { ws = none; sent = sent; taken = taken; fault = false }

abbrev pub socket_of : Target → List Bytes → ℕ → Opening
socket_of t sent taken = record { ws = some t; sent = sent; taken = taken; fault = false }

abbrev pub written_outside : List Bytes → Opening
written_outside sent = record { ws = none; sent = sent; taken = 0; fault = true }

abbrev pub has_room : Buffer → Bytes → Bool
has_room g request = g.allocated && leb (length request) g.gbsz

unfoldable pub on_init : Buffer → Target → List Bytes → Bool × ℕ → Buffer × Opening
unfolding ws_close
on_init g t sent (true, taken) = (g, socket_of t sent taken)
on_init g t sent (false, taken) = (ws_close g, no_socket sent taken)

unfoldable pub upgrade : Peer → Buffer → Target → List Bytes → Bytes → Buffer × Opening
unfolding on_init init init_request
upgrade peer g t sent rsrc =
    let request = init_request t.proto t.authority rsrc in
    if has_room g request
    then on_init g t (sent ++ request ∷ []) (init request peer.peeked)
    else (g, written_outside sent)

unfoldable pub on_sioi : Peer → Buffer → Target → Bytes → Option Bytes → Buffer × Opening
unfolding upgrade ws_close
on_sioi peer g t request none = (ws_close g, no_socket (request ∷ []) 0)
on_sioi peer g t request (some rsrc) = upgrade peer g t (request ∷ []) rsrc

unfoldable pub sio_session : Peer → Buffer → Target → Bytes → Option Bytes → Buffer × Opening
unfolding on_sioi
sio_session peer g t request rsrc =
    if has_room g request then on_sioi peer g t request rsrc else (g, written_outside [])

-- The switch on the protocol.
unfoldable pub handshake : Peer → Buffer → Target → Proto → Buffer × Opening
unfolding upgrade sio_session sioi sio_request
handshake peer g t Proto.rest = (g, socket_of t [] 0)
handshake peer g t Proto.sio1 =
    sio_session peer g t (sio_request Proto.sio1 t.host t.rsrc) (sioi peer Proto.sio1 t.rsrc)
handshake peer g t Proto.sio3 =
    sio_session peer g t (sio_request Proto.sio3 t.host t.rsrc) (sioi peer Proto.sio3 t.rsrc)
handshake peer g t _ = upgrade peer g t [] t.rsrc

-- The buffer, and whether the call goes on. The size is set before it is known whether there is
-- memory, so that a later call takes the buffer to be there.
unfoldable pub with_buffer : Bool → Buffer → Buffer × Bool
with_buffer mallocs g =
    if ltb g.gbsz 4096 then (record g { gbsz = 4096; allocated = mallocs }, mallocs) else (g, true)

unfoldable pub on_buffer : Peer → Target → Buffer × Bool → Buffer × Opening
unfolding handshake
on_buffer peer t (g, false) = (g, no_socket [] 0)
on_buffer peer t (g, true) =
    let g' : Buffer = record g { gbrc = u64 (g.gbrc + 1) } in
    if peer.connects then handshake peer g' t t.proto else (g', no_socket [] 0)

unfoldable pub on_target : Peer → Buffer → Option Target → Buffer × Opening
unfolding on_buffer with_buffer
on_target peer g none = (g, no_socket [] 0)
on_target peer g (some t) = on_buffer peer t (with_buffer peer.mallocs g)

unfoldable pub ws_open : Peer → Bytes → Buffer → Buffer × Opening
unfolding on_target parse_url
ws_open peer url g = on_target peer g (parse_url url)
