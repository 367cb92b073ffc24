-- ===== src/Ws/Url.antt =====
-- `guess_proto` and the first half of `ws_open` (src/ws.c): what a URL asks for. A string is its
-- octets up to the NUL.
pub mod Parts
use coins.Prelude.{
  ℕ, ◌+◌, Option, none, some, Bool, true, false, ◌&&◌, [], ◌∷◌, ◌++◌, Bytes, drop, get_or, ltb, leb,
  ◌==◌, if◌then◌else◌,
}
use coins.Libc.{codes, peek, starts_with, memchr, strtoul}
use coins.Ws.{Proto}

-- What `guess_proto` returns and sets: the protocol, `*sslp` and `*host`.
pub record Guess : Type 0 where
  pub proto : Proto
  pub ssl : Bool
  pub host : Bytes

-- One test: the literal, and the offset at which an `s` may stand before the colon.
unfoldable pub scheme : Bytes → ℕ → Bytes → Option (Bool × Bytes)
unfolding starts_with
scheme lit n url =
    let ssl = peek (drop n url) == b's' in
    let colon = drop (n + (if ssl then 1 else 0)) url in
    if starts_with lit url && starts_with (codes "://") colon
    then some (ssl, drop 3 colon)
    else none

unfoldable pub or_else : Proto → Option (Bool × Bytes) → Guess → Guess
or_else p none later = later
or_else p (some (ssl, host)) later = record { proto = p; ssl = ssl; host = host }

unfoldable pub guess_proto : Bytes → Guess
unfolding scheme or_else
guess_proto url = or_else Proto.raw (scheme (codes "ws") 2 url) (
    or_else Proto.wamp (scheme (codes "wamp") 4 url) (
      or_else Proto.rest (scheme (codes "http") 4 url) (
        or_else (if get_or url 3 0 == b'1' then Proto.sio1 else Proto.sio3)
          (scheme (codes "sio") 4 url) (record { proto = Proto.raw; ssl = false; host = url }))))

-- What is connected to and asked for. `authority` is the host with its port as the URL spells them.
pub record Target : Type 0 where
  pub proto : Proto
  pub ssl : Bool
  pub host : Bytes
  pub port : ℕ
  pub authority : Bytes
  pub rsrc : Bytes

abbrev pub target : Guess → Bytes → ℕ → Bytes → Bytes → Target
target g host port authority rsrc = record {
  proto = g.proto;
  ssl = g.ssl;
  host = host;
  port = port;
  authority = authority;
  rsrc = rsrc;
}

-- Up to the first `/`, and behind it.
unfoldable pub at_slash : Bytes → Option (Bytes × Bytes) → Bytes × Bytes
at_slash host none = (host, [])
at_slash host (some (before, slash)) = (before, drop 1 slash)

-- A port of 0 is what `strtoul` reads where there is none.
unfoldable pub at_port : Guess → Bytes → Bytes → Option (Bytes × Bytes) → Option Target
unfolding strtoul
at_port g authority rsrc none = some (target g authority (if g.ssl then 443 else 80) authority rsrc)
at_port g authority rsrc (some (name, colon)) =
    let x = (strtoul (drop 1 colon)).0 in
    if x == 0 then none else if leb 65536 x then none else some (target g name x authority rsrc)

unfoldable pub find_port : Guess → Bytes × Bytes → Option Target
unfolding at_port memchr
find_port g (authority, rsrc) = at_port g authority rsrc (memchr b':' authority)

-- `none` is the early `goto nil`.
unfoldable pub parse_url : Bytes → Option Target
unfolding guess_proto at_slash find_port memchr
parse_url url = let g = guess_proto url in find_port g (at_slash g.host (memchr b'/' g.host))
