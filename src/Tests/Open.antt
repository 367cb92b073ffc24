-- ===== src/Tests/Open.antt =====
-- A URL, its handshake, and a socket that is closed again.
use coins.Prelude.{
  ◌+◌, ◌≤◌, ◌≡◌, refl, some, none, true, false, List, [], ◌∷◌, ◌++◌, Bytes, length, arith,
}
use coins.Libc.{codes, print_ulong}
use coins.Search.{xmemmem}
use coins.Ws.{Proto}
use coins.Ws.Url.{Target, parse_url}
use coins.Ws.Url.Parts.{url_of, parse_url-url_of}
use coins.Ws.Open.{Peer, header_end, init_request, sioi, ws_open}
use coins.Ws.Open.Shared.{Call, opens, calls, no_buffer, ws_open-allocated}
use coins.Ws.Open.Failure.{ws_open-unallocated}
use coins.Ws.Open.Handshake.{switched, ws_open-switched}

abbrev ex_target : Target
ex_target = record {
  proto = Proto.raw;
  ssl = true;
  host = codes "ex.io";
  port = 443;
  authority = codes "ex.io";
  rsrc = codes "v2";
}

at_ex : parse_url (codes "wss://ex.io/v2") ≡ some ex_target
unfolding parse_url
at_ex = refl

no_port : parse_url (codes "ws://ex.io:http/v2") ≡ none
unfolding parse_url
no_port = refl

abbrev peer : Peer
peer = record {
  mallocs = true;
  connects = true;
  reads = codes "HTTP/1.1 200 OK\r\n" ∷ codes "\r\n\r\n" ∷ codes "c\r\n4711:60:60" ∷ [];
  peeked = (switched ++ codes " Switching Protocols") ++ (header_end ++ codes "rest");
  in_front = 0;
}

sid_of_reply : sioi peer Proto.sio1 (codes "ws") ≡ some (codes "ws/socket.io/1/websocket/4711")
unfolding sioi xmemmem
sid_of_reply = refl

parse_url-url_of_example :
    parse_url (url_of Proto.sio3 true ((codes "ex" ++ b':' ∷ print_ulong 8080) ++ b'/' ∷ codes "a"))
    ≡ some (record {
      proto = Proto.sio3;
      ssl = true;
      host = codes "ex";
      port = 8080;
      authority = codes "ex" ++ b':' ∷ print_ulong 8080;
      rsrc = codes "a";
    })
parse_url-url_of_example =
    parse_url-url_of Proto.sio3 true (codes "ex") 8080 (codes "a") (omega arith) (omega arith)
      (omega arith)

abbrev two_calls : List Call
two_calls = opens peer (codes "wss://ex.io/v2") ∷ []

one_open : (calls two_calls (no_buffer, 0)).1 ≡ 1
unfolding ws_open
one_open = refl

ws_open-allocated_example : (calls two_calls (no_buffer, 0)).0.allocated ≡ true
ws_open-allocated_example =
    ws_open-allocated two_calls (omega arith) (refl, tt) (omega (arith, one_open))

short : length (init_request Proto.raw (codes "ex.io") (codes "v2")) ≤ 4096
unfolding init_request
short = omega arith

ws_open-switched_example :
    (before : Bytes) × (rest : Bytes) × ((ws_open peer (codes "wss://ex.io/v2") no_buffer).1
      ≡ record {
        ws = some ex_target;
        sent = init_request Proto.raw (codes "ex.io") (codes "v2") ∷ [];
        taken = length before + 4;
        fault = false;
      })
    × (peer.peeked ≡ before ++ (header_end ++ rest))
    × (length before ≤ length (switched ++ codes " Switching Protocols"))
ws_open-switched_example =
    ws_open-switched peer (codes "wss://ex.io/v2") no_buffer ex_target
      (codes " Switching Protocols") (codes "rest") at_ex refl refl refl
      (λ large. absurd (omega arith)) short refl

-- There is no memory.
abbrev poor : Peer
poor = record peer { mallocs = false }

abbrev rest_target : Target
rest_target = record {
  proto = Proto.rest;
  ssl = true;
  host = codes "ex.io";
  port = 443;
  authority = codes "ex.io";
  rsrc = codes "v1";
}

at_rest : parse_url (codes "https://ex.io/v1") ≡ some rest_target
unfolding parse_url
at_rest = refl

rest_without_buffer :
    let r =
      ws_open peer (codes "https://ex.io/v1") (ws_open poor (codes "wss://ex.io/v2") no_buffer).0 in
    (r.1.ws ≡ some rest_target) × (r.0.allocated ≡ false)
rest_without_buffer =
    ws_open-unallocated poor peer (codes "wss://ex.io/v2") (codes "https://ex.io/v1") no_buffer
      ex_target rest_target (omega arith) at_ex refl at_rest refl refl
