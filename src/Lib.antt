-- ===== src/Lib.antt =====
-- Snarfers log what exchanges send over websockets or FIX, a line at a time behind a time stamp, and
-- converters turn these logs into a common tabular format.
--
-- Prelude holds the shared names. Libc holds what the sources call of the C library, over lists of
-- octets; Libc/Decimal reads back what was printed in decimal, Libc/Chars is what `memchr` finds.
--
-- Search is `xmemmem` of src/ws.c, which the converters carry as well: `scan_heads` is its first
-- loop, `roll` its second. Search/Rolling has the invariant of the two, Search/Correct the rest, and
-- Search/Exact where a needle is found whose first character stands nowhere before it.
--
-- Clock is the time stamps of the converters, `strtotv` and `tvtostr` of src/coin2b.c (they stand
-- verbatim in the others), `strtons` of the same file and `smstotv` of src/cex2b.c. Values of
-- `unsigned long` wrap at 2 ^ 64 (`u64`), and `strtoul` saturates.
--
-- Snarf is src/wssnarf.c. A `Channel` is a `struct wssnarf_s`: the socket (open with a protocol, or
-- none), the state `st`, the receive buffer and its size. Snarf/Log is `hrclock_print`, `loghim` and
-- `logwss`; Snarf/Prepare is `prepare` with `open_coin` and `fini_coin`, one function for each label
-- of the switch, ending in the next where the source falls through; Snarf/Receive is `ws_cb`,
-- `sio3_cb` and `rest_cb`, where an access behind the buffer is a fault; Snarf/Events is the other
-- callbacks, `add_wssnarf`, and the order of events (`Step`, `Reach`). The hooks that each exchange
-- defines (`conn_coin`, `auth_coin`, `join_coin`, `massage` and so on), the answers of `ws_open` and
-- the inflation of src/tinflate.c are arguments.
--
-- Ws is src/ws.c. Ws/Frames is `ws_send`, `ws_ping` and `ws_pong`; Ws/Receive is `ws_recv`, whose
-- loop over the frames of a read is recursion on fuel. Each round takes at least one octet of the
-- read, so that its length is fuel enough. Ws/Url is `guess_proto` and the parsing in `ws_open`;
-- Ws/Open is the rest of `ws_open`, with `_sioi`, `_init` and `ws_close`, over what the peer answers
-- (`Peer`), and the shared buffer `gbuf` with its size and its count of references
-- (`Buffer`), for which `malloc` may fail; a request written where there is no room is a fault. Ws/Rest is
-- `rest_recv` and `rest_send`, whose state bits are the fields of `Rest`; Libc/Hex is the `strtoul` at
-- base 16 that they use.
--
-- Fix is src/fix.c, with `fix_render` and `fix_parse` and the static variables as a record. Okfix is
-- src/okfix.c: `beef_cb` with the messages that it sends, and the loop of `main` over the
-- iterations of the event loop in each connection (`connections`): `ev_run` calls every callback that is
-- pending in an iteration, those behind the one that ends the loop too. The log of the hello and of the
-- goodbye is left out. The format of the clock is an argument.
--
-- Output is what converters print: lines, or an access outside of an array, with the buffer of 256
-- octets that each line is put together in. Json is the tokens that jsmn makes of a text, and
-- Json/Levels the loop over an array of levels that src/cex2b.c and src/btsp2b.c share. Slots is the
-- slots of 16 octets that hold the names of instruments. Each loop of a converter that is recursion on
-- fuel takes an octet or a token in each round, so that their count is fuel enough.
--
-- Bitfin is src/bitfin2b.c: the tables and `subscr`, and in Bitfin/Event `evtbok`, `evttop`, `evttra`,
-- `events`, `procln` and the loop of `main`. Bitfin/Levels has the levels of a book as an abstract
-- list, its text and its lines. Quotes is src/ok2b.c: `route_quote` and `procln` over what `fix_parse`
-- leaves, with Quotes/Entries for the entries of a message as a list; `strptime` with `timegm` is an
-- argument. Cex is `procln` of src/cex2b.c, its scan of the tokens and its printing of a book; Btsp is
-- src/btsp2b.c, with `snarf_chan`, `snarf_ins` and `procln`; Trt is `proc_obk`, `proc_odf` and `procln`
-- of src/trt2b.c. Btcc is `route_quote` and `procln` of src/btcc2b.c, over the fields of Quotes, with
-- Btcc/Offers for the entries of a message as a list.
--
-- Plx is the converter src/plx2b.c: its tables (`subscr`, `subscd`, `strtoins`), and Plx/Event is
-- `events`, `procln` and the loop of `main`. What jsmn makes of a line, the hash of a text, and the
-- tokens that earlier lines have left in the array are arguments. A round of the loop over the events
-- goes on by a token at least, so that the length of the array is fuel enough.
--
-- Digits are printed with the number itself as fuel, which is never less than the count of its
-- digits. A host is little-endian, as the bit fields of the frame header want it.
--
-- Not modelled: sockets, TLS and libev, which are the environment; the command lines; the copies of
-- jsmn, of a hash function and of tinf, which are arguments where the code calls them; the front ends
-- that fill in the hooks of one exchange; the other FIX and websocket clients; and the converters
-- beyond what is named above.
pub mod Prelude
pub mod Libc
pub mod Output
pub mod Json
pub mod Slots
pub mod Search
pub mod Clock
pub mod Snarf
pub mod Ws
pub mod Fix
pub mod Okfix
pub mod Plx
pub mod Bitfin
pub mod Quotes
pub mod Cex
pub mod Btsp
pub mod Trt
pub mod Btcc
pub mod Tests
