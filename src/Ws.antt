-- ===== src/Ws.antt =====
-- The websocket client (src/ws.c): frames sent and received, the URLs that it opens, and replies of
-- HTTP. Sockets and TLS are the environment. The host is little-endian, as the bit fields of
-- `wsfr_t` want it.
pub mod Frames
pub mod Receive
pub mod Url
pub mod Open
pub mod Rest

-- `ws_proto_t`
pub data Proto : Type 0 where
  raw wamp sio1 sio3 rest : Proto
