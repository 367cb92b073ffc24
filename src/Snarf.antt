-- ===== src/Snarf.antt =====
-- The websocket snarfer (src/wssnarf.c): the state of a channel, and what its handlers do.
-- libev, the sockets and the hooks that each exchange defines are the environment: what they
-- answer is an argument of the handlers, and what is asked of them is a list of actions.
pub mod Log
pub mod Prepare
pub mod Receive
pub mod Events
pub use coins.Ws.{Proto}
use coins.Prelude.{◌+◌, length, ℕ, Option, none, some, Bool, true, false, List, Bytes}

-- `coin_st_t`
pub data State : Type 0 where
  unk conn connd auth authd join joind nodata intr fini : State

-- What a hook answers: less than zero, zero, more than zero.
pub data Reply : Type 0 where
  failed waiting succeeded : Reply

-- The hooks and connections of one channel, in the order in which they are used.
pub data Action : Type 0 where
  opened : Proto → Action
  closed : Action
  called_conn called_auth called_join : Action
  broke : Action

-- `wssnarf_s` at one index. Times are in whole seconds, as every binary sets `max_inact`.
-- `size` is `sbuf[idx].z`, and `text` what the buffer holds from INI_GBOF on, so that `sbuf[idx].n`
-- is INI_GBOF and the length of the text: a channel is read only once `prepare` has set it so.
pub record Channel : Type 0 where
  pub ws : Option Proto
  pub st : State
  pub max_inact : ℕ
  pub inflate : Bool
  pub last_act : ℕ
  pub size : ℕ
  pub text : Bytes

-- INI_GBOF
abbrev pub ini_gbof : ℕ
ini_gbof = 21

-- What the environment answers while one channel is prepared.
pub record Replies : Type 0 where
  pub ws_open : Option Proto
  pub conn_coin : Reply
  pub auth_coin : Reply
  pub join_coin : Reply

-- `ws_proto(ws) == WS_PROTO_REST`, asked only where `ws` is no NULL.
abbrev pub is_rest : Option Proto → Bool
is_rest (some Proto.rest) = true
is_rest _ = false

-- `sbuf[idx].n`
abbrev pub fill : Channel → ℕ
fill c = ini_gbof + length c.text
