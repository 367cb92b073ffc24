-- ===== src/Snarf/Events.antt =====
-- The other callbacks of src/wssnarf.c, registration, and every order in which one channel may see
-- them: libev calls `prepare` before it waits, and a reader only while its watcher is started,
-- which is while the channel holds a connection.
pub mod Reachable
use coins.Prelude.{
  ℕ, zero, suc, ◌+◌, ◌<◌, ◌^◌, ◌≡◌, Option, none, some, Bool, true, false, List, [], ◌∷◌, ◌++◌,
  Bytes, length, ltb, leb, ◌==◌, ◌||◌, if◌then◌else◌,
}
use coins.Snarf.{State, Proto, Channel, Replies}
use coins.Snarf.Log.{Timespec}
use coins.Snarf.Prepare.{prepare_channel}
use coins.Snarf.Prepare.Safety.{live}
use coins.Snarf.Receive.{Hooks, kept, unrolled, ws_cb, sio3_cb, rest_cb}

-- `wssnarf_param_t`, with whole seconds.
pub record Param : Type 0 where
  pub max_inact : ℕ
  pub inflate : Bool

-- A channel as `calloc` and `add_wssnarf` leave it. With no limit given the limit is 1e48.
unfoldable pub new_channel : Param → Channel
new_channel p = record {
  ws = none;
  st = State.unk;
  max_inact = if p.max_inact == 0 then 10 ^ 48 else p.max_inact;
  inflate = p.inflate;
  last_act = 0;
  size = 0;
  text = [];
}

-- There is room for four channels; `none` is the write behind them.
unfoldable pub add_wssnarf : Param → List Channel → Option (List Channel)
unfolding new_channel
add_wssnarf p cs = if ltb (length cs) 4 then some (cs ++ new_channel p ∷ []) else none

-- `hbeat_cb`, with whether the hook's answer is less than zero.
unfoldable pub hbeat_cb : Timespec → Bool → Channel → Channel
hbeat_cb t refused c =
    if refused || ltb (c.last_act + c.max_inact) t.tv_sec then record c { st = State.nodata } else c

-- `sigint_cb`
unfoldable pub sigint_cb : List Channel → List Channel
sigint_cb [] = []
sigint_cb (c ∷ cs) = record c { st = State.intr } ∷ sigint_cb cs

-- One event, as it is seen by one channel. A read that breaks the loop leaves the channel to the
-- callbacks that are pending behind it.
pub data Step (c : Channel) : Channel → Type 0 where
  prepared : (now : ℕ) (r : Replies) → Step c (prepare_channel now r c).0
  read_ws :
      (k : Hooks) (t : Timespec) (infz : ℕ) (beyond : Bytes) (read : Option Bytes) {c' : Channel}
      {infz' : ℕ} {lines sent : List Bytes}
      → live c.ws ≡ 1
      → ws_cb k t infz beyond read c ≡ kept c' infz' lines sent
      → Step c c'
  read_sio3 :
      (k : Hooks) (t : Timespec) (infz : ℕ) (beyond : Bytes) (read : Option Bytes) {c' : Channel}
      {infz' : ℕ} {lines sent : List Bytes}
      → live c.ws ≡ 1
      → sio3_cb k t infz beyond read c ≡ kept c' infz' lines sent
      → Step c c'
  broke_ws :
      (k : Hooks) (t : Timespec) (infz : ℕ) (beyond : Bytes) (read : Option Bytes) {c' : Channel}
      {infz' : ℕ} {lines sent : List Bytes}
      → live c.ws ≡ 1
      → ws_cb k t infz beyond read c ≡ unrolled c' infz' lines sent
      → Step c c'
  broke_sio3 :
      (k : Hooks) (t : Timespec) (infz : ℕ) (beyond : Bytes) (read : Option Bytes) {c' : Channel}
      {infz' : ℕ} {lines sent : List Bytes}
      → live c.ws ≡ 1
      → sio3_cb k t infz beyond read c ≡ unrolled c' infz' lines sent
      → Step c c'
  read_rest :
      (k : Hooks) (t : Timespec) (infz : ℕ) (read : Option Bytes) {c' : Channel} {infz' : ℕ}
      {lines sent : List Bytes}
      → live c.ws ≡ 1
      → rest_cb k t infz read c ≡ kept c' infz' lines sent
      → Step c c'
  beat : (t : Timespec) (refused : Bool) → Step c (hbeat_cb t refused c)
  interrupted : Step c (record c { st = State.intr })

pub data Reach (c : Channel) : Channel → Type 0 where
  here : Reach c c
  next : {d e : Channel} → Reach c d → Step d e → Reach c e
