-- ===== src/Snarf/Prepare/Safety.antt =====
-- What one round of `prepare` keeps: connections, states, and the sign to stop.
use coins.Prelude.{ℕ, ◌+◌, ◌≤◌, ◌<◌, ◌≡◌, Option, none, some, List, [], ◌∷◌, arith}
use coins.Snarf.{
  State, Proto, succeeded, Action, opened, closed, called_auth, called_join, broke, Channel,
  Replies,
}
use coins.Snarf.Prepare.{prepare_channel}

-- A connection that is held counts one.
abbrev pub live : Option Proto → ℕ
live none = 0
live (some p) = 1

-- A channel holds a connection exactly in the states between opening and disconnecting. A channel
-- that is told to stop may or may not hold one.
abbrev pub IsSound : State → Option Proto → Type 0
IsSound State.unk ws = ws ≡ none
IsSound State.fini ws = ws ≡ none
IsSound State.nodata ws = Unit
IsSound State.intr ws = Unit
IsSound _ ws = live ws ≡ 1

abbrev pub is_opening : Action → ℕ
is_opening (opened p) = 1
is_opening _ = 0

abbrev pub is_closing : Action → ℕ
is_closing closed = 1
is_closing _ = 0

abbrev pub is_break : Action → ℕ
is_break broke = 1
is_break _ = 0

abbrev pub count : (Action → ℕ) → List Action → ℕ
count f [] = 0
count f (a ∷ as') = f a + count f as'

abbrev pub stops : State → ℕ
stops State.fini = 1
stops _ = 0

-- Where a round leaves a channel: connected and on its way, or stopped with no connection.
abbrev pub IsSettled : State → Option Proto → Type 0
IsSettled State.unk ws = ⊥
IsSettled State.nodata ws = ⊥
IsSettled State.intr ws = ⊥
IsSettled State.fini ws = ws ≡ none
IsSettled _ ws = live ws ≡ 1

-- From a sound channel, whatever the hooks answer, a round ends connected or stopped, and the loop
-- is told to break exactly when it is stopped, once.
pub prepare-IsSettled :
    (now : ℕ) (r : Replies) (c : Channel)
    → IsSound c.st c.ws
    → IsSettled (prepare_channel now r c).0.st (prepare_channel now r c).0.ws
      × (count is_break (prepare_channel now r c).1 ≡ stops (prepare_channel now r c).0.st)
unfolding prepare_channel
prepare-IsSettled now r c h = ground arith

pub prepare-IsSound :
    (now : ℕ) (r : Replies) (c : Channel)
    → IsSound c.st c.ws
    → IsSound (prepare_channel now r c).0.st (prepare_channel now r c).0.ws
unfolding prepare_channel
prepare-IsSound now r c h = ground arith

-- No connection is lost and none is closed twice: those opened and held before are those closed
-- and held after.
pub prepare_conserves :
    (now : ℕ) (r : Replies) (c : Channel)
    → IsSound c.st c.ws
    → live c.ws + count is_opening (prepare_channel now r c).1
      ≡ count is_closing (prepare_channel now r c).1 + live (prepare_channel now r c).0.ws
unfolding prepare_channel
prepare_conserves now r c h = ground arith

abbrev pub is_join_call : Action → ℕ
is_join_call called_join = 1
is_join_call _ = 0

abbrev pub is_auth_call : Action → ℕ
is_auth_call called_auth = 1
is_auth_call _ = 0

-- The states from which a round may join without authenticating first.
abbrev pub is_authenticated : State → ℕ
is_authenticated State.authd = 1
is_authenticated State.join = 1
is_authenticated _ = 0

-- A channel joins only when it has authenticated, in this round or before.
pub join_needs_auth :
    (now : ℕ) (r : Replies) (c : Channel)
    → count is_join_call (prepare_channel now r c).1
      ≤ count is_auth_call (prepare_channel now r c).1 + is_authenticated c.st
unfolding prepare_channel
join_needs_auth now r c = ground arith

-- A REST channel neither authenticates nor joins.
pub rest_calls_none :
    (now : ℕ) (r : Replies) (c : Channel)
    → (prepare_channel now r c).0.ws ≡ some Proto.rest
    → count is_join_call (prepare_channel now r c).1
        + count is_auth_call (prepare_channel now r c).1
      ≡ 0
unfolding prepare_channel
rest_calls_none now r c h = ground arith

-- Where every hook succeeds, one round takes a closed channel all the way to JOIND.
pub prepare_joins :
    (now : ℕ) (p : Proto) (r : Replies) (c : Channel)
    → c.st ≡ State.unk
    → 0 < c.max_inact
    → r.ws_open ≡ some p
    → r.conn_coin ≡ succeeded
    → r.auth_coin ≡ succeeded
    → r.join_coin ≡ succeeded
    → ((prepare_channel now r c).0.st ≡ State.joind)
      × ((prepare_channel now r c).0.ws ≡ some p)
      × (count is_break (prepare_channel now r c).1 ≡ 0)
unfolding prepare_channel
prepare_joins now p r c st pos open' conn' auth' join' = ground arith
