-- ===== src/Snarf/Prepare.antt =====
-- `prepare`, `open_coin` and `fini_coin`: what is done before the loop waits for events. The cases
-- of the switch fall through, so that each is a function that ends in the next.
pub mod Safety
use coins.Prelude.{
  ℕ, zero, suc, ◌+◌, Option, none, some, Bool, true, false, List, [], ◌∷◌, ◌++◌, ltb, if◌then◌else◌,
}
use coins.Snarf.{
  State, conn, connd, auth, authd, join, joind, fini, Proto, Reply, failed, waiting, succeeded,
  Action, opened, closed, called_conn, called_auth, called_join, broke, Channel, Replies, is_rest,
}

-- `fini_coin`, with the NULL that it leaves.
unfoldable pub fini_coin : Option Proto → List Action
fini_coin none = []
fini_coin (some p) = closed ∷ []

-- From `disc` on: disconnect and unroll.
unfoldable pub disconnect : Channel → Channel × List Action
unfolding fini_coin
disconnect c = (record c { ws = none; st = fini }, fini_coin c.ws ++ broke ∷ [])

abbrev pub note : Action → Channel × List Action → Channel × List Action
note a r = (r.0, a ∷ r.1)

-- `now` is the global `tsp`, which the log functions set.
unfoldable pub at_joind : ℕ → Channel → Channel × List Action
unfolding disconnect
at_joind now c =
    if is_rest c.ws
    then (c, [])
    else if ltb now (c.last_act + c.max_inact)
    then (c, [])
    else disconnect c

unfoldable pub on_join_coin : ℕ → Reply → Channel → Channel × List Action
unfolding at_joind
on_join_coin now failed c = (record c { st = authd }, [])
on_join_coin now waiting c = (c, [])
on_join_coin now succeeded c = at_joind now (record c { st = joind })

unfoldable pub at_join : ℕ → Replies → Channel → Channel × List Action
unfolding on_join_coin
at_join now r c =
    if is_rest c.ws
    then at_joind now (record c { st = joind })
    else note called_join (on_join_coin now r.join_coin c)

unfoldable pub at_authd : ℕ → Replies → Channel → Channel × List Action
unfolding at_join
at_authd now r c = at_join now r (record c { text = []; st = join })

unfoldable pub on_auth_coin : ℕ → Replies → Reply → Channel → Channel × List Action
unfolding at_authd
on_auth_coin now r failed c = (record c { st = connd }, [])
on_auth_coin now r waiting c = (c, [])
on_auth_coin now r succeeded c = at_authd now r c

unfoldable pub at_auth : ℕ → Replies → Channel → Channel × List Action
unfolding on_auth_coin
at_auth now r c =
    if is_rest c.ws then at_authd now r c else note called_auth (on_auth_coin now r r.auth_coin c)

unfoldable pub at_connd : ℕ → Replies → Channel → Channel × List Action
unfolding at_auth
at_connd now r c = at_auth now r (record c { text = []; st = auth })

unfoldable pub on_conn_coin : ℕ → Replies → Reply → Channel → Channel × List Action
unfolding at_connd disconnect
on_conn_coin now r failed c = disconnect c
on_conn_coin now r waiting c = (c, [])
on_conn_coin now r succeeded c = at_connd now r c

unfoldable pub at_conn : ℕ → Replies → Channel → Channel × List Action
unfolding on_conn_coin
at_conn now r c = note called_conn (on_conn_coin now r r.conn_coin c)

-- `open_coin` answers -1 with `ws` at NULL where the connection cannot be made; `ws_open` gives no
-- protocol but the five.
unfoldable pub on_open : ℕ → Replies → Option Proto → Channel → Channel × List Action
unfolding at_conn disconnect
on_open now r none c = disconnect (record c { ws = none })
on_open now r (some p) c =
    note (opened p) (at_conn now r (record c { ws = some p; st = conn; last_act = now; text = [] }))

unfoldable pub prepare_in : ℕ → Replies → State → Channel → Channel × List Action
unfolding on_open
prepare_in now r State.unk c = on_open now r r.ws_open c
prepare_in now r State.conn c = at_conn now r c
prepare_in now r State.connd c = at_connd now r c
prepare_in now r State.auth c = at_auth now r c
prepare_in now r State.authd c = at_authd now r c
prepare_in now r State.join c = at_join now r c
prepare_in now r State.joind c = at_joind now c
prepare_in now r State.nodata c = disconnect c
prepare_in now r State.intr c = disconnect c
prepare_in now r State.fini c = (c, broke ∷ [])

-- One round of the loop.
unfoldable pub prepare_channel : ℕ → Replies → Channel → Channel × List Action
unfolding prepare_in
prepare_channel now r c = prepare_in now r c.st c

-- All channels; the body is run at least once. `rs` holds the answers for each.
unfoldable pub prepare_more : ℕ → ℕ → List Replies → List Channel → List Channel × List Action
prepare_more left now rs [] = ([], [])
prepare_more left now [] (c ∷ cs) = (c ∷ cs, [])
prepare_more zero now (r ∷ rs) (c ∷ cs) =
    let here = prepare_channel now r c in (here.0 ∷ cs, here.1)
prepare_more (suc left) now (r ∷ rs) (c ∷ cs) =
    let here = prepare_channel now r c in
    let more = prepare_more left now rs cs in (here.0 ∷ more.0, here.1 ++ more.1)
