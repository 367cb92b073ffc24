-- ===== src/Snarf/Events/Reachable.antt =====
-- A channel is sound whatever has happened to it.
use coins.Prelude.{
  ℕ, ◌≡◌, refl, Option, none, some, Bool, true, false, List, [], ◌∷◌, ◌++◌, Bytes, ◌+◌, ◌*◌, ◌==◌,
  ltb, leb, length, arith, if◌then◌else◌,
}
use mathlib.Core.Path.{subst}
use coins.Snarf.{State, Reply, failed, waiting, succeeded, Channel, Replies, ini_gbof, fill}
use coins.Snarf.Prepare.{prepare_channel}
use coins.Snarf.Log.{Timespec, logwss}
use coins.Snarf.Prepare.Safety.{
  live, IsSound, IsSettled, prepare-IsSettled, prepare-IsSound, count, is_break, stops,
}
use coins.Snarf.Receive.{
  Hooks, Result, kept, unrolled, fault, grow, log_text, on_inflated, inflate_read, log_or_inflate,
  log_and_unroll, on_reply, ws_switch, ws_cb, sio3_log, sio3_cb, rest_cb,
}
use coins.Snarf.Events.{
  Param, new_channel, hbeat_cb, Step, prepared, read_ws, read_sio3, broke_ws, broke_sio3, read_rest,
  beat, interrupted, Reach, here, next,
}

-- The channel that a callback keeps is sound.
abbrev KeepsSound : Result → Type 0
KeepsSound (kept c infz lines sent) = IsSound c.st c.ws
KeepsSound (unrolled c infz lines sent) = IsSound c.st c.ws
KeepsSound fault = Unit

if-KeepsSound :
    (b : Bool) (x y : Result) → KeepsSound x → KeepsSound y → KeepsSound (if b then x else y)
if-KeepsSound true x y h j = h
if-KeepsSound false x y h j = j

module _ (k : Hooks) (t : Timespec) (infz : ℕ) where
  log_text-KeepsSound :
      (sent : List Bytes) (n : ℕ) (c : Channel)
      → IsSound c.st c.ws
      → KeepsSound (log_text k t sent n c)
  unfolding log_text
  log_text-KeepsSound sent n c h = ground arith

  on_inflated-KeepsSound :
      (n : ℕ) (c : Channel) (before : Bytes) (o : Option Bytes)
      → IsSound c.st c.ws
      → KeepsSound (on_inflated k t n c before o)
  unfolding on_inflated
  on_inflated-KeepsSound n c before none h = h
  on_inflated-KeepsSound n c before (some out) h =
      log_text-KeepsSound [] n
        (let xn = ini_gbof + length before in
          record c {
            text = before ++ out;
            size = if leb c.size (xn + length out) then xn + length out + c.size else c.size;
          })
        h

  inflate_read-KeepsSound :
      (old read : Bytes) (c : Channel)
      → IsSound c.st c.ws
      → KeepsSound (inflate_read k t infz c old read)
  unfolding inflate_read
  inflate_read-KeepsSound old [] c h = tt
  inflate_read-KeepsSound old (d ∷ read) c h =
      let infz' : ℕ = if ltb infz (10 * fill c) then 10 * fill c else infz in
      if-KeepsSound (d == b'\n')
        (on_inflated k t infz' c (old ++ d ∷ []) (k.tinf_uncompress infz' read))
        (on_inflated k t infz' c old (k.tinf_uncompress infz' (d ∷ read)))
        (on_inflated-KeepsSound infz' c (old ++ d ∷ []) (k.tinf_uncompress infz' read) h)
        (on_inflated-KeepsSound infz' c old (k.tinf_uncompress infz' (d ∷ read)) h)

  log_or_inflate-KeepsSound :
      (old read : Bytes) (c : Channel)
      → IsSound c.st c.ws
      → KeepsSound (log_or_inflate k t infz old read c)
  unfolding log_or_inflate
  log_or_inflate-KeepsSound old read c h =
      if-KeepsSound c.inflate (inflate_read k t infz c old read) (log_text k t [] infz c)
        (inflate_read-KeepsSound old read c h) (log_text-KeepsSound [] infz c h)

  log_and_unroll-KeepsSound :
      (old read beyond : Bytes) (c : Channel)
      → IsSound c.st c.ws
      → KeepsSound (log_and_unroll k t infz old read beyond c)
  unfolding log_and_unroll
  log_and_unroll-KeepsSound old read beyond c h = ground arith

  on_reply-KeepsSound :
      (log unroll : Channel → Result) (s : State) (reply : Reply) (c : Channel)
      → KeepsSound (log c)
      → KeepsSound (log (record c { st = s }))
      → KeepsSound (unroll c)
      → KeepsSound (on_reply log unroll s reply c)
  unfolding on_reply
  on_reply-KeepsSound log unroll s failed c h m u = u
  on_reply-KeepsSound log unroll s waiting c h m u = h
  on_reply-KeepsSound log unroll s succeeded c h m u = m

  -- On a channel that holds a connection, the switch keeps it sound.
  switch-KeepsSound :
      (log unroll : Channel → Result) (s : State) (c : Channel)
      → IsSound s c.ws
      → live c.ws ≡ 1
      → ((s' : State) → IsSound s' c.ws → KeepsSound (log (record c { st = s' })))
      → ((s' : State) → IsSound s' c.ws → KeepsSound (unroll (record c { st = s' })))
      → c.st ≡ s
      → KeepsSound (ws_switch k log unroll infz s c)
  unfolding ws_switch
  switch-KeepsSound log unroll State.unk c h on l u e =
      on_reply-KeepsSound log unroll State.connd (k.connd_coin c.text)
        (record c { st = State.conn }) (l State.conn on) (l State.connd on) (u State.conn on)
  switch-KeepsSound log unroll State.conn c h on l u e =
      on_reply-KeepsSound log unroll State.connd (k.connd_coin c.text) c (l c.st (rw e on))
        (l State.connd on) (u c.st (rw e on))
  switch-KeepsSound log unroll State.connd c h on l u e = l c.st (rw e on)
  switch-KeepsSound log unroll State.auth c h on l u e =
      on_reply-KeepsSound log unroll State.authd (k.authd_coin c.text) c (l c.st (rw e on))
        (l State.authd on) (u c.st (rw e on))
  switch-KeepsSound log unroll State.authd c h on l u e = l c.st (rw e on)
  switch-KeepsSound log unroll State.join c h on l u e =
      on_reply-KeepsSound log unroll State.joind (k.joind_coin c.text) c (l c.st (rw e on))
        (l State.joind on) (u c.st (rw e on))
  switch-KeepsSound log unroll State.joind c h on l u e = l c.st (rw e on)
  switch-KeepsSound log unroll State.nodata c h on l u e = rw e h
  switch-KeepsSound log unroll State.intr c h on l u e = rw e h
  switch-KeepsSound log unroll State.fini c h on l u e = rw e h

  sio3_log-KeepsSound :
      (s : State) (c : Channel) → IsSound c.st c.ws → KeepsSound (sio3_log k t infz s c)
  unfolding sio3_log
  sio3_log-KeepsSound State.unk c h = log_text-KeepsSound _ infz c h
  sio3_log-KeepsSound _ c h = log_text-KeepsSound _ infz c h

  grow_same : (n : ℕ) (c : Channel) → ((grow n c).st ≡ c.st) × ((grow n c).ws ≡ c.ws)
  unfolding grow
  grow_same n c = ground arith

  grow-IsSound : (n : ℕ) (c : Channel) → IsSound c.st c.ws → IsSound (grow n c).st (grow n c).ws
  unfolding grow
  grow-IsSound n c h = ground arith

  live-grow : (n : ℕ) (c : Channel) → live c.ws ≡ 1 → live (grow n c).ws ≡ 1
  unfolding grow
  live-grow n c h = ground arith

  ws_cb-KeepsSound :
      (beyond : Bytes) (read : Option Bytes) (c : Channel)
      → IsSound c.st c.ws
      → live c.ws ≡ 1
      → KeepsSound (ws_cb k t infz beyond read c)
  unfolding ws_cb
  ws_cb-KeepsSound beyond none c h on = grow-IsSound 4000 c h
  ws_cb-KeepsSound beyond (some read) c h on =
      let g = grow 4000 c in
      switch-KeepsSound (log_or_inflate k t infz g.text read)
        (log_and_unroll k t infz g.text read beyond) g.st (record g { text = g.text ++ read })
        (grow-IsSound 4000 c h) (live-grow 4000 c on)
        (λ s' i.
          log_or_inflate-KeepsSound g.text read (record g { text = g.text ++ read; st = s' }) i)
        (λ s' i.
          log_and_unroll-KeepsSound g.text read beyond (record g { text = g.text ++ read; st = s' })
            i)
        refl

  sio3_cb-KeepsSound :
      (beyond : Bytes) (read : Option Bytes) (c : Channel)
      → IsSound c.st c.ws
      → live c.ws ≡ 1
      → KeepsSound (sio3_cb k t infz beyond read c)
  unfolding sio3_cb
  sio3_cb-KeepsSound beyond none c h on = grow-IsSound 4000 c h
  sio3_cb-KeepsSound beyond (some read) c h on =
      let g = grow 4000 c in
      switch-KeepsSound (sio3_log k t infz g.st) (log_and_unroll k t infz g.text read beyond) g.st
        (record g { text = g.text ++ read }) (grow-IsSound 4000 c h) (live-grow 4000 c on)
        (λ s' i. sio3_log-KeepsSound g.st (record g { text = g.text ++ read; st = s' }) i)
        (λ s' i.
          log_and_unroll-KeepsSound g.text read beyond (record g { text = g.text ++ read; st = s' })
            i)
        refl

  rest_cb-KeepsSound :
      (read : Option Bytes) (c : Channel) → IsSound c.st c.ws → KeepsSound (rest_cb k t infz read c)
  unfolding rest_cb
  rest_cb-KeepsSound none c h = refl
  rest_cb-KeepsSound (some read) c h =
      let g = grow 4096 c in
      if-KeepsSound (leb (ini_gbof + length (g.text ++ read) + ini_gbof) g.size)
        (kept (record g { text = (logwss k.massage t (g.text ++ read)).1 }) infz
          (logwss k.massage t (g.text ++ read)).0 [])
        fault (grow-IsSound 4096 c h) tt

Step-IsSound : {c d : Channel} → Step c d → IsSound c.st c.ws → IsSound d.st d.ws
unfolding hbeat_cb
Step-IsSound {c} (prepared now r) h = prepare-IsSound now r c h
Step-IsSound {c} (read_ws k t infz beyond read on e) h =
    subst KeepsSound e (ws_cb-KeepsSound k t infz beyond read c h on)
Step-IsSound {c} (read_sio3 k t infz beyond read on e) h =
    subst KeepsSound e (sio3_cb-KeepsSound k t infz beyond read c h on)
Step-IsSound {c} (broke_ws k t infz beyond read on e) h =
    subst KeepsSound e (ws_cb-KeepsSound k t infz beyond read c h on)
Step-IsSound {c} (broke_sio3 k t infz beyond read on e) h =
    subst KeepsSound e (sio3_cb-KeepsSound k t infz beyond read c h on)
Step-IsSound {c} (read_rest k t infz read on e) h =
    subst KeepsSound e (rest_cb-KeepsSound k t infz read c h)
Step-IsSound (beat t refused) h = ground arith
Step-IsSound interrupted h = tt

steps-IsSound : {c d : Channel} → Reach c d → IsSound c.st c.ws → IsSound d.st d.ws
steps-IsSound here h = h
steps-IsSound (next r s) h = Step-IsSound s (steps-IsSound r h)

-- After any rounds, reads, heartbeats and interrupts from its registration on, those that break the
-- loop included, a channel holds a connection in the states between opening and disconnecting, and
-- none where it is not opened or done; in the two states in which it is told to stop it may or may
-- not hold one, but any next round of `prepare` leaves it settled, with one sign to break exactly
-- where it stops.
pub Reach-IsSound :
    (p : Param) {c : Channel} (now : ℕ) (r : Replies)
    → Reach (new_channel p) c
    → IsSound c.st c.ws
      × IsSettled (prepare_channel now r c).0.st (prepare_channel now r c).0.ws
      × (count is_break (prepare_channel now r c).1 ≡ stops (prepare_channel now r c).0.st)
unfolding new_channel
Reach-IsSound p {c} now r reached =
    let sound = steps-IsSound reached refl in
    let settled = prepare-IsSettled now r c sound in (sound, settled.0, settled.1)
