-- ===== src/Snarf/Receive/Bounds.antt =====
-- The receive buffer: the room that is made before a read, and which reads stay in bounds.
use coins.Prelude.{
  ℕ, zero, suc, ◌+◌, ◌*◌, ◌≤◌, ◌<◌, ◌≡◌, ◌⊎◌, Option, none, some, Bool, false, List, [], ◌∷◌, ◌++◌,
  Bytes, length, length-append, ◌∙◌, sym, if◌then◌else◌, arith, ap, inl, inr, Option-cases, drop,
  length-drop,
}
use coins.Snarf.{State, Reply, failed, waiting, succeeded, Channel, fill}
use mathlib.Core.Path.{subst}
use coins.Libc.{memchr}
use coins.Snarf.Log.{Timespec, hrclock_print, on_line, log_lines, logwss}
use coins.Snarf.Receive.{
  Hooks, Result, kept, unrolled, fault, grow, log_text, log_and_unroll, on_reply, ws_switch,
  inflate_read, log_or_inflate, ws_cb,
}

-- The text is inside the buffer, which is not there at first and has 4096 octets or more later.
abbrev pub IsFitting : Channel → Type 0
IsFitting c = ((c.size ≡ 0) × (c.text ≡ [])) ⊎ ((4096 ≤ c.size) × (fill c ≤ c.size))

abbrev IsRoomy : Channel → Type 0
IsRoomy c = (4096 ≤ c.size) × (fill c + 4000 ≤ c.size)

-- After the growth there is room for 4000 octets, and nothing else has changed.
pub grow_room :
    (c : Channel)
    → IsFitting c
    → (4096 ≤ (grow 4000 c).size)
      × (fill (grow 4000 c) + 4000 ≤ (grow 4000 c).size)
      × (c.size ≤ (grow 4000 c).size)
      × (grow 4000 c ≡ record c { size = (grow 4000 c).size })
unfolding grow
grow_room c (inl (z, e)) = ground (arith, ap length e)
grow_room c (inr (big, fits)) = ground arith

memchr-length :
    (n : ℕ) (s : Bytes) {before rest : Bytes}
    → memchr n s ≡ some (before, rest)
    → length rest ≤ length s
unfolding memchr
memchr-length n [] h = cc
memchr-length n (c ∷ s) h = elim (Option-cases (memchr n s)) [
  | inl e ↦ ground arith
  | inr ((b, r), e) ↦ ground (arith, memchr-length n s e)
]

log_lines-length :
    (record_of : Bytes → Bytes) (fuel : ℕ) (s : Bytes)
    → length (log_lines record_of fuel s).1 ≤ length s
unfolding log_lines
log_lines-length record_of zero s = omega arith
log_lines-length record_of (suc fuel) s = elim (Option-cases (memchr b'\n' s)) [
  | inl e ↦ rw (e, on_line) (omega arith)
  | inr ((b, r), e) ↦
      rw (e, on_line)
        (omega (
          arith,
          memchr-length b'\n' s e,
          log_lines-length record_of fuel (drop 1 r),
          length-drop {0} 1 r,
        ))
]

pub logwss-length :
    (massage : Bytes → Bytes) (t : Timespec) (s : Bytes) → length (logwss massage t s).1 ≤ length s
unfolding logwss
logwss-length massage t s =
    log_lines-length (λ line. hrclock_print t ++ b'\t' ∷ massage line) (length s) s

-- The result is no fault, and its channel fits.
abbrev pub IsSafe : Result → Type 0
IsSafe (kept c infz lines sent) = IsFitting c
IsSafe (unrolled c infz lines sent) = IsFitting c
IsSafe fault = ⊥

abbrev pub size_of : Option Bytes → ℕ
size_of none = 0
size_of (some read) = length read

module _ (k : Hooks) (t : Timespec) (infz : ℕ) where
  log_text-IsSafe :
      (sent : List Bytes) (c : Channel)
      → 4096 ≤ c.size
      → fill c + 21 ≤ c.size
      → IsSafe (log_text k t sent infz c)
  unfolding log_text
  log_text-IsSafe sent c big fits = ground (arith, logwss-length k.massage t c.text)

  log_or_inflate-IsSafe :
      (old read : Bytes) (c : Channel)
      → c.inflate ≡ false
      → 4096 ≤ c.size
      → fill c + 21 ≤ c.size
      → IsSafe (log_or_inflate k t infz old read c)
  unfolding log_or_inflate
  log_or_inflate-IsSafe old read c plain big fits =
      subst IsSafe
        (sym (
          ap (λ (b : Bool). if b then inflate_read k t infz c old read else log_text k t [] infz c)
            plain))
        (log_text-IsSafe [] c big fits)

  log_and_unroll-IsSafe :
      (old read beyond : Bytes) (c : Channel)
      → 4096 ≤ c.size
      → fill c + length read ≤ c.size
      → length old ≤ length c.text
      → IsSafe (log_and_unroll k t infz old read beyond c)
  unfolding log_and_unroll
  log_and_unroll-IsSafe old read beyond c big fits less = ground arith

  on_reply-IsSafe :
      (log unroll : Channel → Result) (next : State) (reply : Reply) (c : Channel)
      → IsSafe (log c)
      → IsSafe (log (record c { st = next }))
      → IsSafe (unroll c)
      → IsSafe (on_reply log unroll next reply c)
  unfolding on_reply
  on_reply-IsSafe log unroll next failed c h m u = u
  on_reply-IsSafe log unroll next waiting c h m u = h
  on_reply-IsSafe log unroll next succeeded c h m u = m

  -- The switch ends in one of the two, or drops the text.
  switch-IsSafe :
      (log unroll : Channel → Result) (s : State) (c : Channel)
      → 4096 ≤ c.size
      → ((s' : State) → IsSafe (log (record c { st = s' })))
      → ((s' : State) → IsSafe (unroll (record c { st = s' })))
      → IsSafe (ws_switch k log unroll infz s c)
  unfolding ws_switch
  switch-IsSafe log unroll State.unk c big h u =
      on_reply-IsSafe log unroll State.connd (k.connd_coin c.text) (record c { st = State.conn })
        (h State.conn) (h State.connd) (u State.conn)
  switch-IsSafe log unroll State.conn c big h u =
      on_reply-IsSafe log unroll State.connd (k.connd_coin c.text) c (h c.st) (h State.connd)
        (u c.st)
  switch-IsSafe log unroll State.connd c big h u = h c.st
  switch-IsSafe log unroll State.auth c big h u =
      on_reply-IsSafe log unroll State.authd (k.authd_coin c.text) c (h c.st) (h State.authd)
        (u c.st)
  switch-IsSafe log unroll State.authd c big h u = h c.st
  switch-IsSafe log unroll State.join c big h u =
      on_reply-IsSafe log unroll State.joind (k.joind_coin c.text) c (h c.st) (h State.joind)
        (u c.st)
  switch-IsSafe log unroll State.joind c big h u = h c.st
  switch-IsSafe log unroll _ c big h u = inr (big, omega arith)

  -- A read of at most 1979 octets, on a channel that does not inflate, stays in bounds in every
  -- state, whatever the hooks answer, and the buffer fits again. So does a failed read.
  pub ws_cb-IsSafe :
      (beyond : Bytes) (read : Option Bytes) (c : Channel)
      → IsFitting c
      → c.inflate ≡ false
      → size_of read ≤ 1979
      → IsSafe (ws_cb k t infz beyond read c)
  unfolding ws_cb
  ws_cb-IsSafe beyond none c fits plain small =
      let room = grow_room c fits in inr (room.0, omega (arith, room))
  ws_cb-IsSafe beyond (some read) c fits plain small =
      let room = grow_room c fits in
      let g = grow 4000 c in
      let whole : length (g.text ++ read) ≡ length g.text + length read =
        length-append g.text read in
      switch-IsSafe (log_or_inflate k t infz g.text read)
        (log_and_unroll k t infz g.text read beyond) g.st (record g { text = g.text ++ read })
        room.0
        (λ s'.
          log_or_inflate-IsSafe g.text read (record g { text = g.text ++ read; st = s' })
            (ap (λ (d : Channel). d.inflate) room.3 ∙ plain) room.0 (omega arith))
        (λ s'.
          log_and_unroll-IsSafe g.text read beyond (record g { text = g.text ++ read; st = s' })
            room.0 (omega arith) (omega arith))

-- Where a hook refuses a read that fills more than half of the room, as much again is logged from
-- behind the buffer.
pub ws_cb_refused_overrun :
    (k : Hooks) (t : Timespec) (infz : ℕ) (beyond read : Bytes) (c : Channel)
    → c.st ≡ State.auth
    → k.authd_coin (c.text ++ read) ≡ failed
    → fill c + 4000 ≤ c.size
    → c.size < fill c + 2 * length read
    → ws_cb k t infz beyond (some read) c ≡ fault
unfolding ws_cb
ws_cb_refused_overrun k t infz beyond read c st refused room full =
    ground (arith, length-append c.text read)
