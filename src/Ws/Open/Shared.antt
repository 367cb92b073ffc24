-- ===== src/Ws/Open/Shared.antt =====
-- The buffer is there as long as a socket is.
use native.Mathlib.Decide.{dec_lt}
use coins.Prelude.{
  ℕ, zero, suc, ◌+◌, ◌^◌, ◌≤◌, ◌<◌, ◌≡◌, refl, Option, none, some, Bool, true, false, List, [], ◌∷◌,
  Bytes, ◌++◌, length, ltb, All, if◌then◌else◌, ap, sym, ◌∙◌, lt→ltb, not-lt→ltb, Bool-cases, inl,
  inr, arith,
}
use mathlib.Core.Path.{subst}
use coins.Libc.{u64}
use coins.Ws.{Proto}
use coins.Ws.Url.{Target, parse_url}
use coins.Ws.Open.{
  Peer, Buffer, Opening, ws_close, on_init, init, init_request, upgrade, on_sioi, sioi, sio_request,
  written_outside, has_room, sio_session, on_buffer, with_buffer, handshake, on_target, ws_open,
}

-- The count of sockets, with one that was opened.
abbrev pub with_socket : Option Target → ℕ → ℕ
with_socket none n = n
with_socket (some t) n = suc n

-- With `n` sockets open after at most `k` calls.
pub record IsHeld (k n : ℕ) (g : Buffer) : Type 0 where
  pub held : n ≤ g.gbrc
  pub there : 0 < g.gbrc → g.allocated ≡ true
  pub counted : g.gbrc ≤ k
  pub sized : 4096 ≤ g.gbsz → g.allocated ≡ true

-- One socket fewer.
IsHeld-fewer : (k n : ℕ) (g : Buffer) → IsHeld k (suc n) g → IsHeld k n g
IsHeld-fewer k n g h = record {
  held = omega (arith, h.held);
  there = h.there;
  counted = h.counted;
  sized = h.sized;
}

ws_close-IsHeld : (k n : ℕ) (g : Buffer) → k < 2 ^ 64 → IsHeld k (suc n) g → IsHeld k n (ws_close g)
unfolding ws_close
ws_close-IsHeld k n g small h = ground (arith, h.there (omega arith), h.sized)

pub with_buffer-fresh :
    (mallocs b : Bool) (g : Buffer)
    → g.gbsz < 4096
    → mallocs ≡ b
    → with_buffer mallocs g ≡ (record g { gbsz = 4096; allocated = b }, b)
unfolding with_buffer
with_buffer-fresh mallocs b g small e =
    let size : ltb g.gbsz 4096 ≡ true = lt→ltb g.gbsz 4096 small in
    ap
      (λ (c : Bool).
        if c then (record g { gbsz = 4096; allocated = mallocs }, mallocs) else (g, true))
      size
    ∙ ap (λ (c : Bool). (record g { gbsz = 4096; allocated = c }, c)) e

pub with_buffer-old :
    (mallocs : Bool) (g : Buffer) → 4096 ≤ g.gbsz → with_buffer mallocs g ≡ (g, true)
unfolding with_buffer
with_buffer-old mallocs g large =
    let size : ltb g.gbsz 4096 ≡ false = not-lt→ltb g.gbsz 4096 (omega arith) in
    ap
      (λ (c : Bool).
        if c then (record g { gbsz = 4096; allocated = mallocs }, mallocs) else (g, true))
      size

module _ (k n : ℕ) (small : suc k < 2 ^ 64) where
  -- `n` sockets, and the one that is opened.
  abbrev Opens : Buffer × Opening → Type 0
  Opens r = IsHeld (suc k) (with_socket r.1.ws n) r.0

  on_init-Opens :
      (g : Buffer) (t : Target) (sent : List Bytes) (answer : Bool × ℕ)
      → IsHeld (suc k) (suc n) g
      → Opens (on_init g t sent answer)
  unfolding on_init
  on_init-Opens g t sent (true, taken) h = ground (arith, h)
  on_init-Opens g t sent (false, taken) h = ws_close-IsHeld (suc k) n g small h

  -- Where a request finds no room, nothing is opened.
  if_room-Opens :
      (b : Bool) (g : Buffer) (sent : List Bytes) (r : Buffer × Opening)
      → IsHeld (suc k) (suc n) g
      → Opens r
      → Opens (if b then r else (g, written_outside sent))
  if_room-Opens true g sent r h o = o
  if_room-Opens false g sent r h o = IsHeld-fewer (suc k) n g h

  upgrade-Opens :
      (peer : Peer) (g : Buffer) (t : Target) (sent : List Bytes) (rsrc : Bytes)
      → IsHeld (suc k) (suc n) g
      → Opens (upgrade peer g t sent rsrc)
  unfolding upgrade
  upgrade-Opens peer g t sent rsrc h =
      let request = init_request t.proto t.authority rsrc in
      if_room-Opens (has_room g request) g sent _ h
        (on_init-Opens g t (sent ++ request ∷ []) (init request peer.peeked) h)

  on_sioi-Opens :
      (peer : Peer) (g : Buffer) (t : Target) (request : Bytes) (rsrc : Option Bytes)
      → IsHeld (suc k) (suc n) g
      → Opens (on_sioi peer g t request rsrc)
  unfolding on_sioi
  on_sioi-Opens peer g t request none h = ws_close-IsHeld (suc k) n g small h
  on_sioi-Opens peer g t request (some rsrc) h = upgrade-Opens peer g t (request ∷ []) rsrc h

  sio_session-Opens :
      (peer : Peer) (g : Buffer) (t : Target) (request : Bytes) (rsrc : Option Bytes)
      → IsHeld (suc k) (suc n) g
      → Opens (sio_session peer g t request rsrc)
  unfolding sio_session
  sio_session-Opens peer g t request rsrc h =
      if_room-Opens (has_room g request) g [] _ h (on_sioi-Opens peer g t request rsrc h)

  handshake-Opens :
      (peer : Peer) (g : Buffer) (t : Target) (p : Proto)
      → IsHeld (suc k) (suc n) g
      → Opens (handshake peer g t p)
  unfolding handshake
  handshake-Opens peer g t Proto.rest h = h
  handshake-Opens peer g t Proto.sio1 h =
      sio_session-Opens peer g t (sio_request Proto.sio1 t.host t.rsrc)
        (sioi peer Proto.sio1 t.rsrc) h
  handshake-Opens peer g t Proto.sio3 h =
      sio_session-Opens peer g t (sio_request Proto.sio3 t.host t.rsrc)
        (sioi peer Proto.sio3 t.rsrc) h
  handshake-Opens peer g t Proto.raw h = upgrade-Opens peer g t [] t.rsrc h
  handshake-Opens peer g t Proto.wamp h = upgrade-Opens peer g t [] t.rsrc h

  -- With a buffer, whose references are counted before the connection is there.
  on_buffer-Opens :
      (peer : Peer) (g : Buffer) (t : Target)
      → IsHeld k n g
      → g.allocated ≡ true
      → Opens (on_buffer peer t (g, true))
  unfolding on_buffer
  on_buffer-Opens peer g t h there' =
      let g' : Buffer = record g { gbrc = u64 (g.gbrc + 1) } in
      let more : IsHeld (suc k) (suc n) g' = record {
        held = omega (arith, h.held, h.counted);
        there = λ p. there';
        counted = omega (arith, h.counted);
        sized = λ p. there';
      } in
      elim (Bool-cases peer.connects) [
        | inl yes' ↦ rw yes' (handshake-Opens peer g' t t.proto more)
        | inr no' ↦ rw no' (IsHeld-fewer (suc k) n g' more)
      ]

  on_target-Opens :
      (peer : Peer) (g : Buffer) (o : Option Target)
      → peer.mallocs ≡ true
      → IsHeld k n g
      → Opens (on_target peer g o)
  unfolding on_target
  on_target-Opens peer g none mem h = record {
    held = h.held;
    there = h.there;
    counted = omega (arith, h.counted);
    sized = h.sized;
  }
  on_target-Opens peer g (some t) mem h =
      let goes = λ (r : Buffer × Bool). Opens (on_buffer peer t r) in
      elim (dec_lt g.gbsz 4096) [
        | yes fresh ↦ subst goes (sym (with_buffer-fresh peer.mallocs true g fresh mem)) (
            on_buffer-Opens peer (record g { gbsz = 4096; allocated = true }) t
              (record { held = h.held; there = λ p. refl; counted = h.counted; sized = λ p. refl })
              refl)
        | no old ↦
            subst goes (sym (with_buffer-old peer.mallocs g (omega arith)))
              (on_buffer-Opens peer g t h (h.sized (omega arith)))
      ]

-- The calls of a program: to open a URL, or to close a socket that is open.
pub data Call : Type 0 where
  opens : Peer → Bytes → Call
  closes : Call

abbrev pub close_one : Buffer × ℕ → Buffer × ℕ
close_one (g, zero) = (g, zero)
close_one (g, suc n) = (ws_close g, n)

abbrev pub opened_one : ℕ → Buffer × Opening → Buffer × ℕ
opened_one n (g, o) = (g, with_socket o.ws n)

-- A call for which there is memory.
abbrev pub HasMemory : Call → Type 0
HasMemory (opens peer url) = peer.mallocs ≡ true
HasMemory closes = Unit

-- The buffer, and the count of sockets that are open.
abbrev pub call : Call → Buffer × ℕ → Buffer × ℕ
call (opens peer url) (g, n) = opened_one n (ws_open peer url g)
call closes s = close_one s

abbrev pub calls : List Call → Buffer × ℕ → Buffer × ℕ
calls [] s = s
calls (c ∷ cs) s = calls cs (call c s)

call-IsHeld :
    (k : ℕ) (c : Call) (s : Buffer × ℕ)
    → suc k < 2 ^ 64
    → HasMemory c
    → IsHeld k s.1 s.0
    → IsHeld (suc k) (call c s).1 (call c s).0
unfolding ws_open
call-IsHeld k (opens peer url) (g, n) small mem h =
    on_target-Opens k n small peer g (parse_url url) mem h
call-IsHeld k closes (g, zero) small mem h = record {
  sized = h.sized;
  held = h.held;
  there = h.there;
  counted = omega (arith, h.counted);
}
call-IsHeld k closes (g, suc n) small mem h =
    let c = ws_close-IsHeld k n g (omega arith) h in
    record { held = c.held; there = c.there; counted = omega (arith, c.counted); sized = c.sized }

calls-IsHeld :
    (cs : List Call) (k : ℕ) (s : Buffer × ℕ)
    → k + length cs < 2 ^ 64
    → All HasMemory cs
    → IsHeld k s.1 s.0
    → IsHeld (k + length cs) (calls cs s).1 (calls cs s).0
calls-IsHeld [] k s small mem h = record {
  sized = h.sized;
  held = h.held;
  there = h.there;
  counted = omega (arith, h.counted);
}
calls-IsHeld (c ∷ cs) k s small mem h =
    let h' =
      calls-IsHeld cs (suc k) (call c s) (omega arith) mem.1
        (call-IsHeld k c s (omega arith) mem.0 h) in
    record {
      held = h'.held;
      there = h'.there;
      counted = omega (arith, h'.counted);
      sized = h'.sized;
    }

abbrev pub no_buffer : Buffer
no_buffer = record { allocated = false; gbsz = 0; gbrc = 0 }

-- However sockets are opened, with or without success, and closed: where one is open there is a
-- buffer, as long as `malloc` gives memory in each call and there are fewer than 2 ^ 64 calls.
pub ws_open-allocated :
    (cs : List Call)
    → length cs < 2 ^ 64
    → All HasMemory cs
    → 0 < (calls cs (no_buffer, 0)).1
    → (calls cs (no_buffer, 0)).0.allocated ≡ true
ws_open-allocated cs small mem some' =
    let h =
      calls-IsHeld cs 0 (no_buffer, 0) (omega arith) mem
        (record {
          held = omega arith;
          there = λ p. absurd (omega arith);
          counted = omega arith;
          sized = λ p. absurd (omega arith);
        }) in
    h.there (omega (arith, h.held))
