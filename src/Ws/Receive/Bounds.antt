-- ===== src/Ws/Receive/Bounds.antt =====
-- `ws_recv` ends, and builds its result in place without overtaking what it reads.
use coins.Prelude.{
  ℕ, zero, suc, ◌+◌, ◌-◌, ◌≤◌, ◌<◌, ◌≡◌, refl, Option, none, some, Bool, true, false, ◌&&◌, List,
  [], ◌∷◌, ◌++◌, Bytes, length, length-append, length-take, length-drop, take, drop, take_all,
  drop_all, ltb, ◌==◌, if◌then◌else◌, min, ◌∙◌, ap, arith, lt→ltb, not-lt→ltb, ==_iff, ◌⊎◌,
  Bool-cases, inl, inr,
}
use native.Mathlib.Decide.{dec_lt}
use coins.Ws.Receive.{
  code_of, finp_of, Ws, Received, received, refused, aborted, overrun, out_of_fuel, frame_size,
  unpack, finish, stash, on_payload, go_on, unpacked, again, on_input, ws_recv,
}

unpack_size : (frml : Bytes) → (2 ≤ (unpack frml).1) × ((unpack frml).1 ≤ 14)
unfolding unpack
unpack_size frml = ground arith

-- Between two calls: the header is whole, less than a header and a half is stashed, and nothing
-- while a frame is still to go.
pub record IsFramed (ws : Ws) : Type 0 where
  pub whole : length ws.frml ≡ 14
  pub stashed : ws.done ≤ 14
  pub apart : 0 < ws.done → ws.togo ≡ 0

-- The call ends, writes nowhere but into the buffer, and leaves the socket framed.
abbrev pub IsSafe : ℕ → Received → Type 0
IsSafe bsz (received ws out pongs) = IsFramed ws × (length out ≤ bsz)
IsSafe bsz refused = Unit
IsSafe bsz aborted = Unit
IsSafe bsz overrun = ⊥
IsSafe bsz out_of_fuel = ⊥

and_false : (b : Bool) → (b && false) ≡ false
and_false true = refl
and_false false = refl

finish-length : (b : Bool) (out : Bytes) → length (finish b out) ≤ length out + 1
finish-length true out = omega (arith, length-append out (b'\n' ∷ []))
finish-length false out = omega arith

module _ (bsz : ℕ) where
  stash-IsSafe :
      (ws : Ws) (left out : Bytes) (pongs : List Bytes)
      → length ws.frml ≡ 14
      → length left ≤ 14
      → (0 < length left → ws.togo ≡ 0)
      → length out < bsz
      → IsSafe bsz (stash bsz ws left out pongs)
  unfolding stash
  stash-IsSafe ws left out pongs whole few apart room = rw (lt→ltb (length out) bsz room) (
    record {
      whole = omega (
        arith,
        length-append left (drop (length left) ws.frml),
        length-drop (length left) ws.frml,
      );
      stashed = few;
      apart = apart;
    },
    omega (arith, finish-length ws.state out),
  )

  on_payload_keeps :
      (ws : Ws) (payload out : Bytes) (pongs : List Bytes) (ws' : Ws) (out' : Bytes)
      (pongs' : List Bytes)
      → on_payload ws payload out pongs ≡ some (ws', out', pongs')
      → (ws'.togo ≡ ws.togo) × (ws'.frml ≡ ws.frml) × (length out' ≤ length out + length payload)
  unfolding on_payload
  on_payload_keeps ws payload out pongs ws' out' pongs' h =
      ground (arith, length-append out payload)

  go_on-IsSafe :
      (k : Ws → Bytes → Bytes → List Bytes → Received) (left : Bytes) (ws : Ws)
      (payload out : Bytes) (o : Option (Ws × Bytes × List Bytes))
      → length ws.frml ≡ 14
      → (0 < length left → ws.togo ≡ 0)
      → length out + length payload < bsz
      → ((ws' : Ws) (out' : Bytes) (pongs' : List Bytes)
          → o ≡ some (ws', out', pongs')
          → (ws'.togo ≡ ws.togo)
            × (ws'.frml ≡ ws.frml)
            × (length out' ≤ length out + length payload))
      → ((ws' : Ws) (out' : Bytes) (pongs' : List Bytes)
          → 14 < length left
          → length out' ≤ length out + length payload
          → IsSafe bsz (k ws' left out' pongs'))
      → IsSafe bsz (go_on bsz k left o)
  unfolding go_on
  go_on-IsSafe k left ws payload out none whole apart room keeps later = tt
  go_on-IsSafe k left ws payload out (some (ws', out', pongs')) whole apart room keeps later =
      let same = keeps ws' out' pongs' refl in
      elim (dec_lt 14 (length left)) [
        | yes more ↦ rw (lt→ltb 14 (length left) more) (later ws' out' pongs' more same.2)
        | no less ↦ rw (not-lt→ltb 14 (length left) less) (
            stash-IsSafe ws' left out' pongs' (rw same.1 whole) (omega arith)
              (λ h. rw same.0 (apart h)) (omega (arith, same.2)))
      ]

  -- `inp` and the result so far are together less than the buffer.
  unpacked-IsSafe :
      (k : Ws → Bytes → Bytes → List Bytes → Received) (ws : Ws) (inp out : Bytes)
      (pongs : List Bytes)
      → length ws.frml ≡ 14
      → length out + length inp < bsz
      → ((ws' : Ws) (left out' : Bytes) (pongs' : List Bytes)
          → 14 < length left
          → length out' + length left ≤ length out + length inp
          → length left ≤ length inp
          → IsSafe bsz (k ws' left out' pongs'))
      → IsSafe bsz (unpacked bsz k ws inp out pongs)
  unfolding unpacked
  unpacked-IsSafe k ws inp out pongs whole room later =
      let pz : ℕ = min ws.togo (length inp) in
      let taken = length-take pz inp in
      let left = length-drop pz inp in
      go_on-IsSafe k (drop pz inp) (record ws { togo = ws.togo - pz }) (take pz inp) out
        (on_payload (record ws { togo = ws.togo - pz }) (take pz inp) out pongs) whole
        (λ h. omega arith) (omega arith)
        (λ ws' out' pongs' e.
          on_payload_keeps (record ws { togo = ws.togo - pz }) (take pz inp) out pongs ws' out'
            pongs' e)
        (λ ws' out' pongs' more less.
          later ws' (drop pz inp) out' pongs' more (omega arith) (omega arith))

  again-IsSafe :
      (fuel : ℕ) (ws : Ws) (inp out : Bytes) (pongs : List Bytes)
      → 14 ≤ length inp
      → length inp ≤ fuel
      → length out + length inp ≤ bsz
      → IsSafe bsz (again bsz fuel ws inp out pongs)
  unfolding again
  again-IsSafe zero ws inp out pongs long enough room = absurd (omega arith)
  again-IsSafe (suc fuel) ws inp out pongs long enough room =
      let frml = take frame_size inp in
      let sizes = unpack_size frml in
      let rest = length-drop (unpack frml).1 inp in
      unpacked-IsSafe (again bsz fuel) (record ws { togo = (unpack frml).0; frml = frml })
        (drop (unpack frml).1 inp) (finish ws.state out) pongs (omega (arith, length-take 14 inp))
        (omega (arith, finish-length ws.state out))
        (λ ws' left out' pongs' more total less.
          again-IsSafe fuel ws' left out' pongs' (omega arith) (omega arith)
            (omega (arith, finish-length ws.state out)))

on_input-IsSafe :
    (bsz : ℕ) (ws : Ws) (inp : Bytes)
    → IsFramed ws
    → 0 < length inp
    → length inp ≤ bsz
    → (ws.togo ≡ 0) ⊎ (length inp < bsz)
    → IsSafe bsz (on_input bsz ws inp)
unfolding on_input
on_input-IsSafe bsz ws inp framed some' fits room = elim (Bool-cases (ws.togo == 0)) [
  | inr going ↦
      rw (going, and_false (ltb (length inp) 14))
        (unpacked-IsSafe bsz (again bsz (length inp)) ws inp [] [] framed.whole
          (ground (arith, going))
          (λ ws' left out' pongs' more total less.
            again-IsSafe bsz (length inp) ws' left out' pongs' (omega arith) less (omega arith)))
  | inl fresh ↦ elim (dec_lt (length inp) 14) [
    | yes short ↦
        rw (fresh, lt→ltb (length inp) 14 short)
          (stash-IsSafe bsz ws inp [] [] framed.whole (omega arith)
            (λ h. (==_iff ws.togo 0).0 fresh) (omega arith))
    | no long ↦
        rw (fresh, not-lt→ltb (length inp) 14 long)
          (again-IsSafe bsz (length inp) ws inp [] [] (omega arith) (omega arith) (omega arith))
  ]
]

-- A read, with what was stashed before it, of no more than the buffer: the call ends, stays in the
-- buffer and leaves the socket framed, unless a frame is still to go and the buffer is full.
pub ws_recv-IsSafe :
    (bsz : ℕ) (ws : Ws) (read : Bytes)
    → IsFramed ws
    → 0 < length read
    → ws.done + length read ≤ bsz
    → (ws.togo ≡ 0) ⊎ (ws.done + length read < bsz)
    → IsSafe bsz (ws_recv bsz ws (some read))
unfolding ws_recv
ws_recv-IsSafe bsz ws read framed some' fits room =
    let whole : length (take ws.done ws.frml ++ read) ≡ ws.done + length read = omega (
      arith,
      length-append (take ws.done ws.frml) read,
      length-take ws.done ws.frml,
      framed.whole,
      framed.stashed,
    ) in
    on_input-IsSafe bsz ws (take ws.done ws.frml ++ read) framed (omega arith) (omega arith)
      (rw whole room)

-- A payload that goes on behind what was read is taken whole.
pub unpacked_all :
    (bsz : ℕ) (k : Ws → Bytes → Bytes → List Bytes → Received) (ws : Ws) (inp out : Bytes)
    (pongs : List Bytes)
    → length inp ≤ ws.togo
    → unpacked bsz k ws inp out pongs
      ≡ go_on bsz k [] (on_payload (record ws { togo = ws.togo - length inp }) inp out pongs)
unfolding unpacked
unpacked_all bsz k ws inp out pongs h =
    let all : min ws.togo (length inp) ≡ length inp = omega arith in
    rw (all, take_all inp, drop_all inp)

-- The payload of a continuation, a text or a binary frame is passed on.
pub on_text :
    (ws : Ws) (payload out : Bytes) (pongs : List Bytes)
    → code_of ws.frml ≤ 2
    → (on_payload ws payload out pongs
        ≡ some (record ws { state = ws.togo == 0 && finp_of ws.frml }, out ++ payload, pongs))
unfolding on_payload
on_text ws payload out pongs h = ground arith

stash_full :
    (bsz : ℕ) (ws : Ws) (left out : Bytes) (pongs : List Bytes)
    → bsz ≤ length out
    → stash bsz ws left out pongs ≡ overrun
unfolding stash
stash_full bsz ws left out pongs h = ground arith

-- While a frame is still to go, a read is payload from its start on.
pub ws_recv_going :
    (bsz : ℕ) (ws : Ws) (read : Bytes)
    → ws.done ≡ 0
    → (ws.togo == 0) ≡ false
    → ws_recv bsz ws (some read) ≡ unpacked bsz (again bsz (length read)) ws read [] []
unfolding ws_recv
ws_recv_going bsz ws read none' going =
    ap (λ (n : ℕ). on_input bsz ws (take n ws.frml ++ read)) none'
    ∙ ap
        (λ (b : Bool).
          if ltb (length read) 14 && b
          then stash bsz ws read [] []
          else if b
          then again bsz (length read) ws read [] []
          else unpacked bsz (again bsz (length read)) ws read [] [])
        going
    ∙ ap
        (λ (b : Bool).
          if b
          then stash bsz ws read [] []
          else unpacked bsz (again bsz (length read)) ws read [] [])
        (and_false (ltb (length read) 14))

-- Where a text frame is still to go and a read fills the buffer, the newline goes behind its end.
pub ws_recv_overrun :
    (bsz : ℕ) (ws : Ws) (read : Bytes)
    → ws.done ≡ 0
    → bsz ≤ ws.togo
    → length read ≡ bsz
    → 0 < bsz
    → code_of ws.frml ≤ 2
    → ws_recv bsz ws (some read) ≡ overrun
unfolding ws_recv
ws_recv_overrun bsz ws read none' going full some' text =
    let still : (ws.togo == 0) ≡ false = ground arith in
    let e = on_text (record ws { togo = ws.togo - length read }) read [] [] text in
    ws_recv_going bsz ws read none' still
    ∙ unpacked_all bsz (again bsz (length read)) ws read [] [] (omega arith)
    ∙ ap (go_on bsz (again bsz (length read)) []) e
    ∙ stash_full bsz
        (record ws {
          togo = ws.togo - length read;
          state = ws.togo - length read == 0 && finp_of ws.frml;
        })
        [] read [] (omega arith)
