-- ===== src/Ws/Receive/Messages.antt =====
-- What `ws_recv` delivers: messages, each with a newline behind it, however they come in.
use coins.Prelude.{
  ℕ, ◌-◌, ◌≤◌, ◌<◌, ◌≡◌, refl, sym, ap, ◌∙◌, Option, none, some, true, false, ◌&&◌, List, [], ◌∷◌,
  ◌++◌, append_assoc, take, drop-length_append, ltb, suc, ◌+◌, append-nil, Bytes, All, length,
  length-append, ◌==◌, arith, Bool,
}
use coins.Ws.Receive.{
  frame_size, unpack, unpacked, on_input, code_of, finp_of, Ws, Received, received, finish, stash,
  go_on, again, ws_recv,
}
use coins.Ws.Receive.Bounds.{unpacked_all, on_text, ws_recv_going}

-- The socket after a part of a text frame.
abbrev after_part : Ws → ℕ → Ws
after_part ws n = record ws {
  togo = ws.togo - n;
  done = 0;
  state = ws.togo - n == 0 && finp_of ws.frml;
}

stash_nothing :
    (bsz : ℕ) (ws : Ws) (out : Bytes) (pongs : List Bytes)
    → length out < bsz
    → stash bsz ws [] out pongs ≡ received (record ws { done = 0 }) (finish ws.state out) pongs
unfolding stash
stash_nothing bsz ws out pongs h = ground arith

-- One read of a frame that is still to go.
part_step :
    (bsz : ℕ) (ws : Ws) (read : Bytes)
    → ws.done ≡ 0
    → 0 < length read
    → length read ≤ ws.togo
    → length read < bsz
    → code_of ws.frml ≤ 2
    → ws_recv bsz ws (some read)
      ≡ received (after_part ws (length read)) (finish (after_part ws (length read)).state read) []
unfolding go_on
part_step bsz ws read none' some' going room text =
    let e = on_text (record ws { togo = ws.togo - length read }) read [] [] text in
    ws_recv_going bsz ws read none' (ground arith)
    ∙ unpacked_all bsz (again bsz (length read)) ws read [] [] going
    ∙ ap (go_on bsz (again bsz (length read)) []) e
    ∙ stash_nothing bsz
        (record ws {
          togo = ws.togo - length read;
          state = ws.togo - length read == 0 && finp_of ws.frml;
        })
        read [] room

-- The results of reads one after the other.
abbrev pub also : Bytes → Option (Ws × Bytes) → Option (Ws × Bytes)
also out none = none
also out (some (ws, more)) = some (ws, out ++ more)

abbrev pub on_received : (Ws → Option (Ws × Bytes)) → Received → Option (Ws × Bytes)
on_received later (received ws out pongs) = also out (later ws)
on_received later _ = none

abbrev pub recv_all : ℕ → Ws → List Bytes → Option (Ws × Bytes)
recv_all bsz ws [] = some (ws, [])
recv_all bsz ws (read ∷ reads) =
    on_received (λ ws'. recv_all bsz ws' reads) (ws_recv bsz ws (some read))

abbrev pub concat : List Bytes → Bytes
concat [] = []
concat (read ∷ reads) = read ++ concat reads

-- A read of something that does not fill the buffer.
abbrev pub IsPart : ℕ → Bytes → Type 0
IsPart bsz read = (0 < length read) × (length read < bsz)

-- What is left of the last frame of a message comes out unchanged, with one newline behind it.
parts_concat :
    (bsz : ℕ) (ws : Ws) (read : Bytes) (reads : List Bytes)
    → ws.done ≡ 0
    → ws.togo ≡ length (concat (read ∷ reads))
    → code_of ws.frml ≤ 2
    → finp_of ws.frml ≡ true
    → All (IsPart bsz) (read ∷ reads)
    → recv_all bsz ws (read ∷ reads)
      ≡ some (record ws { togo = 0; done = 0; state = true }, concat (read ∷ reads) ++ b'\n' ∷ [])
parts_concat bsz ws read [] none' going text last parts =
    let len : length (read ++ []) ≡ length read = ap length (append-nil read) in
    let over : ws.togo - length read ≡ 0 = omega arith in
    let step = part_step bsz ws read none' parts.0.0 (omega arith) parts.0.1 text in
    ap (on_received (λ (ws' : Ws). recv_all bsz ws' [])) step
    ∙ rw (over, last, append-nil, append-nil)
parts_concat bsz ws read (next ∷ reads) none' going text last parts =
    let len = length-append read (concat (next ∷ reads)) in
    let len' = length-append next (concat reads) in
    let more : (ws.togo - length read == 0) ≡ false = ground arith in
    let step = part_step bsz ws read none' parts.0.0 (omega arith) parts.0.1 text in
    let later =
      parts_concat bsz (after_part ws (length read)) next reads refl (omega arith) text last
        parts.1 in
    ap (on_received (λ (ws' : Ws). recv_all bsz ws' (next ∷ reads))) step
    ∙ ap (also (finish (after_part ws (length read)).state read)) later
    ∙ rw more (
        ap (λ (t : Bytes). some (record ws { togo = 0; done = 0; state = true }, t))
          (sym (append_assoc read (concat (next ∷ reads)) (b'\n' ∷ []))))

-- The socket with a frame just unpacked, of which `inp` is at hand.
abbrev pub framed : Ws → ℕ → Bytes → Ws
framed ws togo inp = record ws { togo = togo; frml = take frame_size inp }

again-framed :
    (bsz fuel : ℕ) (ws : Ws) (header part out : Bytes) (pongs : List Bytes) (togo : ℕ)
    → unpack (take frame_size (header ++ part)) ≡ (togo, length header)
    → again bsz (suc fuel) ws (header ++ part) out pongs
      ≡ unpacked bsz
          (again bsz fuel)
          (framed ws togo (header ++ part))
          part
          (finish ws.state out)
          pongs
unfolding again
again-framed bsz fuel ws header part out pongs togo sizes =
    rw (sizes, drop-length_append header part) refl

on_fresh :
    (bsz : ℕ) (ws : Ws) (inp : Bytes)
    → ltb (length inp) 14 ≡ false
    → (ws.togo == 0) ≡ true
    → on_input bsz ws inp ≡ again bsz (length inp) ws inp [] []
unfolding on_input
on_fresh bsz ws inp long fresh = rw (long, fresh) refl

-- The read in which the header of a frame is complete.
header_step :
    (bsz : ℕ) (ws : Ws) (read header part : Bytes) (togo : ℕ)
    → ws.togo ≡ 0
    → take ws.done ws.frml ++ read ≡ header ++ part
    → (n : ℕ) → length (header ++ part) ≡ suc n
    → 14 ≤ suc n
    → unpack (take frame_size (header ++ part)) ≡ (togo, length header)
    → length part ≤ togo
    → length (finish ws.state [] ++ part) < bsz
    → code_of (take frame_size (header ++ part)) ≤ 2
    → let ws' = after_part (framed ws togo (header ++ part)) (length part) in
      ws_recv bsz ws (some read) ≡ received ws' (finish ws'.state (finish ws.state [] ++ part)) []
unfolding ws_recv go_on
header_step bsz ws read header part togo apart whole n size long sizes going room text =
    let inp = header ++ part in
    let ws₁ = framed ws togo inp in
    let out = finish ws.state [] in
    let ready : ltb (length inp) 14 ≡ false = ground arith in
    let fresh : (ws.togo == 0) ≡ true = ground (arith, apart) in
    let e = on_text (record ws₁ { togo = togo - length part }) part out [] text in
    ap (on_input bsz ws) whole
    ∙ on_fresh bsz ws inp ready fresh
    ∙ ap (λ (k : ℕ). again bsz k ws inp [] []) size
    ∙ again-framed bsz n ws header part [] [] togo sizes
    ∙ unpacked_all bsz (again bsz n) ws₁ part out [] going
    ∙ ap (go_on bsz (again bsz n) []) e
    ∙ stash_nothing bsz
        (record ws₁ {
          togo = togo - length part;
          state = togo - length part == 0 && finp_of (take frame_size inp);
        })
        (out ++ part) [] room

-- A part behind the newline that may still be due.
short_start :
    (state : Bool) (part : Bytes) (bsz : ℕ)
    → length part + 1 < bsz
    → length (finish state [] ++ part) < bsz
short_start true part bsz h = omega arith
short_start false part bsz h = omega arith

-- From a socket between two frames on, of the first of which it may have a stash: a continuation, a
-- text or a binary frame, the last of its message, comes out as its payload, with one newline behind
-- it, and with the newline of the message before it in front where that was finished. It may be cut
-- into any reads, of which the first makes 14 octets or more with the stash, and none fills the
-- buffer.
pub recv_all-concat :
    (bsz : ℕ) (ws : Ws) (read header part : Bytes) (reads : List Bytes)
    → ws.togo ≡ 0
    → take ws.done ws.frml ++ read ≡ header ++ part
    → 14 ≤ length (header ++ part)
    → unpack (take frame_size (header ++ part)) ≡ (length (concat (part ∷ reads)), length header)
    → code_of (take frame_size (header ++ part)) ≤ 2
    → finp_of (take frame_size (header ++ part)) ≡ true
    → length part + 1 < bsz
    → All (IsPart bsz) reads
    → recv_all bsz ws (read ∷ reads)
      ≡ some (
        record ws { togo = 0; done = 0; state = true; frml = take frame_size (header ++ part) },
        finish ws.state [] ++ (concat (part ∷ reads) ++ b'\n' ∷ []),
      )
recv_all-concat bsz ws read header part [] apart whole long sizes text last room parts =
    let out = finish ws.state [] in
    let inp = header ++ part in
    let len : length (part ++ []) ≡ length part = ap length (append-nil part) in
    let over : length (part ++ []) - length part ≡ 0 = omega arith in
    let step =
      header_step bsz ws read header part (length (part ++ [])) apart whole (length inp - 1)
        (omega arith) (omega arith) sizes (omega arith) (short_start ws.state part bsz room) text in
    ap (on_received (λ (ws' : Ws). recv_all bsz ws' [])) step
    ∙ rw (over, last, append-nil, append-nil, append_assoc out part (b'\n' ∷ [])) refl
recv_all-concat bsz ws read header part (next ∷ reads) apart whole long sizes text last room parts =
    let out = finish ws.state [] in
    let inp = header ++ part in
    let all = concat (part ∷ next ∷ reads) in
    let len = length-append part (concat (next ∷ reads)) in
    let len' = length-append next (concat reads) in
    let more : (length all - length part == 0) ≡ false = ground arith in
    let ws' = after_part (framed ws (length all) inp) (length part) in
    let step =
      header_step bsz ws read header part (length all) apart whole (length inp - 1) (omega arith)
        (omega arith) sizes (omega arith) (short_start ws.state part bsz room) text in
    let later = parts_concat bsz ws' next reads refl (omega arith) text last parts in
    ap (on_received (λ (ws₂ : Ws). recv_all bsz ws₂ (next ∷ reads))) step
    ∙ ap (also (finish ws'.state (out ++ part))) later
    ∙ rw more (
        ap
          (λ (t : Bytes).
            some (record ws { togo = 0; done = 0; state = true; frml = take frame_size inp }, t))
          (append_assoc out part (concat (next ∷ reads) ++ b'\n' ∷ [])
            ∙ ap (λ (t : Bytes). out ++ t)
                (sym (append_assoc part (concat (next ∷ reads)) (b'\n' ∷ [])))))
