-- ===== src/Ws/Open/Handshake.antt =====
-- The header of the reply to a handshake, and nothing behind it, is taken off the wire.
use native.Mathlib.Decide.{dec_lt}
use coins.Prelude.{
  ℕ, ◌+◌, ◌≤◌, ◌≡◌, refl, sym, ap, ◌∙◌, Option, some, true, [], ◌∷◌, ◌++◌, Bytes, length, arith,
  Bool, ◌&&◌, leb, if◌then◌else◌, false, append_assoc,
}
use coins.Libc.{codes, u64}
use coins.Search.{xmemmem}
use coins.Search.Correct.{xmemmem-split, xmemmem-first}
use coins.Ws.{Proto}
use coins.Ws.Url.{Target, parse_url}
use coins.Ws.Open.{
  Peer, Buffer, header_end, init_request, init, on_init, upgrade, handshake, on_target, ws_open,
  socket_of, no_socket, written_outside, has_room, on_buffer,
}
use coins.Ws.Open.Shared.{with_buffer-fresh, with_buffer-old}

-- A reply that starts like this switches the protocol, whatever stands behind it.
abbrev pub switched : Bytes
switched = codes "HTTP/1.1 101"

init-switched :
    (request more : Bytes) (e : ℕ)
    → xmemmem (switched ++ more) header_end ≡ some e
    → init request (switched ++ more) ≡ (true, e)
unfolding init
init-switched request more e h = rw h refl

-- A buffer that holds the request of a target.
abbrev HasRoom : Buffer → Target → Type 0
HasRoom g t = (g.allocated ≡ true) × (length (init_request t.proto t.authority t.rsrc) ≤ g.gbsz)

fits_leb : (a b : ℕ) → a ≤ b → leb a b ≡ true
fits_leb a b h = ground arith

handshake_raw :
    (peer : Peer) (g : Buffer) (t : Target) (p : Proto) (e : ℕ)
    → p ≡ Proto.raw
    → HasRoom g t
    → init (init_request t.proto t.authority t.rsrc) peer.peeked ≡ (true, e)
    → (handshake peer g t p).1 ≡ socket_of t (init_request t.proto t.authority t.rsrc ∷ []) e
unfolding handshake upgrade on_init
handshake_raw peer g t p e raw' room answer =
    let request = init_request t.proto t.authority t.rsrc in
    let fits : has_room g request ≡ true =
      ap (λ (b : Bool). b && leb (length request) g.gbsz) room.0
      ∙ fits_leb (length request) g.gbsz room.1 in
    ap (λ (q : Proto). (handshake peer g t q).1) raw'
    ∙ ap
        (λ (b : Bool).
          (if b
            then on_init g t (request ∷ []) (init request peer.peeked)
            else (g, written_outside [])).1)
        fits
    ∙ ap (λ (r : Bool × ℕ). (on_init g t (request ∷ []) r).1) answer

opened_raw :
    (peer : Peer) (g : Buffer) (t : Target) (e : ℕ)
    → t.proto ≡ Proto.raw
    → peer.connects ≡ true
    → HasRoom g t
    → init (init_request t.proto t.authority t.rsrc) peer.peeked ≡ (true, e)
    → (on_buffer peer t (g, true)).1 ≡ socket_of t (init_request t.proto t.authority t.rsrc ∷ []) e
unfolding on_buffer
opened_raw peer g t e raw' connects' room answer =
    let g' : Buffer = record g { gbrc = u64 (g.gbrc + 1) } in
    ap (λ (b : Bool). (if b then handshake peer g' t t.proto else (g', no_socket [] 0)).1) connects'
    ∙ handshake_raw peer g' t t.proto e raw' room answer

-- A buffer is there as soon as its size is 4096, and `malloc` gives memory where it is less.
on_target_raw :
    (peer : Peer) (g : Buffer) (t : Target) (e : ℕ)
    → t.proto ≡ Proto.raw
    → peer.connects ≡ true
    → peer.mallocs ≡ true
    → (4096 ≤ g.gbsz → g.allocated ≡ true)
    → length (init_request t.proto t.authority t.rsrc) ≤ 4096
    → init (init_request t.proto t.authority t.rsrc) peer.peeked ≡ (true, e)
    → (on_target peer g (some t)).1 ≡ socket_of t (init_request t.proto t.authority t.rsrc ∷ []) e
unfolding on_target
on_target_raw peer g t e raw' connects' mem sized fits answer =
    let goes = λ (r : Buffer × Bool). (on_buffer peer t r).1 in
    elim (dec_lt g.gbsz 4096) [
      | yes fresh ↦
          ap goes (with_buffer-fresh peer.mallocs true g fresh mem)
          ∙ opened_raw peer (record g { gbsz = 4096; allocated = true }) t e raw' connects'
              (refl, fits) answer
      | no old ↦
          ap goes (with_buffer-old peer.mallocs g (omega arith))
          ∙ opened_raw peer g t e raw' connects' (sized (omega arith), omega arith) answer
    ]

-- A URL of a plain socket is opened where `malloc` gives memory if there is no buffer of 4096 octets
-- yet, the request fits into 4096 octets, and the peer answers 101 with the end of the header: a socket for the target, one request, and what is taken off the wire ends with the
-- end of a header, and no later than any that there is.
pub ws_open-switched :
    (peer : Peer) (url : Bytes) (g : Buffer) (t : Target) (more after : Bytes)
    → parse_url url ≡ some t
    → t.proto ≡ Proto.raw
    → peer.connects ≡ true
    → peer.mallocs ≡ true
    → (4096 ≤ g.gbsz → g.allocated ≡ true)
    → length (init_request t.proto t.authority t.rsrc) ≤ 4096
    → peer.peeked ≡ (switched ++ more) ++ (header_end ++ after)
    → (before : Bytes) × (rest : Bytes) × ((ws_open peer url g).1 ≡ record {
      ws = some t;
      sent = init_request t.proto t.authority t.rsrc ∷ [];
      taken = length before + 4;
      fault = false;
    })
      × (peer.peeked ≡ before ++ (header_end ++ rest))
      × (length before ≤ length (switched ++ more))
unfolding ws_open
ws_open-switched peer url g t more after target' raw' connects' mem sized fits wire =
    let (e, found, bound) = xmemmem-first header_end (switched ++ more) after in
    let (before, rest, split, at) =
      xmemmem-split ((switched ++ more) ++ (header_end ++ after)) header_end e found in
    let answer : init (init_request t.proto t.authority t.rsrc) peer.peeked
        ≡ (true, length before + 4) =
      ap (init (init_request t.proto t.authority t.rsrc))
        (wire ∙ append_assoc switched more (header_end ++ after))
      ∙ init-switched (init_request t.proto t.authority t.rsrc) (more ++ (header_end ++ after))
          (length before + 4)
          (ap (λ (s : Bytes). xmemmem s header_end)
              (sym (append_assoc switched more (header_end ++ after)))
            ∙ found
            ∙ ap some at) in
    (
      before,
      rest,
      ap (λ (o : Option Target). (on_target peer g o).1) target'
          ∙ on_target_raw peer g t (length before + 4) raw' connects' mem sized fits answer,
      wire ∙ split,
      omega arith,
    )
