-- ===== src/Ws/Open/Failure.antt =====
-- What is left behind where `malloc` fails in `ws_open` (src/ws.c).
use coins.Prelude.{
  ◌+◌, ◌<◌, ◌≡◌, ap, ◌∙◌, some, Bool, true, false, [], Bytes, if◌then◌else◌, arith, Option,
}
use coins.Libc.{u64}
use coins.Ws.{Proto}
use coins.Ws.Url.{Target, parse_url}
use coins.Ws.Open.{
  Peer, Buffer, Opening, no_socket, socket_of, handshake, on_buffer, on_target, ws_open,
}
use coins.Ws.Open.Shared.{with_buffer-fresh, with_buffer-old}

-- A socket of the REST protocol is returned as soon as it is connected.
on_buffer_rest :
    (peer : Peer) (g : Buffer) (t : Target)
    → peer.connects ≡ true
    → t.proto ≡ Proto.rest
    → on_buffer peer t (g, true) ≡ (record g { gbrc = u64 (g.gbrc + 1) }, socket_of t [] 0)
unfolding on_buffer handshake
on_buffer_rest peer g t connects' rest' =
    let g' : Buffer = record g { gbrc = u64 (g.gbrc + 1) } in
    ap (λ (b : Bool). if b then handshake peer g' t t.proto else (g', no_socket [] 0)) connects'
    ∙ ap (handshake peer g' t) rest'

-- Once `malloc` has failed in a call, where there was no buffer of 4096 octets, a REST socket that is
-- opened next is returned without a buffer, even where `malloc` would give memory again.
pub ws_open-unallocated :
    (peer peer' : Peer) (url url' : Bytes) (g : Buffer) (t t' : Target)
    → g.gbsz < 4096
    → parse_url url ≡ some t
    → peer.mallocs ≡ false
    → parse_url url' ≡ some t'
    → t'.proto ≡ Proto.rest
    → peer'.connects ≡ true
    → let r = ws_open peer' url' (ws_open peer url g).0 in
      (r.1.ws ≡ some t') × (r.0.allocated ≡ false)
unfolding ws_open on_target on_buffer
ws_open-unallocated peer peer' url url' g t t' small parsed failed parsed' rest' connects' =
    let g₁ : Buffer = record g { gbsz = 4096; allocated = false } in
    let first : (ws_open peer url g).0 ≡ g₁ =
      ap (λ (o : Option Target). (on_target peer g o).0) parsed
      ∙ ap (λ (r : Buffer × Bool). (on_buffer peer t r).0)
          (with_buffer-fresh peer.mallocs false g small failed) in
    let all : ws_open peer' url' (ws_open peer url g).0
        ≡ (record g₁ { gbrc = u64 (g.gbrc + 1) }, socket_of t' [] 0) =
      ap (ws_open peer' url') first
      ∙ ap (on_target peer' g₁) parsed'
      ∙ ap (on_buffer peer' t') (with_buffer-old peer'.mallocs g₁ (omega arith))
      ∙ on_buffer_rest peer' g₁ t' connects' rest' in
    (ap (λ (r : Buffer × Opening). r.1.ws) all, ap (λ (r : Buffer × Opening). r.0.allocated) all)
