-- ===== src/Tests/Ws.antt =====
-- Frames sent, and frames received in parts.
use coins.Prelude.{
  ℕ, zero, suc, ap, ◌≡◌, refl, inr, some, true, false, [], ◌∷◌, ◌++◌, Bytes, length, take,
  replicate, arith,
}
use coins.Libc.{codes}
use coins.Ws.Frames.{send_header, ws_send, ws_ping}
use coins.Ws.Frames.Length.{words_reversed, unpack-send_header, unpack-send_header_long}
use coins.Ws.Receive.{Ws, received, overrun, frame_size, unpack, ws_recv}
use coins.Ws.Receive.Bounds.{IsSafe, ws_recv-IsSafe, ws_recv_overrun}
use coins.Ws.Receive.Messages.{recv_all, concat, recv_all-concat}

-- `n` octets.
abbrev octets : ℕ → Bytes
octets n = replicate n b'x'

length-octets : (n : ℕ) → length (octets n) ≡ n
length-octets zero = refl
length-octets (suc n) = ap suc (length-octets n)

-- A text frame, the last of its message, with `n` octets to go.
abbrev text_going : ℕ → Ws
text_going n = record { togo = n; done = 0; state = false; frml = 0x81 ∷ 126 ∷ replicate 12 0 }

two_frames :
    ws_recv 100
      (record { togo = 0; done = 0; state = false; frml = replicate 14 0 })
      (some (0x81 ∷ 2 ∷ b'h' ∷ b'i' ∷ 0x81 ∷ 13 ∷ codes "hello, worlds"))
    ≡ received
        (record { togo = 0; done = 0; state = true; frml = 0x81 ∷ 13 ∷ codes "hello, world" })
        (codes "hi\nhello, worlds\n")
        []
unfolding ws_recv
two_frames = refl

sent : ws_send true 4096 (codes "{}") ≡ (4096, some (0x81 ∷ 0x82 ∷ 0 ∷ 0 ∷ 0 ∷ 0 ∷ codes "{}"))
unfolding ws_send
sent = refl

-- A ping with a message goes out as a pong.
ping_as_pong : ws_ping (codes "x") ≡ 0x8a ∷ 0x81 ∷ 0 ∷ 0 ∷ 0 ∷ 0 ∷ codes "x"
unfolding ws_ping
ping_as_pong = refl

unpack-send_header_example :
    unpack (take frame_size (send_header (length (octets 300)) ++ octets 300))
    ≡ (length (octets 300), length (send_header (length (octets 300))))
unpack-send_header_example = unpack-send_header (octets 300) (omega (arith, length-octets 300))

unpack-send_header_long_example :
    unpack (take frame_size (send_header (length (octets 65536)) ++ octets 65536))
    ≡ (words_reversed (length (octets 65536)), 14)
unpack-send_header_long_example =
    unpack-send_header_long (octets 65536) (omega (arith, length-octets 65536))
      (omega (arith, length-octets 65536))

ws_recv-IsSafe_example : IsSafe 100 (ws_recv 100 (text_going 20) (some (codes "hello, world")))
ws_recv-IsSafe_example =
    ws_recv-IsSafe 100 (text_going 20) (codes "hello, world")
      (record { whole = refl; stashed = omega arith; apart = λ h. absurd (omega arith) })
      (omega arith) (omega arith) (inr (omega arith))

ws_recv_overrun_example : ws_recv 12 (text_going 20) (some (codes "hello, world")) ≡ overrun
ws_recv_overrun_example =
    ws_recv_overrun 12 (text_going 20) (codes "hello, world") refl (omega arith) refl (omega arith)
      (omega arith)

-- The first octet of a frame is stashed.
abbrev stashed : Ws
stashed = record { togo = 0; done = 1; state = true; frml = 0x81 ∷ replicate 13 0 }

abbrev header : Bytes
header = 0x81 ∷ 20 ∷ []

recv_all-concat_example :
    recv_all 100 stashed ((20 ∷ codes "hello, world") ∷ codes ", and" ∷ codes " so" ∷ [])
    ≡ some (
      record stashed {
        togo = 0;
        done = 0;
        state = true;
        frml = take frame_size (header ++ codes "hello, world");
      },
      b'\n' ∷ []
          ++ (concat (codes "hello, world" ∷ codes ", and" ∷ codes " so" ∷ []) ++ b'\n' ∷ []),
    )
unfolding unpack
recv_all-concat_example =
    recv_all-concat 100 stashed (20 ∷ codes "hello, world") header (codes "hello, world")
      (codes ", and" ∷ codes " so" ∷ []) refl refl (omega arith) refl (omega arith) refl
      (omega arith) (omega arith)
