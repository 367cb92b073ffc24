-- ===== src/Ws/Frames/Length.antt =====
-- What a receiver makes of the header of a frame that `ws_send` sent.
use coins.Prelude.{
  ℕ, ◌+◌, ◌*◌, ◌/◌, ◌%◌, ◌^◌, ◌≤◌, ◌<◌, ◌≡◌, ◌≢◌, ap, ◌++◌, Bytes, length, take, arith,
}
use coins.Ws.Frames.{htobe64, send_header}
use coins.Ws.Receive.{unpack, frame_size}

-- The frame is read back: the length of a payload of less than 64 KiB, and where it starts.
pub unpack-send_header :
    (buf : Bytes)
    → length buf < 65536
    → unpack (take frame_size (send_header (length buf) ++ buf))
      ≡ (length buf, length (send_header (length buf)))
unfolding unpack send_header
unpack-send_header buf h = ground arith

-- The sixteen bit words of a number, the lowest first, put the other way round.
abbrev pub words_reversed : ℕ → ℕ
words_reversed n =
    n % 65536 * 2 ^ 48
    + n / 2 ^ 16 % 65536 * 2 ^ 32
    + n / 2 ^ 32 % 65536 * 2 ^ 16
    + n / 2 ^ 48 % 65536

htobe64_words :
    (n : ℕ)
    → n < 2 ^ 64
    → (htobe64 n / 2 ^ 48 % 65536 ≡ n % 256 * 256 + n / 256 % 256)
      × (htobe64 n / 2 ^ 32 % 65536 ≡ n / 2 ^ 16 % 256 * 256 + n / 2 ^ 24 % 256)
      × (htobe64 n / 2 ^ 16 % 65536 ≡ n / 2 ^ 32 % 256 * 256 + n / 2 ^ 40 % 256)
      × (htobe64 n % 65536 ≡ n / 2 ^ 48 % 256 * 256 + n / 2 ^ 56 % 256)
unfolding htobe64
htobe64_words n h = (omega arith, omega arith, omega arith, omega arith)

-- From 64 KiB on the four words of the length go out the other way round.
pub unpack-send_header_long :
    (buf : Bytes)
    → 65536 ≤ length buf
    → length buf < 2 ^ 64
    → unpack (take frame_size (send_header (length buf) ++ buf)) ≡ (words_reversed (length buf), 14)
unfolding unpack send_header
unpack-send_header_long buf h k = ground (arith, htobe64_words (length buf) k)

-- So no receiver takes a payload of 64 KiB or more, and less than 4 GiB, for as long as it is.
pub send_header_misread :
    (buf : Bytes)
    → 65536 ≤ length buf
    → length buf < 2 ^ 32
    → (unpack (take frame_size (send_header (length buf) ++ buf))).0 ≢ length buf
send_header_misread buf h k =
    λ e. omega (arith, ap (λ (p : ℕ × ℕ). p.0) (unpack-send_header_long buf h (omega arith)))
