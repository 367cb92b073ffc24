-- ===== src/Fix.antt =====
-- FIX messages (src/fix.c): rendering, with the body's length and the checksum, and parsing.
-- The static variables are a record; `time` and `strftime` are arguments. The caller's buffer is
-- taken to be large enough, as the source takes it: `bsz` is looked at nowhere.
pub mod Sequence
pub mod Checksum
pub mod RoundTrip
use coins.Prelude.{
  ℕ, zero, suc, ◌+◌, ◌-◌, ◌/◌, ◌%◌, ◌^◌, Bool, true, false, ◌&&◌, not, Option, none, some, [], ◌∷◌,
  ◌++◌, Bytes, ltb, ◌==◌, if◌then◌else◌, length, get_or, set, take, drop, bit_xor,
}
use coins.Libc.{codes, starts_with}
use coins.Search.{uint_of_char}

-- `fix_msg_t` as it is rendered: the type, and `len` octets at `msg`.
pub record Message : Type 0 where
  pub typ : ℕ
  pub msg : Bytes

-- `seq`, the two comp ids, and the stamp last rendered with its time.
pub record Fix : Type 0 where
  pub seq : ℕ
  pub scomp_id : Bytes
  pub tcomp_id : Bytes
  pub clck : Bytes
  pub metr : ℕ

abbrev pub soh : ℕ
soh = 1

-- A digit: `(n % 10U) ^ '0'`
abbrev pub digit : ℕ → ℕ
digit n = bit_xor (n % 10) b'0'

-- A `char` is signed and is widened to an `unsigned int`, whose low octet is returned.
unfoldable pub char_sum : ℕ → Bytes → ℕ
char_sum res [] = res
char_sum res (c ∷ s) = char_sum ((res + uint_of_char c) % 2 ^ 32) s

unfoldable pub fix_chksum : Bytes → ℕ
unfolding char_sum
fix_chksum str = char_sum 0 str % 256

unfoldable pub fix_reset : Fix → Fix
fix_reset f = record f { seq = 1 }

unfoldable pub fix_set_scomp_id : Bytes → Fix → Fix
fix_set_scomp_id sc f = record f { scomp_id = sc }

unfoldable pub fix_set_tcomp_id : Bytes → Fix → Fix
fix_set_tcomp_id tc f = record f { tcomp_id = tc }

-- `CLCK_STR` has 21 characters. `metr` is set nowhere.
unfoldable pub fix_render_tm : (ℕ → Bytes) → ℕ → Fix → Fix × Bytes
fix_render_tm strftime now f =
    let clck' = if ltb f.metr now then strftime now else f.clck in
    (record f { clck = clck' }, take 21 clck')

-- The digits of the sequence number, the lowest first. A number has fewer digits than itself.
unfoldable pub seq_digits : ℕ → ℕ → Bytes
seq_digits zero s = []
seq_digits (suc fuel) s = elim (s == 0) [ true ↦ [] | false ↦ digit s ∷ seq_digits fuel (s / 10) ]

-- The loop that swaps the ends, from index `i` on; `rounds` are left.
unfoldable pub swap_ends : ℕ → ℕ → Bytes → Bytes
swap_ends zero i s = s
swap_ends (suc rounds) i s =
    let j = length s - (i + 1) in
    swap_ends rounds (i + 1) (set (set s i (get_or s j 0)) j (get_or s i 0))

unfoldable pub render_seq : ℕ → Bytes
unfolding seq_digits swap_ends
render_seq s = let ds = seq_digits s s in swap_ends (length ds / 2) 0 ds

unfoldable pub soh_for_nul : Bytes → Bytes
soh_for_nul [] = []
soh_for_nul (c ∷ s) = (if c == 0 then soh else c) ∷ soh_for_nul s

-- "49=" with the sender's id, where there is one.
unfoldable pub render_scomp : Bytes → Bytes
render_scomp [] = []
render_scomp (c ∷ s) = b'4' ∷ b'9' ∷ b'=' ∷ (c ∷ s ++ soh ∷ [])

-- What stands behind the header, up to the checksum; `tm` is the stamp.
unfoldable pub render_body : Fix → Bytes → Message → Bytes
unfolding render_seq render_scomp soh_for_nul
render_body f tm m =
    b'3'
    ∷ b'5'
    ∷ b'='
    ∷ m.typ % 256
    ∷ soh
    ∷ b'3'
    ∷ b'4'
    ∷ b'='
    ∷ (render_seq f.seq
        ++ soh
          ∷ (render_scomp f.scomp_id
              ++ b'5'
                ∷ b'2'
                ∷ b'='
                ∷ (tm ++ soh ∷ b'5' ∷ b'6' ∷ b'=' ∷ (f.tcomp_id ++ soh ∷ soh_for_nul m.msg))))

-- The last three digits of a number.
abbrev pub three_digits : ℕ → Bytes
three_digits n = digit (n / 10 / 10) ∷ digit (n / 10) ∷ digit n ∷ []

-- "8=FIX.4.4" SOH "9=XXX" SOH, with the body's length put over the three marks.
unfoldable pub render_header : ℕ → Bytes
render_header msz = codes "8=FIX.4.4" ++ soh ∷ b'9' ∷ b'=' ∷ (three_digits msz ++ soh ∷ [])

-- "10=" with the checksum of what stands before it.
unfoldable pub render_trailer : ℕ → Bytes
render_trailer ck = b'1' ∷ b'0' ∷ b'=' ∷ (three_digits ck ++ soh ∷ [])

-- The `len` octets of the message; a newline and a NUL are stored behind them. The sequence number
-- is an `unsigned int`.
unfoldable pub fix_render : (ℕ → Bytes) → ℕ → Fix → Message → Fix × Bytes
fix_render strftime now f m =
    let (f', tm) = fix_render_tm strftime now f in
    let body = render_body f tm m in
    let text = render_header (length body) ++ body in
    (record f' { seq = (f.seq + 1) % 2 ^ 32 }, text ++ render_trailer (fix_chksum text))

-- What `fix_parse` returns: the type, where the message starts in the buffer, and the field of 56
-- bits that holds its length.
pub record Parsed : Type 0 where
  pub typ : ℕ
  pub off : ℕ
  pub len : ℕ

-- Up to `n` octets from `j` on are looked at for a SOH: the index behind it.
unfoldable pub find_soh : ℕ → Bytes → ℕ → Option ℕ
find_soh zero buf j = none
find_soh (suc n) buf j =
    let later = find_soh n buf (j + 1) in if get_or buf j 0 == soh then some (j + 1) else later

-- From the tag 35 on, which starts at `j`.
unfoldable pub parse_type : Bytes → ℕ → Option ℕ → Option Parsed
parse_type buf bsz none = none
parse_type buf bsz (some j) =
    let off = j + 4 + (if get_or buf (j + 4) 0 == soh then 0 else 1) in
    if get_or buf j 0 == b'3' && get_or buf (j + 1) 0 == b'5' && get_or buf (j + 2) 0 == b'='
    then some
        (record { typ = get_or buf (j + 3) 0; off = off; len = (bsz + 2 ^ 64 - off) % 2 ^ 56 })
    else none

unfoldable pub nul_for_soh : Bytes → Bytes
nul_for_soh [] = []
nul_for_soh (c ∷ s) = (if c == soh then 0 else c) ∷ nul_for_soh s

-- The buffer of `bsz` octets as it is left, and the result; `none` is the empty message. The tests
-- may read behind the `bsz` octets: `beyond` is what stands there.
unfoldable pub fix_parse : Bytes → Bytes → Bytes × Option Parsed
unfolding find_soh parse_type nul_for_soh starts_with
fix_parse buf beyond =
    let fhdr = codes "8=FIX.4.4" ++ soh ∷ b'9' ∷ b'=' ∷ [] in
    if ltb (length buf) 12
    then (buf, none)
    else if not (starts_with fhdr buf)
    then (buf, none)
    else elim (parse_type (buf ++ beyond) (length buf) (find_soh 5 (buf ++ beyond) 13)) [
      | none ↦ (buf, none)
      | some p ↦ (nul_for_soh buf, some p)
    ]

-- The octets that a result points to.
abbrev pub message_of : Bytes → Parsed → Bytes
message_of buf p = take p.len (drop p.off buf)
