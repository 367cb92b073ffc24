-- ===== src/Fix/Checksum.antt =====
-- The length and the checksum that a rendered message carries.
use coins.Prelude.{
  ℕ, ◌+◌, ◌/◌, ◌%◌, ◌^◌, ◌<◌, ◌≡◌, refl, ap, ◌∙◌, [], ◌∷◌, ◌++◌, append_assoc, Bytes, length, drop,
  arith,
}
use coins.Libc.Decimal.{strtoul-print_padded}
use coins.Libc.{codes, strtoul, print_padded}
use coins.Search.{uint_of_char}
use coins.Fix.{
  Fix, Message, char_sum, fix_chksum, fix_render_tm, render_body, three_digits, render_header,
  render_trailer, fix_render, soh,
}
use coins.Fix.Sequence.{digit_lem}

-- The octets added up.
abbrev pub sum : Bytes → ℕ
sum [] = 0
sum (c ∷ s) = c + sum s

char_sum-sum : (res : ℕ) (s : Bytes) → char_sum res s % 256 ≡ (res + sum s) % 256
unfolding char_sum
char_sum-sum res [] = omega arith
char_sum-sum res (c ∷ s) = ground (arith, char_sum-sum ((res + uint_of_char c) % 2 ^ 32) s)

-- The checksum is the sum of the octets modulo 256, whatever the sign of a character.
pub fix_chksum-sum : (s : Bytes) → fix_chksum s ≡ sum s % 256
unfolding fix_chksum
fix_chksum-sum s = omega (arith, char_sum-sum 0 s)

three_digits-print_padded : (n : ℕ) → three_digits n ≡ print_padded 3 n
unfolding print_padded
three_digits-print_padded n = cc (digit_lem n, digit_lem (n / 10), digit_lem (n / 10 / 10))

-- A body behind its length in three decimal digits.
abbrev pub with_length : Bytes → Bytes
with_length body =
    codes "8=FIX.4.4" ++ soh ∷ b'9' ∷ b'=' ∷ (print_padded 3 (length body) ++ soh ∷ body)

-- A text before the sum of its octets modulo 256, in three decimal digits.
abbrev pub with_sum : Bytes → Bytes
with_sum text = text ++ b'1' ∷ b'0' ∷ b'=' ∷ (print_padded 3 (sum text % 256) ++ soh ∷ [])

render_header-with_length : (body : Bytes) → render_header (length body) ++ body ≡ with_length body
unfolding render_header
render_header-with_length body =
    ap (λ (ds : Bytes). codes "8=FIX.4.4" ++ soh ∷ b'9' ∷ b'=' ∷ (ds ++ soh ∷ body))
      (three_digits-print_padded (length body))

render_trailer-with_sum : (text : Bytes) → text ++ render_trailer (fix_chksum text) ≡ with_sum text
unfolding render_trailer
render_trailer-with_sum text =
    ap (λ (ds : Bytes). text ++ b'1' ∷ b'0' ∷ b'=' ∷ (ds ++ soh ∷ []))
      (three_digits-print_padded (fix_chksum text))
    ∙ ap (λ (n : ℕ). text ++ b'1' ∷ b'0' ∷ b'=' ∷ (print_padded 3 n ++ soh ∷ []))
        (fix_chksum-sum text)

-- A rendered message is the body behind the last three digits of its length, before the sum of all
-- that; the next sequence number is one more, and the comp ids stay.
fix_render_parts :
    (strftime : ℕ → Bytes) (now : ℕ) (f : Fix) (m : Message)
    → ((fix_render strftime now f m).1
        ≡ with_sum (with_length (render_body f (fix_render_tm strftime now f).1 m)))
      × ((fix_render strftime now f m).0.seq ≡ (f.seq + 1) % 2 ^ 32)
      × ((fix_render strftime now f m).0.scomp_id ≡ f.scomp_id)
      × ((fix_render strftime now f m).0.tcomp_id ≡ f.tcomp_id)
unfolding fix_render fix_render_tm
fix_render_parts strftime now f m =
    let body = render_body f (fix_render_tm strftime now f).1 m in
    (
      ap (λ (t : Bytes). t ++ render_trailer (fix_chksum t)) (render_header-with_length body)
          ∙ render_trailer-with_sum (with_length body),
      refl,
      refl,
      refl,
    )

print_padded_wraps : (n : ℕ) → print_padded 3 n ≡ print_padded 3 (n % 1000)
unfolding print_padded
print_padded_wraps n =
    let lo : n % 10 ≡ n % 1000 % 10 = omega arith in
    let mid : n / 10 % 10 ≡ n % 1000 / 10 % 10 = omega arith in
    let hi : n / 10 / 10 % 10 ≡ n % 1000 / 10 / 10 % 10 = omega arith in cc

-- The header says how long the body is, modulo a thousand.
fix_render-length :
    (strftime : ℕ → Bytes) (now : ℕ) (f : Fix) (m : Message)
    → (strtoul (drop 12 (fix_render strftime now f m).1)).0
      ≡ length (render_body f (fix_render_tm strftime now f).1 m) % 1000
fix_render-length strftime now f m =
    let body = render_body f (fix_render_tm strftime now f).1 m in
    let after = b'1' ∷ b'0' ∷ b'=' ∷ (print_padded 3 (sum (with_length body) % 256) ++ soh ∷ []) in
    let n = length body in
    ap (λ (t : Bytes). (strtoul (drop 12 t)).0) (fix_render_parts strftime now f m).0
    ∙ ap (λ (t : Bytes). (strtoul t).0) (append_assoc (print_padded 3 n) (soh ∷ body) after)
    ∙ ap (λ (t : Bytes). (strtoul (t ++ soh ∷ (body ++ after))).0) (print_padded_wraps n)
    ∙ ap (λ (r : ℕ × Bytes). r.0)
        (strtoul-print_padded 2 (n % 1000) (soh ∷ (body ++ after)) (omega arith) (omega arith) refl)

-- A rendered message whose body has fewer than 1000 octets is that body behind a header whose length
-- field is read back as the length of the body, before the sum of all that; the next sequence number
-- is one more, and the comp ids stay.
pub fix_render-with_sum :
    (strftime : ℕ → Bytes) (now : ℕ) (f : Fix) (m : Message)
    → length (render_body f (fix_render_tm strftime now f).1 m) < 1000
    → ((fix_render strftime now f m).1
        ≡ with_sum (with_length (render_body f (fix_render_tm strftime now f).1 m)))
      × ((strtoul (drop 12 (fix_render strftime now f m).1)).0
          ≡ length (render_body f (fix_render_tm strftime now f).1 m))
      × ((fix_render strftime now f m).0.seq ≡ (f.seq + 1) % 2 ^ 32)
      × ((fix_render strftime now f m).0.scomp_id ≡ f.scomp_id)
      × ((fix_render strftime now f m).0.tcomp_id ≡ f.tcomp_id)
fix_render-with_sum strftime now f m small =
    let parts = fix_render_parts strftime now f m in
    let whole : length (render_body f (fix_render_tm strftime now f).1 m) % 1000
        ≡ length (render_body f (fix_render_tm strftime now f).1 m) =
      omega (arith, small) in
    (parts.0, fix_render-length strftime now f m ∙ whole, parts.1, parts.2, parts.3)
