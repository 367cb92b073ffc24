-- ===== src/Fix/RoundTrip.antt =====
-- What `fix_parse` makes of a message that `fix_render` rendered.
use coins.Prelude.{
  ℕ, suc, ◌+◌, ◌/◌, ◌%◌, ◌^◌, ◌<◌, ◌≡◌, ◌≢◌, refl, ap, ap₂, ◌∙◌, [], ◌∷◌, ◌++◌, append_assoc, Bytes,
  length, take, drop, take_all, arith, if◌then◌else◌, some, Option, ◌==◌,
}
use coins.Libc.{codes}
use coins.Fix.{
  digit, Fix, Message, Parsed, fix_chksum, fix_render_tm, render_body, render_header,
  render_trailer, fix_render, soh, fix_parse, nul_for_soh, soh_for_nul, message_of, render_seq,
  render_scomp,
}
use coins.Fix.Sequence.{digit_lem}

nul_for_soh-append : (s t : Bytes) → nul_for_soh (s ++ t) ≡ nul_for_soh s ++ nul_for_soh t
unfolding nul_for_soh
nul_for_soh-append [] t = refl
nul_for_soh-append (c ∷ s) t =
    ap (λ (u : Bytes). (if c == soh then 0 else c) ∷ u) (nul_for_soh-append s t)

length-nul_for_soh : (s : Bytes) → length (nul_for_soh s) ≡ length s
unfolding nul_for_soh
length-nul_for_soh [] = refl
length-nul_for_soh (c ∷ s) = ap suc (length-nul_for_soh s)

-- Both separators of a message come out as NUL.
nul_for_soh-soh_for_nul : (s : Bytes) → nul_for_soh (soh_for_nul s) ≡ nul_for_soh s
unfolding nul_for_soh soh_for_nul
nul_for_soh-soh_for_nul [] = refl
nul_for_soh-soh_for_nul (c ∷ s) = ground (arith, nul_for_soh-soh_for_nul s)

abbrev shaped : ℕ → ℕ → ℕ → ℕ → Bytes → Bytes
shaped d₁ d₂ d₃ typ more =
    codes "8=FIX.4.4"
    ++ soh ∷ b'9' ∷ b'=' ∷ d₁ ∷ d₂ ∷ d₃ ∷ soh ∷ b'3' ∷ b'5' ∷ b'=' ∷ typ ∷ soh ∷ more

parse_shaped :
    (d₁ d₂ d₃ typ : ℕ) (more beyond : Bytes)
    → d₂ ≢ soh
    → d₃ ≢ soh
    → length more < 2 ^ 55
    → fix_parse (shaped d₁ d₂ d₃ typ more) beyond ≡ (
      nul_for_soh (shaped d₁ d₂ d₃ typ more),
      some (record { typ = typ; off = 20; len = length more + 1 }),
    )
unfolding fix_parse
parse_shaped d₁ d₂ d₃ typ more beyond h₂ h₃ fits = ground arith

-- What is rendered between the type and the user's message: sequence number, sender, stamp and
-- target.
abbrev pub fields : Fix → Bytes → Bytes
fields f tm =
    b'3'
    ∷ b'4'
    ∷ b'='
    ∷ (render_seq f.seq
        ++ soh
          ∷ (render_scomp f.scomp_id
              ++ b'5' ∷ b'2' ∷ b'=' ∷ (tm ++ soh ∷ b'5' ∷ b'6' ∷ b'=' ∷ (f.tcomp_id ++ soh ∷ []))))

render_body-fields :
    (f : Fix) (tm : Bytes) (m : Message)
    → render_body f tm m
      ≡ b'3' ∷ b'5' ∷ b'=' ∷ m.typ % 256 ∷ soh ∷ (fields f tm ++ soh_for_nul m.msg)
unfolding render_body
render_body-fields f tm m = simp append_assoc

-- The octets behind the type.
abbrev behind_type : Fix → Bytes → Message → Bytes → Bytes
behind_type f tm m trailer = (fields f tm ++ soh_for_nul m.msg) ++ trailer

rendered-shaped :
    (f : Fix) (tm : Bytes) (m : Message) (trailer : Bytes)
    → let n = length (render_body f tm m) in
      (render_header n ++ render_body f tm m) ++ trailer
      ≡ shaped
          (digit (n / 10 / 10))
          (digit (n / 10))
          (digit n)
          (m.typ % 256)
          (behind_type f tm m trailer)
unfolding render_header
rendered-shaped f tm m trailer =
    let n = length (render_body f tm m) in
    ap (λ (b : Bytes). (render_header n ++ b) ++ trailer) (render_body-fields f tm m)

digit-ne-soh : (n : ℕ) → digit n ≢ soh
digit-ne-soh n = λ e. omega (arith, digit_lem n)

message_of-shaped :
    (d₁ d₂ d₃ typ : ℕ) (more : Bytes) (p : Parsed)
    → p.off ≡ 20
    → p.len ≡ length more + 1
    → message_of (nul_for_soh (shaped d₁ d₂ d₃ typ more)) p ≡ 0 ∷ nul_for_soh more
unfolding nul_for_soh
message_of-shaped d₁ d₂ d₃ typ more p o l =
    let whole = shaped d₁ d₂ d₃ typ more in
    let len : p.len ≡ suc (length (nul_for_soh more)) = omega (arith, length-nul_for_soh more) in
    ap₂ (λ (n k : ℕ). take n (drop k (nul_for_soh whole))) len o
    ∙ ap (λ (t : Bytes). 0 ∷ t) (take_all (nul_for_soh more))

nuls :
    (f : Fix) (tm : Bytes) (m : Message) (trailer : Bytes)
    → nul_for_soh (behind_type f tm m trailer)
      ≡ nul_for_soh (fields f tm) ++ (nul_for_soh m.msg ++ nul_for_soh trailer)
nuls f tm m trailer =
    nul_for_soh-append (fields f tm ++ soh_for_nul m.msg) trailer
    ∙ ap (λ (t : Bytes). t ++ nul_for_soh trailer)
        (nul_for_soh-append (fields f tm) (soh_for_nul m.msg)
          ∙ ap (λ (t : Bytes). nul_for_soh (fields f tm) ++ t) (nul_for_soh-soh_for_nul m.msg))
    ∙ append_assoc (nul_for_soh (fields f tm)) (nul_for_soh m.msg) (nul_for_soh trailer)

-- A rendered message of fewer than 2 ^ 55 octets is parsed: its type, and behind the fields of the
-- session the user's message, whose separators come out as NUL whether they were NUL or SOH.
pub fix_parse-fix_render :
    (strftime : ℕ → Bytes) (now : ℕ) (f : Fix) (m : Message) (beyond : Bytes)
    → length (fix_render strftime now f m).1 < 2 ^ 55
    → (p : Parsed) × (trailer : Bytes) × ((fix_parse (fix_render strftime now f m).1 beyond).1
        ≡ some p)
      × (p.typ ≡ m.typ % 256)
      × (message_of (fix_parse (fix_render strftime now f m).1 beyond).0 p
          ≡ 0
            ∷ (nul_for_soh (fields f (fix_render_tm strftime now f).1)
                ++ (nul_for_soh m.msg ++ trailer)))
      × (length trailer ≡ 7)
unfolding fix_render render_trailer
fix_parse-fix_render strftime now f m beyond fits =
    let tm = (fix_render_tm strftime now f).1 in
    let n = length (render_body f tm m) in
    let trailer = render_trailer (fix_chksum (render_header n ++ render_body f tm m)) in
    let more = behind_type f tm m trailer in
    let shape = rendered-shaped f tm m trailer in
    let room : length more < 2 ^ 55 = omega (arith, ap length shape) in
    let parsed =
      ap (λ (t : Bytes). fix_parse t beyond) shape
      ∙ parse_shaped (digit (n / 10 / 10)) (digit (n / 10)) (digit n) (m.typ % 256) more beyond
          (digit-ne-soh (n / 10)) (digit-ne-soh n) room in
    let p : Parsed = record { typ = m.typ % 256; off = 20; len = length more + 1 } in
    (
      p,
      nul_for_soh trailer,
      ap (λ (r : Bytes × Option Parsed). r.1) parsed,
      refl,
      ap (λ (r : Bytes × Option Parsed). message_of r.0 p) parsed
          ∙ message_of-shaped (digit (n / 10 / 10)) (digit (n / 10)) (digit n) (m.typ % 256) more p
              refl refl
          ∙ ap (λ (t : Bytes). 0 ∷ t) (nuls f tm m trailer),
      length-nul_for_soh trailer,
    )
