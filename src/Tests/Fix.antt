-- ===== src/Tests/Fix.antt =====
-- A message of the session, rendered and parsed.
use coins.Prelude.{
  ℕ, ◌+◌, ◌%◌, ◌^◌, ◌<◌, ◌≡◌, refl, some, none, [], ◌∷◌, ◌++◌, Bytes, length, drop, arith,
}
use coins.Libc.{codes, strtoul}
use coins.Fix.{
  Message, Fix, Parsed, soh, fix_render_tm, render_body, fix_render, fix_parse, message_of,
  nul_for_soh, render_header, render_trailer, fix_chksum,
}
use coins.Fix.Checksum.{with_length, with_sum, fix_render-with_sum}
use coins.Fix.RoundTrip.{fields, fix_parse-fix_render}

abbrev stamp : ℕ → Bytes
stamp now = codes "20260101-00:00:00.000"

abbrev ok_session : Fix
ok_session = record {
  seq = 17;
  scomp_id = codes "okclient";
  tcomp_id = codes "OKSERVER";
  clck = codes "YYYYMMDD-HH:MM:SS.000";
  metr = 0;
}

abbrev beat : Message
beat = record { typ = b'0'; msg = codes "112=TEST" ++ 0 ∷ [] }

rendered :
    (fix_render stamp 1 ok_session beat).1
    ≡ codes "8=FIX.4.4"
      ++ soh
        ∷ (codes "9=069"
            ++ soh
              ∷ (codes "35=0"
                  ++ soh
                    ∷ (codes "34=17"
                        ++ soh
                          ∷ (codes "49=okclient"
                              ++ soh
                                ∷ (codes "52=20260101-00:00:00.000"
                                    ++ soh
                                      ∷ (codes "56=OKSERVER"
                                          ++ soh
                                            ∷ (codes "112=TEST"
                                                ++ soh ∷ (codes "10=250" ++ soh ∷ []))))))))
unfolding fix_render fix_render_tm render_body render_header render_trailer fix_chksum
rendered = refl

garbled : (fix_parse (codes "8=FIX.4.2") []).1 ≡ none
unfolding fix_parse
garbled = refl

small_body : length (render_body ok_session (fix_render_tm stamp 1 ok_session).1 beat) < 1000
unfolding fix_render_tm render_body
small_body = omega arith

fix_render-with_sum_example :
    ((fix_render stamp 1 ok_session beat).1
      ≡ with_sum (with_length (render_body ok_session (fix_render_tm stamp 1 ok_session).1 beat)))
    × ((strtoul (drop 12 (fix_render stamp 1 ok_session beat).1)).0
        ≡ length (render_body ok_session (fix_render_tm stamp 1 ok_session).1 beat))
    × ((fix_render stamp 1 ok_session beat).0.seq ≡ (17 + 1) % 2 ^ 32)
    × ((fix_render stamp 1 ok_session beat).0.scomp_id ≡ codes "okclient")
    × ((fix_render stamp 1 ok_session beat).0.tcomp_id ≡ codes "OKSERVER")
fix_render-with_sum_example = fix_render-with_sum stamp 1 ok_session beat small_body

-- A message with both separators.
abbrev mixed : Message
mixed = record { typ = b'V'; msg = codes "262=mreq" ++ soh ∷ (codes "263=1" ++ 0 ∷ []) }

short : length (fix_render stamp 1 ok_session mixed).1 < 2 ^ 55
unfolding fix_render fix_render_tm render_body render_header render_trailer fix_chksum
short = omega arith

fix_parse-fix_render_example :
    (p : Parsed) × (trailer : Bytes) × ((fix_parse (fix_render stamp 1 ok_session mixed).1 []).1
      ≡ some p)
    × (p.typ ≡ b'V' % 256)
    × (message_of (fix_parse (fix_render stamp 1 ok_session mixed).1 []).0 p
        ≡ 0
          ∷ (nul_for_soh (fields ok_session (fix_render_tm stamp 1 ok_session).1)
              ++ (nul_for_soh mixed.msg ++ trailer)))
    × (length trailer ≡ 7)
fix_parse-fix_render_example = fix_parse-fix_render stamp 1 ok_session mixed [] short
