-- ===== src/Tests/Clock.antt =====
-- Time stamps.
use coins.Prelude.{◌≡◌, refl, ◌++◌, arith}
use coins.Libc.{codes}
use coins.Clock.{strtotv, tvtostr, smstotv, not_a_time}
use coins.Clock.RoundTrip.{strtotv-tvtostr}

read_stamp : strtotv (codes "1500000000.123456789\t{}") ≡ (1500000000123456789, codes "\t{}")
unfolding strtotv
read_stamp = refl

two_digits : (strtotv (codes "12.34 ")).0 ≡ not_a_time
unfolding strtotv
two_digits = refl

millis : (smstotv (codes "1500000000123}")).0 ≡ 1500000000123000000
unfolding smstotv
millis = refl

strtotv-tvtostr_example :
    strtotv (tvtostr 1500000000000000042 ++ codes "\tx") ≡ (1500000000000000042, codes "\tx")
strtotv-tvtostr_example = strtotv-tvtostr 1500000000000000042 (codes "\tx") (omega arith) refl
