-- ===== src/Tests/Rest.antt =====
-- A reply with a length, in two reads, and one whose header comes alone.
use coins.Prelude.{◌≡◌, refl, some, none, true, false, [], ◌∷◌, ◌++◌, Bytes, arith}
use coins.Libc.{codes, strtoul, starts_with}
use coins.Search.{xmemmem}
use coins.Ws.Rest.{got, fresh, rest_recv}
use coins.Ws.Rest.Parts.{IsHead, in_header, rest_all, rest_all-reads_of, rest_all_loses}

abbrev header : Bytes
header = codes "HTTP/1.1 200 OK\r\nContent-Length: 7\r\n\r\n"

abbrev room : Bytes
room = codes "...."

head : IsHead 7 header (codes "{}") room
unfolding xmemmem strtoul starts_with
head = (32, refl, refl, refl)

head_alone : IsHead 7 header [] room
unfolding xmemmem strtoul starts_with
head_alone = (32, refl, refl, refl)

chunk :
    rest_recv
      (record { togo = 0; hdr_seen = true; len_seen = false; enc_seen = true })
      (some (codes "2\r\n{}\r\n"))
      room
    ≡ got (record { togo = 0; hdr_seen = true; len_seen = false; enc_seen = true }) (codes "{}")
unfolding rest_recv
chunk = refl

rest_all-reads_of_example :
    rest_all (fresh 0) ((header ++ codes "{}", room) ∷ (codes "\n{1}.", room) ∷ [])
    ≡ some (fresh 0, codes "{}\n{1}.\n")
rest_all-reads_of_example =
    rest_all-reads_of 7 header (codes "{}") room ((codes "\n{1}.", room) ∷ []) head (omega arith)
      (omega arith) (omega arith) refl (omega arith)

no_end : xmemmem (codes "{}\n{1}.") (codes "\r\n\r\n") ≡ none
unfolding xmemmem
no_end = refl

rest_all_loses_example :
    rest_all (fresh 0) ((header ++ [], room) ∷ (codes "{}\n{1}.", room) ∷ [])
    ≡ some (in_header 7, [])
rest_all_loses_example =
    rest_all_loses 7 header room ((codes "{}\n{1}.", room) ∷ []) head_alone (omega arith)
      (omega arith) (no_end, tt)
