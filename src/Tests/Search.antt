-- ===== src/Tests/Search.antt =====
-- Searches in short texts.
use coins.Prelude.{◌≡◌, refl, some, none, Bytes}
use coins.Libc.{codes, starts_with}
use coins.Search.{xmemmem}
use coins.Search.Correct.{xmemmem-find_after}
use coins.Search.{find_after}

abbrev hay : Bytes
hay = codes "HTTP/1.1 101\r\n\r\n{}"

found : xmemmem hay (codes "\r\n\r\n") ≡ some 16
unfolding xmemmem
found = refl

rolled : xmemmem (codes "aabab") (codes "ab") ≡ some 3
unfolding xmemmem starts_with
rolled = refl

not_found : xmemmem (codes "aab") (codes "ba") ≡ none
unfolding xmemmem
not_found = refl

xmemmem-find_after_example : xmemmem hay (codes "\n\r") ≡ find_after (codes "\n\r") hay 0
xmemmem-find_after_example = xmemmem-find_after hay (codes "\n\r")
