-- ===== src/Ws/Rest/Parts.antt =====
-- A reply with a length, in parts.
use coins.Prelude.{
  ℕ, ◌+◌, ◌-◌, ◌^◌, ◌<◌, ◌≡◌, refl, sym, ap, ◌∙◌, Option, none, some, true, false, List, [], ◌∷◌,
  ◌++◌, Bytes, length, length-append, length-drop, drop, take-length_append, drop-length_append,
  ◌==◌, arith, All, append-nil, append_assoc,
}
use coins.Libc.{codes, strtoul}
use coins.Search.{xmemmem}
use coins.Ws.Rest.{
  Rest, Got, got, fresh, on_length, on_body, on_end, on_headers, see_headers, on_seen, rest_recv,
}

-- A reply of which the header has been seen, with `n` octets to go.
abbrev pub in_body : ℕ → Rest
in_body n = record { togo = n; hdr_seen = true; len_seen = true; enc_seen = false }

abbrev pub behind : Bytes → Option (Rest × Bytes) → Option (Rest × Bytes)
behind out none = none
behind out (some (ws, more)) = some (ws, out ++ more)

-- One read after the other, each with what stands behind it in the buffer: the octets delivered.
abbrev pub on_got : (Rest → Option (Rest × Bytes)) → Got → Option (Rest × Bytes)
on_got later (got ws out) = elim (later ws) [
  | none ↦ none
  | some (ws', more) ↦ some (ws', out ++ more)
]
on_got later _ = none

abbrev pub rest_all : Rest → List (Bytes × Bytes) → Option (Rest × Bytes)
rest_all ws [] = some (ws, [])
rest_all ws ((read, beyond) ∷ reads) =
    on_got (λ (ws' : Rest). rest_all ws' reads) (rest_recv ws (some read) beyond)

abbrev pub reads_of : List (Bytes × Bytes) → Bytes
reads_of [] = []
reads_of ((read, beyond) ∷ reads) = read ++ reads_of reads

-- Something is read, and there is room behind it.
abbrev pub IsPart : Bytes × Bytes → Type 0
IsPart (read, beyond) = (0 < length read) × (0 < length beyond)

body_part :
    (n : ℕ) (read beyond : Bytes)
    → length read < n
    → n < 2 ^ 63
    → rest_recv (in_body n) (some read) beyond ≡ got (in_body (n - length read)) read
unfolding rest_recv on_seen
body_part n read beyond h small = ground (arith, take-length_append read beyond)

body_end :
    (n : ℕ) (read beyond : Bytes)
    → length read ≡ n
    → 0 < length beyond
    → rest_recv (in_body n) (some read) beyond ≡ got (fresh 0) (read ++ b'\n' ∷ [])
unfolding rest_recv on_seen
body_end n read beyond h room =
    rw (← h) (ground (arith, take-length_append read beyond, length-append read beyond))

body_reads :
    (n : ℕ) (read beyond : Bytes) (reads : List (Bytes × Bytes))
    → All IsPart ((read, beyond) ∷ reads)
    → n ≡ length (reads_of ((read, beyond) ∷ reads))
    → n < 2 ^ 63
    → rest_all (in_body n) ((read, beyond) ∷ reads)
      ≡ some (fresh 0, reads_of ((read, beyond) ∷ reads) ++ b'\n' ∷ [])
body_reads n read beyond [] parts e small =
    let len : length (read ++ []) ≡ length read = ap length (append-nil read) in
    rw (body_end n read beyond (omega arith) parts.0.1, append-nil, append-nil) refl
body_reads n read beyond ((next, beyond') ∷ reads) parts e small =
    let len : length (read ++ reads_of ((next, beyond') ∷ reads))
        ≡ length read + length (reads_of ((next, beyond') ∷ reads)) =
      length-append read (reads_of ((next, beyond') ∷ reads)) in
    let some' : length (reads_of ((next, beyond') ∷ reads))
        ≡ length next + length (reads_of reads) =
      length-append next (reads_of reads) in
    let later =
      body_reads (n - length read) next beyond' reads parts.1 (omega arith) (omega arith) in
    ap (on_got (λ (ws' : Rest). rest_all ws' ((next, beyond') ∷ reads)))
      (body_part n read beyond (omega (arith, parts.1.0.0)) small)
    ∙ ap (behind read) later
    ∙ ap (λ (t : Bytes). some (fresh 0, t))
        (sym (append_assoc read (reads_of ((next, beyond') ∷ reads)) (b'\n' ∷ [])))

-- What the first read says: a length of `n`, and a header that ends before `body`.
abbrev pub IsHead : ℕ → Bytes → Bytes → Bytes → Type 0
IsHead n header body beyond =
    (p : ℕ) × (xmemmem (header ++ body) (codes "Content-Length:") ≡ some p)
    × ((strtoul (drop p ((header ++ body) ++ beyond))).0 ≡ n)
    × (xmemmem (header ++ body) (codes "\r\n\r\n") ≡ some (length header))

head_part :
    (n : ℕ) (header body beyond : Bytes)
    → IsHead n header body beyond
    → 0 < length body
    → rest_recv (fresh 0) (some (header ++ body)) beyond
      ≡ on_length
          (in_body n)
          (length body)
          (body ++ drop (length body) ((header ++ body) ++ beyond))
unfolding rest_recv see_headers on_headers on_seen on_end on_body
head_part n header body beyond (p, found, value, end') some' =
    let rest : length (header ++ body) - length header ≡ length body =
      omega (arith, length-append header body) in
    let moved : drop (length header) ((header ++ body) ++ beyond) ≡ body ++ beyond =
      ap (drop (length header)) (append_assoc header body beyond)
      ∙ drop-length_append header (body ++ beyond) in
    let more : (length body == 0) ≡ false = ground arith in
    rw (found, value, end', rest, more, moved, take-length_append body beyond) refl

length_part :
    (n : ℕ) (body stale : Bytes)
    → length body < n
    → n < 2 ^ 63
    → on_length (in_body n) (length body) (body ++ stale) ≡ got (in_body (n - length body)) body
unfolding on_length
length_part n body stale h small = ground (arith, take-length_append body stale)

length_end :
    (n : ℕ) (body stale : Bytes)
    → length body ≡ n
    → 0 < length stale
    → on_length (in_body n) (length body) (body ++ stale) ≡ got (fresh 0) (body ++ b'\n' ∷ [])
unfolding on_length
length_end n body stale h room =
    rw (← h) (ground (arith, take-length_append body stale, length-append body stale))

-- A reply with a length of less than 2 ^ 63 octets, of which something comes with the header: what
-- is delivered is its body and a newline, however it is cut into reads, as long as each read has
-- room behind it. The state is then as of a new reply.
pub rest_all-reads_of :
    (n : ℕ) (header body beyond : Bytes) (reads : List (Bytes × Bytes))
    → IsHead n header body beyond
    → 0 < length header
    → 0 < length body
    → All IsPart reads
    → n ≡ length (body ++ reads_of reads)
    → n < 2 ^ 63
    → rest_all (fresh 0) ((header ++ body, beyond) ∷ reads)
      ≡ some (fresh 0, (body ++ reads_of reads) ++ b'\n' ∷ [])
rest_all-reads_of n header body beyond [] head header' body' parts e small =
    let len : length (body ++ []) ≡ length body = ap length (append-nil body) in
    let stale : 0 < length (drop (length body) ((header ++ body) ++ beyond)) = omega (
      arith,
      length-drop (length body) ((header ++ body) ++ beyond),
      length-append (header ++ body) beyond,
      length-append header body,
    ) in
    rw
      (
        head_part n header body beyond head body',
        length_end n body (drop (length body) ((header ++ body) ++ beyond)) (omega arith) stale,
        append-nil,
        append-nil,
      )
      refl
rest_all-reads_of n header body beyond ((next, beyond') ∷ reads) head header' body' parts e small =
    let len : length (body ++ reads_of ((next, beyond') ∷ reads))
        ≡ length body + length (reads_of ((next, beyond') ∷ reads)) =
      length-append body (reads_of ((next, beyond') ∷ reads)) in
    let some' : length (reads_of ((next, beyond') ∷ reads))
        ≡ length next + length (reads_of reads) =
      length-append next (reads_of reads) in
    let later = body_reads (n - length body) next beyond' reads parts (omega arith) (omega arith) in
    ap (on_got (λ (ws' : Rest). rest_all ws' ((next, beyond') ∷ reads))) (
      head_part n header body beyond head body'
      ∙ length_part n body (drop (length body) ((header ++ body) ++ beyond))
          (omega (arith, parts.0.0)) small)
    ∙ ap (behind body) later
    ∙ ap (λ (t : Bytes). some (fresh 0, t))
        (sym (append_assoc body (reads_of ((next, beyond') ∷ reads)) (b'\n' ∷ [])))

-- A read in which no header ends.
abbrev pub HasNoEnd : Bytes × Bytes → Type 0
HasNoEnd (read, beyond) = xmemmem read (codes "\r\n\r\n") ≡ none

-- The state where a length was read, and the header is not marked as seen.
abbrev pub in_header : ℕ → Rest
in_header n = record { togo = n; hdr_seen = false; len_seen = true; enc_seen = false }

header_alone :
    (n : ℕ) (header beyond : Bytes)
    → IsHead n header [] beyond
    → 0 < n
    → n < 2 ^ 63
    → rest_recv (fresh 0) (some (header ++ [])) beyond ≡ got (in_header n) []
unfolding rest_recv see_headers on_headers on_seen on_end on_body on_length
header_alone n header beyond (p, found, value, end') some' small =
    let rest : length (header ++ []) - length header ≡ 0 = omega (arith, length-append header []) in
    rw (found, value, end', rest) (ground arith)

body_lost :
    (n : ℕ) (body beyond : Bytes)
    → HasNoEnd (body, beyond)
    → rest_recv (in_header n) (some body) beyond ≡ got (in_header n) []
unfolding rest_recv see_headers on_seen on_end
body_lost n body beyond h = rw h refl

body_lost_reads :
    (n : ℕ) (reads : List (Bytes × Bytes))
    → All HasNoEnd reads
    → rest_all (in_header n) reads ≡ some (in_header n, [])
body_lost_reads n [] h = refl
body_lost_reads n ((body, beyond) ∷ reads) h =
    ap (on_got (λ (ws' : Rest). rest_all ws' reads)) (body_lost n body beyond h.0)
    ∙ ap (behind []) (body_lost_reads n reads h.1)

-- A header that comes alone in its read is not marked as seen, so that the body is searched for the
-- end of a header, and is lost: reads in which none is found deliver nothing, and do not count.
pub rest_all_loses :
    (n : ℕ) (header beyond : Bytes) (reads : List (Bytes × Bytes))
    → IsHead n header [] beyond
    → 0 < n
    → n < 2 ^ 63
    → All HasNoEnd reads
    → rest_all (fresh 0) ((header ++ [], beyond) ∷ reads) ≡ some (in_header n, [])
rest_all_loses n header beyond reads head some' small h =
    ap (on_got (λ (ws' : Rest). rest_all ws' reads)) (header_alone n header beyond head some' small)
    ∙ ap (behind []) (body_lost_reads n reads h)
