-- ===== src/Ws/Url/Parts.antt =====
-- A URL put together from its parts is taken apart into them.
use coins.Prelude.{
  ℕ, ◌<◌, ◌≡◌, ◌≢◌, refl, sym, append-nil, ap, ◌∙◌, some, Bool, true, false, [], ◌∷◌, ◌++◌, Bytes,
  All, All-append, if◌then◌else◌, arith,
}
use coins.Libc.{codes, strtoul, print_ulong}
use coins.Libc.Chars.{memchr-append, memchr-eq-none}
use coins.Libc.Decimal.{strtoul-print_ulong, print_ulong-IsDigit, IsDigit}
use coins.Ws.{Proto}
use coins.Ws.Url.{guess_proto, at_slash, find_port, parse_url}

-- How each protocol is spelled.
abbrev pub scheme_text : Proto → Bytes
scheme_text Proto.raw = codes "ws"
scheme_text Proto.wamp = codes "wamp"
scheme_text Proto.sio1 = codes "sio1"
scheme_text Proto.sio3 = codes "sio3"
scheme_text Proto.rest = codes "http"

abbrev pub tls_text : Bool → Bytes
tls_text true = codes "s"
tls_text false = []

abbrev pub url_of : Proto → Bool → Bytes → Bytes
url_of p ssl host = scheme_text p ++ (tls_text ssl ++ (codes "://" ++ host))

guess_proto-url_of :
    (p : Proto) (ssl : Bool) (host : Bytes)
    → guess_proto (url_of p ssl host) ≡ record { proto = p; ssl = ssl; host = host }
unfolding guess_proto
guess_proto-url_of Proto.raw true host = refl
guess_proto-url_of Proto.raw false host = refl
guess_proto-url_of Proto.wamp true host = refl
guess_proto-url_of Proto.wamp false host = refl
guess_proto-url_of Proto.sio1 true host = refl
guess_proto-url_of Proto.sio1 false host = refl
guess_proto-url_of Proto.sio3 true host = refl
guess_proto-url_of Proto.sio3 false host = refl
guess_proto-url_of Proto.rest true host = refl
guess_proto-url_of Proto.rest false host = refl

-- A character of a host's name.
abbrev pub IsHostChar : ℕ → Type 0
IsHostChar c = (c ≢ b'/') × (c ≢ b':')

no_slash : (s : Bytes) → All IsHostChar s → All (λ (d : ℕ). d ≢ b'/') s
no_slash [] h = h
no_slash (c ∷ s) h = (h.0.0, no_slash s h.1)

no_colon : (s : Bytes) → All IsHostChar s → All (λ (d : ℕ). d ≢ b':') s
no_colon [] h = h
no_colon (c ∷ s) h = (h.0.1, no_colon s h.1)

digit-IsHostChar : (c : ℕ) → IsDigit c → IsHostChar c
digit-IsHostChar c h = ground arith

digits_host : (s : Bytes) → All IsDigit s → All IsHostChar s
digits_host [] h = h
digits_host (c ∷ s) h = (digit-IsHostChar c h.0, digits_host s h.1)

parse_url-guess :
    (p : Proto) (ssl : Bool) (authority rsrc : Bytes)
    → All (λ (d : ℕ). d ≢ b'/') authority
    → parse_url (url_of p ssl (authority ++ b'/' ∷ rsrc))
      ≡ find_port
          (record { proto = p; ssl = ssl; host = authority ++ b'/' ∷ rsrc })
          (authority, rsrc)
unfolding parse_url at_slash
parse_url-guess p ssl authority rsrc h =
    rw (guess_proto-url_of p ssl (authority ++ b'/' ∷ rsrc), memchr-append b'/' authority rsrc h)
      refl

-- A URL with a port that a `short unsigned int` holds, but for 0, is taken apart into its parts.
pub parse_url-url_of :
    (p : Proto) (ssl : Bool) (host : Bytes) (port : ℕ) (rsrc : Bytes)
    → All IsHostChar host
    → 0 < port
    → port < 65536
    → parse_url (url_of p ssl ((host ++ b':' ∷ print_ulong port) ++ b'/' ∷ rsrc))
      ≡ some (record {
        proto = p;
        ssl = ssl;
        host = host;
        port = port;
        authority = host ++ b':' ∷ print_ulong port;
        rsrc = rsrc;
      })
unfolding find_port
parse_url-url_of p ssl host port rsrc h lo hi =
    let digits =
      no_slash (print_ulong port) (digits_host (print_ulong port) (print_ulong-IsDigit port)) in
    parse_url-guess p ssl (host ++ b':' ∷ print_ulong port) rsrc (
      All-append (λ (d : ℕ). d ≢ b'/') host (b':' ∷ print_ulong port) (no_slash host h)
        ((λ e. omega arith), digits))
    ∙ rw (memchr-append b':' host (print_ulong port) (no_colon host h)) (
        let x : (strtoul (print_ulong port)).0 ≡ port =
          ap (λ (s : Bytes). (strtoul s).0) (sym (append-nil (print_ulong port)))
          ∙ ap (λ (r : ℕ × Bytes). r.0) (strtoul-print_ulong port [] (omega arith) refl) in
        ground (arith, x))

-- With no port the port is that of the protocol.
pub parse_url-default_port :
    (p : Proto) (ssl : Bool) (host rsrc : Bytes)
    → All IsHostChar host
    → parse_url (url_of p ssl (host ++ b'/' ∷ rsrc))
      ≡ some (record {
        proto = p;
        ssl = ssl;
        host = host;
        port = if ssl then 443 else 80;
        authority = host;
        rsrc = rsrc;
      })
unfolding find_port
parse_url-default_port p ssl host rsrc h =
    parse_url-guess p ssl host rsrc (no_slash host h)
    ∙ rw (memchr-eq-none b':' host (no_colon host h)) refl
