-- ===== src/ClientHello/Tests.antt =====
-- Runs of the parser of a ClientHello.
use enimul.Common.{◌≡◌, refl, [], ◌∷◌, arith, Bytes, true, false}
use enimul.Common.Int.{pos}
use enimul.Outcome.{ok}
use enimul.Outcome.Ensures.{Ensures}
use enimul.ClientHello.{parse_client_hello}
use enimul.ClientHello.Bounds.{WellPlaced, parse_client_hello-WellPlaced}

-- A ClientHello of TLS 1.3 for the name "ab.example.org", in its record.
abbrev pub client_hello : Bytes
client_hello =
    22 ∷ 3 ∷ 1 ∷ 0 ∷ 77 ∷ 1 ∷ 0 ∷ 0 ∷ 73 ∷ 3 ∷ 3 ∷ 0 ∷ 1 ∷ 2 ∷ 3 ∷ 4 ∷ 5 ∷ 6 ∷ 7 ∷ 8 ∷ 9 ∷ 10 ∷ 11
    ∷ 12 ∷ 13 ∷ 14 ∷ 15 ∷ 16 ∷ 17 ∷ 18 ∷ 19 ∷ 20 ∷ 21 ∷ 22 ∷ 23 ∷ 24 ∷ 25 ∷ 26 ∷ 27 ∷ 28 ∷ 29 ∷ 30
    ∷ 31 ∷ 0 ∷ 0 ∷ 2 ∷ 19 ∷ 1 ∷ 1 ∷ 0 ∷ 0 ∷ 30 ∷ 0 ∷ 43 ∷ 0 ∷ 3 ∷ 2 ∷ 3 ∷ 4 ∷ 0 ∷ 0 ∷ 0 ∷ 19 ∷ 0
    ∷ 17 ∷ 0 ∷ 0 ∷ 14 ∷ 97 ∷ 98 ∷ 46 ∷ 101 ∷ 120 ∷ 97 ∷ 109 ∷ 112 ∷ 108 ∷ 101 ∷ 46 ∷ 111 ∷ 114 ∷ 103
    ∷ []

parse_client_hello_run :
    parse_client_hello client_hello
    ≡ ok (record {
      prt_ver = 3 ∷ 3 ∷ [];
      found = record { sni_start = pos 68; sni_len = 14; is_tls13 = true; has_ech = false };
    })
unfolding parse_client_hello
parse_client_hello_run = refl

parse_client_hello-WellPlaced_example :
    Ensures (λ hello. WellPlaced client_hello hello.found) (parse_client_hello client_hello)
parse_client_hello-WellPlaced_example = parse_client_hello-WellPlaced client_hello (omega arith)
