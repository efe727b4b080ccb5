-- ===== src/Tests/Captured.antt =====
-- The analyzer on small captured packets.
use eo_ip_rs.Base.{replicate, panic, ℕ, ◌≡◌, List, [], ◌∷◌, ◌++◌, arith}
use eo_ip_rs.Analyzer.Ip.{parse_ip_header}
use eo_ip_rs.Analyzer.Captured.{parse_ip_header_panics}

abbrev tagged : List ℕ
tagged = replicate 12 7 ++ (0x81 ∷ 0 ∷ 0xA0 ∷ 100 ∷ 8 ∷ 6 ∷ [])

-- A header of 20 bytes that gives a total length of 19.
parse_ip_header_panics_example :
    parse_ip_header
      (0x45 ∷ 0 ∷ 0 ∷ 19 ∷ 0 ∷ 0 ∷ 0 ∷ 0 ∷ 64 ∷ 47 ∷ 0 ∷ 0 ∷ 10 ∷ 0 ∷ 0 ∷ 1 ∷ 10 ∷ 0 ∷ 0 ∷ 2 ∷ [])
    ≡ panic
parse_ip_header_panics_example =
    parse_ip_header_panics 0x45 0 0 19 0 0 0 0 64 47 0 0 10 0 0 1 10 0 0 2 [] (omega arith)
      (omega arith) (omega arith) (omega arith)
