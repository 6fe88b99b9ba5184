-- ===== src/Forwards/Examples.antt =====
-- Two reverses.
use adbq.Prelude.{◌≡◌, arith, List, [], ◌∷◌, Text, codes, map}
use adbq.Forwards.{parse_reverse_list}
use adbq.Forwards.Listed.{
  AllMappings, tagged, untagged, reverse_of, print_rows, parse_reverse_list-mappings,
}

abbrev two_ports : List (Text × Text)
two_ports = (codes "tcp:8081", codes "tcp:9000") ∷ (codes "tcp:3000", codes "tcp:3000") ∷ []

two_ports-AllMappings : AllMappings two_ports
two_ports-AllMappings = (ground arith, ground arith, (ground arith, ground arith, tt))

parse_reverse_list-mappings_example :
    (parse_reverse_list (print_rows (map tagged two_ports)) (codes "R58M")
      ≡ map (reverse_of (codes "R58M")) two_ports)
    × (parse_reverse_list (print_rows (map untagged two_ports)) (codes "R58M") ≡ [])
parse_reverse_list-mappings_example =
    parse_reverse_list-mappings (codes "R58M") two_ports two_ports-AllMappings
