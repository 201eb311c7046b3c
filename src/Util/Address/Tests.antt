-- ===== src/Util/Address/Tests.antt =====
-- "10.0.2.15", and three strings that are no addresses.
use flopnix.Base.{◌+◌, ◌*◌, ◌≡◌, refl, none, some, [], ◌∷◌, arith}
use flopnix.Util.Address.{net_parse_ip, parse_parts}
use flopnix.Util.Address.Laws.{dotted, net_parse_ip-dotted}

too_big : net_parse_ip (b'2' ∷ b'5' ∷ b'6' ∷ b'.' ∷ b'1' ∷ []) ≡ none
unfolding net_parse_ip parse_parts
too_big = refl

too_short : net_parse_ip (b'1' ∷ b'.' ∷ b'2' ∷ b'.' ∷ b'3' ∷ []) ≡ none
unfolding net_parse_ip parse_parts
too_short = refl

net_parse_ip-dotted_example :
    net_parse_ip (dotted 10 0 2 15) ≡ some (10 + 0 * 256 + 2 * 65536 + 15 * 16777216)
net_parse_ip-dotted_example =
    net_parse_ip-dotted 10 0 2 15 (omega arith) (omega arith) (omega arith) (omega arith)
