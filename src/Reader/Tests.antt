-- ===== src/Reader/Tests.antt =====
-- A packet of ten bytes, read in pieces.
use swift_net.Base.{◌-◌, ◌^◌, ◌≡◌, some, [], ◌∷◌, arith}
use swift_net.Reader.{PacketData, read_packet}
use swift_net.Reader.Bounds.{
  read_packets, AreConsecutive, read_packets-AreConsecutive, read_packet-wraps,
}

abbrev ten_bytes : PacketData
ten_bytes = record { current_pointer = 4; data_length = 10 }

read_packets-AreConsecutive_example :
    AreConsecutive 4 10 (read_packets (2 ∷ 7 ∷ 4 ∷ []) ten_bytes).0
read_packets-AreConsecutive_example =
    read_packets-AreConsecutive (2 ∷ 7 ∷ 4 ∷ []) ten_bytes (omega arith)
      (omega arith, (omega arith, (omega arith, omega arith)))

read_packet-wraps_example :
    ((read_packet (2 ^ 32 - 4) ten_bytes).0 ≡ some 4)
    × ((read_packet (2 ^ 32 - 4) ten_bytes).1.current_pointer ≡ 2 ^ 32)
read_packet-wraps_example = read_packet-wraps ten_bytes (omega arith) (omega arith) (omega arith)
