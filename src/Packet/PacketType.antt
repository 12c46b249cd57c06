-- ===== src/Packet/PacketType.antt =====
-- `PacketType` of src/swift_net.h; any other byte takes the `default` of a switch.
use swift_net.Base.{ℕ}

abbrev pub message : ℕ
message = 0x01

abbrev pub request_information : ℕ
request_information = 0x02

abbrev pub send_lost_packets_request : ℕ
send_lost_packets_request = 0x03

abbrev pub send_lost_packets_response : ℕ
send_lost_packets_response = 0x04

abbrev pub successfully_received_packet : ℕ
successfully_received_packet = 0x05

abbrev pub packet_delay_update : ℕ
packet_delay_update = 0x06

abbrev pub request : ℕ
request = 0x07

abbrev pub response : ℕ
response = 0x08
