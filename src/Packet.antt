-- ===== src/Packet.antt =====
-- The headers of a packet: src/swift_net.h (`SwiftNetPacketInfo`, `SwiftNetPortInfo`, `PacketType`)
-- and src/internal/internal.h (`PACKET_HEADER_SIZE`, `MIN`, `construct_packet_info`,
-- `construct_ip_header`).
pub mod PacketType
use swift_net.Base.Buffer.{little_endian}
use swift_net.Base.{ℕ, ◌+◌, ◌*◌, ◌/◌, ◌%◌, List, [], ◌∷◌, ◌++◌, ltb, if◌then◌else◌}

-- `sizeof(struct ip)` and `sizeof(struct SwiftNetPacketInfo)`, which is 23 bytes aligned to 4.
abbrev pub sizeof_ip : ℕ
sizeof_ip = 20

abbrev pub sizeof_packet_info : ℕ
sizeof_packet_info = 24

-- `sizeof(struct SwiftNetServerInformation)`, which is 2 bytes aligned to 4.
abbrev pub sizeof_server_information : ℕ
sizeof_server_information = 4

abbrev pub packet_header_size : ℕ
packet_header_size = sizeof_ip + sizeof_packet_info

-- `htons` on a little-endian machine; it is its own inverse.
unfoldable pub htons : ℕ → ℕ
htons x = x % 256 * 256 + x / 256 % 256

-- `SwiftNetPortInfo`
pub record PortInfo : Type 0 where
  pub destination_port : ℕ
  pub source_port : ℕ

-- `SwiftNetPacketInfo`
pub record PacketInfo : Type 0 where
  pub packet_length : ℕ
  pub chunk_amount : ℕ
  pub chunk_index : ℕ
  pub checksum : ℕ
  pub port_info : PortInfo
  pub maximum_transmission_unit : ℕ
  pub packet_type : ℕ

-- `struct ip`, the fields that the code reads or sets to other than a constant.
pub record Ip : Type 0 where
  pub ip_len : ℕ
  pub ip_id : ℕ
  pub ip_sum : ℕ
  pub ip_src : ℕ
  pub ip_dst : ℕ

-- A packet behind its link header.
pub record Packet : Type 0 where
  pub ip_header : Ip
  pub packet_info : PacketInfo
  pub payload : List ℕ

-- The macro `MIN`.
abbrev pub min_of : ℕ → ℕ → ℕ
min_of one two = if ltb two one then two else one

-- `construct_packet_info`; `maximum_transmission_unit` is the library's global.
unfoldable pub construct_packet_info : ℕ → ℕ → ℕ → ℕ → ℕ → PortInfo → PacketInfo
construct_packet_info maximum_transmission_unit packet_length packet_type chunk_amount chunk_index
      port_info =
    record {
      packet_length = packet_length;
      chunk_amount = chunk_amount;
      chunk_index = chunk_index;
      maximum_transmission_unit = maximum_transmission_unit;
      checksum = 0;
      port_info = port_info;
      packet_type = packet_type;
    }

-- `construct_ip_header`; `private_ip_address` is the library's global.
unfoldable pub construct_ip_header : ℕ → ℕ → ℕ → ℕ → Ip
unfolding htons
construct_ip_header private_ip_address destination_addr packet_size packet_id = record {
  ip_len = htons packet_size;
  ip_id = htons packet_id;
  ip_sum = htons 0;
  ip_src = private_ip_address;
  ip_dst = destination_addr;
}

-- The memory of a `SwiftNetPacketInfo`, its byte of padding taken as 0.
unfoldable pub bytes_of_packet_info : PacketInfo → List ℕ
unfolding little_endian
bytes_of_packet_info packet_info =
    little_endian 4 packet_info.packet_length
    ++ (little_endian 4 packet_info.chunk_amount
        ++ (little_endian 4 packet_info.chunk_index
            ++ (little_endian 4 packet_info.checksum
                ++ (little_endian 2 packet_info.port_info.destination_port
                    ++ (little_endian 2 packet_info.port_info.source_port
                        ++ (little_endian 2 packet_info.maximum_transmission_unit
                            ++ (little_endian 1 packet_info.packet_type ++ (0 ∷ []))))))))

-- The frame that `HANDLE_PACKET_CONSTRUCTION` puts together, behind a link header and with the bytes
-- of an IP header, and the data behind it.
unfoldable pub frame_of : List ℕ → List ℕ → Packet → List ℕ
unfolding bytes_of_packet_info
frame_of link_header ip_bytes packet =
    link_header ++ (ip_bytes ++ (bytes_of_packet_info packet.packet_info ++ packet.payload))
