-- ===== src/Reader.antt =====
-- Reading a delivered packet piece by piece: `swiftnet_client_read_packet` and
-- `swiftnet_server_read_packet` of src/generic_functions.c, which are the same statements on the
-- packet data of either side. A pointer is its offset from `data`.
pub mod Bounds
mod Tests
use swift_net.Base.{ℕ, ◌+◌, ◌%◌, ◌^◌, Option, none, some, List, [], ◌∷◌, ltb, if◌then◌else◌}

-- `SwiftNetClientPacketData`, `SwiftNetServerPacketData`
pub record PacketData : Type 0 where
  pub current_pointer : ℕ
  pub data_length : ℕ

-- The pointer that is returned, a null pointer as `none`, and the packet data afterwards.
unfoldable pub read_packet : ℕ → PacketData → Option ℕ × PacketData
read_packet data_size packet_data =
    let data_already_read = (packet_data.current_pointer % 2 ^ 32 + data_size) % 2 ^ 32 in
    if ltb packet_data.data_length data_already_read then (none, packet_data) else (
      some packet_data.current_pointer,
      record packet_data { current_pointer = packet_data.current_pointer + data_size },
    )
