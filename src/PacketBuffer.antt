-- ===== src/PacketBuffer.antt =====
-- The buffer that the user fills before sending: src/internal/pcap/pcap_buffer.c, whose client and
-- server functions are the same. A pointer is its offset from `packet_buffer_start`; `none` is the
-- exit on bad arguments, or a write outside of the buffer.
pub mod Appended
mod Tests
use swift_net.Base.{
  ℕ, ◌+◌, ◌-◌, ◌%◌, ◌^◌, Option, none, some, List, length, leb, ◌==◌, if◌then◌else◌,
}
use swift_net.Base.Buffer.{memcpy}
use swift_net.Packet.{packet_header_size}

-- `sizeof(struct ether_header)`
abbrev pub sizeof_ether_header : ℕ
sizeof_ether_header = 14

-- `SwiftNetPacketBuffer`, with the memory that its pointers point into.
pub record PacketBuffer : Type 0 where
  pub memory : List ℕ
  pub packet_data_start : ℕ
  pub packet_append_pointer : ℕ

unfoldable pub create_packet_buffer : (ℕ → List ℕ) → ℕ → PacketBuffer
create_packet_buffer malloc buffer_size = record {
  memory = malloc ((buffer_size + packet_header_size + sizeof_ether_header) % 2 ^ 32);
  packet_data_start = packet_header_size + sizeof_ether_header;
  packet_append_pointer = packet_header_size + sizeof_ether_header;
}

-- `memcpy (memory + at) bytes`, for the whole of `bytes`.
unfoldable pub copy_into : List ℕ → ℕ → List ℕ → Option (List ℕ)
copy_into memory at bytes =
    if leb (at + length bytes) (length memory) then some (memcpy memory at bytes) else none

unfoldable pub resize_packet_buffer : (List ℕ → ℕ → List ℕ) → ℕ → PacketBuffer → PacketBuffer
resize_packet_buffer realloc new_buffer_size packet_buffer =
    let current_offset =
      (packet_buffer.packet_append_pointer - packet_buffer.packet_data_start) % 2 ^ 32 in
    record {
      memory =
          realloc packet_buffer.memory
            ((new_buffer_size + (packet_header_size + sizeof_ether_header)) % 2 ^ 32);
      packet_data_start = packet_header_size + sizeof_ether_header;
      packet_append_pointer = packet_header_size + sizeof_ether_header + current_offset;
    }

unfoldable pub write_packet_buffer : ℕ → List ℕ → PacketBuffer → Option PacketBuffer
write_packet_buffer byte_offset bytes packet_buffer =
    elim (copy_into packet_buffer.memory (packet_buffer.packet_data_start + byte_offset) bytes) [
      | none ↦ none
      | some memory ↦ some (record packet_buffer { memory = memory })
    ]

-- `swiftnet_append_to_buffer`
unfoldable pub append_to_buffer : List ℕ → PacketBuffer → Option PacketBuffer
append_to_buffer bytes packet_buffer =
    if length bytes == 0
    then none
    else elim (copy_into packet_buffer.memory packet_buffer.packet_append_pointer bytes) [
      | none ↦ none
      | some memory ↦ some (record packet_buffer {
        memory = memory;
        packet_append_pointer = packet_buffer.packet_append_pointer + length bytes;
      })
    ]
