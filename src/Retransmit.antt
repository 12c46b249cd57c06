-- ===== src/Retransmit.antt =====
-- `handle_lost_packets` and `request_lost_packets_bitarray` of src/send_packet.c (pcap backend): the
-- sender of a packet in chunks asks for the list of lost ones, looks at its entry of
-- `packets_sending` until the thread that processes packets has changed it, and sends the chunks of
-- the list again, until the receiver has the packet. A step of `step` is what lies between two
-- accesses of the entry.
pub mod Safety
pub mod Waiting
pub mod Listed
pub mod Round
pub mod Completes
mod Entry
mod Tests
use swift_net.Base.{
  ℕ, suc, ◌+◌, ◌*◌, Bool, true, false, Option, none, some, List, ◌++◌, [], ◌∷◌, length, ltb, leb,
  if◌then◌else◌,
}
use swift_net.Base.Buffer.{read}
use swift_net.Control.{with_checksum}
use swift_net.Control.Peers.{
  Host, PacketSending, Updated, no_update, updated_lost_chunks, successfully_received,
}
use swift_net.Control.Words.{words_of_bytes}
use swift_net.Packet.{
  Packet, PacketInfo, PortInfo, packet_header_size, construct_ip_header, construct_packet_info,
}
use swift_net.Packet.PacketType.{send_lost_packets_request}
use swift_net.Routing.{from_bytes}
use swift_net.Send.{resend_chunk}

-- `request_lost_packets_buffer`
unfoldable pub lost_packets_request :
    (PacketInfo → List ℕ → ℕ) → Host → ℕ → PortInfo → PacketSending → Packet
unfolding construct_ip_header construct_packet_info
lost_packets_request checksum_of host destination_address port_info packet_sending =
    with_checksum checksum_of record {
      ip_header =
          construct_ip_header host.private_ip_address destination_address packet_header_size
            packet_sending.packet_id;
      packet_info =
          construct_packet_info host.maximum_transmission_unit 0 send_lost_packets_request 1 0
            port_info;
      payload = [];
    }

-- Where the sender stands: about to ask, in the loop that looks at the entry, about to send the lost
-- chunk at an index of the list again, or back from `handle_lost_packets`.
pub data Phase : Type 0 where
  requesting : Phase
  polling : ℕ → Phase
  resending : ℕ → Phase
  returned : Phase

-- The sender: `listed` says whether `packets_sending` has its entry, `requests` how often it has
-- asked, and `frames` what it has sent again.
pub record Sender : Type 0 where
  pub phase : Phase
  pub packet_sending : PacketSending
  pub listed : Bool
  pub requests : ℕ
  pub frames : List (List ℕ)
  pub buffer : List ℕ

-- The entry that `swiftnet_send_packet` puts into `packets_sending`.
unfoldable pub new_packet_sending : ℕ → PacketSending
new_packet_sending packet_id = record {
  lost_chunks = none;
  lost_chunks_size = 0;
  updated = no_update;
  current_send_delay = 50;
  packet_id = packet_id;
}

-- The array behind `lost_chunks`, as far as the loop reads it.
unfoldable pub lost_chunks_of : PacketSending → Option (List ℕ)
unfolding words_of_bytes
lost_chunks_of packet_sending = elim packet_sending.lost_chunks [
  | none ↦ words_of_bytes packet_sending.lost_chunks_size []
  | some bytes ↦ words_of_bytes packet_sending.lost_chunks_size bytes
]

-- `lost_chunks[i]`
unfoldable pub lost_chunk_at : ℕ → PacketSending → Option ℕ
unfolding from_bytes
lost_chunk_at i packet_sending = elim packet_sending.lost_chunks [
  | none ↦ none
  | some bytes ↦
      if leb (i * 4 + 4) (length bytes) then some (from_bytes (read bytes (i * 4) 4)) else none
]

-- One look at `updated`.
unfoldable pub poll : ℕ → Sender → Sender
poll times_checked sender = elim sender.packet_sending.updated [
  | no_update ↦ record sender { phase = polling (times_checked + 1) }
  | updated_lost_chunks ↦ record sender {
    phase = resending 0;
    packet_sending = record sender.packet_sending { updated = no_update };
  }
  | successfully_received ↦ record sender {
    phase = returned;
    packet_sending = record sender.packet_sending { updated = no_update };
    listed = false;
  }
]

module _ (crc32 : List ℕ → ℕ) (prepend_size mtu packet_length packet_data_start : ℕ)
    (prepend_buffer : List ℕ) where
  -- A round of the loop over `lost_chunks`, which looks at the size and at the list as they are by
  -- then.
  unfoldable pub resend : ℕ → Sender → Option Sender
  unfolding lost_chunk_at
  resend i sender =
      if ltb i sender.packet_sending.lost_chunks_size
      then elim (lost_chunk_at i sender.packet_sending) [
        | none ↦ none
        | some lost_chunk_index ↦
            elim (resend_chunk crc32 prepend_size mtu packet_length packet_data_start prepend_buffer
              lost_chunk_index sender.buffer) [
                | none ↦ none
                | some (frame, buffer') ↦ some (record sender {
                  phase = resending (i + 1);
                  frames = sender.frames ++ (frame ∷ []);
                  buffer = buffer';
                })
              ]
      ]
      else some (record sender { phase = requesting })

  -- The step from a phase; `none` is a read outside of `lost_chunks`, or a chunk outside
  -- of the buffer.
  unfoldable pub step_from : Phase → Sender → Option Sender
  step_from requesting sender =
      some (record sender { phase = polling 0; requests = sender.requests + 1 })
  step_from (polling times_checked) sender = some (
      if ltb times_checked 0xff
      then poll times_checked sender
      else record sender { phase = requesting })
  step_from (resending i) sender = resend i sender
  step_from returned sender = some sender

  unfoldable pub step : Sender → Option Sender
  step sender = step_from sender.phase sender
