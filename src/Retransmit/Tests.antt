-- ===== src/Retransmit/Tests.antt =====
-- The five bytes of src/tests sent in chunks of two, of which chunk 1 got lost on its way.
use swift_net.Base.{
  ℕ, ◌%◌, ◌*◌, ◌+◌, ◌≡◌, ◌≢◌, ◌<◌, ◌⊎◌, refl, Bool, true, false, some, List, [], ◌∷◌, ◌++◌, map,
  replicate, length-replicate, arith,
}
use swift_net.Base.Buffer.{memcpy, read}
use swift_net.Control.{store_lost_chunks}
use swift_net.Control.Words.{words_of_bytes}
use swift_net.Send.Chunked.{AreChunks}
use swift_net.Control.Peers.{Host, updated_lost_chunks}
use swift_net.Packet.{Packet, PacketInfo, PortInfo}
use swift_net.Receive.{Conversation}
use swift_net.Receive.Delivery.{idle}
use swift_net.Receive.Once.{AreBelow, receive_all, packets_of}
use swift_net.Retransmit.{
  Sender, lost_chunks_of, step, step_from, new_packet_sending, polling, returned,
}
use swift_net.Retransmit.Completes.{Retransmitted, received-Retransmitted}
use swift_net.Retransmit.Safety.{
  Reach, here, and_then, loops, told_lost, sent_once, resent_chunk, reached-step,
}
use swift_net.Retransmit.Waiting.{steps, asking, steps-asking}
use swift_net.Send.{chunk_data_size, chunk_amount_of}

abbrev small_host : Host
small_host = record {
  maximum_transmission_unit = 48;
  private_ip_address = 0x0100007f;
  source_port = 4000;
  prepend_size = 4;
}

abbrev large_host : Host
large_host = record small_host { maximum_transmission_unit = 1500; source_port = 8080 }

abbrev no_checksum : PacketInfo → List ℕ → ℕ
no_checksum packet_info bytes = 0

abbrev ports : PortInfo
ports = record { destination_port = 8080; source_port = 4000 }

abbrev header : PacketInfo
header = record {
  packet_length = 0;
  chunk_amount = 0;
  chunk_index = 0;
  checksum = 0;
  port_info = ports;
  maximum_transmission_unit = 48;
  packet_type = 1;
}

abbrev old_bytes : ℕ → List ℕ
old_bytes n = replicate n 9

abbrev never : ℕ → ℕ → Bool
never a b = false

abbrev nine_bytes : List ℕ
nine_bytes = 1 ∷ 2 ∷ 3 ∷ 4 ∷ 5 ∷ 6 ∷ 7 ∷ 8 ∷ 9 ∷ []

longer : chunk_data_size 48 < 9
unfolding chunk_data_size
longer = omega arith

ragged : 9 % chunk_data_size 48 ≢ 0
unfolding chunk_data_size
ragged = omega arith

second-AreBelow : AreBelow (chunk_amount_of 9 48) (2 ∷ [])
unfolding chunk_amount_of
second-AreBelow = (omega arith, omega arith)

received-Retransmitted_example :
    (conversation : Conversation) × (receive_all old_bytes never 1500
        (packets_of (chunk_data_size 48) (chunk_amount_of 9 48) header nine_bytes (0 ∷ 2 ∷ []))
        (idle false)
      ≡ some conversation)
    × ((conversation.delivered ≡ nine_bytes ∷ [])
        ⊎ Retransmitted no_checksum small_host large_host 0 ports old_bytes never 0
            (new_packet_sending 7)
            false
            header
            nine_bytes
            conversation
            [])
unfolding new_packet_sending
received-Retransmitted_example =
    received-Retransmitted no_checksum small_host large_host 0 ports old_bytes never 0
      (new_packet_sending 7) false header nine_bytes (λ n. length-replicate n 9) refl refl refl
      (omega arith) (omega arith) longer (omega arith) ragged (2 ∷ []) [] second-AreBelow

-- An answer with chunk 1 in its list.
abbrev answer : Packet
answer = record {
  ip_header = record { ip_len = 0; ip_id = 7; ip_sum = 0; ip_src = 0; ip_dst = 0 };
  packet_info = record header { packet_length = 4; packet_type = 4 };
  payload = 1 ∷ 0 ∷ 0 ∷ 0 ∷ [];
}

abbrev no_crc : List ℕ → ℕ
no_crc bytes = 0

abbrev headers : List ℕ
headers = replicate 44 0

abbrev whole_buffer : List ℕ
whole_buffer = headers ++ nine_bytes

abbrev told : Sender
told = record (sent_once 7 whole_buffer) {
  phase = polling 0;
  requests = 1;
  packet_sending = record (new_packet_sending 7) {
    lost_chunks = some (1 ∷ 0 ∷ 0 ∷ 0 ∷ []);
    lost_chunks_size = 1;
    updated = updated_lost_chunks;
  };
}

abbrev asked : Sender
asked = record (sent_once 7 whole_buffer) { phase = polling 0; requests = 1 }

told-Reach : Reach no_crc 0 48 9 44 headers small_host old_bytes (sent_once 7 whole_buffer) told
unfolding step step_from new_packet_sending store_lost_chunks memcpy read lost_chunks_of
    words_of_bytes chunk_data_size
told-Reach =
    and_then (and_then here (loops {sender = sent_once 7 whole_buffer} {sender' = asked} refl))
      (told_lost answer (1 ∷ []) refl refl refl (omega arith, omega arith))

reached-step_example :
    ((sender' : Sender) × (step no_crc 0 48 9 44 headers told ≡ some sender'))
    × (told.buffer ≡ whole_buffer)
    × ((chunks : List ℕ) × AreChunks (chunk_data_size 48) 9 chunks
        × (told.frames ≡ map (resent_chunk no_crc 0 48 9 44 headers whole_buffer) chunks))
    × ((told.listed ≡ true) ⊎ (told.phase ≡ returned))
reached-step_example =
    reached-step no_crc 0 48 9 44 headers whole_buffer small_host old_bytes 7 told (omega arith)
      (omega arith) (omega arith) (omega arith) refl (omega arith) (omega arith) told-Reach

steps-asking_example :
    steps no_crc 0 48 9 44 [] (2 * 257) (asking (sent_once 7 nine_bytes) 0)
    ≡ some (asking (sent_once 7 nine_bytes) (0 + 2))
unfolding new_packet_sending
steps-asking_example = steps-asking no_crc 0 48 9 44 [] (sent_once 7 nine_bytes) refl 2 0
