-- ===== src/Receive/Tests.antt =====
-- A message of five bytes in chunks of two; the last chunk arrives second, and twice.
use swift_net.Base.{
  refl, ℕ, ◌%◌, ◌<◌, ◌≡◌, ◌≢◌, ◌⊎◌, Bool, true, false, some, List, [], ◌∷◌, replicate,
  length-replicate, arith,
}
use swift_net.Send.{chunk_data_size, chunk_amount_of}
use swift_net.Base.Bits.{test_bit}
use swift_net.Base.Buffer.{read}
use swift_net.Packet.{PacketInfo}
use swift_net.Receive.{Conversation, PendingMessage, receive_next}
use swift_net.Receive.Delivery.{arrived, idle, info}
use swift_net.Receive.Multiple.{receive_next-ignores_last}
use swift_net.Receive.Once.{AreBelow, receive_all, packets_of, receive_all_lem}

abbrev header : PacketInfo
header = record {
  packet_length = 0;
  chunk_amount = 0;
  chunk_index = 0;
  checksum = 0;
  port_info = record { destination_port = 8080; source_port = 4000 };
  maximum_transmission_unit = 46;
  packet_type = 1;
}

abbrev five_bytes : List ℕ
five_bytes = 1 ∷ 2 ∷ 3 ∷ 4 ∷ 5 ∷ []

abbrev arrivals : List ℕ
arrivals = 2 ∷ 2 ∷ 1 ∷ []

abbrev old_bytes : ℕ → List ℕ
old_bytes n = replicate n 9

abbrev never : ℕ → ℕ → Bool
never a b = false

longer : chunk_data_size 46 < 5
unfolding chunk_data_size
longer = omega arith

ragged : 5 % chunk_data_size 46 ≢ 0
unfolding chunk_data_size
ragged = omega arith

arrivals-AreBelow : AreBelow (chunk_amount_of 5 46) arrivals
unfolding chunk_amount_of
arrivals-AreBelow = (omega arith, (omega arith, (omega arith, omega arith)))

receive_all_lem_example :
    (after : Conversation) × (receive_all old_bytes never 1500
        (packets_of (chunk_data_size 46) (chunk_amount_of 5 46) header five_bytes (0 ∷ arrivals))
        (idle false)
      ≡ some after)
    × ((after.delivered ≡ []) ⊎ (after.delivered ≡ five_bytes ∷ []))
    × (((k : ℕ) → k < chunk_amount_of 5 46 → arrived k (0 ∷ arrivals) ≡ true)
        → after.delivered ≡ five_bytes ∷ [])
receive_all_lem_example =
    receive_all_lem old_bytes never 1500 false header five_bytes arrivals
      (λ n. length-replicate n 9) refl (omega arith) (omega arith) longer (omega arith) ragged
      arrivals-AreBelow

-- Four bytes in chunks of two, of which the first chunk has arrived.
abbrev half : PendingMessage
half = record {
  chunk_amount = 2;
  chunks_received = 1 ∷ [];
  packet_data = 1 ∷ 2 ∷ 9 ∷ 9 ∷ [];
  chunks_received_number = 1;
  last_index_checked = 0;
  last_chunks_received_number = 0;
  sending_lost_packets = false;
}

receive_next-ignores_last_example :
    (after : Conversation) × (receive_next never 2
        (info 4 2 header 1)
        (3 ∷ 4 ∷ [])
        half
        (record (idle false) { pending_message = some half })
      ≡ some after)
    × (after.delivered ≡ read half.packet_data 0 4 ∷ [])
unfolding test_bit
receive_next-ignores_last_example =
    receive_next-ignores_last never 2 4 1 header (3 ∷ 4 ∷ []) half
      (record (idle false) { pending_message = some half }) refl refl (omega arith) (omega arith)
      (omega arith) refl refl
