-- ===== src/Retransmit/Round.antt =====
-- One round between a sender and a receiver: the sender's request, the receiver's answer, and the
-- chunks of the answer sent again.
use mathlib.Core.Option
use swift_net.Base.{
  ℕ, ◌+◌, ◌*◌, ◌/◌, ◌^◌, ◌≤◌, ◌<◌, ◌≡◌, refl, ap, ◌∙◌, Bool, true, Option, some, List, [], ◌∷◌,
  ◌++◌, length, take, drop, leb, arith, le→leb,
}
use swift_net.Base.Buffer.{memcpy, read, read_all, memcpy-start}
use swift_net.Chunks.Lost.{lost, return_lost_chunk_indexes_lem}
use swift_net.Control.{
  on_packet, lost_packets_answer, send_lost_packets, store_lost_chunks, lost_chunks_buffer,
  on_lost_packets_request,
}
use swift_net.Control.Peers.{Host, Peer, PacketSending, updated_lost_chunks}
use swift_net.Control.Words.{
  bytes_of_words, AreWords, length-bytes_of_words, words_of_bytes-bytes_of_words,
}
use swift_net.Packet.{Packet, PacketInfo, PortInfo, min_of}
use swift_net.Receive.{Conversation, PendingMessage}
use swift_net.Retransmit.{lost_packets_request, lost_chunks_of}
use swift_net.Send.{chunk_data_size}

module _ (checksum_of : PacketInfo → List ℕ → ℕ) (sender receiver : Host) (destination_address : ℕ)
    (port_info : PortInfo) (malloc : ℕ → List ℕ) (ratio_above : ℕ → ℕ → Bool) (random : ℕ)
    (target : PacketSending) where
  abbrev pub request : Packet
  request = lost_packets_request checksum_of sender destination_address port_info target

  abbrev pub size : ℕ
  size =
      chunk_data_size (min_of sender.maximum_transmission_unit receiver.maximum_transmission_unit)

  -- The receiver answers with as many of the lost chunks of its pending message as fit.
  pub asked_lem :
      (message : PendingMessage) (conversation : Conversation)
      (packet_sending : Option PacketSending) (answers : List Packet) (amount : ℕ)
      → message.chunk_amount ≡ amount
      → amount ≤ length message.chunks_received * 8
      → amount + 8 < 2 ^ 32
      → on_packet checksum_of receiver request malloc ratio_above random (record {
        conversation = record conversation { pending_message = some message };
        packet_sending = packet_sending;
        answers = answers;
      })
        ≡ some (record {
          conversation = record conversation {
            pending_message = some (record message { sending_lost_packets = true });
          };
          packet_sending = packet_sending;
          answers =
              answers
              ++ (lost_packets_answer checksum_of receiver request
                    (take (size / 4) (lost message.chunks_received 0 amount))
                  ∷ []);
        })
  unfolding on_packet lost_packets_request on_lost_packets_request chunk_data_size send_lost_packets
  asked_lem message conversation packet_sending answers amount of_amount covered no_wrap =
      let peer : Peer = record {
        conversation = record conversation { pending_message = some message };
        packet_sending = packet_sending;
        answers = answers;
      } in
      ap (Option.map (send_lost_packets checksum_of receiver request message peer)) (
        return_lost_chunk_indexes_lem message.chunks_received message.chunk_amount size
          (rw of_amount covered) (rw of_amount no_wrap)
        ∙ ap (λ n. some (take (size / 4) (lost message.chunks_received 0 n))) of_amount)

  -- The sender reads out of its entry the list that the answer was made of.
  pub told_lem :
      (lost_chunks : List ℕ)
      → AreWords lost_chunks
      → let answer = lost_packets_answer checksum_of receiver request lost_chunks in
        length lost_chunks * 4 ≤ length (lost_chunks_buffer sender answer malloc target)
        → (stored : PacketSending) × (store_lost_chunks sender answer malloc target ≡ some stored)
          × (stored.updated ≡ updated_lost_chunks)
          × (lost_chunks_of stored ≡ some lost_chunks)
  unfolding store_lost_chunks lost_packets_answer lost_chunks_of
  told_lem lost_chunks small room =
      let answer = lost_packets_answer checksum_of receiver request lost_chunks in
      let buffer = lost_chunks_buffer sender answer malloc target in
      let size : ℕ = length lost_chunks * 4 in
      let exact : length (bytes_of_words lost_chunks) ≡ size = length-bytes_of_words lost_chunks in
      let whole : read (bytes_of_words lost_chunks) 0 size ≡ bytes_of_words lost_chunks =
        read_all (bytes_of_words lost_chunks) size exact in
      let sent : leb size (length (bytes_of_words lost_chunks)) ≡ true =
        le→leb size _ (omega (arith, exact)) in
      let quotient : size / 4 ≡ length lost_chunks = omega arith in
      let copied : memcpy buffer 0 (bytes_of_words lost_chunks)
          ≡ bytes_of_words lost_chunks ++ drop size buffer =
        memcpy-start buffer (bytes_of_words lost_chunks) size exact in
      (
        record target {
          lost_chunks = some (bytes_of_words lost_chunks ++ drop size buffer);
          lost_chunks_size = length lost_chunks;
          updated = updated_lost_chunks;
        },
        rw (store_lost_chunks, le→leb size (length buffer) room, sent, whole, quotient, copied)
            refl,
        refl,
        words_of_bytes-bytes_of_words lost_chunks (drop size buffer) small,
      )
