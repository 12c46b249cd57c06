-- ===== src/Receive/Multiple.antt =====
-- The last chunk of a message whose length is a multiple of the chunk size.
use swift_net.Base.{
  ℕ, ◌+◌, ◌*◌, ◌/◌, ◌%◌, ◌^◌, ◌≤◌, ◌<◌, ◌≡◌, refl, ap, ◌∙◌, Bool, true, false, some, List, [], ◌∷◌,
  ◌++◌, length, leb, le→leb, ◌==◌, ==_iff, arith,
}
use swift_net.Base.Buffer.{read}
use swift_net.Base.Copy.{memcpy-nil}
use swift_net.Chunks.Bitmap.{received, chunk_already_received_lem, chunk_received_lem}
use swift_net.Receive.{
  PendingMessage, Conversation, copy_from_packet, store_chunk, hand_on, receive_next,
}
use swift_net.Packet.{PacketInfo}
use swift_net.Packet.PacketType.{response}
use swift_net.Receive.Delivery.{info}

copy_nothing :
    (buffer packet_data : List ℕ) (at : ℕ)
    → at ≤ length buffer
    → copy_from_packet buffer at packet_data 0 ≡ some buffer
unfolding copy_from_packet read
copy_nothing buffer packet_data at le =
    let brought : leb 0 (length packet_data) ≡ true = le→leb _ _ (omega arith) in
    let fits : leb (at + 0) (length buffer) ≡ true = le→leb _ _ (omega arith) in
    rw (brought, fits, memcpy-nil buffer at)

-- Where the length of a message is a multiple of the chunk size, and its last chunk is the one that
-- completes it, the message that is handed on is what was in the pending buffer before: whatever
-- bytes the last chunk brings, none of them is copied. This is for a message that is no response, of
-- fewer than 2^32 chunks, each chunk but the last having been counted once, the last one not being
-- marked, and a bitmap and a buffer that reach up to the last chunk.
pub receive_next-ignores_last :
    (ratio_above : ℕ → ℕ → Bool) (size packet_length j : ℕ) (header : PacketInfo)
    (packet_data : List ℕ) (message : PendingMessage) (conversation : Conversation)
    → (header.packet_type == response) ≡ false
    → packet_length % size ≡ 0
    → j + 1 < 2 ^ 32
    → size * j % 2 ^ 32 ≤ length message.packet_data
    → j / 8 < length message.chunks_received
    → received message.chunks_received j ≡ false
    → message.chunks_received_number ≡ j
    → (after : Conversation) × (receive_next ratio_above size
          (info packet_length (j + 1) header j)
          packet_data
          message
          conversation
        ≡ some after)
      × (after.delivered
          ≡ conversation.delivered ++ (read message.packet_data 0 packet_length ∷ []))
unfolding receive_next store_chunk hand_on
receive_next-ignores_last ratio_above size packet_length j header packet_data message conversation
      plain multiple small room inside missed number =
    let looked = chunk_already_received_lem message.chunks_received j inside ∙ ap some missed in
    let completes : ((message.chunks_received_number + 1) % 2 ^ 32 == j + 1) ≡ true =
      (==_iff _ _).1 (omega (arith, number, small)) in
    let last : leb (j + 1) ((j + 1) % 2 ^ 32) ≡ true = le→leb _ _ (omega arith) in
    let (marks, marked, width, marks_lem) = chunk_received_lem message.chunks_received j inside in
    let message' = record message {
      chunks_received = marks;
      chunks_received_number = (message.chunks_received_number + 1) % 2 ^ 32;
    } in
    let stored : store_chunk (size * j % 2 ^ 32) j packet_data 0 message ≡ some message' = rw (
      store_chunk,
      copy_nothing message.packet_data packet_data (size * j % 2 ^ 32) room,
      marked,
    ) in
    (
      record conversation {
        completed = true;
        pending_message = some message';
        delivered = conversation.delivered ++ (read message.packet_data 0 packet_length ∷ []);
      },
      rw (receive_next, looked, completes, last, multiple, stored, hand_on, plain),
      refl,
    )
