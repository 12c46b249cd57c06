-- ===== src/Retransmit/Completes.antt =====
-- A message of which chunks got lost, completed by the first round of `handle_lost_packets`.
use swift_net.Base.{
  ℕ, ◌+◌, ◌-◌, ◌*◌, ◌/◌, ◌%◌, ◌^◌, ◌≤◌, ◌<◌, ◌≡◌, ◌≢◌, ◌⊎◌, refl, Bool, true, false, none, some,
  List, [], ◌∷◌, ◌++◌, length, take, length-take, arith, ◌==◌, inl, inr, Bool-cases, leb, leb→le,
  leb-false,
}
use swift_net.Base.Buffer.{take_all}
use swift_net.Chunks.Bitmap.{received}
use swift_net.Chunks.Lost.{lost}
use swift_net.Control.{on_packet, lost_packets_answer, store_lost_chunks, lost_chunks_buffer}
use swift_net.Control.Peers.{Host, Peer, PacketSending, updated_lost_chunks}
use swift_net.Packet.{Packet, PacketInfo, PortInfo, packet_header_size, min_of}
use swift_net.Packet.PacketType.{response}
use swift_net.Receive.{Conversation, PendingMessage}
use swift_net.Receive.Delivery.{arrived, idle, Reached, collecting, finished}
use swift_net.Receive.Message.{IsStored}
use swift_net.Receive.Once.{AreBelow, receive_all, packets_of, run_lem, started_lem, outcome, fits}
use swift_net.Retransmit.{lost_packets_request, lost_chunks_of}
use swift_net.Retransmit.Listed.{
  found, found-received, received-found, missed-lost, lost-AreBelow, take-AreBelow, below-AreWords,
}
use swift_net.Retransmit.Round.{asked_lem, told_lem}
use swift_net.Send.{chunk_data_size, chunk_amount_of}
use swift_net.Send.Chunked.{chunk_amount_of_lem, size_lem}

-- A list that is shorter than it might be has not been cut.
take_short : (n : ℕ) (xs : List ℕ) → length (take n xs) < n → take n xs ≡ xs
take_short n xs lt = take_all n xs (omega (arith, lt, length-take n xs))

module _ (checksum_of : PacketInfo → List ℕ → ℕ) (sender receiver : Host) (destination_address : ℕ)
    (port_info : PortInfo) (malloc : ℕ → List ℕ) (ratio_above : ℕ → ℕ → Bool) (random : ℕ)
    (target : PacketSending) (waiting : Bool) (header : PacketInfo) (bytes : List ℕ) where
  abbrev mtu : ℕ
  mtu = min_of sender.maximum_transmission_unit receiver.maximum_transmission_unit

  abbrev size : ℕ
  size = chunk_data_size mtu

  abbrev amount : ℕ
  amount = chunk_amount_of (length bytes) mtu

  abbrev request : Packet
  request = lost_packets_request checksum_of sender destination_address port_info target

  -- The chunks of the list arrive at the receiver, whose conversation has come to `conversation`.
  pub record Retransmitted (conversation : Conversation) (answers : List Packet) : Type 0 where
    pub answered : Peer
    pub answer : Packet
    pub stored : PacketSending
    pub lost_chunks : List ℕ
    pub after : Conversation
    pub asked :
        on_packet checksum_of receiver request malloc ratio_above random
          (record { conversation = conversation; packet_sending = none; answers = answers })
        ≡ some answered
    pub sent : answered.answers ≡ answers ++ (answer ∷ [])
    pub told : store_lost_chunks sender answer malloc target ≡ some stored
    pub updated : stored.updated ≡ updated_lost_chunks
    pub listed : lost_chunks_of stored ≡ some lost_chunks
    pub resent :
        receive_all malloc ratio_above receiver.maximum_transmission_unit
          (packets_of size amount header bytes lost_chunks)
          answered.conversation
        ≡ some after
    pub delivered : (size / 4 ≤ length lost_chunks) ⊎ (after.delivered ≡ bytes ∷ [])

  module _ (gives : (n : ℕ) → length (malloc n) ≡ n)
      (expected : (header.packet_type == response) ≡ waiting)
      (same_mtu : header.maximum_transmission_unit ≡ sender.maximum_transmission_unit)
      (first_round : target.lost_chunks ≡ none) (room : packet_header_size < mtu)
      (wire : mtu < 2 ^ 16) (long : size < length bytes) (no_wrap : length bytes + 2 ^ 16 ≤ 2 ^ 32)
      (ragged : length bytes % size ≢ 0) where
    of_size : size ≡ mtu - packet_header_size
    of_size = size_lem (length bytes) mtu room wire (omega (arith, long)) no_wrap

    bounds : (length bytes ≤ amount * size) × (amount * size < length bytes + size)
    bounds = chunk_amount_of_lem (length bytes) mtu room wire (omega (arith, long)) no_wrap

    pos : 0 < size
    pos = omega (arith, of_size, room)

    short : size < 2 ^ 16
    short = omega (arith, of_size, wire)

    sized :
        chunk_data_size (min_of header.maximum_transmission_unit receiver.maximum_transmission_unit)
        ≡ size
    sized = rw same_mtu refl

    -- What the receiver lists for a message of which it has a part.
    abbrev lost_chunks_in : PendingMessage → List ℕ
    lost_chunks_in message = take (size / 4) (lost message.chunks_received 0 amount)

    list-AreBelow : (message : PendingMessage) → AreBelow amount (lost_chunks_in message)
    list-AreBelow message =
        take-AreBelow amount (size / 4) _
          (lost-AreBelow message.chunks_received 0 amount amount (omega arith))

    -- Of all chunks, those not in a list that is not full had arrived before.
    all_seen :
        (message : PendingMessage) (seen' : List ℕ)
        → length (lost_chunks_in message) < size / 4
        → ((k : ℕ)
            → arrived k (found message.chunks_received 0 amount) ≡ true
            → arrived k seen' ≡ true)
        → ((k : ℕ) → arrived k (lost_chunks_in message) ≡ true → arrived k seen' ≡ true)
        → (k : ℕ) → k < amount
        → arrived k seen' ≡ true
    all_seen message seen' partly keeps adds k lt =
        elim (Bool-cases (received message.chunks_received k)) [
          | inl marked ↦
              keeps k (
                received-found message.chunks_received 0 amount k (omega arith) (omega arith)
                  marked)
          | inr missed ↦
              let uncut = take_short (size / 4) (lost message.chunks_received 0 amount) partly in
              adds k (
                rw uncut (
                  missed-lost message.chunks_received 0 amount k (omega arith) (omega arith)
                    missed))
        ]

    small : amount + 8 < 2 ^ 32
    small = omega (
      arith,
      no_wrap,
      fits size amount bytes pos short bounds.0 bounds.1 no_wrap long malloc gives waiting header,
    )

    -- The list fits into the buffer that the sender allocates for it.
    list_room :
        (message : PendingMessage) (answer : Packet)
        → length (lost_chunks_in message) * 4
          ≤ length (lost_chunks_buffer sender answer malloc target)
    list_room message answer =
        let least : mtu ≤ sender.maximum_transmission_unit = ground arith in
        rw first_round (
          omega (
            arith,
            gives (sender.maximum_transmission_unit - packet_header_size),
            length-take (size / 4) (lost message.chunks_received 0 amount),
            of_size,
            least,
          ))

    abbrev pending_with : PendingMessage → List Bool → Conversation
    pending_with message delay_changes = record {
      completed = false;
      pending_message = some message;
      request_sent = waiting;
      delivered = [];
      delay_changes = delay_changes;
    }

    round_lem :
        (message : PendingMessage) (delay_changes : List Bool) (answers : List Packet)
        → IsStored size amount bytes message
        → 0 < length (lost message.chunks_received 0 amount)
        → Retransmitted (pending_with message delay_changes) answers
    round_lem message delay_changes answers stored some_lost =
        let lost_chunks = lost_chunks_in message in
        let told_message = record message { sending_lost_packets = true } in
        let below = list-AreBelow message in
        let answer = lost_packets_answer checksum_of receiver request lost_chunks in
        let asked =
          asked_lem checksum_of sender receiver destination_address port_info malloc ratio_above
            random target message (pending_with message delay_changes) none answers amount
            stored.of_amount stored.width small in
        let (entry, told, updated, listed) =
          told_lem checksum_of sender receiver destination_address port_info malloc ratio_above
            random target lost_chunks
            (below-AreWords amount lost_chunks (omega (arith, small)) below)
            (list_room message answer) in
        let (after, seen', resent, reached, keeps, adds) =
          run_lem size amount bytes pos short bounds.0 bounds.1 no_wrap long malloc gives waiting
            header ragged ratio_above receiver.maximum_transmission_unit sized expected lost_chunks
            (found message.chunks_received 0 amount) (pending_with told_message delay_changes) below
            (collecting told_message delay_changes
              (record {
                of_amount = stored.of_amount;
                width = stored.width;
                room = stored.room;
                right = stored.right;
                number = stored.number;
              })
              some_lost (λ k lt among. found-received message.chunks_received 0 amount k among)) in
        record {
          answered = record {
            conversation = pending_with told_message delay_changes;
            packet_sending = none;
            answers = answers ++ (answer ∷ []);
          };
          answer = answer;
          stored = entry;
          lost_chunks = lost_chunks;
          after = after;
          asked = asked;
          sent = refl;
          told = told;
          updated = updated;
          listed = listed;
          resent = resent;
          delivered = elim (Bool-cases (leb (size / 4) (length lost_chunks))) [
            | inl full ↦ inl (leb→le _ _ full)
            | inr partly ↦ inr (
                (outcome waiting size amount bytes seen' after reached).1
                  (all_seen message seen' (leb-false _ _ partly) keeps adds))
          ];
        }

    -- Of a message longer than one chunk, chunk 0 and any others have arrived. Then either the message
    -- has been handed on, or it is completed by the first round of retransmission, if nothing of
    -- that round gets lost: the receiver answers the sender's request, the sender reads out of its
    -- entry a list of lost chunks, and once these have arrived the message has been handed on, unless
    -- the list is as long as fits into one answer. For the conditions under which the chunks are
    -- received, packets and requests that carry the sender's mtu, and an entry without a list.
    pub received-Retransmitted :
        (js : List ℕ) (answers : List Packet)
        → AreBelow amount js
        → (conversation : Conversation) × (receive_all malloc ratio_above
              receiver.maximum_transmission_unit
              (packets_of size amount header bytes (0 ∷ js))
              (idle waiting)
            ≡ some conversation)
          × ((conversation.delivered ≡ bytes ∷ []) ⊎ Retransmitted conversation answers)
    received-Retransmitted js answers below =
        let (conversation, seen, run, reached, _) =
          started_lem size amount bytes pos short bounds.0 bounds.1 no_wrap long malloc gives
            waiting header ragged ratio_above receiver.maximum_transmission_unit sized expected js
            below in
        (conversation, run, from seen conversation answers reached)
      where
        from :
            (seen : List ℕ) (conversation : Conversation) (answers : List Packet)
            → Reached waiting size amount bytes seen conversation
            → (conversation.delivered ≡ bytes ∷ []) ⊎ Retransmitted conversation answers
        from seen _ answers (finished message delay_changes) = inl refl
        from seen _ answers (collecting message delay_changes stored some_lost marked) =
            inr (round_lem message delay_changes answers stored some_lost)
