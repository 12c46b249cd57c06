-- ===== src/Receive/Once.antt =====
-- Whole messages from their first chunk on.
use native.Mathlib.Nat.{zero-mul}
use mathlib.Core.Bool.{true≢false}
use swift_net.Base.{
  ℕ, zero, suc, ◌+◌, ◌-◌, ◌*◌, ◌/◌, ◌%◌, ◌^◌, ◌≤◌, ◌<◌, ◌≡◌, ◌≢◌, refl, sym, ◌∙◌, ◌⊎◌, inl, inr,
  Bool, true, false, Option, none, some, List, [], ◌∷◌, length, lt→ltb, ◌==◌, arith, Bool-cases,
  length-replicate,
}
use swift_net.Chunks.Bitmap.{received}
use swift_net.Packet.{PacketInfo, min_of, packet_header_size}
use swift_net.Packet.PacketType.{response}
use swift_net.Send.{chunk_data_size, chunk_amount_of}
use swift_net.Send.Chunked.{chunk, chunk_amount_of_lem, size_lem}
use swift_net.Receive.{
  Conversation, create_new_pending_message, receive_first, receive_next, hand_on, receive_data,
}
use swift_net.Receive.Marks.{received-fresh, lost-fresh, lost_all}
use swift_net.Receive.Place.{start, length-chunk}
use swift_net.Receive.Message.{IsStored, starts, store_chunk_lem}
use swift_net.Receive.Delivery.{
  arrived, info, idle, Reached, collecting, finished, marked_more, next_lem,
}

-- Packets with data as they come in, all of one packet id and sender.
unfoldable pub receive_all :
    (ℕ → List ℕ)
    → (ℕ → ℕ → Bool)
    → ℕ
    → List (PacketInfo × List ℕ)
    → Conversation
    → Option Conversation
receive_all malloc ratio_above maximum_transmission_unit [] conversation = some conversation
receive_all malloc ratio_above maximum_transmission_unit ((packet_info, packet_data) ∷ packets)
      conversation =
    elim (receive_data malloc ratio_above maximum_transmission_unit packet_info packet_data
      conversation) [
        | none ↦ none
        | some after ↦ receive_all malloc ratio_above maximum_transmission_unit packets after
      ]

-- What is done with the data does not depend on the checksum.
pub receive_data-checksum :
    (malloc : ℕ → List ℕ) (ratio_above : ℕ → ℕ → Bool) (maximum_transmission_unit checksum : ℕ)
    (packet_info : PacketInfo) (packet_data : List ℕ) (conversation : Conversation)
    → receive_data malloc ratio_above maximum_transmission_unit
        (record packet_info { checksum = checksum })
        packet_data
        conversation
      ≡ receive_data malloc ratio_above maximum_transmission_unit packet_info packet_data
          conversation
unfolding receive_data receive_first receive_next hand_on create_new_pending_message
receive_data-checksum malloc ratio_above maximum_transmission_unit checksum packet_info packet_data
      conversation =
    refl

-- The packets of the given chunks of `bytes`.
unfoldable pub packets_of : ℕ → ℕ → PacketInfo → List ℕ → List ℕ → List (PacketInfo × List ℕ)
packets_of size amount header bytes [] = []
packets_of size amount header bytes (j ∷ js) =
    (info (length bytes) amount header j, chunk size bytes j)
    ∷ packets_of size amount header bytes js

abbrev pub AreBelow : ℕ → List ℕ → Type 0
AreBelow amount [] = 0 ≤ amount
AreBelow amount (j ∷ js) = (j < amount) × AreBelow amount js

-- What a conversation has delivered once all of a message's chunks have arrived, and before.
pub outcome :
    (waiting : Bool) (size amount : ℕ) (bytes seen : List ℕ) (after : Conversation)
    → Reached waiting size amount bytes seen after
    → ((after.delivered ≡ []) ⊎ (after.delivered ≡ bytes ∷ []))
      × (((k : ℕ) → k < amount → arrived k seen ≡ true) → after.delivered ≡ bytes ∷ [])
outcome waiting size amount bytes seen _ (finished message delay_changes) = (inr refl, λ _. refl)
outcome waiting size amount bytes seen _
      (collecting message delay_changes stored some_lost marked) =
    (
      inl refl,
      λ every. absurd (
          omega (
            arith,
            some_lost,
            lost_all message.chunks_received amount 0
                (λ k lt. marked k (omega arith) (every k (omega arith))),
          )),
    )

module _ (size amount : ℕ) (bytes : List ℕ) (pos : 0 < size) (short : size < 2 ^ 16)
    (covers : length bytes ≤ amount * size) (tight : amount * size < length bytes + size)
    (no_wrap : length bytes + 2 ^ 16 ≤ 2 ^ 32) (long : size < length bytes) (malloc : ℕ → List ℕ)
    (gives : (n : ℕ) → length (malloc n) ≡ n) (waiting : Bool) (header : PacketInfo) where
  pub several : 1 < amount
  several =
      elim amount as (λ a. length bytes ≤ a * size → 1 < a) [
        | zero ↦ λ c. absurd (omega (arith, c, zero-mul size, long))
        | suc n ↦ λ c.
            elim n as (λ n. length bytes ≤ suc n * size → 1 < suc n) [
              | zero ↦ λ c. absurd (grind arith)
              | suc m ↦ λ _. omega arith
            ]
              c
      ]
        covers

  pub fits : amount ≤ length bytes
  fits =
      let begins =
        starts size amount bytes pos short covers tight no_wrap (amount - 1)
          (omega (arith, several)) in
      let le : amount - 1 ≤ start size (amount - 1) = grind arith in
      omega (arith, begins, le, several)

  new-IsStored :
      IsStored size amount bytes
        (create_new_pending_message malloc (info (length bytes) amount header 0))
  unfolding create_new_pending_message
  new-IsStored = record {
    of_amount = refl;
    width = omega (arith, length-replicate {A = ℕ} ((amount + 7) % 2 ^ 32 / 8) 0, fits);
    room = gives (length bytes);
    right = λ k lt e. absurd (true≢false (sym e ∙ received-fresh ((amount + 7) % 2 ^ 32 / 8) k));
    number = omega (arith, lost-fresh ((amount + 7) % 2 ^ 32 / 8) 0 amount);
  }

  -- The first chunk of the message opens its pending message.
  pub first_lem :
      (after : Conversation) × (receive_first malloc size
          (info (length bytes) amount header 0)
          (chunk size bytes 0)
          (idle waiting)
        ≡ some after)
      × Reached waiting size amount bytes (0 ∷ []) after
  unfolding receive_first create_new_pending_message arrived
  first_lem =
      let message = create_new_pending_message malloc (info (length bytes) amount header 0) in
      let none_yet : (k : ℕ) → received message.chunks_received k ≡ false =
        received-fresh ((amount + 7) % 2 ^ 32 / 8) in
      let (message', done, stored', fewer, marks) =
        store_chunk_lem size amount bytes pos short covers tight no_wrap message 0
          (omega (arith, several)) new-IsStored (none_yet 0) in
      let at_start : start size 0 ≡ 0 = zero-mul size in
      let full : length (chunk size bytes 0) ≡ size =
        length-chunk size bytes 0 ∙ omega (arith, at_start, long) in
      let some_left = lost-fresh ((amount + 7) % 2 ^ 32 / 8) 0 amount in
      (
        record (idle waiting) { pending_message = some message' },
        rw (receive_first, rw (at_start, full) at done),
        collecting message' [] stored' (omega (arith, fewer, some_left, several)) (
            marked_more message.chunks_received message'.chunks_received [] 0 amount marks
              (λ k lt among. absurd (true≢false (sym among)))),
      )

  module _ (ragged : length bytes % size ≢ 0) (ratio_above : ℕ → ℕ → Bool)
      (maximum_transmission_unit : ℕ)
      (sized : chunk_data_size (min_of header.maximum_transmission_unit maximum_transmission_unit)
        ≡ size)
      (expected : (header.packet_type == response) ≡ waiting) where
    step_lem :
        (seen : List ℕ) (j : ℕ) (conversation : Conversation)
        → j < amount
        → Reached waiting size amount bytes seen conversation
        → (after : Conversation) × (receive_data malloc ratio_above maximum_transmission_unit
              (info (length bytes) amount header j)
              (chunk size bytes j)
              conversation
            ≡ some after)
          × Reached waiting size amount bytes (j ∷ seen) after
    unfolding receive_data
    step_lem seen j _ lt (collecting message delay_changes stored some_lost marked) = rw sized (
        next_lem size amount bytes pos short covers tight no_wrap ragged ratio_above waiting header
          expected seen j message delay_changes lt stored some_lost marked)
    step_lem seen j _ lt (finished message delay_changes) =
        (_, refl, finished message delay_changes)

    pub run_lem :
        (js seen : List ℕ) (conversation : Conversation)
        → AreBelow amount js
        → Reached waiting size amount bytes seen conversation
        → (after : Conversation) × (seen' : List ℕ) × (receive_all malloc ratio_above
              maximum_transmission_unit
              (packets_of size amount header bytes js)
              conversation
            ≡ some after)
          × Reached waiting size amount bytes seen' after
          × ((k : ℕ) → arrived k seen ≡ true → arrived k seen' ≡ true)
          × ((k : ℕ) → arrived k js ≡ true → arrived k seen' ≡ true)
    unfolding receive_all packets_of arrived
    run_lem [] seen conversation all reached = (
      conversation,
      seen,
      refl,
      reached,
      λ k among. among,
      λ k among. absurd (true≢false (sym among)),
    )
    run_lem (j ∷ js) seen conversation all reached =
        let (next, done, reached') = step_lem seen j conversation all.0 reached in
        let (after, seen', rest, reached'', keeps, adds) =
          run_lem js (j ∷ seen) next all.1 reached' in
        (
          after,
          seen',
          rw (receive_all, done) rest,
          reached'',
          λ k among. keeps k (rw among (ground arith)),
          λ k among. elim (Bool-cases (k == j)) [
            | inl here ↦ keeps k (rw here refl)
            | inr other ↦ adds k (rw other at among)
          ],
        )

    -- What the chunks `js` behind chunk 0 come to.
    pub started_lem :
        (js : List ℕ)
        → AreBelow amount js
        → (after : Conversation) × (seen : List ℕ) × (receive_all malloc ratio_above
              maximum_transmission_unit
              (packets_of size amount header bytes (0 ∷ js))
              (idle waiting)
            ≡ some after)
          × Reached waiting size amount bytes seen after
          × ((k : ℕ) → arrived k (0 ∷ js) ≡ true → arrived k seen ≡ true)
    unfolding receive_all receive_data packets_of arrived
    started_lem js below =
        let (opened, first, reached) = first_lem in
        let (after, seen, rest, reached', keeps, adds) = run_lem js (0 ∷ []) opened below reached in
        (
          after,
          seen,
          rw (receive_all, sized, lt→ltb size (length bytes) long, first) rest,
          reached',
          λ k among. elim (Bool-cases (k == 0)) [
            | inl zeroth ↦ keeps k (rw zeroth refl)
            | inr other ↦ adds k (rw other at among)
          ],
        )

    pub whole_lem :
        (js : List ℕ)
        → AreBelow amount js
        → (after : Conversation) × (receive_all malloc ratio_above maximum_transmission_unit
              (packets_of size amount header bytes (0 ∷ js))
              (idle waiting)
            ≡ some after)
          × ((after.delivered ≡ []) ⊎ (after.delivered ≡ bytes ∷ []))
          × (((k : ℕ) → k < amount → arrived k (0 ∷ js) ≡ true) → after.delivered ≡ bytes ∷ [])
    whole_lem js below =
        let (after, seen, run, reached, sees) = started_lem js below in
        let (delivered, complete) = outcome waiting size amount bytes seen after reached in
        (after, run, delivered, λ every. complete (λ k lt. sees k (every k lt)))

-- A message that is no response, or a response that a request waits for, longer than one chunk, its length no multiple of the chunk size, of which chunk 0
-- arrives first: whatever chunks follow, in whatever order and however often, the receiver faults
-- at none, it hands on nothing but the bytes that were sent, at most once, and it has handed them
-- on as soon as every chunk has arrived. This is for mtu above 44 and below 2^16, a length of at
-- most 2^32 - 2^16, and a malloc that gives as many bytes as asked.
pub receive_all_lem :
    (malloc : ℕ → List ℕ) (ratio_above : ℕ → ℕ → Bool) (maximum_transmission_unit : ℕ)
    (waiting : Bool) (header : PacketInfo) (bytes js : List ℕ)
    → ((n : ℕ) → length (malloc n) ≡ n)
    → (header.packet_type == response) ≡ waiting
    → let mtu = min_of header.maximum_transmission_unit maximum_transmission_unit in
      let size = chunk_data_size mtu in
      let amount = chunk_amount_of (length bytes) mtu in
      packet_header_size < mtu
      → mtu < 2 ^ 16
      → size < length bytes
      → length bytes + 2 ^ 16 ≤ 2 ^ 32
      → length bytes % size ≢ 0
      → AreBelow amount js
      → (after : Conversation) × (receive_all malloc ratio_above maximum_transmission_unit
            (packets_of size amount header bytes (0 ∷ js))
            (idle waiting)
          ≡ some after)
        × ((after.delivered ≡ []) ⊎ (after.delivered ≡ bytes ∷ []))
        × (((k : ℕ) → k < amount → arrived k (0 ∷ js) ≡ true) → after.delivered ≡ bytes ∷ [])
receive_all_lem malloc ratio_above maximum_transmission_unit waiting header bytes js gives expected
      room wire long no_wrap ragged below =
    let mtu = min_of header.maximum_transmission_unit maximum_transmission_unit in
    let some_data : 0 < length bytes = omega (arith, long) in
    let of_size = size_lem (length bytes) mtu room wire some_data no_wrap in
    let bounds = chunk_amount_of_lem (length bytes) mtu room wire some_data no_wrap in
    whole_lem (chunk_data_size mtu) (chunk_amount_of (length bytes) mtu) bytes
      (omega (arith, of_size, room)) (omega (arith, of_size, wire)) bounds.0 bounds.1 no_wrap long
      malloc gives waiting header ragged ratio_above maximum_transmission_unit refl expected js
      below
