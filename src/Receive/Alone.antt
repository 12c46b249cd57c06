-- ===== src/Receive/Alone.antt =====
-- A message of which only one packet is ever sent.
use swift_net.Base.{
  ℕ, ◌+◌, ◌<◌, ◌≡◌, refl, inl, inr, Bool, true, false, some, List, [], ◌∷◌, length, ltb, leb, ◌==◌,
  if◌then◌else◌, arith, Bool-cases, lt→ltb, le→ltb, le→leb, leb→le, leb-false,
}
use swift_net.Base.Buffer.{memcpy, read, read_all}
use swift_net.Chunks.{chunk_received}
use swift_net.Packet.{PacketInfo, min_of}
use swift_net.Packet.PacketType.{response}
use swift_net.Receive.{
  Conversation, copy_from_packet, create_new_pending_message, store_chunk, hand_on, receive_first,
  receive_data,
}
use swift_net.Receive.Delivery.{idle, info}
use swift_net.Send.{chunk_data_size}

module _ (malloc : ℕ → List ℕ) (ratio_above : ℕ → ℕ → Bool) (maximum_transmission_unit : ℕ)
    (waiting : Bool) (header : PacketInfo) (payload : List ℕ)
    (gives : (n : ℕ) → length (malloc n) ≡ n)
    (expected : (header.packet_type == response) ≡ waiting) where
  abbrev size : ℕ
  size = chunk_data_size (min_of header.maximum_transmission_unit maximum_transmission_unit)

  abbrev alone : PacketInfo
  alone = info (length payload) 1 header 0

  -- The buffer and the bitmap of its one chunk have room for what the packet brings.
  opened_lem :
      size < length payload
      → (after : Conversation) × (receive_first malloc size alone payload (idle waiting)
          ≡ some after)
        × (after.delivered ≡ [])
  unfolding receive_first store_chunk copy_from_packet create_new_pending_message chunk_received
  opened_lem long =
      let brought : leb size (length payload) ≡ true = le→leb _ _ (omega arith) in
      let fits : leb (0 + size) (length (malloc (length payload))) ≡ true =
        le→leb _ _ (omega (arith, gives (length payload))) in
      let message = create_new_pending_message malloc alone in
      (
        record (idle waiting) {
          pending_message = some (record message {
            packet_data = memcpy (malloc (length payload)) 0 (read payload 0 size);
            chunks_received = 1 ∷ [];
            chunks_received_number = 1;
          });
        },
        simp (receive_first, store_chunk, copy_from_packet, brought, fits) refl,
        refl,
      )

  handed_lem :
      (conversation : Conversation)
      → conversation ≡ record (idle waiting) { completed = true }
      → (hand_on alone payload conversation).delivered ≡ payload ∷ []
  unfolding hand_on
  handed_lem conversation e = elim (Bool-cases waiting) [
    | inl w ↦ rw e (rw (expected, w) refl)
    | inr w ↦ rw e (rw (expected, w) refl)
  ]

  -- It is handed on where it is no longer than the data of a chunk; where it is longer, it opens a
  -- pending message, and is not.
  pub receive_data-alone :
      (after : Conversation) × (receive_data malloc ratio_above maximum_transmission_unit alone
          payload
          (idle waiting)
        ≡ some after)
      × (after.delivered ≡ (if leb (length payload) size then payload ∷ [] else []))
  unfolding receive_data
  receive_data-alone = elim (Bool-cases (leb (length payload) size)) [
    | inl short ↦
        let not_long : ltb size (length payload) ≡ false = le→ltb _ _ (leb→le _ _ short) in
        (
          hand_on alone (read payload 0 (length payload))
              (record (idle waiting) { completed = true }),
          rw (receive_data, not_long) refl,
          rw (short, read_all payload (length payload) refl) (handed_lem _ refl),
        )
    | inr long ↦
        let opened = opened_lem (leb-false _ _ long) in
        let is_long : ltb size (length payload) ≡ true = lt→ltb _ _ (leb-false _ _ long) in
        (opened.0, rw (receive_data, is_long) opened.1, rw long opened.2)
  ]
