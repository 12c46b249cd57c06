-- ===== src/Receive/Message.antt =====
-- The chunks of one message on their way into its pending message.
use native.Mathlib.Nat.{mul-add-mod_self_right, mod-eq_of_lt, mul-mod_left}
use swift_net.Base.{
  ℕ, suc, ◌+◌, ◌-◌, ◌*◌, ◌%◌, ◌^◌, ◌≤◌, ◌<◌, ◌≡◌, ◌≢◌, refl, sym, ap, ◌∙◌, true, false, ◌||◌, some,
  List, length, leb, le→leb, lt→leb, ◌==◌, if◌then◌else◌, arith, ℕ_discrete,
}
use swift_net.Base.Buffer.{memcpy, read, read_all, length-memcpy}
use swift_net.Chunks.Bitmap.{received, chunk_received_lem}
use swift_net.Chunks.Lost.{lost}
use swift_net.Send.Chunked.{chunk}
use swift_net.Receive.{PendingMessage, copy_from_packet, store_chunk}
use swift_net.Receive.Marks.{lost_marked, marked_ne}
use swift_net.Receive.Place.{start, length-chunk, chunk-memcpy_self, chunk-memcpy_ne}

-- A pending message that holds the marked chunks of `bytes`, in their places.
pub record IsStored (size amount : ℕ) (bytes : List ℕ) (message : PendingMessage) : Type 0 where
  pub of_amount : message.chunk_amount ≡ amount
  pub width : amount ≤ length message.chunks_received * 8
  pub room : length message.packet_data ≡ length bytes
  pub right :
      (k : ℕ)
      → k < amount
      → received message.chunks_received k ≡ true
      → chunk size message.packet_data k ≡ chunk size bytes k
  pub number :
      message.chunks_received_number + length (lost message.chunks_received 0 amount) ≡ amount

-- `amount` chunks of `size` bytes hold the bytes, and the last of them is not empty.
module _ (size amount : ℕ) (bytes : List ℕ) (pos : 0 < size) (short : size < 2 ^ 16)
    (covers : length bytes ≤ amount * size) (tight : amount * size < length bytes + size)
    (no_wrap : length bytes + 2 ^ 16 ≤ 2 ^ 32) where
  pub starts : (j : ℕ) → j < amount → start size j < length bytes
  starts j lt =
      let le : start size (suc j) ≤ amount * size = grind arith in
      let step : start size (suc j) ≡ start size j + size = grind arith in
      omega (arith, le, step, tight)

  pub amount-small : amount < 2 ^ 32
  amount-small = let le : amount ≤ amount * size = grind arith in omega (arith, le)

  -- What the receiver takes for the size of a chunk is its size, where the last chunk is a short one.
  pub bytes_to_write_lem :
      (j : ℕ)
      → j < amount
      → length bytes % size ≢ 0
      → (if leb amount ((j + 1) % 2 ^ 32) then length bytes % size else size)
        ≡ length (chunk size bytes j)
  bytes_to_write_lem j lt ragged =
      let small : (j + 1) % 2 ^ 32 ≡ j + 1 = omega (arith, amount-small) in
      let width = length-chunk size bytes j in
      rw small (elim (ℕ_discrete (j + 1) amount) [
        | yes last ↦
            let is_last : leb amount (j + 1) ≡ true = le→leb _ _ (omega arith) in
            let step : start size (j + 1) ≡ start size j + size = grind arith in
            let whole : start size (j + 1) ≡ amount * size = ap (start size) last in
            let left = length bytes - start size j in
            let begins = starts j lt in
            let split : length bytes ≡ start size j + left = omega (arith, begins) in
            let not_full : left ≢ size = λ full. ragged (
              ap (λ n. n % size) (split ∙ omega (arith, full, step, whole))
              ∙ mul-mod_left amount size) in
            let remainder : length bytes % size ≡ left =
              ap (λ n. n % size) split
              ∙ mul-add-mod_self_right j size left
              ∙ mod-eq_of_lt (omega (arith, not_full, step, whole, covers)) in
            rw (is_last, remainder) (omega (arith, width, step, whole, covers))
        | no more ↦
            let not_last : leb amount (j + 1) ≡ false = lt→leb _ _ (omega arith) in
            let next = starts (j + 1) (omega arith) in
            let step : start size (j + 1) ≡ start size j + size = grind arith in
            rw not_last (omega (arith, width, next, step))
      ])

  IsStored-marked :
      (message : PendingMessage) (marks : List ℕ) (j : ℕ)
      → j < amount
      → IsStored size amount bytes message
      → received message.chunks_received j ≡ false
      → length marks ≡ length message.chunks_received
      → ((k : ℕ) → received marks k ≡ (k == j) || received message.chunks_received k)
      → IsStored size amount bytes (record message {
        packet_data = memcpy message.packet_data (start size j) (chunk size bytes j);
        chunks_received = marks;
        chunks_received_number = (message.chunks_received_number + 1) % 2 ^ 32;
      })
  IsStored-marked message marks j lt stored missed same_width marks_lem =
      let b = chunk size bytes j in
      let begins = starts j lt in
      let width = length-chunk size bytes j in
      let fewer =
        lost_marked message.chunks_received marks j marks_lem missed amount 0 (omega arith)
          (omega arith) in
      record {
        of_amount = stored.of_amount;
        width = rw same_width stored.width;
        room =
            length-memcpy message.packet_data b (start size j)
              (omega (arith, begins, width, stored.room))
            ∙ stored.room;
        right = λ k k_lt marked. elim (ℕ_discrete k j) [
          | yes same ↦
              rw same (chunk-memcpy_self size message.packet_data bytes j stored.room begins)
          | no other ↦
              chunk-memcpy_ne size message.packet_data bytes k j
                (omega (arith, begins, stored.room)) other
              ∙ stored.right k k_lt (
                  sym (marked_ne message.chunks_received marks j marks_lem missed k other) ∙ marked)
        ];
        number = omega (arith, fewer, stored.number, amount-small);
      }

  -- Storing a lost chunk at its place keeps the pending message right, and one chunk fewer is lost.
  pub store_chunk_lem :
      (message : PendingMessage) (j : ℕ)
      → j < amount
      → IsStored size amount bytes message
      → received message.chunks_received j ≡ false
      → (message' : PendingMessage) × (store_chunk
            (start size j)
            j
            (chunk size bytes j)
            (length (chunk size bytes j))
            message
          ≡ some message')
        × IsStored size amount bytes message'
        × (length (lost message.chunks_received 0 amount)
            ≡ suc (length (lost message'.chunks_received 0 amount)))
        × ((k : ℕ)
            → received message'.chunks_received k ≡ (k == j) || received message.chunks_received k)
  unfolding store_chunk copy_from_packet
  store_chunk_lem message j lt stored missed =
      let b = chunk size bytes j in
      let begins = starts j lt in
      let width = length-chunk size bytes j in
      let brought : leb (length b) (length b) ≡ true = le→leb _ _ (omega arith) in
      let fits : leb (start size j + length b) (length message.packet_data) ≡ true =
        le→leb _ _ (omega (arith, begins, width, stored.room)) in
      let whole : read b 0 (length b) ≡ b = read_all b (length b) refl in
      let copied : copy_from_packet message.packet_data (start size j) b (length b)
          ≡ some (memcpy message.packet_data (start size j) b) =
        rw (brought, fits, whole) in
      let (marks, marked, same_width, marks_lem) =
        chunk_received_lem message.chunks_received j (omega (arith, stored.width)) in
      let fewer =
        lost_marked message.chunks_received marks j marks_lem missed amount 0 (omega arith)
          (omega arith) in
      (
        record message {
          packet_data = memcpy message.packet_data (start size j) b;
          chunks_received = marks;
          chunks_received_number = (message.chunks_received_number + 1) % 2 ^ 32;
        },
        rw (copied, store_chunk, marked),
        IsStored-marked message marks j lt stored missed same_width marks_lem,
        fewer,
        marks_lem,
      )
