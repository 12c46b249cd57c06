-- ===== src/Receive/Delivery.antt =====
-- A message delivered once, whatever chunks arrive in whatever order behind its first.
use native.Mathlib.Nat.{mul_comm}
use swift_net.Base.{
  if◌then◌else◌, leb, ℕ, ◌+◌, ◌-◌, ◌*◌, ◌%◌, ◌^◌, ◌≤◌, ◌<◌, ◌≡◌, ◌≢◌, refl, sym, ap, ◌∙◌, inl, inr,
  Bool, true, false, ◌&&◌, not, ◌||◌, Option, none, some, List, [], ◌∷◌, ◌++◌, length, ltb, ◌==◌,
  arith, Bool-cases, ℕ_discrete, ==_iff, ==_false,
}
use swift_net.Base.Buffer.{read, read_all}
use swift_net.Chunks.{chunk_already_received}
use swift_net.Chunks.Bitmap.{received, chunk_already_received_lem}
use swift_net.Chunks.Lost.{lost}
use swift_net.Send.Chunked.{chunk, joined_all}
use swift_net.Receive.{PendingMessage, Conversation, check_rate, hand_on, receive_next}
use swift_net.Packet.{PacketInfo}
use swift_net.Packet.PacketType.{response}
use swift_net.Receive.Marks.{lost_none}
use swift_net.Receive.Place.{start, joined-eq}
use swift_net.Receive.Message.{IsStored, starts, amount-small, bytes_to_write_lem, store_chunk_lem}

-- The rate limiting touches none of the fields that hold the message.
check_rate_lem :
    (ratio_above : ℕ → ℕ → Bool) (index size amount : ℕ) (bytes : List ℕ) (message : PendingMessage)
    → IsStored size amount bytes message
    → IsStored size amount bytes (check_rate ratio_above index message).0
      × ((check_rate ratio_above index message).0.chunks_received ≡ message.chunks_received)
unfolding check_rate
check_rate_lem ratio_above index size amount bytes message stored =
    elim (Bool-cases (
      not message.sending_lost_packets
      && ltb 50 ((index + 2 ^ 32 - message.last_index_checked) % 2 ^ 32))) [
        | inl checked ↦ rw checked (
          record {
            of_amount = stored.of_amount;
            width = stored.width;
            room = stored.room;
            right = stored.right;
            number = stored.number;
          },
          refl,
        )
        | inr skipped ↦ rw skipped (stored, refl)
      ]

-- A pending message with nothing lost holds all of the bytes.
stored_all :
    (size amount : ℕ) (bytes : List ℕ) (message : PendingMessage)
    → length bytes ≤ amount * size
    → IsStored size amount bytes message
    → length (lost message.chunks_received 0 amount) ≡ 0
    → read message.packet_data 0 (length bytes) ≡ bytes
stored_all size amount bytes message covers stored done =
    read_all message.packet_data (length bytes) stored.room
    ∙ sym (joined_all size amount message.packet_data (rw stored.room covers))
    ∙ joined-eq size message.packet_data bytes amount 0 (λ k lt.
      stored.right k (omega arith)
        (lost_none message.chunks_received amount 0 k done (omega arith) lt))
    ∙ joined_all size amount bytes covers

-- Whether chunk `k` is among the arrivals.
unfoldable pub arrived : ℕ → List ℕ → Bool
arrived k [] = false
arrived k (j ∷ js) = (k == j) || arrived k js

-- The packet info of chunk `j`; `header` has the fields that are the same in all chunks.
abbrev pub info : ℕ → ℕ → PacketInfo → ℕ → PacketInfo
info packet_length chunk_amount header j = record header {
  packet_length = packet_length;
  chunk_amount = chunk_amount;
  chunk_index = j;
}

-- Nothing of the packet has arrived yet; a response is waited for, or not.
abbrev pub idle : Bool → Conversation
idle request_sent = record {
  completed = false;
  pending_message = none;
  request_sent = request_sent;
  delivered = [];
  delay_changes = [];
}

-- A message that is no response, or a response that is waited for, is handed on.
hand_on_lem :
    (waiting : Bool) (packet_info : PacketInfo) (bytes : List ℕ) (message : PendingMessage)
    (delay_changes : List Bool)
    → (packet_info.packet_type == response) ≡ waiting
    → hand_on packet_info bytes (record {
      completed = true;
      pending_message = some message;
      request_sent = waiting;
      delivered = [];
      delay_changes = delay_changes;
    })
      ≡ record {
        completed = true;
        pending_message = if waiting then none else some message;
        request_sent = false;
        delivered = bytes ∷ [];
        delay_changes = delay_changes;
      }
unfolding hand_on
hand_on_lem true packet_info bytes message delay_changes e = rw e
hand_on_lem false packet_info bytes message delay_changes e = rw e

-- A mark that is set more, and none that is taken away.
pub marked_more :
    (marks marks' seen : List ℕ) (j amount : ℕ)
    → ((k : ℕ) → received marks' k ≡ (k == j) || received marks k)
    → ((k : ℕ) → k < amount → arrived k seen ≡ true → received marks k ≡ true)
    → (k : ℕ) → k < amount
    → arrived k (j ∷ seen) ≡ true
    → received marks' k ≡ true
unfolding arrived
marked_more marks marks' seen j amount same marked k lt among = elim (Bool-cases (k == j)) [
  | inl here ↦ rw (same k, here) refl
  | inr other ↦ rw (same k, other) (marked k lt (rw other at among))
]

arrived_more :
    (marks seen : List ℕ) (j amount : ℕ)
    → received marks j ≡ true
    → ((k : ℕ) → k < amount → arrived k seen ≡ true → received marks k ≡ true)
    → (k : ℕ) → k < amount
    → arrived k (j ∷ seen) ≡ true
    → received marks k ≡ true
unfolding arrived
arrived_more marks seen j amount here marked k lt among = elim (ℕ_discrete k j) [
  | yes same ↦ rw same here
  | no other ↦ let differs : (k == j) ≡ false = ground arith in marked k lt (rw differs at among)
]

module _ (waiting : Bool) (size amount : ℕ) (bytes : List ℕ) where
  -- What a conversation has come to once the chunks `seen` have arrived.
  pub data Reached (seen : List ℕ) : Conversation → Type 0 where
    collecting :
        (message : PendingMessage) (delay_changes : List Bool)
        → IsStored size amount bytes message
        → 0 < length (lost message.chunks_received 0 amount)
        → ((k : ℕ) → k < amount → arrived k seen ≡ true → received message.chunks_received k ≡ true)
        → Reached seen (record {
          completed = false;
          pending_message = some message;
          request_sent = waiting;
          delivered = [];
          delay_changes = delay_changes;
        })
    finished :
        (message : Option PendingMessage) (delay_changes : List Bool)
        → Reached seen (record {
          completed = true;
          pending_message = message;
          request_sent = false;
          delivered = bytes ∷ [];
          delay_changes = delay_changes;
        })

module _ (size amount : ℕ) (bytes : List ℕ) (pos : 0 < size) (short : size < 2 ^ 16)
    (covers : length bytes ≤ amount * size) (tight : amount * size < length bytes + size)
    (no_wrap : length bytes + 2 ^ 16 ≤ 2 ^ 32) (ragged : length bytes % size ≢ 0)
    (ratio_above : ℕ → ℕ → Bool) (waiting : Bool) (header : PacketInfo)
    (expected : (header.packet_type == response) ≡ waiting) where
  -- What the arrival of chunk `j` makes of a conversation with a pending message.
  abbrev Stepped : List ℕ → ℕ → PendingMessage → List Bool → Type 0
  Stepped seen j message delay_changes =
      (after : Conversation) × (receive_next ratio_above size (info (length bytes) amount header j)
          (chunk size bytes j) message
          (record {
            completed = false;
            pending_message = some message;
            request_sent = waiting;
            delivered = [];
            delay_changes = delay_changes;
          })
        ≡ some after)
      × Reached waiting size amount bytes (j ∷ seen) after

  module _ (seen : List ℕ) (j : ℕ) (message : PendingMessage) (delay_changes : List Bool)
      (lt : j < amount) (stored : IsStored size amount bytes message)
      (some_lost : 0 < length (lost message.chunks_received 0 amount))
      (marked : (k : ℕ)
        → k < amount
        → arrived k seen ≡ true
        → received message.chunks_received k ≡ true) where
    looked :
        chunk_already_received message.chunks_received j ≡ some (received message.chunks_received j)
    looked = chunk_already_received_lem message.chunks_received j (omega (arith, stored.width))

    place : size * j % 2 ^ 32 ≡ start size j
    place =
        omega (arith, starts size amount bytes pos short covers tight no_wrap j lt, mul_comm size j)

    to_write :
        (if leb amount ((j + 1) % 2 ^ 32) then length bytes % size else size)
        ≡ length (chunk size bytes j)
    to_write = bytes_to_write_lem size amount bytes pos short covers tight no_wrap j lt ragged

    amount_small : amount < 2 ^ 32
    amount_small = amount-small size amount bytes pos short covers tight no_wrap

    -- The last chunk that is lost completes the message.
    last_lem :
        received message.chunks_received j ≡ false
        → length (lost message.chunks_received 0 amount) ≡ 1
        → Stepped seen j message delay_changes
    unfolding receive_next
    last_lem new one =
        let looked' = looked ∙ ap some new in
        let is_last : ((message.chunks_received_number + 1) % 2 ^ 32 == amount) ≡ true =
          (==_iff _ _).1 (omega (arith, stored.number, one, amount_small)) in
        let (message', done, stored', fewer, marks) =
          store_chunk_lem size amount bytes pos short covers tight no_wrap message j lt stored
            new in
        let whole =
          stored_all size amount bytes message' covers stored' (omega (arith, fewer, one)) in
        (
          _,
          rw (
            receive_next,
            looked',
            is_last,
            place,
            to_write,
            done,
            whole,
            hand_on_lem waiting (info (length bytes) amount header j) bytes message' delay_changes
                expected,
          ),
          finished (if waiting then none else some message') delay_changes,
        )

    -- Any other lost chunk is kept.
    kept_lem :
        received message.chunks_received j ≡ false
        → length (lost message.chunks_received 0 amount) ≢ 1
        → Stepped seen j message delay_changes
    unfolding receive_next
    kept_lem new many =
        let looked' = looked ∙ ap some new in
        let not_last : ((message.chunks_received_number + 1) % 2 ^ 32 == amount) ≡ false =
          ==_false _ _ (omega (arith, stored.number, many, some_lost, amount_small)) in
        let rated = check_rate_lem ratio_above j size amount bytes message stored in
        let new' : received (check_rate ratio_above j message).0.chunks_received j ≡ false =
          rw rated.1 new in
        let (message', done, stored', fewer, marks) =
          store_chunk_lem size amount bytes pos short covers tight no_wrap
            (check_rate ratio_above j message).0 j lt rated.0 new' in
        let fewer' = rw rated.1 at fewer in
        let marks' = rw rated.1 at marks in
        (
          _,
          rw (receive_next, looked', not_last, place, to_write, done),
          collecting message' (delay_changes ++ (check_rate ratio_above j message).1) stored'
              (omega (arith, fewer', many, some_lost))
              (marked_more message.chunks_received message'.chunks_received seen j amount marks'
                marked),
        )

    pub next_lem : Stepped seen j message delay_changes
    unfolding receive_next
    next_lem = elim (Bool-cases (received message.chunks_received j)) [
      | inl again ↦
          let looked' = looked ∙ ap some again in
          (
            _,
            rw (receive_next, looked'),
            collecting message delay_changes stored some_lost
                (arrived_more message.chunks_received seen j amount again marked),
          )
      | inr new ↦ elim (ℕ_discrete (length (lost message.chunks_received 0 amount)) 1) [
        | yes one ↦ last_lem new one
        | no many ↦ kept_lem new many
      ]
    ]
