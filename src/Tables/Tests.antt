-- ===== src/Tables/Tests.antt =====
-- Two senders with the same packet id.
use swift_net.Base.{◌≡◌, none, false, [], ◌∷◌, arith}
use swift_net.Hashmap.{create, zeroed, insert, insert_item}
use swift_net.Tables.{
  Tables, created, insert_pending_message, packet_completed, get_pending_message,
  check_packet_already_completed, get_packet_sending,
}
use swift_net.Tables.Keyed.{
  Op, clean_up, begin_pending, complete, apply_op, AreSmall, start, later,
  reached-get_pending_message,
}

abbrev first_op : Op
first_op = begin_pending 4000 7 111

abbrev second_op : Op
second_op = complete 5000 7 222

abbrev one_pending : Tables
one_pending = apply_op 11 first_op (created 1)

created-AreSmall : AreSmall (created 1)
unfolding create zeroed
created-AreSmall = record { pending = omega arith; completed = omega arith; sending = omega arith }

one_pending-AreSmall : AreSmall one_pending
unfolding create zeroed insert_pending_message insert insert_item
one_pending-AreSmall = record {
  pending = omega arith;
  completed = omega arith;
  sending = omega arith;
}

abbrev one_completed : Tables
one_completed = apply_op 11 second_op one_pending

one_completed-AreSmall : AreSmall one_completed
unfolding create zeroed insert_pending_message packet_completed insert insert_item
one_completed-AreSmall = record {
  pending = omega arith;
  completed = omega arith;
  sending = omega arith;
}

-- The completed message has been cleaned up.
abbrev third_op : Op
third_op = clean_up 5000 7

reached-get_pending_message_example :
    (get_pending_message 11 7 5000 (apply_op 11 third_op one_completed) ≡ none)
    × (check_packet_already_completed 11 7 5000 (apply_op 11 third_op one_completed) ≡ false)
    × (get_packet_sending 11 7 (apply_op 11 third_op one_completed) ≡ none)
reached-get_pending_message_example =
    reached-get_pending_message 11 (third_op ∷ second_op ∷ first_op ∷ [])
      (apply_op 11 third_op one_completed) 7 5000
      (later third_op
        (later second_op
          (later first_op (start 1 (omega arith)) (omega arith, omega arith) created-AreSmall)
          (omega arith, omega arith) one_pending-AreSmall)
        (omega arith, omega arith) one_completed-AreSmall)
      (omega arith) (omega arith)
