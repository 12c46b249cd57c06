-- ===== src/Retransmit/Safety.antt =====
-- The sender's loops and the thread that processes packets, in any interleaving.
use mathlib.Core.Bool.{true≢false}
use mathlib.Core.List.{map-append}
use native.Mathlib.Nat.{zero-mul}
use swift_net.Base.{
  ℕ, zero, suc, ◌+◌, ◌*◌, ◌^◌, ◌<◌, ◌≤◌, ◌≡◌, ◌≢◌, ◌⊎◌, refl, sym, ◌∙◌, ◌∷◌, ◌++◌, ap, Bool, true,
  false, some, List, [], map, length, get_or, ltb, ltb→lt, arith, inl, inr, Bool-cases, subst_some,
}
use swift_net.Base.Buffer.{read}
use swift_net.Control.{store_lost_chunks}
use swift_net.Control.Peers.{
  Host, PacketSending, Updated, no_update, updated_lost_chunks, successfully_received,
}
use swift_net.Packet.{Packet, packet_header_size}
use swift_net.Send.{chunk_data_size, resend_chunk}
use swift_net.Send.Chunked.{AreChunks, resent}
use swift_net.Send.Loop.{resend_chunk_lem}
use swift_net.Retransmit.{
  Sender, Phase, requesting, polling, resending, returned, lost_chunks_of, poll, resend, step_from,
  step, new_packet_sending,
}
use swift_net.Retransmit.Entry.{lost_chunk_at_lem}

module _ (crc32 : List ℕ → ℕ) (prepend_size mtu packet_length packet_data_start : ℕ)
    (prepend_buffer : List ℕ) (host : Host) (malloc : ℕ → List ℕ) where
  -- A step of the loop, or what a control packet does to the entry while the table has it; a list that
  -- is stored fits into its buffer, and names chunks of the packet.
  pub data Step : Sender → Sender → Type 0 where
    loops :
        {sender sender' : Sender}
        → step crc32 prepend_size mtu packet_length packet_data_start prepend_buffer sender
          ≡ some sender'
        → Step sender sender'
    told_lost :
        {sender : Sender} {stored : PacketSending} (packet : Packet) (lost_chunks : List ℕ)
        → sender.listed ≡ true
        → store_lost_chunks host packet malloc sender.packet_sending ≡ some stored
        → lost_chunks_of stored ≡ some lost_chunks
        → AreChunks (chunk_data_size mtu) packet_length lost_chunks
        → Step sender (record sender { packet_sending = stored })
    told_received :
        {sender : Sender}
        → sender.listed ≡ true
        → Step sender (record sender {
          packet_sending = record sender.packet_sending { updated = successfully_received };
        })

  pub data Reach (start : Sender) : Sender → Type 0 where
    here : Reach start start
    and_then :
        {sender sender' : Sender} → Reach start sender → Step sender sender' → Reach start sender'

updated_cases :
    (updated : Updated)
    → (updated ≡ no_update) ⊎ ((updated ≡ updated_lost_chunks) ⊎ (updated ≡ successfully_received))
updated_cases no_update = inl refl
updated_cases updated_lost_chunks = inr (inl refl)
updated_cases successfully_received = inr (inr refl)

still_going : Phase → Bool
still_going requesting = true
still_going (polling _) = true
still_going (resending _) = true
still_going returned = false

going : (phase : Phase) → still_going phase ≡ true → phase ≢ returned
unfolding still_going
going phase e back = true≢false (sym e ∙ ap still_going back)

-- A sender that has sent all of its chunks once.
abbrev pub sent_once : ℕ → List ℕ → Sender
sent_once packet_id buffer = record {
  phase = requesting;
  packet_sending = new_packet_sending packet_id;
  listed = true;
  requests = 0;
  frames = [];
  buffer = buffer;
}

-- An element of a list of chunks is one; so is 0.
AreChunks-get_or :
    (size packet_length : ℕ) (chunks : List ℕ) (i : ℕ)
    → 0 < packet_length
    → AreChunks size packet_length chunks
    → get_or chunks i 0 * size < packet_length
AreChunks-get_or size packet_length [] i some_data all = omega (arith, zero-mul size)
AreChunks-get_or size packet_length (j ∷ chunks) zero some_data all = all.0
AreChunks-get_or size packet_length (j ∷ chunks) (suc i) some_data all =
    AreChunks-get_or size packet_length chunks i some_data all.1

AreChunks-append :
    (size packet_length : ℕ) (chunks : List ℕ) (i : ℕ)
    → AreChunks size packet_length chunks
    → i * size < packet_length
    → AreChunks size packet_length (chunks ++ (i ∷ []))
AreChunks-append size packet_length [] i all lt = (lt, all)
AreChunks-append size packet_length (j ∷ chunks) i all lt =
    (all.0, AreChunks-append size packet_length chunks i all.1 lt)

module _ (crc32 : List ℕ → ℕ) (prepend_size mtu packet_length packet_data_start : ℕ)
    (prepend_buffer buffer : List ℕ) where
  abbrev size : ℕ
  size = chunk_data_size mtu

  -- The frame of a chunk of the packet.
  abbrev pub resent_chunk : ℕ → List ℕ
  resent_chunk i =
      resent crc32 prepend_size prepend_buffer (chunk_data_size mtu)
        (read buffer packet_data_start packet_length) i

  -- What holds of the sender after any steps: its list names chunks of the packet, and so do the frames
  -- that it has sent; its buffer is as it was; and an entry that has left the table is one whose sender
  -- has returned.
  record IsSound (sender : Sender) : Type 0 where
    lost_chunks : List ℕ
    listed_chunks : lost_chunks_of sender.packet_sending ≡ some lost_chunks
    in_packet : AreChunks size packet_length lost_chunks
    chunks : List ℕ
    sent_in_packet : AreChunks size packet_length chunks
    sent_frames : sender.frames ≡ map resent_chunk chunks
    whole : sender.buffer ≡ buffer
    gone : sender.listed ≡ false → sender.phase ≡ returned

  -- A phase that goes on, of an entry that still reads the same list.
  goes_on :
      (sender sender' : Sender)
      → IsSound sender
      → sender.phase ≢ returned
      → lost_chunks_of sender'.packet_sending ≡ lost_chunks_of sender.packet_sending
      → sender'.frames ≡ sender.frames
      → sender'.buffer ≡ sender.buffer
      → sender'.listed ≡ sender.listed
      → IsSound sender'
  goes_on sender sender' sound going_on list frames kept listed = record {
    lost_chunks = sound.lost_chunks;
    listed_chunks = list ∙ sound.listed_chunks;
    in_packet = sound.in_packet;
    chunks = sound.chunks;
    sent_in_packet = sound.sent_in_packet;
    sent_frames = frames ∙ sound.sent_frames;
    whole = kept ∙ sound.whole;
    gone = λ left. absurd (going_on (sound.gone (sym listed ∙ left)));
  }

  poll-IsSound :
      (times_checked : ℕ) (sender : Sender)
      → IsSound sender
      → sender.phase ≢ returned
      → IsSound (poll times_checked sender)
  unfolding poll lost_chunks_of
  poll-IsSound times_checked sender sound on = elim (updated_cases sender.packet_sending.updated) [
    | inl same ↦ rw same (goes_on sender _ sound on refl refl refl refl)
    | inr (inl told) ↦ rw told (goes_on sender _ sound on refl refl refl refl)
    | inr (inr done) ↦ rw done record {
      lost_chunks = sound.lost_chunks;
      listed_chunks = sound.listed_chunks;
      in_packet = sound.in_packet;
      chunks = sound.chunks;
      sent_in_packet = sound.sent_in_packet;
      sent_frames = sound.sent_frames;
      whole = sound.whole;
      gone = λ _. refl;
    }
  ]

  module _ (room : packet_header_size < mtu) (wire : mtu + prepend_size < 2 ^ 16)
      (some_data : 0 < packet_length) (no_wrap : packet_length + 2 ^ 16 ≤ 2 ^ 32)
      (built : length prepend_buffer ≡ prepend_size + packet_header_size)
      (front : prepend_size + packet_header_size ≤ packet_data_start)
      (inside : packet_data_start + packet_length ≤ length buffer) where
    resend-IsSound :
        (i : ℕ) (sender : Sender)
        → IsSound sender
        → sender.phase ≢ returned
        → (sender' : Sender) × (resend crc32 prepend_size mtu packet_length packet_data_start
              prepend_buffer i sender
            ≡ some sender')
          × IsSound sender'
    unfolding resend
    resend-IsSound i sender sound on =
        let packet_sending = sender.packet_sending in
        elim (Bool-cases (ltb i packet_sending.lost_chunks_size)) [
          | inl more ↦
              let lost_chunk_index = get_or sound.lost_chunks i 0 in
              let found =
                lost_chunk_at_lem i packet_sending sound.lost_chunks sound.listed_chunks
                  (ltb→lt _ _ more) in
              let of_packet =
                AreChunks-get_or size packet_length sound.lost_chunks i some_data sound.in_packet in
              let again =
                ap
                  (resend_chunk crc32 prepend_size mtu packet_length packet_data_start
                    prepend_buffer lost_chunk_index)
                  sound.whole
                ∙ resend_chunk_lem crc32 prepend_size mtu packet_length packet_data_start
                    prepend_buffer buffer room wire some_data no_wrap built front inside
                    lost_chunk_index of_packet in
              (
                record sender {
                  phase = resending (i + 1);
                  frames = sender.frames ++ (resent_chunk lost_chunk_index ∷ []);
                  buffer = buffer;
                },
                rw (resend, more, found, again),
                record {
                  lost_chunks = sound.lost_chunks;
                  listed_chunks = sound.listed_chunks;
                  in_packet = sound.in_packet;
                  chunks = sound.chunks ++ (lost_chunk_index ∷ []);
                  sent_in_packet =
                      AreChunks-append size packet_length sound.chunks lost_chunk_index
                        sound.sent_in_packet of_packet;
                  sent_frames =
                      ap (λ l. l ++ (resent_chunk lost_chunk_index ∷ [])) sound.sent_frames
                      ∙ sym (map-append resent_chunk sound.chunks (lost_chunk_index ∷ []));
                  whole = refl;
                  gone = λ left. absurd (on (sound.gone left));
                },
              )
          | inr through ↦ (
            record sender { phase = requesting },
            rw (resend, through),
            goes_on sender _ sound on refl refl refl refl,
          )
        ]

    step_from-IsSound :
        (phase : Phase) (sender : Sender)
        → sender.phase ≡ phase
        → IsSound sender
        → (sender' : Sender) × (step_from crc32 prepend_size mtu packet_length packet_data_start
              prepend_buffer phase sender
            ≡ some sender')
          × IsSound sender'
    unfolding step_from still_going
    step_from-IsSound requesting sender e sound = (
      record sender { phase = polling 0; requests = sender.requests + 1 },
      refl,
      goes_on sender _ sound (λ back. going requesting refl (sym e ∙ back)) refl refl refl refl,
    )
    step_from-IsSound (polling times_checked) sender e sound =
        let on : sender.phase ≢ returned =
          λ back. going (polling times_checked) refl (sym e ∙ back) in
        elim (Bool-cases (ltb times_checked 0xff)) [
          | inl more ↦
              (poll times_checked sender, rw more, poll-IsSound times_checked sender sound on)
          | inr out ↦ (
            record sender { phase = requesting },
            rw out,
            goes_on sender _ sound on refl refl refl refl,
          )
        ]
    step_from-IsSound (resending i) sender e sound =
        resend-IsSound i sender sound (λ back. going (resending i) refl (sym e ∙ back))
    step_from-IsSound returned sender e sound = (sender, refl, sound)

    reached-IsSound :
        {host : Host} {malloc : ℕ → List ℕ} {start sender : Sender}
        → IsSound start
        → Reach crc32 prepend_size mtu packet_length packet_data_start prepend_buffer host malloc
            start sender
        → IsSound sender
    unfolding step lost_chunks_of
    reached-IsSound sound here = sound
    reached-IsSound sound (and_then {sender' = sender'} reach (loops {sender} e)) =
        let (after, e', sound') =
          step_from-IsSound sender.phase sender refl (reached-IsSound sound reach) in
        subst_some IsSound after sender' (sym e' ∙ e) sound'
    reached-IsSound sound
          (and_then reach (told_lost {sender} {stored} packet lost_chunks listed e list named)) =
        let before = reached-IsSound sound reach in
        record {
          lost_chunks = lost_chunks;
          listed_chunks = list;
          in_packet = named;
          chunks = before.chunks;
          sent_in_packet = before.sent_in_packet;
          sent_frames = before.sent_frames;
          whole = before.whole;
          gone = λ left. absurd (true≢false (sym listed ∙ left));
        }
    reached-IsSound sound (and_then reach (told_received {sender} listed)) =
        let before = reached-IsSound sound reach in
        record {
          lost_chunks = before.lost_chunks;
          listed_chunks = before.listed_chunks;
          in_packet = before.in_packet;
          chunks = before.chunks;
          sent_in_packet = before.sent_in_packet;
          sent_frames = before.sent_frames;
          whole = before.whole;
          gone = λ left. absurd (true≢false (sym listed ∙ left));
        }

-- However the loops of `handle_lost_packets` and the thread that processes packets take turns, also
-- between two lost chunks, the sender reads no lost chunk outside of its list and touches nothing
-- outside of its buffer, so it can always go on; its buffer is as it was, each frame that it has sent
-- again is that of a chunk of the packet, and its entry is out of the table only once it has returned.
-- This is for answers whose lists fit into the buffer of the entry and name chunks of the packet, mtu
-- above 44 and, with the link header, below 2^16, a length from 1 to 2^32 - 2^16, headers built in full,
-- and a buffer with room for them in front of the data, which it holds.
pub reached-step :
    (crc32 : List ℕ → ℕ) (prepend_size mtu packet_length packet_data_start : ℕ)
    (prepend_buffer buffer : List ℕ) (host : Host) (malloc : ℕ → List ℕ) (packet_id : ℕ)
    (sender : Sender)
    → packet_header_size < mtu
    → mtu + prepend_size < 2 ^ 16
    → 0 < packet_length
    → packet_length + 2 ^ 16 ≤ 2 ^ 32
    → length prepend_buffer ≡ prepend_size + packet_header_size
    → prepend_size + packet_header_size ≤ packet_data_start
    → packet_data_start + packet_length ≤ length buffer
    → Reach crc32 prepend_size mtu packet_length packet_data_start prepend_buffer host malloc
        (sent_once packet_id buffer)
        sender
    → ((sender' : Sender) × (step crc32 prepend_size mtu packet_length packet_data_start
            prepend_buffer sender
          ≡ some sender'))
      × (sender.buffer ≡ buffer)
      × ((chunks : List ℕ) × AreChunks (chunk_data_size mtu) packet_length chunks
          × (sender.frames
              ≡ map
                  (resent_chunk crc32 prepend_size mtu packet_length packet_data_start
                    prepend_buffer buffer)
                  chunks))
      × ((sender.listed ≡ true) ⊎ (sender.phase ≡ returned))
unfolding step lost_chunks_of new_packet_sending
reached-step crc32 prepend_size mtu packet_length packet_data_start prepend_buffer buffer host
      malloc packet_id sender room wire some_data no_wrap built front inside reach =
    let sound =
      reached-IsSound crc32 prepend_size mtu packet_length packet_data_start prepend_buffer buffer
        room wire some_data no_wrap built front inside
        (record {
          lost_chunks = [];
          listed_chunks = refl;
          in_packet = omega arith;
          chunks = [];
          sent_in_packet = omega arith;
          sent_frames = refl;
          whole = refl;
          gone = λ e. absurd (true≢false e);
        })
        reach in
    let (after, e, _) =
      step_from-IsSound crc32 prepend_size mtu packet_length packet_data_start prepend_buffer buffer
        room wire some_data no_wrap built front inside sender.phase sender refl sound in
    (
      (after, e),
      sound.whole,
      (sound.chunks, sound.sent_in_packet, sound.sent_frames),
      elim (Bool-cases sender.listed) [
        | inl listed ↦ inl listed
        | inr left ↦ inr (sound.gone left)
      ],
    )
