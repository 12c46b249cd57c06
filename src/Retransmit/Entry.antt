-- ===== src/Retransmit/Entry.antt =====
-- How the sender reads the list of lost chunks in its entry of `packets_sending`.
use swift_net.Base.{
  ℕ, zero, suc, ◌+◌, ◌*◌, ◌<◌, ◌≤◌, ◌≡◌, some, List, [], ◌∷◌, length, get_or, arith, Option-cases,
  inl, inr, subst_some, some_of_none, le→leb,
}
use swift_net.Base.Buffer.{read}
use swift_net.Control.Peers.{PacketSending}
use swift_net.Control.Words.{words_of_bytes}
use swift_net.Routing.{from_bytes}
use swift_net.Retransmit.{lost_chunks_of, lost_chunk_at}

-- An element of an array lies within its bytes.
abbrev IsAt : ℕ → List ℕ → List ℕ → Type 0
IsAt i bytes words =
    (i * 4 + 4 ≤ length bytes) × (from_bytes (read bytes (i * 4) 4) ≡ get_or words i 0)

words_of_bytes-IsAt :
    (count i : ℕ) (bytes words : List ℕ)
    → words_of_bytes count bytes ≡ some words
    → i < count
    → IsAt i bytes words
unfolding words_of_bytes from_bytes read
words_of_bytes-IsAt zero i bytes words e lt = absurd (omega arith)
words_of_bytes-IsAt (suc count) i [] words e lt = some_of_none words e
words_of_bytes-IsAt (suc count) i (a ∷ []) words e lt = some_of_none words e
words_of_bytes-IsAt (suc count) i (a ∷ b ∷ []) words e lt = some_of_none words e
words_of_bytes-IsAt (suc count) i (a ∷ b ∷ c ∷ []) words e lt = some_of_none words e
words_of_bytes-IsAt (suc count) zero (a ∷ b ∷ c ∷ d ∷ bytes) words e lt =
    elim (Option-cases (words_of_bytes count bytes)) [
      | inl missing ↦ some_of_none words (rw missing at e)
      | inr (others, found) ↦
          subst_some (IsAt zero (a ∷ b ∷ c ∷ d ∷ bytes)) _ words (rw found at e)
            (omega arith, omega arith)
    ]
words_of_bytes-IsAt (suc count) (suc i) (a ∷ b ∷ c ∷ d ∷ bytes) words e lt =
    elim (Option-cases (words_of_bytes count bytes)) [
      | inl missing ↦ some_of_none words (rw missing at e)
      | inr (others, found) ↦
          let (room, same) = words_of_bytes-IsAt count i bytes others found (omega arith) in
          let four : suc i * 4 ≡ suc (suc (suc (suc (i * 4)))) = omega arith in
          subst_some (IsAt (suc i) (a ∷ b ∷ c ∷ d ∷ bytes)) _ words (rw found at e)
            (omega (arith, room), rw four same)
    ]

-- What the loop reads at an index below the size of the list.
pub lost_chunk_at_lem :
    (i : ℕ) (packet_sending : PacketSending) (words : List ℕ)
    → lost_chunks_of packet_sending ≡ some words
    → i < packet_sending.lost_chunks_size
    → lost_chunk_at i packet_sending ≡ some (get_or words i 0)
unfolding lost_chunks_of lost_chunk_at
lost_chunk_at_lem i packet_sending words e lt = elim (Option-cases packet_sending.lost_chunks) [
  | inl null ↦
      let (room, _) =
        words_of_bytes-IsAt packet_sending.lost_chunks_size i [] words (rw null at e) lt in
      absurd (omega (arith, room))
  | inr (bytes, held) ↦
      let (room, same) =
        words_of_bytes-IsAt packet_sending.lost_chunks_size i bytes words (rw held at e) lt in
      rw (held, le→leb (i * 4 + 4) (length bytes) room, same)
]
