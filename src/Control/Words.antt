-- ===== src/Control/Words.antt =====
-- An array of `uint32_t` in memory: the list of lost chunks that src/process_packets.c writes into an
-- answer and src/send_packet.c reads out of `lost_chunks`.
use swift_net.Base.{
  ℕ, zero, suc, ◌+◌, ◌*◌, ◌/◌, ◌%◌, ◌^◌, ◌<◌, ◌≤◌, ◌≡◌, refl, ap, Option, none, some, List, [], ◌∷◌,
  ◌++◌, length, arith,
}
use swift_net.Base.Buffer.{little_endian}

-- The bytes of an array.
unfoldable pub bytes_of_words : List ℕ → List ℕ
unfolding little_endian
bytes_of_words [] = []
bytes_of_words (word ∷ words) = little_endian 4 word ++ bytes_of_words words

-- The first `count` elements of the array that begins at the first of the bytes.
unfoldable pub words_of_bytes : ℕ → List ℕ → Option (List ℕ)
words_of_bytes zero bytes = some []
words_of_bytes (suc count) (a ∷ b ∷ c ∷ d ∷ bytes) = elim (words_of_bytes count bytes) [
  | none ↦ none
  | some words ↦ some ((a + b * 2 ^ 8 + c * 2 ^ 16 + d * 2 ^ 24) ∷ words)
]
words_of_bytes (suc count) _ = none

-- Each element fits into 32 bits.
pub data AreWords : List ℕ → Type 0 where
  no_words : AreWords []
  more_words :
      {word : ℕ} {words : List ℕ} → word < 2 ^ 32 → AreWords words → AreWords (word ∷ words)

pub length-bytes_of_words : (words : List ℕ) → length (bytes_of_words words) ≡ length words * 4
unfolding bytes_of_words little_endian
length-bytes_of_words [] = refl
length-bytes_of_words (word ∷ words) = omega (arith, length-bytes_of_words words)

-- Reading an array out of its bytes, followed by any others, gives it back.
pub words_of_bytes-bytes_of_words :
    (words rest : List ℕ)
    → AreWords words
    → words_of_bytes (length words) (bytes_of_words words ++ rest) ≡ some words
unfolding words_of_bytes bytes_of_words little_endian
words_of_bytes-bytes_of_words [] rest no_words = refl
words_of_bytes-bytes_of_words (word ∷ words) rest (more_words lt others) =
    let whole : word % 256
          + word / 256 % 256 * 2 ^ 8
          + word / 256 / 256 % 256 * 2 ^ 16
          + word / 256 / 256 / 256 % 256 * 2 ^ 24
        ≡ word =
      omega arith in
    rw (words_of_bytes-bytes_of_words words rest others) (ap (λ w. some (w ∷ words)) whole)

-- As many bytes as the array has are enough to read it.
pub words_of_bytes_enough :
    (count : ℕ) (bytes : List ℕ)
    → count * 4 ≤ length bytes
    → (words : List ℕ) × (words_of_bytes count bytes ≡ some words)
unfolding words_of_bytes
words_of_bytes_enough zero bytes le = ([], refl)
words_of_bytes_enough (suc count) [] le = absurd (omega arith)
words_of_bytes_enough (suc count) (a ∷ []) le = absurd (omega arith)
words_of_bytes_enough (suc count) (a ∷ b ∷ []) le = absurd (omega arith)
words_of_bytes_enough (suc count) (a ∷ b ∷ c ∷ []) le = absurd (omega arith)
words_of_bytes_enough (suc count) (a ∷ b ∷ c ∷ d ∷ bytes) le =
    let (words, e) = words_of_bytes_enough count bytes (omega arith) in
    ((a + b * 2 ^ 8 + c * 2 ^ 16 + d * 2 ^ 24) ∷ words, rw e)
