-- ===== src/Send/Tests.antt =====
-- Five bytes in chunks of two, on the loopback interface.
use swift_net.Base.{ℕ, ◌+◌, ◌≤◌, ◌≡◌, some, List, [], ◌∷◌, ◌++◌, replicate, map, arith}
use swift_net.Base.Buffer.{read}
use swift_net.Send.{chunk_data_size, chunk_amount_of, send_chunks, resend_chunks}
use swift_net.Send.Chunked.{AreChunks, frames, resent}
use swift_net.Send.Loop.{send_chunks_lem, resend_chunks_lem}

abbrev five_bytes : List ℕ
five_bytes = 1 ∷ 2 ∷ 3 ∷ 4 ∷ 5 ∷ []

abbrev packet_bytes : List ℕ
packet_bytes = replicate 58 0 ++ five_bytes

abbrev built_headers : List ℕ
built_headers = replicate 48 7

abbrev sum_of : List ℕ → ℕ
sum_of [] = 0
sum_of (byte ∷ bytes) = byte + sum_of bytes

three_chunks : chunk_amount_of 5 46 ≤ 3
unfolding chunk_amount_of
three_chunks = omega arith

last_and_first : AreChunks (chunk_data_size 46) 5 (2 ∷ 0 ∷ [])
unfolding chunk_data_size
last_and_first = (omega arith, (omega arith, omega arith))

send_chunks_lem_example :
    send_chunks sum_of 4 46 5 58 built_headers 3 0 packet_bytes
    ≡ some (
      frames sum_of 4 built_headers
          (chunk_data_size 46)
          (read packet_bytes 58 5)
          (chunk_amount_of 5 46)
          0,
      packet_bytes,
    )
send_chunks_lem_example =
    send_chunks_lem sum_of 4 46 5 58 built_headers packet_bytes (omega arith) (omega arith)
      (omega arith) (omega arith) (omega arith) (omega arith) (omega arith) 3 three_chunks

resend_chunks_lem_example :
    resend_chunks sum_of 4 46 5 58 built_headers (2 ∷ 0 ∷ []) packet_bytes
    ≡ some (
      map
          (resent sum_of 4 built_headers (chunk_data_size 46) (read packet_bytes 58 5))
          (2 ∷ 0 ∷ []),
      packet_bytes,
    )
resend_chunks_lem_example =
    resend_chunks_lem sum_of 4 46 5 58 built_headers packet_bytes (omega arith) (omega arith)
      (omega arith) (omega arith) (omega arith) (omega arith) (omega arith) (2 ∷ 0 ∷ [])
      last_and_first
