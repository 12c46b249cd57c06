-- ===== src/Transfer/Written.antt =====
-- The frame of a message that fits into one: headers written into the buffer in front of the data.
use swift_net.Base.{
  ℕ, ◌+◌, ◌-◌, ◌≤◌, ◌≡◌, refl, sym, ap, ◌∙◌, List, [], ◌++◌, take, drop, length, length-append,
  length-take, length-drop, take-append-drop, append_assoc, arith,
}
use swift_net.Base.Buffer.{
  memcpy, read, little_endian, memcpy-over, memcpy-append_add, read-exactly, drop-drop,
}
use swift_net.Packet.{Packet, PacketInfo, Ip, bytes_of_packet_info, frame_of}
use swift_net.Send.{handle_checksum}
use swift_net.Transfer.{bytes_of_ip}
use swift_net.Transfer.Frames.{memcpy-checksum}
use swift_net.Transfer.Headers.{length-bytes_of_ip, length-bytes_of_packet_info, length-frame_of}

over_at :
    (pre h post bytes : List ℕ) (k : ℕ)
    → length pre ≡ k
    → length bytes ≡ length h
    → memcpy (pre ++ (h ++ post)) k bytes ≡ pre ++ (bytes ++ post)
over_at pre h post bytes k at e = rw (← at) (memcpy-over pre h post bytes e)

read_at :
    (pre h post : List ℕ) (k n : ℕ)
    → length pre ≡ k
    → length h ≡ n
    → read (pre ++ (h ++ post)) k n ≡ h
read_at pre h post k n at e = rw (← at) (read-exactly pre h post n e)

module _ (crc32 : List ℕ → ℕ) (ip : Ip) (info : PacketInfo)
    (pre link old_link old_ip old_info payload tail : List ℕ)
    (in_front : length pre + length link ≡ 14) (of_link : length old_link ≡ length link)
    (of_ip : length old_ip ≡ 20) (of_info : length old_info ≡ 24) where
  abbrev ip_bytes : List ℕ
  ip_bytes = bytes_of_ip ip

  abbrev info_bytes : List ℕ
  info_bytes = bytes_of_packet_info info

  abbrev pub summed : PacketInfo
  summed = record info { checksum = crc32 (info_bytes ++ payload) }

  -- The five writes, one after the other.
  pub written_lem :
      let linked =
        memcpy
          (pre ++ (old_link ++ (old_ip ++ (old_info ++ (payload ++ tail)))))
          (length pre)
          link in
      let with_ip = memcpy linked 14 ip_bytes in
      let with_info = memcpy with_ip 34 info_bytes in
      let moved = memcpy with_info 58 (read with_info 58 (length payload)) in
      handle_checksum crc32 moved 34 (length payload + 24)
      ≡ pre ++ (link ++ (ip_bytes ++ (bytes_of_packet_info summed ++ (payload ++ tail))))
  unfolding handle_checksum
  written_lem =
      let rest = payload ++ tail in
      let pre14 = pre ++ link in
      let pre34 = pre14 ++ ip_bytes in
      let pre58 = pre34 ++ info_bytes in
      let at14 : length pre14 ≡ 14 = length-append pre link ∙ in_front in
      let at34 : length pre34 ≡ 34 =
        omega (arith, length-append pre14 ip_bytes, at14, length-bytes_of_ip ip) in
      let at58 : length pre58 ≡ 58 =
        omega (arith, length-append pre34 info_bytes, at34, length-bytes_of_packet_info info) in
      let s1 : pre ++ (link ++ (old_ip ++ (old_info ++ rest)))
          ≡ pre14 ++ (old_ip ++ (old_info ++ rest)) =
        sym (append_assoc pre link _) in
      let s2 : pre14 ++ (ip_bytes ++ (old_info ++ rest)) ≡ pre34 ++ (old_info ++ rest) =
        sym (append_assoc pre14 ip_bytes _) in
      let s3 : pre34 ++ (info_bytes ++ rest) ≡ pre58 ++ rest =
        sym (append_assoc pre34 info_bytes _) in
      let s4 : pre34 ++ (info_bytes ++ rest) ≡ pre34 ++ ((info_bytes ++ payload) ++ tail) =
        ap (λ r. pre34 ++ r) (sym (append_assoc info_bytes payload tail)) in
      let span : length (info_bytes ++ payload) ≡ length payload + 24 =
        omega (arith, length-append info_bytes payload, length-bytes_of_packet_info info) in
      let crc = crc32 (info_bytes ++ payload) in
      let summing : memcpy (pre34 ++ (info_bytes ++ rest)) 46 (little_endian 4 crc)
          ≡ pre34 ++ (bytes_of_packet_info summed ++ rest) =
        (let there = memcpy-append_add pre34 (info_bytes ++ rest) (little_endian 4 crc) 12 in
          rw at34 at there ∙ ap (λ r. pre34 ++ r) (memcpy-checksum info rest crc)) in
      rw
        (
          over_at pre old_link (old_ip ++ (old_info ++ rest)) link (length pre) refl (sym of_link),
          s1,
          over_at pre14 old_ip (old_info ++ rest) ip_bytes 14 at14
              (length-bytes_of_ip ip ∙ sym of_ip),
          s2,
          over_at pre34 old_info rest info_bytes 34 at34
              (length-bytes_of_packet_info info ∙ sym of_info),
          s3,
          read_at pre58 payload tail 58 (length payload) at58 refl,
          over_at pre58 payload tail payload 58 at58 refl,
          ← s3,
          s4,
          read_at pre34 (info_bytes ++ payload) tail 34 (length payload + 24) at34 span,
          ← s4,
          summing,
        )
        (append_assoc pre14 ip_bytes _ ∙ append_assoc pre link _)

-- The packet of the frame.
abbrev pub single_packet : (List ℕ → ℕ) → Ip → PacketInfo → List ℕ → Packet
single_packet crc32 ip info payload = record {
  ip_header = ip;
  packet_info = record info { checksum = crc32 (bytes_of_packet_info info ++ payload) };
  payload = payload;
}

module _ (crc32 : List ℕ → ℕ) (ip : Ip) (info : PacketInfo) (memory link : List ℕ) (a b n : ℕ)
    (in_front : a + b ≡ 14) (of_link : length link ≡ b) (room : 58 + n ≤ length memory) where
  abbrev payload_of : List ℕ
  payload_of = read memory 58 n

  abbrev packet : Packet
  packet = single_packet crc32 ip info payload_of

  abbrev written_at : List ℕ → ℕ → ℕ → List ℕ
  written_at m k q =
      let with_info =
        memcpy (memcpy (memcpy m k link) 14 (bytes_of_ip ip)) 34 (bytes_of_packet_info info) in
      handle_checksum crc32 (memcpy with_info 58 (read with_info 58 q)) 34 (q + 24)

  -- What is sent from the place of the link header on.
  pub written_frame :
      read (written_at memory a n) a (b + 44 + n) ≡ frame_of link (bytes_of_ip ip) packet
  unfolding frame_of read
  written_frame =
      let m1 = drop a memory in
      let m2 = drop b m1 in
      let m3 = drop 20 m2 in
      let m4 = drop 24 m3 in
      let pre = take a memory in
      let l = take b m1 in
      let i = take 20 m2 in
      let h = take 24 m3 in
      let tail = drop n m4 in
      let at : a + b + 20 + 24 ≡ 58 = omega (arith, in_front) in
      let of_payload : take n m4 ≡ payload_of =
        rw (drop-drop a b memory, drop-drop (a + b) 20 memory, drop-drop (a + b + 20) 24 memory, at)
          refl in
      let split : memory ≡ pre ++ (l ++ (i ++ (h ++ (payload_of ++ tail)))) =
        rw
          (
            ← of_payload,
            take-append-drop n m4,
            take-append-drop 24 m3,
            take-append-drop 20 m2,
            take-append-drop b m1,
            take-append-drop a memory,
          )
          refl in
      let length_pre : length pre ≡ a = omega (arith, length-take a memory, room, in_front) in
      let length_l : length l ≡ b =
        omega (arith, length-take b m1, length-drop a memory, room, in_front) in
      let l2 : length m2 ≡ length memory - 14 =
        omega (arith, length-drop b m1, length-drop a memory, in_front) in
      let l3 : length m3 ≡ length memory - 34 = omega (arith, length-drop 20 m2, l2) in
      let length_i : length i ≡ 20 = omega (arith, length-take 20 m2, l2, room) in
      let length_h : length h ≡ 24 = omega (arith, length-take 24 m3, l3, room) in
      let length_payload : length payload_of ≡ n =
        omega (arith, length-take n (drop 58 memory), length-drop 58 memory, room) in
      let all =
        written_lem crc32 ip info pre link l i h payload_of tail
          (omega (arith, length_pre, of_link, in_front)) (length_l ∙ sym of_link) length_i
          length_h in
      let laid = pre ++ (l ++ (i ++ (h ++ (payload_of ++ tail)))) in
      let framed = frame_of link (bytes_of_ip ip) packet in
      let result : written_at memory a n
          ≡ pre
            ++ (link
                ++ (bytes_of_ip ip
                    ++ (bytes_of_packet_info packet.packet_info ++ (payload_of ++ tail)))) =
        ap (λ m. written_at m a n) split
        ∙ ap (λ k. written_at laid k n) (sym length_pre)
        ∙ ap (λ q. written_at laid (length pre) q) (sym length_payload)
        ∙ all in
      let whole : pre
            ++ (link
                ++ (bytes_of_ip ip
                    ++ (bytes_of_packet_info packet.packet_info ++ (payload_of ++ tail))))
          ≡ pre ++ (framed ++ tail) =
        simp append_assoc in
      ap (λ m. read m a (b + 44 + n)) (result ∙ whole)
      ∙ read_at pre framed tail a (b + 44 + n) length_pre
          (length-frame_of link packet [] ∙ omega (arith, of_link, length_payload))
