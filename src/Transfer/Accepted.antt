-- ===== src/Transfer/Accepted.antt =====
-- How the capture thread takes the frame of a packet (`swiftnet_handle_packets` of
-- src/handle_packets.c).
use swift_net.Base.{
  ℕ, ◌+◌, ◌<◌, ◌≤◌, ◌≡◌, refl, ap, ◌∙◌, inl, inr, true, false, none, some, List, [], ◌++◌,
  length-drop, take, drop, length, leb, ◌==◌, arith, ==_iff, ==_false, le→leb, lt→leb, append_assoc,
}
use swift_net.Base.Buffer.{memcpy, read, drop-append_le, take-append_le, memcpy-start}
use swift_net.Packet.{Packet, frame_of, bytes_of_packet_info}
use swift_net.Routing.{
  Inbox, from_bytes, dlt_null, dlt_en10mb, captured, insert_node, handle_packets,
}
use swift_net.Transfer.{bytes_of_ip, link_header}
use swift_net.Transfer.Headers.{length-frame_of}
use swift_net.Transfer.Single.{IsKnownLink}

-- The Ethernet headers that the code writes are those of IP packets.
abbrev pub HasIpType : ℕ → List ℕ → Type 0
HasIpType addr_type eth_hdr = addr_type ≡ dlt_en10mb → from_bytes (read eth_hdr 12 2) ≡ 0x0008

read-front : (h ys : List ℕ) (k n : ℕ) → k + n ≤ length h → read (h ++ ys) k n ≡ read h k n
unfolding read
read-front h ys k n le =
    ap (take n) (drop-append_le h ys k (omega (arith, le)))
    ∙ take-append_le (drop k h) ys n (omega (arith, le, length-drop k h))

module _ (addr_type : ℕ) (eth_hdr : List ℕ) (packet : Packet) (block : List ℕ) (inbox : Inbox) where
  abbrev frame : List ℕ
  frame = frame_of (link_header addr_type eth_hdr) (bytes_of_ip packet.ip_header) packet

  not_empty : (length frame == 0) ≡ false
  not_empty =
      ==_false _ _ (omega (arith, length-frame_of (link_header addr_type eth_hdr) packet []))

  -- A frame that is longer than the block is copied over its end.
  pub handle_packets-over :
      length block < length frame → handle_packets addr_type frame block inbox ≡ none
  unfolding handle_packets
  handle_packets-over over =
      let beyond : leb (length frame) (length block) ≡ false = lt→leb _ _ over in
      rw (not_empty, beyond) refl

  link_ethernet : addr_type ≡ dlt_en10mb → link_header addr_type eth_hdr ≡ eth_hdr
  unfolding link_header
  link_ethernet ethernet =
      let not_null : (addr_type == dlt_null) ≡ false = ==_false _ _ (omega (arith, ethernet)) in
      let is_ethernet : (addr_type == dlt_en10mb) ≡ true = (==_iff _ _).1 ethernet in
      rw (not_null, is_ethernet) refl

  type_of :
      length eth_hdr ≡ 14
      → addr_type ≡ dlt_en10mb
      → from_bytes (read (memcpy block 0 frame) 12 2) ≡ from_bytes (read eth_hdr 12 2)
  unfolding frame_of
  type_of fourteen ethernet =
      let link = link_header addr_type eth_hdr in
      let same = link_ethernet ethernet in
      let behind =
        bytes_of_ip packet.ip_header
        ++ (bytes_of_packet_info packet.packet_info ++ packet.payload) in
      let rest = drop (length frame) block in
      ap (λ b. from_bytes (read b 12 2))
        (memcpy-start block frame (length frame) refl ∙ append_assoc link behind rest)
      ∙ ap (λ l. from_bytes (read (l ++ (behind ++ rest)) 12 2)) same
      ∙ ap from_bytes (read-front eth_hdr (behind ++ rest) 12 2 (omega (arith, fourteen)))

  -- Any other is queued.
  pub handle_packets-captured :
      IsKnownLink addr_type eth_hdr
      → HasIpType addr_type eth_hdr
      → length frame ≤ length block
      → (sender_address : ℕ) × (handle_packets addr_type frame block inbox
          ≡ some (insert_node (captured block sender_address frame) inbox))
  unfolding handle_packets
  handle_packets-captured (inl null) has_type fits =
      let inside : leb (length frame) (length block) ≡ true = le→leb _ _ fits in
      let is_null : (addr_type == 0) ≡ true = (==_iff _ _).1 null in
      (0, rw (not_empty, inside, is_null) refl)
  handle_packets-captured (inr (ethernet, fourteen)) has_type fits =
      let inside : leb (length frame) (length block) ≡ true = le→leb _ _ fits in
      let not_null : (addr_type == 0) ≡ false = ==_false _ _ (omega (arith, ethernet)) in
      let is_ip : (from_bytes (read (memcpy block 0 frame) 12 2) == 0x0008) ≡ true =
        (==_iff _ _).1 (type_of fourteen ethernet ∙ has_type ethernet) in
      (from_bytes (read (memcpy block 0 frame) 26 4), rw (not_empty, inside, not_null, is_ip) refl)
