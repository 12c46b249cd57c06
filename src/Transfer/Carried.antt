-- ===== src/Transfer/Carried.antt =====
-- The frames of a message in chunks, as the receiver takes them out of its queue.
use swift_net.Base.{
  ℕ, zero, suc, ◌+◌, ◌-◌, ◌*◌, ◌^◌, ◌<◌, ◌≤◌, ◌≡◌, refl, sym, ap, ◌∙◌, inl, inr, Bool, true, false,
  Option, none, some, List, [], ◌∷◌, map, length, drop, get_or, leb, ◌==◌, if◌then◌else◌, arith,
  Bool-cases,
}
use native.Mathlib.Nat.{add-zero}
use swift_net.Base.Buffer.{memcpy-start}
use swift_net.Control.Peers.{Host}
use swift_net.Packet.{
  Packet, PacketInfo, PortInfo, Ip, packet_header_size, min_of, htons, construct_packet_info,
  construct_ip_header, frame_of,
}
use swift_net.Packet.PacketType.{response}
use swift_net.Receive.Delivery.{info}
use swift_net.Receive.Once.{AreBelow, packets_of}
use swift_net.Routing.{Queued}
use swift_net.Send.{chunk_data_size, chunk_amount_of}
use swift_net.Send.Chunked.{chunk, frames}
use swift_net.Send.Frame.{frame}
use swift_net.Transfer.{
  bytes_of_ip, link_header, packet_construction, packet_type_of, long_ip, captured, packet_of,
}
use swift_net.Transfer.Arrivals.{IsForHost, IsCarried, AreCarried}
use swift_net.Transfer.Frames.{chunk_packet, place_of, lengthened, frame_lem}
use swift_net.Transfer.Headers.{IsPacked, IsPackedIp, packet_of-frame_of, length-frame_of}

-- Frame `j` of the frames from chunk `i` on.
get_or-frames :
    (crc32 : List ℕ → ℕ) (prepend_size : ℕ) (prepend_buffer : List ℕ) (size : ℕ) (bytes : List ℕ)
    (n i j : ℕ)
    → j < n
    → get_or (frames crc32 prepend_size prepend_buffer size bytes n i) j []
      ≡ frame crc32 prepend_size prepend_buffer
          (i + j)
          (place_of prepend_size (
            if leb (length bytes) ((i + j) * size + size)
            then some (htons (length bytes - (i + j) * size + packet_header_size))
            else none))
          (chunk size bytes (i + j))
unfolding frames
get_or-frames crc32 prepend_size prepend_buffer size bytes zero i j lt = absurd (omega arith)
get_or-frames crc32 prepend_size prepend_buffer size bytes (suc n) i zero lt =
    rw (add-zero i) (elim (Bool-cases (leb (length bytes) (i * size + size))) [
      | inl e ↦ rw e refl
      | inr e ↦ rw e refl
    ])
get_or-frames crc32 prepend_size prepend_buffer size bytes (suc n) i (suc j) lt =
    let e : i + suc j ≡ i + 1 + j = omega arith in
    rw e (get_or-frames crc32 prepend_size prepend_buffer size bytes n (i + 1) j (omega arith))

pub length-packet_construction :
    (addr_type : ℕ) (eth_hdr : List ℕ) (ip : Ip) (header : PacketInfo) (prepend_size : ℕ)
    → length (link_header addr_type eth_hdr) ≡ prepend_size
    → length (packet_construction addr_type eth_hdr ip header) ≡ prepend_size + packet_header_size
unfolding packet_construction
length-packet_construction addr_type eth_hdr ip header prepend_size linked = omega (
  arith,
  linked,
  length-frame_of (link_header addr_type eth_hdr)
      (record { ip_header = ip; packet_info = header; payload = [] }) [],
)

pub packet_type_of-response :
    (is_response has_request : Bool)
    → (packet_type_of is_response has_request == response) ≡ is_response
unfolding packet_type_of
packet_type_of-response true has_request = refl
packet_type_of-response false true = refl
packet_type_of-response false false = refl

pub type-lt : (is_response has_request : Bool) → packet_type_of is_response has_request < 2 ^ 8
unfolding packet_type_of
type-lt is_response has_request = ground arith

pub htons-lt : (x : ℕ) → htons x < 2 ^ 16
unfolding htons
htons-lt x = omega arith

pub min_of_comm : (a b : ℕ) → min_of a b ≡ min_of b a
min_of_comm a b = ground arith

module _ (crc32 : List ℕ → ℕ) (sender receiver : Host) (addr_type : ℕ) (eth_hdr : List ℕ)
    (port_info : PortInfo) (target_addr packet_length : ℕ) where
  -- What both branches need of the two hosts, of the addresses and of the length.
  pub record IsOnLink : Type 0 where
    pub linked : length (link_header addr_type eth_hdr) ≡ sender.prepend_size
    pub same_link : receiver.prepend_size ≡ sender.prepend_size
    pub checksums : (bytes : List ℕ) → crc32 bytes < 2 ^ 32
    pub destination_port : port_info.destination_port < 2 ^ 16
    pub source_port : port_info.source_port < 2 ^ 16
    pub port : port_info.destination_port ≡ receiver.source_port
    pub sender_mtu : sender.maximum_transmission_unit < 2 ^ 16
    pub from : sender.private_ip_address < 2 ^ 32
    pub to : target_addr < 2 ^ 32
    pub no_wrap : packet_length + 2 ^ 16 ≤ 2 ^ 32

module _ (crc32 : List ℕ → ℕ) (sender receiver : Host) (addr_type : ℕ) (eth_hdr : List ℕ)
    (port_info : PortInfo) (target_addr : ℕ) (has_request is_response : Bool)
    (packet_id packet_length : ℕ) where
  abbrev pub mtu : ℕ
  mtu = min_of receiver.maximum_transmission_unit sender.maximum_transmission_unit

  abbrev pub size : ℕ
  size = chunk_data_size mtu

  abbrev pub amount : ℕ
  amount = chunk_amount_of packet_length mtu

  abbrev pub header : PacketInfo
  header =
      construct_packet_info sender.maximum_transmission_unit packet_length
        (packet_type_of is_response has_request) amount 0 port_info

  abbrev link : List ℕ
  link = link_header addr_type eth_hdr

  abbrev pub ip : Ip
  ip = long_ip sender target_addr packet_id mtu

  module _
      (on_link : IsOnLink crc32 sender receiver addr_type eth_hdr port_info target_addr
        packet_length)
      (old_bytes : List ℕ) (sender_address : ℕ) (bytes : List ℕ)
      (whole : length bytes ≡ packet_length) (amount_fits : amount < 2 ^ 32) where
    value_of : ℕ → Option ℕ
    value_of j =
        if leb (length bytes) (j * size + size)
        then some (htons (length bytes - j * size + packet_header_size))
        else none

    value_of-IsPackedIp : (j : ℕ) → IsPackedIp (lengthened (value_of j) ip)
    unfolding value_of long_ip construct_ip_header
    value_of-IsPackedIp j = elim (Bool-cases (leb (length bytes) (j * size + size))) [
      | inl e ↦ rw e (record {
        ip_len = htons-lt _;
        ip_id = htons-lt _;
        ip_sum = htons-lt 0;
        ip_src = on_link.from;
        ip_dst = on_link.to;
      })
      | inr e ↦ rw e (record {
        ip_len = htons-lt _;
        ip_id = htons-lt _;
        ip_sum = htons-lt 0;
        ip_src = on_link.from;
        ip_dst = on_link.to;
      })
    ]

    abbrev carried_packet : ℕ → Packet
    carried_packet j = chunk_packet crc32 ip header j (value_of j) (chunk size bytes j)

    carried_packet-IsPacked : (j : ℕ) → j < amount → IsPacked (carried_packet j).packet_info
    unfolding construct_packet_info
    carried_packet-IsPacked j lt = record {
      packet_length = omega (arith, on_link.no_wrap);
      chunk_amount = amount_fits;
      chunk_index = omega (arith, amount_fits, lt);
      checksum = on_link.checksums _;
      destination_port = on_link.destination_port;
      source_port = on_link.source_port;
      maximum_transmission_unit = on_link.sender_mtu;
      packet_type = type-lt is_response has_request;
    }

    carried_packet-IsForHost :
        (j : ℕ) → IsForHost receiver has_request is_response (carried_packet j)
    unfolding construct_packet_info long_ip construct_ip_header htons value_of
    carried_packet-IsForHost j = elim (Bool-cases (leb (length bytes) (j * size + size))) [
      | inl e ↦ record { port = on_link.port; unsummed = rw e refl; with_data = refl }
      | inr e ↦ record { port = on_link.port; unsummed = rw e refl; with_data = refl }
    ]

    abbrev pub sent_frames : List (List ℕ)
    sent_frames =
        frames crc32 sender.prepend_size (packet_construction addr_type eth_hdr ip header) size
          bytes amount 0

    abbrev pub node_at : ℕ → Queued
    node_at j = captured old_bytes sender_address (get_or sent_frames j [])

    frame_at :
        (j : ℕ)
        → j < amount
        → get_or sent_frames j []
          ≡ frame_of link (bytes_of_ip (carried_packet j).ip_header) (carried_packet j)
    unfolding packet_construction value_of
    frame_at j lt =
        let pb = packet_construction addr_type eth_hdr ip header in
        let start : 0 + j ≡ j = omega arith in
        rw start at (get_or-frames crc32 sender.prepend_size pb size bytes amount 0 j lt)
        ∙ ap (λ n. frame crc32 n pb j (place_of n (value_of j)) (chunk size bytes j))
            (sym on_link.linked)
        ∙ frame_lem link ip header crc32 j (value_of j) (chunk size bytes j)

    node_at-IsCarried :
        (j : ℕ)
        → j < amount
        → IsCarried receiver has_request is_response
            (node_at j)
            (info (length bytes) amount header j)
            (chunk size bytes j)
    unfolding construct_packet_info
    node_at-IsCarried j lt =
        let packet = carried_packet j in
        let framed = frame_of link (bytes_of_ip packet.ip_header) packet in
        let rest = drop (length framed) old_bytes in
        record {
          packet = packet;
          taken =
              ap (λ f. packet_of receiver.prepend_size (captured old_bytes sender_address f))
                (frame_at j lt)
              ∙ ap (λ n. packet_of n (captured old_bytes sender_address framed))
                  (on_link.same_link ∙ sym on_link.linked)
              ∙ ap
                  (λ b. packet_of (length link) (record {
                    data_read = length framed;
                    packet_buffer = b;
                    sender_address = sender_address;
                  }))
                  (memcpy-start old_bytes framed (length framed) refl)
              ∙ packet_of-frame_of link packet rest sender_address (carried_packet-IsPacked j lt)
                  (value_of-IsPackedIp j);
          for_host = carried_packet-IsForHost j;
          header = ap (λ n. record packet.packet_info { packet_length = n }) (sym whole);
          behind = refl;
        }

    pub nodes-AreCarried :
        (js : List ℕ)
        → AreBelow amount js
        → AreCarried receiver has_request is_response
            (map node_at js)
            (packets_of size amount header bytes js)
    unfolding packets_of
    nodes-AreCarried [] below = tt
    nodes-AreCarried (j ∷ js) below = (node_at-IsCarried j below.0, nodes-AreCarried js below.1)
