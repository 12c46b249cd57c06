-- ===== src/Routing.antt =====
-- How src/handle_packets.c hands a captured frame to the client or server that it is for:
-- `pcap_packet_handle`, `handle_correct_receiver`, `handle_client_init` and
-- `swiftnet_handle_packets`, on the pcap backend.
--
-- The tables of a listener are functions from ports, and a queue of packets is the list of them that
-- Queue shows it to be. `none` is a read behind the end of the frame, or a copy over the end of a
-- block of `packet_buffer_memory_allocator`. The old bytes of that block are a parameter.
pub mod Delivered
pub mod Handshake
mod Tests
use swift_net.Base.{
  ℕ, zero, suc, ◌+◌, ◌*◌, ◌/◌, ◌%◌, ◌^◌, Bool, true, false, ◌&&◌, not, Option, none, some, List, [],
  ◌∷◌, ◌++◌, length, leb, ◌==◌, if◌then◌else◌,
}
use swift_net.Base.Buffer.{memcpy, read}
use swift_net.Packet.{PortInfo, sizeof_ip, packet_header_size, sizeof_server_information}
use swift_net.Packet.PacketType.{request_information}

-- The number that bytes in memory are.
unfoldable pub from_bytes : List ℕ → ℕ
from_bytes [] = 0
from_bytes (byte ∷ bytes) = byte + from_bytes bytes * 256

-- A field of `width` bytes of a frame.
unfoldable pub field : List ℕ → ℕ → ℕ → Option ℕ
unfolding from_bytes
field frame at width =
    if leb (at + width) (length frame) then some (from_bytes (read frame at width)) else none

-- `DLT_NULL` and `DLT_EN10MB`
abbrev pub dlt_null : ℕ
dlt_null = 0

abbrev pub dlt_en10mb : ℕ
dlt_en10mb = 1

-- `PACKET_PREPEND_SIZE`
unfoldable pub packet_prepend_size : ℕ → ℕ
packet_prepend_size addr_type =
    if addr_type == dlt_null then 4 else if addr_type == dlt_en10mb then 14 else 0

-- A node of a packet queue.
pub record Queued : Type 0 where
  pub data_read : ℕ
  pub packet_buffer : List ℕ
  pub sender_address : ℕ

-- The node that `swiftnet_handle_packets` inserts for a frame that the block with `old_bytes` in it
-- holds, and that is an IP packet: what `construct_node` makes of the block that the frame was copied to.
abbrev pub captured : List ℕ → ℕ → List ℕ → Queued
captured old_bytes sender_address frame = record {
  data_read = length frame;
  packet_buffer = memcpy old_bytes 0 frame;
  sender_address = sender_address;
}

-- What the capture thread changes of a connection: its queue, and whether it has woken up the thread
-- that processes packets.
pub record Inbox : Type 0 where
  pub packet_queue : List Queued
  pub processing_packets : Bool
  pub signalled : Bool

-- `SwiftNetClientConnection`, as far as frames change it.
pub record Client : Type 0 where
  pub closing : Bool
  pub initialized : Bool
  pub port_info : PortInfo
  pub maximum_transmission_unit : ℕ
  pub ether_dhost : List ℕ
  pub inbox : Inbox

-- `struct Listener`
pub record Listener : Type 0 where
  pub addr_type : ℕ
  pub client_connections : ℕ → Option Client
  pub servers : ℕ → Option Inbox

-- A table with the entry of one port changed.
abbrev pub updated {ℓ} : {A : Type ℓ} → (ℕ → Option A) → ℕ → A → ℕ → Option A
updated table port entry p = if p == port then some entry else table p

-- `insert_node` and `unlock_processing_thread`
unfoldable pub insert_node : Queued → Inbox → Inbox
insert_node node inbox = record inbox {
  packet_queue = inbox.packet_queue ++ (node ∷ []);
  signalled = if inbox.processing_packets then inbox.signalled else true;
}

module _ (addr_type : ℕ) (frame : List ℕ) where
  -- `swiftnet_handle_packets`; `old_bytes` is the block that the frame is copied into.
  unfoldable pub handle_packets : List ℕ → Inbox → Option Inbox
  unfolding insert_node
  handle_packets old_bytes inbox =
      let packet_buffer = memcpy old_bytes 0 frame in
      let ether_type = from_bytes (read packet_buffer 12 2) in
      let source = from_bytes (read packet_buffer 26 4) in
      let node = captured old_bytes (if addr_type == 0 then 0 else source) frame in
      if length frame == 0
      then some inbox
      else if not (leb (length frame) (length old_bytes))
      then none
      else if not (addr_type == 0) && not (ether_type == 0x0008)
      then some inbox
      else some (insert_node node inbox)

  -- `finalize_initialization` of `handle_client_init`, where the ports and the type are those given.
  unfoldable pub finalize_initialization : Client → ℕ → ℕ → ℕ → ℕ → Client
  finalize_initialization client destination source packet_type mtu =
      if destination == client.port_info.source_port
        && (source == client.port_info.destination_port && packet_type == request_information)
      then record client { maximum_transmission_unit = mtu; initialized = true }
      else client

  -- `handle_client_init`
  unfoldable pub handle_client_init : Client → Client
  unfolding finalize_initialization
  handle_client_init client =
      let prepend_size = packet_prepend_size addr_type in
      let packet_info = prepend_size + sizeof_ip in
      let addressed =
        if addr_type == 0 then client else record client { ether_dhost = read frame 6 6 } in
      if client.closing
      then client
      else if not (length frame == packet_header_size + sizeof_server_information + prepend_size)
      then client
      else finalize_initialization addressed (from_bytes (read frame (packet_info + 16) 2))
          (from_bytes (read frame (packet_info + 18) 2))
          (from_bytes (read frame (packet_info + 22) 1))
          (from_bytes (read frame (prepend_size + packet_header_size) 2))

-- `handle_correct_receiver` for a client: whether a client has the port, and the listener.
unfoldable pub handle_client : List ℕ → List ℕ → ℕ → Listener → Option (Bool × Listener)
handle_client old_bytes frame port listener = elim (listener.client_connections port) [
  | none ↦ some (false, listener)
  | some client ↦
      let changed =
        if client.initialized
        then elim (handle_packets listener.addr_type frame old_bytes client.inbox) [
          | none ↦ none
          | some inbox ↦ some (record client { inbox = inbox })
        ]
        else some (handle_client_init listener.addr_type frame client) in
      elim changed [
        | none ↦ none
        | some client' ↦ some (
          true,
          record listener { client_connections = updated listener.client_connections port client' },
        )
      ]
]

-- `handle_correct_receiver` for a server.
unfoldable pub handle_server : List ℕ → List ℕ → ℕ → Listener → Option (Bool × Listener)
handle_server old_bytes frame port listener = elim (listener.servers port) [
  | none ↦ some (false, listener)
  | some inbox ↦ elim (handle_packets listener.addr_type frame old_bytes inbox) [
    | none ↦ none
    | some inbox' ↦ some (true, record listener { servers = updated listener.servers port inbox' })
  ]
]

-- `pcap_packet_handle`, which reads the port in front of any test of the frame's length.
unfoldable pub pcap_packet_handle : List ℕ → List ℕ → Listener → Option Listener
unfolding field
pcap_packet_handle old_bytes frame listener =
    elim (field frame (packet_prepend_size listener.addr_type + sizeof_ip + 16) 2) [
      | none ↦ none
      | some port ↦ elim (handle_client old_bytes frame port listener) [
        | none ↦ none
        | some (true, listener') ↦ some listener'
        | some (false, listener') ↦ elim (handle_server old_bytes frame port listener') [
          | none ↦ none
          | some (_, listener'') ↦ some listener''
        ]
      ]
    ]
