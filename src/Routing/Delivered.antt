-- ===== src/Routing/Delivered.antt =====
-- Whom a frame reaches.
use swift_net.Base.{
  ℕ, ◌+◌, ◌≤◌, ◌≡◌, ◌≢◌, ◌⊎◌, refl, true, false, none, some, List, length, le→leb, ==_false, inl,
  inr, Option-cases, if◌then◌else◌, not, ◌&&◌, ◌==◌, Bool-cases,
}
use swift_net.Packet.{sizeof_ip}
use swift_net.Base.Buffer.{read, memcpy}
use swift_net.Routing.{
  Listener, Client, Inbox, from_bytes, field, packet_prepend_size, updated, handle_packets,
  handle_client_init, handle_client, handle_server, pcap_packet_handle, insert_node,
}

-- A block that the frame fits into.
handle_packets-defined :
    (addr_type : ℕ) (old_bytes frame : List ℕ) (inbox : Inbox)
    → length frame ≤ length old_bytes
    → (inbox' : Inbox) × (handle_packets addr_type frame old_bytes inbox ≡ some inbox')
unfolding handle_packets
handle_packets-defined addr_type old_bytes frame inbox fits =
    let packet_buffer = memcpy old_bytes 0 frame in
    let other_type = not (addr_type == 0) && not (from_bytes (read packet_buffer 12 2) == 0x0008) in
    elim (Bool-cases (length frame == 0)) [
      | inl empty ↦ (inbox, rw (handle_packets, empty) refl)
      | inr some_bytes ↦ elim (Bool-cases other_type) [
        | inl other ↦ (inbox, rw (handle_packets, some_bytes, le→leb _ _ fits, other) refl)
        | inr ip ↦ (
          insert_node
              (record {
                data_read = length frame;
                packet_buffer = packet_buffer;
                sender_address = if addr_type == 0 then 0 else from_bytes (read packet_buffer 26 4);
              })
              inbox,
          rw (handle_packets, some_bytes, le→leb _ _ fits, ip) refl,
        )
      ]
    ]

module _ (old_bytes frame : List ℕ) (port : ℕ) (listener : Listener)
    (fits : length frame ≤ length old_bytes) where
  changed_client :
      (client : Client)
      → listener.client_connections port ≡ some client
      → (client' : Client) × (handle_client old_bytes frame port listener
          ≡ some (
            true,
            record listener {
              client_connections = updated listener.client_connections port client';
            },
          ))
  unfolding handle_client
  changed_client client there = elim (Bool-cases client.initialized) [
    | inl ready ↦
        let (inbox, done) =
          handle_packets-defined listener.addr_type old_bytes frame client.inbox fits in
        (record client { inbox = inbox }, simp (handle_client, there, ready, done) refl)
    | inr init ↦
        (handle_client_init listener.addr_type frame client, simp (handle_client, there, init) refl)
  ]

  changed_server :
      (inbox : Inbox)
      → listener.servers port ≡ some inbox
      → (inbox' : Inbox) × (handle_server old_bytes frame port listener
          ≡ some (true, record listener { servers = updated listener.servers port inbox' }))
  unfolding handle_server
  changed_server inbox there =
      let (inbox', done) = handle_packets-defined listener.addr_type old_bytes frame inbox fits in
      (inbox', simp (handle_server, there, done) refl)

  no_client :
      listener.client_connections port ≡ none
      → handle_client old_bytes frame port listener ≡ some (false, listener)
  unfolding handle_client
  no_client none_there = rw (handle_client, none_there) refl

  no_server :
      listener.servers port ≡ none
      → handle_server old_bytes frame port listener ≡ some (false, listener)
  unfolding handle_server
  no_server none_there = rw (handle_server, none_there) refl

-- A captured frame that has its destination port, and fits into a block, is handled without a fault.
-- It changes nothing under any other port, and nothing of the server under its port either if a
-- client has that port.
pub pcap_packet_handle_lem :
    (old_bytes frame : List ℕ) (port p : ℕ) (listener : Listener)
    → length frame ≤ length old_bytes
    → field frame (packet_prepend_size listener.addr_type + sizeof_ip + 16) 2 ≡ some port
    → p ≢ port
    → (listener' : Listener) × (pcap_packet_handle old_bytes frame listener ≡ some listener')
      × (listener'.client_connections p ≡ listener.client_connections p)
      × (listener'.servers p ≡ listener.servers p)
      × ((listener.client_connections port ≡ none)
          ⊎ (listener'.servers port ≡ listener.servers port))
unfolding pcap_packet_handle
pcap_packet_handle_lem old_bytes frame port p listener fits has_port other =
    let skip = ==_false p port other in
    elim (Option-cases (listener.client_connections port)) [
      | inr (client, there) ↦
          let (client', done) = changed_client old_bytes frame port listener fits client there in
          (
            record listener {
              client_connections = updated listener.client_connections port client';
            },
            rw (pcap_packet_handle, has_port, done) refl,
            rw skip refl,
            refl,
            inr refl,
          )
      | inl nobody ↦
          let first = no_client old_bytes frame port listener fits nobody in
          elim (Option-cases (listener.servers port)) [
            | inl nobody_else ↦ (
              listener,
              rw
                  (
                    pcap_packet_handle,
                    has_port,
                    first,
                    no_server old_bytes frame port listener fits nobody_else,
                  )
                  refl,
              refl,
              refl,
              inl nobody,
            )
            | inr (inbox, there) ↦
                let (inbox', done) =
                  changed_server old_bytes frame port listener fits inbox there in
                (
                  record listener { servers = updated listener.servers port inbox' },
                  rw (pcap_packet_handle, has_port, first, done) refl,
                  refl,
                  rw skip refl,
                  inl nobody,
                )
          ]
    ]
