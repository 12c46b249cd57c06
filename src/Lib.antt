-- ===== src/Lib.antt =====
-- SwiftNet sends packets of any length over raw Ethernet frames: a sender cuts a packet into chunks
-- (src/send_packet.c), a capture thread queues the frames that arrive for a server or client
-- (src/handle_packets.c), a processing thread takes them from the queue, marks the chunks of each
-- pending message and asks for the lost ones (src/process_packets.c), and a callback thread hands
-- complete messages to the user (src/execute_packet_callback.c). The tables between them are hash
-- maps (src/internal/datatype_hashmap.c).
--
-- What is modelled is the build for the pcap backend, with requests and dynamic rate limiting on.
-- Paths are from the repository's root.
--
-- Hashmap (src/internal/datatype_hashmap.c; LOOP_HASHMAP of src/internal/internal.h): `HashMap` is
-- the struct, with the array of slots as a list of chains and a chain as the list of its items;
-- `get`, `insert`, `remove`, `create` and `resize` are hashmap_get, hashmap_insert, hashmap_remove,
-- hashmap_create and hashmap_resize, `loop_hashmap` the macro. The view of a map is, for every key,
-- the list of the values stored under it.
--
-- Queue (insert_queue_node and construct_node of src/handle_packets.c, insert_callback_queue_node and
-- wait_for_next_packet of src/process_packets.c, wait_for_next_packet_callback of
-- src/execute_packet_callback.c): the pointers of the queue and a memory of nodes; every function
-- holds the queue's lock, so it is one step and an interleaving of threads is a sequence of steps.
--
-- Chunks (src/process_packets.c): the bitmap of received chunks as the list of its bytes, and the
-- list of the lost ones. A run of return_lost_chunk_indexes gets fuel for one round per byte of the
-- bitmap, which the theorem shows to be enough.
--
-- Send (src/send_packet.c; HANDLE_CHECKSUM of src/internal/networking.h): the chunk loops of
-- swiftnet_send_packet and of handle_lost_packets, on the bytes of the caller's buffer. Fuel counts
-- chunks; that chunk_amount is enough is part of the theorem. The CRC instructions and the bytes of
-- the constructed headers are parameters. Packet has the sizes of the headers.
--
-- Transfer (swiftnet_send_packet of src/send_packet.c, the start of a round of swiftnet_process_packets):
-- a whole send, for a message in one frame or in chunks, and how the receiver reads the headers out of a
-- frame; `process_nodes` runs the step of Control over
-- nodes that are all of one source port and packet id; Processing has the loop for nodes of any. Accepted is
-- how the capture thread of Routing takes a frame. Carried, Delivered and
-- Unnoticed put a sender and a receiver together on the bytes of the frames.
--
-- Handoff (the loops of src/execute_packet_callback.c and src/process_packets.c, pass_callback_execution,
-- insert_node of src/handle_packets.c, and close_threads of src/cleanup_connection.c): how a thread hands
-- nodes to another one that sleeps when its queue stays empty. `System` is what the threads share, with
-- where each of them stands, and `Step` an access of one of them. What the loop does with a node is a
-- parameter: Callback gives it as the rest of execute_packet_callback, and Processing as the step of
-- Control on what the tables have under the source port and the packet id of a captured frame. That nobody holds a node which the allocator gives is the hypothesis
-- IsFresh.
--
-- Clients (src/initialize_client_connection.c): the request of a new client, and the loop in which it
-- waits to be initialized, for the rounds of that loop; Created puts it together with Control and
-- Routing.
--
-- Receive (src/process_packets.c): what the processing thread does with a packet that carries data,
-- for one packet id and sender: the tables of pending and of completed messages are projected to what
-- they hold under that key, and what is handed to the user or to a waiting requester is a list. The
-- quotient of floats in the rate limiting and the bytes that malloc gives are parameters.
--
-- Control (src/process_packets.c): the step of the processing thread at one packet, with the checks of
-- swiftnet_process_packets in front of its `switch` over the packet type, every case of it, and the
-- answers as a list of packets. `Peer` is what one packet id and one sender have at a host. CRC32 over
-- the memory of a header and its data is a parameter.
--
-- Retransmit (handle_lost_packets and request_lost_packets_bitarray of src/send_packet.c): the sender
-- of a packet in chunks as a state machine, `step` being what lies between two accesses of its entry
-- of packets_sending, so that each lost chunk is a step; the processing thread's changes of the entry are the other steps of the relation
-- `Step`. Completes puts a sender and a receiver together.
--
-- Routing (src/handle_packets.c): the way of a captured frame into the queue of the client or server
-- that has its port, and how a client is initialized by its server's answer. The tables of a listener
-- are functions from ports.
--
-- Listeners (src/internal/check_existing_listener.c, remove_listener of src/cleanup_connection.c): the
-- table of listeners, by the names of their interfaces, and the two maps of each, on the
-- hash map of Hashmap; what is at a listener's address is a memory, as the table and its users share it.
--
-- Allocator (src/internal/datatype_allocator.c): stacks of free pointers and the word of their locks.
-- The calls of the model come one after the other. The search for a stack gets fuel for 65 rounds, and
-- allocator_allocate and allocator_free may call themselves once, which is enough as the theorems show.
--
-- Requests (src/make_request.c, handle_request_response of src/process_packets.c): the loop in which a
-- request waits, for the readings of the clock that it makes, and the table of requests under one
-- packet id. `freed` stands for the memory of requests that have been given back.
--
-- Exchange (src/make_request.c, src/make_response.c): the functions that make a request or a response, on
-- the send of Transfer and the looks of Requests, with the responses that come between two looks, and
-- the metadata that a message is handed on with; Answered puts a client and its server together.
--
-- Tables (src/process_packets.c, src/send_packet.c): the tables of pending and of completed messages and of
-- those being sent, as the hash maps of Hashmap with the bytes of their keys, and the removal by
-- src/memory_cleanup_background_service.c; an entry is named by a
-- number in place of its address. Receive, Control and Retransmit have what they hold under one key.
--
-- Vector (src/internal/datatype_vector.c): the growable array of pointers; what malloc and realloc give
-- are parameters.
--
-- Reader (swiftnet_client_read_packet and swiftnet_server_read_packet of src/generic_functions.c) and
-- PacketBuffer (src/internal/pcap/pcap_buffer.c): what the user reads a packet from and writes it to.
--
-- Base has what the components share: tests, lists, bits, and buffers under memcpy.
--
-- Numbers are natural numbers with the wrap-around of the C types written out. An access outside of
-- an array, or through a pointer to nothing, is `none`. Not modelled: threads and locks as such,
-- but where a relation of steps is named above; the set-up of servers and the freeing of what a
-- connection holds, which are calls of allocators and of pthread; the service of
-- src/memory_cleanup_background_service.c, which removes items while it goes over the addresses of their
-- chains; the DPDK backend; and calls of pcap, pthread and the operating system.
pub mod Base
pub mod Hashmap
pub mod Queue
pub mod Chunks
pub mod Packet
pub mod Send
pub mod Receive
pub mod Control
pub mod Retransmit
pub mod Routing
pub mod Requests
pub mod Allocator
pub mod Reader
pub mod PacketBuffer
pub mod Listeners
pub mod Handoff
pub mod Callback
pub mod Processing
pub mod Clients
pub mod Exchange
pub mod Tables
pub mod Transfer
pub mod Vector
