-- ===== src/Processing/Keyed.antt =====
-- Frames of one source port and packet id.
use mathlib.Core.Option
use swift_net.Base.{ℕ, ◌≡◌, Bool, Option, List, [], ◌∷◌}
use swift_net.Control.{process_packet}
use swift_net.Control.Peers.{Host, Peer}
use swift_net.Routing.{Queued}
use swift_net.Transfer.{packet_of, checksum_of}
use swift_net.Processing.{Peers, peer_at}

-- The frames that are of the port and the id.
abbrev pub AreUnder : Host → ℕ → ℕ → List Queued → Type 0
AreUnder host source_port packet_id [] = Unit
AreUnder host source_port packet_id (node ∷ nodes) =
    ((packet_of host.prepend_size node).packet_info.port_info.source_port ≡ source_port)
    × (((packet_of host.prepend_size node).ip_header.ip_id ≡ packet_id)
        × AreUnder host source_port packet_id nodes)

module _ (crc32 : List ℕ → ℕ) (malloc : ℕ → List ℕ) (ratio_above : ℕ → ℕ → Bool) (host : Host)
    (random source_port packet_id : ℕ) where
  abbrev peer_step : Queued → Peers → Option Peer
  peer_step node peers =
      process_packet (checksum_of crc32) malloc ratio_above host random node.data_read
        (packet_of host.prepend_size node) (peer_at source_port packet_id peers)
