-- ===== src/Listeners.antt =====
-- The listeners of the interfaces: src/internal/check_existing_listener.c and
-- `remove_listener` of src/cleanup_connection.c (pcap backend).
--
-- A listener and a connection are the addresses that they are at; `memory` has what is at the address
-- of a listener. Opening and closing the interface, and its thread, change none of it.
mod Maps
pub mod Connected
pub mod Closed
mod Tests
use swift_net.Base.{
  ◌+◌, ◌%◌, ◌^◌, ℕ, Option, none, some, List, [], ◌∷◌, Bool, true, false, if◌then◌else◌, ◌==◌,
}
use swift_net.Base.Buffer.{little_endian}
use swift_net.Hashmap.{HashMap, create, insert, remove, get}

-- `ConnectionType`
pub data ConnectionType : Type 0 where
  connection_type_server : ConnectionType
  connection_type_client : ConnectionType

-- The two maps of a `Listener`, from ports to connections; its other fields are written once, from what
-- opening the interface gives.
pub record ListenerMaps : Type 0 where
  pub servers : HashMap ℕ
  pub client_connections : HashMap ℕ

-- `listeners`, a map from the names of interfaces.
pub record Listeners : Type 0 where
  pub listeners : HashMap ℕ
  pub memory : ℕ → ListenerMaps

-- `*new_listener`
unfoldable pub new_listener : ℕ → ListenerMaps
new_listener memory_usage = record {
  servers = create memory_usage;
  client_connections = create memory_usage;
}

module _ (seed : ℕ) where
  -- The insertion of a connection under its port.
  unfoldable pub insert_connection : ConnectionType → ℕ → ℕ → ListenerMaps → ListenerMaps
  insert_connection connection_type_client port connection listener = record listener {
    client_connections = insert seed (little_endian 2 port) connection listener.client_connections;
  }
  insert_connection connection_type_server port connection listener = record listener {
    servers = insert seed (little_endian 2 port) connection listener.servers;
  }

  -- `check_existing_listener`, for the address that the allocator of listeners gives.
  unfoldable pub check_existing_listener :
      ℕ → ℕ → List ℕ → ConnectionType → ℕ → ℕ → Listeners → ℕ × Listeners
  check_existing_listener memory_usage allocated interface_name connection_type port connection
        state =
      elim (get seed interface_name state.listeners) [
        | some existing_listener ↦ (
          existing_listener,
          record state {
            memory = λ p.
                if p == existing_listener
                then insert_connection connection_type port connection (state.memory p)
                else state.memory p;
          },
        )
        | none ↦ (
          allocated,
          record {
            listeners = insert seed interface_name allocated state.listeners;
            memory = λ p.
                if p == allocated
                then insert_connection connection_type port connection (new_listener memory_usage)
                else state.memory p;
          },
        )
      ]

  -- The removal of a connection by its port.
  unfoldable pub remove_connection : ConnectionType → ℕ → ListenerMaps → ListenerMaps
  remove_connection connection_type_client port listener = record listener {
    client_connections = remove seed (little_endian 2 port) listener.client_connections;
  }
  remove_connection connection_type_server port listener = record listener {
    servers = remove seed (little_endian 2 port) listener.servers;
  }

  -- `remove_listener` of src/cleanup_connection.c: a listener with no connection is closed and freed.
  unfoldable pub remove_listener : List ℕ → ConnectionType → ℕ → Listeners → Listeners
  unfolding remove_connection
  remove_listener interface_name connection_type port state =
      elim (get seed interface_name state.listeners) [
        | none ↦ state
        | some listener ↦
            let left = remove_connection connection_type port (state.memory listener) in
            let written : Listeners = record state {
              memory = λ p. if p == listener then left else state.memory p;
            } in
            if (left.servers.size + left.client_connections.size) % 2 ^ 32 == 0
            then record written { listeners = remove seed interface_name state.listeners }
            else written
      ]
