-- ===== src/Listeners/Maps.antt =====
-- The maps of one listener, and the table of listeners as one is added.
use mathlib.Core.List.{head?}
use swift_net.Base.{
  ℕ, ◌^◌, ◌<◌, ◌≡◌, refl, sym, ap, ◌∙◌, inl, inr, append-nil, Bool, true, false, ◌&&◌, none, some,
  List, [], ◌∷◌, ◌++◌, if◌then◌else◌, arith, Bool-cases, some_of_none,
}
use swift_net.Base.Buffer.{little_endian}
use swift_net.Hashmap.{HashMap, insert, get, same_key}
use swift_net.Hashmap.Key.{same_key→eq}
use swift_net.Hashmap.Laws.{create_lem, capacity-create, insert_lem, get-view}
use swift_net.Hashmap.View.{view, IsValid}
use swift_net.Listeners.{
  ConnectionType, connection_type_server, connection_type_client, ListenerMaps, insert_connection,
  new_listener,
}

-- The map for connections of a kind.
abbrev pub map_of : ConnectionType → ListenerMaps → HashMap ℕ
map_of connection_type_server listener = listener.servers
map_of connection_type_client listener = listener.client_connections

abbrev pub same_type : ConnectionType → ConnectionType → Bool
same_type connection_type_server connection_type_server = true
same_type connection_type_client connection_type_client = true
same_type _ _ = false

module _ (seed : ℕ) where
  -- Both maps are valid, and have room to grow.
  pub data IsReady (listener : ListenerMaps) : Type 0 where
    ready :
        ((t : ConnectionType) → IsValid seed (map_of t listener))
        → ((t : ConnectionType) → (map_of t listener).capacity < 2 ^ 30)
        → IsReady listener

  pub insert_connection_lem :
      (t t' : ConnectionType) (port connection : ℕ) (listener : ListenerMaps) (q : List ℕ)
      → IsReady listener
      → view seed (map_of t' (insert_connection seed t port connection listener)) q
        ≡ view seed (map_of t' listener) q
          ++ (if same_type t' t && same_key q (little_endian 2 port) then connection ∷ [] else [])
  unfolding insert_connection
  insert_connection_lem connection_type_server connection_type_server port connection listener q
        (ready valid small) =
      (insert_lem seed listener.servers (little_endian 2 port) connection
          (small connection_type_server) (valid connection_type_server)).1
        q
  insert_connection_lem connection_type_client connection_type_client port connection listener q
        (ready valid small) =
      (insert_lem seed listener.client_connections (little_endian 2 port) connection
          (small connection_type_client) (valid connection_type_client)).1
        q
  insert_connection_lem connection_type_server connection_type_client port connection listener q r =
      sym (append-nil _)
  insert_connection_lem connection_type_client connection_type_server port connection listener q r =
      sym (append-nil _)

  pub new_listener-IsReady :
      (memory_usage : ℕ)
      → 0 < memory_usage
      → memory_usage < 2 ^ 24
      → IsReady (new_listener memory_usage)
  unfolding new_listener
  new_listener-IsReady memory_usage some_memory small =
      ready
        (λ t. elim t as (λ k. IsValid seed (map_of k (new_listener memory_usage))) [
          | connection_type_server ↦ (create_lem seed memory_usage some_memory).0
          | connection_type_client ↦ (create_lem seed memory_usage some_memory).0
        ])
        (λ t. elim t as (λ k. (map_of k (new_listener memory_usage)).capacity < 2 ^ 30) [
          | connection_type_server ↦ rw (capacity-create ℕ memory_usage) (omega arith)
          | connection_type_client ↦ rw (capacity-create ℕ memory_usage) (omega arith)
        ])

  pub new_listener-view :
      (memory_usage : ℕ) (t : ConnectionType) (q : List ℕ)
      → 0 < memory_usage
      → view seed (map_of t (new_listener memory_usage)) q ≡ []
  unfolding new_listener
  new_listener-view memory_usage connection_type_server q some_memory =
      (create_lem seed memory_usage some_memory).1 q
  new_listener-view memory_usage connection_type_client q some_memory =
      (create_lem seed memory_usage some_memory).1 q

  pub empty_of_head : (values : List ℕ) → head? values ≡ none → values ≡ []
  empty_of_head [] e = refl
  empty_of_head (x ∷ values) e = some_of_none x (sym e)

  pub get-insert :
      (m : HashMap ℕ) (name q : List ℕ) (p : ℕ)
      → IsValid seed m
      → m.capacity < 2 ^ 30
      → get seed name m ≡ none
      → get seed q (insert seed name p m) ≡ (if same_key q name then some p else get seed q m)
  get-insert m name q p valid small missing =
      let inserted = insert_lem seed m name p small valid in
      let none_stored : view seed m name ≡ [] =
        empty_of_head _ (sym (get-view seed m name valid) ∙ missing) in
      get-view seed (insert seed name p m) q inserted.0
      ∙ ap head? (inserted.1 q)
      ∙ elim (Bool-cases (same_key q name)) [
        | inl e ↦ rw (e, same_key→eq q name e, none_stored) refl
        | inr e ↦ rw (e, append-nil (view seed m q)) (sym (get-view seed m q valid))
      ]
