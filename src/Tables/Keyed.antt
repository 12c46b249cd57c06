-- ===== src/Tables/Keyed.antt =====
-- Each table is a table by its keys: what is under one key is what the operations under that key alone
-- have made, whatever the hashes.
use mathlib.Core.List.{head?, tail}
use swift_net.Base.{
  ℕ, ◌^◌, ◌<◌, ◌≡◌, refl, sym, ap, ap₂, ◌∙◌, Bool, true, false, ◌&&◌, List, [], ◌∷◌, ◌++◌, ◌==◌,
  if◌then◌else◌, arith, ==_iff, get_or, ◌%◌, ◌/◌,
}
use swift_net.Base.Buffer.{little_endian}
use swift_net.Hashmap.{same_key, is_some}
use swift_net.Hashmap.Key.{same_key→eq, same_key_refl}
use swift_net.Hashmap.Laws.{create_lem, insert_lem, remove_lem, get-view}
use swift_net.Hashmap.View.{view, IsValid}
use swift_net.Tables.{
  Tables, key_bytes, created, get_pending_message, check_packet_already_completed,
  get_packet_sending, insert_pending_message, remove_pending_message, packet_completed,
  remove_packet_completed, insert_packet_sending, remove_packet_sending,
}

pub data Op : Type 0 where
  begin_pending : (source_port packet_id pending_message : ℕ) → Op
  end_pending : (source_port packet_id : ℕ) → Op
  complete : (source_port packet_id new_packet_completed : ℕ) → Op
  clean_up : (source_port packet_id : ℕ) → Op
  begin_sending : (packet_id new_packet_sending : ℕ) → Op
  end_sending : (packet_id : ℕ) → Op

-- What the tables have under the port and the id, oldest first.
pub record Entry : Type 0 where
  pub pending : List ℕ
  pub completed : List ℕ
  pub sending : List ℕ

abbrev is_key : ℕ → ℕ → ℕ → ℕ → Bool
is_key port id source_port packet_id = port == source_port && id == packet_id

module _ (port id : ℕ) where
  abbrev op_entry : Op → Entry → Entry
  op_entry (begin_pending source_port packet_id pending_message) e = record e {
    pending =
        e.pending ++ (if is_key port id source_port packet_id then pending_message ∷ [] else []);
  }
  op_entry (end_pending source_port packet_id) e = record e {
    pending = if is_key port id source_port packet_id then tail e.pending else e.pending;
  }
  op_entry (complete source_port packet_id new_packet_completed) e = record e {
    completed =
        e.completed
        ++ (if is_key port id source_port packet_id then new_packet_completed ∷ [] else []);
  }
  op_entry (clean_up source_port packet_id) e = record e {
    completed = if is_key port id source_port packet_id then tail e.completed else e.completed;
  }
  op_entry (begin_sending packet_id new_packet_sending) e = record e {
    sending = e.sending ++ (if id == packet_id then new_packet_sending ∷ [] else []);
  }
  op_entry (end_sending packet_id) e = record e {
    sending = if id == packet_id then tail e.sending else e.sending;
  }

  -- The operations are listed newest first.
  abbrev pub entry_of : List Op → Entry
  entry_of [] = record { pending = []; completed = []; sending = [] }
  entry_of (op ∷ ops) = op_entry op (entry_of ops)

-- Ports and ids are 16 bits wide.
abbrev pub HasKey : Op → Type 0
HasKey (begin_pending source_port packet_id _) = (source_port < 2 ^ 16) × (packet_id < 2 ^ 16)
HasKey (end_pending source_port packet_id) = (source_port < 2 ^ 16) × (packet_id < 2 ^ 16)
HasKey (complete source_port packet_id _) = (source_port < 2 ^ 16) × (packet_id < 2 ^ 16)
HasKey (clean_up source_port packet_id) = (source_port < 2 ^ 16) × (packet_id < 2 ^ 16)
HasKey (begin_sending packet_id _) = packet_id < 2 ^ 16
HasKey (end_sending packet_id) = packet_id < 2 ^ 16

-- There is room to grow.
pub record AreSmall (tables : Tables) : Type 0 where
  pub pending : tables.pending_messages.capacity < 2 ^ 30
  pub completed : tables.packets_completed.capacity < 2 ^ 30
  pub sending : tables.packets_sending.capacity < 2 ^ 30

same_truth : (a b : Bool) → (a ≡ true → b ≡ true) → (b ≡ true → a ≡ true) → a ≡ b
same_truth true b h k = sym (h refl)
same_truth false true h k = k refl
same_truth false false h k = refl

little_endian-eq :
    (i j : ℕ) → i < 2 ^ 16 → j < 2 ^ 16 → little_endian 2 i ≡ little_endian 2 j → i ≡ j
unfolding little_endian
little_endian-eq i j hi hj e =
    let low : i % 256 ≡ j % 256 = ap (λ l. get_or l 0 0) e in
    let high : i / 256 % 256 ≡ j / 256 % 256 = ap (λ l. get_or l 1 0) e in omega arith

-- The ids' bytes are compared as the ids are.
same_key-little_endian :
    (i j : ℕ)
    → i < 2 ^ 16
    → j < 2 ^ 16
    → same_key (little_endian 2 i) (little_endian 2 j) ≡ (i == j)
same_key-little_endian i j hi hj =
    same_truth _ _ (λ e. (==_iff i j).1 (little_endian-eq i j hi hj (same_key→eq _ _ e)))
      (λ e. rw ((==_iff i j).0 e) (same_key_refl (little_endian 2 j)))

key_bytes-eq :
    (p i q j : ℕ)
    → p < 2 ^ 16
    → i < 2 ^ 16
    → q < 2 ^ 16
    → j < 2 ^ 16
    → key_bytes p i ≡ key_bytes q j
    → (p ≡ q) × (i ≡ j)
unfolding little_endian
key_bytes-eq p i q j hp hi hq hj e =
    let port_low : p % 256 ≡ q % 256 = ap (λ l. get_or l 0 0) e in
    let port_high : p / 256 % 256 ≡ q / 256 % 256 = ap (λ l. get_or l 1 0) e in
    let id_low : i % 256 ≡ j % 256 = ap (λ l. get_or l 2 0) e in
    let id_high : i / 256 % 256 ≡ j / 256 % 256 = ap (λ l. get_or l 3 0) e in
    (omega arith, omega arith)

-- And so are the keys.
same_key-key_bytes :
    (p i q j : ℕ)
    → p < 2 ^ 16
    → i < 2 ^ 16
    → q < 2 ^ 16
    → j < 2 ^ 16
    → same_key (key_bytes p i) (key_bytes q j) ≡ (p == q && i == j)
same_key-key_bytes p i q j hp hi hq hj =
    same_truth _ _
      (λ e.
        let (port, id) = key_bytes-eq p i q j hp hi hq hj (same_key→eq _ _ e) in
        ap₂ ◌&&◌ ((==_iff p q).1 port) ((==_iff i j).1 id))
      (λ e.
        let port : (p == q) ≡ true = ground arith in
        let id : (i == j) ≡ true = ground arith in
        rw ((==_iff p q).0 port, (==_iff i j).0 id) (same_key_refl (key_bytes q j)))

module _ (seed : ℕ) where
  abbrev pub apply_op : Op → Tables → Tables
  apply_op (begin_pending source_port packet_id pending_message) tables =
      insert_pending_message seed packet_id source_port pending_message tables
  apply_op (end_pending source_port packet_id) tables =
      remove_pending_message seed packet_id source_port tables
  apply_op (complete source_port packet_id new_packet_completed) tables =
      packet_completed seed packet_id source_port new_packet_completed tables
  apply_op (clean_up source_port packet_id) tables =
      remove_packet_completed seed packet_id source_port tables
  apply_op (begin_sending packet_id new_packet_sending) tables =
      insert_packet_sending seed packet_id new_packet_sending tables
  apply_op (end_sending packet_id) tables = remove_packet_sending seed packet_id tables

  -- The tables that a connection gets into, with the operations on them, newest first.
  pub data Reach : List Op → Tables → Type 0 where
    start : (memory_usage : ℕ) → 0 < memory_usage → Reach [] (created memory_usage)
    later :
        {ops : List Op} {tables : Tables} (op : Op)
        → Reach ops tables
        → HasKey op
        → AreSmall tables
        → Reach (op ∷ ops) (apply_op op tables)

  record AreValid (tables : Tables) : Type 0 where
    pending : IsValid seed tables.pending_messages
    completed : IsValid seed tables.packets_completed
    sending : IsValid seed tables.packets_sending

  record Shows (port id : ℕ) (tables : Tables) (e : Entry) : Type 0 where
    pending : view seed tables.pending_messages (key_bytes port id) ≡ e.pending
    completed : view seed tables.packets_completed (key_bytes port id) ≡ e.completed
    sending : view seed tables.packets_sending (little_endian 2 id) ≡ e.sending

  op-AreValid :
      (op : Op) (tables : Tables)
      → AreSmall tables
      → AreValid tables
      → AreValid (apply_op op tables)
  unfolding insert_pending_message remove_pending_message packet_completed remove_packet_completed
      insert_packet_sending remove_packet_sending
  op-AreValid (begin_pending p i v) tables small valid = record {
    pending =
        (insert_lem seed tables.pending_messages (key_bytes p i) v small.pending valid.pending).0;
    completed = valid.completed;
    sending = valid.sending;
  }
  op-AreValid (end_pending p i) tables small valid = record {
    pending = (remove_lem seed tables.pending_messages (key_bytes p i) valid.pending).0;
    completed = valid.completed;
    sending = valid.sending;
  }
  op-AreValid (complete p i v) tables small valid = record {
    pending = valid.pending;
    completed =
        (insert_lem seed tables.packets_completed (key_bytes p i) v small.completed
          valid.completed).0;
    sending = valid.sending;
  }
  op-AreValid (clean_up p i) tables small valid = record {
    pending = valid.pending;
    completed = (remove_lem seed tables.packets_completed (key_bytes p i) valid.completed).0;
    sending = valid.sending;
  }
  op-AreValid (begin_sending i v) tables small valid = record {
    pending = valid.pending;
    completed = valid.completed;
    sending =
        (insert_lem seed tables.packets_sending (little_endian 2 i) v small.sending
          valid.sending).0;
  }
  op-AreValid (end_sending i) tables small valid = record {
    pending = valid.pending;
    completed = valid.completed;
    sending = (remove_lem seed tables.packets_sending (little_endian 2 i) valid.sending).0;
  }

  module _ (port id : ℕ) (hp : port < 2 ^ 16) (hi : id < 2 ^ 16) where
    op-Shows :
        (op : Op) (tables : Tables) (e : Entry)
        → HasKey op
        → AreSmall tables
        → AreValid tables
        → Shows port id tables e
        → Shows port id (apply_op op tables) (op_entry port id op e)
    unfolding insert_pending_message remove_pending_message packet_completed remove_packet_completed
        insert_packet_sending remove_packet_sending
    op-Shows (begin_pending p i v) tables e key small valid h = record {
      pending =
          (insert_lem seed tables.pending_messages (key_bytes p i) v small.pending valid.pending).1
            (key_bytes port id)
          ∙ ap₂ (λ l (b : Bool). l ++ (if b then v ∷ [] else [])) h.pending
              (same_key-key_bytes port id p i hp hi key.0 key.1);
      completed = h.completed;
      sending = h.sending;
    }
    op-Shows (end_pending p i) tables e key small valid h = record {
      pending =
          (remove_lem seed tables.pending_messages (key_bytes p i) valid.pending).1
            (key_bytes port id)
          ∙ ap₂ (λ l (b : Bool). if b then tail l else l) h.pending
              (same_key-key_bytes port id p i hp hi key.0 key.1);
      completed = h.completed;
      sending = h.sending;
    }
    op-Shows (complete p i v) tables e key small valid h = record {
      pending = h.pending;
      completed =
          (insert_lem seed tables.packets_completed (key_bytes p i) v small.completed
              valid.completed).1
            (key_bytes port id)
          ∙ ap₂ (λ l (b : Bool). l ++ (if b then v ∷ [] else [])) h.completed
              (same_key-key_bytes port id p i hp hi key.0 key.1);
      sending = h.sending;
    }
    op-Shows (clean_up p i) tables e key small valid h = record {
      pending = h.pending;
      completed =
          (remove_lem seed tables.packets_completed (key_bytes p i) valid.completed).1
            (key_bytes port id)
          ∙ ap₂ (λ l (b : Bool). if b then tail l else l) h.completed
              (same_key-key_bytes port id p i hp hi key.0 key.1);
      sending = h.sending;
    }
    op-Shows (begin_sending i v) tables e key small valid h = record {
      pending = h.pending;
      completed = h.completed;
      sending =
          (insert_lem seed tables.packets_sending (little_endian 2 i) v small.sending
              valid.sending).1
            (little_endian 2 id)
          ∙ ap₂ (λ l (b : Bool). l ++ (if b then v ∷ [] else [])) h.sending
              (same_key-little_endian id i hi key);
    }
    op-Shows (end_sending i) tables e key small valid h = record {
      pending = h.pending;
      completed = h.completed;
      sending =
          (remove_lem seed tables.packets_sending (little_endian 2 i) valid.sending).1
            (little_endian 2 id)
          ∙ ap₂ (λ l (b : Bool). if b then tail l else l) h.sending
              (same_key-little_endian id i hi key);
    }

  Reach-AreValid : {ops : List Op} {tables : Tables} → Reach ops tables → AreValid tables
  Reach-AreValid (start memory_usage some_memory) =
      let fresh = (create_lem {V = ℕ} seed memory_usage some_memory).0 in
      record { pending = fresh; completed = fresh; sending = fresh }
  Reach-AreValid (later {tables = before} op r key small) =
      op-AreValid op before small (Reach-AreValid r)

  Reach-Shows :
      {ops : List Op} {tables : Tables} (port id : ℕ)
      → port < 2 ^ 16
      → id < 2 ^ 16
      → Reach ops tables
      → Shows port id tables (entry_of port id ops)
  Reach-Shows port id hp hi (start memory_usage some_memory) =
      let fresh = (create_lem {V = ℕ} seed memory_usage some_memory).1 in
      record {
        pending = fresh (key_bytes port id);
        completed = fresh (key_bytes port id);
        sending = fresh (little_endian 2 id);
      }
  Reach-Shows port id hp hi (later {ops} {tables = before} op r key small) =
      op-Shows port id hp hi op before (entry_of port id ops) key small (Reach-AreValid r)
        (Reach-Shows port id hp hi r)

  -- Whatever sequence of insertions and removals is done to the tables of a connection under whatever
  -- keys, those of the service that cleans up completed messages among them, a lookup gives the oldest
  -- entry that the ones under the same port and id have left there, and none where they have left none;
  -- those under other keys do not matter. For ports and ids below 2^16, and tables that can
  -- still grow, of capacity below 2^30.
  pub reached-get_pending_message :
      (ops : List Op) (tables : Tables) (packet_id source_port : ℕ)
      → Reach ops tables
      → source_port < 2 ^ 16
      → packet_id < 2 ^ 16
      → (get_pending_message seed packet_id source_port tables
          ≡ head? (entry_of source_port packet_id ops).pending)
        × (check_packet_already_completed seed packet_id source_port tables
            ≡ is_some (head? (entry_of source_port packet_id ops).completed))
        × (get_packet_sending seed packet_id tables
            ≡ head? (entry_of source_port packet_id ops).sending)
  unfolding get_pending_message check_packet_already_completed get_packet_sending
  reached-get_pending_message ops tables packet_id source_port r hp hi =
      let valid = Reach-AreValid r in
      let shows = Reach-Shows source_port packet_id hp hi r in
      (
        get-view seed tables.pending_messages (key_bytes source_port packet_id) valid.pending
            ∙ ap head? shows.pending,
        ap is_some (
            get-view seed tables.packets_completed (key_bytes source_port packet_id) valid.completed
            ∙ ap head? shows.completed),
        get-view seed tables.packets_sending (little_endian 2 packet_id) valid.sending
            ∙ ap head? shows.sending,
      )
