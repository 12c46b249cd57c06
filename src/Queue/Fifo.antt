-- ===== src/Queue/Fifo.antt =====
-- Both queues are first in, first out.
use mathlib.Core.List.{tail}
use mathlib.Core.Option
use swift_net.Base.{
  ◌≡◌, ◌≢◌, refl, sym, ◌∙◌, inl, inr, Option-cases, Option, none, some, List, [], ◌∷◌, ◌++◌, arith,
}
use swift_net.Queue.{
  Ptr, null, Node, Queue, Memory, write, empty, link_last, insert_queue_node, construct_node,
  wait_for_next_packet,
}
use swift_net.Queue.Links.{
  Absent, Links, Holds, Links-write, Links-append, Links-last, last_node_lem,
}

module _ {P : Type 0} where
  insert_behind :
      (memory : Memory P) (queue : Queue) (p : Ptr) (node : Node P)
      → p ≢ null
      → queue.last_node ≢ null
      → queue.first_node ≢ null
      → memory queue.last_node ≡ some node
      → insert_queue_node p queue memory
        ≡ some (
          record { first_node = queue.first_node; last_node = p },
          write memory queue.last_node (record node { next = p }),
        )
  unfolding insert_queue_node
  insert_behind memory queue p node pos last first found = ground arith

  first_node_lem :
      (memory : Memory P) (last : Ptr) (x : Ptr × P) (xs : List (Ptr × P))
      → Links memory last x xs
      → x.0 ≢ null
  first_node_lem memory last x [] h = h.0
  first_node_lem memory last x (y ∷ ys) h = h.0

  -- Inserting a freshly written node never faults, and puts it behind all the others.
  pub insert-construct :
      (memory : Memory P) (queue : Queue) (xs : List (Ptr × P)) (p : Ptr) (payload : P)
      → p ≢ null
      → Absent p xs
      → Holds memory queue xs
      → (q' : Queue) × (memory' : Memory P) × (insert_queue_node p queue
            (construct_node p payload memory)
          ≡ some (q', memory'))
        × Holds memory' q' (xs ++ ((p, payload) ∷ []))
  unfolding insert_queue_node construct_node
  insert-construct memory queue [] p payload pos away h = (
    record { first_node = p; last_node = p },
    write memory p (record { payload = payload; next = null }),
    ground arith,
    (refl, (pos, refl, ground arith)),
  )
  insert-construct memory queue (x ∷ xs) p payload pos away h =
      let written : Memory P = write memory p (record { payload = payload; next = null }) in
      let links =
        Links-write memory queue.last_node p (record { payload = payload; next = null }) x xs away
          h.1 in
      let (some_last, node, found) = last_node_lem written queue.last_node x xs links in
      (
        record { first_node = queue.first_node; last_node = p },
        write written queue.last_node (record node { next = p }),
        insert_behind written queue p node pos some_last
            (λ e. first_node_lem memory queue.last_node x xs h.1 (sym h.0 ∙ e)) found,
        (
          h.0,
          Links-append written queue.last_node p payload node x xs pos (ground arith) found away
              links,
        ),
      )

  Holds-last :
      (memory : Memory P) (queue : Queue) (r : Ptr) (xs : List (Ptr × P))
      → r ≢ null
      → Absent r xs
      → Holds memory queue xs
      → r ≢ queue.last_node
  Holds-last memory queue r [] pos away h = λ e. pos (e ∙ h.1)
  Holds-last memory queue r (x ∷ xs) pos away h = Links-last memory queue.last_node r x xs away h.1

  link_last_elsewhere :
      (memory memory' : Memory P) (queue : Queue) (p r : Ptr)
      → r ≢ queue.last_node
      → link_last p queue memory ≡ some memory'
      → memory' r ≡ memory r
  unfolding link_last
  link_last_elsewhere memory memory' queue p r n e = ground arith

  -- An insertion leaves a node alone that is not in the queue.
  pub insert_elsewhere :
      (memory memory' : Memory P) (queue queue' : Queue) (p r : Ptr) (payload : P)
      (xs : List (Ptr × P))
      → r ≢ null
      → Absent r xs
      → r ≢ p
      → Holds memory queue xs
      → insert_queue_node p queue (construct_node p payload memory) ≡ some (queue', memory')
      → memory' r ≡ memory r
  unfolding insert_queue_node construct_node
  insert_elsewhere memory memory' queue queue' p r payload xs pos away other h e =
      let n : r ≢ queue.last_node = Holds-last memory queue r xs pos away h in
      elim (Option-cases (link_last p queue (construct_node p payload memory))) [
        | inl fault ↦ ground arith
        | inr (linked, done) ↦
            let kept : linked r ≡ construct_node p payload memory r =
              link_last_elsewhere (construct_node p payload memory) linked queue p r n done in
            ground arith
      ]

  -- Waiting for a packet never faults: it gives the oldest node, which leaves the queue, and
  -- nothing where the queue is empty.
  pub wait_empty :
      (memory : Memory P) (queue : Queue)
      → Holds memory queue []
      → wait_for_next_packet queue memory ≡ some (null, queue)
  unfolding wait_for_next_packet
  wait_empty memory queue h = ground arith

  pub wait_first :
      (memory : Memory P) (queue : Queue) (x : Ptr × P) (xs : List (Ptr × P))
      → Holds memory queue (x ∷ xs)
      → (q' : Queue) × (wait_for_next_packet queue memory ≡ some (x.0, q')) × Holds memory q' xs
  unfolding wait_for_next_packet
  wait_first memory queue x [] h = (empty, ground arith, (refl, refl))
  wait_first memory queue x (y ∷ []) h =
      (record queue { first_node = y.0 }, ground arith, (refl, h.1.3))
  wait_first memory queue x (y ∷ z ∷ zs) h =
      (record queue { first_node = y.0 }, ground arith, (refl, h.1.3))

-- What the threads that share a queue do under its lock: a producer inserts a new node, the
-- consumer waits for a packet.
pub data Op (P : Type 0) : Type 0 where
  insert : Ptr → P → Op P
  wait : Op P

module _ {P : Type 0} where
  -- The nodes that the consumer is given, in order; `none` is a fault.
  pub run : List (Op P) → Queue → Memory P → Option (List Ptr)
  run [] queue memory = some []
  run (insert p payload ∷ ops) queue memory =
      elim (insert_queue_node p queue (construct_node p payload memory)) [
        | none ↦ none
        | some (queue', memory') ↦ run ops queue' memory'
      ]
  run (wait ∷ ops) queue memory = elim (wait_for_next_packet queue memory) [
    | none ↦ none
    | some (p, queue') ↦ Option.map (λ ps. p ∷ ps) (run ops queue' memory)
  ]

  -- The same of a list.
  unfoldable pub serve : List (Op P) → List (Ptr × P) → List Ptr
  serve [] xs = []
  serve (insert p payload ∷ ops) xs = serve ops (xs ++ ((p, payload) ∷ []))
  serve (wait ∷ ops) [] = null ∷ serve ops []
  serve (wait ∷ ops) (x ∷ xs) = x.0 ∷ serve ops xs

  -- The allocator gives a node that is not in the queue.
  abbrev pub IsFresh : List (Op P) → List (Ptr × P) → Type 0
  IsFresh [] xs = Unit
  IsFresh (insert p payload ∷ ops) xs =
      (p ≢ null) × Absent p xs × IsFresh ops (xs ++ ((p, payload) ∷ []))
  IsFresh (wait ∷ ops) xs = IsFresh ops (tail xs)

  -- No interleaving of producers and consumer faults, and the consumer is given the nodes in the
  -- order of their insertion, a null pointer whenever the queue is empty.
  pub run_refines :
      (ops : List (Op P)) (xs : List (Ptr × P)) (queue : Queue) (memory : Memory P)
      → IsFresh ops xs
      → Holds memory queue xs
      → run ops queue memory ≡ some (serve ops xs)
  unfolding run serve
  run_refines [] xs queue memory fresh h = refl
  run_refines (insert p payload ∷ ops) xs queue memory fresh h =
      let (queue', memory', done, h') =
        insert-construct memory queue xs p payload fresh.0 fresh.1 h in
      rw (done, run) (run_refines ops (xs ++ ((p, payload) ∷ [])) queue' memory' fresh.2 h')
  run_refines (wait ∷ ops) [] queue memory fresh h =
      rw (wait_empty memory queue h, run, run_refines ops [] queue memory fresh h)
  run_refines (wait ∷ ops) (x ∷ xs) queue memory fresh h =
      let (queue', done, h') = wait_first memory queue x xs h in
      rw (done, run, run_refines ops xs queue' memory fresh h')
