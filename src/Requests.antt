-- ===== src/Requests.antt =====
-- Requests that wait for a response: src/make_request.c, and what `handle_request_response` of
-- src/process_packets.c does to the table `requests_sent`.
--
-- The table is what it holds under one packet id, oldest first, as Hashmap shows; a request is named
-- by a number in place of its address. `none` is an access to a request that has been freed.
pub mod Deadline
pub mod Table
mod Tests
use swift_net.Base.{
  ℕ, ◌+◌, ◌*◌, ◌/◌, ◌%◌, ◌^◌, Bool, true, false, Option, none, some, List, [], ◌∷◌, ◌++◌, ltb, ◌==◌,
  if◌then◌else◌,
}

-- A reading of the clock in milliseconds, as `(uint32_t)(tv.tv_sec * 1000 + tv.tv_usec / 1000)`.
unfoldable pub milliseconds : ℕ → ℕ → ℕ
milliseconds tv_sec tv_usec = (tv_sec * 1000 + tv_usec / 1000) % 2 ^ 32

-- `start + timeout_ms < end`
unfoldable pub expired : ℕ → ℕ → ℕ → Bool
expired start timeout_ms end = ltb ((start + timeout_ms) % 2 ^ 32) end

-- How a request ends.
pub data Outcome : Type 0 where
  timed_out : Outcome
  answered : List ℕ → Outcome

-- The loop from `check_response` on, for the readings of the clock and of `packet_data` that it makes;
-- `none` while it still waits.
unfoldable pub wait_response : ℕ → ℕ → List (ℕ × Option (List ℕ)) → Option Outcome
wait_response start timeout_ms [] = none
wait_response start timeout_ms ((end, packet_data) ∷ readings) =
    let rest = wait_response start timeout_ms readings in
    if expired start timeout_ms end
    then some timed_out
    else elim packet_data [ some response ↦ some (answered response) | none ↦ rest ]

-- What `requests_sent` holds under one packet id, what each request has been given, and which have
-- been freed.
pub record Requests : Type 0 where
  pub listed : List ℕ
  pub packet_data : ℕ → Option (List ℕ)
  pub freed : ℕ → Bool

-- `construct_request_sent`, and the insertion by `swiftnet_send_packet`.
unfoldable pub send_request : ℕ → Requests → Requests
send_request request requests = record {
  listed = requests.listed ++ (request ∷ []);
  packet_data = λ r. if r == request then none else requests.packet_data r;
  freed = λ r. if r == request then false else requests.freed r;
}

-- `hashmap_remove`, which takes the oldest.
abbrev pub without_oldest : List ℕ → List ℕ
without_oldest [] = []
without_oldest (_ ∷ rest) = rest

-- `delete_request_sent`
unfoldable pub delete_request_sent : ℕ → Requests → Requests
delete_request_sent request requests = record requests {
  listed = without_oldest requests.listed;
  freed = λ r. if r == request then true else requests.freed r;
}

-- `handle_request_response`
unfoldable pub handle_request_response : List ℕ → Requests → Option Requests
handle_request_response response requests = elim requests.listed [
  | [] ↦ some requests
  | request ∷ rest ↦ elim (requests.freed request) [
    | true ↦ none
    | false ↦ some (record requests {
      listed = rest;
      packet_data = λ r. if r == request then some response else requests.packet_data r;
    })
  ]
]

-- One look of `check_response`, at a request that has not been freed.
unfoldable pub check_response : ℕ → ℕ → ℕ → ℕ → Requests → Option Outcome × Requests
unfolding expired delete_request_sent
check_response start timeout_ms end request requests =
    if expired start timeout_ms end
    then (some timed_out, delete_request_sent request requests)
    else elim (requests.packet_data request) [
      | none ↦ (none, requests)
      | some response ↦ (
        some (answered response),
        record requests { freed = λ r. if r == request then true else requests.freed r },
      )
    ]
