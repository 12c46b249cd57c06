-- ===== src/Requests/Tests.antt =====
-- A request with a time limit, and the table of requests.
use swift_net.Base.{ℕ, ◌+◌, ◌%◌, ◌^◌, ◌≡◌, refl, none, some, [], ◌∷◌, arith}
use swift_net.Requests.{
  Requests, timed_out, milliseconds, wait_response, send_request, check_response,
  delete_request_sent, handle_request_response,
}
use swift_net.Requests.Deadline.{
  first_outcome, in_32_bits, wait_response-first_outcome, wait_response-wraps,
}
use swift_net.Requests.Table.{
  Reach, sent, looked, no_requests, reached-handle_request_response, handle_request_response-delete,
}

-- 2^32 milliseconds have passed once.
abbrev start : ℕ
start = 4294968296

start_lem : milliseconds 4294968 296789 ≡ start % 2 ^ 32
unfolding milliseconds
start_lem = refl

wait_response-first_outcome_example :
    wait_response
      (start % 2 ^ 32)
      500
      (in_32_bits ((start + 5, none) ∷ (start + 10, some (1 ∷ [])) ∷ []))
    ≡ first_outcome (start + 500) ((start + 5, none) ∷ (start + 10, some (1 ∷ [])) ∷ [])
wait_response-first_outcome_example =
    wait_response-first_outcome 1 start 500 ((start + 5, none) ∷ (start + 10, some (1 ∷ [])) ∷ [])
      (omega arith) (omega arith)
      (omega arith, omega arith, (omega arith, omega arith, omega arith))

wait_response-wraps_example :
    wait_response 4294967000 500 ((4294967000, some (1 ∷ [])) ∷ []) ≡ some timed_out
wait_response-wraps_example =
    wait_response-wraps 4294967000 500 4294967000 (some (1 ∷ [])) [] (omega arith) (omega arith)
      (omega arith) (omega arith)

abbrev waiting : Requests
waiting = (check_response 1000 500 1005 7 (send_request 7 no_requests)).1

waiting-Reach : Reach 7 waiting
unfolding send_request
waiting-Reach = looked 1000 500 1005 sent refl

reached-handle_request_response_example :
    (requests' : Requests) × (handle_request_response (1 ∷ []) waiting ≡ some requests')
    × (requests'.listed ≡ [])
reached-handle_request_response_example =
    reached-handle_request_response 7 (1 ∷ []) waiting waiting-Reach

abbrev two_requests : Requests
two_requests = send_request 8 (send_request 7 no_requests)

handle_request_response-delete_example :
    handle_request_response (1 ∷ []) (delete_request_sent 8 two_requests) ≡ none
unfolding send_request
handle_request_response-delete_example =
    handle_request_response-delete 7 8 [] (1 ∷ []) two_requests refl
