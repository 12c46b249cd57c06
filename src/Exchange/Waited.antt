-- ===== src/Exchange/Waited.antt =====
-- The loop of a request that is answered.
use swift_net.Base.{
  ℕ, ◌≡◌, refl, ap, ◌∙◌, true, false, ◌==◌, none, some, List, [], ◌∷◌, ◌++◌, if◌then◌else◌, ==_refl,
}
use swift_net.Clients.Created.{quiet, AreInTime}
use swift_net.Requests.{Requests, expired, send_request, handle_request_response, check_response}
use swift_net.Requests.Outcome.{answered}
use swift_net.Transfer.{Sent}
use swift_net.Exchange.{handle_responses, await_response, requested}

-- The response is put into the one request under the packet id.
handle_request_response-sent :
    (request : ℕ) (response : List ℕ) (requests : Requests)
    → requests.listed ≡ []
    → (responded : Requests) × (handle_request_response response (send_request request requests)
        ≡ some responded)
      × (responded.packet_data request ≡ some response)
      × (responded.listed ≡ [])
unfolding handle_request_response send_request
handle_request_response-sent request response requests unlisted =
    let sent = send_request request requests in
    let listed : sent.listed ≡ request ∷ [] = ap (λ l. l ++ (request ∷ [])) unlisted in
    let live : sent.freed request ≡ false = rw (==_refl request) refl in
    (
      record sent {
        listed = [];
        packet_data = λ r. if r == request then some response else sent.packet_data r;
      },
      rw (handle_request_response, listed, live) refl,
      rw (==_refl request) refl,
      refl,
    )

-- A look that finds nothing, and one that finds a response.
check_response-none :
    (start timeout_ms end request : ℕ) (requests : Requests)
    → expired start timeout_ms end ≡ false
    → requests.packet_data request ≡ none
    → check_response start timeout_ms end request requests ≡ (none, requests)
unfolding check_response
check_response-none start timeout_ms end request requests early waiting =
    rw (check_response, early, waiting) refl

check_response-answered :
    (start timeout_ms end request : ℕ) (response : List ℕ) (requests : Requests)
    → expired start timeout_ms end ≡ false
    → requests.packet_data request ≡ some response
    → check_response start timeout_ms end request requests ≡ (
      some (answered response),
      record requests { freed = λ r. if r == request then true else requests.freed r },
    )
unfolding check_response
check_response-answered start timeout_ms end request response requests early given =
    rw (check_response, early, given) refl

module _ (start timeout_ms request : ℕ) (end : ℕ) (response : List ℕ)
    (rounds : List (ℕ × List (List ℕ))) where
  await_response-answered :
      (ends : List ℕ) (requests responded : Requests)
      → AreInTime start timeout_ms (ends ++ (end ∷ []))
      → requests.packet_data request ≡ none
      → handle_request_response response requests ≡ some responded
      → responded.packet_data request ≡ some response
      → await_response start timeout_ms request
          (quiet ends ++ ((end, response ∷ []) ∷ rounds))
          requests
        ≡ some (
          some (answered response),
          record responded { freed = λ r. if r == request then true else responded.freed r },
        )
  unfolding await_response handle_responses
  await_response-answered [] requests responded in_time waiting handled given =
      let found =
        check_response-answered start timeout_ms end request response responded in_time.0 given in
      rw (await_response, handled, found) (ap (λ p. some (some (answered response), p.1)) found)
  await_response-answered (now ∷ ends) requests responded in_time waiting handled given =
      let missed = check_response-none start timeout_ms now request requests in_time.0 waiting in
      let later = quiet ends ++ ((end, response ∷ []) ∷ rounds) in
      rw (await_response, missed)
        (ap (λ p. await_response start timeout_ms request later p.1) missed
          ∙ await_response-answered ends requests responded in_time.1 waiting handled given)

  pub requested-answered :
      (ends : List ℕ) (sent : Sent) (requests : Requests)
      → AreInTime start timeout_ms (ends ++ (end ∷ []))
      → requests.listed ≡ []
      → (after : Requests) × (requested
            (some sent)
            (record {
              request_sent = request;
              start = start;
              timeout_ms = timeout_ms;
              rounds = quiet ends ++ ((end, response ∷ []) ∷ rounds);
            })
            requests
          ≡ some (sent, some (answered response), after))
        × (after.listed ≡ [])
        × (after.freed request ≡ true)
  unfolding requested send_request
  requested-answered ends sent requests in_time unlisted =
      let (responded, handled, given, listed) =
        handle_request_response-sent request response requests unlisted in
      (
        record responded { freed = λ r. if r == request then true else responded.freed r },
        rw
            (
              requested,
              await_response-answered ends (send_request request requests) responded in_time
                  (rw (==_refl request) refl) handled given,
            )
            refl,
        listed,
        rw (==_refl request) refl,
      )
