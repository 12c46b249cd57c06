-- ===== src/Requests/Table.antt =====
-- The table of requests, as responses and time-outs come in.
use swift_net.Base.{
  ℕ, ◌≡◌, refl, sym, ◌∙◌, true, false, none, some, List, [], ◌∷◌, inl, inr, Bool-cases,
  Option-cases, ==_refl, subst_some, some_of_none, if◌then◌else◌, ◌==◌,
}
use swift_net.Requests.{
  Requests, expired, send_request, delete_request_sent, handle_request_response, check_response,
  without_oldest,
}

-- Where two requests have the same packet id, and the second one times out, the next response under
-- that id is written into the second one, which has been freed by then.
pub handle_request_response-delete :
    (first second : ℕ) (rest response : List ℕ) (requests : Requests)
    → requests.listed ≡ first ∷ second ∷ rest
    → handle_request_response response (delete_request_sent second requests) ≡ none
unfolding handle_request_response delete_request_sent
handle_request_response-delete first second rest response requests both =
    rw (handle_request_response, both, ==_refl second) refl

-- No request is under way.
abbrev pub no_requests : Requests
no_requests = record { listed = []; packet_data = λ r. none; freed = λ r. true }

module _ (request : ℕ) where
  -- A request that is alone under its packet id: responses that come in, and looks of its sender
  -- until it is freed.
  pub data Reach : Requests → Type 0 where
    sent : Reach (send_request request no_requests)
    responded :
        {requests requests' : Requests} (response : List ℕ)
        → Reach requests
        → handle_request_response response requests ≡ some requests'
        → Reach requests'
    looked :
        {requests : Requests} (start timeout_ms end : ℕ)
        → Reach requests
        → requests.freed request ≡ false
        → Reach (check_response start timeout_ms end request requests).1

  data IsSound (requests : Requests) : Type 0 where
    under_way :
        requests.listed ≡ request ∷ []
        → requests.freed request ≡ false
        → requests.packet_data request ≡ none
        → IsSound requests
    over : requests.listed ≡ [] → IsSound requests

  respond-IsSound :
      (response : List ℕ) (requests : Requests)
      → IsSound requests
      → (requests' : Requests) × (handle_request_response response requests ≡ some requests')
        × (requests'.listed ≡ [])
  unfolding handle_request_response
  respond-IsSound response requests (under_way listed live waiting) = (
    record requests {
      listed = [];
      packet_data = λ r. if r == request then some response else requests.packet_data r;
    },
    rw (handle_request_response, listed, live) refl,
    refl,
  )
  respond-IsSound response requests (over listed) =
      (requests, simp (handle_request_response, listed) refl, listed)

  look-IsSound :
      (start timeout_ms end : ℕ) (requests : Requests)
      → IsSound requests
      → IsSound (check_response start timeout_ms end request requests).1
  unfolding check_response delete_request_sent
  look-IsSound start timeout_ms end requests sound =
      elim (Bool-cases (expired start timeout_ms end)) [
        | inl late ↦ rw (check_response, late) (over (emptied sound))
        | inr early ↦ elim (Option-cases (requests.packet_data request)) [
          | inl waiting ↦ simp (check_response, early, waiting) sound
          | inr (response, given) ↦
              simp (check_response, early, given) (over (answered-listed response given sound))
        ]
      ]
    where
      emptied : IsSound requests → without_oldest requests.listed ≡ []
      emptied (under_way listed live waiting) = rw listed refl
      emptied (over listed) = rw listed refl

      answered-listed :
          (response : List ℕ)
          → requests.packet_data request ≡ some response
          → IsSound requests
          → requests.listed ≡ []
      answered-listed response given (under_way listed live waiting) =
          absurd (some_of_none response (sym waiting ∙ given))
      answered-listed response given (over listed) = listed

  reached-IsSound : (requests : Requests) → Reach requests → IsSound requests
  unfolding send_request
  reached-IsSound _ sent = under_way refl (rw (==_refl request) refl) (rw (==_refl request) refl)
  reached-IsSound _ (responded {requests} {requests'} response reached handled) =
      let next = respond-IsSound response requests (reached-IsSound requests reached) in
      over (subst_some (λ r. r.listed ≡ []) next.0 requests' (sym next.1 ∙ handled) next.2)
  reached-IsSound _ (looked {requests} start timeout_ms end reached live) =
      look-IsSound start timeout_ms end requests (reached-IsSound requests reached)

  -- Where a request is alone under its packet id, a response that comes in after any responses and any
  -- looks of its sender writes into no request that has been freed, and leaves no request in the table.
  pub reached-handle_request_response :
      (response : List ℕ) (requests : Requests)
      → Reach requests
      → (requests' : Requests) × (handle_request_response response requests ≡ some requests')
        × (requests'.listed ≡ [])
  reached-handle_request_response response requests reached =
      respond-IsSound response requests (reached-IsSound requests reached)
