-- ===== src/Broker/Client/Calls.antt =====
-- A call of `BrokerClient`, broker/server.py, answered by `handle_request` of broker/rpc.py.
use ifs_hil.Prelude.{ℕ, suc, ◌≡◌, refl, ap, true, false, [], ◌∷◌, Option, none, some}
use ifs_hil.Prelude.Text.{Text, lit, same, strip, is_empty}
use ifs_hil.Broker.Rpc.{
  Json, number, text, Fields, Called, returned, rpc_error, type_raised, other_raised, Response,
  result_line, error_line, handle_request, call_method, answer,
}
use ifs_hil.Broker.Client.{
  rendered, Outcome, value, raised, handle, request, read_response, call, reply_to,
}

-- The answer to a call, by the method that the table has for its name.
abbrev pub response_to : ℕ → Option Called → Response
response_to id none = error_line (number id) (lit "method_not_found") []
response_to id (some (returned v)) = result_line (number id) v
response_to id (some (rpc_error code message)) = error_line (number id) code message
response_to id (some (type_raised message)) = error_line (number id) (lit "invalid_params") message
response_to id (some (other_raised message)) = error_line (number id) (lit "internal_error") message

-- How the call ends for the caller.
abbrev pub outcome_of : Option Called → Outcome
outcome_of none = raised (text (lit "method_not_found")) (text [])
outcome_of (some (returned v)) = value v
outcome_of (some (rpc_error code message)) = raised (text code) (text message)
outcome_of (some (type_raised message)) = raised (text (lit "invalid_params")) (text message)
outcome_of (some (other_raised message)) = raised (text (lit "internal_error")) (text message)

abbrev pub called : Option (Fields → Called) → Fields → Option Called
called none params = none
called (some fn) params = some (fn params)

read_response-rendered :
    (id : ℕ) (o : Option Called) → read_response (some (rendered (response_to id o))) ≡ outcome_of o
unfolding read_response same
read_response-rendered id none = refl
read_response-rendered id (some (returned v)) = refl
read_response-rendered id (some (rpc_error code message)) = refl
read_response-rendered id (some (type_raised message)) = refl
read_response-rendered id (some (other_raised message)) = refl

answer-number : (id : ℕ) (c : Called) → answer (number id) c ≡ some (response_to id (some c))
answer-number id (returned v) = refl
answer-number id (rpc_error code message) = refl
answer-number id (type_raised message) = refl
answer-number id (other_raised message) = refl

call_method-answer :
    (loads : Text → Option Json) (methods : Text → Option (Fields → Called)) (id : ℕ)
    (fn : Option (Fields → Called)) (params : Fields)
    → call_method loads methods (number id) fn params ≡ some (response_to id (called fn params))
call_method-answer loads methods id none params = refl
call_method-answer loads methods id (some fn) params = answer-number id (fn params)

-- JSON writes the object on a line that is read back as that object.
pub record Carries (dumps : Json → Text) (loads : Text → Option Json) (j : Json) : Type 0 where
  pub reads : loads (dumps j) ≡ some j
  pub stripped : strip (dumps j) ≡ dumps j
  pub filled : is_empty (dumps j) ≡ false

module _ (dumps : Json → Text) (loads : Text → Option Json) where
  reply_to-request :
      (methods : Text → Option (Fields → Called)) (id : ℕ) (name : Text) (params : Fields)
      → Carries dumps loads (request id name params)
      → reply_to loads methods (dumps (request id name params))
        ≡ some (response_to id (called (methods name) params))
  unfolding handle_request same
  reply_to-request methods id name params c =
      rw (c.stripped, c.filled, c.reads) (call_method-answer loads methods id (methods name) params)

  handle-reply_to :
      (methods : Text → Option (Fields → Called)) (raw : Text) (r : Response)
      → reply_to loads methods raw ≡ some r
      → handle dumps loads methods ((raw, true) ∷ []) ≡ dumps (rendered r) ∷ []
  unfolding handle
  handle-reply_to methods raw r e = rw (e, handle) refl

  -- A call on an open connection ends for the caller as the method ended in the broker: with its value,
  -- or with a RuntimeError that carries the method's own code and message, or the code invalid_params,
  -- internal_error or method_not_found. This when JSON carries the request and the answer.
  pub call-handle :
      (methods : Text → Option (Fields → Called)) (name : Text) (params : Fields) (next_id : ℕ)
      → Carries dumps loads (request (suc next_id) name params)
      → loads (dumps (rendered (response_to (suc next_id) (called (methods name) params))))
        ≡ some (rendered (response_to (suc next_id) (called (methods name) params)))
      → call dumps loads (λ l. handle dumps loads methods ((l, true) ∷ [])) name params next_id
        ≡ (outcome_of (called (methods name) params), suc next_id)
  unfolding call
  call-handle methods name params next_id c back =
      rw (handle-reply_to methods _ _ (reply_to-request methods (suc next_id) name params c), back)
        (ap (λ o. (o, suc next_id))
          (read_response-rendered (suc next_id) (called (methods name) params)))
