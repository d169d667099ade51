-- ===== src/Broker/Replies.antt =====
-- Which requests `handle_request` of broker/rpc.py answers, and with which identifier.
use ifs_hil.Prelude.{◌≡◌, refl, Option, none, some}
use ifs_hil.Prelude.Text.{Text, lit}
use ifs_hil.Broker.Rpc.{
  Json, null, boolean, number, text, array, object, Fields, Called, returned, rpc_error,
  type_raised, other_raised, Response, result_line, error_line, get, or_empty, answer, call_method,
  with_params, with_method, handle_request,
}

abbrev pub response_id : Response → Json
response_id (result_line id v) = id
response_id (error_line id code message) = id

-- An answer, if there is one, carries this identifier; without an answer the identifier is null.
abbrev pub Echoes : Json → Option Response → Type 0
Echoes id none = id ≡ null
Echoes id (some r) = response_id r ≡ id

answer-Echoes : (id : Json) (c : Called) → Echoes id (answer id c)
answer-Echoes null (returned v) = refl
answer-Echoes (boolean b) (returned v) = refl
answer-Echoes (number n) (returned v) = refl
answer-Echoes (text t) (returned v) = refl
answer-Echoes (array xs) (returned v) = refl
answer-Echoes (object fs) (returned v) = refl
answer-Echoes id (rpc_error code message) = refl
answer-Echoes id (type_raised message) = refl
answer-Echoes id (other_raised message) = refl

module _ (loads : Text → Option Json) (methods : Text → Option (Fields → Called)) where
  call_method-Echoes :
      (id : Json) (fn : Option (Fields → Called)) (params : Fields)
      → Echoes id (call_method loads methods id fn params)
  call_method-Echoes id none params = refl
  call_method-Echoes id (some fn) params = answer-Echoes id (fn params)

  with_params-Echoes :
      (id : Json) (method : Text) (params : Json)
      → Echoes id (with_params loads methods id method params)
  with_params-Echoes id method (object params) = call_method-Echoes id (methods method) params
  with_params-Echoes id method null = refl
  with_params-Echoes id method (boolean b) = refl
  with_params-Echoes id method (number n) = refl
  with_params-Echoes id method (text t) = refl
  with_params-Echoes id method (array xs) = refl

  with_method-Echoes :
      (id method params : Json) → Echoes id (with_method loads methods id method params)
  with_method-Echoes id (text method) params = with_params-Echoes id method params
  with_method-Echoes id null params = refl
  with_method-Echoes id (boolean b) params = refl
  with_method-Echoes id (number n) params = refl
  with_method-Echoes id (array xs) params = refl
  with_method-Echoes id (object fs) params = refl

  -- For every method table: a request that is an object is answered with its own identifier, on
  -- success and on every error, and it goes unanswered only if its identifier is missing or null.
  pub handle_request-Echoes :
      (line : Text) (fs : Fields)
      → loads line ≡ some (object fs)
      → Echoes (get (lit "id") fs) (handle_request loads methods line)
  unfolding handle_request
  handle_request-Echoes line fs e = rw e (
      with_method-Echoes (get (lit "id") fs) (get (lit "method") fs)
        (or_empty (get (lit "params") fs)))
