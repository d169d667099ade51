-- ===== src/Broker/Client.antt =====
-- The two ends of a connection to the broker: `_Handler.handle` and `BrokerClient` of broker/server.py.
-- Writing and reading JSON are parameters; the socket gives the other end the lines in order.
use ifs_hil.Prelude.{
  ℕ, suc, Bool, true, false, List, [], ◌∷◌, Option, none, some, if◌then◌else◌, String,
}
use ifs_hil.Prelude.Text.{Text, lit, same, strip, is_empty}
use ifs_hil.Broker.Rpc.{
  Json, null, boolean, number, text, array, object, Items, Fields, no_fields, field_of, Called,
  Response, result_line, error_line, get, handle_request,
}
pub mod Calls

-- The object that a response is written as.
abbrev pub rendered : Response → Json
rendered (result_line id result) =
    object (field_of (lit "id") id (field_of (lit "result") result no_fields))
rendered (error_line id code message) = object (
    field_of (lit "id") id (
      field_of (lit "error")
        (object
          (field_of (lit "code") (text code) (field_of (lit "message") (text message) no_fields)))
        no_fields))

-- How a call ends for the caller: a value, the RuntimeError with a code and a message, or an exception of
-- the connection or of what was read.
pub data Outcome : Type 0 where
  value : Json → Outcome
  raised : (code message : Json) → Outcome
  lost : Outcome

-- {"id": ..., "method": ..., "params": ...}
abbrev pub request : ℕ → Text → Fields → Json
request id method params = object (
    field_of (lit "id") (number id)
      (field_of (lit "method") (text method) (field_of (lit "params") (object params) no_fields)))

abbrev has_key : Fields → Text → Bool
has_key no_fields key = false
has_key (field_of k v rest) key = if same k key then true else has_key rest key

-- err.get(...), of an object.
abbrev get_of : Text → Json → Option Json
get_of key (object fs) = some (get key fs)
get_of key null = none
get_of key (boolean b) = none
get_of key (number n) = none
get_of key (text t) = none
get_of key (array xs) = none

abbrev failure : Option Json → Option Json → Outcome
failure (some code) (some message) = raised code message
failure (some code) none = lost
failure none message = lost

-- What the client makes of the answer; anything but an object is not one that the broker sends.
unfoldable pub read_response : Option Json → Outcome
unfolding same
read_response (some (object fs)) =
    if has_key fs (lit "error")
    then failure (get_of (lit "code") (get (lit "error") fs))
        (get_of (lit "message") (get (lit "error") fs))
    else value (get (lit "result") fs)
read_response (some null) = lost
read_response (some (boolean b)) = lost
read_response (some (number n)) = lost
read_response (some (text t)) = lost
read_response (some (array xs)) = lost
read_response none = lost

-- One line that is read: an empty one is passed over.
abbrev pub reply_to :
    (Text → Option Json) → (Text → Option (Fields → Called)) → Text → Option Response
reply_to loads methods raw =
    let line = strip raw in if is_empty line then none else handle_request loads methods line

-- The first line that comes back, if there is one.
abbrev first_line : (Text → Option Json) → List Text → Outcome
first_line loads [] = lost
first_line loads (l ∷ ls) = read_response (loads l)

module _ (dumps : Json → Text) (loads : Text → Option Json) where
  -- The lines that a connection answers; with each line stands whether a write then goes through. A
  -- broken pipe ends it.
  unfoldable pub handle : (Text → Option (Fields → Called)) → List (Text × Bool) → List Text
  unfolding strip handle_request
  handle methods [] = []
  handle methods ((raw, writes) ∷ rest) = elim (reply_to loads methods raw) [
    | none ↦ handle methods rest
    | some r ↦ elim writes [ true ↦ dumps (rendered r) ∷ handle methods rest | false ↦ [] ]
  ]

  -- `call`, on a connection that gives back these lines for a line; and the identifier used next.
  unfoldable pub call : (Text → List Text) → Text → Fields → ℕ → Outcome × ℕ
  unfolding read_response
  call connection method params next_id =
      (first_line loads (connection (dumps (request (suc next_id) method params))), suc next_id)
