-- ===== src/Broker/Rpc.antt =====
-- `handle_request` of broker/rpc.py. Reading a line as JSON is a parameter, and so is the table of
-- methods; a response is a value here, which the source writes as one line of JSON.
use ifs_hil.Prelude.{ℕ, zero, suc, Bool, true, false, [], ◌∷◌, Option, none, some, if◌then◌else◌}
use ifs_hil.Prelude.Text.{Text, lit, same}

mutual
  pub data Json : Type 0 where
    null : Json
    boolean : Bool → Json
    number : ℕ → Json
    text : Text → Json
    array : Items → Json
    object : Fields → Json

  pub data Items : Type 0 where
    no_items : Items
    item : Json → Items → Items

  pub data Fields : Type 0 where
    no_fields : Fields
    field_of : Text → Json → Fields → Fields

-- What a method does: it returns a value, or raises. `rpc_error` carries its own code and message.
pub data Called : Type 0 where
  returned : Json → Called
  rpc_error : (code message : Text) → Called
  type_raised other_raised : (message : Text) → Called

pub data Response : Type 0 where
  result_line : (id result : Json) → Response
  error_line : (id : Json) (code : Text) (message : Text) → Response

-- `req.get(key)`, which gives None for a missing key.
abbrev pub get : Text → Fields → Json
get key no_fields = null
get key (field_of k v rest) = if same k key then v else get key rest

-- `params or {}`: what Python counts as false gives the empty object.
abbrev pub or_empty : Json → Json
or_empty null = object no_fields
or_empty (boolean false) = object no_fields
or_empty (boolean true) = boolean true
or_empty (number zero) = object no_fields
or_empty (number (suc n)) = number (suc n)
or_empty (text []) = object no_fields
or_empty (text (c ∷ s)) = text (c ∷ s)
or_empty (array no_items) = object no_fields
or_empty (array (item x xs)) = array (item x xs)
or_empty (object fields) = object fields

-- After the call: a value is not reported to a request without an identifier, an exception is.
abbrev pub answer : Json → Called → Option Response
answer null (returned v) = none
answer (boolean b) (returned v) = some (result_line (boolean b) v)
answer (number n) (returned v) = some (result_line (number n) v)
answer (text t) (returned v) = some (result_line (text t) v)
answer (array xs) (returned v) = some (result_line (array xs) v)
answer (object fs) (returned v) = some (result_line (object fs) v)
answer id (rpc_error code message) = some (error_line id code message)
answer id (type_raised message) = some (error_line id (lit "invalid_params") message)
answer id (other_raised message) = some (error_line id (lit "internal_error") message)

module _ (loads : Text → Option Json) (methods : Text → Option (Fields → Called)) where
  abbrev pub call_method : Json → Option (Fields → Called) → Fields → Option Response
  call_method id none params = some (error_line id (lit "method_not_found") [])
  call_method id (some fn) params = answer id (fn params)

  abbrev pub with_params : Json → Text → Json → Option Response
  with_params id method (object params) = call_method id (methods method) params
  with_params id method null = some (error_line id (lit "invalid_request") [])
  with_params id method (boolean b) = some (error_line id (lit "invalid_request") [])
  with_params id method (number n) = some (error_line id (lit "invalid_request") [])
  with_params id method (text t) = some (error_line id (lit "invalid_request") [])
  with_params id method (array xs) = some (error_line id (lit "invalid_request") [])

  abbrev pub with_method : Json → Json → Json → Option Response
  with_method id (text method) params = with_params id method params
  with_method id null params = some (error_line id (lit "invalid_request") [])
  with_method id (boolean b) params = some (error_line id (lit "invalid_request") [])
  with_method id (number n) params = some (error_line id (lit "invalid_request") [])
  with_method id (array xs) params = some (error_line id (lit "invalid_request") [])
  with_method id (object fs) params = some (error_line id (lit "invalid_request") [])

  abbrev pub with_request : Option Json → Option Response
  with_request none = some (error_line null (lit "parse_error") [])
  with_request (some (object fs)) =
      with_method (get (lit "id") fs) (get (lit "method") fs) (or_empty (get (lit "params") fs))
  with_request (some null) = some (error_line null (lit "invalid_request") [])
  with_request (some (boolean b)) = some (error_line null (lit "invalid_request") [])
  with_request (some (number n)) = some (error_line null (lit "invalid_request") [])
  with_request (some (text t)) = some (error_line null (lit "invalid_request") [])
  with_request (some (array xs)) = some (error_line null (lit "invalid_request") [])

  -- The messages of the handler's own errors are left empty.
  unfoldable pub handle_request : Text → Option Response
  handle_request line = with_request (loads line)
