-- ===== src/Tests/Requests.antt =====
-- Requests to the broker, broker/, at concrete values.
use ifs_hil.Prelude.{ℕ, refl, true, false, List, [], ◌∷◌, Option, some, if◌then◌else◌}
use ifs_hil.Prelude.Text.{Text, lit, same}
use ifs_hil.Broker.Rpc.{
  Json, number, text, object, Fields, no_fields, field_of, Called, returned, get, handle_request,
}
use ifs_hil.Broker.Client.{request, rendered}
use ifs_hil.Broker.Client.Calls.{response_to}
use ifs_hil.Broker.Methods.{Backend}
use ifs_hil.Broker.Stubs.{can_get_mode, params_of}
use ifs_hil.Broker.Replies.{Echoes, handle_request-Echoes}
use ifs_hil.Broker.Fake.{Fake, two}
use ifs_hil.Broker.Expander.{Chip}
use ifs_hil.Broker.Press.{TcaPin}

abbrev fields : Fields
fields =
    field_of (lit "id") (number 7) (field_of (lit "method") (text (lit "psu.status")) no_fields)

abbrev loads : Text → Option Json
loads line = some (object fields)

abbrev methods : Text → Option (Fields → Called)
methods name = some (λ params. returned (number 1))

handle_request-Echoes_example :
    Echoes (get (lit "id") fields) (handle_request loads methods (lit "line"))
handle_request-Echoes_example = handle_request-Echoes loads methods (lit "line") fields refl

abbrev fake : Fake ℕ
fake = record {
  op_count = 0;
  adc = [];
  dac = [];
  can = [];
  tca = record { addr = 0x20; outputs = two 0 0; directions = two 0xFF 0xFF } ∷ [];
  psu_on = false;
  pwr_ok = false;
}

abbrev registers : List ℕ
registers = 0 ∷ 0 ∷ 0x05 ∷ 0 ∷ 0 ∷ 0 ∷ 0xFF ∷ 0xFF ∷ []

abbrev dash_chg : TcaPin
dash_chg = record { port = 0; pin = 1 }

abbrev chip : Chip
chip = record { acks = true; regs = registers }

-- A line that shows the second key of an object.
abbrev second_key : Json → Text
second_key (object (field_of k v (field_of l w rest))) = l
second_key j = []

abbrev backend : Backend
backend name params = returned (number 0x80)

abbrev asked : Json
asked = request 5 (lit "can.get_mode") (params_of (can_get_mode 2))

abbrev answered : Json
answered = rendered (response_to 5 (some (returned (number 0x80))))

abbrev read_back : Text → Option Json
read_back line = if same line (lit "method") then some asked else some answered
