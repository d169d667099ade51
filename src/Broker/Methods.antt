-- ===== src/Broker/Methods.antt =====
-- The methods of the broker: `build_method_table` of broker/rpc.py, and the parameters that the methods
-- of broker/bus.py take. What a method does is a parameter.
use ifs_hil.Prelude.{
  Bool, true, false, ◌&&◌, ◌||◌, List, [], ◌∷◌, Option, none, some, if◌then◌else◌, String, all_of,
}
use ifs_hil.Prelude.Text.{Text, lit, same, among}
use ifs_hil.Broker.Rpc.{Fields, no_fields, field_of, Called, type_raised}

-- A method: its name in requests, the parameters that it must be given, and those with a default.
pub record Method : Type 0 where
  pub name : Text
  pub required : List Text
  pub optional : List Text

abbrev texts : List String → List Text
texts [] = []
texts (s ∷ ss) = lit s ∷ texts ss

abbrev method : String → List String → Method
method n params = record { name = lit n; required = texts params; optional = [] }

abbrev of_idx : List String
of_idx = "idx" ∷ []

abbrev of_addr : List String
of_addr = "addr" ∷ []

abbrev of_channel : List String
of_channel = "idx" ∷ "channel" ∷ []

abbrev converter_methods : List Method → List Method
converter_methods rest =
    method "adc.read" of_channel
    ∷ method "adc.read_all" of_idx
    ∷ method "adc.read_voltage" of_channel
    ∷ method "dac.set_voltage" ("idx" ∷ "channel" ∷ "volts" ∷ [])
    ∷ method "dac.get_voltage" of_channel
    ∷ method "dac.read_device_id" of_idx
    ∷ method "dac.reset" of_idx
    ∷ method "dac.zero_all" of_idx
    ∷ rest

abbrev can_methods : List Method → List Method
can_methods rest =
    method "can.set_mode" ("idx" ∷ "mode" ∷ [])
    ∷ method "can.get_mode" of_idx
    ∷ method "can.read_error_counters" of_idx
    ∷ method "can.status" of_idx
    ∷ method "can.reset" of_idx
    ∷ method "can.init" ("idx" ∷ "bitrate" ∷ [])
    ∷ method "can.loopback_test" ("idx" ∷ "can_id" ∷ "data_b64" ∷ [])
    ∷ method "can.int_level" of_idx
    ∷ rest

abbrev ina_methods : List Method → List Method
ina_methods rest =
    method "ina.read" of_addr
    ∷ method "ina.is_present" of_addr
    ∷ method "ina.bus_voltage" of_addr
    ∷ method "ina.shunt_voltage" of_addr
    ∷ method "ina.current" of_addr
    ∷ method "ina.power" of_addr
    ∷ method "ina.read_manufacturer_id" of_addr
    ∷ method "ina.read_die_id" of_addr
    ∷ rest

abbrev tca_methods : List Method → List Method
tca_methods rest =
    method "tca.read" of_addr
    ∷ method "tca.is_present" of_addr
    ∷ method "tca.read_port" ("addr" ∷ "port" ∷ [])
    ∷ method "tca.set_direction" ("addr" ∷ "port" ∷ "mask" ∷ [])
    ∷ method "tca.get_direction" ("addr" ∷ "port" ∷ [])
    ∷ method "tca.set_all_inputs" of_addr
    ∷ method "tca.set_all_outputs" of_addr
    ∷ method "tca.write_port" ("addr" ∷ "port" ∷ "value" ∷ [])
    ∷ method "tca.write_all" ("addr" ∷ "p0" ∷ "p1" ∷ [])
    ∷ method "tca.write_pin" ("addr" ∷ "port" ∷ "pin" ∷ "value" ∷ [])
    ∷ rest

abbrev other_methods : List Method
other_methods =
    record { name = lit "i2c.scan"; required = []; optional = texts ("start" ∷ "end" ∷ []) }
    ∷ method "nrf.is_present" []
    ∷ method "psu.power" ("on" ∷ [])
    ∷ method "psu.status" []
    ∷ method "broker.health" []
    ∷ []

unfoldable pub method_table : List Method
method_table = converter_methods (can_methods (ina_methods (tca_methods other_methods)))

abbrev has_key : Fields → Text → Bool
has_key no_fields key = false
has_key (field_of k v rest) key = same k key || has_key rest key

abbrev only_of : List Text → Fields → Bool
only_of keys no_fields = true
only_of keys (field_of k v rest) = among k keys && only_of keys rest

abbrev append_texts : List Text → List Text → List Text
append_texts [] us = us
append_texts (t ∷ ts) us = t ∷ append_texts ts us

-- `fn(**params)` binds: no parameter is missing, and none is unknown.
unfoldable pub binds : Method → Fields → Bool
unfolding same
binds m params =
    all_of (has_key params) m.required && only_of (append_texts m.required m.optional) params

unfoldable pub find_method : List Method → Text → Option Method
unfolding same
find_method [] n = none
find_method (m ∷ ms) n = if same m.name n then some m else find_method ms n

-- A backend gives what its method with a name does with parameters that bind.
abbrev pub Backend : Type 0
Backend = Text → Fields → Called

abbrev pub bound : Backend → Option Method → Option (Fields → Called)
bound backend none = none
bound backend (some m) =
    some (λ params. if binds m params then backend m.name params else type_raised [])

-- What the handler of requests looks up.
unfoldable pub methods_of : Backend → Text → Option (Fields → Called)
unfolding find_method method_table binds
methods_of backend n = bound backend (find_method method_table n)
