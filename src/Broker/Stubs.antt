-- ===== src/Broker/Stubs.antt =====
-- The methods of the clients in tools/hil_client.py: which request each of them makes. A client's index is
-- looked up once, when it is made. read_pin and set_all, the parameter of read_raw that is ignored, and what
-- the setters return are left out.
use ifs_hil.Prelude.{
  ℕ, suc, ◌≡◌, refl, sym, subst, String, Bool, true, List, [], ◌∷◌, Option, none, some,
  if◌then◌else◌, ◌==◌,
}
use ifs_hil.Prelude.Text.{Text, lit, same}
use ifs_hil.Prelude.Result.{Result, ok, err, key_error, type_error}
use ifs_hil.Broker.Rpc.{Json, number, boolean, text, Fields, no_fields, field_of}
use ifs_hil.Broker.Methods.{Backend, methods_of, find_method, method_table, binds}
use ifs_hil.Broker.Client.{rendered, handle, request, call}
use ifs_hil.Broker.Client.Calls.{response_to, outcome_of, called, Carries, call-handle}
pub mod Served

-- A dict from a chip select to the index of its chip.
abbrev index_of : List (ℕ × ℕ) → ℕ → Result ℕ
index_of [] pin = err key_error
index_of (e ∷ es) pin = if e.0 == pin then ok e.1 else index_of es pin

abbrev adc_cs_to_idx : List (ℕ × ℕ)
adc_cs_to_idx = (19, 0) ∷ (20, 1) ∷ (21, 2) ∷ []

abbrev dac_cs_to_idx : List (ℕ × ℕ)
dac_cs_to_idx = (22, 0) ∷ (23, 1) ∷ (24, 2) ∷ (25, 3) ∷ []

abbrev can_cs_to_idx : List (ℕ × ℕ)
can_cs_to_idx = (27, 0) ∷ (17, 1) ∷ (18, 2) ∷ []

-- `__init__` of MCP3208, DAC80504 and MCP2515, by the dict of the class: the index is taken first.
abbrev chip_index : List (ℕ × ℕ) → Option ℕ → Option ℕ → Result ℕ
chip_index table none none = err type_error
chip_index table (some pin) none = index_of table pin
chip_index table pin (some idx) = ok idx

-- A call of a client's method, with the client's index or address first.
pub data Stub : Type 0 where
  adc_read : (idx : ℕ) (channel : ℕ) → Stub
  adc_read_voltage : (idx : ℕ) (channel : ℕ) → Stub
  adc_read_all : (idx : ℕ) → Stub
  dac_set_voltage : (idx : ℕ) (channel : ℕ) (volts : Json) → Stub
  dac_get_voltage : (idx : ℕ) (channel : ℕ) → Stub
  dac_read_device_id : (idx : ℕ) → Stub
  dac_reset : (idx : ℕ) → Stub
  dac_zero_all : (idx : ℕ) → Stub
  can_set_mode : (idx : ℕ) (mode : ℕ) → Stub
  can_get_mode : (idx : ℕ) → Stub
  can_read_error_counters : (idx : ℕ) → Stub
  can_reset : (idx : ℕ) → Stub
  can_init : (idx : ℕ) (bitrate : ℕ) → Stub
  can_loopback_test : (idx : ℕ) (can_id : ℕ) (data_b64 : Text) → Stub
  can_int_level : (idx : ℕ) → Stub
  ina_is_present : (addr : ℕ) → Stub
  ina_bus_voltage : (addr : ℕ) → Stub
  ina_shunt_voltage : (addr : ℕ) → Stub
  ina_current : (addr : ℕ) → Stub
  ina_power : (addr : ℕ) → Stub
  ina_snapshot : (addr : ℕ) → Stub
  ina_read_manufacturer_id : (addr : ℕ) → Stub
  ina_read_die_id : (addr : ℕ) → Stub
  tca_is_present : (addr : ℕ) → Stub
  tca_set_direction : (addr : ℕ) (port : ℕ) (mask : ℕ) → Stub
  tca_get_direction : (addr : ℕ) (port : ℕ) → Stub
  tca_set_all_inputs : (addr : ℕ) → Stub
  tca_set_all_outputs : (addr : ℕ) → Stub
  tca_write_port : (addr : ℕ) (port : ℕ) (value : ℕ) → Stub
  tca_write_all : (addr : ℕ) (p0 : ℕ) (p1 : ℕ) → Stub
  tca_write_pin : (addr : ℕ) (port : ℕ) (pin : ℕ) (value : Bool) → Stub
  tca_read_port : (addr : ℕ) (port : ℕ) → Stub
  tca_read_all : (addr : ℕ) → Stub
  nrf_is_present : Stub
  psu_power : (on : Bool) → Stub
  psu_status : Stub
  i2c_scan : (start : ℕ) (stop : ℕ) → Stub

abbrev pub method_name : Stub → Text
method_name (adc_read idx channel) = lit "adc.read"
method_name (adc_read_voltage idx channel) = lit "adc.read_voltage"
method_name (adc_read_all idx) = lit "adc.read_all"
method_name (dac_set_voltage idx channel volts) = lit "dac.set_voltage"
method_name (dac_get_voltage idx channel) = lit "dac.get_voltage"
method_name (dac_read_device_id idx) = lit "dac.read_device_id"
method_name (dac_reset idx) = lit "dac.reset"
method_name (dac_zero_all idx) = lit "dac.zero_all"
method_name (can_set_mode idx mode) = lit "can.set_mode"
method_name (can_get_mode idx) = lit "can.get_mode"
method_name (can_read_error_counters idx) = lit "can.read_error_counters"
method_name (can_reset idx) = lit "can.reset"
method_name (can_init idx bitrate) = lit "can.init"
method_name (can_loopback_test idx can_id data_b64) = lit "can.loopback_test"
method_name (can_int_level idx) = lit "can.int_level"
method_name (ina_is_present addr) = lit "ina.is_present"
method_name (ina_bus_voltage addr) = lit "ina.bus_voltage"
method_name (ina_shunt_voltage addr) = lit "ina.shunt_voltage"
method_name (ina_current addr) = lit "ina.current"
method_name (ina_power addr) = lit "ina.power"
method_name (ina_snapshot addr) = lit "ina.read"
method_name (ina_read_manufacturer_id addr) = lit "ina.read_manufacturer_id"
method_name (ina_read_die_id addr) = lit "ina.read_die_id"
method_name (tca_is_present addr) = lit "tca.is_present"
method_name (tca_set_direction addr port mask) = lit "tca.set_direction"
method_name (tca_get_direction addr port) = lit "tca.get_direction"
method_name (tca_set_all_inputs addr) = lit "tca.set_all_inputs"
method_name (tca_set_all_outputs addr) = lit "tca.set_all_outputs"
method_name (tca_write_port addr port value) = lit "tca.write_port"
method_name (tca_write_all addr p0 p1) = lit "tca.write_all"
method_name (tca_write_pin addr port pin value) = lit "tca.write_pin"
method_name (tca_read_port addr port) = lit "tca.read_port"
method_name (tca_read_all addr) = lit "tca.read"
method_name nrf_is_present = lit "nrf.is_present"
method_name (psu_power on) = lit "psu.power"
method_name psu_status = lit "psu.status"
method_name (i2c_scan start stop) = lit "i2c.scan"

abbrev on_field : String → Json → Fields → Fields
on_field key v rest = field_of (lit key) v rest

abbrev pub params_of : Stub → Fields
params_of (adc_read idx channel) =
    on_field "idx" (number idx) (on_field "channel" (number channel) no_fields)
params_of (adc_read_voltage idx channel) =
    on_field "idx" (number idx) (on_field "channel" (number channel) no_fields)
params_of (adc_read_all idx) = on_field "idx" (number idx) no_fields
params_of (dac_set_voltage idx channel volts) =
    on_field "idx" (number idx)
      (on_field "channel" (number channel) (on_field "volts" volts no_fields))
params_of (dac_get_voltage idx channel) =
    on_field "idx" (number idx) (on_field "channel" (number channel) no_fields)
params_of (dac_read_device_id idx) = on_field "idx" (number idx) no_fields
params_of (dac_reset idx) = on_field "idx" (number idx) no_fields
params_of (dac_zero_all idx) = on_field "idx" (number idx) no_fields
params_of (can_set_mode idx mode) =
    on_field "idx" (number idx) (on_field "mode" (number mode) no_fields)
params_of (can_get_mode idx) = on_field "idx" (number idx) no_fields
params_of (can_read_error_counters idx) = on_field "idx" (number idx) no_fields
params_of (can_reset idx) = on_field "idx" (number idx) no_fields
params_of (can_init idx bitrate) =
    on_field "idx" (number idx) (on_field "bitrate" (number bitrate) no_fields)
params_of (can_loopback_test idx can_id data_b64) =
    on_field "idx" (number idx)
      (on_field "can_id" (number can_id) (on_field "data_b64" (text data_b64) no_fields))
params_of (can_int_level idx) = on_field "idx" (number idx) no_fields
params_of (ina_is_present addr) = on_field "addr" (number addr) no_fields
params_of (ina_bus_voltage addr) = on_field "addr" (number addr) no_fields
params_of (ina_shunt_voltage addr) = on_field "addr" (number addr) no_fields
params_of (ina_current addr) = on_field "addr" (number addr) no_fields
params_of (ina_power addr) = on_field "addr" (number addr) no_fields
params_of (ina_snapshot addr) = on_field "addr" (number addr) no_fields
params_of (ina_read_manufacturer_id addr) = on_field "addr" (number addr) no_fields
params_of (ina_read_die_id addr) = on_field "addr" (number addr) no_fields
params_of (tca_is_present addr) = on_field "addr" (number addr) no_fields
params_of (tca_set_direction addr port mask) =
    on_field "addr" (number addr)
      (on_field "port" (number port) (on_field "mask" (number mask) no_fields))
params_of (tca_get_direction addr port) =
    on_field "addr" (number addr) (on_field "port" (number port) no_fields)
params_of (tca_set_all_inputs addr) = on_field "addr" (number addr) no_fields
params_of (tca_set_all_outputs addr) = on_field "addr" (number addr) no_fields
params_of (tca_write_port addr port value) =
    on_field "addr" (number addr)
      (on_field "port" (number port) (on_field "value" (number value) no_fields))
params_of (tca_write_all addr p0 p1) =
    on_field "addr" (number addr) (on_field "p0" (number p0) (on_field "p1" (number p1) no_fields))
params_of (tca_write_pin addr port pin value) = on_field "addr" (number addr) (
    on_field "port" (number port)
      (on_field "pin" (number pin) (on_field "value" (boolean value) no_fields)))
params_of (tca_read_port addr port) =
    on_field "addr" (number addr) (on_field "port" (number port) no_fields)
params_of (tca_read_all addr) = on_field "addr" (number addr) no_fields
params_of nrf_is_present = no_fields
params_of (psu_power on) = on_field "on" (boolean on) no_fields
params_of psu_status = no_fields
params_of (i2c_scan start stop) =
    on_field "start" (number start) (on_field "end" (number stop) no_fields)
