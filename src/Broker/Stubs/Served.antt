-- ===== src/Broker/Stubs/Served.antt =====
-- The methods of tools/hil_client.py, served by broker/.
use ifs_hil.Prelude.{ℕ, suc, ◌≡◌, refl, sym, subst, true, [], ◌∷◌, Option, some}
use ifs_hil.Prelude.Text.{Text, same}
use ifs_hil.Broker.Rpc.{Json}
use ifs_hil.Broker.Methods.{Backend, methods_of, find_method, method_table, binds}
use ifs_hil.Broker.Client.{rendered, handle, request, call}
use ifs_hil.Broker.Client.Calls.{response_to, outcome_of, called, Carries, call-handle}
use ifs_hil.Broker.Stubs.{
  Stub, method_name, params_of, adc_read, adc_read_voltage, adc_read_all, dac_set_voltage,
  dac_get_voltage, dac_read_device_id, dac_reset, dac_zero_all, can_set_mode, can_get_mode,
  can_read_error_counters, can_reset, can_init, can_loopback_test, can_int_level, ina_is_present,
  ina_bus_voltage, ina_shunt_voltage, ina_current, ina_power, ina_snapshot,
  ina_read_manufacturer_id, ina_read_die_id, tca_is_present, tca_set_direction, tca_get_direction,
  tca_set_all_inputs, tca_set_all_outputs, tca_write_port, tca_write_all, tca_write_pin,
  tca_read_port, tca_read_all, nrf_is_present, psu_power, psu_status, i2c_scan,
}

-- The table has the method of every stub, and the stub's parameters bind to it.
pub methods_of-Stub :
    (backend : Backend) (s : Stub)
    → called (methods_of backend (method_name s)) (params_of s)
      ≡ some (backend (method_name s) (params_of s))
unfolding methods_of find_method method_table binds same
methods_of-Stub backend (adc_read idx channel) = refl
methods_of-Stub backend (adc_read_voltage idx channel) = refl
methods_of-Stub backend (adc_read_all idx) = refl
methods_of-Stub backend (dac_set_voltage idx channel volts) = refl
methods_of-Stub backend (dac_get_voltage idx channel) = refl
methods_of-Stub backend (dac_read_device_id idx) = refl
methods_of-Stub backend (dac_reset idx) = refl
methods_of-Stub backend (dac_zero_all idx) = refl
methods_of-Stub backend (can_set_mode idx mode) = refl
methods_of-Stub backend (can_get_mode idx) = refl
methods_of-Stub backend (can_read_error_counters idx) = refl
methods_of-Stub backend (can_reset idx) = refl
methods_of-Stub backend (can_init idx bitrate) = refl
methods_of-Stub backend (can_loopback_test idx can_id data_b64) = refl
methods_of-Stub backend (can_int_level idx) = refl
methods_of-Stub backend (ina_is_present addr) = refl
methods_of-Stub backend (ina_bus_voltage addr) = refl
methods_of-Stub backend (ina_shunt_voltage addr) = refl
methods_of-Stub backend (ina_current addr) = refl
methods_of-Stub backend (ina_power addr) = refl
methods_of-Stub backend (ina_snapshot addr) = refl
methods_of-Stub backend (ina_read_manufacturer_id addr) = refl
methods_of-Stub backend (ina_read_die_id addr) = refl
methods_of-Stub backend (tca_is_present addr) = refl
methods_of-Stub backend (tca_set_direction addr port mask) = refl
methods_of-Stub backend (tca_get_direction addr port) = refl
methods_of-Stub backend (tca_set_all_inputs addr) = refl
methods_of-Stub backend (tca_set_all_outputs addr) = refl
methods_of-Stub backend (tca_write_port addr port value) = refl
methods_of-Stub backend (tca_write_all addr p0 p1) = refl
methods_of-Stub backend (tca_write_pin addr port pin value) = refl
methods_of-Stub backend (tca_read_port addr port) = refl
methods_of-Stub backend (tca_read_all addr) = refl
methods_of-Stub backend nrf_is_present = refl
methods_of-Stub backend (psu_power on) = refl
methods_of-Stub backend psu_status = refl
methods_of-Stub backend (i2c_scan start stop) = refl

-- The request of each call of `Stub` is known to the broker and its parameters bind: the call ends as the
-- broker's method of that name ends on those parameters, with its value or with a RuntimeError. This when
-- JSON carries the request and the answer.
call-Stub :
    (dumps : Json → Text) (loads : Text → Option Json) (backend : Backend) (s : Stub) (next_id : ℕ)
    → Carries dumps loads (request (suc next_id) (method_name s) (params_of s))
    → loads (
        dumps (rendered (response_to (suc next_id) (some (backend (method_name s) (params_of s))))))
      ≡ some (rendered (response_to (suc next_id) (some (backend (method_name s) (params_of s)))))
    → call dumps loads
        (λ l. handle dumps loads (methods_of backend) ((l, true) ∷ []))
        (method_name s)
        (params_of s)
        next_id
      ≡ (outcome_of (some (backend (method_name s) (params_of s))), suc next_id)
call-Stub dumps loads backend s next_id c back =
    let e = methods_of-Stub backend s in
    subst
      (λ o.
        call dumps loads (λ l. handle dumps loads (methods_of backend) ((l, true) ∷ []))
          (method_name s) (params_of s) next_id
        ≡ (outcome_of o, suc next_id))
      e
      (call-handle dumps loads (methods_of backend) (method_name s) (params_of s) next_id c (
        subst
          (λ o.
            loads (dumps (rendered (response_to (suc next_id) o)))
            ≡ some (rendered (response_to (suc next_id) o)))
          (sym e) back))
