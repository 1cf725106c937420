-- ===== src/Redis/Objects/Printing.antt =====
-- The JSON text that src/redis_cache.c stores for an object.
use bacnet_event_server.Base.{Bool, List, [], ◌∷◌, ◌++◌, Bytes, String, codes, if◌then◌else◌}
use bacnet_event_server.Base.Decimal.{print_nat}
use bacnet_event_server.Base.Words.{Fpu}
use bacnet_event_server.Message.Model.{CachedObject, read_bool}
use bacnet_event_server.Base.Decimal.{print_signed}

-- A member of the text: its name in quotes, a colon, its value.
abbrev pub quoted : Bytes → Bytes
quoted s = 34 ∷ (s ++ 34 ∷ [])

abbrev pub entry : String → Bytes → Bytes
entry name value = quoted (codes name) ++ b':' ∷ value

abbrev pub join : List Bytes → Bytes
join [] = []
join (e ∷ []) = e
join (e ∷ d ∷ es) = e ++ b',' ∷ join (d ∷ es)

abbrev pub print_bool : Bool → Bytes
print_bool b = if b then codes "true" else codes "false"

-- The text of the format in redis_cache_store_object; the strings are written as they are. Strings that
-- fit their arrays leave it below the 4096 bytes of the buffer. The four members of the present value
-- are four readings of one word.
unfoldable pub object_text : Fpu → CachedObject → Bytes
unfolding print_signed read_bool
object_text fpu o =
    codes "{"
    ++ join (
        entry "object_type" (print_signed 32 o.object_type)
        ∷ entry "object_instance" (print_nat o.object_instance)
        ∷ entry "object_name" (quoted o.object_name)
        ∷ entry "description" (quoted o.description)
        ∷ entry "value_type" (print_signed 32 o.value_type)
        ∷ entry "units" (print_nat o.units)
        ∷ entry "units_text" (quoted o.units_text)
        ∷ entry "cov_increment" (fpu.print_fixed (fpu.widen o.cov_increment))
        ∷ entry "min_value" (fpu.print_fixed (fpu.widen o.min_value))
        ∷ entry "max_value" (fpu.print_fixed (fpu.widen o.max_value))
        ∷ entry "state_count" (print_signed 32 o.state_count)
        ∷ entry "inactive_text" (quoted o.inactive_text)
        ∷ entry "active_text" (quoted o.active_text)
        ∷ entry "supports_priority_array" (print_bool o.supports_priority_array)
        ∷ entry "present_value_real" (fpu.print_fixed (fpu.widen o.present_value))
        ∷ entry "present_value_unsigned" (print_nat o.present_value)
        ∷ entry "present_value_signed" (print_signed 32 o.present_value)
        ∷ entry "present_value_boolean" (print_bool (read_bool o.present_value))
        ∷ entry "status_in_alarm" (print_bool o.status_flags.in_alarm)
        ∷ entry "status_fault" (print_bool o.status_flags.fault)
        ∷ entry "status_overridden" (print_bool o.status_flags.overridden)
        ∷ entry "status_out_of_service" (print_bool o.status_flags.out_of_service)
        ∷ entry "reliability" (print_nat o.reliability)
        ∷ entry "event_state" (print_nat o.event_state)
        ∷ entry "last_update" (print_signed 64 o.last_update)
        ∷ entry "source_id" (quoted o.source_id)
        ∷ entry "stream_position" (print_nat o.stream_position)
        ∷ [])
    ++ codes "}"
