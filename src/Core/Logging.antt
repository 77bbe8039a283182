-- ===== src/Core/Logging.antt =====
-- app/core/logging.py: the request id of a log line. The other processors are the library's.
use payment_gateway_system.Prelude.{String, Option, none, some, str_eq, if◌then◌else◌}

-- A text that is empty counts as none.
abbrev pub given : Option String → Option String
given none = none
given (some id) = if str_eq id "" then none else some id

abbrev pub or_else : Option String → Option String → Option String
or_else none o = o
or_else (some id) o = some id

-- `_add_request_id`: the id of the event after it, from the id of the event and that of the context.
abbrev pub add_request_id : Option String → Option String → Option String
add_request_id event_id context_id = or_else (or_else (given event_id) (given context_id)) event_id
