-- ===== src/Shield/Fields.antt =====
-- The fields of a payload hash, by their names in the Lua scripts of types.go.
use sluice_go.Naming.{codes}
use sluice_go.Prelude.{Bytes}

abbrev pub field_p : Bytes
field_p = codes "p"

abbrev pub field_ts : Bytes
field_ts = codes "ts"

abbrev pub field_v : Bytes
field_v = codes "v"

abbrev pub field_h : Bytes
field_h = codes "h"

abbrev pub field_reason : Bytes
field_reason = codes "dlq_reason"

abbrev pub field_at : Bytes
field_at = codes "dlq_at"
