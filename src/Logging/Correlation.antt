-- ===== src/Logging/Correlation.antt =====
-- The correlation context of shared/logging/logger.py and the fields of fields.py: a dictionary of texts,
-- the latest entry of a key first.
use global_payments_observab.Base.{String, List, [], ◌++◌}

abbrev pub Context : Type 0
Context = List (String × String)

-- `set_correlation_context`
abbrev pub set_correlation_context : Context → Context → Context
set_correlation_context values context = values

-- `update_correlation_context`: `merged.update(values)`
abbrev pub update_correlation_context : Context → Context → Context
update_correlation_context values context = values ++ context

-- `clear_correlation_context`
abbrev pub clear_correlation_context : Context → Context
clear_correlation_context context = []
