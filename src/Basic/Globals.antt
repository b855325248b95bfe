-- ===== src/Basic/Globals.antt =====
-- src/basic_types/globals.cpp: the three counters from which graphs, rules and steps get their
-- IDs. The global variables are the fields of a state.
use uncover.Base.{ℕ, ◌+◌, ◌-◌, ◌^◌, Option, none, some, ◌==◌, if◌then◌else◌}

-- IDType_MAX, with an unsigned int of 32 bits.
abbrev pub id_type_max : ℕ
id_type_max = 2 ^ 32 - 1

pub record Counters : Type 0 where
  pub last_used_state_id : ℕ
  pub last_used_rule_id : ℕ
  pub last_used_step_id : ℕ

abbrev pub initial_counters : Counters
initial_counters = record { last_used_state_id = 1; last_used_rule_id = 1; last_used_step_id = 1 }

-- `none` is the OutOfIDsException.
pub get_new_state_id : Counters → Option (ℕ × Counters)
get_new_state_id s =
    if s.last_used_state_id == id_type_max
    then none
    else some (s.last_used_state_id, record s { last_used_state_id = s.last_used_state_id + 1 })

pub get_new_rule_id : Counters → Option (ℕ × Counters)
get_new_rule_id s =
    if s.last_used_rule_id == id_type_max
    then none
    else some (s.last_used_rule_id, record s { last_used_rule_id = s.last_used_rule_id + 1 })

pub get_new_step_id : Counters → Option (ℕ × Counters)
get_new_step_id s =
    if s.last_used_step_id == id_type_max
    then none
    else some (s.last_used_step_id, record s { last_used_step_id = s.last_used_step_id + 1 })
