-- ===== src/Discovery/Registry/Stats.antt =====
-- services/discovery/src/core/registry.rs: `RegistryStats` and `get_stats`.
pub mod Counted
use nopanic.Prelude.{
  ℕ, ◌+◌, ◌-◌, ◌/◌, List, [], ◌∷◌, Option, none, some, length, ltb, if◌then◌else◌,
}
use mathlib.Core.Option
use nopanic.Discovery.{NodeType}
use nopanic.Discovery.Registry.{NodeEntry, NodeRegistry}

pub record RegistryStats : Type 0 where
  pub total_nodes : ℕ
  pub entry_count : ℕ
  pub middle_count : ℕ
  pub exit_count : ℕ
  pub oldest_node_age_secs : Option ℕ
  pub newest_node_age_secs : Option ℕ

-- What the loop over the entries has so far.
pub record Tally : Type 0 where
  pub entry_count : ℕ
  pub middle_count : ℕ
  pub exit_count : ℕ
  pub oldest_registration : Option ℕ
  pub newest_registration : Option ℕ

abbrev pub empty_tally : Tally
empty_tally = record {
  entry_count = 0;
  middle_count = 0;
  exit_count = 0;
  oldest_registration = none;
  newest_registration = none;
}

abbrev pub count_type : NodeType → Tally → Tally
count_type NodeType.entry t = record t { entry_count = t.entry_count + 1 }
count_type NodeType.middle t = record t { middle_count = t.middle_count + 1 }
count_type NodeType.exit t = record t { exit_count = t.exit_count + 1 }

abbrev pub oldest_of : Option ℕ → ℕ → Option ℕ
oldest_of none at = some at
oldest_of (some oldest) at = if ltb at oldest then some at else some oldest

abbrev pub newest_of : Option ℕ → ℕ → Option ℕ
newest_of none at = some at
newest_of (some newest) at = if ltb newest at then some at else some newest

abbrev pub tally_entry : Tally → NodeEntry → Tally
tally_entry t e =
    let counted = count_type e.descriptor.node_type t in
    record counted {
      oldest_registration = oldest_of counted.oldest_registration e.registered_at;
      newest_registration = newest_of counted.newest_registration e.registered_at;
    }

unfoldable pub tally : Tally → List (List ℕ × NodeEntry) → Tally
tally t [] = t
tally t ((key, e) ∷ rest) = tally (tally_entry t e) rest

-- `duration_since` is 0 for a newest_of instant.
abbrev pub age_secs : ℕ → ℕ → ℕ
age_secs now at = (now - at) / 1000000000

unfoldable pub get_stats : ℕ → NodeRegistry → RegistryStats
unfolding tally
get_stats now r =
    let t = tally empty_tally r.nodes in
    record {
      total_nodes = length r.nodes;
      entry_count = t.entry_count;
      middle_count = t.middle_count;
      exit_count = t.exit_count;
      oldest_node_age_secs = Option.map (age_secs now) t.oldest_registration;
      newest_node_age_secs = Option.map (age_secs now) t.newest_registration;
    }
