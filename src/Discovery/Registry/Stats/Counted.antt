-- ===== src/Discovery/Registry/Stats/Counted.antt =====
-- What `get_stats` says of the registry.
use nopanic.Prelude.{
  ℕ, suc, ◌+◌, ◌≤◌, ◌≡◌, refl, ap, ◌∙◌, sym, List, [], ◌∷◌, map, retain, Option, none, some, length,
  if◌then◌else◌, Bool-cases, inl, inr, arith, All, All-mono,
}
use mathlib.Core.Option
use nopanic.Discovery.{NodeType, node_type_eq}
use nopanic.Discovery.Registry.{NodeRegistry, get_nodes_by_type}
use nopanic.Discovery.Registry.Valid.{Slot}
use nopanic.Discovery.Registry.Stats.{
  RegistryStats, Tally, empty_tally, count_type, tally_entry, tally, oldest_of, newest_of, age_secs,
  get_stats,
}

abbrev of_type : NodeType → List Slot → ℕ
of_type t m = length (retain (λ (key, e). node_type_eq e.descriptor.node_type t) m)

abbrev count_of : NodeType → Tally → ℕ
count_of NodeType.entry t = t.entry_count
count_of NodeType.middle t = t.middle_count
count_of NodeType.exit t = t.exit_count

abbrev at_times : Option ℕ → Option ℕ → Tally → Tally
at_times oldest newest t = record t { oldest_registration = oldest; newest_registration = newest }

count_type-at_times :
    (u v : NodeType) (t : Tally) (oldest newest : Option ℕ)
    → count_of u (at_times oldest newest (count_type v t))
      ≡ count_of u t + (if node_type_eq v u then 1 else 0)
count_type-at_times NodeType.entry NodeType.entry t _ _ = refl
count_type-at_times NodeType.entry NodeType.middle t _ _ = omega arith
count_type-at_times NodeType.entry NodeType.exit t _ _ = omega arith
count_type-at_times NodeType.middle NodeType.entry t _ _ = omega arith
count_type-at_times NodeType.middle NodeType.middle t _ _ = refl
count_type-at_times NodeType.middle NodeType.exit t _ _ = omega arith
count_type-at_times NodeType.exit NodeType.entry t _ _ = omega arith
count_type-at_times NodeType.exit NodeType.middle t _ _ = omega arith
count_type-at_times NodeType.exit NodeType.exit t _ _ = refl

tally-count_of :
    (u : NodeType) (m : List Slot) (t : Tally) → count_of u (tally t m) ≡ count_of u t + of_type u m
unfolding tally retain
tally-count_of u [] t = omega arith
tally-count_of u ((k, e) ∷ m) t =
    let rest = tally-count_of u m (tally_entry t e) in
    let first =
      count_type-at_times u e.descriptor.node_type t
        (oldest_of (count_type e.descriptor.node_type t).oldest_registration e.registered_at)
        (newest_of (count_type e.descriptor.node_type t).newest_registration e.registered_at) in
    let both = rest ∙ ap (λ n. n + of_type u m) first in
    elim (Bool-cases (node_type_eq e.descriptor.node_type u)) [
      | inl q ↦ rw q (both ∙ rw q (omega arith))
      | inr q ↦ rw q (both ∙ rw q (omega arith))
    ]

all_types :
    (m : List Slot)
    → of_type NodeType.entry m + of_type NodeType.middle m + of_type NodeType.exit m ≡ length m
unfolding retain
all_types [] = refl
all_types ((k, e) ∷ m) =
    elim e.descriptor.node_type
      as (λ v.
        length (
            if node_type_eq v NodeType.entry
            then (k, e) ∷ with_type NodeType.entry
            else with_type NodeType.entry)
          + length (
              if node_type_eq v NodeType.middle
              then (k, e) ∷ with_type NodeType.middle
              else with_type NodeType.middle)
          + length (
              if node_type_eq v NodeType.exit
              then (k, e) ∷ with_type NodeType.exit
              else with_type NodeType.exit)
        ≡ suc (length m)) [
          | NodeType.entry ↦ omega (arith, all_types m)
          | NodeType.middle ↦ omega (arith, all_types m)
          | NodeType.exit ↦ omega (arith, all_types m)
        ]
  where
    with_type : NodeType → List Slot
    with_type t = retain (λ (key, f). node_type_eq f.descriptor.node_type t) m

-- A time that is there, and no newest_of, or no oldest_of, than another.
abbrev pub AtMost : Option ℕ → ℕ → Type 0
AtMost none n = ⊥
AtMost (some o) n = o ≤ n

abbrev pub AtLeast : Option ℕ → ℕ → Type 0
AtLeast none n = ⊥
AtLeast (some o) n = n ≤ o

oldest_of-AtMost : (o : Option ℕ) (at : ℕ) → AtMost (oldest_of o at) at
oldest_of-AtMost none at = omega arith
oldest_of-AtMost (some o) at = ground arith

oldest_of-AtMost_mono : (o : Option ℕ) (at n : ℕ) → AtMost o n → AtMost (oldest_of o at) n
oldest_of-AtMost_mono none at n h = absurd h
oldest_of-AtMost_mono (some o) at n h = ground (arith, h)

newest_of-AtLeast : (o : Option ℕ) (at : ℕ) → AtLeast (newest_of o at) at
newest_of-AtLeast none at = omega arith
newest_of-AtLeast (some o) at = ground arith

newest_of-AtLeast_mono : (o : Option ℕ) (at n : ℕ) → AtLeast o n → AtLeast (newest_of o at) n
newest_of-AtLeast_mono none at n h = absurd h
newest_of-AtLeast_mono (some o) at n h = ground (arith, h)

tally-AtMost_mono :
    (m : List Slot) (t : Tally) (n : ℕ)
    → AtMost t.oldest_registration n
    → AtMost (tally t m).oldest_registration n
unfolding tally
tally-AtMost_mono [] t n h = h
tally-AtMost_mono ((k, e) ∷ m) t n h =
    tally-AtMost_mono m (tally_entry t e) n (kept e.descriptor.node_type)
  where
    kept :
        (v : NodeType) → AtMost (oldest_of (count_type v t).oldest_registration e.registered_at) n
    kept NodeType.entry = oldest_of-AtMost_mono t.oldest_registration e.registered_at n h
    kept NodeType.middle = oldest_of-AtMost_mono t.oldest_registration e.registered_at n h
    kept NodeType.exit = oldest_of-AtMost_mono t.oldest_registration e.registered_at n h

tally-AtLeast_mono :
    (m : List Slot) (t : Tally) (n : ℕ)
    → AtLeast t.newest_registration n
    → AtLeast (tally t m).newest_registration n
unfolding tally
tally-AtLeast_mono [] t n h = h
tally-AtLeast_mono ((k, e) ∷ m) t n h =
    tally-AtLeast_mono m (tally_entry t e) n (kept e.descriptor.node_type)
  where
    kept :
        (v : NodeType) → AtLeast (newest_of (count_type v t).newest_registration e.registered_at) n
    kept NodeType.entry = newest_of-AtLeast_mono t.newest_registration e.registered_at n h
    kept NodeType.middle = newest_of-AtLeast_mono t.newest_registration e.registered_at n h
    kept NodeType.exit = newest_of-AtLeast_mono t.newest_registration e.registered_at n h

tally-Between :
    (m : List Slot) (t : Tally)
    → All
        (λ s.
          AtMost (tally t m).oldest_registration s.1.registered_at
          × AtLeast (tally t m).newest_registration s.1.registered_at)
        m
unfolding tally
tally-Between [] t = tt
tally-Between ((k, e) ∷ m) t = (
  (
    tally-AtMost_mono m (tally_entry t e) e.registered_at (oldest_of-AtMost _ e.registered_at),
    tally-AtLeast_mono m (tally_entry t e) e.registered_at (newest_of-AtLeast _ e.registered_at),
  ),
  tally-Between m (tally_entry t e),
)

older :
    (now : ℕ) (o : Option ℕ) (at : ℕ)
    → AtMost o at
    → AtLeast (Option.map (age_secs now) o) (age_secs now at)
older now none at h = h
older now (some o) at h = omega (arith, h)

newer :
    (now : ℕ) (o : Option ℕ) (at : ℕ)
    → AtLeast o at
    → AtMost (Option.map (age_secs now) o) (age_secs now at)
newer now none at h = h
newer now (some o) at h = omega (arith, h)

length-map {ℓ κ} :
    {A : Type ℓ} {B : Type κ} (f : A → B) (xs : List A) → length (map f xs) ≡ length xs
length-map f [] = refl
length-map f (x ∷ xs) = ap suc (length-map f xs)

abbrev type_count : NodeType → RegistryStats → ℕ
type_count NodeType.entry s = s.entry_count
type_count NodeType.middle s = s.middle_count
type_count NodeType.exit s = s.exit_count

-- What the statistics say of a registry at an instant.
pub record Describes (now : ℕ) (r : NodeRegistry) (s : RegistryStats) : Type 0 where
  pub by_type : (t : NodeType) → type_count t s ≡ length (get_nodes_by_type t r)
  pub total : s.entry_count + s.middle_count + s.exit_count ≡ s.total_nodes
  pub ages :
      All
        (λ (key, e).
          AtLeast s.oldest_node_age_secs (age_secs now e.registered_at)
          × AtMost s.newest_node_age_secs (age_secs now e.registered_at))
        r.nodes

-- The count of each type is the number of nodes of that type that the registry gives, the three
-- add up to the total, and the age of every node is between those of the newest and the oldest.
pub get_stats-Describes : (now : ℕ) (r : NodeRegistry) → Describes now r (get_stats now r)
unfolding get_stats get_nodes_by_type
get_stats-Describes now r = record {
  by_type = by_type;
  total =
      ap (λ n. n + count_of NodeType.middle t + count_of NodeType.exit t) (counted NodeType.entry)
      ∙ ap (λ n. of_type NodeType.entry r.nodes + n + count_of NodeType.exit t)
          (counted NodeType.middle)
      ∙ ap (λ n. of_type NodeType.entry r.nodes + of_type NodeType.middle r.nodes + n)
          (counted NodeType.exit)
      ∙ all_types r.nodes;
  ages =
      All-mono (λ (k, e) (o, n). (older now _ e.registered_at o, newer now _ e.registered_at n))
        r.nodes (tally-Between r.nodes empty_tally);
}
  where
    t : Tally
    t = tally empty_tally r.nodes

    zero_of : (u : NodeType) → count_of u empty_tally + of_type u r.nodes ≡ of_type u r.nodes
    zero_of NodeType.entry = omega arith
    zero_of NodeType.middle = omega arith
    zero_of NodeType.exit = omega arith

    counted : (u : NodeType) → count_of u t ≡ of_type u r.nodes
    counted u = tally-count_of u r.nodes empty_tally ∙ zero_of u

    by_type : (u : NodeType) → type_count u (get_stats now r) ≡ length (get_nodes_by_type u r)
    by_type NodeType.entry = counted NodeType.entry ∙ sym (length-map _ _)
    by_type NodeType.middle = counted NodeType.middle ∙ sym (length-map _ _)
    by_type NodeType.exit = counted NodeType.exit ∙ sym (length-map _ _)
