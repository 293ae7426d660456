-- ===== src/Tests.antt =====
-- The theorems at concrete inputs, and runs of the executor on the sample plan.
use Prim.Native.Nat.{◌≤◌}
use netfyr.Base.{
  All, ℕ, ◌<◌, ◌+◌, ◌*◌, ◌-◌, ◌/◌, ◌^◌, ◌≡◌, refl, ◌↔◌, Bool, true, false, some, none, [], ◌∷◌, map,
  ok, is_nil, arith, String,
}
use netfyr.Value.{Value, u64, i64, same_value, entry, end}
use netfyr.Device.{State, Match, any_device, matches, is_empty_match, content_eq}
use netfyr.Plan.{Ipv4Address, lifetimes, validate_address, group, StateDiff, set_mtu}
use netfyr.Plan.Prefix.{group-eq_iff}
use netfyr.Schema.Registry.{validate, validate_writable}
use netfyr.Schema.Embedded.{new_registry}
use netfyr.Schema.Modes.{plain_errors, validate_writable-plain}
use netfyr.Report.{OperationContext, SkippedOperation, FailedOperation}
use netfyr.Executor.Run.{run, preview_plan, preview_report, failed_report, apply_plan}
use netfyr.Executor.Run.Completeness.{reported, contexts_from, run-reports_all}
use netfyr.Plan.{Observation, replace_ipv4, same_identity}
use netfyr.Base.{get_elem?}
use netfyr.Executor.Action.{Io}
use netfyr.Executor.Step.Trace.{logged, IsJustified}
use netfyr.Executor.Locate.{ethernet, confirm, locate}
use netfyr.Executor.Locate.Sound.{locate_sound}
use netfyr.Executor.Satisfied.{
  satisfied, address_satisfied, find_address, lifetimes_equal, precondition_age,
}
use netfyr.Executor.Project.{project}
use netfyr.Executor.Project.Effect.{is_write, IsFresh, project-satisfied}
use netfyr.Executor.Decode.{decode}
use netfyr.Executor.Decode.Writable.{decode-is_write}
use netfyr.Plan.{add_ipv4, Operation}
use netfyr.Executor.Lifetime.{lifetime_matches, whole_seconds}
use netfyr.Executor.Lifetime.Decay.{Remains, lifetime_matches_iff}
use netfyr.Executor.Run.Writes.{apply_plan-writes_seen}
use netfyr.Executor.Run.Cancelled.{apply_plan-cancelled}
use netfyr.Executor.Run.Advances.{done}
use netfyr.Executor.Run.Dependencies.{run-dependencies_done}
use netfyr.Executor.Run.Preview.{preview_plan-writes_nothing}
use netfyr.Samples.{
  parse_one, address_a, address_b, observed, sample_state, sample_plan, sample_io, sample_world,
  operation, netns, eth0, device_eth0, World,
}

group-eq_iff_example : (group address_a ≡ group address_b) ↔ (
    (address_a.prefix_len ≡ address_b.prefix_len)
    × (address_a.ip / 2 ^ (32 - address_a.prefix_len)
        ≡ address_b.ip / 2 ^ (32 - address_a.prefix_len)))
group-eq_iff_example =
    group-eq_iff address_a address_b (ground arith) (ground arith) (ground arith) (ground arith)

abbrev read_only_state : State
read_only_state = record sample_state {
  fields = entry "mtu" (u64 12) (entry "carrier" (Value.bool true) end);
}

validate_writable-plain_example :
    plain_errors (validate_writable parse_one new_registry read_only_state)
    ≡ validate parse_one new_registry read_only_state
validate_writable-plain_example = validate_writable-plain parse_one new_registry read_only_state

run-reports_all_example :
    reported (run parse_one sample_io sample_plan false sample_world).0
    ≡ contexts_from 0 sample_plan.operations
run-reports_all_example = run-reports_all parse_one sample_io sample_plan false sample_world

-- The dependent operation, in a plan where the operation it depends on succeeds.
abbrev chained_plan : StateDiff
chained_plan = record sample_plan {
  operations = operation (set_mtu 9000) [] ∷ operation (set_mtu 1500) (0 ∷ []) ∷ [];
}

-- In a real run of the sample plan operation 0 succeeds, 1 and 3 fail, and 2 is skipped; in one of
-- the chained plan the dependent operation is done.
sample_runs :
    let r = (apply_plan parse_one sample_io sample_plan sample_world).0 in
    (map (λ (c : OperationContext). c.index) r.succeeded ≡ 0 ∷ [])
    × (map (λ (f : FailedOperation). f.context.index) r.failed ≡ 1 ∷ 3 ∷ [])
    × (map (λ (s : SkippedOperation). s.context.index) r.skipped ≡ 2 ∷ [])
    × (done 1 (run parse_one sample_io chained_plan false sample_world).0 ≡ true)
unfolding netfyr.Base.Text.split_once netfyr.Device.new_state netfyr.Executor.Cascade.check_cascade
    netfyr.Executor.Decode.assignment netfyr.Executor.Decode.check_decoded
    netfyr.Executor.Decode.decode netfyr.Executor.Decode.decode_field
    netfyr.Executor.Decode.decode_kind netfyr.Executor.Decode.decode_known
    netfyr.Executor.Decode.decode_result netfyr.Executor.Groups.validate_address_group
    netfyr.Executor.Groups.validate_group netfyr.Executor.Locate.confirm
    netfyr.Executor.Locate.locate netfyr.Executor.Run.apply_plan netfyr.Executor.Run.run
    netfyr.Executor.Run.run_from netfyr.Executor.Run.run_one netfyr.Executor.Run.run_step
    netfyr.Executor.Run.run_with netfyr.Executor.Satisfied.satisfied netfyr.Executor.Step.absorb
    netfyr.Executor.Step.attempt netfyr.Executor.Step.confirm_write netfyr.Executor.Step.observe
    netfyr.Executor.Step.observe_from netfyr.Executor.Step.perform netfyr.Executor.Step.real_write
    netfyr.Executor.Step.step netfyr.Executor.Step.step_decoded netfyr.Executor.Step.update_groups
    netfyr.Plan.ipv4_address netfyr.Schema.Embedded.new_registry netfyr.Schema.Registry.all_errors
    netfyr.Schema.Registry.device_type_errors netfyr.Schema.Registry.field_info
    netfyr.Schema.Registry.fragment_errors_at netfyr.Schema.Registry.trigger_errors
    netfyr.Schema.Registry.validate_writable netfyr.Schema.Walk.checked
    netfyr.Schema.Walk.integer_errors netfyr.Schema.Walk.kind_errors
    netfyr.Schema.Walk.missing_errors netfyr.Schema.Walk.type_accepts netfyr.Schema.Walk.under
    netfyr.Schema.Walk.value_type netfyr.Schema.Walk.walk_map netfyr.Schema.Walk.walk_node
    netfyr.Schema.Walk.with_read_only netfyr.Value.same_value netfyr.Executor.Action.◌>>=◌
    netfyr.Executor.Action.with_state netfyr.Executor.Project.project done
sample_runs = (refl, refl, refl, refl)

run-dependencies_done_example :
    All
      (λ d. (d < 1) × (done d (run parse_one sample_io chained_plan false sample_world).0 ≡ true))
      (0 ∷ [])
run-dependencies_done_example =
    run-dependencies_done parse_one sample_io chained_plan false sample_world 1
      (operation (set_mtu 1500) (0 ∷ [])) refl sample_runs.3

preview_plan-writes_nothing_example :
    preview_plan parse_one
      (record sample_io { execute = λ target kind w. (ok tt, []); cancelled = λ w. (true, w) })
      sample_plan
      sample_world
    ≡ preview_plan parse_one sample_io sample_plan sample_world
preview_plan-writes_nothing_example =
    preview_plan-writes_nothing parse_one sample_io sample_plan sample_world
      (λ target kind w. (ok tt, [])) (λ w. (true, w))

apply_plan-writes_seen_example :
    IsJustified netns (apply_plan parse_one (logged sample_io) sample_plan (sample_world, [])).1.1
apply_plan-writes_seen_example = apply_plan-writes_seen parse_one sample_io sample_plan sample_world

abbrev stopped_io : Io World
stopped_io = record sample_io { cancelled = λ w. (true, w) }

apply_plan-cancelled_example :
    let (report, final) = apply_plan parse_one (logged stopped_io) sample_plan (sample_world, []) in
    (final.1 ≡ []) × (report.succeeded ≡ [])
apply_plan-cancelled_example =
    apply_plan-cancelled parse_one stopped_io sample_plan sample_world (λ v. refl)

abbrev sample_observation : Observation
sample_observation = record { devices = sample_world; diagnostics = [] }

found_eth0 : locate sample_observation eth0 netns ≡ ok (0, device_eth0)
unfolding locate confirm
found_eth0 = refl

locate_sound_example :
    (get_elem? sample_observation.devices 0 ≡ some device_eth0)
    × (device_eth0.identity ≡ eth0)
    × (eth0.device_type ≡ ethernet)
    × (eth0.namespace ≡ netns)
locate_sound_example = locate_sound sample_observation eth0 netns 0 device_eth0 found_eth0

abbrev longer_a : Ipv4Address
longer_a = record address_a { valid_lft = some 7200; preferred_lft = some 7200 }

-- A group that holds the address, a thousand nanoseconds before the device was observed.
abbrev grouped : Operation
grouped = record (operation (replace_ipv4 longer_a) []) {
  address_group = some (record { addresses = observed longer_a ∷ []; observed_at = 0 });
}

pending_replacement : satisfied (replace_ipv4 longer_a) device_eth0 grouped ≡ ok false
unfolding satisfied address_satisfied find_address same_identity lifetimes_equal precondition_age
    lifetimes lifetime_matches whole_seconds
pending_replacement = refl

recent_group : IsFresh (replace_ipv4 longer_a) device_eth0 grouped
unfolding precondition_age same_identity lifetimes
recent_group = omega arith

project-satisfied_example :
    satisfied (replace_ipv4 longer_a) (project device_eth0 (replace_ipv4 longer_a)) grouped
    ≡ ok true
project-satisfied_example =
    project-satisfied (replace_ipv4 longer_a) device_eth0 grouped refl recent_group
      pending_replacement

lifetime_matches_iff_example :
    (lifetime_matches 3600 3595 (5 * 1000000000 + 500000000) ≡ true) ↔ Remains 3600 3595 5 500000000
lifetime_matches_iff_example =
    lifetime_matches_iff 3600 3595 5 500000000 (ground arith) (ground arith) (ground arith)
      (ground arith)

decoded_addition :
    decode parse_one new_registry (add_ipv4 address_b) ≡ ok (some (add_ipv4 address_b))
unfolding decode netfyr.Executor.Decode.decode_kind netfyr.Executor.Decode.decode_result
    netfyr.Executor.Decode.check_decoded validate_address lifetimes
decoded_addition = refl

decode-is_write_example : (is_write (add_ipv4 address_b) ≡ true) × (24 ≤ 32)
decode-is_write_example =
    decode-is_write parse_one new_registry (add_ipv4 address_b) (add_ipv4 address_b)
      decoded_addition
