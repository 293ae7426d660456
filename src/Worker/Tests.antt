-- ===== src/Worker/Tests.antt =====
-- The theorems on the worker at a run of two requests, and at an apply of the sample plan.
use netfyr.Base.{◌≡◌, ◌↔◌, refl, some, [], ◌∷◌, ok, arith}
use mathlib.Core.List.{Memᴰ}
use netfyr.Device.{Match, any_device, matches}
use netfyr.Device.Selector.{Meets}
use netfyr.Plan.{Observation, DeviceObservation}
use netfyr.Executor.Run.Completeness.{reported, contexts_from}
use netfyr.Worker.{
  Transport, Worker, send, notify, query, apply, observed, handle, enqueue, filter_observation,
  dropped, apply_result,
}
use netfyr.Worker.Order.{Steps, start, then_step, IsOrdered, fresh, Steps-IsOrdered}
use netfyr.Worker.Replies.{apply_result-reports_all, handle-selected}
use netfyr.Samples.{
  parse_one, sample_plan, sample_io, sample_world, device_eth0, sample_state, World,
}

abbrev sockets : Transport World
sockets = record {
  io = sample_io;
  inventory_where = λ wanted w. (ok (record { devices = w; diagnostics = [] }), w);
  notified = λ w. w;
  debug_match = λ m. "";
}

-- A query and a plan are sent, and a notification arrives.
abbrev two_waiting : Worker World
two_waiting =
    record (enqueue parse_one sockets (apply sample_plan)
      (enqueue parse_one sockets (query any_device) (fresh parse_one sockets sample_world))) {
        world = sample_world;
      }

two_waiting_steps : Steps parse_one sockets (fresh parse_one sockets sample_world) two_waiting
two_waiting_steps =
    then_step
      (then_step (then_step start (send (query any_device) (omega arith)))
        (send (apply sample_plan) (omega arith)))
      notify

Steps-IsOrdered_example : IsOrdered parse_one sockets two_waiting
Steps-IsOrdered_example =
    Steps-IsOrdered parse_one sockets sample_world two_waiting two_waiting_steps

apply_result-reports_all_example :
    reported (apply_result sample_plan dropped) ≡ contexts_from 0 sample_plan.operations
apply_result-reports_all_example =
    apply_result-reports_all parse_one sample_io sample_plan sample_world dropped tt

-- A device whose own selector has its name and its driver, and one that has none.
abbrev named_device : DeviceObservation
named_device = record device_eth0 {
  state = record sample_state {
    match_spec = record any_device { name = some "eth0"; driver = some "e1000" };
  };
}

abbrev two_devices : Observation
two_devices = record { devices = named_device ∷ device_eth0 ∷ []; diagnostics = [] }

abbrev of_driver : Match
of_driver = record any_device { driver = some "e1000" }

asked : handle parse_one sockets (query of_driver) two_devices.devices ≡ (
  observed (ok (record { devices = named_device ∷ []; diagnostics = [] })),
  two_devices.devices,
)
unfolding handle filter_observation matches netfyr.Device.field_matches netfyr.Device.mac_matches
    netfyr.Device.new_state netfyr.Device.default_priority
asked = refl

handle-selected_example :
    Memᴰ named_device (named_device ∷ [])
    ↔ (Memᴰ named_device two_devices.devices × Meets of_driver named_device.state.match_spec)
handle-selected_example =
    handle-selected parse_one sockets of_driver two_devices.devices two_devices.devices two_devices
      (record { devices = named_device ∷ []; diagnostics = [] }) named_device asked refl
