-- ===== src/Emulator/Interface.antt =====
-- device/src/emulator/emulator_impl/interface.rs: where the interface waits for the workers, and so
-- takes no signal from them.
use cameleon.Prelude.{List, [], ◌∷◌, Bool, false, not, ◌||◌}
use cameleon.Emulator.Worker.{
  IfaceKind, control, event, stream, InterfaceSignal, halt, update_timestamp, enable_stream,
  disable_stream, IfaceState, Worker,
}

-- `IfaceState::is_halt`
unfoldable pub is_halt : IfaceState → IfaceKind → Bool
is_halt state control = state.ctrl_state
is_halt state event = state.event_state
is_halt state stream = state.stream_state

-- Does `handle_signal` wait until the workers have ended? `set_halt` does, through `CancelJobs`,
-- unless the endpoint is halted; the other signals are passed on.
unfoldable pub waits_for_workers : IfaceState → InterfaceSignal → Bool
waits_for_workers state (halt iface) = not (is_halt state iface)
waits_for_workers state (update_timestamp _) = false
waits_for_workers state enable_stream = false
waits_for_workers state disable_stream = false

unfoldable pub any_waits : IfaceState → List InterfaceSignal → Bool
any_waits state [] = false
any_waits state (signal ∷ rest) = waits_for_workers state signal || any_waits state rest

-- The interface does not get through the signals in its channel while the worker is at work: it is
-- in `set_halt`, or one of the signals takes it there. No request of the host to halt an endpoint
-- arrives while the worker waits; one that came before is `interface_halting`.
unfoldable pub is_blocked : Worker → Bool
is_blocked self = self.interface_halting || any_waits self.iface_state self.signals
