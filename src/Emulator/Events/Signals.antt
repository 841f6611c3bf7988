-- ===== src/Emulator/Events/Signals.antt =====
-- What a signal to the interface leaves as it is.
use cameleon.Prelude.{
  List, false, ◌≡◌, refl, ap, arith, Bool-cases, inl, inr, [], ◌∷◌, ◌++◌, length, ltb, ◌∙◌,
}
use cameleon.Bytes.{ByteOrder}
use cameleon.Emulator.Worker.{InterfaceSignal, IfaceState, Worker, try_send_signal}
use cameleon.Emulator.Interface.{waits_for_workers, any_waits, is_blocked}
use cameleon.Emulator.Events.{}
use cameleon.Emulator.Events.Reads.{}
use cameleon.Emulator.Events.Off.{Keeps}

module _ ⦃B : ByteOrder⦄ where
  pub signal-memory :
      (signal : InterfaceSignal) (s : Worker) → (try_send_signal signal s).memory ≡ s.memory
  unfolding try_send_signal
  signal-memory signal s = ground arith

  pub signal-events :
      (signal : InterfaceSignal) (s : Worker) → (try_send_signal signal s).events ≡ s.events
  unfolding try_send_signal
  signal-events signal s = ground arith

  pub signal-queue :
      (signal : InterfaceSignal) (s : Worker) → (try_send_signal signal s).queue ≡ s.queue
  unfolding try_send_signal
  signal-queue signal s = ground arith

  any_waits-append :
      (state : IfaceState) (signals : List InterfaceSignal) (signal : InterfaceSignal)
      → waits_for_workers state signal ≡ false
      → any_waits state (signals ++ signal ∷ []) ≡ any_waits state signals
  unfolding any_waits
  any_waits-append state [] signal h = rw h refl
  any_waits-append state (x ∷ rest) signal h = rw (any_waits-append state rest signal h) refl

  pub signal-free :
      (signal : InterfaceSignal) (s : Worker)
      → waits_for_workers s.iface_state signal ≡ false
      → is_blocked s ≡ false
      → is_blocked (try_send_signal signal s) ≡ false
  unfolding try_send_signal is_blocked
  signal-free signal s passed free = elim (Bool-cases (ltb (length s.signals) s.signal_capacity)) [
    | inl fits ↦ rw (fits, any_waits-append s.iface_state s.signals signal passed) free
    | inr full ↦ rw full free
  ]

  pub signal-Keeps :
      (signal : InterfaceSignal) (s after : Worker)
      → waits_for_workers s.iface_state signal ≡ false
      → Keeps s after
      → after.iface_state ≡ s.iface_state
      → Keeps s (try_send_signal signal after)
  signal-Keeps signal s after passed keeps same = record {
    observers = ap (λ m. m.observers) (signal-memory signal after) ∙ keeps.observers;
    queue = signal-queue signal after ∙ keeps.queue;
    free = signal-free signal after (rw same passed) keeps.free;
  }
