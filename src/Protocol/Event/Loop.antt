-- ===== src/Protocol/Event/Loop.antt =====
-- The parser of events returns on every input, with a list of events or an error.
use cameleon.Prelude.{ℕ, zero, suc, ◌+◌, ◌-◌, ◌≤◌, List, [], ◌∷◌, length, ◌≡◌, refl}
use cameleon.Prelude.{◌⊎◌, arith, leb, ◌==◌, Bool-cases, inl, inr, leb→le}
use cameleon.Result.{Ensures, returns, fails, Ensures-bind, Ensures-guard}
use cameleon.Bytes.{ByteOrder, u16, u32, u64}
use cameleon.Protocol.{invalid_packet}
use cameleon.Protocol.Reads.{read-Ensures, read_slice-Ensures}
use cameleon.Protocol.Event.{EventScd, event_data, parse_event, parse_events, parse}
use cameleon.Protocol.Event.{checked_sub, parse_prefix, parse_ccd, prefix_magic, event_command_id}

-- The sizes of the events: an event of size 0 takes what is left, and no other follows it.
abbrev pub Sizes : ℕ → List EventScd → Type 0
Sizes n [] = n ≡ 0
Sizes n (e ∷ es) =
    ((e.event_size ≡ 0) × (length e.bytes + 12 ≡ n) × (es ≡ []))
    ⊎ ((length e.bytes + 12 ≡ e.event_size) × (e.event_size ≤ n) × Sizes (n - e.event_size) es)

checked_sub-Ensures : (a b : ℕ) → Ensures (λ d. (d ≡ a - b) × (b ≤ a)) (checked_sub a b)
checked_sub-Ensures a b = elim (Bool-cases (leb b a)) [
  | inl h ↦ rw h (returns (refl, leb→le b a h))
  | inr h ↦ rw h fails
]

-- One round, on a remaining length `n`: the event's size and data, and what remains.
abbrev IsRound : ℕ → ℕ → List ℕ → ℕ → Type 0
IsRound n event_size bytes n' =
    ((event_size ≡ 0) × (length bytes + 12 ≡ n) × (n' ≡ 0))
    ⊎ ((length bytes + 12 ≡ event_size) × (event_size ≤ n) × (n' ≡ n - event_size))

event_data-Ensures :
    (size n : ℕ) (c : List ℕ)
    → Ensures (λ (bytes, n', _). IsRound n size bytes n') (event_data size n c)
unfolding event_data
event_data-Ensures size n c = elim (Bool-cases (size == 0)) [
  | inl none_left ↦ rw none_left (
      Ensures-bind (checked_sub-Ensures n 12) λ d (e, le).
        Ensures-bind (read_slice-Ensures c d)
          λ (bytes, c') p. returns (inl (ground arith, omega (arith, p.0), refl)))
  | inr sized ↦ rw sized (
      Ensures-bind (checked_sub-Ensures size 12) λ d (e, le).
        Ensures-bind (checked_sub-Ensures n size) λ r (e', le').
          Ensures-bind (read_slice-Ensures c d)
            λ (bytes, c') p. returns (inr (omega (arith, p.0), le', e')))
]

module _ ⦃B : ByteOrder⦄ where
  parse_event-Ensures :
      (n : ℕ) (c : List ℕ)
      → Ensures (λ (event, n', _). IsRound n event.event_size event.bytes n') (parse_event n c)
  unfolding parse_event
  parse_event-Ensures n c = Ensures-bind (read-Ensures u16 c) λ (size, c1) p1.
      Ensures-bind (read-Ensures u16 c1) λ (id, c2) p2.
        Ensures-bind (read-Ensures u64 c2) λ (timestamp, c3) p3.
          Ensures-bind (event_data-Ensures size n c3) λ (bytes, n', c4) p4. returns p4

  parse_events-Ensures :
      (fuel n : ℕ) (c : List ℕ) → n ≤ fuel → Ensures (Sizes n) (parse_events fuel n c)
  unfolding parse_events
  parse_events-Ensures fuel zero c h = returns refl
  parse_events-Ensures zero (suc n) c h = absurd (omega arith)
  parse_events-Ensures (suc fuel) (suc n) c h =
      Ensures-bind (parse_event-Ensures (suc n) c) λ (event, n', c') p. elim p [
        | inl last ↦ rw (last.2) (returns (inl (last.0, last.1, refl)))
        | inr sized ↦
            Ensures-bind (parse_events-Ensures fuel n' c' (omega (arith, sized.0, sized.2)))
              λ events rest. returns (inr (sized.0, sized.1, rw (sized.2) at rest))
      ]

  parse_prefix-Ensures : (c : List ℕ) → Ensures (λ _. Unit {0}) (parse_prefix c)
  unfolding parse_prefix
  parse_prefix-Ensures c = Ensures-bind (read-Ensures u32 c) λ (magic, c1) p1.
      Ensures-bind (Ensures-guard (magic == prefix_magic) invalid_packet) λ _ p2. returns tt

  parse_ccd-Ensures : (c : List ℕ) → Ensures (λ _. Unit {0}) (parse_ccd c)
  unfolding parse_ccd
  parse_ccd-Ensures c = Ensures-bind (read-Ensures u16 c) λ (flag, c1) p1.
      Ensures-bind (read-Ensures u16 c1) λ (id, c2) p2.
        Ensures-bind (Ensures-guard (id == event_command_id) invalid_packet) λ _ p3.
          Ensures-bind (read-Ensures u16 c2)
            λ (len, c3) p4. Ensures-bind (read-Ensures u16 c3) λ (request, c4) p5. returns tt

  -- On every buffer the parser of event packets returns an error or a packet; it does not panic, and
  -- the length in the header is enough fuel for its loop. In a packet each event has the data that
  -- its size states, and the sizes add up to the length in the header; an event of size 0 has all
  -- that is left, and is the last one.
  pub parse-Ensures : (buf : List ℕ) → Ensures (λ p. Sizes p.ccd.scd_len p.scd) (parse buf)
  unfolding parse
  parse-Ensures buf = Ensures-bind (parse_prefix-Ensures buf) λ (_, c) p1.
      Ensures-bind (parse_ccd-Ensures c) λ (ccd, c') p2.
        Ensures-bind (parse_events-Ensures ccd.scd_len ccd.scd_len c' (omega arith))
          λ scd p3. returns p3
