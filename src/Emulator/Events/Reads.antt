-- ===== src/Emulator/Events/Reads.antt =====
-- The verifications of `enable_sirm` come to an end, and leave the worker as it is.
use cameleon.Prelude.{
  ℕ, ◌+◌, ◌*◌, ◌%◌, ◌≤◌, ◌==◌, List, Bool, true, false, leb, ltb, not, ◌≡◌, ◌≢◌, refl, arith,
}
use cameleon.Result.{Result, ok, err, panic, stuck, map_err, >>=-ne-stuck}
use cameleon.Stateful.{and_then}
use cameleon.Bytes.{ByteOrder, Width, u64, u32}
use cameleon.Memory.{AccessRight, ro}
use cameleon.Memory.Raw.{Register, read, register_read, slice, reg_range}
use cameleon.Memory.Raw.Ends.{slice-ne-stuck}
use cameleon.Memory.Raw.Registers.{}
use cameleon.Memory.RegisterMap.{
  int_register, required_payload_size, required_leader_size, required_trailer_size,
  maximum_leader_size, payload_transfer_size, payload_transfer_count, payload_final_transfer_size1,
  payload_final_transfer_size2, maximum_trailer_size,
}
use cameleon.Protocol.Cmd
use cameleon.Emulator.Ack.{ErrorAck}
use cameleon.Emulator.Worker.{Worker, Step}
use cameleon.Emulator.Events.{read_memory, aligned, verify_alignment, verify_size, require}

-- A step that only reads, from `s`: it ends, and leaves the worker as it is.
abbrev pub IsReading : {A : Type 0} → Result ErrorAck A × Worker → Worker → Type 0
IsReading p s = (p.1 ≡ s) × (p.0 ≢ stuck)

pub leb→le : (a b : ℕ) → leb a b ≡ true → a ≤ b
leb→le a b h = ground arith

map_err-ne-stuck : {E F A : Type 0} (f : E → F) (r : Result E A) → r ≢ stuck → map_err f r ≢ stuck
map_err-ne-stuck f (ok a) h = λ q. cc
map_err-ne-stuck f (err e) h = λ q. cc
map_err-ne-stuck f panic h = λ q. cc
map_err-ne-stuck f stuck h = absurd (h refl)

module _ ⦃B : ByteOrder⦄ where
  pub parse-ne-stuck :
      (w : Width) (a : ℕ) (right : AccessRight) (bs : List ℕ)
      → (int_register w a right).parse bs ≢ stuck
  parse-ne-stuck w a right bs h = ground arith

  pub read_memory-ne-stuck :
      (kind : Cmd.ScdKind) (R : Register ℕ)
      → ((bs : List ℕ) → R.parse bs ≢ stuck)
      → (s : Worker) → (read_memory kind R s).0 ≢ stuck
  unfolding read_memory read register_read
  read_memory-ne-stuck kind R parses s = map_err-ne-stuck _ _ (
      >>=-ne-stuck (slice s.memory.raw (reg_range R)) _ (slice-ne-stuck s.memory.raw (reg_range R))
        parses)

  IsReading-bind :
      {A C : Type 0} (p : Result ErrorAck A × Worker) (next : A → Step C) (s : Worker)
      → IsReading p s
      → ((a : A) → IsReading (next a s) s)
      → IsReading (and_then p.0 p.1 next) s
  IsReading-bind (ok a, t) next s (e, h) k = rw e (k a)
  IsReading-bind (err x, t) next s (e, h) k = (e, λ q. cc)
  IsReading-bind (panic, t) next s (e, h) k = (e, λ q. cc)
  IsReading-bind (stuck, t) next s (e, h) k = absurd (h refl)

  require-IsReading : (kind : Cmd.ScdKind) (b : Bool) (s : Worker) → IsReading (require kind b s) s
  require-IsReading kind true s = (refl, λ q. cc)
  require-IsReading kind false s = (refl, λ q. cc)

  read_memory-IsReading :
      (kind : Cmd.ScdKind) (R : Register ℕ)
      → ((bs : List ℕ) → R.parse bs ≢ stuck)
      → (s : Worker) → IsReading (read_memory kind R s) s
  unfolding read_memory
  read_memory-IsReading kind R parses s = (refl, read_memory-ne-stuck kind R parses s)

  aligned-IsReading :
      (kind : Cmd.ScdKind) (R : Register ℕ)
      → ((bs : List ℕ) → R.parse bs ≢ stuck)
      → (s : Worker) → IsReading (aligned kind R s) s
  unfolding aligned
  aligned-IsReading kind R parses s =
      IsReading-bind (read_memory kind R s) _ s (read_memory-IsReading kind R parses s)
        λ v. require-IsReading kind (v % 4 == 0) s

  module _ (kind : Cmd.ScdKind) (s : Worker) where
    pub verify_alignment-IsReading : IsReading (verify_alignment kind s) s
    unfolding verify_alignment
    verify_alignment-IsReading =
        let parses = parse-ne-stuck u32 0 ro in
        IsReading-bind (aligned kind maximum_leader_size s) _ s
          (aligned-IsReading kind maximum_leader_size parses s)
          λ _.
            IsReading-bind (aligned kind payload_transfer_size s) _ s
              (aligned-IsReading kind payload_transfer_size parses s)
              λ _.
                IsReading-bind (aligned kind payload_final_transfer_size1 s) _ s
                  (aligned-IsReading kind payload_final_transfer_size1 parses s)
                  λ _.
                    IsReading-bind (aligned kind payload_final_transfer_size2 s) _ s
                      (aligned-IsReading kind payload_final_transfer_size2 parses s)
                      λ _. aligned-IsReading kind maximum_trailer_size parses s

    pub verify_size-IsReading : IsReading (verify_size kind s) s
    unfolding verify_size
    verify_size-IsReading =
        let parses = parse-ne-stuck u32 0 ro in
        IsReading-bind (read_memory kind maximum_leader_size s) _ s
          (read_memory-IsReading kind maximum_leader_size parses s)
          λ l.
            IsReading-bind (read_memory kind required_leader_size s) _ s
              (read_memory-IsReading kind required_leader_size parses s)
              λ rl.
                IsReading-bind (require kind (not (ltb l rl)) s) _ s
                  (require-IsReading kind (not (ltb l rl)) s)
                  λ _.
                    IsReading-bind (read_memory kind maximum_trailer_size s) _ s
                      (read_memory-IsReading kind maximum_trailer_size parses s)
                      λ t.
                        IsReading-bind (read_memory kind required_trailer_size s) _ s
                          (read_memory-IsReading kind required_trailer_size parses s)
                          λ rt.
                            IsReading-bind (require kind (not (ltb t rt)) s) _ s
                              (require-IsReading kind (not (ltb t rt)) s)
                              λ _.
                                IsReading-bind (read_memory kind payload_transfer_size s) _ s
                                  (read_memory-IsReading kind payload_transfer_size parses s)
                                  λ z.
                                    IsReading-bind (read_memory kind payload_transfer_count s) _ s
                                      (read_memory-IsReading kind payload_transfer_count parses s)
                                      λ n.
                                        IsReading-bind
                                          (read_memory kind payload_final_transfer_size1 s) _ s
                                          (read_memory-IsReading kind payload_final_transfer_size1
                                            parses s)
                                          λ f1.
                                            IsReading-bind
                                              (read_memory kind payload_final_transfer_size2 s) _ s
                                              (read_memory-IsReading kind
                                                payload_final_transfer_size2 parses s)
                                              λ f2.
                                                IsReading-bind
                                                  (read_memory kind required_payload_size s) _ s
                                                  (read_memory-IsReading kind required_payload_size
                                                    (parse-ne-stuck u64 0 ro) s)
                                                  λ q.
                                                    require-IsReading kind
                                                      (not (ltb (z * n + f1 + f2) q)) s
