-- ===== src/Emulator/Queue.antt =====
-- device/src/emulator/emulator_impl/shared_queue.rs: the bounded queue of packets for the host. The
-- newest element stands first.
use cameleon.Prelude.{
  ℕ, List, [], ◌∷◌, ◌++◌, length, reverse, Option, none, some, Bool, true, false, ltb,
  if◌then◌else◌, ◌≡◌, refl, ap, arith, ◌∙◌, reverse-reverse, length-reverse,
}

pub record SharedQueue (T : Type 0) : Type 0 where
  pub inner : List T
  pub cap : ℕ

module _ {T : Type 0} where
  abbrev pub new : ℕ → SharedQueue T
  new cap = record { inner = []; cap = cap }

  unfoldable pub enqueue : T → SharedQueue T → Bool × SharedQueue T
  enqueue elem self =
      if ltb (length self.inner) self.cap
      then (true, record self { inner = elem ∷ self.inner })
      else (false, self)

  -- `VecDeque::pop_back`: the last element, and the elements before it.
  unfoldable pub pop_back : List T → Option T × List T
  pop_back [] = (none, [])
  pop_back (x ∷ []) = (some x, [])
  pop_back (x ∷ y ∷ rest) = let (last, front) = pop_back (y ∷ rest) in (last, x ∷ front)

  unfoldable pub dequeue : SharedQueue T → Option T × SharedQueue T
  dequeue self = let (elem, front) = pop_back self.inner in (elem, record self { inner = front })

  unfoldable pub clear : SharedQueue T → SharedQueue T
  clear self = record self { inner = [] }

  -- The elements in the order in which they are dequeued.
  abbrev pub waiting : SharedQueue T → List T
  waiting self = reverse self.inner

  pop_back-append : (xs : List T) (x : T) → pop_back (xs ++ x ∷ []) ≡ (some x, xs)
  unfolding pop_back
  pop_back-append [] x = refl
  pop_back-append (y ∷ []) x = refl
  pop_back-append (y ∷ z ∷ xs) x = rw (pop_back-append (z ∷ xs) x) refl

pub data QueueOp (T : Type 0) : Type 0 where
  put : T → QueueOp T
  get cleared : QueueOp T

pub data Answer (T : Type 0) : Type 0 where
  accepted : Bool → Answer T
  taken : Option T → Answer T
  done : Answer T

module _ {T : Type 0} where
  unfoldable pub step : QueueOp T → SharedQueue T → Answer T × SharedQueue T
  step (put x) q = let (fits, after) = enqueue x q in (accepted fits, after)
  step get q = let (elem, after) = dequeue q in (taken elem, after)
  step cleared q = (done, clear q)

  -- The answers to a sequence of operations.
  pub run : List (QueueOp T) → SharedQueue T → List (Answer T)
  run [] q = []
  run (op ∷ ops) q = let (answer, after) = step op q in answer ∷ run ops after

  -- A queue of a capacity that keeps its elements in their order.
  unfoldable pub fifo_step : ℕ → QueueOp T → List T → Answer T × List T
  fifo_step cap (put x) xs =
      if ltb (length xs) cap then (accepted true, xs ++ x ∷ []) else (accepted false, xs)
  fifo_step cap get [] = (taken none, [])
  fifo_step cap get (x ∷ xs) = (taken (some x), xs)
  fifo_step cap cleared xs = (done, [])

  pub fifo_run : ℕ → List (QueueOp T) → List T → List (Answer T)
  fifo_run cap [] xs = []
  fifo_run cap (op ∷ ops) xs =
      let (answer, after) = fifo_step cap op xs in answer ∷ fifo_run cap ops after

  pop_back-reverse :
      (cap : ℕ) (xs : List T)
      → fifo_step cap get xs ≡ (taken (pop_back (reverse xs)).0, reverse (pop_back (reverse xs)).1)
  unfolding fifo_step pop_back
  pop_back-reverse cap [] = refl
  pop_back-reverse cap (x ∷ xs) = rw (pop_back-append (reverse xs) x, reverse-reverse xs) refl

  fifo_step-step :
      (op : QueueOp T) (q : SharedQueue T)
      → fifo_step q.cap op (waiting q) ≡ ((step op q).0, waiting (step op q).1)
  unfolding fifo_step step enqueue clear
  fifo_step-step (put x) q = ground (arith, length-reverse q.inner)
  fifo_step-step get q =
      unfold dequeue in rw (reverse-reverse q.inner) at (pop_back-reverse q.cap (waiting q))
  fifo_step-step cleared q = refl

  cap-step : (op : QueueOp T) (q : SharedQueue T) → (step op q).1.cap ≡ q.cap
  unfolding step enqueue dequeue clear
  cap-step (put x) q = ground arith
  cap-step get q = refl
  cap-step cleared q = refl

  -- The queue answers any sequence of `enqueue`, `dequeue` and `clear` as a first-in first-out queue
  -- of its capacity does: an element is refused exactly when the queue is full, and each `dequeue`
  -- gives the oldest element that is left.
  pub run-eq-fifo_run :
      (ops : List (QueueOp T)) (q : SharedQueue T) → run ops q ≡ fifo_run q.cap ops (waiting q)
  unfolding run fifo_run
  run-eq-fifo_run [] q = refl
  run-eq-fifo_run (op ∷ ops) q =
      let after = (step op q).1 in
      let rest =
        run-eq-fifo_run ops after ∙ ap (λ c. fifo_run c ops (waiting after)) (cap-step op q) in
      rw (fifo_step-step op q, rest) refl
