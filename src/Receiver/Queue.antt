-- ===== src/Receiver/Queue.antt =====
-- The delivery queue hands frames over in order, each once, and what stopping it leaves behind.
use new_efp.Common.{
  ℕ, zero, suc, ◌*◌, ◌≡◌, ◌⊎◌, refl, sym, ap, ◌∙◌, subst, Bool, true, false, not, List, [], ◌∷◌,
  ◌++◌, Option, none, some, ◌&&◌, ◌||◌, ◌>>=◌, if◌then◌else◌, length, arith, Bool-cases, inl, inr,
}
use mathlib.Core.Option.{some-injective}
use mathlib.Core.List.{append_assoc, append-nil}
use new_efp.Receiver.State.{SuperFrame}
use new_efp.Receiver.Threads.{
  Place, testing, waiting, ended, calling, Delivery, started, put_frame, stop_running, is_empty,
  take_front, take_frame, loop_at, loop_step, Step, put, stop, loop, Steps, here, on,
}

-- The frame that the thread has taken and not yet given to the callback.
abbrev pub in_hand : Place → List SuperFrame
in_hand (calling (some f)) = f ∷ []
in_hand other = []

-- What was put is what was called, what is in hand and what is queued, in this order; and frames
-- are never queued without the mark that wakes the thread.
pub record IsInOrder (d : Delivery) : Type 0 where
  pub split : d.delivered ≡ d.called ++ (in_hand d.position ++ d.queue)
  pub marked : is_empty d.queue ≡ false → d.ready ≡ true

put_frame-IsInOrder : (f : SuperFrame) (d : Delivery) → IsInOrder d → IsInOrder (put_frame f d)
unfolding put_frame
put_frame-IsInOrder f d v = record {
  split =
      ap (λ l. l ++ (f ∷ [])) v.split
      ∙ append_assoc d.called (in_hand d.position ++ d.queue) (f ∷ [])
      ∙ ap (λ l. d.called ++ l) (append_assoc (in_hand d.position) d.queue (f ∷ []));
  marked = λ e. refl;
}

take_front-IsInOrder :
    (q : List SuperFrame) (d : Delivery)
    → d.delivered ≡ d.called ++ q
    → (is_empty q ≡ false → d.ready ≡ true)
    → IsInOrder (take_front q d)
take_front-IsInOrder [] d e m = record { split = e; marked = λ x. cc x }
take_front-IsInOrder (f ∷ []) d e m = record { split = e; marked = λ x. cc x }
take_front-IsInOrder (f ∷ g ∷ fs) d e m = record { split = e; marked = λ x. m refl }

-- What the order says with the thread at a place.
split_at :
    (p : Place) (d : Delivery)
    → d.position ≡ p
    → IsInOrder d
    → d.delivered ≡ d.called ++ (in_hand p ++ d.queue)
split_at p d at_p v = subst (λ q. d.delivered ≡ d.called ++ (in_hand q ++ d.queue)) at_p v.split

tested :
    (b : Bool) (d : Delivery)
    → d.delivered ≡ d.called ++ d.queue
    → (is_empty d.queue ≡ false → d.ready ≡ true)
    → IsInOrder (record d { position = if b then waiting else ended })
tested true d e m = record { split = e; marked = m }
tested false d e m = record { split = e; marked = m }

take_frame-IsInOrder :
    (d : Delivery)
    → d.delivered ≡ d.called ++ d.queue
    → (is_empty d.queue ≡ false → d.ready ≡ true)
    → IsInOrder (take_frame d)
unfolding take_frame
take_frame-IsInOrder d e m = elim (Bool-cases (not d.running && is_empty d.queue)) [
  | inl x ↦ rw x (record { split = e; marked = m })
  | inr x ↦ rw x (take_front-IsInOrder d.queue d e m)
]

-- The thread, at each of its places.
loop_at-IsInOrder :
    (p : Place) (d t : Delivery) → d.position ≡ p → IsInOrder d → loop_at p d ≡ some t → IsInOrder t
loop_at-IsInOrder testing d t at_p v e =
    subst IsInOrder (some-injective _ _ e) (tested d.running d (split_at testing d at_p v) v.marked)
loop_at-IsInOrder waiting d t at_p v e = elim (Bool-cases (d.ready || not d.running)) [
  | inl x ↦
      subst IsInOrder (some-injective _ _ (rw x at e))
        (take_frame-IsInOrder d (split_at waiting d at_p v) v.marked)
  | inr x ↦ cc (rw x at e)
]
loop_at-IsInOrder (calling none) d t at_p v e =
    subst IsInOrder (some-injective _ _ e)
      (record { split = split_at (calling none) d at_p v; marked = v.marked })
loop_at-IsInOrder (calling (some f)) d t at_p v e = subst IsInOrder (some-injective _ _ e) (record {
  split = split_at (calling (some f)) d at_p v ∙ sym (append_assoc d.called (f ∷ []) d.queue);
  marked = v.marked;
})
loop_at-IsInOrder ended d t at_p v e = absurd (cc e)

Step-IsInOrder : {d t : Delivery} → Step d t → IsInOrder d → IsInOrder t
unfolding loop_step stop_running
Step-IsInOrder (put f d) v = put_frame-IsInOrder f d v
Step-IsInOrder (stop d) v = record { split = v.split; marked = v.marked }
Step-IsInOrder (loop d t e) v = loop_at-IsInOrder d.position d t refl v e

-- In every order of the threads' steps, the receive callback is called with the frames that were put
-- into the queue, in their order and each once; the rest is in the thread's hand or in the queue, and
-- while the queue is not empty the mark is set that the thread waits for.
pub Steps-IsInOrder : {d : Delivery} → Steps started d → IsInOrder d
Steps-IsInOrder here = record { split = refl; marked = λ e. cc e }
Steps-IsInOrder (on run one) = Step-IsInOrder one (Steps-IsInOrder run)

-- `n` steps of the delivery thread alone.
unfoldable pub loop_steps : ℕ → Delivery → Option Delivery
loop_steps zero d = some d
loop_steps (suc n) d = loop_step d >>= λ t. loop_steps n t

-- The thread back at its test, with the front of the queue called.
abbrev after_front : SuperFrame → List SuperFrame → Delivery → Delivery
after_front f fs d = record d {
  queue = fs;
  ready = if is_empty fs then false else d.ready;
  position = testing;
  called = d.called ++ (f ∷ []);
}

loop_one : (d t : Delivery) (n : ℕ) → loop_step d ≡ some t → loop_steps (suc n) d ≡ loop_steps n t
unfolding loop_steps
loop_one d t n e = rw e refl

three_steps :
    (f : SuperFrame) (fs : List SuperFrame) (d : Delivery) (n : ℕ)
    → d.position ≡ testing
    → d.running ≡ true
    → d.ready ≡ true
    → d.queue ≡ f ∷ fs
    → loop_steps (suc (suc (suc n))) d ≡ loop_steps n (after_front f fs d)
unfolding loop_step take_frame
three_steps f fs d n at_test running ready queued =
    loop_one d at_wait (suc (suc n)) to_wait
    ∙ loop_one at_wait (take_front (f ∷ fs) at_wait) (suc n) to_call
    ∙ loop_one (take_front (f ∷ fs) at_wait) (after_front f fs d) n refl
  where
    at_wait : Delivery
    at_wait = record d { position = waiting }

    to_wait : loop_step d ≡ some at_wait
    to_wait =
        ap (λ p. loop_at p d) at_test
        ∙ ap (λ b. some (record d { position = if b then waiting else ended })) running

    to_call : loop_step at_wait ≡ some (take_front (f ∷ fs) at_wait)
    to_call =
        ap (λ b. if b || not d.running then some (take_frame at_wait) else none) ready
        ∙ ap
            (λ b. some (
              if not b && is_empty d.queue
              then record at_wait { position = ended }
              else take_front d.queue at_wait))
            running
        ∙ ap (λ q. some (take_front q at_wait)) queued

drained :
    (q : List SuperFrame) (d : Delivery)
    → d.position ≡ testing
    → d.running ≡ true
    → (is_empty d.queue ≡ false → d.ready ≡ true)
    → d.queue ≡ q
    → (t : Delivery) × (loop_steps (3 * length q) d ≡ some t)
      × (t.position ≡ testing)
      × (t.queue ≡ [])
      × (t.called ≡ d.called ++ q)
unfolding loop_steps
drained [] d at_test running marked e = (d, refl, at_test, e, sym (append-nil d.called))
drained (f ∷ fs) d at_test running marked e =
    let ready : d.ready ≡ true = marked (ap is_empty e) in
    let (t, ran, test, empty, called) =
      drained fs (after_front f fs d) refl running (λ x. rw x ready) refl in
    (
      t,
      ap (λ n. loop_steps n d) three
          ∙ three_steps f fs d (3 * length fs) at_test running ready e
          ∙ ran,
      test,
      empty,
      called ∙ append_assoc d.called (f ∷ []) fs,
    )
  where
    three : 3 * suc (length fs) ≡ suc (suc (suc (3 * length fs)))
    three = omega arith

-- A run of the delivery thread that leaves nothing queued.
abbrev pub Drains : Delivery → Type 0
Drains d =
    (t : Delivery) × (loop_steps (3 * length d.queue) d ≡ some t)
    × (t.position ≡ testing)
    × (t.queue ≡ [])
    × (t.called ≡ d.delivered)

-- The running thread, left alone at its test with frames queued, gives each of them to the callback,
-- in order, three steps for a frame, and is at its test again with an empty queue. What was put is
-- then what was called.
pub loop_steps-Drains :
    (d : Delivery) → d.position ≡ testing → d.running ≡ true → IsInOrder d → Drains d
loop_steps-Drains d at_test running v =
    let (t, ran, test, empty, called) = drained d.queue d at_test running v.marked refl in
    (t, ran, test, empty, called ∙ sym (split_at testing d at_test v))

-- The thread has stopped, or is about to.
record IsStopping (called : List SuperFrame) (d : Delivery) : Type 0 where
  stopped : d.running ≡ false
  at_end : (d.position ≡ testing) ⊎ (d.position ≡ ended)
  same : d.called ≡ called

Step-IsStopping :
    {called : List SuperFrame} {d t : Delivery}
    → Step d t
    → IsStopping called d
    → IsStopping called t
unfolding put_frame stop_running loop_step
Step-IsStopping (put f d) v = record { stopped = v.stopped; at_end = v.at_end; same = v.same }
Step-IsStopping (stop d) v = record { stopped = refl; at_end = v.at_end; same = v.same }
Step-IsStopping (loop d t e) v = elim v.at_end [
  | inl at_test ↦
      subst (IsStopping _) (some-injective _ _ (rw (at_test, v.stopped) at e))
        (record { stopped = refl; at_end = inr refl; same = v.same })
  | inr over ↦ cc (rw over at e)
]

-- Where `stop` was called while the delivery thread was at the test of its loop, no step of any
-- thread gives another frame to the callback: what is queued then is not delivered.
pub stopped-called :
    (d t : Delivery) → Steps (stop_running d) t → d.position ≡ testing → t.called ≡ d.called
unfolding stop_running
stopped-called d t run at_test = (stays run).same
  where
    stays : {u : Delivery} → Steps (stop_running d) u → IsStopping d.called u
    stays here = record { stopped = refl; at_end = inl at_test; same = refl }
    stays (on more one) = Step-IsStopping one (stays more)
