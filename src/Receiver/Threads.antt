-- ===== src/Receiver/Threads.antt =====
-- The delivery queue of the threaded receiver, between the thread that puts frames into it, the
-- delivery thread and a call of `stop`. What is done under `mDeliveryMutex` is one step.
use new_efp.Common.{
  Bool, true, false, not, List, [], ◌∷◌, ◌++◌, Option, none, some, ◌≡◌, ◌&&◌, ◌||◌, if◌then◌else◌,
}
use new_efp.Receiver.State.{SuperFrame}

-- Where the delivery thread is: at the test of its loop, at the wait, behind the lock with what it
-- took, or behind the loop.
pub data Place : Type 0 where
  testing waiting ended : Place
  calling : Option SuperFrame → Place

-- `called` is what the receive callback was called with, oldest first; `delivered` is what was put
-- into the queue, as in `Receiver`.
pub record Delivery : Type 0 where
  pub queue : List SuperFrame
  pub ready : Bool
  pub running : Bool
  pub position : Place
  pub called : List SuperFrame
  pub delivered : List SuperFrame

abbrev pub started : Delivery
started = record {
  queue = [];
  ready = false;
  running = true;
  position = testing;
  called = [];
  delivered = [];
}

-- `deliverFrame` in threaded mode.
unfoldable pub put_frame : SuperFrame → Delivery → Delivery
put_frame f d = record d {
  queue = d.queue ++ (f ∷ []);
  ready = true;
  delivered = d.delivered ++ (f ∷ []);
}

-- The part of `stop` under the lock; the notification wakes the delivery thread, whose wait looks
-- at what was changed.
unfoldable pub stop_running : Delivery → Delivery
stop_running d = record d { running = false }

abbrev pub is_empty : List SuperFrame → Bool
is_empty [] = true
is_empty (f ∷ fs) = false

-- The front of the queue is taken; `mDeliveryReady` goes where nothing is left.
abbrev pub take_front : List SuperFrame → Delivery → Delivery
take_front [] d = record d { queue = []; ready = false; position = calling none }
take_front (f ∷ fs) d = record d {
  queue = fs;
  ready = if is_empty fs then false else d.ready;
  position = calling (some f);
}

-- The body of the lock, once the wait is over.
unfoldable pub take_frame : Delivery → Delivery
take_frame d =
    if not d.running && is_empty d.queue
    then record d { position = ended }
    else take_front d.queue d

abbrev pub loop_at : Place → Delivery → Option Delivery
loop_at testing d = some (record d { position = if d.running then waiting else ended })
loop_at waiting d = if d.ready || not d.running then some (take_frame d) else none
loop_at (calling none) d = some (record d { position = testing })
loop_at (calling (some f)) d = some (record d { position = testing; called = d.called ++ (f ∷ []) })
loop_at ended d = none

-- A step of `deliveryLoop`. `none` is a thread that waits or has ended.
unfoldable pub loop_step : Delivery → Option Delivery
loop_step d = loop_at d.position d

-- Steps of the three threads, in any order.
pub data Step : Delivery → Delivery → Type 0 where
  put : (f : SuperFrame) (d : Delivery) → Step d (put_frame f d)
  stop : (d : Delivery) → Step d (stop_running d)
  loop : (d t : Delivery) → loop_step d ≡ some t → Step d t

pub data Steps (d : Delivery) : Delivery → Type 0 where
  here : Steps d d
  on : {t u : Delivery} → Steps d t → Step t u → Steps d u
