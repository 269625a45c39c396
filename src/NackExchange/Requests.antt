-- ===== src/NackExchange/Requests.antt =====
-- What the sender queues for the fragments that a NACK asks for (`receiveNack`).
use new_efp.Common.{
  none, some, not, ◌&&◌, if◌then◌else◌, Option-cases, ℕ, zero, suc, ◌+◌, ◌*◌, ◌%◌, ◌^◌, ◌≤◌, ◌≡◌,
  refl, ap, sym, subst, ◌∙◌, List, [], ◌∷◌, ◌++◌, ◌==◌, arith, Bool-cases, inl, inr,
}
use mathlib.Core.List.{append_assoc, append-nil}
use new_efp.Common.Table.{lookup, member}
use new_efp.Receiver.State.{Bucket}
use new_efp.Receiver.Nack.{entry_of}
use new_efp.Receiver.NackScan.{run}
use new_efp.Sender.State.{Sender, Request, RetainedFragment}
use new_efp.Sender.Api.{queue_retransmit, queue_range}

-- A request for one fragment of a bucket's frame.
abbrev pub ask : Bucket → ℕ → Sender → Sender
ask b n s = queue_retransmit (entry_of b 0 0) n s

-- The requests, one after the other.
unfoldable pub ask_all : Bucket → List ℕ → Sender → Sender
ask_all b [] s = s
ask_all b (n ∷ ns) s = ask_all b ns (ask b n s)

pub ask_all-append :
    (b : Bucket) (ms ns : List ℕ) (s : Sender)
    → ask_all b (ms ++ ns) s ≡ ask_all b ns (ask_all b ms s)
unfolding ask_all
ask_all-append b [] ns s = refl
ask_all-append b (m ∷ ms) ns s = ask_all-append b ms ns (ask b m s)

pub queue_range-ask_all :
    (count : ℕ) (b : Bucket) (start c n : ℕ) (s : Sender)
    → n + count ≤ 65_536
    → queue_range count (entry_of b start c) n s ≡ ask_all b (run n count) s
unfolding queue_range ask_all run queue_retransmit
queue_range-ask_all zero b start c n s h = refl
queue_range-ask_all (suc count) b start c n s h =
    let small : n % 2 ^ 16 ≡ n = omega arith in
    rw small (queue_range-ask_all count b start c (n + 1) _ (omega arith))

-- The requests that a NACK for fragments of a frame adds to the queue: one for each of them that is
-- retained for that stream and stands in the queue neither before nor for an earlier one.
unfoldable pub requested : Bucket → List (ℕ × RetainedFragment) → List ℕ → List ℕ → List Request
requested b retained queued [] = []
requested b retained queued (n ∷ ns) = elim (lookup (b.saved_frame_no * 65_536 + n) retained) [
  | none ↦ requested b retained queued ns
  | some f ↦
      let new = requested b retained (f.generation ∷ queued) ns in
      let old = requested b retained queued ns in
      if f.stream_id == b.stream_id && not (member f.generation queued)
      then record { key = b.saved_frame_no * 65_536 + n; generation = f.generation } ∷ new
      else old
]

-- Those requests were added to a sender's queue; its packets stay, and none is sent.
pub record Asked (b : Bucket) (ns : List ℕ) (s t : Sender) : Type 0 where
  pub queue :
      t.retransmit_queue
      ≡ s.retransmit_queue ++ requested b s.retention_buffer s.queued_retransmits ns
  pub retention_buffer : t.retention_buffer ≡ s.retention_buffer
  pub sent : t.sent ≡ s.sent

ask-none :
    (b : Bucket) (n : ℕ) (s : Sender)
    → lookup (b.saved_frame_no * 65_536 + n) s.retention_buffer ≡ none
    → ask b n s ≡ s
unfolding queue_retransmit
ask-none b n s e = rw (e, queue_retransmit) refl

ask-some :
    (b : Bucket) (n : ℕ) (s : Sender) (f : RetainedFragment)
    → lookup (b.saved_frame_no * 65_536 + n) s.retention_buffer ≡ some f
    → ask b n s ≡ (
        if f.stream_id == b.stream_id && not (member f.generation s.queued_retransmits)
        then record s {
          queued_retransmits = f.generation ∷ s.queued_retransmits;
          retransmit_queue =
              s.retransmit_queue
              ++ (record { key = b.saved_frame_no * 65_536 + n; generation = f.generation } ∷ []);
        }
        else s)
unfolding queue_retransmit
ask-some b n s f e = rw (e, queue_retransmit) refl

requested-none :
    (b : Bucket) (n : ℕ) (ns : List ℕ) (retained : List (ℕ × RetainedFragment)) (queued : List ℕ)
    → lookup (b.saved_frame_no * 65_536 + n) retained ≡ none
    → requested b retained queued (n ∷ ns) ≡ requested b retained queued ns
unfolding requested
requested-none b n ns retained queued e = rw (e, requested) refl

requested-some :
    (b : Bucket) (n : ℕ) (ns : List ℕ) (retained : List (ℕ × RetainedFragment)) (queued : List ℕ)
    (f : RetainedFragment)
    → lookup (b.saved_frame_no * 65_536 + n) retained ≡ some f
    → requested b retained queued (n ∷ ns) ≡ (
        if f.stream_id == b.stream_id && not (member f.generation queued)
        then record { key = b.saved_frame_no * 65_536 + n; generation = f.generation }
          ∷ requested b retained (f.generation ∷ queued) ns
        else requested b retained queued ns)
unfolding requested
requested-some b n ns retained queued f e = rw (e, requested) refl

unchanged :
    (b : Bucket) (n : ℕ) (ns : List ℕ) (s : Sender)
    → Asked b ns s (ask_all b ns s)
    → ask b n s ≡ s
    → requested b s.retention_buffer s.queued_retransmits (n ∷ ns)
      ≡ requested b s.retention_buffer s.queued_retransmits ns
    → Asked b (n ∷ ns) s (ask_all b ns (ask b n s))
unchanged b n ns s rest same less =
    subst (λ t. Asked b (n ∷ ns) s (ask_all b ns t)) (sym same)
      (record {
        queue = rest.queue ∙ ap (◌++◌ s.retransmit_queue) (sym less);
        retention_buffer = rest.retention_buffer;
        sent = rest.sent;
      })

pub ask_all-Asked : (b : Bucket) (ns : List ℕ) (s : Sender) → Asked b ns s (ask_all b ns s)
unfolding ask_all requested
ask_all-Asked b [] s = record {
  queue = sym (append-nil s.retransmit_queue);
  retention_buffer = refl;
  sent = refl;
}
ask_all-Asked b (n ∷ ns) s =
    elim (Option-cases (lookup (b.saved_frame_no * 65_536 + n) s.retention_buffer)) [
      | inl gone ↦
          unchanged b n ns s (ask_all-Asked b ns s) (ask-none b n s gone)
            (requested-none b n ns _ _ gone)
      | inr (f, kept) ↦
          elim (Bool-cases
            (f.stream_id == b.stream_id && not (member f.generation s.queued_retransmits))) [
              | inr old ↦
                  unchanged b n ns s (ask_all-Asked b ns s) (ask-some b n s f kept ∙ rw old refl)
                    (requested-some b n ns _ _ f kept ∙ rw old refl)
              | inl new ↦
                  let request : Request = record {
                    key = b.saved_frame_no * 65_536 + n;
                    generation = f.generation;
                  } in
                  let u : Sender = record s {
                    queued_retransmits = f.generation ∷ s.queued_retransmits;
                    retransmit_queue = s.retransmit_queue ++ (request ∷ []);
                  } in
                  let rest = ask_all-Asked b ns u in
                  let added =
                    requested-some b n ns s.retention_buffer s.queued_retransmits f kept in
                  let step : ask b n s ≡ u = ask-some b n s f kept ∙ rw new refl in
                  subst (λ t. Asked b (n ∷ ns) s (ask_all b ns t)) (sym step)
                    (record {
                      queue =
                          rest.queue
                          ∙ append_assoc s.retransmit_queue (request ∷ []) _
                          ∙ ap (◌++◌ s.retransmit_queue) (sym (added ∙ rw new refl));
                      retention_buffer = rest.retention_buffer;
                      sent = rest.sent;
                    })
            ]
    ]

pub ask_all-statistics :
    (b : Bucket) (ns : List ℕ) (s : Sender)
    → (ask_all b ns s).statistics.nacks_received ≡ s.statistics.nacks_received
unfolding ask_all queue_retransmit
ask_all-statistics b [] s = refl
ask_all-statistics b (n ∷ ns) s = ask_all-statistics b ns (ask b n s) ∙ ground arith
