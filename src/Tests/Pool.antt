-- ===== src/Tests/Pool.antt =====
-- The threads at a sample: a worker has a request, and an event is written.
use emacs_relay.Common.{◌≡◌, refl, [], ◌∷◌, List, ℕ, ◌≤◌, length, set, replicate, All, arith}
use emacs_relay.Framing.Replies.{Fits}
use emacs_relay.Handlers.Dispatch.{handle_fs}
use emacs_relay.Main.{frame, write_frames, read_frames}
use emacs_relay.Main.Pool.{
  writer_queue_capacity, fs_worker_count, fs_job_queue_capacity, waiting, replying, Pool, new_pool,
  Run, begin, enqueue, dequeue, notify, put,
}
use emacs_relay.Main.Pool.Sound.{IsSingle, Run-IsSound}
use emacs_relay.Tests.Samples.{abc, start}
use emacs_relay.Tests.Handlers.{J, host, coded, no_exec, listens, stat_of_f}

abbrev reply_of_f : List (List ℕ)
reply_of_f = (handle_fs J host coded no_exec listens stat_of_f [] start).0

abbrev queued_f : Pool J
queued_f = record (new_pool J) { jobs = stat_of_f ∷ [] }

abbrev taken_f : Pool J
taken_f = record (new_pool J) {
  workers = set (replicate fs_worker_count waiting) 2 (replying reply_of_f);
}

abbrev notified : Pool J
notified = record (taken_f) { channel = abc ∷ [] }

abbrev written_abc : Pool J
written_abc = record (taken_f) { output = frame abc }

abbrev TestRun : List J.Value → List (List ℕ) → List J.Value → List (List ℕ) → Pool J → Type 0
TestRun = Run J host coded no_exec listens

one_queued : TestRun (stat_of_f ∷ []) [] [] [] queued_f
one_queued = enqueue [] [] [] [] (new_pool J) stat_of_f begin (omega arith)

one_taken : TestRun (stat_of_f ∷ []) [] (stat_of_f ∷ []) [] taken_f
one_taken =
    dequeue (stat_of_f ∷ []) [] [] [] queued_f stat_of_f [] 2 reply_of_f one_queued refl
      (omega arith) refl ([], start, refl)

one_notified : TestRun (stat_of_f ∷ []) (abc ∷ []) (stat_of_f ∷ []) [] notified
one_notified = notify (stat_of_f ∷ []) [] (stat_of_f ∷ []) [] taken_f abc one_taken (omega arith)

one_written : TestRun (stat_of_f ∷ []) (abc ∷ []) (stat_of_f ∷ []) (abc ∷ []) written_abc
one_written = put (stat_of_f ∷ []) (abc ∷ []) (stat_of_f ∷ []) [] notified abc [] one_notified refl

Run-IsSound_example :
    (0 ≤ fs_job_queue_capacity)
    × (0 ≤ writer_queue_capacity)
    × (◌≡◌ {A = List J.Value} (stat_of_f ∷ []) (stat_of_f ∷ []))
    × (frame abc ≡ write_frames (abc ∷ []))
    × (All (IsSingle J host coded no_exec listens) (stat_of_f ∷ [])
        → All (Fits J) (abc ∷ [])
        → read_frames (length (frame abc)) (frame abc) ≡ abc ∷ [])
Run-IsSound_example =
    Run-IsSound J host coded no_exec listens (stat_of_f ∷ []) (abc ∷ []) (stat_of_f ∷ []) (abc ∷ [])
      written_abc one_written
