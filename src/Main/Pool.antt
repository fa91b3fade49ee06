-- ===== src/Main/Pool.antt =====
-- The threads of server/src/main.rs: the main loop that queues requests, the eight workers that handle
-- them, and the writer thread. Both queues are bounded, and a full one holds its senders up. The threads
-- interleave in any order: each step is one of them getting on.
pub mod Sound
use emacs_relay.Common.{
  ℕ, ◌<◌, ◌≡◌, String, Bool, List, [], ◌∷◌, ◌++◌, length, set, get_or, replicate,
}
use emacs_relay.Fs.{World, M}
use emacs_relay.Json.{Json}
use emacs_relay.Framing.{Channel}
use emacs_relay.Control.{Host}
use emacs_relay.Handlers.{Base64}
use emacs_relay.Handlers.Dispatch.{handle_fs}
use emacs_relay.Main.{frame}

abbrev pub writer_queue_capacity : ℕ
writer_queue_capacity = 64

abbrev pub fs_worker_count : ℕ
fs_worker_count = 8

abbrev pub fs_job_queue_capacity : ℕ
fs_job_queue_capacity = 64

-- A worker waits for a request, or has payloads of its reply yet to send.
pub data Worker : Type 0 where
  waiting : Worker
  replying : List (List ℕ) → Worker

module _ (J : Json) where
  -- The queue of requests, the workers, the queue to the writer, and the bytes on stdout.
  pub record Pool : Type 0 where
    pub jobs : List J.Value
    pub workers : List Worker
    pub channel : Channel J
    pub output : List ℕ

  abbrev pub new_pool : Pool
  new_pool = record {
    jobs = [];
    workers = replicate fs_worker_count waiting;
    channel = [];
    output = [];
  }

  module _ (host : Host) (B : Base64) (exec : J.Value → M String J.Value)
      (listening : ℕ → Bool) where
    -- Payloads that `handle_fs` sends for a request, in some world.
    abbrev pub Handles : J.Value → List (List ℕ) → Type 0
    Handles req payloads =
        (tx : Channel J) × (w : World) × ((handle_fs J host B exec listening req tx w).0
          ≡ tx ++ payloads)

    -- The runs of the threads: the requests queued so far, the payloads that others sent (replies of the
    -- main loop and watch events), the requests taken by workers, and the payloads written.
    pub data Run
        : (queued : List J.Value) (others : List (List ℕ)) (taken : List J.Value)
            (written : List (List ℕ))
          → Pool
          → Type 0 where
      begin : Run [] [] [] [] new_pool
      enqueue :
          (queued : List J.Value) (others : List (List ℕ)) (taken : List J.Value)
          (written : List (List ℕ)) (s : Pool) (req : J.Value)
          → Run queued others taken written s
          → length s.jobs < fs_job_queue_capacity
          → Run
              (queued ++ (req ∷ []))
              others
              taken
              written
              (record s { jobs = s.jobs ++ (req ∷ []) })
      dequeue :
          (queued : List J.Value) (others : List (List ℕ)) (taken : List J.Value)
          (written : List (List ℕ)) (s : Pool) (req : J.Value) (rest : List J.Value) (i : ℕ)
          (payloads : List (List ℕ))
          → Run queued others taken written s
          → s.jobs ≡ req ∷ rest
          → i < fs_worker_count
          → get_or s.workers i waiting ≡ waiting
          → Handles req payloads
          → Run queued others
              (taken ++ (req ∷ []))
              written
              (record s { jobs = rest; workers = set s.workers i (replying payloads) })
      reply :
          (queued : List J.Value) (others : List (List ℕ)) (taken : List J.Value)
          (written : List (List ℕ)) (s : Pool) (i : ℕ) (p : List ℕ) (left : List (List ℕ))
          → Run queued others taken written s
          → get_or s.workers i waiting ≡ replying (p ∷ left)
          → length s.channel < writer_queue_capacity
          → Run queued others taken written (record s {
            workers = set s.workers i (replying left);
            channel = s.channel ++ (p ∷ []);
          })
      finish :
          (queued : List J.Value) (others : List (List ℕ)) (taken : List J.Value)
          (written : List (List ℕ)) (s : Pool) (i : ℕ)
          → Run queued others taken written s
          → get_or s.workers i waiting ≡ replying []
          → Run queued others taken written (record s { workers = set s.workers i waiting })
      notify :
          (queued : List J.Value) (others : List (List ℕ)) (taken : List J.Value)
          (written : List (List ℕ)) (s : Pool) (p : List ℕ)
          → Run queued others taken written s
          → length s.channel < writer_queue_capacity
          → Run queued
              (others ++ (p ∷ []))
              taken
              written
              (record s { channel = s.channel ++ (p ∷ []) })
      put :
          (queued : List J.Value) (others : List (List ℕ)) (taken : List J.Value)
          (written : List (List ℕ)) (s : Pool) (p : List ℕ) (rest : List (List ℕ))
          → Run queued others taken written s
          → s.channel ≡ p ∷ rest
          → Run queued others taken
              (written ++ (p ∷ []))
              (record s { channel = rest; output = s.output ++ frame p })
