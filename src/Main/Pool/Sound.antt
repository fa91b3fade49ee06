-- ===== src/Main/Pool/Sound.antt =====
-- What holds in every interleaving of the threads of server/src/main.rs.
use emacs_relay.Common.{
  append_cancel, All-append, All-front, All-back, All-set, All-get_or, ℕ, ◌≤◌, ◌≡◌, refl, ap, sym,
  subst, ◌∙◌, String, Bool, false, List, [], ◌∷◌, ◌++◌, append-nil, append_assoc, length,
  length-append, length-set, All, str_eq, arith, inl, inr,
}
use emacs_relay.Fs.{M}
use emacs_relay.Json.{Json}
use emacs_relay.Framing.Replies.{Fits}
use emacs_relay.Control.{Host, text_of}
use emacs_relay.Handlers.{Base64}
use emacs_relay.Handlers.Dispatch.{handle_fs}
use emacs_relay.Handlers.Replied.{AtMostOne, handle_fs-AtMostOne}
use emacs_relay.Main.{frame, write_frames, read_frames}
use emacs_relay.Main.Frames.{read_frames-write_frames}
use emacs_relay.Main.Pool.{
  writer_queue_capacity, fs_worker_count, fs_job_queue_capacity, Worker, waiting, replying, Pool,
  Handles, Run, begin, enqueue, dequeue, reply, finish, notify, put,
}

write_frames-snoc :
    (written : List (List ℕ)) (p : List ℕ)
    → write_frames (written ++ (p ∷ [])) ≡ write_frames written ++ frame p
unfolding write_frames
write_frames-snoc [] p = append-nil (frame p)
write_frames-snoc (q ∷ written) p =
    ap (λ t. frame q ++ t) (write_frames-snoc written p)
    ∙ sym (append_assoc (frame q) (write_frames written) (frame p))

module _ (J : Json) (host : Host) (B : Base64) (exec : J.Value → M String J.Value)
    (listening : ℕ → Bool) where
  -- A request for one reply.
  abbrev pub IsSingle : J.Value → Type 0
  IsSingle req = str_eq (text_of J host req "op") "readdir" ≡ false

  abbrev FitsAll : Worker → Type 0
  FitsAll waiting = Unit
  FitsAll (replying left) = All (Fits J) left

  single-Fits :
      (req : J.Value) (payloads : List (List ℕ))
      → IsSingle req
      → Handles J host B exec listening req payloads
      → All (Fits J) payloads
  single-Fits req payloads h (tx, w, e) =
      go (handle_fs-AtMostOne J host B exec listening req tx w h)
    where
      go : AtMostOne J tx (handle_fs J host B exec listening req tx w).0 → All (Fits J) payloads
      go (inl q) =
          subst (All (Fits J))
            (sym (append_cancel tx payloads [] (sym e ∙ q ∙ sym (append-nil tx)))) tt
      go (inr (p, q, fits)) =
          subst (All (Fits J)) (sym (append_cancel tx payloads (p ∷ []) (sym e ∙ q))) (fits, tt)

  -- What every step keeps. The last part is for payloads that fit a frame.
  record IsOrderly (queued : List J.Value) (others : List (List ℕ)) (taken : List J.Value)
      (written : List (List ℕ)) (s : Pool J) : Type 0 where
    jobs : length s.jobs ≤ fs_job_queue_capacity
    workers : length s.workers ≡ fs_worker_count
    channel : length s.channel ≤ writer_queue_capacity
    order : queued ≡ taken ++ s.jobs
    output : s.output ≡ write_frames written
    fits :
        All IsSingle queued
        → All (Fits J) others
        → All FitsAll s.workers × All (Fits J) s.channel × All (Fits J) written

  Run-IsOrderly :
      (queued : List J.Value) (others : List (List ℕ)) (taken : List J.Value)
      (written : List (List ℕ)) (s : Pool J)
      → Run J host B exec listening queued others taken written s
      → IsOrderly queued others taken written s
  unfolding write_frames
  Run-IsOrderly _ _ _ _ _ begin = record {
    jobs = omega arith;
    workers = refl;
    channel = omega arith;
    order = refl;
    output = refl;
    fits = λ h k. ((tt, (tt, (tt, (tt, (tt, (tt, (tt, (tt, tt)))))))), tt, tt);
  }
  Run-IsOrderly _ _ _ _ _ (enqueue queued others taken written s req run room) =
      let k = Run-IsOrderly queued others taken written s run in
      record {
        jobs = omega (arith, length-append s.jobs (req ∷ []));
        workers = k.workers;
        channel = k.channel;
        order = ap (λ q. q ++ (req ∷ [])) k.order ∙ append_assoc taken s.jobs (req ∷ []);
        output = k.output;
        fits = λ h o. k.fits (All-front IsSingle queued (req ∷ []) h) o;
      }
  Run-IsOrderly _ _ _ _ _
        (dequeue queued others taken written s req rest i payloads run head below idle handles) =
      let k = Run-IsOrderly queued others taken written s run in
      let order : queued ≡ (taken ++ (req ∷ [])) ++ rest =
        k.order ∙ ap (λ j. taken ++ j) head ∙ sym (append_assoc taken (req ∷ []) rest) in
      record {
        jobs = omega (arith, k.jobs, ap length head);
        workers = length-set s.workers i (replying payloads) ∙ k.workers;
        channel = k.channel;
        order = order;
        output = k.output;
        fits = λ h o.
            let (w, c, p) = k.fits h o in
            let single : All IsSingle (taken ++ (req ∷ [])) =
              All-front IsSingle (taken ++ (req ∷ [])) rest (subst (All IsSingle) order h) in
            (
              All-set FitsAll s.workers i (replying payloads) w
                  (single-Fits req payloads (All-back IsSingle taken (req ∷ []) single).0 handles),
              c,
              p,
            );
      }
  Run-IsOrderly _ _ _ _ _ (reply queued others taken written s i p left run at room) =
      let k = Run-IsOrderly queued others taken written s run in
      record {
        jobs = k.jobs;
        workers = length-set s.workers i (replying left) ∙ k.workers;
        channel = omega (arith, length-append s.channel (p ∷ []));
        order = k.order;
        output = k.output;
        fits = λ h o.
            let (w, c, q) = k.fits h o in
            let own : All (Fits J) (p ∷ left) =
              subst FitsAll at (All-get_or FitsAll s.workers i waiting w tt) in
            (
              All-set FitsAll s.workers i (replying left) w own.1,
              All-append (Fits J) s.channel (p ∷ []) c (own.0, tt),
              q,
            );
      }
  Run-IsOrderly _ _ _ _ _ (finish queued others taken written s i run at) =
      let k = Run-IsOrderly queued others taken written s run in
      record {
        jobs = k.jobs;
        workers = length-set s.workers i waiting ∙ k.workers;
        channel = k.channel;
        order = k.order;
        output = k.output;
        fits =
            λ h o. let (w, c, q) = k.fits h o in (All-set FitsAll s.workers i waiting w tt, c, q);
      }
  Run-IsOrderly _ _ _ _ _ (notify queued others taken written s p run room) =
      let k = Run-IsOrderly queued others taken written s run in
      record {
        jobs = k.jobs;
        workers = k.workers;
        channel = omega (arith, length-append s.channel (p ∷ []));
        order = k.order;
        output = k.output;
        fits = λ h o.
            let (w, c, q) = k.fits h (All-front (Fits J) others (p ∷ []) o) in
            (w, All-append (Fits J) s.channel (p ∷ []) c (All-back (Fits J) others (p ∷ []) o), q);
      }
  Run-IsOrderly _ _ _ _ _ (put queued others taken written s p rest run at) =
      let k = Run-IsOrderly queued others taken written s run in
      record {
        jobs = k.jobs;
        workers = k.workers;
        channel = omega (arith, k.channel, ap length at);
        order = k.order;
        output = ap (λ t. t ++ frame p) k.output ∙ sym (write_frames-snoc written p);
        fits = λ h o.
            let (w, c, q) = k.fits h o in
            let front : All (Fits J) (p ∷ rest) = subst (All (Fits J)) at c in
            (w, front.1, All-append (Fits J) written (p ∷ []) q (front.0, tt));
      }

  -- In every interleaving of the main loop, the eight workers, the watcher and the writer: at most 64
  -- requests and 64 payloads are queued; the requests are taken each once and in the order in which they
  -- came; and the bytes written are whole frames, one after the other. If no request is a readdir and
  -- the payloads of the main loop and of the watcher fit a frame, the client reads back from the bytes
  -- written exactly the payloads written.
  pub Run-IsSound :
      (queued : List J.Value) (others : List (List ℕ)) (taken : List J.Value)
      (written : List (List ℕ)) (s : Pool J)
      → Run J host B exec listening queued others taken written s
      → (length s.jobs ≤ fs_job_queue_capacity)
        × (length s.channel ≤ writer_queue_capacity)
        × (queued ≡ taken ++ s.jobs)
        × (s.output ≡ write_frames written)
        × (All IsSingle queued
            → All (Fits J) others
            → read_frames (length s.output) s.output ≡ written)
  Run-IsSound queued others taken written s run =
      let k = Run-IsOrderly queued others taken written s run in
      (
        k.jobs,
        k.channel,
        k.order,
        k.output,
        λ h o.
            ap (λ t. read_frames (length t) t) k.output
            ∙ read_frames-write_frames written (k.fits h o).2,
      )
