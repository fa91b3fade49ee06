-- ===== src/Exec/Registry/Shutdown.antt =====
-- `kill_registered_execs` of server/src/fs_handlers.rs.
use emacs_relay.Common.{
  ℕ, ◌≡◌, refl, ap, Bool, true, false, ◌||◌, List, [], ◌∷◌, ◌==◌, if◌then◌else◌, ==_iff, sym,
}
use mathlib.Core.List.{Memᴰ}
use mathlib.Core.List.Memᴰ
use emacs_relay.Exec.Registry.{
  Call, killpg, Execs, is_registered, add_group, register_group, kill_all, kill_registered_execs,
}

-- The calls of before stay, and each group is added.
kill_all-later :
    (groups : List ℕ) (calls : List Call) (c : Call) → Memᴰ c calls → Memᴰ c (kill_all groups calls)
kill_all-later [] calls c h = h
kill_all-later (p ∷ ps) calls c h = kill_all-later ps (killpg p ∷ calls) c (Memᴰ.tail h)

kill_all-reaches :
    (groups : List ℕ) (calls : List Call) (pgid : ℕ)
    → Memᴰ pgid groups
    → Memᴰ (killpg pgid) (kill_all groups calls)
kill_all-reaches [] calls pgid h = elim h [ ]
kill_all-reaches (p ∷ ps) calls pgid (Memᴰ.head e) =
    kill_all-later ps (killpg p ∷ calls) (killpg pgid) (Memᴰ.head (ap killpg e))
kill_all-reaches (p ∷ ps) calls pgid (Memᴰ.tail m) = kill_all-reaches ps (killpg p ∷ calls) pgid m

head_or_tail :
    (pgid p : ℕ) (ps : List ℕ) (b : Bool)
    → (p == pgid) ≡ b
    → (is_registered pgid ps ≡ true → Memᴰ pgid ps)
    → (b || is_registered pgid ps) ≡ true
    → Memᴰ pgid (p ∷ ps)
head_or_tail pgid p ps true e ih h = Memᴰ.head (sym ((==_iff p pgid).0 e))
head_or_tail pgid p ps false e ih h = Memᴰ.tail (ih h)

is_registered-Mem :
    (pgid : ℕ) (groups : List ℕ) → is_registered pgid groups ≡ true → Memᴰ pgid groups
is_registered-Mem pgid [] h = cc
is_registered-Mem pgid (p ∷ ps) h =
    head_or_tail pgid p ps (p == pgid) refl (is_registered-Mem pgid ps) h

add_group-Mem :
    (pgid p : ℕ) (groups : List ℕ) → Memᴰ p (pgid ∷ groups) → Memᴰ p (add_group pgid groups)
add_group-Mem pgid p groups h = go (is_registered pgid groups) refl h
  where
    go :
        (b : Bool)
        → is_registered pgid groups ≡ b
        → Memᴰ p (pgid ∷ groups)
        → Memᴰ p (if b then groups else pgid ∷ groups)
    go true e (Memᴰ.head q) = Memᴰ.cast q (is_registered-Mem pgid groups e)
    go true e (Memᴰ.tail m) = m
    go false e m = m

-- A shutdown while a child runs sends SIGKILL to its group and to every other registered one, and empties
-- the registry.
pub kill_registered_execs-reaches :
    (pgid : ℕ) (s : Execs)
    → ((kill_registered_execs (register_group pgid s)).registered ≡ [])
      × ((p : ℕ)
          → Memᴰ p (pgid ∷ s.registered)
          → Memᴰ (killpg p) (kill_registered_execs (register_group pgid s)).calls)
unfolding kill_registered_execs register_group
kill_registered_execs-reaches pgid s = (
  refl,
  λ p h.
      kill_all-reaches (add_group pgid s.registered) s.calls p
        (add_group-Mem pgid p s.registered h),
)
