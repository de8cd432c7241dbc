-- ===== src/Mutex/Exclusion.antt =====
-- sync/mutex.go: mutual exclusion.
use gocore.Common.{
  ℕ, suc, ◌+◌, ◌*◌, ◌/◌, ◌-◌, ◌%◌, ◌≤◌, ◌≡◌, refl, ap, ◌⊎◌, inl, inr, Bool, true, false, ◌||◌, List,
  [], ◌∷◌, ◌++◌, some, arith, length, length-append, All,
}
use gocore.Common.Run.{ok}
use gocore.Mutex.{locked, starving, try_lock, spin, wanted, handed, unlock, release, wake}
use gocore.Mutex.Steps.{
  State, Handing, Step, fast, try_it, spin_it, take, take_awake, queue, queue_awake, wake_up,
  read_starving, hand, let_go, wake_one, Reach, start, later, given,
}

-- The bits mutexWoken and mutexStarving.
abbrev woken_bit : ℕ → ℕ
woken_bit w = w / 2 % 2

abbrev starving_bit : ℕ → ℕ
starving_bit w = w / 4 % 2

try_lock-takes :
    (w new : ℕ) → try_lock w ≡ some new → (w % 2 ≡ 0) × (starving_bit w ≡ 0) × (new ≡ w + 1)
unfolding try_lock
try_lock-takes w new h = ground arith

spin-wakes :
    (w new : ℕ)
    → spin w false ≡ some new
    → (w % 2 ≡ 1) × (starving_bit w ≡ 0) × (woken_bit w ≡ 0) × (new ≡ w + 2)
unfolding spin
spin-wakes w new h = ground arith

is_free : (w : ℕ) → (locked w || starving w) ≡ false → (w % 2 ≡ 0) × (starving_bit w ≡ 0)
is_free w h = ground arith

is_busy : (w : ℕ) → (locked w || starving w) ≡ true → (w % 2 ≡ 1) ⊎ (starving_bit w ≡ 1)
is_busy w h = ground arith

wanted-takes :
    (w new : ℕ) → (locked w || starving w) ≡ false → wanted w false false ≡ ok new → new ≡ w + 1
unfolding wanted
wanted-takes w new free h = ground arith

wanted-takes_awake :
    (w new : ℕ) (hungry : Bool)
    → (locked w || starving w) ≡ false
    → wanted w hungry true ≡ ok new
    → (woken_bit w ≡ 1) × (new + 1 ≡ w)
unfolding wanted
wanted-takes_awake w new hungry free h = ground arith

wanted-queues :
    (w new : ℕ) → (locked w || starving w) ≡ true → wanted w false false ≡ ok new → new ≡ w + 8
unfolding wanted
wanted-queues w new busy h = ground arith

wanted-queues_awake :
    (w new : ℕ) (hungry : Bool)
    → starving_bit w ≡ 0
    → (locked w || starving w) ≡ true
    → wanted w hungry true ≡ ok new
    → (woken_bit w ≡ 1) × ((new ≡ w + 6) ⊎ (new ≡ w + 10))
unfolding wanted
wanted-queues_awake w new hungry calm busy h = ground arith

handed-takes :
    (w new : ℕ) (hungry : Bool)
    → starving w ≡ true
    → handed w hungry ≡ ok new
    → (w % 2 ≡ 0) × (woken_bit w ≡ 0) × (starving_bit w ≡ 1) × ((new + 7 ≡ w) ⊎ (new + 11 ≡ w))
unfolding handed
handed-takes w new hungry mode h = ground arith

unlock-frees : (w new : ℕ) → unlock w ≡ ok new → (w % 2 ≡ 1) × (new + 1 ≡ w)
unfolding unlock
unlock-frees w new h = ground arith

release-wakes :
    (w new : ℕ)
    → release w ≡ wake new
    → (w % 2 ≡ 0) × (starving_bit w ≡ 0) × (woken_bit w ≡ 0) × (new + 6 ≡ w)
unfolding release
release-wakes w new h = ground arith

given_starving :
    (w permits : ℕ)
    → ((starving_bit w ≡ 1) × (given w permits ≡ suc permits))
      ⊎ ((starving_bit w ≡ 0) × (given w permits ≡ permits))
given_starving w permits = ground arith

-- A handover that is not done: only waiters have queued since the word was read.
record IsPending (w : ℕ) (h : Handing) : Type 0 where
  queued : ℕ
  word : w ≡ h.old + queued * 8
  free : (h.old % 2 ≡ 0) × (woken_bit h.old ≡ 0) × (starving_bit h.old ≡ 1)
  change : (h.new + 7 ≡ h.old) ⊎ (h.new + 11 ≡ h.old)

-- The lock bit says whether there is a holder. In normal mode the woken bit says whether there is a caller that was
-- woken, or is about to be, and no handover is under way. In starving mode there are no callers that are awake, and there
-- is a holder or one handover, of which the permit is released or taken.
pub record IsFair (s : State) : Type 0 where
  pub marked : s.holders ≡ s.word % 2
  calm : starving_bit s.word ≡ 0 → (s.permits + s.awake ≡ woken_bit s.word) × (s.handing ≡ [])
  stirred :
      starving_bit s.word ≡ 1
      → (s.awake ≡ 0) × (woken_bit s.word ≡ 0) × (s.word % 2 + s.permits + length s.handing ≡ 1)
  pending : All (IsPending s.word) s.handing

nothing-IsPending : (w : ℕ) (hs : List Handing) → hs ≡ [] → All (IsPending w) hs
nothing-IsPending w hs e = rw e tt

is_nil : (hs : List Handing) → length hs ≡ 0 → hs ≡ []
is_nil [] e = refl
is_nil (h ∷ hs) e = absurd (omega (arith, e))

more_queued : (w : ℕ) (hs : List Handing) → All (IsPending w) hs → All (IsPending (w + 8)) hs
more_queued w [] p = tt
more_queued w (h ∷ hs) p = (
  record {
    queued = suc p.0.queued;
    word = omega (arith, p.0.word);
    free = p.0.free;
    change = p.0.change;
  },
  more_queued w hs p.1,
)

-- A word in normal mode.
calm-IsFair :
    {s : State}
    → s.holders ≡ s.word % 2
    → starving_bit s.word ≡ 0
    → s.permits + s.awake ≡ woken_bit s.word
    → s.handing ≡ []
    → IsFair s
calm-IsFair {s} m c p e = record {
  marked = m;
  calm = λ _. (p, e);
  stirred = λ f. absurd (omega (arith, c, f));
  pending = nothing-IsPending s.word s.handing e;
}

All-at :
    (P : Handing → Type 0) (before after : List Handing) (h : Handing)
    → All P (before ++ h ∷ after)
    → P h
All-at P [] after h p = p.0
All-at P (x ∷ before) after h p = All-at P before after h p.1

Step-IsFair : {s t : State} → Step s t → IsFair s → IsFair t
Step-IsFair {s} (fast e) f =
    let c = f.calm (omega (arith, e)) in
    calm-IsFair (omega (arith, e, f.marked)) (omega arith) (omega (arith, e, c.0)) c.1
Step-IsFair {s} (try_it {new} h) f =
    let (free, quiet, n) = try_lock-takes s.word new h in
    let c = f.calm quiet in
    calm-IsFair (omega (arith, n, free, f.marked)) (omega (arith, n, free, quiet))
      (omega (arith, n, free, c.0)) c.1
Step-IsFair {s} (spin_it {new} h) f =
    let (busy, quiet, asleep, n) = spin-wakes s.word new h in
    let c = f.calm quiet in
    calm-IsFair (omega (arith, n, f.marked)) (omega (arith, n, quiet, asleep))
      (omega (arith, n, asleep, c.0)) c.1
Step-IsFair {s} (take {new} free h) f =
    let (open_, quiet) = is_free s.word free in
    let n = wanted-takes s.word new free h in
    let c = f.calm quiet in
    calm-IsFair (omega (arith, n, open_, f.marked)) (omega (arith, n, open_, quiet))
      (omega (arith, n, open_, c.0)) c.1
Step-IsFair {s} (take_awake {new} {n = k} hungry a free h) f =
    let (open_, quiet) = is_free s.word free in
    let (woke, n) = wanted-takes_awake s.word new hungry free h in
    let c = f.calm quiet in
    calm-IsFair (omega (arith, n, open_, f.marked)) (omega (arith, n, open_, quiet, woke))
      (omega (arith, n, open_, woke, a, c.0)) c.1
Step-IsFair {s} (queue {new} busy h) f =
    let n = wanted-queues s.word new busy h in
    rw n (record {
      marked = omega (arith, f.marked);
      calm = λ e. let c = f.calm (omega (arith, e)) in (omega (arith, c.0), c.1);
      stirred = λ e.
          let d = f.stirred (omega (arith, e)) in (d.0, omega (arith, d.1), omega (arith, d.2));
      pending = more_queued s.word s.handing f.pending;
    })
Step-IsFair {s} (queue_awake {new} {n = k} hungry a busy h) f =
    let quiet : starving_bit s.word ≡ 0 = normal s a f in
    let (woke, n) = wanted-queues_awake s.word new hungry quiet busy h in
    let c = f.calm quiet in
    let held : s.word % 2 ≡ 1 = elim (is_busy s.word busy) [
      | inl l ↦ l
      | inr g ↦ absurd (omega (arith, quiet, g))
    ] in
    record {
      marked = elim n [ inl p ↦ omega (arith, p, f.marked) | inr p ↦ omega (arith, p, f.marked) ];
      calm = λ e. elim n [
        | inl p ↦ (omega (arith, p, woke, a, c.0), c.1)
        | inr p ↦ absurd (omega (arith, p, woke, quiet, e))
      ];
      stirred = λ e. elim n [
        | inl p ↦ absurd (omega (arith, p, woke, quiet, e))
        | inr p ↦ (
          omega (arith, a, woke, c.0),
          omega (arith, p, woke),
          omega (arith, p, held, a, woke, c.0, ap length c.1),
        )
      ];
      pending = nothing-IsPending new s.handing c.1;
    }
  where
    normal : {k : ℕ} (s : State) → s.awake ≡ suc k → IsFair s → starving_bit s.word ≡ 0
    normal s a f =
        let bit : (starving_bit s.word ≡ 0) ⊎ (starving_bit s.word ≡ 1) = omega arith in
        elim bit [ inl z ↦ z | inr g ↦ absurd (omega (arith, a, (f.stirred g).0)) ]
Step-IsFair {s} (wake_up {n} p quiet) f =
    let z : starving_bit s.word ≡ 0 = ground arith in
    let c = f.calm z in calm-IsFair f.marked z (omega (arith, p, c.0)) c.1
Step-IsFair {s} (read_starving {new} {n} hungry p mode h) f =
    let (free, asleep, g, change) = handed-takes s.word new hungry mode h in
    let d = f.stirred g in
    record {
      marked = f.marked;
      calm = λ e. absurd (omega (arith, e, g));
      stirred = λ e. (d.0, d.1, omega (arith, p, d.2));
      pending = (
        record { queued = 0; word = omega arith; free = (free, asleep, g); change = change },
        f.pending,
      );
    }
Step-IsFair {s} (hand before after h e) f =
    let p : IsPending s.word h = All-at (IsPending s.word) before after h (rw e at f.pending) in
    handed_over s before after h e p f
  where
    handed_over :
        (s : State) (before after : List Handing) (h : Handing)
        → s.handing ≡ before ++ h ∷ after
        → IsPending s.word h
        → IsFair s
        → IsFair (record s {
          word = s.word + h.new - h.old;
          holders = suc s.holders;
          handing = before ++ after;
        })
    handed_over s before after h e p f =
        let (free, asleep, mode) = p.free in
        let g : starving_bit s.word ≡ 1 = omega (arith, p.word, mode) in
        let d = f.stirred g in
        let size : length s.handing ≡ suc (length (before ++ after)) =
          omega
            (arith, ap length e, length-append before (h ∷ after), length-append before after) in
        let nil = is_nil (before ++ after) (omega (arith, size, d.2)) in
        let open_ : s.word % 2 ≡ 0 = omega (arith, p.word, free) in
        elim p.change [
          | inl c ↦
              let w : s.word + h.new - h.old ≡ s.word - 7 = omega (arith, c, p.word) in
              let big : 8 ≤ h.old = omega (arith, c, free, mode) in
              record {
                marked = omega (arith, w, open_, big, p.word, f.marked);
                calm = λ z. absurd (omega (arith, w, z, g, open_, d.1, big, p.word));
                stirred = λ z. (
                  d.0,
                  omega (arith, w, g, open_, d.1, big, p.word),
                  omega (arith, w, open_, big, p.word, size, d.2, ap length nil),
                );
                pending = nothing-IsPending (s.word + h.new - h.old) (before ++ after) nil;
              }
          | inr c ↦
              let w : s.word + h.new - h.old ≡ s.word - 11 = omega (arith, c, p.word) in
              let big : 11 ≤ h.old = omega (arith, c) in
              calm-IsFair (omega (arith, w, open_, big, p.word, f.marked))
                (omega (arith, w, g, open_, d.1, big, p.word))
                (omega (arith, w, g, open_, d.1, big, p.word, size, d.0, d.2)) nil
        ]
Step-IsFair {s} (let_go {new} {n} e h) f =
    let (held, k) = unlock-frees s.word new h in
    let m : n ≡ new % 2 = omega (arith, e, f.marked, held, k) in
    elim (given_starving new s.permits) [
      | inl (g, p) ↦
          let d = f.stirred (omega (arith, k, held, g)) in
          let nil = is_nil s.handing (omega (arith, held, d.2)) in
          record {
            marked = m;
            calm = λ z. absurd (omega (arith, z, g));
            stirred = λ z. (d.0, omega (arith, k, held, d.1), omega (arith, p, k, held, d.2));
            pending = nothing-IsPending new s.handing nil;
          }
      | inr (g, p) ↦
          let c = f.calm (omega (arith, k, held, g)) in
          calm-IsFair m g (omega (arith, p, k, held, c.0)) c.1
    ]
Step-IsFair {s} (wake_one {new} h) f =
    let (free, quiet, asleep, n) = release-wakes s.word new h in
    let c = f.calm quiet in
    calm-IsFair (omega (arith, n, f.marked)) (omega (arith, n, free, quiet, asleep))
      (omega (arith, n, free, asleep, c.0)) c.1

Reach-IsFair : {s : State} → Reach s → IsFair s
Reach-IsFair start = calm-IsFair refl refl refl refl
Reach-IsFair (later r h) = Step-IsFair h (Reach-IsFair r)

-- Mutual exclusion: in every state that the accesses of any number of callers reach from the zero value of Mutex, in any
-- order, at most one caller holds the mutex, and the lock bit is set when and only when one does. Other callers may
-- access the word between the accesses of a caller, also while the mutex is handed over in starving mode. A caller
-- unlocks only while it holds the mutex.
pub at_most_one : {s : State} → Reach s → (s.holders ≤ 1) × (s.holders ≡ s.word % 2)
at_most_one r = let m = (Reach-IsFair r).marked in omega (arith, m)
