-- ===== src/Lock/Renewal.antt =====
-- go-lock.go: the renewal of the key, and what it answers a machine that does not hold it.
use gocore.Common.{
  ℕ, ◌/◌, ◌≤◌, ◌≡◌, refl, ◌∙◌, Bool, true, false, Option, none, some, if◌then◌else◌,
}
use gocore.Common.Int.{ℤ, negsuc}
use gocore.Lock.Redis.{Redis, delay_script, Wire, arrives, lost, unanswered}
use gocore.Lock.Config.{Config}
use gocore.Lock.Calls.{is_owner, run_delay, eval, eval_sha, is_good, delay}
use gocore.Lock.Owner.{HolderIs, IsForeign, not_owner, eval-keeps, eval_sha-keeps}

module _ (r : Redis) (name : ℕ) (c : Config) where
  abbrev ms : ℕ
  ms = c.expires_time / 1000000

  run_delay-foreign :
      (o : Option ℕ) (s : r.Server)
      → IsForeign r name c o
      → HolderIs r name c o s
      → run_delay r name c.node_id ms s ≡ (some (negsuc 1), s)
  unfolding run_delay
  run_delay-foreign o s f h = rw (not_owner r name c o s f h) refl

  eval_sha-refused :
      (o : Option ℕ) (w : Wire) (s : r.Server)
      → IsForeign r name c o
      → HolderIs r name c o s
      → is_good r (eval_sha r delay_script (run_delay r name c.node_id ms) w s).0 ≡ false
  unfolding eval_sha
  eval_sha-refused o arrives s f h = rw (run_delay-foreign o s f h) (known (r.knows delay_script s))
    where
      known :
          (b : Bool)
          → is_good r (if◌then◌else◌ {A = Option ℤ × r.Server} b (some (negsuc 1), s) (none, s)).0
            ≡ false
      known true = refl
      known false = refl
  eval_sha-refused o lost s f h = refl
  eval_sha-refused o unanswered s f h = refl

  eval-refused :
      (o : Option ℕ) (w : Wire) (s : r.Server)
      → IsForeign r name c o
      → HolderIs r name c o s
      → is_good r (eval r delay_script (run_delay r name c.node_id ms) w s).0 ≡ false
  unfolding eval
  eval-refused o arrives s f h =
      rw (run_delay-foreign o (r.learn delay_script s) f (r.learn_holder name delay_script s ∙ h))
        refl
  eval-refused o lost s f h = refl
  eval-refused o unanswered s f h = refl

  run_delay-keeps :
      (o : Option ℕ) (s : r.Server)
      → 1 ≤ ms
      → HolderIs r name c o s
      → HolderIs r name c o (run_delay r name c.node_id ms s).1
  unfolding run_delay
  run_delay-keeps none s p h = rw (not_owner r name c none s tt h) h
  run_delay-keeps (some v) s p h = kept (is_owner r name c.node_id s)
    where
      kept :
          (b : Bool)
          → HolderIs r name c
              (some v)
              (if◌then◌else◌ {A = Option ℤ × r.Server} b
                (some (r.pexpire name ms s).0, (r.pexpire name ms s).1)
                (some (negsuc 1), s)).1
      kept true = (r.pexpire_holder name ms s p h).1
      kept false = h

  -- With an expiry time of at least a millisecond, the renewal does not change who holds the key, also when messages are
  -- lost, and it ends in an error for a machine that does not hold it.
  pub delay-keeps :
      (o : Option ℕ) (cached : Bool) (w w' : Wire) (s : r.Server)
      → 1 ≤ ms
      → HolderIs r name c o s
      → (HolderIs r name c o (delay r c name cached w w' s).2)
        × (IsForeign r name c o → (delay r c name cached w w' s).0 ≡ false)
  unfolding delay
  delay-keeps o true w w' s p h = (
    eval_sha-keeps r name c delay_script (run_delay r name c.node_id ms) o w' s
        (λ s. run_delay-keeps o s p) h,
    λ f. eval_sha-refused o w' s f h,
  )
  delay-keeps o false w w' s p h =
      let first = eval r delay_script (run_delay r name c.node_id ms) w s in
      let held =
        eval-keeps r name c delay_script (run_delay r name c.node_id ms) o w s
          (λ s. run_delay-keeps o s p) h in
      (
        either (is_good r first.0) _ _
            (eval_sha-keeps r name c delay_script (run_delay r name c.node_id ms) o w' first.1
              (λ s. run_delay-keeps o s p) held)
            held,
        λ f. failed (is_good r first.0) _ _ _ (eval-refused o w s f h),
      )
    where
      either :
          (b : Bool) (x y : Bool × Bool × r.Server)
          → HolderIs r name c o x.2
          → HolderIs r name c o y.2
          → HolderIs r name c o (if b then x else y).2
      either true x y h k = h
      either false x y h k = k

      failed :
          (b : Bool) (x : Bool × Bool × r.Server) (y : Bool) (s' : r.Server)
          → b ≡ false
          → (if b then x else (false, y, s')).0 ≡ false
      failed true x y s' h = cc
      failed false x y s' h = refl
