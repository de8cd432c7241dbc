-- ===== src/Gin/Chain.antt =====
-- gin/context.go, gin/routergroup.go: the chain of handlers, Next and Abort, and the limit on its length.
-- What a handler does is user code: `handle`, which is given Next to call.
use gocore.Common.{
  ℕ, zero, suc, ◌+◌, ◌-◌, ◌<◌, ◌≤◌, ◌≡◌, refl, ap, List, [], ◌∷◌, ◌++◌, Bool, true, false, Option,
  none, some, arith, ltb, if◌then◌else◌, get_elem?, drop, length, Bool-cases, inl, inr, sym, ◌∙◌,
  tests, ltb→lt, length-append, ◌%◌,
}
use gocore.Common.Int.{ℤ, pos, negsuc, ◌+ℤ◌, ltb_ℤ}
use gocore.Common.Run.{Run, ok, panic, out_of_fuel, ◌>>=◌, check, ok_inj, panic_ok}
use mathlib.Core.Path.{subst}
use gocore.Gin.Context.{Context, Handler, abort_index}

-- Conversion to int8: the value modulo 2^8, from -128 on.
unfoldable pub int8 : ℕ → ℤ
int8 n = let r = n % 256 in if ltb r 128 then pos r else negsuc (255 - r)

-- `c.index++` of an int8.
unfoldable pub next_index : ℤ → ℤ
next_index (pos n) = int8 (n + 1)
next_index (negsuc n) = negsuc n +ℤ pos 1

abbrev chain : Option (List Handler) → List Handler
chain none = []
chain (some hs) = hs

-- `c.handlers[c.index]`
abbrev handler_at : List Handler → ℤ → Run Handler
handler_at hs (pos i) = elim (get_elem? hs i) [ none ↦ panic | some h ↦ ok h ]
handler_at hs (negsuc n) = panic

abbrev pub advance : Context → Context
advance c = record c { index = next_index c.index }

module _ (handle : Handler → (Context → Run Context) → Context → Run Context) where
  -- The loop of Next, with the Next that the handlers call.
  unfoldable pub next_loop : (Context → Run Context) → ℕ → Context → Run Context
  next_loop next zero c = out_of_fuel
  next_loop next (suc fuel) c =
      let turn : Run Context = do
        h ← handler_at (chain c.handlers) c.index
        c' ← handle h next c
        next_loop next fuel (advance c')
      in if ltb_ℤ c.index (int8 (length (chain c.handlers))) then turn else ok c

  -- `Next`: fuel for the nesting of its calls and for the turns of each loop.
  unfoldable pub next : ℕ → Context → Run Context
  unfolding next_loop
  next zero c = out_of_fuel
  next (suc fuel) c = next_loop (next fuel) (suc fuel) (advance c)

unfoldable pub abort : Context → Context
abort c = record c { index = pos abort_index }

unfoldable pub is_aborted : Context → Bool
is_aborted c = if ltb_ℤ c.index (pos abort_index) then false else true

-- `combineHandlers`: the group's handlers, then the given ones; it panics when they are too many.
unfoldable pub combine_handlers : List Handler → List Handler → Run (List Handler)
combine_handlers group handlers =
    check (ltb (length group + length handlers) abort_index) >>= λ _. ok (group ++ handlers)

int8_small : (n : ℕ) → n < 128 → int8 n ≡ pos n
unfolding int8
int8_small n h = ground arith

next_index_small : (i : ℕ) → suc i < 128 → next_index (pos i) ≡ pos (suc i)
unfolding next_index int8
next_index_small i h = ground arith

abbrev head_or : Handler → List Handler → Handler
head_or d [] = d
head_or d (x ∷ xs) = x

abbrev tail : List Handler → List Handler
tail [] = []
tail (x ∷ xs) = xs

-- A chain that a group has put together is short of the index that Abort sets.
combine_handlers-short :
    (group handlers : List Handler) {hs : List Handler}
    → combine_handlers group handlers ≡ ok hs
    → (hs ≡ group ++ handlers) × (length hs < abort_index)
unfolding combine_handlers
combine_handlers-short group handlers {hs} h =
    elim (Bool-cases (ltb (length group + length handlers) abort_index)) [
      | inl e ↦
          let same = ok_inj (rw e at h) in
          (
            sym same,
            subst (λ l. length l < abort_index) same
                (omega (tests, length-append group handlers, ltb→lt _ _ e)),
          )
      | inr e ↦ panic_ok (rw e at h)
    ]

-- After Abort, Next calls no handler more of a chain that `combineHandlers` has put together, whatever
-- the handlers do: it only counts the index on.
pub next-abort :
    (handle : Handler → (Context → Run Context) → Context → Run Context)
    (group handlers : List Handler) {hs : List Handler} (c : Context) (fuel : ℕ)
    → combine_handlers group handlers ≡ ok hs
    → c.handlers ≡ some hs
    → (next handle (suc fuel) (abort c) ≡ ok (advance (abort c)))
      × (is_aborted (advance (abort c)) ≡ true)
unfolding next next_loop abort is_aborted next_index int8
next-abort handle group handlers {hs} c fuel h e =
    let short = (combine_handlers-short group handlers h).1 in
    let stop : ltb_ℤ (pos 64) (int8 (length hs)) ≡ false =
      rw (int8_small (length hs) (omega (arith, short))) (ground (arith, short)) in
    (rw (e, stop) refl, refl)

-- Handlers that do their work and neither call Next nor change the chain or the index.
pub record IsPlain (effect : Handler → Context → Context) : Type 0 where
  pub same_index : (h : Handler) (c : Context) → (effect h c).index ≡ c.index
  pub same_handlers : (h : Handler) (c : Context) → (effect h c).handlers ≡ c.handlers

first_index : next_index (negsuc 0) ≡ pos 0
unfolding next_index ◌+ℤ◌
first_index = refl

-- The handlers of a list, one after the other.
abbrev pub run_each : (Handler → Context → Context) → List Handler → Context → Context
run_each effect [] c = c
run_each effect (h ∷ hs) c = run_each effect hs (advance (effect h c))

run_each-append :
    (effect : Handler → Context → Context) (hs ks : List Handler) (c : Context)
    → run_each effect (hs ++ ks) c ≡ run_each effect ks (run_each effect hs c)
run_each-append effect [] ks c = refl
run_each-append effect (h ∷ hs) ks c = run_each-append effect hs ks (advance (effect h c))

drop_cons :
    (hs : List Handler) (i : ℕ) {h : Handler} {rest : List Handler}
    → drop i hs ≡ h ∷ rest
    → (get_elem? hs i ≡ some h) × (drop (suc i) hs ≡ rest) × (i < length hs)
drop_cons [] zero e = cc
drop_cons [] (suc i) e = cc
drop_cons (x ∷ hs) zero {h} e = (ap some (ap (head_or h) e), ap tail e, omega arith)
drop_cons (x ∷ hs) (suc i) e = let (a, b, c) = drop_cons hs i e in (a, b, omega (arith, c))

drop_nil : (hs : List Handler) (i : ℕ) → drop i hs ≡ [] → length hs ≤ i
drop_nil [] i e = omega arith
drop_nil (x ∷ hs) zero e = cc
drop_nil (x ∷ hs) (suc i) e = omega (arith, drop_nil hs i e)

handler_at_found :
    (hs : List Handler) (i : ℕ) {h : Handler}
    → get_elem? hs i ≡ some h
    → handler_at hs (pos i) ≡ ok h
handler_at_found hs i e = rw (handler_at, e) refl

next_loop_stop :
    (handle : Handler → (Context → Run Context) → Context → Run Context)
    (again : Context → Run Context) (fuel : ℕ) (c : Context)
    → ltb_ℤ c.index (int8 (length (chain c.handlers))) ≡ false
    → next_loop handle again (suc fuel) c ≡ ok c
unfolding next_loop
next_loop_stop handle again fuel c e = rw e refl

next_loop_go :
    (handle : Handler → (Context → Run Context) → Context → Run Context)
    (again : Context → Run Context) (fuel : ℕ) (c : Context) {h : Handler}
    → ltb_ℤ c.index (int8 (length (chain c.handlers))) ≡ true
    → handler_at (chain c.handlers) c.index ≡ ok h
    → next_loop handle again (suc fuel) c
      ≡ (handle h again c >>= λ c'. next_loop handle again fuel (advance c'))
unfolding next_loop
next_loop_go handle again fuel c e f = rw (e, f) refl

next_loop-run_each :
    (effect : Handler → Context → Context) (again : Context → Run Context) (hs rest : List Handler)
    (i fuel : ℕ) (c : Context)
    → IsPlain effect
    → length hs < abort_index
    → c.handlers ≡ some hs
    → c.index ≡ pos i
    → drop i hs ≡ rest
    → length rest < fuel
    → next_loop (λ h n c. ok (effect h c)) again fuel c ≡ ok (run_each effect rest c)
next_loop-run_each effect again hs [] i (suc fuel) c plain short e k d f =
    next_loop_stop _ again fuel c
      (rw (e, k, int8_small (length hs) (omega (arith, short))) (ground (arith, drop_nil hs i d)))
next_loop-run_each effect again hs (h ∷ rest) i (suc fuel) c plain short e k d f =
    let (found, left, inside) = drop_cons hs i d in
    next_loop_go (λ h n c. ok (effect h c)) again fuel c
      (rw (e, k, int8_small (length hs) (omega (arith, short))) (ground (arith, inside)))
      (rw (e, k) (handler_at_found hs i found))
    ∙ next_loop-run_each effect again hs rest (suc i) fuel (advance (effect h c)) plain short
        (plain.same_handlers h c ∙ e)
        (ap next_index (plain.same_index h c ∙ k)
          ∙ next_index_small i (omega (arith, inside, short)))
        left (omega arith)
next_loop-run_each effect again hs rest i zero c plain short e k d f = absurd (omega arith)

-- A chain that `combineHandlers` has put together, of handlers that only do their work, is run by Next
-- from the first handler to the last, each once and in the order of the chain, the group's own first.
pub next-run_each :
    (effect : Handler → Context → Context) (group handlers : List Handler) (c : Context)
    → IsPlain effect
    → length group + length handlers < abort_index
    → c.handlers ≡ some (group ++ handlers)
    → c.index ≡ negsuc 0
    → next (λ h n c. ok (effect h c)) (suc (length group + length handlers)) c
      ≡ ok (run_each effect handlers (run_each effect group (advance c)))
unfolding next
next-run_each effect group handlers c plain short e k =
    let fuel = length group + length handlers in
    let short' : length (group ++ handlers) < abort_index =
      omega (arith, length-append group handlers, short) in
    next_loop-run_each effect (next (λ h n c. ok (effect h c)) fuel) (group ++ handlers)
      (group ++ handlers) 0 (suc fuel) (advance c) plain short' e (ap next_index k ∙ first_index)
      refl (omega (arith, length-append group handlers))
    ∙ ap ok (run_each-append effect group handlers (advance c))
