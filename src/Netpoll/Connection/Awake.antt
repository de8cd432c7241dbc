-- ===== src/Netpoll/Connection/Awake.antt =====
-- netpoll/connection_impl.go, connection_reactor.go: the reader, the poller and who closes the connection never leave the
-- reader asleep.
use gocore.Common.{
  ℕ, ◌+◌, ◌≤◌, ◌≡◌, refl, sym, ap, ◌∙◌, ◌⊎◌, inl, inr, true, false, none, some, leb, arith,
  from_some, Bool-cases,
}
use gocore.Netpoll.Connection.{Conn, wakes, trigger_read}
use gocore.Netpoll.Connection.Wakes.{
  Reader, System, Step, Steps, idle, asking, looping, testing, blocked, asks, stores, is_enough,
  is_short, waits, gives_up, receives, consumes, acks, triggers, closes, tells, done, next,
}

-- The trigger is full, or the poller is about to fill it for a reader of `n` bytes.
abbrev Woken : ℕ → System → Type 0
Woken n s = (s.conn.read_trigger ≡ true) ⊎ ((len : ℕ) × (s.poller ≡ some len) × (n ≤ len))

-- What is known of a reader by where it stands.
abbrev Stands : Reader → System → Type 0
Stands idle s = Unit
Stands (asking n) s = Unit
Stands (looping n) s = s.conn.wait_read_size ≡ n
Stands (testing n) s = (s.conn.wait_read_size ≡ n) × (n ≤ s.conn.input → Woken n s)
Stands (blocked n) s =
    (s.conn.wait_read_size ≡ n)
    × (n ≤ s.conn.input → Woken n s)
    × (s.is_active ≡ false → (s.conn.read_trigger ≡ true) ⊎ (s.closing ≡ true))

record IsAwake (s : System) : Type 0 where
  stands : Stands s.reader s

on_off : true ≡ false → ⊥
on_off h = cc

apart : {n : ℕ} → none ≡ some n → ⊥
apart h = cc

-- What the poller does to the trigger.
record IsWaking (len : ℕ) (c c' : Conn ℕ) : Type 0 where
  input : c'.input ≡ c.input
  size : c'.wait_read_size ≡ c.wait_read_size
  kept : c.read_trigger ≡ true → c'.read_trigger ≡ true
  full : c.wait_read_size ≤ len → c'.read_trigger ≡ true

wakes-IsWaking : (len : ℕ) (c : Conn ℕ) → IsWaking len c (wakes true len c)
wakes-IsWaking len c = elim (Bool-cases (leb c.wait_read_size len)) [
  | inl e ↦ rw e (record { input = refl; size = refl; kept = λ h. refl; full = λ h. refl })
  | inr e ↦
      rw e (record { input = refl; size = refl; kept = λ h. h; full = λ h. absurd (ground arith) })
]

acks-Woken :
    (n k : ℕ) (s : System)
    → n ≤ s.conn.input + k
    → Woken n (record s {
      conn = record s.conn { input = s.conn.input + k };
      poller = some (s.conn.input + k);
    })
acks-Woken n k s h = inr (s.conn.input + k, refl, h)

triggers-Woken :
    (n len : ℕ) (s : System)
    → s.poller ≡ some len
    → s.conn.wait_read_size ≡ n
    → Woken n s
    → (wakes true len s.conn).read_trigger ≡ true
triggers-Woken n len s e size (inl full) = (wakes-IsWaking len s.conn).kept full
triggers-Woken n len s e size (inr (len', e', le)) =
    let same : len ≡ len' = ap (from_some 0) (sym e ∙ e') in
    (wakes-IsWaking len s.conn).full (omega (arith, size, same, le))

acks-Stands :
    (k : ℕ) (s : System) (r : Reader)
    → Stands r s
    → Stands r (record s {
      conn = record s.conn { input = s.conn.input + k };
      poller = some (s.conn.input + k);
    })
acks-Stands k s idle h = tt
acks-Stands k s (asking n) h = tt
acks-Stands k s (looping n) h = h
acks-Stands k s (testing n) h = (h.0, acks-Woken n k s)
acks-Stands k s (blocked n) (h, w, a) = (h, acks-Woken n k s, a)

triggers-Stands :
    (len : ℕ) (s : System)
    → s.poller ≡ some len
    → (r : Reader) → Stands r s
    → Stands r (record s { conn = wakes true len s.conn; poller = none })
triggers-Stands len s e idle h = tt
triggers-Stands len s e (asking n) h = tt
triggers-Stands len s e (looping n) h = (wakes-IsWaking len s.conn).size ∙ h
triggers-Stands len s e (testing n) (h, w) =
    let k = wakes-IsWaking len s.conn in
    (k.size ∙ h, λ le. inl (triggers-Woken n len s e h (w (omega (arith, le, k.input)))))
triggers-Stands len s e (blocked n) (h, w, a) =
    let k = wakes-IsWaking len s.conn in
    (
      k.size ∙ h,
      (λ le. inl (triggers-Woken n len s e h (w (omega (arith, le, k.input))))),
      λ off. elim (a off) [ inl full ↦ inl (k.kept full) | inr closing ↦ inr closing ],
    )

closes-Stands :
    (s : System) (r : Reader)
    → Stands r s
    → Stands r (record s { is_active = false; closing = true })
closes-Stands s idle h = tt
closes-Stands s (asking n) h = tt
closes-Stands s (looping n) h = h
closes-Stands s (testing n) h = h
closes-Stands s (blocked n) (h, w, a) = (h, w, λ off. inr refl)

tells-Stands :
    (s : System) (r : Reader)
    → Stands r s
    → Stands r (record s { conn = trigger_read s.conn; closing = false })
tells-Stands s idle h = tt
tells-Stands s (asking n) h = tt
tells-Stands s (looping n) h = h
tells-Stands s (testing n) (h, w) = (h, λ le. inl refl)
tells-Stands s (blocked n) (h, w, a) = (h, (λ le. inl refl), λ off. inl refl)

Step-IsAwake : {s s' : System} → Step s s' → IsAwake s → IsAwake s'
Step-IsAwake (asks n e lt) h = record { stands = tt }
Step-IsAwake (stores n e) h = record { stands = refl }
Step-IsAwake (is_enough n e le) h = record { stands = tt }
Step-IsAwake (is_short n {s} e lt) h = record {
  stands = (rw e at h.stands, λ le. absurd (omega (arith, le, lt)));
}
Step-IsAwake (waits n {s} e on) h =
    let k : Stands (testing n) s = rw e at h.stands in
    record { stands = (k.0, k.1, λ off. absurd (on_off (sym on ∙ off))) }
Step-IsAwake (gives_up n e off) h = record { stands = tt }
Step-IsAwake (receives n {s} e full) h =
    let k : Stands (blocked n) s = rw e at h.stands in record { stands = k.0 }
Step-IsAwake (consumes k {s} e le) h = record { stands = rw e tt }
Step-IsAwake (acks k {s} e) h = record { stands = acks-Stands k s s.reader h.stands }
Step-IsAwake (triggers len {s} e) h = record { stands = triggers-Stands len s e s.reader h.stands }
Step-IsAwake (closes {s}) h = record { stands = closes-Stands s s.reader h.stands }
Step-IsAwake (tells {s} e) h = record { stands = tells-Stands s s.reader h.stands }

Steps-IsAwake : {s s' : System} → Steps s s' → IsAwake s → IsAwake s'
Steps-IsAwake done h = h
Steps-IsAwake (next step steps) h = Steps-IsAwake steps (Step-IsAwake step h)

-- No wake-up is lost, with one reader that has no timeout, one poller and no handler of requests: whatever steps are taken from a connection with an idle reader, a reader that is blocked in
-- `waitRead` though there are enough bytes, or though the connection is closed, finds its trigger full, as soon as the
-- poller has seen to the trigger and whoever closed the connection has, too.
pub blocked_lem :
    {s s' : System}
    → s.reader ≡ idle
    → Steps s s'
    → (n : ℕ) → s'.reader ≡ blocked n
    → s'.poller ≡ none
    → s'.closing ≡ false
    → (n ≤ s'.conn.input) ⊎ (s'.is_active ≡ false)
    → s'.conn.read_trigger ≡ true
blocked_lem {s} {s'} start steps n e quiet told why =
    let first : IsAwake s = record { stands = rw start tt } in
    let k : Stands (blocked n) s' = rw e at (Steps-IsAwake steps first).stands in
    elim why [
      | inl le ↦ elim (k.1 le) [
        | inl full ↦ full
        | inr (len, p, q) ↦ absurd (apart (sym quiet ∙ p))
      ]
      | inr off ↦ elim (k.2 off) [
        | inl full ↦ full
        | inr closing ↦ absurd (on_off (sym closing ∙ told))
      ]
    ]
