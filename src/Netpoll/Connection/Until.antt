-- ===== src/Netpoll/Connection/Until.antt =====
-- netpoll/connection_impl.go: `Until` and `Read`, over `waitRead` and a buffer.
use gocore.Common.{ℕ, zero, suc, ◌+◌, List, [], Option, none, some, ltb, if◌then◌else◌, take, ◌==◌}
use gocore.Common.Run.{Run, ok, out_of_fuel}
use gocore.Netpoll.Connection.{ConnErr}

-- What the connection calls in a state `S`: `waitRead`, which Waiting has, and its input buffer's `Len`, `indexByte`,
-- which looks from an index on, `Next` and `Release`.
pub record Input (S : Type 0) : Type 0 where
  pub wait_read : ℕ → S → Option ConnErr × S
  pub len : S → ℕ
  pub index_byte : ℕ → ℕ → S → Option ℕ
  pub next : ℕ → S → (List ℕ × Option ConnErr) × S
  pub release : S → Option ConnErr × S

module _ {S : Type 0} (o : Input S) where
  abbrev pub behind : ℕ → Option ConnErr × S → (List ℕ × Option ConnErr) × S
  behind n (some e, s) = (([], some e), s)
  behind n (none, s) = o.next n s

  -- `connection.Next`.
  unfoldable pub next : ℕ → S → (List ℕ × Option ConnErr) × S
  next n s = behind n (o.wait_read n s)

  -- What is there, with the error of the wait.
  abbrev pub the_rest : ConnErr → S → (List ℕ × Option ConnErr) × S
  the_rest e s = let r = o.next (o.len s) s in (((r.0).0, some e), r.1)

  -- The loop of `Until`, behind `n` bytes without the delimiter.
  unfoldable pub until_loop : ℕ → ℕ → ℕ → S → Run ((List ℕ × Option ConnErr) × S)
  until_loop zero delim n s = out_of_fuel
  until_loop (suc fuel) delim n s =
      let w = o.wait_read (n + 1) s in
      let rest = until_loop fuel delim (o.len w.1) w.1 in
      elim w.0 [
        | some e ↦ ok (the_rest e w.1)
        | none ↦ elim (o.index_byte delim n w.1) [ some i ↦ ok (next (i + 1) w.1) | none ↦ rest ]
      ]

  unfoldable pub until : ℕ → ℕ → S → Run ((List ℕ × Option ConnErr) × S)
  unfolding until_loop
  until fuel delim s = until_loop fuel delim 0 s

  abbrev released : List ℕ → Option ConnErr × S → (List ℕ × Option ConnErr) × S
  released bs r = ((bs, r.0), r.1)

  abbrev copied : ℕ → (List ℕ × Option ConnErr) × S → (List ℕ × Option ConnErr) × S
  copied l ((src, some e), s) = ((take l src, some e), s)
  copied l ((src, none), s) = released (take l src) (o.release s)

  abbrev filled : ℕ → Option ConnErr × S → (List ℕ × Option ConnErr) × S
  filled l (some e, s) = (([], some e), s)
  filled l (none, s) = copied l (o.next (if ltb (o.len s) l then o.len s else l) s)

  -- `connection.Read` of a slice of length `l`: the bytes that are copied, and the error.
  unfoldable pub read : ℕ → S → (List ℕ × Option ConnErr) × S
  read l s = if l == 0 then (([], none), s) else filled l (o.wait_read l s)
