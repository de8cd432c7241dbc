-- ===== src/Netpoll/Connection/Sends.antt =====
-- netpoll/connection_impl.go, connection_reactor.go: what a flush and the poller send.
use mathlib.Core.List.{append_assoc, append-nil}
use gocore.Common.{
  ℕ, zero, suc, length-append, ◌<◌, ◌≤◌, ◌≡◌, refl, sym, ap, ◌∙◌, inl, inr, Bool, true, false, List,
  [], ◌∷◌, ◌++◌, Option, none, some, ltb, ◌==◌, length, take, drop, take-append-drop, arith,
  Bool-cases,
}
use gocore.Common.Int.{ℤ, pos, negsuc}
use gocore.Netpoll.Connection.{
  Conn, ConnBuffer, ConnErr, PollEvent, r2rw, Flushed, returns, waits, flush, flushes, counted,
  left, polled, output_ack, kept_trigger, if_empty,
}

-- What the buffer promises. `GetBytes` fills the vector with the first of its bytes; those behind it may be many.
pub record SendLaws {L : Type 0} (b : ConnBuffer L) : Type 0 where
  pub readable : L → List ℕ
  pub behind : ℕ → L → List ℕ
  pub is_empty_lem : (l : L) → b.is_empty l ≡ (length (readable l) == 0)
  pub get_bytes_lem : (n : ℕ) (l : L) → b.get_bytes n l ++ behind n l ≡ readable l
  pub skip_lem :
      (n : ℕ) (l : L)
      → n ≤ length (readable l)
      → ((b.skip n l).0 ≡ none) × (readable (b.skip n l).1 ≡ drop n (readable l))
  pub readable-release : (l : L) → readable (b.release l) ≡ readable l

take-prefix : (n : ℕ) (xs ys : List ℕ) → n ≤ length xs → take n (xs ++ ys) ≡ take n xs
take-prefix zero xs ys h = refl
take-prefix (suc n) [] ys h = absurd (omega (arith, h))
take-prefix (suc n) (x ∷ xs) ys h = ap (λ s. x ∷ s) (take-prefix n xs ys (omega (arith, h)))

-- What `sendmsg` does: without an error it sends as many of the bytes as it counts, and with one it sends none.
pub data Sent {W : Type 0} (written : W → List ℕ) (bs : List ℕ) (w : W)
    : (ℤ × Option ℕ) × W → Type 0 where
  some_sent :
      (n : ℕ) {w' : W}
      → n ≤ length bs
      → written w' ≡ written w ++ take n bs
      → Sent written bs w ((pos n, none), w')
  none_sent :
      (e n : ℕ) {w' : W} → written w' ≡ written w → Sent written bs w ((negsuc n, some e), w')

apart : false ≡ true → ⊥
apart h = cc

module _ {L W : Type 0} {b : ConnBuffer L} (lb : SendLaws b) (written : W → List ℕ) (malloc_max : ℕ)
    (on_request : Conn L → Bool) where
  -- What is sent, and what is still to be sent.
  abbrev pub out : Conn L → W → List ℕ
  out c w = written w ++ lb.readable c.output

  -- How a flush ends: with nothing left, waiting for the poller to be told that there is something left, or with an error.
  pub data Ends (c : Conn L) : Flushed → Type 0 where
    empties : lb.readable c.output ≡ [] → Ends c (returns none)
    polls :
        (es : List PollEvent)
        → c.controls ≡ r2rw ∷ es
        → 0 < length (lb.readable c.output)
        → Ends c waits
    fails : (e : ConnErr) → Ends c (returns (some e))

  is_nil : (bs : List ℕ) → (length bs == 0) ≡ true → bs ≡ []
  is_nil [] e = refl
  is_nil (x ∷ bs) e = absurd (ground arith)

  left-Ends :
      (failed : Option ℕ) (c : Conn L)
      → Ends (left b malloc_max on_request failed c).1 (left b malloc_max on_request failed c).0
        × (lb.readable (left b malloc_max on_request failed c).1.output ≡ lb.readable c.output)
  left-Ends failed c = elim (Bool-cases (b.is_empty c.output)) [
    | inl e ↦ rw e ((empties (is_nil _ (sym (lb.is_empty_lem c.output) ∙ e)), refl))
    | inr e ↦ rw e (ended failed e)
  ]
    where
      ended :
          (failed : Option ℕ)
          → b.is_empty c.output ≡ false
          → Ends
              (polled b malloc_max on_request failed c).1
              (polled b malloc_max on_request failed c).0
            × (lb.readable (polled b malloc_max on_request failed c).1.output
                ≡ lb.readable c.output)
      ended none e = (polls c.controls refl (ground (arith, lb.is_empty_lem c.output)), refl)
      ended (some x) e = (fails _, refl)

  -- After a count of bytes that were sent.
  counted-Ends :
      (failed : Option ℕ) (n : ℕ) (c : Conn L) (w w' : W)
      → n ≤ length (lb.readable c.output)
      → written w' ≡ written w ++ take n (lb.readable c.output)
      → Ends
          (counted b malloc_max on_request failed (pos n) c).1
          (counted b malloc_max on_request failed (pos n) c).0
        × (out (counted b malloc_max on_request failed (pos n) c).1 w' ≡ out c w)
  counted-Ends failed n c w w' le e = elim (Bool-cases (ltb 0 n)) [
    | inl some_ ↦
        let (none_, rest) = lb.skip_lem n c.output le in
        let c' : Conn L = record c { output = b.release (b.skip n c.output).1 } in
        let k = left-Ends failed c' in
        rw (some_, none_)
          ((
            k.0,
            rw (k.1, lb.readable-release (b.skip n c.output).1, rest, e)
                (append_assoc (written w) (take n (lb.readable c.output)) _
                  ∙ ap (λ s. written w ++ s) (take-append-drop n (lb.readable c.output))),
          ))
    | inr none_ ↦
        let k = left-Ends failed c in
        let zero_ : n ≡ 0 = ground arith in
        rw none_ ((k.0, rw (k.1, e, zero_, append-nil (written w)) refl))
  ]

  flushes-Ends :
      (barriercap eagain : ℕ) (failed : Option ℕ) (c : Conn L) (w : W) (r : (ℤ × Option ℕ) × W)
      → Sent written (b.get_bytes barriercap c.output) w r
      → Ends
          (flushes b malloc_max on_request eagain failed r.0 c).1
          (flushes b malloc_max on_request eagain failed r.0 c).0
        × (out (flushes b malloc_max on_request eagain failed r.0 c).1 r.1 ≡ out c w)
  flushes-Ends barriercap eagain failed c w r (some_sent n {w'} le e) =
      let bs = b.get_bytes barriercap c.output in
      let more = lb.behind barriercap c.output in
      let whole = lb.get_bytes_lem barriercap c.output in
      counted-Ends failed n c w w' (omega (arith, le, ap length whole, length-append bs more))
        (e ∙ ap (λ s. written w ++ s) (sym (take-prefix n bs more le) ∙ ap (take n) whole))
  flushes-Ends barriercap eagain failed c w r (none_sent x n e) = elim (Bool-cases (x == eagain)) [
    | inl again ↦ let k = left-Ends failed c in rw again ((k.0, rw (k.1, e) refl))
    | inr other ↦ rw other ((fails _, rw e refl))
  ]

  -- Over a buffer that keeps its laws, and a `sendmsg` that sends as many bytes as it counts and none with an error, a
  -- flush loses and repeats nothing, also of a buffer with more slices than the vector that it hands to `sendmsg`: what
  -- `sendmsg` has sent and what the buffer still holds are, in order, what they were. If it returns without an error the
  -- buffer is empty; if it waits the buffer is not, and the poller was asked to send the rest.
  pub flush-Ends :
      (barriercap : ℕ) (sendmsg : List ℕ → W → (ℤ × Option ℕ) × W)
      → ((bs : List ℕ) (w : W) → Sent written bs w (sendmsg bs w))
      → (eagain : ℕ) (failed : Option ℕ) (c : Conn L) (w : W)
      → let x = flush b malloc_max on_request barriercap sendmsg eagain failed c w in
        Ends (x.0).1 (x.0).0 × (out (x.0).1 x.1 ≡ out c w)
  unfolding flush
  flush-Ends barriercap sendmsg sends eagain failed c w = elim (Bool-cases (b.is_empty c.output)) [
    | inl e ↦ rw e ((empties (is_nil _ (sym (lb.is_empty_lem c.output) ∙ e)), refl))
    | inr e ↦
        rw e
          (flushes-Ends barriercap eagain failed c w _ (sends (b.get_bytes barriercap c.output) w))
  ]

  -- What the poller is given to send, and what it makes of the count that it sent.
  pub record IsAcked (n : ℕ) (c c' : Conn L) : Type 0 where
    pub rest : lb.readable c'.output ≡ drop n (lb.readable c.output)
    pub told : lb.readable c'.output ≡ [] → (e : Option ConnErr) × (c'.write_trigger ≡ some e)
    pub quiet : (lb.readable c'.output ≡ [] → ⊥) → c'.write_trigger ≡ c.write_trigger

  if_empty-IsAcked :
      (n : ℕ) (c c' : Conn L)
      → lb.readable c'.output ≡ drop n (lb.readable c.output)
      → c'.write_trigger ≡ c.write_trigger
      → IsAcked n c (if_empty b malloc_max on_request c')
  if_empty-IsAcked n c c' e f = elim (Bool-cases (b.is_empty c'.output)) [
    | inl nil ↦ rw nil (record {
      rest = e;
      told = λ h. full c'.write_trigger;
      quiet = λ h. absurd (h (is_nil _ (sym (lb.is_empty_lem c'.output) ∙ nil)));
    })
    | inr more ↦ rw more (record {
      rest = e;
      told = λ h. absurd (apart (sym more ∙ lb.is_empty_lem c'.output ∙ rw h refl));
      quiet = λ h. f;
    })
  ]
    where
      full : (t : Option (Option ConnErr)) → (e : Option ConnErr) × (kept_trigger t none ≡ some e)
      full none = (none, refl)
      full (some e) = (e, refl)

  -- When the poller has sent `n` bytes of those that it was given, the rest is left to be sent, and who waits for the
  -- flush is woken exactly if nothing is left.
  pub output_ack-IsAcked :
      (n : ℕ) (c : Conn L)
      → n ≤ length (lb.readable c.output)
      → IsAcked n c (output_ack b malloc_max on_request (pos n) c)
  unfolding output_ack
  output_ack-IsAcked n c le = elim (Bool-cases (ltb 0 n)) [
    | inl some_ ↦
        rw some_
          (if_empty-IsAcked n c _ (lb.readable-release _ ∙ (lb.skip_lem n c.output le).1) refl)
    | inr none_ ↦
        let zero_ : n ≡ 0 = ground arith in rw none_ (if_empty-IsAcked n c c (rw zero_ refl) refl)
  ]
