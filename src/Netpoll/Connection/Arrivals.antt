-- ===== src/Netpoll/Connection/Arrivals.antt =====
-- netpoll/connection_impl.go: what `waitRead` moves into the buffer, and `Until` over it.
use mathlib.Core.List.{append_assoc, append-nil}
use gocore.Common.{
  ℕ, ◌<◌, ◌≤◌, ◌≡◌, ◌≢◌, refl, sym, ap, ◌∙◌, inl, inr, Bool, true, false, List, [], ◌∷◌, ◌++◌,
  Option, none, some, ltb, leb, leb→le, length, get_elem?, take, drop, arith, Bool-cases,
  if◌then◌else◌,
}
use gocore.Common.Run.{Returns}
use gocore.Netpoll.Connection.{ConnErr, closed, read_timeout}
use gocore.Netpoll.Connection.Until.{until}
use gocore.Netpoll.Connection.Lines.{InputLaws, Gives, total, until-Gives}
use gocore.Netpoll.Connection.Waiting.{
  InBuffer, Wire, Event, Ending, arrives, fires, stays, inactive, put_all, fill, ended, wait_loop,
  wait_read, input_of,
}

-- What the buffer promises.
pub record InLaws {L : Type 0} (b : InBuffer L) : Type 0 where
  pub readable : L → List ℕ
  pub len_lem : (l : L) → b.len l ≡ length (readable l)
  pub readable-put : (bs : List ℕ) (l : L) → readable (b.put bs l) ≡ readable l ++ bs
  pub found :
      (delim n : ℕ) (l : L) {i : ℕ}
      → b.index_byte delim n l ≡ some i
      → (n ≤ i)
        × (get_elem? (readable l) i ≡ some delim)
        × ((j : ℕ) → n ≤ j → j < i → get_elem? (readable l) j ≢ some delim)
  pub not_found :
      (delim n : ℕ) (l : L)
      → b.index_byte delim n l ≡ none
      → (j : ℕ) → n ≤ j
      → get_elem? (readable l) j ≢ some delim
  pub next_lem :
      (n : ℕ) (l : L)
      → n ≤ length (readable l)
      → ((b.next n l).0 ≡ (take n (readable l), none))
        × (readable (b.next n l).1 ≡ drop n (readable l))

abbrev pub joined : List (List ℕ) → List ℕ
joined [] = []
joined (bs ∷ more) = bs ++ joined more

abbrev pub bytes_of : List Event → List ℕ
bytes_of [] = []
bytes_of (arrives bs ∷ es) = bs ++ bytes_of es
bytes_of (fires ∷ es) = bytes_of es

module _ {L : Type 0} {b : InBuffer L} (lb : InLaws b) where
  -- What is still to come: from the poller, and then by the reads of `fill`.
  abbrev pub incoming : Wire L → List ℕ
  incoming s = bytes_of s.coming ++ joined s.unread

  -- A wait moves the first of the bytes to come behind those that there were.
  pub record IsMoved (bs to_come : List ℕ) (n : ℕ) (x : Option ConnErr × Wire L) : Type 0 where
    pub got : List ℕ
    pub readable : lb.readable (x.1).buf ≡ bs ++ got
    pub left : got ++ incoming x.1 ≡ to_come
    pub enough : x.0 ≡ none → n ≤ length (lb.readable (x.1).buf)

  readable-put_all :
      (more : List (List ℕ)) (l : L) → lb.readable (put_all b more l) ≡ lb.readable l ++ joined more
  readable-put_all [] l = sym (append-nil (lb.readable l))
  readable-put_all (bs ∷ more) l =
      readable-put_all more (b.put bs l)
      ∙ ap (λ s. s ++ joined more) (lb.readable-put bs l)
      ∙ append_assoc (lb.readable l) bs (joined more)

  -- Nothing moves.
  still-IsMoved :
      (n : ℕ) (e : Option ConnErr) (s : Wire L)
      → (e ≡ none → n ≤ length (lb.readable s.buf))
      → IsMoved (lb.readable s.buf) (incoming s) n (e, s)
  still-IsMoved n e s h = record {
    got = [];
    readable = sym (append-nil (lb.readable s.buf));
    left = refl;
    enough = h;
  }

  failed : {A : Type 0} {e : ConnErr} → some e ≡ none → A
  failed h = cc

  fill-IsMoved :
      (n : ℕ) (s : Wire L) → s.coming ≡ [] → IsMoved (lb.readable s.buf) (incoming s) n (fill b n s)
  unfolding fill
  fill-IsMoved n s none_ = filled s.is_finalizing
    where
      all_ : lb.readable (put_all b s.unread s.buf) ≡ lb.readable s.buf ++ joined s.unread
      all_ = readable-put_all s.unread s.buf

      got_all :
          (e : Option ConnErr)
          → (e ≡ none → n ≤ length (lb.readable (put_all b s.unread s.buf)))
          → IsMoved
              (lb.readable s.buf)
              (incoming s)
              n
              (e, record s { buf = put_all b s.unread s.buf; unread = [] })
      got_all e h = record {
        got = joined s.unread;
        readable = all_;
        left = rw none_ (append-nil (joined s.unread));
        enough = h;
      }

      filled :
          (busy : Bool)
          → IsMoved (lb.readable s.buf) (incoming s) n (
              if busy then (some closed, s) else (
                if leb n (b.len (put_all b s.unread s.buf)) then none else some s.failure,
                record s { buf = put_all b s.unread s.buf; unread = [] },
              ))
      filled true = still-IsMoved n (some closed) s failed
      filled false = got_all _ (elim (Bool-cases (leb n (b.len (put_all b s.unread s.buf)))) [
        | inl e ↦ λ h. omega (arith, leb→le n _ e, lb.len_lem (put_all b s.unread s.buf))
        | inr e ↦ rw e (λ h. failed h)
      ])

  ended-IsMoved :
      (end : Ending) (n : ℕ) (s : Wire L)
      → s.coming ≡ []
      → IsMoved (lb.readable s.buf) (incoming s) n (ended b end n s)
  unfolding ended
  ended-IsMoved stays n s e = still-IsMoved n (some read_timeout) s failed
  ended-IsMoved (inactive true) n s e = still-IsMoved n (some closed) s failed
  ended-IsMoved (inactive false) n s e = fill-IsMoved n s e

  long_enough : (n : ℕ) (l : L) → ltb (b.len l) n ≡ false → n ≤ length (lb.readable l)
  long_enough n l e = ground (arith, lb.len_lem l)

  -- Bytes come before the others.
  put-IsMoved :
      (bs to_come : List ℕ) (n : ℕ) (s : Wire L) (x : Option ConnErr × Wire L)
      → IsMoved (lb.readable (b.put bs s.buf)) to_come n x
      → IsMoved (lb.readable s.buf) (bs ++ to_come) n x
  put-IsMoved bs to_come n s x m = record {
    got = bs ++ m.got;
    readable =
        m.readable
        ∙ ap (λ t. t ++ m.got) (lb.readable-put bs s.buf)
        ∙ append_assoc (lb.readable s.buf) bs m.got;
    left = append_assoc bs m.got (incoming x.1) ∙ ap (λ t. bs ++ t) m.left;
    enough = m.enough;
  }

  wait_loop-IsMoved :
      (es : List Event) (n : ℕ) (s : Wire L)
      → IsMoved (lb.readable s.buf) (bytes_of es ++ joined s.unread) n (wait_loop b es n s)
  unfolding wait_loop
  wait_loop-IsMoved [] n s = elim (Bool-cases (ltb (b.len s.buf) n)) [
    | inl e ↦ rw e (ended-IsMoved s.ending n (record s { coming = [] }) refl)
    | inr e ↦ rw e (still-IsMoved n none (record s { coming = [] }) (λ h. long_enough n s.buf e))
  ]
  wait_loop-IsMoved (arrives bs ∷ es) n s = elim (Bool-cases (ltb (b.len s.buf) n)) [
    | inl e ↦
        let m =
          put-IsMoved bs (bytes_of es ++ joined s.unread) n s _
            (wait_loop-IsMoved es n (record s { buf = b.put bs s.buf })) in
        rw (wait_loop, e, append_assoc bs (bytes_of es) (joined s.unread)) m
    | inr e ↦
        rw (wait_loop, e)
          (still-IsMoved n none (record s { coming = arrives bs ∷ es })
            (λ h. long_enough n s.buf e))
  ]
  wait_loop-IsMoved (fires ∷ es) n s = elim (Bool-cases (ltb (b.len s.buf) n)) [
    | inl e ↦ rw e (still-IsMoved n (some read_timeout) (record s { coming = es }) failed)
    | inr e ↦
        rw e (still-IsMoved n none (record s { coming = fires ∷ es }) (λ h. long_enough n s.buf e))
  ]

  pub wait_read-IsMoved :
      (n : ℕ) (s : Wire L) → IsMoved (lb.readable s.buf) (incoming s) n (wait_read b n s)
  unfolding wait_read
  wait_read-IsMoved n s = elim (Bool-cases (leb n (b.len s.buf))) [
    | inl e ↦ rw e (still-IsMoved n none s (λ h. omega (arith, leb→le n _ e, lb.len_lem s.buf)))
    | inr e ↦ rw e (wait_loop-IsMoved s.coming n s)
  ]

  pub ready : (n : ℕ) (s : Wire L) → n ≤ length (lb.readable s.buf) → wait_read b n s ≡ (none, s)
  unfolding wait_read
  ready n s h = let e : leb n (b.len s.buf) ≡ true = ground (arith, lb.len_lem s.buf) in rw e refl

  abbrev pub input_Laws : InputLaws (input_of b)
  input_Laws = record {
    readable = λ s. lb.readable s.buf;
    incoming = incoming;
    arrived = λ n s. (wait_read-IsMoved n s).got;
    len_lem = λ s. lb.len_lem s.buf;
    readable-wait_read = λ n s. (wait_read-IsMoved n s).readable;
    incoming-wait_read = λ n s. (wait_read-IsMoved n s).left;
    enough = λ n s. (wait_read-IsMoved n s).enough;
    found = λ delim n s. lb.found delim n s.buf;
    not_found = λ delim n s. lb.not_found delim n s.buf;
    next_lem = λ n s. lb.next_lem n s.buf;
    incoming-next = λ n s. refl;
    ready = ready;
  }

  -- Over a buffer that keeps its laws, `Until` on a connection with a read timeout returns, with one more wait allowed
  -- than there are bytes in the buffer and to come, whatever the poller reads, whenever the timer fires and however the
  -- connection ends. Without an error it gives the bytes up to the first delimiter of the stream, with it, and with an
  -- error all that was buffered; what it gives and what is left are, in order, what there was.
  pub until-input_of :
      (fuel delim : ℕ) (s : Wire L)
      → length (total input_Laws s) < fuel
      → Returns (Gives input_Laws delim s) (until (input_of b) fuel delim s)
  until-input_of fuel delim s lt = until-Gives input_Laws fuel delim s lt
