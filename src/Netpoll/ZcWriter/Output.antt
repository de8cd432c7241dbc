-- ===== src/Netpoll/ZcWriter/Output.antt =====
-- netpoll/nocopy_readwriter.go: what zcWriter and ioWriter write.
use mathlib.Core.List.{append_assoc, append-nil}
use gocore.Common.{
  ℕ, ◌≡◌, refl, sym, ap, ◌∙◌, inl, inr, Bool, true, false, List, [], ◌∷◌, ◌++◌, none, some,
  Option-cases,
}
use gocore.Netpoll.Buffer.{LinkBuffer, BufferLaws, IoWriter, WriterLaws, Err}
use gocore.Netpoll.ZcWriter.{ZcWriter, new_zc_writer, Writes, io_write}
use gocore.Netpoll.ZcWriter.Flushes.{zc_writes, io_write-IsWritten}

-- Texts that are written one after another, up to the first error; whether there was none.
unfoldable pub write_all : {W : Type 0} → Writes W → List (List ℕ) → W → Bool × W
write_all o [] w = (true, w)
write_all o (p ∷ ps) w =
    let x = io_write o p w in
    let rest = write_all o ps x.1 in elim (x.0).1 [ none ↦ rest | some e ↦ (false, x.1) ]

abbrev pub concat : List (List ℕ) → List ℕ
concat [] = []
concat (p ∷ ps) = p ++ concat ps

-- A write without an error, and one with an error.
module _ {W : Type 0} (o : Writes W) (p : List ℕ) (ps : List (List ℕ)) (w : W) where
  write_all-on :
      (io_write o p w).0.1 ≡ none → write_all o (p ∷ ps) w ≡ write_all o ps (io_write o p w).1
  unfolding write_all
  write_all-on e = rw (write_all, e) refl

  write_all-off : {x : Err} → (io_write o p w).0.1 ≡ some x → (write_all o (p ∷ ps) w).0 ≡ false
  unfolding write_all
  write_all-off e = rw (write_all, e) refl

apart : false ≡ true → ⊥
apart h = cc

module _ {L W : Type 0} {b : LinkBuffer L} {write : IoWriter W} (lb : BufferLaws b)
    (lw : WriterLaws write) where
  write_all-IsWritten :
      (ps : List (List ℕ)) (w : ZcWriter L W)
      → lb.pending w.buf ≡ []
      → lb.readable w.buf ≡ []
      → (write_all (zc_writes b write) ps w).0 ≡ true
      → lw.written (write_all (zc_writes b write) ps w).1.sink ≡ lw.written w.sink ++ concat ps
  unfolding write_all
  write_all-IsWritten [] w clean empty h = sym (append-nil _)
  write_all-IsWritten (p ∷ ps) w clean empty h =
      let x = io_write (zc_writes b write) p w in
      let k = io_write-IsWritten lb lw p w clean in
      elim (Option-cases (x.0).1) [
        | inl e ↦
            let on = write_all-on (zc_writes b write) p ps w e in
            let (n, written, left) = k.all e in
            ap (λ y. lw.written y.1.sink) on
            ∙ write_all-IsWritten ps x.1 k.empty left (ap (λ y. y.0) (sym on) ∙ h)
            ∙ ap (λ s. s ++ concat ps) (written ∙ ap (λ s. (lw.written w.sink ++ s) ++ p) empty)
            ∙ append_assoc (lw.written w.sink ++ []) p (concat ps)
            ∙ ap (λ s. s ++ (p ++ concat ps)) (append-nil (lw.written w.sink))
        | inr (y, e) ↦ absurd (apart (sym (write_all-off (zc_writes b write) p ps w e) ∙ h))
      ]

-- Texts that are written through an ioWriter over a new zcWriter reach the `io.Writer` in full and in order, if no
-- write gives an error.
pub write_all-written :
    {L W : Type 0} {b : LinkBuffer L} {write : IoWriter W} (lb : BufferLaws b)
    (lw : WriterLaws write)
    → (ps : List (List ℕ)) (s : W)
    → (write_all (zc_writes b write) ps (new_zc_writer b write s)).0 ≡ true
    → lw.written (write_all (zc_writes b write) ps (new_zc_writer b write s)).1.sink
      ≡ lw.written s ++ concat ps
unfolding new_zc_writer
write_all-written {L} {W} {b} {write} lb lw ps s h =
    write_all-IsWritten lb lw ps (new_zc_writer b write s) lb.malloc_len-new lb.len-new h
