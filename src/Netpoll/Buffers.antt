-- ===== src/Netpoll/Buffers.antt =====
-- A buffer of two lists, a reader of at most two bytes at a time and a writer that takes everything, and the theorems of
-- zcReader and zcWriter at them.
use gocore.Common.{
  ℕ, zero, suc, ◌+◌, ◌≤◌, ◌≡◌, refl, sym, ap, List, [], ◌∷◌, ◌++◌, Option, none, some, length,
  length-take, take, drop, take-append-drop, replicate, length-replicate, arith,
}
use gocore.Common.Int.{pos}
use gocore.Common.Run.{Returns}
use gocore.Netpoll.Buffer.{
  LinkBuffer, BufferLaws, IoReader, IoWriter, ReaderLaws, WriterLaws, Err, eof,
}
use gocore.Netpoll.ZcReader.{ZcReader, read_binary}
use gocore.Netpoll.ZcReader.Waits.{IsDelivered, Progress, read_binary-IsDelivered}
use gocore.Netpoll.ZcWriter.{new_zc_writer, malloc, malloc_len, write_at, flush, io_write}
use gocore.Netpoll.ZcWriter.Flushes.{zc_writes}
use gocore.Netpoll.ZcWriter.Output.{write_all, write_all-written}

abbrev Lists : Type 0
Lists = List ℕ × List ℕ

abbrev of_lists : LinkBuffer Lists
of_lists = record {
  new_link_buffer = ([], []);
  len = λ l. length l.0;
  malloc = λ n l. (none, (l.0, l.1 ++ replicate n 0));
  malloc_len = λ l. length l.1;
  write_at = λ i bs l. (l.0, take i l.1 ++ bs ++ drop (i + length bs) l.1);
  malloc_ack = λ n l. (l.0, take n l.1);
  flush = λ l. (l.0 ++ l.1, []);
  bytes = λ l. l.0;
  next = λ l. ((l.0, none), ([], l.1));
  peek = λ n l. (take n l.0, none);
  skip = λ n l. (none, (drop n l.0, l.1));
  read_binary = λ n l. ((take n l.0, none), (drop n l.0, l.1));
  until = λ delim l. (([], none), l);
  release = λ l. (none, l);
}

abbrev of_lists_Laws : BufferLaws of_lists
of_lists_Laws = record {
  readable = λ l. l.0;
  pending = λ l. l.1;
  len-new = refl;
  malloc_len-new = refl;
  len_lem = λ l. refl;
  malloc_len_lem = λ l. refl;
  bytes_lem = λ l. refl;
  readable-malloc = λ n l. refl;
  pending-malloc = λ n l e. (replicate n 0, length-replicate n 0, refl);
  pending-malloc_failed = λ n l e. cc;
  readable-write_at = λ i bs l. refl;
  pending-write_at = λ i bs l h. refl;
  readable-malloc_ack = λ n l. refl;
  pending-malloc_ack = λ n l. refl;
  readable-flush = λ l. refl;
  pending-flush = λ l. refl;
  skip_lem = λ n l h. (refl, refl);
  pending-skip = λ n l. refl;
  read_binary_lem = λ n l h. (refl, refl);
  pending-read_binary = λ n l. refl;
  readable-release = λ l. refl;
  pending-release = λ l. refl;
}

-- The rest of a file; its end is an error.
abbrev end_of : List ℕ → Option Err
end_of [] = some eof
end_of (c ∷ s) = none

abbrev at_most : ℕ → ℕ
at_most zero = 0
at_most (suc zero) = 1
at_most (suc (suc n)) = 2

abbrev file : IoReader (List ℕ)
file n s = (
  record { bytes = take (at_most n) s; num = pos (length (take (at_most n) s)); error = end_of s },
  drop (at_most n) s,
)

at_most_le : (n : ℕ) → at_most n ≤ n
at_most_le zero = omega arith
at_most_le (suc zero) = omega arith
at_most_le (suc (suc n)) = omega arith

abbrev file_Laws : ReaderLaws file
file_Laws = record {
  stream = λ s. s;
  num_lem = λ n s. refl;
  bytes_le = λ n s. omega (arith, length-take (at_most n) s, at_most_le n);
  stream-read = λ n s. take-append-drop (at_most n) s;
}

file-Progress : Progress file
file-Progress zero s h e = elim h [ ]
file-Progress (suc n) [] h e = cc
file-Progress (suc zero) (c ∷ s) h e = omega arith
file-Progress (suc (suc n)) (c ∷ s) h e = omega arith

take-length : (s : List ℕ) → take (length s) s ≡ s
take-length [] = refl
take-length (c ∷ s) = ap (◌∷◌ c) (take-length s)

abbrev everything : IoWriter (List ℕ)
everything bs w = ((pos (length bs), none), w ++ bs)

abbrev everything_Laws : WriterLaws everything
everything_Laws = record {
  written = λ w. w;
  count = λ bs w. length bs;
  num_lem = λ bs w. refl;
  count_le = λ bs w. omega arith;
  written-write = λ bs w. ap (λ s. w ++ s) (sym (take-length bs));
  count_all = λ bs w e. refl;
}

abbrev word : List ℕ
word = 104 ∷ 101 ∷ 108 ∷ 108 ∷ 111 ∷ []

abbrev reader : ZcReader Lists (List ℕ)
reader = record { buf = ([], []); source = word }

read_binary-IsDelivered_example :
    Returns (IsDelivered of_lists_Laws file_Laws 3 reader) (read_binary of_lists file 3 3 reader)
read_binary-IsDelivered_example =
    read_binary-IsDelivered of_lists_Laws file_Laws file-Progress 3 3 reader refl (omega arith)

write_all-written_example :
    (write_all
      (zc_writes of_lists everything)
      (word ∷ word ∷ [])
      (new_zc_writer of_lists everything [])).1.sink
    ≡ word ++ word
unfolding write_all io_write malloc malloc_len write_at flush new_zc_writer
write_all-written_example =
    write_all-written of_lists_Laws everything_Laws (word ∷ word ∷ []) [] refl
