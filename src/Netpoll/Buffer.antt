-- ===== src/Netpoll/Buffer.antt =====
-- netpoll/nocopy.go, nocopy_readwriter.go: what they call of the buffer `LinkBuffer`, which is not in the repository,
-- and of an `io.Reader` and an `io.Writer`.
use gocore.Common.{ℕ, ◌+◌, ◌≤◌, ◌≡◌, List, [], ◌++◌, Option, none, some, length, take, drop}
use gocore.Common.Int.{ℤ, pos}

-- `io.EOF`, the exception that stands for it, a negative count of bytes, and the errors of others.
pub data Err : Type 0 where
  eof eof_exception : Err
  negative_count : ℤ → Err
  other : ℕ → Err

-- A buffer has bytes to read, and behind them bytes that were allocated by `Malloc` and not flushed. A slice that
-- `Malloc` gives is written to by `write_at`, from its offset among the allocated bytes.
pub record LinkBuffer (L : Type 0) : Type 0 where
  pub new_link_buffer : L
  pub len : L → ℕ
  pub malloc : ℕ → L → Option Err × L
  pub malloc_len : L → ℕ
  pub write_at : ℕ → List ℕ → L → L
  pub malloc_ack : ℕ → L → L
  pub flush : L → L
  pub bytes : L → List ℕ
  pub next : L → (List ℕ × Option Err) × L
  pub peek : ℕ → L → List ℕ × Option Err
  pub skip : ℕ → L → Option Err × L
  pub read_binary : ℕ → L → (List ℕ × Option Err) × L
  pub until : ℕ → L → (List ℕ × Option Err) × L
  pub release : L → Option Err × L

-- The bytes that a read put at the start of its slice, its count, and its error.
pub record Answer : Type 0 where
  pub bytes : List ℕ
  pub num : ℤ
  pub error : Option Err

-- An `io.Reader` in the state `S`, by the length of the slice, and an `io.Writer` in the state `W`.
abbrev pub IoReader : Type 0 → Type 0
IoReader S = ℕ → S → Answer × S

abbrev pub IoWriter : Type 0 → Type 0
IoWriter W = List ℕ → W → (ℤ × Option Err) × W

-- What the buffer promises.
pub record BufferLaws {L : Type 0} (b : LinkBuffer L) : Type 0 where
  pub readable : L → List ℕ
  pub pending : L → List ℕ
  pub len-new : readable b.new_link_buffer ≡ []
  pub malloc_len-new : pending b.new_link_buffer ≡ []
  pub len_lem : (l : L) → b.len l ≡ length (readable l)
  pub malloc_len_lem : (l : L) → b.malloc_len l ≡ length (pending l)
  pub bytes_lem : (l : L) → b.bytes l ≡ readable l
  pub readable-malloc : (n : ℕ) (l : L) → readable (b.malloc n l).1 ≡ readable l
  pub pending-malloc :
      (n : ℕ) (l : L)
      → (b.malloc n l).0 ≡ none
      → (fresh : List ℕ) × (length fresh ≡ n) × (pending (b.malloc n l).1 ≡ pending l ++ fresh)
  pub pending-malloc_failed :
      (n : ℕ) (l : L) {e : Err} → (b.malloc n l).0 ≡ some e → pending (b.malloc n l).1 ≡ pending l
  pub readable-write_at : (i : ℕ) (bs : List ℕ) (l : L) → readable (b.write_at i bs l) ≡ readable l
  pub pending-write_at :
      (i : ℕ) (bs : List ℕ) (l : L)
      → i + length bs ≤ length (pending l)
      → pending (b.write_at i bs l) ≡ take i (pending l) ++ bs ++ drop (i + length bs) (pending l)
  pub readable-malloc_ack : (n : ℕ) (l : L) → readable (b.malloc_ack n l) ≡ readable l
  pub pending-malloc_ack : (n : ℕ) (l : L) → pending (b.malloc_ack n l) ≡ take n (pending l)
  pub readable-flush : (l : L) → readable (b.flush l) ≡ readable l ++ pending l
  pub pending-flush : (l : L) → pending (b.flush l) ≡ []
  pub skip_lem :
      (n : ℕ) (l : L)
      → n ≤ length (readable l)
      → ((b.skip n l).0 ≡ none) × (readable (b.skip n l).1 ≡ drop n (readable l))
  pub pending-skip : (n : ℕ) (l : L) → pending (b.skip n l).1 ≡ pending l
  pub read_binary_lem :
      (n : ℕ) (l : L)
      → n ≤ length (readable l)
      → ((b.read_binary n l).0 ≡ (take n (readable l), none))
        × (readable (b.read_binary n l).1 ≡ drop n (readable l))
  pub pending-read_binary : (n : ℕ) (l : L) → pending (b.read_binary n l).1 ≡ pending l
  pub readable-release : (l : L) → readable (b.release l).1 ≡ readable l
  pub pending-release : (l : L) → pending (b.release l).1 ≡ pending l

-- What `io.Reader` documents, of the reader of a stream of bytes: a count of the bytes, which are at most as many as
-- asked for, and the next of the stream.
pub record ReaderLaws {S : Type 0} (read : IoReader S) : Type 0 where
  pub stream : S → List ℕ
  pub num_lem : (n : ℕ) (s : S) → (read n s).0.num ≡ pos (length (read n s).0.bytes)
  pub bytes_le : (n : ℕ) (s : S) → length (read n s).0.bytes ≤ n
  pub stream-read : (n : ℕ) (s : S) → (read n s).0.bytes ++ stream (read n s).1 ≡ stream s

-- What `io.Writer` documents: the count of the bytes that were written, and an error if these are not all.
pub record WriterLaws {W : Type 0} (write : IoWriter W) : Type 0 where
  pub written : W → List ℕ
  pub count : List ℕ → W → ℕ
  pub num_lem : (bs : List ℕ) (w : W) → (write bs w).0.0 ≡ pos (count bs w)
  pub count_le : (bs : List ℕ) (w : W) → count bs w ≤ length bs
  pub written-write :
      (bs : List ℕ) (w : W) → written (write bs w).1 ≡ written w ++ take (count bs w) bs
  pub count_all : (bs : List ℕ) (w : W) → (write bs w).0.1 ≡ none → count bs w ≡ length bs
