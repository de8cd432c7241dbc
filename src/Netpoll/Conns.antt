-- ===== src/Netpoll/Conns.antt =====
-- A connection over buffers that are lists, and the theorems of connections at it.
use Prim.Native.Nat.{max}
use gocore.Common.{
  ℕ, ◌+◌, ◌*◌, ◌^◌, ◌≤◌, ◌≡◌, refl, inl, Bool, true, false, List, [], ◌∷◌, ◌++◌, Option, none,
  length, take, drop, take-append-drop, ◌==◌, arith,
}
use gocore.Common.Int.{ℤ, pos}
use gocore.Netpoll.Connection.{Conn, ConnBuffer, init, flush, pagesize}
use gocore.Netpoll.Connection.Sizes.{reads_bytes, releases, handle_all, handle_all-within}
use gocore.Netpoll.Connection.Sends.{SendLaws, Sent, some_sent, Ends, out, flush-Ends}
use gocore.Netpoll.Connection.Wakes.{
  System, Steps, idle, blocked, asks, stores, is_short, waits, acks, triggers, next, done,
}
use gocore.Netpoll.Connection.Awake.{blocked_lem}

abbrev lists : ConnBuffer (List ℕ)
lists = record {
  len = length;
  is_empty = λ l. length l == 0;
  book = λ size largest l. l;
  book_ack = λ n l. (length l + n, l);
  calc_max_size = length;
  reset_tail = λ n l. l;
  get_bytes = take;
  skip = λ n l. (none, drop n l);
  release = λ l. l;
}

abbrev lists_Laws : SendLaws lists
lists_Laws = record {
  readable = λ l. l;
  behind = drop;
  is_empty_lem = λ l. refl;
  get_bytes_lem = λ n l. take-append-drop n l;
  skip_lem = λ n l h. (refl, refl);
  readable-release = λ l. refl;
}

abbrev always : Conn (List ℕ) → Bool
always c = true

handle_all-within_example :
    ((k : ℕ) × ((handle_all lists 2048 always
          (reads_bytes (pos 512) ∷ releases true ∷ [])
          (init [] [])).book_size
        ≡ 512 * 2 ^ k))
    × ((handle_all lists 2048 always
          (reads_bytes (pos 512) ∷ releases true ∷ [])
          (init [] [])).book_size
        ≤ 2048)
    × ((handle_all lists 2048 always
          (reads_bytes (pos 512) ∷ releases true ∷ [])
          (init [] [])).max_size
        ≤ max pagesize 2048)
handle_all-within_example =
    handle_all-within lists always 2 2048 refl [] [] (reads_bytes (pos 512) ∷ releases true ∷ [])

-- One byte at a time.
abbrev one : List ℕ → List ℕ → (ℤ × Option ℕ) × List ℕ
one bs w = ((pos (length (take 1 bs)), none), w ++ take 1 bs)

one-Sent : (bs w : List ℕ) → Sent (λ w. w) bs w (one bs w)
one-Sent [] w = some_sent 0 (omega arith) refl
one-Sent (x ∷ bs) w = some_sent 1 (omega arith) refl

abbrev holding : Conn (List ℕ)
holding = record (init {L = List ℕ} [] []) { output = 7 ∷ 8 ∷ [] }

flush-Ends_example :
    let x = flush lists 2048 always 1 one 11 none holding [] in
    Ends lists_Laws (λ w. w) 2048 always (x.0).1 (x.0).0
    × (out lists_Laws (λ w. w) 2048 always (x.0).1 x.1 ≡ 7 ∷ 8 ∷ [])
flush-Ends_example = flush-Ends lists_Laws (λ w. w) 2048 always 1 one one-Sent 11 none holding []

abbrev quiet : System
quiet = record { conn = init 0 0; is_active = true; reader = idle; poller = none; closing = false }

-- The bytes come between the reader's test and its receive.
abbrev overtaken : System
overtaken = record quiet {
  conn = record quiet.conn { input = 5; wait_read_size = 3; read_trigger = true };
  reader = blocked 3;
}

overtaken-Steps : Steps quiet overtaken
unfolding init
overtaken-Steps = next (asks 3 refl (omega arith)) (
    next (stores 3 refl) (
      next (is_short 3 refl (omega arith))
        (next (acks 5 refl) (next (waits 3 refl refl) (next (triggers 5 refl) done)))))

blocked_lem_example : overtaken.conn.read_trigger ≡ true
blocked_lem_example = blocked_lem refl overtaken-Steps 3 refl refl refl (inl (omega arith))
