-- ===== src/Netpoll/Connection/Wakes.antt =====
-- netpoll/connection_impl.go, connection_reactor.go: a reader in `waitRead`, the poller in `inputAck`, and who closes the
-- connection, in any order of their steps. Of a buffer its length counts. There is one reader, without a timeout, no
-- handler of requests, so that `onRequest` says that the reader is to be woken, and one poller at work.
use gocore.Common.{ℕ, ◌+◌, ◌-◌, ◌<◌, ◌≤◌, ◌≡◌, Bool, true, false, Option, none, some}
use gocore.Netpoll.Connection.{Conn, wakes, trigger_read}

-- Where the reader stands: not in `waitRead`, before it stores the size that it waits for, at the head of the loop,
-- between its two tests, and at the receive from the trigger.
pub data Reader : Type 0 where
  idle : Reader
  asking : ℕ → Reader
  looping : ℕ → Reader
  testing : ℕ → Reader
  blocked : ℕ → Reader

-- `poller` is the length that `bookAck` gave, until the poller has seen to the trigger, and `closing` is whether someone
-- who closed the connection has still to trigger the reader.
pub record System : Type 0 where
  pub conn : Conn ℕ
  pub is_active : Bool
  pub reader : Reader
  pub poller : Option ℕ
  pub closing : Bool

abbrev sized : ℕ → Conn ℕ → Conn ℕ
sized n c = record c { wait_read_size = n }

pub data Step : System → System → Type 0 where
  asks :
      (n : ℕ) {s : System}
      → s.reader ≡ idle
      → s.conn.input < n
      → Step s (record s { reader = asking n })
  stores :
      (n : ℕ) {s : System}
      → s.reader ≡ asking n
      → Step s (record s { reader = looping n; conn = sized n s.conn })
  is_enough :
      (n : ℕ) {s : System}
      → s.reader ≡ looping n
      → n ≤ s.conn.input
      → Step s (record s { reader = idle; conn = sized 0 s.conn })
  is_short :
      (n : ℕ) {s : System}
      → s.reader ≡ looping n
      → s.conn.input < n
      → Step s (record s { reader = testing n })
  waits :
      (n : ℕ) {s : System}
      → s.reader ≡ testing n
      → s.is_active ≡ true
      → Step s (record s { reader = blocked n })
  gives_up :
      (n : ℕ) {s : System}
      → s.reader ≡ testing n
      → s.is_active ≡ false
      → Step s (record s { reader = idle; conn = sized 0 s.conn })
  receives :
      (n : ℕ) {s : System}
      → s.reader ≡ blocked n
      → s.conn.read_trigger ≡ true
      → Step s (record s { reader = looping n; conn = record s.conn { read_trigger = false } })
  consumes :
      (k : ℕ) {s : System}
      → s.reader ≡ idle
      → k ≤ s.conn.input
      → Step s (record s { conn = record s.conn { input = s.conn.input - k } })
  acks :
      (k : ℕ) {s : System}
      → s.poller ≡ none
      → Step s (record s {
        conn = record s.conn { input = s.conn.input + k };
        poller = some (s.conn.input + k);
      })
  triggers :
      (len : ℕ) {s : System}
      → s.poller ≡ some len
      → Step s (record s { conn = wakes true len s.conn; poller = none })
  closes : {s : System} → Step s (record s { is_active = false; closing = true })
  tells :
      {s : System}
      → s.closing ≡ true
      → Step s (record s { conn = trigger_read s.conn; closing = false })

pub data Steps : System → System → Type 0 where
  done : {s : System} → Steps s s
  next : {s s' s'' : System} → Step s s' → Steps s' s'' → Steps s s''
