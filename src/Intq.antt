-- ===== src/Intq.antt =====
-- Queues of bytes between interrupt handlers and threads, devices/intq.c of project5, with interrupts
-- off. The buffer is a function from positions. A call that has to wait puts its thread to sleep;
-- what it does until it is woken, with the lock of the queue, is not modelled.
pub mod Ring
mod Tests
use os_pintos.Common.{
  ℕ, ◌+◌, ◌%◌, Bool, true, false, not, Option, none, some, Outcome, ok, panic, ◌>>=◌, ◌>>◌, assert,
  ◌==◌, if◌then◌else◌,
}
use os_pintos.Sched.{Kernel, thread_unblock}

-- INTQ_BUFSIZE
abbrev pub intq_bufsize : ℕ
intq_bufsize = 64

pub record Intq : Type 0 where
  pub not_full : Option ℕ
  pub not_empty : Option ℕ
  pub buf : ℕ → ℕ
  pub head : ℕ
  pub tail : ℕ

abbrev pub next : ℕ → ℕ
next pos = (pos + 1) % intq_bufsize

-- What the buffer holds before the first byte is `garbage`.
abbrev pub intq_init : (ℕ → ℕ) → Intq
intq_init garbage = record { not_full = none; not_empty = none; buf = garbage; head = 0; tail = 0 }

abbrev pub intq_empty : Intq → Bool
intq_empty q = q.head == q.tail

abbrev pub intq_full : Intq → Bool
intq_full q = next q.head == q.tail

-- Wakes the thread that waits, if one does; the caller clears the field.
abbrev pub signal : Kernel → Option ℕ → Outcome Kernel
signal k none = ok k
signal k (some t) = thread_unblock k t

abbrev pub write_byte : (ℕ → ℕ) → ℕ → ℕ → ℕ → ℕ
write_byte buf pos byte p = if pos == p then byte else buf p

-- The byte with what is left of the queue; none is a call that waits, which a handler must not.
unfoldable pub intq_getc : Bool → Kernel → Intq → Outcome (Option (Kernel × Intq × ℕ))
intq_getc in_handler k q = if intq_empty q then (if in_handler then panic else ok none) else (do
  let q1 = record q { tail = next q.tail }
  assert (not (intq_full q1))
  k1 ← signal k q1.not_full
  ok (some (k1, record q1 { not_full = none }, q.buf q.tail)))

unfoldable pub intq_putc : Bool → Kernel → Intq → ℕ → Outcome (Option (Kernel × Intq))
intq_putc in_handler k q byte = if intq_full q then (if in_handler then panic else ok none) else (do
  let q1 = record q { buf = write_byte q.buf q.head byte; head = next q.head }
  assert (not (intq_empty q1))
  k1 ← signal k q1.not_empty
  ok (some (k1, record q1 { not_empty = none })))
