-- ===== src/Intq/Ring.antt =====
-- The ring of a queue holds a sequence of bytes.
use os_pintos.Common.{
  ℕ, suc, ◌+◌, ◌%◌, ◌≡◌, ◌<◌, refl, sym, ◌∙◌, ap, List, [], ◌∷◌, ◌++◌, Bool, false, Option, none,
  some, ok, length, arith, ◌==◌,
}
use os_pintos.Sched.{Kernel, ready, blocked, insert_ready, set_status}
use os_pintos.Sched.Invariant.{IsValid}
use os_pintos.Sched.Switch.{unblock_lem}
use os_pintos.Intq.{Intq, next, signal, write_byte, intq_getc, intq_putc}

-- The bytes `l` stand from a position on.
abbrev pub Run : (ℕ → ℕ) → ℕ → List ℕ → Type 0
Run buf pos [] = Unit {0}
Run buf pos (b ∷ l) = (buf pos ≡ b) × Run buf (next pos) l

pub record Holds (q : Intq) (l : List ℕ) : Type 0 where
  pub run : Run q.buf q.tail l
  pub head : q.head ≡ (q.tail + length l) % 64
  pub tail : q.tail < 64
  pub fits : length l < 64

Run-write_byte :
    (buf : ℕ → ℕ) (pos head b : ℕ) (l : List ℕ)
    → Run buf pos l
    → head ≡ (pos + length l) % 64
    → pos < 64
    → length l < 64
    → Run (write_byte buf head b) pos (l ++ (b ∷ []))
Run-write_byte buf pos head b [] r h p n =
    let e : head ≡ pos = omega (arith, h, p) in (ground (arith, e), tt)
Run-write_byte buf pos head b (x ∷ l) r h p n =
    let e : head == pos ≡ false = ground (arith, h, p, n) in
    let h1 : head ≡ ((pos + 1) % 64 + length l) % 64 = omega (arith, h, p, n) in
    (rw e r.0, Run-write_byte buf (next pos) head b l r.1 h1 (omega arith) (omega (arith, n)))

-- A thread that waits is blocked.
abbrev pub IsBlockedWaiter : Kernel → Option ℕ → Type 0
IsBlockedWaiter k none = Unit {0}
IsBlockedWaiter k (some t) = (k.threads t).status ≡ blocked

-- The kernel after a thread that waits, if one does, was unblocked: it is ready and in its place in the
-- ready list.
abbrev pub unblocked : Kernel → Option ℕ → Kernel
unblocked k none = k
unblocked k (some t) = set_status (insert_ready k t) t ready

signal_lem :
    (k : Kernel) (w : Option ℕ)
    → IsValid k
    → IsBlockedWaiter k w
    → (signal k w ≡ ok (unblocked k w)) × IsValid (unblocked k w)
signal_lem k none v b = (refl, v)
signal_lem k (some t) v b = unblock_lem k t v b

full_below :
    (head tail n : ℕ)
    → head ≡ (tail + n) % 64
    → tail < 64
    → n < 63
    → (head + 1) % 64 == tail ≡ false
full_below head tail n h t k = ground (arith, h, t, k)

not_empty_above :
    (head tail n : ℕ) → head ≡ (tail + suc n) % 64 → tail < 64 → suc n < 64 → head == tail ≡ false
not_empty_above head tail n h t k = ground (arith, h, t, k)

length_snoc : (l : List ℕ) (b : ℕ) → length (l ++ (b ∷ [])) ≡ suc (length l)
length_snoc [] b = refl
length_snoc (x ∷ l) b = ap suc (length_snoc l b)

-- intq_putc into a queue of less than 63 bytes puts the byte behind them, from a handler or not,
-- unblocks the thread that waits for it, if one does and is blocked, after which none is entered as
-- waiting, and keeps the kernel valid.
pub intq_putc_lem :
    (in_handler : Bool) (k : Kernel) (q : Intq) (l : List ℕ) (byte : ℕ)
    → Holds q l
    → length l < 63
    → IsValid k
    → IsBlockedWaiter k q.not_empty
    → (q1 : Intq) × (intq_putc in_handler k q byte ≡ ok (some (unblocked k q.not_empty, q1)))
      × Holds q1 (l ++ (byte ∷ []))
      × (q1.not_empty ≡ none)
      × (q1.not_full ≡ q.not_full)
      × IsValid (unblocked k q.not_empty)
unfolding intq_putc
intq_putc_lem in_handler k q l byte h n v w =
    let (e, v1) = signal_lem k q.not_empty v w in
    let room = full_below q.head q.tail (length l) h.head h.tail n in
    let len = length_snoc l byte in
    let head : (q.head + 1) % 64 ≡ (q.tail + suc (length l)) % 64 = omega (arith, h.head) in
    (
      record q { buf = write_byte q.buf q.head byte; head = next q.head; not_empty = none },
      rw (room, e) refl,
      record {
        run = Run-write_byte q.buf q.tail q.head byte l h.run h.head h.tail h.fits;
        head = head ∙ ap (λ m. (q.tail + m) % 64) (sym len);
        tail = h.tail;
        fits = omega (arith, len, n);
      },
      refl,
      refl,
      v1,
    )

-- intq_getc of a queue with bytes takes the first, from a handler or not, unblocks the thread
-- that waits for room, if one does and is blocked, after which none is entered as waiting, and keeps
-- the kernel valid.
pub intq_getc_lem :
    (in_handler : Bool) (k : Kernel) (q : Intq) (byte : ℕ) (l : List ℕ)
    → Holds q (byte ∷ l)
    → IsValid k
    → IsBlockedWaiter k q.not_full
    → (q1 : Intq) × (intq_getc in_handler k q ≡ ok (some (unblocked k q.not_full, q1, byte)))
      × Holds q1 l
      × (q1.not_full ≡ none)
      × (q1.not_empty ≡ q.not_empty)
      × IsValid (unblocked k q.not_full)
unfolding intq_getc
intq_getc_lem in_handler k q byte l h v w =
    let (e, v1) = signal_lem k q.not_full v w in
    let filled = not_empty_above q.head q.tail (length l) h.head h.tail h.fits in
    let head : q.head ≡ ((q.tail + 1) % 64 + length l) % 64 = omega (arith, h.head) in
    let room =
      full_below q.head ((q.tail + 1) % 64) (length l) head (omega arith) (omega (arith, h.fits)) in
    (
      record q { tail = next q.tail; not_full = none },
      rw (filled, room, e)
          (ap
            (λ b.
              ok (
                some (unblocked k q.not_full, record q { tail = next q.tail; not_full = none }, b)))
            h.run.0),
      record { run = h.run.1; head = head; tail = omega arith; fits = omega (arith, h.fits) },
      refl,
      refl,
      v1,
    )
