-- ===== src/Links.antt =====
-- The links of kernel lists, lib/kernel/list.c of project5: routines on the memory of list elements.
-- An address is a number, NULL is 0; the memory is what each element has for `next` and `prev`.
pub mod Chain
pub mod Places
pub mod Insert
pub mod Remove
pub mod Refine
pub mod Queue
pub mod Fifo
mod Tests
use os_pintos.Common.{
  ℕ, zero, suc, ◌+◌, Bool, true, false, not, ◌&&◌, ◌||◌, Outcome, ok, panic, ◌>>=◌, ◌>>◌, assert,
  ◌==◌, if◌then◌else◌,
}

pub record Memory : Type 0 where
  pub next : ℕ → ℕ
  pub prev : ℕ → ℕ

-- `struct list`: the addresses of its two sentinels.
pub record Ends : Type 0 where
  pub head : ℕ
  pub tail : ℕ

abbrev pub store : (ℕ → ℕ) → ℕ → ℕ → ℕ → ℕ
store f a v t = if a == t then v else f t

abbrev pub set_next : Memory → ℕ → ℕ → Memory
set_next m a v = record m { next = store m.next a v }

abbrev pub set_prev : Memory → ℕ → ℕ → Memory
set_prev m a v = record m { prev = store m.prev a v }

abbrev pub null : ℕ → Bool
null a = a == 0

abbrev pub is_head : Memory → ℕ → Bool
is_head m e = not (null e) && (null (m.prev e) && not (null (m.next e)))

abbrev pub is_interior : Memory → ℕ → Bool
is_interior m e = not (null e) && (not (null (m.prev e)) && not (null (m.next e)))

abbrev pub is_tail : Memory → ℕ → Bool
is_tail m e = not (null e) && (not (null (m.prev e)) && null (m.next e))

abbrev pub list_init : Memory → Ends → Memory
list_init m l =
    set_next (set_prev (set_next (set_prev m l.head 0) l.head l.tail) l.tail l.head) l.tail 0

abbrev pub list_begin : Memory → Ends → ℕ
list_begin m l = m.next l.head

unfoldable pub list_next : Memory → ℕ → Outcome ℕ
list_next m e = do assert (is_head m e || is_interior m e); ok (m.next e)

unfoldable pub list_prev : Memory → ℕ → Outcome ℕ
list_prev m e = do assert (is_interior m e || is_tail m e); ok (m.prev e)

-- The four stores of list_insert, in their order.
abbrev pub link : Memory → ℕ → ℕ → Memory
link m before elem =
    let m1 = set_next (set_prev m elem (m.prev before)) elem before in
    set_prev (set_next m1 (m1.prev before) elem) before elem

unfoldable pub list_insert : Memory → ℕ → ℕ → Outcome Memory
list_insert m before elem = do
  assert (is_interior m before || is_tail m before)
  assert (not (null elem))
  ok (link m before elem)

-- The stores that take the elements from `first` to `last` out of their list.
abbrev pub unlink : Memory → ℕ → ℕ → Memory
unlink m first last =
    let m1 = set_next m (m.prev first) (m.next last) in set_prev m1 (m1.next last) (m1.prev first)

-- The element that followed, with the memory.
unfoldable pub list_remove : Memory → ℕ → Outcome (Memory × ℕ)
list_remove m e = do assert (is_interior m e); let m1 = unlink m e e; ok (m1, m1.next e)

unfoldable pub list_splice : Memory → ℕ → ℕ → ℕ → Outcome Memory
unfolding list_prev
list_splice m before first last = do
  assert (is_interior m before || is_tail m before)
  if first == last then ok m else (do
    last1 ← list_prev m last
    assert (is_interior m first)
    assert (is_interior m last1)
    let m1 = unlink m first last1
    let m2 = set_next (set_prev m1 first (m1.prev before)) last1 before
    ok (set_prev (set_next m2 (m2.prev before) first) before last1))

unfoldable pub list_push_front : Memory → Ends → ℕ → Outcome Memory
unfolding list_insert
list_push_front m l e = list_insert m (list_begin m l) e

unfoldable pub list_push_back : Memory → Ends → ℕ → Outcome Memory
unfolding list_insert
list_push_back m l e = list_insert m l.tail e

abbrev pub list_empty : Memory → Ends → Bool
list_empty m l = list_begin m l == l.tail

unfoldable pub list_front : Memory → Ends → Outcome ℕ
list_front m l = do assert (not (list_empty m l)); ok (m.next l.head)

unfoldable pub list_back : Memory → Ends → Outcome ℕ
list_back m l = do assert (not (list_empty m l)); ok (m.prev l.tail)

-- The element that is popped, with the memory.
unfoldable pub list_pop_front : Memory → Ends → Outcome (Memory × ℕ)
unfolding list_front list_remove
list_pop_front m l = do front ← list_front m l; (m1, after) ← list_remove m front; ok (m1, front)

unfoldable pub list_pop_back : Memory → Ends → Outcome (Memory × ℕ)
unfolding list_back list_remove
list_pop_back m l = do back ← list_back m l; (m1, after) ← list_remove m back; ok (m1, back)
