-- ===== src/Intq/Tests.antt =====
-- A queue of one byte at the end of its ring, whose reader, thread 5, sleeps.
use os_pintos.Common.{◌≡◌, refl, [], ◌∷◌, true, none, some, ok, arith}
use os_pintos.Sched.{Kernel}
use os_pintos.Sched.Invariant.{IsValid}
use os_pintos.Sched.Sample.{kernel, kernel-IsValid}
use os_pintos.Intq.{Intq, intq_getc, intq_putc}
use os_pintos.Intq.Ring.{Holds, unblocked, intq_putc_lem, intq_getc_lem}

abbrev q : Intq
q = record { not_full = none; not_empty = some 5; buf = λ p. 7; head = 0; tail = 63 }

q-Holds : Holds q (7 ∷ [])
q-Holds = record { run = (refl, tt); head = refl; tail = omega arith; fits = omega arith }

intq_putc_lem_example :
    (q1 : Intq) × (intq_putc true kernel q 9 ≡ ok (some (unblocked kernel (some 5), q1)))
    × Holds q1 (7 ∷ 9 ∷ [])
    × (q1.not_empty ≡ none)
    × (q1.not_full ≡ none)
    × IsValid (unblocked kernel (some 5))
intq_putc_lem_example =
    intq_putc_lem true kernel q (7 ∷ []) 9 q-Holds (omega arith) kernel-IsValid refl

abbrev awaited : Intq
awaited = record q { not_full = some 6 }

awaited-Holds : Holds awaited (7 ∷ [])
awaited-Holds = record { run = (refl, tt); head = refl; tail = omega arith; fits = omega arith }

intq_getc_lem_example :
    (q1 : Intq) × (intq_getc true kernel awaited ≡ ok (some (unblocked kernel (some 6), q1, 7)))
    × Holds q1 []
    × (q1.not_full ≡ none)
    × (q1.not_empty ≡ some 5)
    × IsValid (unblocked kernel (some 6))
intq_getc_lem_example = intq_getc_lem true kernel awaited 7 [] awaited-Holds kernel-IsValid refl
