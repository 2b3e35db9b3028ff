-- ===== src/Common/Ending.antt =====
-- How a kernel routine ends: it returns, it stops the machine (a failed ASSERT or PANIC), or it
-- ends the calling process (exit of syscall.c).
use mathlib.Core.Bool.{Bool, true, false}

pub data Outcome {ℓ} (A : Type ℓ) : Type ℓ where
  ok : A → Outcome A
  panic : Outcome A
  killed : Outcome A

infixl 5 ◌>>=◌ ◌>>◌
abbrev pub ◌>>=◌ {ℓ κ} : {A : Type ℓ} {B : Type κ} → Outcome A → (A → Outcome B) → Outcome B
ok a >>= f = f a
panic >>= f = panic
killed >>= f = killed

abbrev pub ◌>>◌ {ℓ} : {B : Type ℓ} → Outcome (Unit {0}) → Outcome B → Outcome B
m >> k = m >>= λ _. k

-- ASSERT (b) of lib/debug.h.
abbrev pub assert : Bool → Outcome (Unit {0})
assert true = ok tt
assert false = panic

-- if (!b) exit (-1);
abbrev pub require : Bool → Outcome (Unit {0})
require true = ok tt
require false = killed
