-- ===== src/TreeRec/Bytes.antt =====
-- Blocks of memory: a `void *` with its length is the list of its bytes. `memcmp` of <string.h>
-- is read as the sign of its result, over the common length of two blocks.
use durodbms.Prelude.{ℕ, List, [], ◌∷◌, Ordering, eq, gt, compare}
use durodbms.Prelude.{◌==◌, if◌then◌else◌}

abbrev pub Bytes : Type 0
Bytes = List ℕ

abbrev pub lex : Ordering → Ordering → Ordering
lex eq o = o
lex o _ = o

-- `memcmp(p, q, n)` with `n` the length of the shorter block.
unfoldable pub memcmp : Bytes → Bytes → Ordering
memcmp [] ys = eq
memcmp (x ∷ xs) [] = eq
memcmp (x ∷ xs) (y ∷ ys) = lex (compare x y) (memcmp xs ys)

-- The sign of `abs(m - n)`: it is never negative.
unfoldable pub abs_diff : ℕ → ℕ → Ordering
abs_diff m n = if m == n then eq else gt
