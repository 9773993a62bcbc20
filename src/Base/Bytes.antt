-- ===== src/Base/Bytes.antt =====
-- Bytes and big-endian integers as arithmetic.
use eshetcpp.Base.{ℕ, List}

abbrev pub Bytes : Type 0
Bytes = List ℕ
