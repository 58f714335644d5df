-- ===== src/Base/ReturnValue.antt =====
-- The return values of the operations that can fail.

-- 0, -1 and -2.
pub data Status : Type 0 where
  success failure no_space : Status
