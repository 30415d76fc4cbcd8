-- ===== src/Util/Status.antt =====
-- firmware/core/util/result.h: the outcome of a fallible call.

pub data Status : Type 0 where
  ok invalid out_of_range crc unsupported would_block down timeout full empty not_found : Status
