-- ===== src/Types.antt =====
-- The record types of include/kvdb/types.hpp that several components share. A string is its bytes.
use keyvaluedb.Prelude.{ℕ, Bool, List}

pub record KeyValuePair : Type 0 where
  pub key : List ℕ
  pub value : List ℕ
  pub timestamp : ℕ
  pub is_tombstone : Bool
