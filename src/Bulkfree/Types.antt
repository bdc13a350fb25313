-- ===== src/Bulkfree/Types.antt =====
-- The fields of `hammer2_bulkfree_info_t` that the merge changes.
use windows_hammer2_dfly.Common.{ℕ, List}

-- A call of `hammer2_io_dedup_assert` or of `hammer2_io_dedup_delete` for the block at an offset.
pub data Request : Type 0 where
  dedup_assert : (data_off : ℕ) → Request
  dedup_delete : (data_off : ℕ) → Request

-- The counters, the calls made (the last one first), and `adj_free`.
pub record Info : Type 0 where
  pub adj_free : ℕ
  pub count_10_00 : ℕ
  pub count_11_10 : ℕ
  pub count_00_11 : ℕ
  pub count_01_11 : ℕ
  pub count_10_11 : ℕ
  pub count_l0cleans : ℕ
  pub count_linadjusts : ℕ
  pub requests : List Request
