-- ===== src/Freemap/Types.antt =====
-- The records that the functions of hammer2_freemap.c pass round: blockrefs, freemap leaves, the
-- device, the iterator; and the errors that they return.
use windows_hammer2_dfly.Common.{ℕ, Bool, List, Option}
use windows_hammer2_dfly.Freemap.Bmap.{Bmap}

-- `struct hammer2_blockref`: the fields that the freemap code reads or writes.
pub record Blockref : Type 0 where
  pub type : ℕ
  pub keybits : ℕ
  pub key : ℕ
  pub data_off : ℕ

-- A FREEMAP_LEAF chain: its 256 bitmaps and `bref.check.freemap`. `error` is `chain->error`.
pub record Leaf : Type 0 where
  pub bmdata : List Bmap
  pub bigmask : ℕ
  pub avail : ℕ
  pub error : Bool

-- The freemap as the chain code presents it: for each multiple of 1GB a leaf, or none yet.
abbrev pub Leaves : Type 0
Leaves = ℕ → Option Leaf

-- `struct hammer2_dev`, with whether its super-root PFS is set, and with the two fields of its volume header that the freemap code uses.
pub record Dev : Type 0 where
  pub spmp : Bool
  pub total_size : ℕ
  pub allocator_beg : ℕ
  pub allocator_free : ℕ
  pub freemap_relaxed : Bool
  pub heur_freemap : List ℕ
  pub leaves : Leaves

-- `struct hammer2_fiterate`
pub record Fiterate : Type 0 where
  pub bpref : ℕ
  pub bnext : ℕ
  pub loops : ℕ
  pub relaxed : Bool

-- 0 and the HAMMER2_ERROR_* codes that occur here.
pub data Status : Type 0 where
  done eio enospc eagain : Status
