-- ===== src/Stream.antt =====
-- The stream interfaces of include/ckcore/stream.hh, over the states of a stream, and what their
-- comments promise.
pub mod Contract
pub mod Copy
pub mod Progress
pub mod Canex
pub mod Null
use ckcore.Base.{ℕ, Bool, Option, List, Outcome}

-- `InStream::StreamWhence`.
pub data Whence : Type 0 where
  current begin : Whence

-- `class InStream`. A read gives the bytes that it stored, whose number it returns, or `none` for
-- -1; `size` is `none` for -1. Every implementation answers `end` and `size` from its state alone.
pub record InStream (S : Type 0) : Type 0 where
  pub read : S → ℕ → Outcome (Option (List ℕ) × S)
  pub size : S → Option ℕ
  pub end : S → Bool
  pub seek : S → ℕ → Whence → Outcome (Bool × S)

-- `class OutStream`. A write gives the number of bytes written, or `none` for -1.
pub record OutStream (S : Type 0) : Type 0 where
  pub write : S → List ℕ → Outcome (Option ℕ × S)
