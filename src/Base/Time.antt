-- ===== src/Base/Time.antt =====
-- Instants and the texts that stand for them. `Date.prototype.toISOString` writes an instant, and
-- `Date.parse` reads a text back: `at n` is a text that it reads as the `n`-th millisecond, and
-- `unreadable` any other text, for which it gives NaN.
use Prim.Native.Nat.{ℕ, ◌+◌}
use Prim.Native.String.{String}
use mathlib.Core.Option.{Option, none, some}
use mathlib.Core.Bool.{Bool, false}
use nexus_cloud.Base.Tests.{ltb}

pub data Stamp : Type 0 where
  at : ℕ → Stamp
  unreadable : String → Stamp

-- `Date.parse`, with `none` for NaN
abbrev pub parse_stamp : Stamp → Option ℕ
parse_stamp (at n) = some n
parse_stamp (unreadable s) = none

-- What an operation reads from outside, each in the order of its reads: the clock in milliseconds,
-- random UUIDs, and what becomes of each write of a state file.
pub data WriteOutcome : Type 0 where
  saved lost replaced : WriteOutcome

pub record Env : Type 0 where
  pub clock : ℕ → ℕ
  pub uuid : ℕ → String
  pub write : ℕ → WriteOutcome

-- The readings that are left after the first `k` of each kind.
abbrev pub later : ℕ → Env → Env
later k e = record {
  clock = λ i. e.clock (k + i);
  uuid = λ i. e.uuid (k + i);
  write = λ i. e.write (k + i);
}

-- `new Date().toISOString()`
abbrev pub now : Env → ℕ → Stamp
now e i = at (e.clock i)

-- `Date.parse(text) < clock`, false for NaN
abbrev pub is_before : Option ℕ → ℕ → Bool
is_before none clock = false
is_before (some n) clock = ltb n clock
