-- ===== src/Wal/Writer/Commands.antt =====
-- Sequences of calls of the log's writer, with the records that they acknowledge.
use selfstack.Prelude.{ℕ, List, [], ◌∷◌, ◌++◌, Option, none, some, Result, ok, err, ◌≡◌, ◌<◌, All}
use selfstack.Bytes.{Bytes, IsByte}
use selfstack.Wal.Record.{Record, new_record}
use selfstack.Wal.Manifest.{ManifestStore}
use selfstack.Wal.Writer.{
  WriterConfig, Io, WalWriter, append, append_with_sync, sync_locked, background_sync, close,
}

pub data Command : Type 0 where
  append_call : Io → ℕ → Bytes → Command
  append_with_sync_call : Io → ℕ → Bytes → Command
  sync_call : Io → Command
  tick : Io → Command
  close_call : Io → Command

-- A record, with the segment that it was written to.
abbrev pub Acknowledged : Type 0
Acknowledged = ℕ × Record

-- A `Write` that fails has written nothing.
abbrev pub FailsAtOnce : Option ℕ → Type 0
FailsAtOnce none = Unit {0}
FailsAtOnce (some n) = n ≡ 0

abbrev pub IsAtomic : Io → Type 0
IsAtomic io = FailsAtOnce io.write_fails

abbrev pub IsProper : Io → ℕ → Bytes → Type 0
IsProper io type payload = IsAtomic io × (type < 256) × All IsByte payload

-- The record's type is a byte, its payload is made of bytes, and no write is torn.
abbrev pub IsSound : Command → Type 0
IsSound (append_call io type payload) = IsProper io type payload
IsSound (append_with_sync_call io type payload) = IsProper io type payload
IsSound (sync_call io) = Unit {0}
IsSound (tick io) = Unit {0}
IsSound (close_call io) = Unit {0}

module _ (M : ManifestStore) where
  -- The record of a call that returned an LSN without an error.
  abbrev pub acknowledged : ℕ → ℕ → Bytes → Result ℕ → List Acknowledged
  acknowledged id type payload (err e) = []
  acknowledged id type payload (ok returned) = elim (new_record type returned payload) [
    | ok rec ↦ (id, rec) ∷ []
    | err e ↦ []
  ]

  unfoldable pub step : WriterConfig → Command → WalWriter M → WalWriter M × List Acknowledged
  step config (append_call io type payload) w =
      let (w', r) = append M config io type payload w in
      (w', acknowledged w.segment_id type payload r)
  step config (append_with_sync_call io type payload) w =
      let (w', r) = append_with_sync M config io type payload w in
      (w', acknowledged w.segment_id type payload r)
  step config (sync_call io) w = ((sync_locked M io w).0, [])
  step config (tick io) w = (background_sync M io w, [])
  step config (close_call io) w = ((close M io w).0, [])

  -- The state after the calls, and what they acknowledged, in order.
  unfoldable pub run : WriterConfig → List Command → WalWriter M → WalWriter M × List Acknowledged
  run config [] w = (w, [])
  run config (c ∷ cs) w =
      let (w', now) = step config c w in let (w'', later) = run config cs w' in (w'', now ++ later)
