-- ===== src/Wal/Writer/Increasing.antt =====
-- Lists of acknowledged records whose LSNs increase.
use selfstack.Prelude.{
  ℕ, ◌+◌, ◌≤◌, ◌≡◌, List, [], ◌∷◌, true, Option, none, some, Result, ok, err, leb, if-both, arith,
}
use selfstack.Bytes.{Bytes}
use selfstack.Wal.Record.{Record, new_record}
use selfstack.Wal.Manifest.{ManifestStore}
use selfstack.Wal.Writer.{
  WriterConfig, Io, WalWriter, Outcome, truncated, open_segment, sync_locked, sync_file, close_file,
  seal_in, keep_manifest, next_segment, create_in, rotate_locked, rotate_due, sync_due, write_data,
  close,
}
use selfstack.Wal.Writer.Commands.{Acknowledged}
use selfstack.Wal.Writer.Held.{and_then-keeps}

-- The LSNs of the records strictly increase, and none is below the bound.
abbrev pub IsIncreasing : ℕ → List Acknowledged → Type 0
IsIncreasing low [] = Unit {0}
IsIncreasing low ((id, rec) ∷ rest) = (low ≤ rec.lsn) × IsIncreasing (rec.lsn + 1) rest

module _ (M : ManifestStore) (n : ℕ) where
  abbrev HasLsn : WalWriter M → Type 0
  HasLsn w = w.lsn ≡ n

  pub open_segment-lsn : (io : Io) (w : WalWriter M) → HasLsn w → HasLsn (open_segment M io w).0
  unfolding open_segment truncated
  open_segment-lsn io w h = ground arith

  pub sync_locked-lsn : (io : Io) (w : WalWriter M) → HasLsn w → HasLsn (sync_locked M io w).0
  unfolding sync_locked
  sync_locked-lsn io w h = ground arith

  pub sync_file-lsn : (io : Io) (w : WalWriter M) → HasLsn w → HasLsn (sync_file M io w).0
  unfolding sync_file
  sync_file-lsn io w h = ground arith

  close_file-lsn : (io : Io) (w : WalWriter M) → HasLsn w → HasLsn (close_file M io w).0
  unfolding close_file
  close_file-lsn io w h = ground arith

  keep_manifest-lsn :
      (w : WalWriter M) (r : Result M.State) → HasLsn w → HasLsn (keep_manifest M w r).0
  keep_manifest-lsn w (ok m) h = h
  keep_manifest-lsn w (err e) h = h

  seal_in-lsn :
      (io : Io) (w : WalWriter M) (m : Option M.State) → HasLsn w → HasLsn (seal_in M io w m).0
  unfolding seal_in
  seal_in-lsn io w none h = h
  seal_in-lsn io w (some m) h =
      if-both (λ (o : Outcome M (Unit {0})). HasLsn o.0) io.checksum_works _ _
        (keep_manifest-lsn w _ h) h

  create_in-lsn : (w : WalWriter M) (m : Option M.State) → HasLsn w → HasLsn (create_in M w m).0
  unfolding create_in
  create_in-lsn w none h = h
  create_in-lsn w (some m) h = keep_manifest-lsn w _ h

  rotate_locked-lsn : (io : Io) (w : WalWriter M) → HasLsn w → HasLsn (rotate_locked M io w).0
  unfolding rotate_locked next_segment
  rotate_locked-lsn io w h =
      let same = λ (w : WalWriter M) (h : HasLsn w). h in
      and_then-keeps M HasLsn HasLsn (sync_locked M io w) _ (sync_locked-lsn io w h) same (λ w _ h.
        and_then-keeps M HasLsn HasLsn (close_file M io w) _ (close_file-lsn io w h) same (λ w _ h.
          and_then-keeps M HasLsn HasLsn (seal_in M io w w.manifest) _
            (seal_in-lsn io w w.manifest h) same
            (λ w _ h.
              and_then-keeps M HasLsn HasLsn (create_in M (next_segment M w) w.manifest) _
                (create_in-lsn (next_segment M w) w.manifest h) same
                (λ w _ h. open_segment-lsn io w h))))

  pub rotate_due-lsn :
      (config : WriterConfig) (io : Io) (w : WalWriter M)
      → HasLsn w
      → HasLsn (rotate_due M config io w).0
  unfolding rotate_due
  rotate_due-lsn config io w h =
      if-both (λ (o : Outcome M (Unit {0})). HasLsn o.0) (leb config.max_size w.offset) _ _
        (rotate_locked-lsn io w h) h

  pub sync_due-lsn :
      (config : WriterConfig) (io : Io) (w : WalWriter M)
      → HasLsn w
      → HasLsn (sync_due M config io w).0
  unfolding sync_due
  sync_due-lsn config io w h =
      if-both (λ (o : Outcome M (Unit {0})). HasLsn o.0) _ _ _ (sync_locked-lsn io w h) h

  pub write_data-lsn :
      (io : Io) (bytes : Bytes) (w : WalWriter M) → HasLsn w → HasLsn (write_data M io bytes w).0
  unfolding write_data
  write_data-lsn io bytes w h = ground arith

  pub close-lsn : (io : Io) (w : WalWriter M) → HasLsn w → HasLsn (close M io w).0
  unfolding close
  close-lsn io w h =
      if-both (λ (o : Outcome M (Unit {0})). HasLsn o.0) w.closed _ _ h
        (and_then-keeps M HasLsn HasLsn (sync_file M io (record w { closed = true })) _
          (sync_file-lsn io (record w { closed = true }) h) (λ w h. h)
          (λ w _ h. close_file-lsn io w h))

pub IsIncreasing-weaken :
    (low low' : ℕ) (acks : List Acknowledged)
    → low ≤ low'
    → IsIncreasing low' acks
    → IsIncreasing low acks
IsIncreasing-weaken low low' [] h i = tt
IsIncreasing-weaken low low' ((id, rec) ∷ acks) h (first, rest) = (omega arith, rest)

pub new_record-lsn :
    (type lsn : ℕ) (payload : Bytes) (rec : Record)
    → new_record type lsn payload ≡ ok rec
    → rec.lsn ≡ lsn
unfolding new_record
new_record-lsn type lsn payload rec e = ground arith
