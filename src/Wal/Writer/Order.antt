-- ===== src/Wal/Writer/Order.antt =====
-- The LSNs of acknowledged records.
use selfstack.Prelude.{
  ℕ, ◌+◌, ◌%◌, ◌^◌, ◌≤◌, ◌<◌, ◌≡◌, ◌⊎◌, refl, List, [], ◌∷◌, ◌++◌, length, ok, err, ltb, if-both,
  if-split, arith, Result-cases, inl, inr,
}
use selfstack.Bytes.{Bytes}
use selfstack.Wal.Record.{new_record, encode}
use selfstack.Wal.Manifest.{ManifestStore}
use selfstack.Wal.Writer.{
  WriterConfig, Io, WalWriter, Outcome, and_then, sync_file, rotate_due, sync_due, write_data,
  take_lsn, append, append_with_sync, background_sync,
}
use selfstack.Wal.Writer.Commands.{
  Command, append_call, append_with_sync_call, sync_call, tick, close_call, Acknowledged,
  acknowledged, step, run,
}
use selfstack.Wal.Writer.Increasing.{
  IsIncreasing, sync_locked-lsn, sync_file-lsn, rotate_due-lsn, sync_due-lsn, write_data-lsn,
  close-lsn, IsIncreasing-weaken, new_record-lsn,
}

module _ (M : ManifestStore) (config : WriterConfig) (io : Io) (type : ℕ) (payload : Bytes)
    (old : ℕ) where
  abbrev pub after_old : ℕ
  after_old = (old + 1) % 2 ^ 64

  -- A call returns the LSN that was next; it may have used that up where it fails.
  abbrev pub Took : Outcome M ℕ → Type 0
  Took (w, ok returned) = (w.lsn ≡ after_old) × (returned ≡ old)
  Took (w, err e) = (w.lsn ≡ old) ⊎ (w.lsn ≡ after_old)

  and_then-Took :
      (o : Outcome M (Unit {0})) (f : WalWriter M → Unit {0} → Outcome M ℕ)
      → o.0.lsn ≡ after_old
      → ((w : WalWriter M) → w.lsn ≡ after_old → Took (f w tt))
      → Took (and_then M o f)
  and_then-Took (w, ok a) f h next = next w h
  and_then-Took (w, err e) f h next = inr h

  rotate_then-Took :
      (w : WalWriter M)
      → w.lsn ≡ after_old
      → Took (and_then M (rotate_due M config io w) (λ w' _. (w', ok old)))
  rotate_then-Took w h =
      and_then-Took (rotate_due M config io w) (λ w' _. (w', ok old))
        (rotate_due-lsn M after_old config io w h) (λ w' h'. (h', refl))

module _ (M : ManifestStore) (config : WriterConfig) (io : Io) (type : ℕ) (payload : Bytes)
    (w : WalWriter M) where
  abbrev pub IsTaken : Outcome M ℕ → Type 0
  IsTaken = Took M config io type payload w.lsn

  pub append-Took : IsTaken (append M config io type payload w)
  unfolding append take_lsn
  append-Took =
      if-split IsTaken w.closed _ _ (λ _. inl refl)
        (λ _. elim (Result-cases (new_record type w.lsn payload)) [
          | inr (e, made) ↦ rw made (inr refl)
          | inl (rec, made) ↦ rw made (
              and_then-Took M config io type payload w.lsn
                (write_data M io (encode rec) (take_lsn M w)) _
                (write_data-lsn M ((w.lsn + 1) % 2 ^ 64) io (encode rec) (take_lsn M w) refl)
                (λ w1 h1.
                  let counted = record w1 {
                    offset = w1.offset + length (encode rec);
                    pending_writes = w1.pending_writes + 1;
                  } in
                  and_then-Took M config io type payload w.lsn (sync_due M config io counted)
                    (λ w2 _. and_then M (rotate_due M config io w2) (λ w3 _. (w3, ok w.lsn)))
                    (sync_due-lsn M ((w.lsn + 1) % 2 ^ 64) config io counted h1)
                    (rotate_then-Took M config io type payload w.lsn)))
        ])

  pub append_with_sync-Took : IsTaken (append_with_sync M config io type payload w)
  unfolding append_with_sync take_lsn
  append_with_sync-Took =
      if-split IsTaken w.closed _ _ (λ _. inl refl)
        (λ _. elim (Result-cases (new_record type w.lsn payload)) [
          | inr (e, made) ↦ rw made (inr refl)
          | inl (rec, made) ↦ rw made (
              and_then-Took M config io type payload w.lsn
                (write_data M io (encode rec) (take_lsn M w)) _
                (write_data-lsn M ((w.lsn + 1) % 2 ^ 64) io (encode rec) (take_lsn M w) refl)
                (λ w1 h1.
                  and_then-Took M config io type payload w.lsn (sync_file M io w1)
                    (λ w2 _.
                      and_then M
                        (rotate_due M config io (record w2 {
                          offset = w2.offset + length (encode rec);
                          pending_writes = 0;
                        }))
                        (λ w3 _. (w3, ok w.lsn)))
                    (sync_file-lsn M ((w.lsn + 1) % 2 ^ 64) io w1 h1)
                    (λ w2 h2. rotate_then-Took M config io type payload w.lsn _ h2)))
        ])

-- What a step does to the next LSN, and what it acknowledges.
module _ (M : ManifestStore) where
  record IsStep (old : ℕ) (o : WalWriter M × List Acknowledged) : Type 0 where
    up : old ≤ o.0.lsn
    by_one : o.0.lsn ≤ old + 1
    ordered :
        (rest : List Acknowledged) → IsIncreasing o.0.lsn rest → IsIncreasing old (o.1 ++ rest)

  still : (old : ℕ) (w : WalWriter M) → old ≤ w.lsn → w.lsn ≤ old + 1 → IsStep old (w, [])
  still old w up by_one = record {
    up = up;
    by_one = by_one;
    ordered = λ rest i. IsIncreasing-weaken old w.lsn rest up i;
  }

  Took-IsStep :
      (config : WriterConfig) (io : Io) (id type old : ℕ) (payload : Bytes) (o : Outcome M ℕ)
      → old + 1 < 2 ^ 64
      → Took M config io type payload old o
      → IsStep old (o.0, acknowledged M id type payload o.1)
  Took-IsStep config io id type old payload (w, err e) small (inl h) =
      still old w (omega arith) (omega arith)
  Took-IsStep config io id type old payload (w, err e) small (inr h) =
      still old w (omega arith) (omega arith)
  Took-IsStep config io id type old payload (w, ok returned) small (h, same) =
      elim (Result-cases (new_record type returned payload)) [
        | inl (rec, made) ↦
            let l = new_record-lsn type returned payload rec made in
            rw (acknowledged, made)
              (record {
                up = omega arith;
                by_one = omega arith;
                ordered = λ rest i.
                    (omega arith, IsIncreasing-weaken (rec.lsn + 1) w.lsn rest (omega arith) i);
              })
        | inr (e, made) ↦ rw (acknowledged, made) (still old w (omega arith) (omega arith))
      ]

module _ (M : ManifestStore) (config : WriterConfig) where
  same-IsStep : (old : ℕ) (w : WalWriter M) → w.lsn ≡ old → IsStep M old (w, [])
  same-IsStep old w h = still M old w (omega arith) (omega arith)

  step-IsStep :
      (c : Command) (w : WalWriter M) → w.lsn + 1 < 2 ^ 64 → IsStep M w.lsn (step M config c w)
  unfolding step background_sync
  step-IsStep (append_call io type payload) w small =
      Took-IsStep M config io w.segment_id type w.lsn payload _ small
        (append-Took M config io type payload w)
  step-IsStep (append_with_sync_call io type payload) w small =
      Took-IsStep M config io w.segment_id type w.lsn payload _ small
        (append_with_sync-Took M config io type payload w)
  step-IsStep (sync_call io) w small = same-IsStep w.lsn _ (sync_locked-lsn M w.lsn io w refl)
  step-IsStep (tick io) w small =
      if-both (λ v. IsStep M w.lsn (v, [])) (ltb 0 w.pending_writes) _ _
        (same-IsStep w.lsn _ (sync_locked-lsn M w.lsn io w refl)) (same-IsStep w.lsn w refl)
  step-IsStep (close_call io) w small = same-IsStep w.lsn _ (close-lsn M w.lsn io w refl)

  -- The LSNs that are acknowledged strictly increase from the writer's next LSN on, in any calls with
  -- any failures, as long as there are LSNs left for that many calls.
  pub acknowledged_increase :
      (cs : List Command) (w : WalWriter M)
      → w.lsn + length cs < 2 ^ 64
      → IsIncreasing w.lsn (run M config cs w).1
  unfolding run
  acknowledged_increase [] w small = tt
  acknowledged_increase (c ∷ cs) w small =
      let (w', now) = step M config c w in
      let s = step-IsStep c w (omega arith) in
      s.ordered _ (acknowledged_increase cs w' (omega (arith, s.by_one)))
