-- ===== src/Wal/Writer/Durable.antt =====
-- An acknowledged record can be read back, whatever happens to the writer after it.
use selfstack.Prelude.{
  ℕ, ◌+◌, ◌^◌, ◌<◌, ◌≡◌, refl, sym, List, [], ◌∷◌, ◌++◌, length, true, Option, ok, err, ltb,
  if-both, if-split, arith, Result-cases, inl, inr, All, All-append, All-left, All-right,
  append-nil, subst,
}
use selfstack.Prelude.Maps.{Map}
use selfstack.Bytes.{Bytes, IsByte}
use selfstack.Wal.Record.{Record, new_record, encode}
use selfstack.Wal.Record.RoundTrip.{new_record-IsWellFormed}
use selfstack.Wal.Manifest.{ManifestStore}
use selfstack.Wal.Manifest.Keys.{nat_eq}
use selfstack.Wal.Writer.{
  WriterConfig, Io, WalWriter, Outcome, and_then, sync_file, rotate_due, sync_due, write_data,
  take_lsn, append, append_with_sync, background_sync, close, new_wal_writer,
}
use selfstack.Wal.Writer.Commands.{
  Command, append_call, append_with_sync_call, sync_call, tick, close_call, Acknowledged, IsProper,
  IsSound, acknowledged, step, run,
}
use selfstack.Wal.Writer.Held.{IsKept, AllBytes, Held, Shut-Held, and_then-keeps, encode-IsByte}
use selfstack.Wal.Writer.Rotation.{
  sync_locked-Held, sync_file-Held, close_file-Shut, rotate_due-Held, sync_due-Held,
  open_segment-Held, Held-fields,
}
use selfstack.Wal.Writer.Acknowledged.{
  new_record-fields, Written, Answered, and_then-Written, and_then-Held, write_data-Written,
  take_lsn-Held,
}

-- A call to append returns an error or the LSN that was next, and then the record is in the segment
-- that was current.
module _ (M : ManifestStore) (acks : List Acknowledged) where
  counted-Held :
      (w : WalWriter M) (offset pending_writes : ℕ)
      → Held M acks w
      → Held M acks (record w { offset = offset; pending_writes = pending_writes })
  counted-Held w offset pending h = Held-fields M acks w _ refl refl refl refl h

  -- What an operation that appends leaves, with what it acknowledges.
  abbrev pub Settled : ℕ → ℕ → Bytes → Outcome M ℕ → Type 0
  Settled id type payload o = Held M (acknowledged M id type payload o.1 ++ acks) o.0

  settle :
      (id type lsn : ℕ) (payload : Bytes) (rec : Record) (o : Outcome M ℕ)
      → new_record type lsn payload ≡ ok rec
      → Answered M acks id rec lsn o
      → Settled id type payload o
  settle id type lsn payload rec (w, ok returned) made (same, h) = rw (same, acknowledged, made) h
  settle id type lsn payload rec (w, err e) made h = h

module _ (M : ManifestStore) (acks : List Acknowledged) (config : WriterConfig) (io : Io) (type : ℕ)
    (payload : Bytes) where
  write_data-new_record :
      (w : WalWriter M) (rec : Record)
      → IsProper io type payload
      → Held M acks w
      → new_record type w.lsn payload ≡ ok rec
      → Written M acks w.segment_id rec (write_data M io (encode rec) (take_lsn M w))
  unfolding take_lsn
  write_data-new_record w rec (atomic, small, bytes) h made =
      let wf = new_record-IsWellFormed type w.lsn payload small h.kept.lsn made in
      let (t, f, p) = new_record-fields type w.lsn payload rec made in
      let b =
        encode-IsByte rec (omega (arith, t, small)) (omega (arith, f))
          (subst (All IsByte) (sym p) bytes) in
      write_data-Written M acks io (take_lsn M w) rec atomic (take_lsn-Held M acks w h) wf b

  rotate_then-Answered :
      (id lsn : ℕ) (rec : Record) (w : WalWriter M)
      → Held M ((id, rec) ∷ acks) w
      → Answered M acks id rec lsn (and_then M (rotate_due M config io w) (λ w' _. (w', ok lsn)))
  rotate_then-Answered id lsn rec w h =
      and_then-Held M acks id rec lsn (rotate_due M config io w) (λ w' _. (w', ok lsn))
        (rotate_due-Held M ((id, rec) ∷ acks) config io w h) (λ w' h'. (refl, h'))

  pub append-Settled :
      (w : WalWriter M)
      → IsProper io type payload
      → Held M acks w
      → Settled M acks w.segment_id type payload (append M config io type payload w)
  unfolding append
  append-Settled w proper h =
      if-split (Settled M acks w.segment_id type payload) w.closed _ _ (λ _. h)
        (λ _. elim (Result-cases (new_record type w.lsn payload)) [
          | inr (e, made) ↦ rw made (take_lsn-Held M acks w h)
          | inl (rec, made) ↦
              let more = (w.segment_id, rec) ∷ acks in
              rw made (
                settle M acks w.segment_id type w.lsn payload rec _ made (
                  and_then-Written M acks w.segment_id rec w.lsn _ _
                    (write_data-new_record w rec proper h made)
                    (λ w1 h1.
                      let counted = record w1 {
                        offset = w1.offset + length (encode rec);
                        pending_writes = w1.pending_writes + 1;
                      } in
                      and_then-Held M acks w.segment_id rec w.lsn (sync_due M config io counted)
                        (λ w2 _. and_then M (rotate_due M config io w2) (λ w3 _. (w3, ok w.lsn)))
                        (sync_due-Held M more config io counted (counted-Held M more w1 _ _ h1))
                        (rotate_then-Answered w.segment_id w.lsn rec))))
        ])

  pub append_with_sync-Settled :
      (w : WalWriter M)
      → IsProper io type payload
      → Held M acks w
      → Settled M acks w.segment_id type payload (append_with_sync M config io type payload w)
  unfolding append_with_sync
  append_with_sync-Settled w proper h =
      if-split (Settled M acks w.segment_id type payload) w.closed _ _ (λ _. h)
        (λ _. elim (Result-cases (new_record type w.lsn payload)) [
          | inr (e, made) ↦ rw made (take_lsn-Held M acks w h)
          | inl (rec, made) ↦
              let more = (w.segment_id, rec) ∷ acks in
              rw made (
                settle M acks w.segment_id type w.lsn payload rec _ made (
                  and_then-Written M acks w.segment_id rec w.lsn _ _
                    (write_data-new_record w rec proper h made)
                    (λ w1 h1.
                      and_then-Held M acks w.segment_id rec w.lsn (sync_file M io w1)
                        (λ w2 _.
                          and_then M
                            (rotate_due M config io (record w2 {
                              offset = w2.offset + length (encode rec);
                              pending_writes = 0;
                            }))
                            (λ w3 _. (w3, ok w.lsn)))
                        (sync_file-Held M more io w1 h1)
                        (λ w2 h2.
                          rotate_then-Answered w.segment_id w.lsn rec _
                            (counted-Held M more w2 _ _ h2)))))
        ])

module _ (M : ManifestStore) (config : WriterConfig) where
  close-Held :
      (acks : List Acknowledged) (io : Io) (w : WalWriter M)
      → Held M acks w
      → Held M acks (close M io w).0
  unfolding close
  close-Held acks io w h =
      if-both (λ (o : Outcome M (Unit {0})). Held M acks o.0) w.closed _ _ h
        (and_then-keeps M (Held M acks) (Held M acks) (sync_file M io (record w { closed = true }))
          _ (sync_file-Held M acks io _ (Held-fields M acks w _ refl refl refl refl h)) (λ w h. h)
          (λ w _ h. Shut-Held M acks _ (close_file-Shut M acks io w h.kept)))

  step-Held :
      (acks : List Acknowledged) (c : Command) (w : WalWriter M)
      → IsSound c
      → Held M acks w
      → Held M ((step M config c w).1 ++ acks) (step M config c w).0
  unfolding step background_sync
  step-Held acks (append_call io type payload) w sound h =
      append-Settled M acks config io type payload w sound h
  step-Held acks (append_with_sync_call io type payload) w sound h =
      append_with_sync-Settled M acks config io type payload w sound h
  step-Held acks (sync_call io) w sound h = sync_locked-Held M acks io w h
  step-Held acks (tick io) w sound h =
      if-both (Held M acks) (ltb 0 w.pending_writes) _ _ (sync_locked-Held M acks io w h) h
  step-Held acks (close_call io) w sound h = close-Held acks io w h

  run-Held :
      (cs : List Command) (acks : List Acknowledged) (w : WalWriter M)
      → All IsSound cs
      → Held M acks w
      → All (IsKept (run M config cs w).0.files) (acks ++ (run M config cs w).1)
  unfolding run
  run-Held [] acks w sound h = rw (append-nil acks) h.kept.kept
  run-Held (c ∷ cs) acks w (s, sound) h =
      let (w', now) = step M config c w in
      let later = run-Held cs (now ++ acks) w' sound (step-Held acks c w s h) in
      let files = (run M config cs w').0.files in
      let known = All-left (IsKept files) (now ++ acks) _ later in
      All-append (IsKept files) acks _ (All-right (IsKept files) now acks known) (
        All-append (IsKept files) now _ (All-left (IsKept files) now acks known)
          (All-right (IsKept files) (now ++ acks) _ later))

-- Every acknowledged record is durable. A writer is opened on any directory of files, whatever they
-- hold, and called in any order, with any failures of its calls of the operating system and of the
-- manifest, only that a failing write has written nothing. Then every record whose call returned an
-- LSN can be read, at the end, from the segment that was current at the call.
pub acknowledged_are_durable :
    (M : ManifestStore) (config : WriterConfig) (io : Io) (files : Map ℕ Bytes) (lsn id : ℕ)
    (manifest : Option M.State) (cs : List Command)
    → AllBytes files
    → lsn < 2 ^ 64
    → All IsSound cs
    → let (w, acks) = run M config cs (new_wal_writer M io files lsn id manifest).0 in
      All (IsKept w.files) acks
unfolding new_wal_writer
acknowledged_are_durable M config io files lsn id manifest cs bytes small sound =
    run-Held M config cs [] _ sound (
      open_segment-Held M [] io _
        (record { kept = record { all_bytes = bytes; lsn = small; kept = tt }; shut = refl }))
