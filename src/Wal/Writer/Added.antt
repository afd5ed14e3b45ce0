-- ===== src/Wal/Writer/Added.antt =====
-- Append and AppendWithSync of wal/writer.go: the files of the log after the call, failed or not.
use selfstack.Prelude.{
  ℕ, ◌+◌, ◌≡◌, refl, sym, List, ◌∷◌, length, false, ok, Bool-cases, if-split, inl, inr, All, subst,
  arith,
}
use selfstack.Bytes.{Bytes, IsByte}
use selfstack.Wal.Record.{Record, new_record, encode}
use selfstack.Wal.Record.RoundTrip.{new_record-IsWellFormed}
use selfstack.Wal.Manifest.{ManifestStore}
use selfstack.Wal.Writer.{
  WriterConfig, Io, WalWriter, Outcome, and_then, write_data, take_lsn, sync_due, sync_file,
  rotate_due, append, append_with_sync,
}
use selfstack.Wal.Writer.Commands.{Acknowledged, IsProper}
use selfstack.Wal.Writer.Held.{Held, encode-IsByte, and_then-keeps}
use selfstack.Wal.Writer.Acknowledged.{new_record-fields}
use selfstack.Wal.Writer.Exact.{
  Only, Only-more, write_data-Only, sync_due-Only, sync_file-Only, rotate_due-Only,
}

module _ (M : ManifestStore) (acks : List Acknowledged) (recs : List Record) (config : WriterConfig)
    (io : Io) (type : ℕ) (payload : Bytes) (w : WalWriter M) (rec : Record) where
  abbrev More : WalWriter M → Type 0
  More w = Only (rec ∷ recs) w.files

  shut-files : w.is_open ≡ false → (write_data M io (encode rec) (take_lsn M w)).0.files ≡ w.files
  unfolding write_data take_lsn
  shut-files shut = rw (write_data, shut) refl

  written-More :
      IsProper io type payload
      → Held M acks w
      → new_record type w.lsn payload ≡ ok rec
      → Only recs w.files
      → More (write_data M io (encode rec) (take_lsn M w)).0
  written-More (atomic, small, bytes) h made o = elim (Bool-cases w.is_open) [
    | inr shut ↦ subst (Only (rec ∷ recs)) (sym (shut-files shut)) (Only-more rec recs w.files o)
    | inl open_now ↦
        let (rs, found, wfs) = h.current open_now in
        let (t, f, p) = new_record-fields type w.lsn payload rec made in
        let b =
          encode-IsByte rec (omega (arith, t, small)) (omega (arith, f))
            (subst (All IsByte) (sym p) bytes) in
        unfold take_lsn in
        write_data-Only M recs config io (take_lsn M w) rec rs atomic found wfs
          (new_record-IsWellFormed type w.lsn payload small h.kept.lsn made) b o
  ]

  rotate_then-More :
      (lsn : ℕ) (w : WalWriter M)
      → More w
      → More (and_then M (rotate_due M config io w) (λ w' _. (w', ok lsn))).0
  rotate_then-More lsn w m =
      and_then-keeps M More More (rotate_due M config io w) (λ w' _. (w', ok lsn))
        (rotate_due-Only M (rec ∷ recs) config io w m) (λ w m. m) (λ w _ m. m)

  module _ (proper : IsProper io type payload) (h : Held M acks w)
      (made : new_record type w.lsn payload ≡ ok rec) (o : Only recs w.files) where
    pub append-More : More (append M config io type payload w).0
    unfolding append
    append-More =
        if-split (λ (r : Outcome M ℕ). More r.0) w.closed _ _ (λ _. Only-more rec recs w.files o)
          (λ _. rw made (
            and_then-keeps M More More (write_data M io (encode rec) (take_lsn M w)) _
              (written-More proper h made o) (λ w m. m)
              (λ w1 _ m1.
                let counted = record w1 {
                  offset = w1.offset + length (encode rec);
                  pending_writes = w1.pending_writes + 1;
                } in
                and_then-keeps M More More (sync_due M config io counted)
                  (λ w2 _. and_then M (rotate_due M config io w2) (λ w3 _. (w3, ok w.lsn)))
                  (sync_due-Only M (rec ∷ recs) config io counted m1) (λ w m. m)
                  (λ w2 _ m2. rotate_then-More w.lsn w2 m2))))

    pub append_with_sync-More : More (append_with_sync M config io type payload w).0
    unfolding append_with_sync
    append_with_sync-More =
        if-split (λ (r : Outcome M ℕ). More r.0) w.closed _ _ (λ _. Only-more rec recs w.files o)
          (λ _. rw made (
            and_then-keeps M More More (write_data M io (encode rec) (take_lsn M w)) _
              (written-More proper h made o) (λ w m. m)
              (λ w1 _ m1.
                and_then-keeps M More More (sync_file M io w1)
                  (λ w2 _.
                    and_then M
                      (rotate_due M config io (record w2 {
                        offset = w2.offset + length (encode rec);
                        pending_writes = 0;
                      }))
                      (λ w3 _. (w3, ok w.lsn)))
                  (sync_file-Only M (rec ∷ recs) io w1 m1) (λ w m. m)
                  (λ w2 _ m2.
                    rotate_then-More w.lsn
                      (record w2 { offset = w2.offset + length (encode rec); pending_writes = 0 })
                      m2))))
