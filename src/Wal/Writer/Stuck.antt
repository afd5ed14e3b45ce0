-- ===== src/Wal/Writer/Stuck.antt =====
-- A rotation away from a segment that the in-memory manifest does not know.
use selfstack.Prelude.{
  ℕ, ◌≡◌, refl, sym, subst, true, false, ◌&&◌, none, some, ok, err, not_found, ◌==◌, if-split,
  if-both, ltb, List, [], ◌∷◌, arith, Result-cases, inl, inr,
}
use selfstack.Prelude.Maps.{lookup}
use selfstack.Bytes.{Bytes}
use selfstack.Wal.Record.{new_record, encode}
use selfstack.Wal.Reader.{calculate_segment_checksum}
use selfstack.Wal.Manifest.{InMemoryManifest, in_memory, seal_segment, with_segment, wal_key}
use selfstack.Wal.Manifest.Keys.{key_eq}
use selfstack.Wal.Writer.{
  WriterConfig, Io, WalWriter, Outcome, and_then, content, sync_locked, close_file, seal_in,
  keep_manifest, next_segment, create_in, open_segment, rotate_locked, write_data, take_lsn, append,
  append_with_sync, background_sync, sync_file, close,
}
use selfstack.Wal.Writer.Commands.{
  Command, append_call, append_with_sync_call, sync_call, tick, close_call,
}

-- An operation has failed and left the segment's file closed.
abbrev pub IsStuck : {A : Type 0} → Outcome in_memory A → Type 0
IsStuck (w, ok a) = ⊥
IsStuck (w, err e) = w.is_open ≡ false

-- The chain of operations fails where the first one does or the others do.
and_then-IsStuck :
    {A B : Type 0} (P : WalWriter in_memory → Type 0) (o : Outcome in_memory A)
    (f : WalWriter in_memory → A → Outcome in_memory B)
    → P o.0
    → ((w : WalWriter in_memory) → P w → w.is_open ≡ false)
    → ((w : WalWriter in_memory) (a : A) → P w → IsStuck (f w a))
    → IsStuck (and_then in_memory o f)
and_then-IsStuck P (w, ok a) f p shut next = next w a p
and_then-IsStuck P (w, err e) f p shut next = shut w p

first-IsStuck :
    {A B : Type 0} (o : Outcome in_memory A) (f : WalWriter in_memory → A → Outcome in_memory B)
    → IsStuck o
    → IsStuck (and_then in_memory o f)
first-IsStuck (w, ok a) f stuck = absurd stuck
first-IsStuck (w, err e) f stuck = stuck

module _ (m : InMemoryManifest) (id : ℕ) (unknown : lookup (wal_key id) m.segments ≡ none) where
  -- The writer is at the segment, with the manifest.
  record IsAt (w : WalWriter in_memory) : Type 0 where
    manifest : w.manifest ≡ some m
    segment : w.segment_id ≡ id

  record IsShutAt (w : WalWriter in_memory) : Type 0 where
    at : IsAt w
    shut : w.is_open ≡ false

  seal_segment-unknown : (checksum : ℕ) → seal_segment id checksum m ≡ err not_found
  unfolding seal_segment with_segment
  seal_segment-unknown checksum = rw (seal_segment, with_segment, unknown) refl

  seal_in-IsStuck :
      (io : Io) (w : WalWriter in_memory) → IsShutAt w → IsStuck (seal_in in_memory io w w.manifest)
  unfolding seal_in
  seal_in-IsStuck io w s =
      subst (λ n. IsStuck (seal_in in_memory io w n)) (sym s.at.manifest)
        (if-split IsStuck io.checksum_works _ _
          (λ _.
            subst (λ r. IsStuck (keep_manifest in_memory w r))
              (sym (
                subst
                  (λ j.
                    seal_segment j
                      (calculate_segment_checksum (content in_memory w.segment_id w.files)) m
                    ≡ err not_found)
                  (sym s.at.segment) (seal_segment-unknown _)))
              s.shut)
          (λ _. s.shut))

  close_file-IsShutAt :
      (io : Io) (w : WalWriter in_memory) → IsAt w → IsShutAt (close_file in_memory io w).0
  unfolding close_file
  close_file-IsShutAt io w at =
      if-split (λ (o : Outcome in_memory (Unit {0})). IsShutAt o.0) (io.close_works && w.is_open) _
        _
        (λ _. record { at = record { manifest = at.manifest; segment = at.segment }; shut = refl })
        (λ _. record { at = record { manifest = at.manifest; segment = at.segment }; shut = refl })

  rotate_rest : Io → WalWriter in_memory → Outcome in_memory (Unit {0})
  rotate_rest io w = and_then in_memory (close_file in_memory io w) (λ w _.
      and_then in_memory (seal_in in_memory io w w.manifest) (λ w _.
        and_then in_memory (create_in in_memory (next_segment in_memory w) w.manifest)
          (λ w _. open_segment in_memory io w)))

  rotate_rest-IsStuck : (io : Io) (w : WalWriter in_memory) → IsAt w → IsStuck (rotate_rest io w)
  unfolding rotate_rest
  rotate_rest-IsStuck io w at =
      and_then-IsStuck IsShutAt (close_file in_memory io w) _ (close_file-IsShutAt io w at)
        (λ w s. s.shut)
        (λ w _ s. first-IsStuck (seal_in in_memory io w w.manifest) _ (seal_in-IsStuck io w s))

  rotate_locked-IsStuck :
      (io : Io) (w : WalWriter in_memory)
      → IsAt w
      → (io.sync_works && w.is_open) ≡ true
      → IsStuck (rotate_locked in_memory io w)
  unfolding rotate_locked sync_locked rotate_rest
  rotate_locked-IsStuck io w at works =
      let R = λ (o : Outcome in_memory (Unit {0})).
        IsStuck (and_then in_memory o (λ w _. rotate_rest io w)) in
      if-split R (w.pending_writes == 0) _ _ (λ _. rotate_rest-IsStuck io w at)
        (λ _.
          if-split R (io.sync_works && w.is_open) _ _
            (λ _.
              rotate_rest-IsStuck io (record w { pending_writes = 0 })
                (record { manifest = at.manifest; segment = at.segment }))
            (λ no. cc (works, no)))

-- Nothing can be appended once the segment's file is closed.
module _ (config : WriterConfig) (io : Io) (type : ℕ) (payload : Bytes) (w : WalWriter in_memory)
    (shut : w.is_open ≡ false) where
  write_data-IsStuck :
      (bytes : Bytes) (v : WalWriter in_memory)
      → v.is_open ≡ false
      → IsStuck (write_data in_memory io bytes v)
  unfolding write_data
  write_data-IsStuck bytes v closed =
      if-split IsStuck v.is_open _ _ (λ open_now. cc (closed, open_now)) (λ _. closed)

  append-IsStuck : IsStuck (append in_memory config io type payload w)
  unfolding append take_lsn
  append-IsStuck =
      if-split IsStuck w.closed _ _ (λ _. shut)
        (λ _. elim (Result-cases (new_record type w.lsn payload)) [
          | inr (e, made) ↦ rw made shut
          | inl (rec, made) ↦ rw made (
              first-IsStuck (write_data in_memory io (encode rec) (take_lsn in_memory w)) _
                (write_data-IsStuck (encode rec) (take_lsn in_memory w) shut))
        ])

  append_with_sync-IsStuck : IsStuck (append_with_sync in_memory config io type payload w)
  unfolding append_with_sync take_lsn
  append_with_sync-IsStuck =
      if-split IsStuck w.closed _ _ (λ _. shut)
        (λ _. elim (Result-cases (new_record type w.lsn payload)) [
          | inr (e, made) ↦ rw made shut
          | inl (rec, made) ↦ rw made (
              first-IsStuck (write_data in_memory io (encode rec) (take_lsn in_memory w)) _
                (write_data-IsStuck (encode rec) (take_lsn in_memory w) shut))
        ])

stuck-shut : {A : Type 0} (o : Outcome in_memory A) → IsStuck o → o.0.is_open ≡ false
stuck-shut (w, ok a) stuck = absurd stuck
stuck-shut (w, err e) stuck = stuck

-- The calls that are no appends leave a closed file closed.
sync_locked-shut :
    (io : Io) (w : WalWriter in_memory)
    → w.is_open ≡ false
    → (sync_locked in_memory io w).0.is_open ≡ false
unfolding sync_locked
sync_locked-shut io w shut = ground (arith, shut)

background_sync-shut :
    (io : Io) (w : WalWriter in_memory)
    → w.is_open ≡ false
    → (background_sync in_memory io w).is_open ≡ false
unfolding background_sync
background_sync-shut io w shut =
    if-both (λ (v : WalWriter in_memory). v.is_open ≡ false) (ltb 0 w.pending_writes) _ _
      (sync_locked-shut io w shut) shut

close-shut :
    (io : Io) (w : WalWriter in_memory)
    → w.is_open ≡ false
    → (close in_memory io w).0.is_open ≡ false
unfolding close sync_file close_file
close-shut io w shut = ground (arith, shut)

-- Every append among the calls returns an error, and leaves the file closed.
abbrev pub AppendsFail : WriterConfig → List Command → WalWriter in_memory → Type 0
AppendsFail config [] w = w.is_open ≡ false
AppendsFail config (append_call io type payload ∷ cs) w =
    let o = append in_memory config io type payload w in IsStuck o × AppendsFail config cs o.0
AppendsFail config (append_with_sync_call io type payload ∷ cs) w =
    let o = append_with_sync in_memory config io type payload w in
    IsStuck o × AppendsFail config cs o.0
AppendsFail config (sync_call io ∷ cs) w = AppendsFail config cs (sync_locked in_memory io w).0
AppendsFail config (tick io ∷ cs) w = AppendsFail config cs (background_sync in_memory io w)
AppendsFail config (close_call io ∷ cs) w = AppendsFail config cs (close in_memory io w).0

shut-AppendsFail :
    (config : WriterConfig) (cs : List Command) (w : WalWriter in_memory)
    → w.is_open ≡ false
    → AppendsFail config cs w
shut-AppendsFail config [] w shut = shut
shut-AppendsFail config (append_call io type payload ∷ cs) w shut =
    let stuck = append-IsStuck config io type payload w shut in
    (
      stuck,
      shut-AppendsFail config cs _ (stuck-shut (append in_memory config io type payload w) stuck),
    )
shut-AppendsFail config (append_with_sync_call io type payload ∷ cs) w shut =
    let stuck = append_with_sync-IsStuck config io type payload w shut in
    (
      stuck,
      shut-AppendsFail config cs _
          (stuck-shut (append_with_sync in_memory config io type payload w) stuck),
    )
shut-AppendsFail config (sync_call io ∷ cs) w shut =
    shut-AppendsFail config cs _ (sync_locked-shut io w shut)
shut-AppendsFail config (tick io ∷ cs) w shut =
    shut-AppendsFail config cs _ (background_sync-shut io w shut)
shut-AppendsFail config (close_call io ∷ cs) w shut =
    shut-AppendsFail config cs _ (close-shut io w shut)

-- A writer with the in-memory manifest that rotates away from a segment that was never registered,
-- with working syncs, fails and leaves the segment's file closed. After it, in any sequence of
-- appends, syncs, ticks of the background goroutine and closes, whatever calls of the operating
-- system work, every append returns an error and the file stays closed.
pub unregistered_rotation :
    (m : InMemoryManifest) (w : WalWriter in_memory) (config : WriterConfig) (io : Io)
    (cs : List Command)
    → lookup (wal_key w.segment_id) m.segments ≡ none
    → w.manifest ≡ some m
    → (io.sync_works && w.is_open) ≡ true
    → IsStuck (rotate_locked in_memory io w)
      × AppendsFail config cs (rotate_locked in_memory io w).0
unregistered_rotation m w config io cs unknown has works =
    let stuck =
      rotate_locked-IsStuck m w.segment_id unknown io w (record { manifest = has; segment = refl })
        works in
    (stuck, shut-AppendsFail config cs _ (stuck-shut (rotate_locked in_memory io w) stuck))
