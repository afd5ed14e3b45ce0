-- ===== src/Db/WalStore/Recovered.antt =====
-- Recovery (wal/recovery.go) from the segment files of a WALStore gives the index of the store.
use selfstack.Prelude.{
  ℕ, ◌+◌, ◌^◌, ◌<◌, ◌≡◌, refl, sym, ap, ◌∙◌, List, [], ◌∷◌, ◌++◌, length, Option, none, inl, inr,
  ◌⊎◌, All, arith, subst, false,
}
use selfstack.Prelude.Maps.{lookup, bytes_eq}
use selfstack.Bytes.{Bytes}
use selfstack.Wal.Record.{Record}
use selfstack.Wal.Payload.{Json}
use selfstack.Wal.Recovery.{recover_without_manifest}
use selfstack.Wal.Recovery.Latest.{known_doc, latest}
use selfstack.Wal.Recovery.Same.{latest-same, known-Says}
use selfstack.Wal.Recovery.Whole.{all_records, recover-latest}
use selfstack.Wal.Manifest.{ManifestStore}
use selfstack.Wal.Manifest.Keys.{nat_eq}
use selfstack.Wal.Writer.{WriterConfig, Io, new_wal_writer}
use selfstack.Wal.Writer.Commands.{Acknowledged}
use selfstack.Wal.Writer.Rotation.{open_segment-Held}
use selfstack.Wal.Writer.Increasing.{open_segment-lsn}
use selfstack.Wal.Writer.Exact.{IsIn, open_segment-Only}
use selfstack.Db.MemIndex.{new_mem_index, get}
use selfstack.Db.MemIndex.Laws.{mem_document_index, find_recovered}
use selfstack.Db.WalStore.{WalStore}
use selfstack.Db.WalStore.Written.{recs_of, Holds}
use selfstack.Db.WalStore.Rising.{store_run-Rising, Rising-IsConsistent}
use selfstack.Db.WalStore.Contents.{
  AreFiles, IsIn-append, append-IsIn, recovered-IsIn, acknowledged-IsIn, Says-among,
}
use selfstack.Db.WalStore.Rebuild.{
  StoreCall, add_call, delete_call, IsPossible, store_step, store_run, store_run-StoreAgrees,
}
use selfstack.Db.WalStore.Reopen.{call, calls, AreClean, call-HoldsNow}

new_index-empty : (j : Bytes) → find_recovered j new_mem_index ≡ none
unfolding find_recovered get lookup new_mem_index
new_index-empty j = refl

module _ (json : Json) (M : ManifestStore) (config : WriterConfig) where
  -- A store on an empty directory.
  abbrev pub new_store : Io → ℕ → ℕ → Option M.State → WalStore M
  new_store io lsn id manifest = record {
    index = new_mem_index;
    writer = (new_wal_writer M io [] lsn id manifest).0;
    closed = false;
  }

  new_store-lsn :
      (io : Io) (lsn id : ℕ) (manifest : Option M.State)
      → (new_store io lsn id manifest).writer.lsn ≡ lsn
  unfolding new_wal_writer
  new_store-lsn io lsn id manifest = open_segment-lsn M lsn io _ refl

  new_store-Holds :
      (io : Io) (lsn id : ℕ) (manifest : Option M.State)
      → lsn < 2 ^ 64
      → Holds M [] (new_store io lsn id manifest).writer
  unfolding new_wal_writer lookup
  new_store-Holds io lsn id manifest small = record {
    held = open_segment-Held M [] io _ (record {
      kept = record { all_bytes = λ id file found. cc; lsn = small; kept = tt };
      shut = refl;
    });
    only = open_segment-Only M [] io _ (record { each = λ id file found. absurd (cc) });
  }

  step-call :
      (c : StoreCall) (s : WalStore M)
      → (store_step json M config c s).0 ≡ (call json M config c s).0
  unfolding store_step
  step-call (add_call io doc) s = refl
  step-call (delete_call io doc_id) s = refl

  run-calls :
      (cs : List StoreCall) (s : WalStore M)
      → (store_run json M config cs s).0 ≡ calls json M config cs s
  unfolding store_run
  run-calls [] s = refl
  run-calls (c ∷ cs) s =
      run-calls cs (store_step json M config c s).0 ∙ ap (calls json M config cs) (step-call c s)

  AreClean-IsPossible :
      (cs : List StoreCall) (s : WalStore M)
      → AreClean json M config cs s
      → All (IsPossible json) cs
  AreClean-IsPossible [] s h = tt
  AreClean-IsPossible (c ∷ cs) s ((p, _, _), h) = (p, AreClean-IsPossible cs _ h)

  -- The records of the log behind the calls: those in front of them, and those that the calls logged.
  abbrev Adds : List Acknowledged → List Record → List Acknowledged → Type 0
  Adds acks now acks' =
      ((r : Record) → IsIn (recs_of acks') r → IsIn (recs_of acks) r ⊎ IsIn now r)
      × ((r : Record) → IsIn (recs_of acks) r ⊎ IsIn now r → IsIn (recs_of acks') r)

  Adds-then :
      (acks acks' acks'' : List Acknowledged) (now later : List Record)
      → recs_of acks' ≡ now ++ recs_of acks
      → Adds acks' later acks''
      → Adds acks (now ++ later) acks''
  Adds-then acks acks' acks'' now later e (from, to) = (
    λ r i. elim (from r i) [
      | inl old ↦ elim (append-IsIn r now (recs_of acks) (subst (λ t. IsIn t r) e old)) [
        | inl here ↦ inr (IsIn-append r now later (inl here))
        | inr before ↦ inl before
      ]
      | inr new ↦ inr (IsIn-append r now later (inr new))
    ],
    λ r i. elim i [
      | inl old ↦
          to r (inl (subst (λ t. IsIn t r) (sym e) (IsIn-append r now (recs_of acks) (inr old))))
      | inr new ↦ elim (append-IsIn r now later new) [
        | inl here ↦
            to r (inl (subst (λ t. IsIn t r) (sym e) (IsIn-append r now (recs_of acks) (inl here))))
        | inr after ↦ to r (inr after)
      ]
    ],
  )

  calls-Holds :
      (cs : List StoreCall) (s : WalStore M) (acks : List Acknowledged)
      → AreClean json M config cs s
      → Holds M acks s.writer
      → (acks' : List Acknowledged) × Holds M acks' (calls json M config cs s).writer
        × Adds acks (store_run json M config cs s).1 acks'
  unfolding store_run
  calls-Holds [] s acks clean h =
      (acks, h, (λ r i. inl i, λ r i. elim i [ inl old ↦ old | inr none_new ↦ absurd none_new ]))
  calls-Holds (c ∷ cs) s acks ((p, atomic, clean), rest) h =
      let (acks', h', e) = call-HoldsNow json M config c s acks p atomic clean h in
      let (acks'', h'', adds) = calls-Holds cs (call json M config c s).0 acks' rest h' in
      (
        acks'',
        h'',
        Adds-then acks acks' acks'' _ _ e (
            subst (λ s'. Adds acks' (store_run json M config cs s').1 acks'') (sym (step-call c s))
              adds),
      )

  module _ (cs : List StoreCall) (s : WalStore M) (segments : List (Option Bytes)) (k : Bytes) where
    same_known :
        (acks : List Acknowledged)
        → s.writer.lsn + length cs < 2 ^ 64
        → Holds M acks (calls json M config cs s).writer
        → Adds [] (store_run json M config cs s).1 acks
        → AreFiles segments (calls json M config cs s).writer.files
        → latest json k (all_records segments) none
          ≡ latest json k (store_run json M config cs s).1 none
    same_known acks small h (from, to) are =
        let files = (calls json M config cs s).writer.files in
        let logged = (store_run json M config cs s).1 in
        latest-same json k logged (all_records segments)
          (Rising-IsConsistent json k s.writer.lsn logged
            (store_run-Rising json M config cs s small))
          (λ l d. Says-among json k l d (all_records segments) logged (λ r i.
            elim (from r (recovered-IsIn files segments are acks r h.only i)) [
              | inl nowhere ↦ absurd nowhere
              | inr new ↦ new
            ]))
          (λ l d e.
            Says-among json k l d logged (all_records segments)
              (λ r i. acknowledged-IsIn files segments are acks r h.held.kept.kept (to r (inr i)))
              (known-Says json k logged l d e))

  -- A store that is opened again has the documents that it had. A store on an empty directory runs
  -- any calls of `Add` and `Delete`, failing ones included, as long as there are LSNs left for them;
  -- their documents and IDs can be encoded and decoded again, a failing write has written nothing, and
  -- a call that returns an error has left the files of the log as they were. Then recovery from the
  -- files that the calls left, in any order, finds of every document what the index of the store has.
  pub recovery_rebuilds_index :
      (io : Io) (lsn id : ℕ) (manifest : Option M.State) (cs : List StoreCall)
      (segments : List (Option Bytes)) (k : Bytes)
      → lsn + length cs < 2 ^ 64
      → AreClean json M config cs (new_store io lsn id manifest)
      → AreFiles segments (calls json M config cs (new_store io lsn id manifest)).writer.files
      → find_recovered k
          (recover_without_manifest json mem_document_index segments new_mem_index).replay.index
        ≡ find_recovered k (calls json M config cs (new_store io lsn id manifest)).index
  recovery_rebuilds_index io lsn id manifest cs segments k small clean are =
      let s = new_store io lsn id manifest in
      let left : s.writer.lsn + length cs < 2 ^ 64 =
        omega (arith, new_store-lsn io lsn id manifest) in
      let (acks, h, adds) =
        calls-Holds cs s [] clean (new_store-Holds io lsn id manifest (omega arith)) in
      let agrees =
        store_run-StoreAgrees json M config k cs s none (AreClean-IsPossible cs s clean) left
          (record { doc = new_index-empty k; older = tt }) in
      recover-latest json mem_document_index segments new_mem_index k new_index-empty
      ∙ ap known_doc (same_known cs s segments k acks left h adds are)
      ∙ sym agrees.doc
      ∙ ap (λ s. find_recovered k s.index) (run-calls cs s)
