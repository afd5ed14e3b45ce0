-- ===== src/Db/WalStore/Logged.antt =====
-- What a call of the store logs, and what is known behind it.
use selfstack.Prelude.{
  ℕ, ◌+◌, ◌^◌, ◌≤◌, ◌<◌, ◌≡◌, refl, sym, ap, ◌∙◌, List, [], ◌∷◌, Option, none, some, Result, ok,
  err, if◌then◌else◌, if-split, if-both, arith, Bool-cases, Result-cases, inl, inr,
}
use selfstack.Prelude.Maps.{bytes_eq, bytes_beq}
use selfstack.Bytes.{Bytes}
use selfstack.Wal.Record.{Record, new_record}
use selfstack.Wal.Payload.{Json}
use selfstack.Wal.Index.{RecoveredDoc}
use selfstack.Wal.Recovery.Latest.{Known, known_doc, learn, learn_change, change, latest}
use selfstack.Wal.Manifest.{ManifestStore}
use selfstack.Wal.Writer.{WriterConfig, Io, WalWriter, Outcome, append, append_with_sync}
use selfstack.Wal.Writer.Order.{Took, append-Took, append_with_sync-Took}
use selfstack.Wal.Writer.Increasing.{new_record-lsn}
use selfstack.Db.MemIndex.{MemIndex}
use selfstack.Db.MemIndex.Laws.{find_recovered}
use selfstack.Db.WalStore.{WalStore, log, finish_with}

-- A call of the writer that returned an LSN made a record.
module _ (M : ManifestStore) (config : WriterConfig) (io : Io) (type : ℕ) (payload : Bytes)
    (w : WalWriter M) where
  abbrev IsMade : Outcome M ℕ → Type 0
  IsMade (w', ok lsn) = (rec : Record) × (new_record type w.lsn payload ≡ ok rec)
  IsMade (w', err e) = Unit {0}

  IsMade-known :
      (rec : Record) → new_record type w.lsn payload ≡ ok rec → (o : Outcome M ℕ) → IsMade o
  IsMade-known rec made (w', ok lsn) = (rec, made)
  IsMade-known rec made (w', err e) = tt

  append-IsMade : IsMade (append M config io type payload w)
  unfolding append
  append-IsMade = elim (Result-cases (new_record type w.lsn payload)) [
    | inl (rec, made) ↦ IsMade-known rec made (append M config io type payload w)
    | inr (e, made) ↦ if-split IsMade w.closed _ _ (λ _. tt) (λ _. rw made tt)
  ]

  append_with_sync-IsMade : IsMade (append_with_sync M config io type payload w)
  unfolding append_with_sync
  append_with_sync-IsMade = elim (Result-cases (new_record type w.lsn payload)) [
    | inl (rec, made) ↦ IsMade-known rec made (append_with_sync M config io type payload w)
    | inr (e, made) ↦ if-split IsMade w.closed _ _ (λ _. tt) (λ _. rw made tt)
  ]

  unfoldable pub IsLogged : Outcome M ℕ → Type 0
  IsLogged o = IsMade o × Took M config io type payload w.lsn o

  pub log-IsLogged : IsLogged (log M config io type payload w)
  unfolding log IsLogged
  log-IsLogged =
      if-both IsLogged config.immediate _ _
        (append_with_sync-IsMade, append_with_sync-Took M config io type payload w)
        (append-IsMade, append-Took M config io type payload w)

-- What is known is older than the LSN.
abbrev pub IsOlder : Known → ℕ → Type 0
IsOlder none n = Unit {0}
IsOlder (some (lsn, d)) n = lsn < n

IsOlder-up : (known : Known) (n n' : ℕ) → n ≤ n' → IsOlder known n → IsOlder known n'
IsOlder-up none n n' h i = tt
IsOlder-up (some (lsn, d)) n n' h i = omega arith

-- A record with a new LSN counts.
learn_change-newer :
    (json : Json) (k : Bytes) (lsn : ℕ) (doc_id : Bytes) (d : Option RecoveredDoc) (known : Known)
    → IsOlder known lsn
    → IsOlder (learn_change json k lsn (some (doc_id, d)) known) (lsn + 1)
      × (known_doc (learn_change json k lsn (some (doc_id, d)) known)
          ≡ (if bytes_beq doc_id k then d else known_doc known))
unfolding learn_change learn
learn_change-newer json k lsn doc_id d none h = elim (Bool-cases (bytes_beq doc_id k)) [
  | inl same ↦ rw same (omega arith, refl)
  | inr other ↦ rw other (tt, refl)
]
learn_change-newer json k lsn doc_id d (some (seen, d')) h = ground arith

module _ (json : Json) (M : ManifestStore) where
  -- The index holds of the document k what is known of it, and the writer's next LSN is new.
  pub record StoreAgrees (k : Bytes) (known : Known) (s : WalStore M) : Type 0 where
    pub doc : find_recovered k s.index ≡ known_doc known
    pub older : IsOlder known s.writer.lsn

  -- The record of a call that returned no error.
  abbrev pub logged : ℕ → ℕ → Result Bytes → Result (Unit {0}) → List Record
  logged type lsn payload (err e) = []
  logged type lsn (err e) (ok u) = []
  logged type lsn (ok payload) (ok u) = elim (new_record type lsn payload) [
    | ok rec ↦ rec ∷ []
    | err e ↦ []
  ]

  -- The index and the log after a call that changes the document doc_id to d.
  module _ (config : WriterConfig) (io : Io) (type : ℕ) (payload : Bytes) (s : WalStore M)
      (index : MemIndex) (k doc_id : Bytes) (d : Option RecoveredDoc)
      (says : (rec : Record)
        → new_record type s.writer.lsn payload ≡ ok rec
        → change json rec ≡ some (doc_id, d))
      (seen : find_recovered k index ≡ (if bytes_beq doc_id k then d else find_recovered k s.index))
      (small : s.writer.lsn + 1 < 2 ^ 64) where
    pub finish_with-StoreAgrees :
        (known : Known) (o : WalWriter M × Result ℕ)
        → StoreAgrees k known s
        → IsLogged M config io type payload s.writer o
        → let (s', r) = finish_with M s index o in
          StoreAgrees k (latest json k (logged type s.writer.lsn (ok payload) r) known) s'
    unfolding latest IsLogged
    finish_with-StoreAgrees known (w, err e) a (made, inl same) = record {
      doc = a.doc;
      older = IsOlder-up known s.writer.lsn w.lsn (omega arith) a.older;
    }
    finish_with-StoreAgrees known (w, err e) a (made, inr next) = record {
      doc = a.doc;
      older = IsOlder-up known s.writer.lsn w.lsn (omega arith) a.older;
    }
    finish_with-StoreAgrees known (w, ok lsn) a ((rec, made), (next, same)) =
        let l = new_record-lsn type s.writer.lsn payload rec made in
        let (older, doc) = learn_change-newer json k s.writer.lsn doc_id d known a.older in
        rw (logged, made, says rec made, l)
          (record {
            doc = seen ∙ ap (λ t. if bytes_beq doc_id k then d else t) a.doc ∙ sym doc;
            older = IsOlder-up _ (s.writer.lsn + 1) w.lsn (omega arith) older;
          })
