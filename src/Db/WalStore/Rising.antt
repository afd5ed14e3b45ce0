-- ===== src/Db/WalStore/Rising.antt =====
-- The records that Add and Delete of internal/scope/db/walstore.go log have LSNs of their own.
use selfstack.Prelude.{
  ℕ, ◌+◌, ◌^◌, ◌≤◌, ◌<◌, ◌≡◌, refl, sym, List, [], ◌∷◌, ◌++◌, length, Option, Result, ok, err,
  if-both, arith, inl, inr, subst,
}
use selfstack.Bytes.{Bytes}
use selfstack.Wal.Record.{Record, record_type_delete}
use selfstack.Wal.Payload.{Json, encode_doc_payload, encode_delete_payload}
use selfstack.Wal.Index.{RecoveredDoc}
use selfstack.Wal.Recovery.Same.{Says, IsConsistent}
use selfstack.Wal.Manifest.{ManifestStore}
use selfstack.Wal.Writer.{WriterConfig, Io, WalWriter}
use selfstack.Wal.Writer.Increasing.{new_record-lsn}
use selfstack.Db.MemIndex.{MemIndex, set, delete}
use selfstack.Db.WalStore.{
  WalStore, log, finish_with, with_payload, add_type, metadata_of, add, delete_document,
}
use selfstack.Db.WalStore.Logged.{IsLogged, log-IsLogged, logged}
use selfstack.Db.WalStore.Rebuild.{
  StoreCall, add_call, delete_call, store_step, store_run, store_step-lsn,
}

-- The LSNs strictly increase, and none is below the bound.
abbrev pub Rising : ℕ → List Record → Type 0
Rising low [] = Unit {0}
Rising low (r ∷ rs) = (low ≤ r.lsn) × Rising (r.lsn + 1) rs

Rising-weaken : (low low' : ℕ) (rs : List Record) → low ≤ low' → Rising low' rs → Rising low rs
Rising-weaken low low' [] h i = tt
Rising-weaken low low' (r ∷ rs) h (p, i) = (omega arith, i)

module _ (json : Json) (k : Bytes) where
  Rising-Says :
      (low l : ℕ) (d : Option RecoveredDoc) (rs : List Record)
      → Rising low rs
      → Says json k l d rs
      → low ≤ l
  Rising-Says low l d [] i s = absurd s
  Rising-Says low l d (r ∷ rs) (p, i) (inl (c, e)) = omega arith
  Rising-Says low l d (r ∷ rs) (p, i) (inr s) =
      let le = Rising-Says (r.lsn + 1) l d rs i s in omega arith

  pub Rising-IsConsistent : (low : ℕ) (rs : List Record) → Rising low rs → IsConsistent json k rs
  Rising-IsConsistent low [] i l d d' s s' = absurd s
  Rising-IsConsistent low (r ∷ rs) (p, i) l d d' (inl (c, e)) (inl (c', e')) = cc
  Rising-IsConsistent low (r ∷ rs) (p, i) l d d' (inl (c, e)) (inr s') =
      let le = Rising-Says (r.lsn + 1) l d' rs i s' in absurd (omega arith)
  Rising-IsConsistent low (r ∷ rs) (p, i) l d d' (inr s) (inl (c', e')) =
      let le = Rising-Says (r.lsn + 1) l d rs i s in absurd (omega arith)
  Rising-IsConsistent low (r ∷ rs) (p, i) l d d' (inr s) (inr s') =
      Rising-IsConsistent (r.lsn + 1) rs i l d d' s s'

module _ (json : Json) (M : ManifestStore) (config : WriterConfig) where
  -- What a call logs stands in front of whatever is logged from the state after it on.
  abbrev IsFront : ℕ → List Record → ℕ → Type 0
  IsFront lsn now lsn' = (more : List Record) → Rising lsn' more → Rising lsn (now ++ more)

  finish_with-IsFront :
      (io : Io) (type : ℕ) (payload : Bytes) (s : WalStore M) (index : MemIndex)
      (o : WalWriter M × Result ℕ)
      → s.writer.lsn + 1 < 2 ^ 64
      → IsLogged M config io type payload s.writer o
      → let (s', r) = finish_with M s index o in
        IsFront s.writer.lsn (logged json M type s.writer.lsn (ok payload) r) s'.writer.lsn
  unfolding IsLogged
  finish_with-IsFront io type payload s index (w, err e) small (made, inl same) more i =
      Rising-weaken s.writer.lsn w.lsn more (omega arith) i
  finish_with-IsFront io type payload s index (w, err e) small (made, inr next) more i =
      Rising-weaken s.writer.lsn w.lsn more (omega arith) i
  finish_with-IsFront io type payload s index (w, ok lsn) small ((rec, made), (next, same)) more i =
      let l = new_record-lsn type s.writer.lsn payload rec made in
      let one : logged json M type s.writer.lsn (ok payload) (ok tt) ≡ rec ∷ [] =
        rw (logged, made) refl in
      subst (λ now. Rising s.writer.lsn (now ++ more)) (sym one)
        (omega arith, Rising-weaken (rec.lsn + 1) w.lsn more (omega arith) i)

  with_payload-IsFront :
      (io : Io) (type : ℕ) (s : WalStore M) (index : MemIndex) (encoded : Result Bytes)
      → s.writer.lsn + 1 < 2 ^ 64
      → let (s', r) =
          with_payload M s encoded
            (λ payload. finish_with M s index (log M config io type payload s.writer)) in
        IsFront s.writer.lsn (logged json M type s.writer.lsn encoded r) s'.writer.lsn
  with_payload-IsFront io type s index (err e) small more i = i
  with_payload-IsFront io type s index (ok payload) small more i =
      finish_with-IsFront io type payload s index (log M config io type payload s.writer) small
        (log-IsLogged M config io type payload s.writer) more i

  step-IsFront :
      (c : StoreCall) (s : WalStore M)
      → s.writer.lsn + 1 < 2 ^ 64
      → let (s', now) = store_step json M config c s in IsFront s.writer.lsn now s'.writer.lsn
  unfolding store_step add delete_document
  step-IsFront (add_call io doc) s small =
      let encoded = encode_doc_payload json doc.id (metadata_of doc) doc.embedding in
      if-both
        (λ (o : WalStore M × Result (Unit {0})).
          IsFront s.writer.lsn (logged json M (add_type M doc s.index) s.writer.lsn encoded o.1)
            o.0.writer.lsn)
        s.closed _ _ (λ more i. i)
        (with_payload-IsFront io (add_type M doc s.index) s (set doc.id doc s.index) encoded small)
  step-IsFront (delete_call io doc_id) s small =
      let encoded = encode_delete_payload doc_id in
      if-both
        (λ (o : WalStore M × Result (Unit {0})).
          IsFront s.writer.lsn (logged json M record_type_delete s.writer.lsn encoded o.1)
            o.0.writer.lsn)
        s.closed _ _ (λ more i. i)
        (with_payload-IsFront io record_type_delete s (delete doc_id s.index) encoded small)

  pub store_run-Rising :
      (cs : List StoreCall) (s : WalStore M)
      → s.writer.lsn + length cs < 2 ^ 64
      → Rising s.writer.lsn (store_run json M config cs s).1
  unfolding store_run
  store_run-Rising [] s small = tt
  store_run-Rising (c ∷ cs) s small =
      let (s', now) = store_step json M config c s in
      step-IsFront c s (omega arith) (store_run json M config cs s').1
        (store_run-Rising cs s' (omega (arith, store_step-lsn json M config c s)))
