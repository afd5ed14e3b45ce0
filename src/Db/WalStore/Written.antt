-- ===== src/Db/WalStore/Written.antt =====
-- internal/scope/db/walstore.go: what Add and Delete leave in the files of the log.
use selfstack.Prelude.{
  ℕ, ◌<◌, ◌≡◌, refl, sym, ap, ◌∙◌, List, [], ◌∷◌, ◌++◌, map, Result, ok, err, ◌⊎◌, inl, inr, All,
  All-append, if-both, subst,
}
use selfstack.Prelude.Maps.{Map, lookup}
use selfstack.Bytes.{Bytes, IsByte, put_uint}
use selfstack.Bytes.LittleEndian.{put_uint-IsByte}
use selfstack.Wal.Record.{Record, new_record}
use selfstack.Wal.Payload.{Json, Embedding, put_floats}
use selfstack.Wal.Manifest.{ManifestStore}
use selfstack.Wal.Manifest.Keys.{nat_eq}
use selfstack.Wal.Writer.{WriterConfig, Io, WalWriter, Outcome}
use selfstack.Wal.Writer.Commands.{Acknowledged, acknowledged, IsAtomic, IsProper}
use selfstack.Wal.Writer.Held.{Held}
use selfstack.Wal.Writer.Durable.{append-Settled, append_with_sync-Settled}
use selfstack.Wal.Writer.Exact.{Only}
use selfstack.Wal.Writer.Added.{append-More, append_with_sync-More}
use selfstack.Db.MemIndex.{MemIndex}
use selfstack.Db.WalStore.{WalStore, log, finish_with, with_payload}
use selfstack.Db.WalStore.Logged.{IsLogged, log-IsLogged, logged}

abbrev pub recs_of : List Acknowledged → List Record
recs_of acks = map (λ (a : Acknowledged). a.1) acks

pub put_floats-IsByte : (embedding : Embedding) → All IsByte (put_floats embedding)
unfolding put_floats
put_floats-IsByte [] = tt
put_floats-IsByte (x ∷ xs) =
    All-append IsByte (put_uint 4 x) (put_floats xs) (put_uint-IsByte 4 x) (put_floats-IsByte xs)

module _ (M : ManifestStore) where
  -- The call returned no error, or left the files of the log as they were.
  abbrev pub IsClean : WalStore M → WalStore M × Result (Unit {0}) → Type 0
  IsClean s (s', r) =
      (r ≡ ok tt) ⊎ ((id : ℕ) → lookup id s'.writer.files ≡ lookup id s.writer.files)

  -- The log holds the acknowledged records and no others.
  pub record Holds (acks : List Acknowledged) (w : WalWriter M) : Type 0 where
    pub held : Held M acks w
    pub only : Only (recs_of acks) w.files

  -- The log holds what it held and the records now.
  abbrev pub HoldsNow : List Acknowledged → List Record → WalWriter M → Type 0
  HoldsNow acks now w =
      (acks' : List Acknowledged) × Holds acks' w × (recs_of acks' ≡ now ++ recs_of acks)

  Only-same :
      (recs : List Record) (files files' : Map ℕ Bytes)
      → Only recs files
      → ((id : ℕ) → lookup id files' ≡ lookup id files)
      → Only recs files'
  Only-same recs files files' o same = record {
    each = λ id file found. o.each id file (sym (same id) ∙ found);
  }

  module _ (json : Json) (config : WriterConfig) (io : Io) (type : ℕ) (acks : List Acknowledged)
      (s : WalStore M) (index : MemIndex) (h : Holds acks s.writer) where
    module _ (payload : Bytes) (proper : IsProper io type payload) where
      abbrev Wrote : Outcome M ℕ → Type 0
      Wrote o =
          Held M (acknowledged M s.writer.segment_id type payload o.1 ++ acks) o.0
          × ((rec : Record)
              → new_record type s.writer.lsn payload ≡ ok rec
              → Only (rec ∷ recs_of acks) o.0.files)

      log-Wrote : Wrote (log M config io type payload s.writer)
      unfolding log
      log-Wrote =
          if-both Wrote config.immediate _ _
            (
              append_with_sync-Settled M acks config io type payload s.writer proper h.held,
              λ rec made.
                  append_with_sync-More M acks (recs_of acks) config io type payload s.writer rec
                    proper h.held made h.only,
            )
            (
              append-Settled M acks config io type payload s.writer proper h.held,
              λ rec made.
                  append-More M acks (recs_of acks) config io type payload s.writer rec proper
                    h.held made h.only,
            )

      finish_with-HoldsNow :
          (o : Outcome M ℕ)
          → Wrote o
          → IsLogged M config io type payload s.writer o
          → IsClean s (finish_with M s index o)
          → let (s', r) = finish_with M s index o in
            HoldsNow acks (logged json M type s.writer.lsn (ok payload) r) s'.writer
      unfolding IsLogged
      finish_with-HoldsNow (w, err e) (held, only) l (inl works) = absurd (cc)
      finish_with-HoldsNow (w, err e) (held, only) l (inr same) = (
        acks,
        record { held = held; only = Only-same (recs_of acks) s.writer.files w.files h.only same },
        refl,
      )
      finish_with-HoldsNow (w, ok lsn) (held, only) ((rec, made), (next, same)) clean =
          let acked : acknowledged M s.writer.segment_id type payload (ok lsn)
              ≡ (s.writer.segment_id, rec) ∷ [] =
            rw (same, acknowledged, made) refl in
          let one : logged json M type s.writer.lsn (ok payload) (ok tt) ≡ rec ∷ [] =
            rw (logged, made) refl in
          (
            (s.writer.segment_id, rec) ∷ acks,
            record { held = subst (λ a. Held M (a ++ acks) w) acked held; only = only rec made },
            ap (λ now. now ++ recs_of acks) (sym one),
          )

    pub with_payload-HoldsNow :
        (encoded : Result Bytes)
        → IsAtomic io
        → type < 256
        → ((payload : Bytes) → encoded ≡ ok payload → All IsByte payload)
        → let (s', r) =
            with_payload M s encoded
              (λ payload. finish_with M s index (log M config io type payload s.writer)) in
          IsClean s (s', r) → HoldsNow acks (logged json M type s.writer.lsn encoded r) s'.writer
    with_payload-HoldsNow (err e) atomic small bytes clean = (acks, h, refl)
    with_payload-HoldsNow (ok payload) atomic small bytes clean =
        let proper : IsProper io type payload = (atomic, small, bytes payload refl) in
        finish_with-HoldsNow payload proper (log M config io type payload s.writer)
          (log-Wrote payload proper) (log-IsLogged M config io type payload s.writer) clean
