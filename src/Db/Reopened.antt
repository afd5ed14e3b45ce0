-- ===== src/Db/Reopened.antt =====
-- A concrete store that is opened again.
use selfstack.Prelude.{
  subst, sym, ℕ, zero, suc, ◌^◌, ◌<◌, ◌≡◌, refl, List, [], ◌∷◌, length, replicate, true, none, some,
  ok, All, arith, inl, inr,
}
use selfstack.Prelude.Maps.{Map, lookup, insert, bytes_eq}
use selfstack.Wal.Manifest.Keys.{nat_eq}
use selfstack.Bytes.{Bytes, put_uint}
use selfstack.Wal.Record.{new_record, encode, header_fields}
use selfstack.Wal.Payload.{Json, DocMetadata, encode_doc_payload, encode_delete_payload, put_floats}
use selfstack.Wal.Recovery.{recover_without_manifest}
use selfstack.Wal.Manifest.{in_memory}
use selfstack.Wal.Writer.{
  WriterConfig, Io, append_with_sync, new_wal_writer, open_segment, truncated, write_data, take_lsn,
  sync_file, rotate_due, content,
}
use selfstack.Db.MemIndex.{Document, new_mem_index, has}
use selfstack.Db.MemIndex.Laws.{mem_document_index, find_recovered}
use selfstack.Db.WalStore.{WalStore, add_type, metadata_of, add, delete_document, log}
use selfstack.Db.WalStore.Agreement.{IsStorable, IsErasable}
use selfstack.Db.WalStore.Written.{IsClean}
use selfstack.Db.WalStore.Contents.{AreFiles}
use selfstack.Db.WalStore.Reopen.{call, calls, AreClean}
use selfstack.Db.WalStore.Recovered.{new_store, recovery_rebuilds_index}
use selfstack.Db.WalStore.Rebuild.{StoreCall, add_call, delete_call}

-- A stand-in for encoding/json that keeps the text only.
abbrev text_metadata : Bytes → DocMetadata
text_metadata text = record { source = []; title = []; text = text; metadata = []; created_at = 0 }

abbrev text_json : Json
text_json = record { marshal = λ meta. ok meta.text; unmarshal = λ text. ok (text_metadata text) }

abbrev id_a : Bytes
id_a = 97 ∷ []

abbrev note : Document
note = record {
  id = id_a;
  source = [];
  title = [];
  text = 104 ∷ 105 ∷ [];
  metadata = [];
  created_at = 0;
  embedding = replicate 128 0;
}

zeros-fit : (n : ℕ) → All (λ x. x < 2 ^ 32) (replicate n 0)
zeros-fit zero = tt
zeros-fit (suc n) = (omega arith, zeros-fit n)

length-zeros : (n : ℕ) → length {A = ℕ} (replicate n 0) ≡ n
length-zeros zero = refl
length-zeros (suc n) = omega (arith, length-zeros n)

note-IsStorable : IsStorable text_json note
unfolding metadata_of
note-IsStorable = record {
  meta_json = 104 ∷ 105 ∷ [];
  faithful = record { written = refl; read_back = refl; fits = omega arith };
  dim = length-zeros 128;
  words = zeros-fit 128;
  short = omega arith;
  id_bytes = (omega arith, tt);
  json_bytes = (omega arith, (omega arith, tt));
}

abbrev works : Io
works = record {
  write_fails = none;
  sync_works = true;
  close_works = true;
  checksum_works = true;
  repair_works = true;
  open_works = true;
}

abbrev config : WriterConfig
config = record { immediate = true; batch_size = 0; max_size = 67_108_864 }

abbrev disk_full : Io
disk_full = record works { write_fails = some 0 }

abbrev empty_store : WalStore in_memory
empty_store = new_store text_json in_memory config works 1 1 none

-- A document is added, its deletion fails, and it is deleted.
abbrev three_calls : List StoreCall
three_calls = add_call works note ∷ delete_call disk_full id_a ∷ delete_call works id_a ∷ []

id_a-IsErasable : IsErasable id_a
id_a-IsErasable = record { filled = omega arith; short = omega arith; id_bytes = (omega arith, tt) }

abbrev added : WalStore in_memory
added = (call text_json in_memory config (add_call works note) empty_store).0

added-IsClean :
    IsClean in_memory empty_store
      (call text_json in_memory config (add_call works note) empty_store)
unfolding add log append_with_sync new_wal_writer open_segment truncated encode_doc_payload
    new_record write_data take_lsn sync_file rotate_due lookup encode header_fields put_floats
    put_uint metadata_of insert new_mem_index add_type has
added-IsClean = inl refl

not_deleted-IsClean :
    IsClean in_memory added (call text_json in_memory config (delete_call disk_full id_a) added)
unfolding add delete_document log append_with_sync new_wal_writer open_segment truncated
    encode_doc_payload new_record write_data take_lsn sync_file rotate_due lookup encode
    header_fields put_floats put_uint metadata_of insert new_mem_index add_type has
    encode_delete_payload
not_deleted-IsClean = inr (λ id. refl)

abbrev not_deleted : WalStore in_memory
not_deleted = (call text_json in_memory config (delete_call disk_full id_a) added).0

deleted-IsClean :
    IsClean in_memory not_deleted
      (call text_json in_memory config (delete_call works id_a) not_deleted)
unfolding add delete_document log append_with_sync new_wal_writer open_segment truncated
    encode_doc_payload new_record write_data take_lsn sync_file rotate_due lookup encode
    header_fields put_floats put_uint metadata_of insert new_mem_index add_type has
    encode_delete_payload
deleted-IsClean = inl refl

three_calls-AreClean : AreClean text_json in_memory config three_calls empty_store
three_calls-AreClean = (
  (note-IsStorable, tt, added-IsClean),
  ((id_a-IsErasable, refl, not_deleted-IsClean), ((id_a-IsErasable, tt, deleted-IsClean), tt)),
)

abbrev log_files : Map ℕ Bytes
log_files = (calls text_json in_memory config three_calls empty_store).writer.files

-- A directory with one file.
one-AreFiles : (file : Bytes) → AreFiles (some file ∷ []) ((1, file) ∷ [])
unfolding lookup
one-AreFiles file = record {
  each = ((1, file, refl, refl), tt);
  all = λ id file' found. inl (ground arith);
}

log_files-one : log_files ≡ (1, content in_memory 1 log_files) ∷ []
unfolding add delete_document log append_with_sync new_wal_writer open_segment truncated
    encode_doc_payload new_record write_data take_lsn sync_file rotate_due lookup encode
    header_fields put_floats put_uint metadata_of insert new_mem_index add_type has
    encode_delete_payload
log_files-one = refl

recovery_rebuilds_index_example :
    find_recovered id_a
      (recover_without_manifest text_json mem_document_index
        (some (content in_memory 1 log_files) ∷ [])
        new_mem_index).replay.index
    ≡ find_recovered id_a (calls text_json in_memory config three_calls empty_store).index
recovery_rebuilds_index_example =
    recovery_rebuilds_index text_json in_memory config works 1 1 none three_calls
      (some (content in_memory 1 log_files) ∷ []) id_a (omega arith) three_calls-AreClean
      (subst (AreFiles (some (content in_memory 1 log_files) ∷ [])) (sym log_files-one)
        (one-AreFiles (content in_memory 1 log_files)))
