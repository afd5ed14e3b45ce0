-- ===== src/Db/Saved.antt =====
-- A concrete file store that is flushed and opened again.
use selfstack.Prelude.{
  ℕ, zero, suc, ◌^◌, ◌<◌, ◌≡◌, refl, [], ◌∷◌, true, none, Result, ok, err, ◌==◌, false, replicate,
  All, arith, if◌then◌else◌, token_too_long,
}
use selfstack.Bytes.{Bytes}
use selfstack.Wal.Payload.{Embedding}
use selfstack.Db.MemIndex.{Document}
use selfstack.Db.Store.{Store}
use selfstack.Db.Store.Disk.{
  Disk, DocJson, FlushIo, write_docs, write_metadata, write_floats, write_vectors, flush, new_store,
  drop_cr,
}
use selfstack.Db.Store.Reload.{new_store-flush}
use selfstack.Db.Store.Written.{IsKept, IsEmbedding, all_fit}

abbrev zeros : Embedding
zeros = replicate 128 0

abbrev document : Bytes → Document
document text = record {
  id = [];
  source = [];
  title = [];
  text = text;
  metadata = [];
  created_at = 0;
  embedding = zeros;
}

-- A stand-in for encoding/json that keeps the text only.
abbrev text_json : DocJson
text_json = record { marshal = λ doc. ok doc.text; unmarshal = λ text. ok (document text) }

abbrev io : FlushIo
io = record {
  creates_metadata = true;
  writes_doc = λ i. true;
  creates_vectors = true;
  writes_count = true;
  writes_dim = true;
  writes_vector = λ i. true;
  left_over = [];
}

abbrev store : Store
store = record { docs = document (97 ∷ []) ∷ document (98 ∷ []) ∷ []; modified = true }

abbrev no_files : Disk
no_files = record { metadata = none; vectors = none }

abbrev flushed : Store × Disk × Result (Unit {0})
flushed = flush text_json io store no_files

flushed-ok : flush text_json io store no_files ≡ (flushed.0, flushed.1, ok tt)
unfolding flush write_metadata write_docs write_vectors write_floats
flushed-ok = refl

document-IsKept :
    (b : ℕ) → (b == 10) ≡ false → (b == 13) ≡ false → IsKept text_json (document (b ∷ []))
unfolding drop_cr
document-IsKept b e e' = record {
  line = b ∷ [];
  written = refl;
  read_back = refl;
  one_line = (e, tt);
  no_return = rw e' refl;
}

zeros-fit : (n : ℕ) → All (λ x. x < 2 ^ 32) (replicate n 0)
zeros-fit zero = tt
zeros-fit (suc n) = (omega arith, zeros-fit n)

document-IsEmbedding : (text : Bytes) → IsEmbedding (document text)
document-IsEmbedding text = record { dim = refl; words = zeros-fit 128 }

new_store-flush_example :
    (flushed.0 ≡ record store { modified = false })
    × (new_store (λ text. zeros) text_json flushed.1
        ≡ (if all_fit text_json store.docs then ok flushed.0 else err token_too_long))
new_store-flush_example =
    new_store-flush text_json io store (λ text. zeros) no_files flushed.1 flushed.0 flushed-ok refl
      (omega arith) (document-IsKept 97 refl refl, (document-IsKept 98 refl refl, tt))
      (document-IsEmbedding (97 ∷ []), (document-IsEmbedding (98 ∷ []), tt))
