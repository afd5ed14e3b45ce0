-- ===== src/Db/WalStore/Found.antt =====
-- What a store that is opened finds in its directory.
use selfstack.Prelude.{
  ℕ, ◌≤◌, ◌<◌, ◌^◌, ◌≡◌, refl, sym, ap, ◌∙◌, List, [], ◌∷◌, false, Option, none, some, Result, ok,
  err, All, All-weaken, arith, if-split, Bool-cases, inl, inr, subst,
}
use selfstack.Prelude.Maps.{Map, lookup, bytes_eq, bytes_beq, bytes_beq_iff}
use selfstack.Bytes.{Bytes}
use selfstack.Wal.Manifest.{WalState}
use selfstack.Wal.Manifest.Keys.{nat_eq}
use selfstack.Wal.Roller.{get_segment_id, id_or_zero}
use selfstack.Wal.Roller.Names.{get_segment_id-filename}
use selfstack.Wal.Roller.Listing.{IsLatest}
use selfstack.Wal.Writer.Naming.{segment_filename}
use selfstack.Db.WalStore.{initial_segment_id}
use selfstack.Db.WalStore.New.{own_file, wal_files, latest_segment_id}

-- The writer finds under an ID the file of that name.
pub lookup-wal_files :
    (id : ℕ) (dir : Map Bytes Bytes)
    → id < 2 ^ 64
    → lookup id (wal_files dir) ≡ lookup (segment_filename id) dir
unfolding wal_files lookup
lookup-wal_files id [] h = refl
lookup-wal_files id ((name, file) ∷ dir) h =
    elim (Bool-cases (bytes_beq name (segment_filename id))) [
      | inl is ↦
          let here : get_segment_id name ≡ ok id =
            ap get_segment_id ((bytes_beq_iff name (segment_filename id)).0 is)
            ∙ (get_segment_id-filename id h).0 in
          rw (here, is) (ground arith)
      | inr other ↦ rw other (go (get_segment_id name) other ∙ lookup-wal_files id dir h)
    ]
  where
    go :
        (r : Result ℕ)
        → bytes_beq name (segment_filename id) ≡ false
        → lookup id (own_file name file r (wal_files dir)) ≡ lookup id (wal_files dir)
    go (err e) other = refl
    go (ok id') other =
        if-split (λ (files : Map ℕ Bytes). lookup id files ≡ lookup id (wal_files dir))
          (bytes_beq name (segment_filename id')) ((id', file) ∷ wal_files dir) (wal_files dir)
          (λ is. ground (arith, is, other)) (λ isnt. refl)

pub latest-highest :
    (state : Option WalState) (names : List Bytes) (r : Result (Option (Bytes × ℕ)))
    → IsLatest names r
    → All (λ n. id_or_zero n ≤ initial_segment_id state (latest_segment_id r)) names
unfolding latest_segment_id initial_segment_id
latest-highest state names (ok none) l = subst (All _) (sym l) tt
latest-highest state names (ok (some (name, id))) (e, found, all) =
    All-weaken _ _ names (λ n h. ground arith) all
latest-highest state names (err e) (found, all) = All-weaken _ _ names (λ n h. ground arith) all
