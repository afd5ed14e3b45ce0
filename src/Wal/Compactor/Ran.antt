-- ===== src/Wal/Compactor/Ran.antt =====
-- internal/scope/db/wal/compactor.go: the configuration, the calls and the worlds of a compaction, and
-- the way its steps are put together.
use selfstack.Prelude.{ℕ, List, [], ◌∷◌, ◌++◌, Bool, Result, ok, err, Error}
use selfstack.Prelude.Maps.{Map, bytes_eq}
use selfstack.Bytes.{Bytes}
use selfstack.Wal.Manifest.Postgres.{Tables}

pub record CompactorConfig : Type 0 where
  pub min_segments_to_compact : ℕ
  pub max_segments_per_compaction : ℕ

-- Whether each call works. Those of one segment go by its ID, a removal by the file's name. A write
-- that fails leaves `left_over` in the temporary file.
pub record CompactIo : Type 0 where
  pub lists : Bool
  pub marks : ℕ → Bool
  pub unmarks : ℕ → Bool
  pub archives_all : Bool
  pub creates : Bool
  pub writes : Bool
  pub left_over : Bytes
  pub finalizes : Bool
  pub begins : Bool
  pub archives : ℕ → Bool
  pub renames : Bool
  pub registers : Bool
  pub commits : Bool
  pub removes : Bytes → Bool
  pub removes_tmp : Bool
  pub tmp_name : Bytes

pub record World : Type 0 where
  pub dir : Map Bytes Bytes
  pub tmp : Map Bytes Bytes
  pub tables : Tables

-- The worlds after each change, the last world, and the value or the error.
pub record Ran {ℓ} (A : Type ℓ) : Type ℓ where
  pub past : List World
  pub world : World
  pub result : Result A

abbrev pub done : World → Ran (Unit {0})
done w = record { past = []; world = w; result = ok tt }

abbrev pub failed {ℓ} : {A : Type ℓ} → Error → World → Ran A
failed e w = record { past = []; world = w; result = err e }

-- One change of the world.
abbrev pub change : World → Ran (Unit {0})
change w = record { past = w ∷ []; world = w; result = ok tt }

-- if err != nil { return err }
abbrev pub and_then {ℓ κ} : {A : Type ℓ} {B : Type κ} → Ran A → (World → A → Ran B) → Ran B
and_then r f = elim r.result [
  | ok a ↦ record {
    past = r.past ++ (f r.world a).past;
    world = (f r.world a).world;
    result = (f r.world a).result;
  }
  | err e ↦ record { past = r.past; world = r.world; result = err e }
]

-- if err != nil { clean up; return err }, where the clean-up drops its own errors.
abbrev pub on_error {ℓ} : {A : Type ℓ} → Ran A → (World → Ran (Unit {0})) → Ran A
on_error r cleanup = elim r.result [
  | ok a ↦ r
  | err e ↦ record {
    past = r.past ++ (cleanup r.world).past;
    world = (cleanup r.world).world;
    result = err e;
  }
]

-- A result that changes nothing in the world, as what a transaction has done before its commit.
abbrev pub returned {ℓ} : {A : Type ℓ} → Result A → World → Ran A
returned r w = record { past = []; world = w; result = r }

-- The tables after a statement, or its error.
abbrev pub stated : Result Tables → World → Ran (Unit {0})
stated (ok t) w = change (record w { tables = t })
stated (err e) w = failed e w
