-- ===== src/Db/WalStore/Opening.antt =====
-- The LSN from which a store that is opened goes on.
use selfstack.Prelude.{ℕ, ◌+◌, ◌^◌, ◌≤◌, ◌<◌, List, Option, none, some, All, All-weaken, arith}
use selfstack.Bytes.{Bytes}
use selfstack.Wal.Payload.{Json}
use selfstack.Wal.Index.{DocumentIndex}
use selfstack.Wal.Recovery.{RecoveryStats, recover_without_manifest}
use selfstack.Wal.Recovery.Whole.{all_records, recover-stats}
use selfstack.Wal.Manifest.{WalState}
use selfstack.Db.WalStore.{raised_max_lsn, initial_lsn}

raised-le :
    (state : Option WalState) (stats : RecoveryStats) → stats.max_lsn ≤ raised_max_lsn state stats
unfolding raised_max_lsn
raised-le none stats = omega arith
raised-le (some state) stats = grind arith

initial_lsn-lt :
    (state : Option WalState) (max_lsn : ℕ)
    → max_lsn + 1 < 2 ^ 64
    → max_lsn < initial_lsn state max_lsn
unfolding initial_lsn
initial_lsn-lt none max_lsn h = grind arith
initial_lsn-lt (some state) max_lsn h = grind arith

-- A store that is opened does not hand out an LSN again: the LSN that its writer starts from is
-- higher than that of every record that recovery has read, as long as the highest LSN known to
-- recovery or to the manifest is not the last uint64.
pub no_lsn_rewind :
    (json : Json) (I : DocumentIndex) (state : Option WalState) (segments : List (Option Bytes))
    (index : I.Index)
    → let stats = (recover_without_manifest json I segments index).stats in
      raised_max_lsn state stats + 1 < 2 ^ 64
      → All (λ r. r.lsn < initial_lsn state (raised_max_lsn state stats)) (all_records segments)
no_lsn_rewind json I state segments index small =
    let stats = (recover_without_manifest json I segments index).stats in
    let low = raised-le state stats in
    let high = initial_lsn-lt state (raised_max_lsn state stats) small in
    All-weaken _ _ (all_records segments) (λ r h. omega arith)
      (recover-stats json I segments index).1
