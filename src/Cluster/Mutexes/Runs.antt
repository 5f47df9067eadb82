-- ===== src/Cluster/Mutexes/Runs.antt =====
-- Runs of the handlers of server/rpc.go that have started.
use psk_db.Prelude.{ℕ, zero, suc, List}
use psk_db.Cluster.Mutexes.{Thread, Step, Reach, step}

-- So many steps, in which no handler starts.
pub data Steps : ℕ → List Thread → List Thread → Type 0 where
  done : {threads : List Thread} → Steps zero threads threads
  then :
      {n : ℕ} {threads next later : List Thread}
      → Step threads next
      → Steps n next later
      → Steps (suc n) threads later

pub Steps-Reach :
    {n : ℕ} {threads later : List Thread} → Reach threads → Steps n threads later → Reach later
Steps-Reach r done = r
Steps-Reach r (then s q) = Steps-Reach (step r s) q
