-- ===== src/Server/Snapshots.antt =====
-- Snapshots of PostgreSQL, whose functions are not of this repository: `xmin` is the lowest transaction that was
-- running, `xmax` is one past the highest that had begun, and `xip` are those that were running.
use pg_que.Base.{◌≡◌}
use pg_que.Base.{
  ℕ, ◌≤◌, ◌<◌, Bool, true, false, ◌||◌, not, List, [], ◌∷◌, ltb, leb, ◌==◌, All, if◌then◌else◌,
}

pub record Snapshot : Type 0 where
  pub xmin : ℕ
  pub xmax : ℕ
  pub xip : List ℕ
  -- `pg_visible_in_snapshot(txid, snapshot)`
  pub sees : ℕ → Bool

abbrev pub mem : ℕ → List ℕ → Bool
mem x [] = false
mem x (y ∷ ys) = x == y || mem x ys

abbrev pub visible : Snapshot → ℕ → Bool
visible s txid = s.sees txid

-- What PostgreSQL documents of a snapshot.
pub record IsSnapshot (s : Snapshot) : Type 0 where
  pub bounds : s.xmin ≤ s.xmax
  pub running : All (λ txid. (s.xmin ≤ txid) × (txid < s.xmax)) s.xip
  pub documented :
      (txid : ℕ)
      → visible s txid ≡ (
          if ltb txid s.xmin then true else if leb s.xmax txid then false else not (mem txid s.xip))
