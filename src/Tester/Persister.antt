-- ===== src/Tester/Persister.antt =====
-- raft/src/raft/persister.rs: the persisted state of a server. Several owners may share a persister, so
-- persisters are cells of a store, and what holds one has its address.
use key_value_distributed_sy.Base.{ℕ, suc, List, []}
use key_value_distributed_sy.Base.Loops.{put}

abbrev pub Bytes : Type 0
Bytes = List ℕ

pub record SimplePersister : Type 0 where
  pub state : Bytes
  pub snap : Bytes

abbrev pub new_persister : SimplePersister
new_persister = record { state = []; snap = [] }

-- The cells in use are those below `next`.
pub record Persisters : Type 0 where
  pub cells : ℕ → SimplePersister
  pub next : ℕ

-- `Arc::new(SimplePersister::new())`, with its address.
abbrev pub make_persister : Persisters → ℕ × Persisters
make_persister ps =
    (ps.next, record { cells = put ps.cells ps.next new_persister; next = suc ps.next })

abbrev pub raft_state : ℕ → Persisters → Bytes
raft_state p ps = (ps.cells p).state

abbrev pub snapshot : ℕ → Persisters → Bytes
snapshot p ps = (ps.cells p).snap

abbrev pub save_raft_state : ℕ → Bytes → Persisters → Persisters
save_raft_state p state ps = record ps {
  cells = put ps.cells p (record { state = state; snap = (ps.cells p).snap });
}

-- It takes the lock twice, for the state and for the snapshot.
abbrev pub save_snapshot : ℕ → Bytes → Persisters → Persisters
save_snapshot p snap ps = record ps {
  cells = put ps.cells p (record { state = (ps.cells p).state; snap = snap });
}

abbrev pub save_state_and_snapshot : ℕ → Bytes → Bytes → Persisters → Persisters
save_state_and_snapshot p state snap ps = save_snapshot p snap (save_raft_state p state ps)

-- A new persister with what another one holds.
abbrev pub copy_persister : ℕ → Persisters → ℕ × Persisters
copy_persister p ps =
    let made = make_persister ps in
    (made.0, save_state_and_snapshot made.0 (raft_state p ps) (snapshot p ps) made.1)
