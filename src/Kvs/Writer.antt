-- ===== src/Kvs/Writer.antt =====
-- project_5/src/engines/kvstore/kv_writer.rs: the writer of the store.
-- Errors of the operating system are not modelled, and a panic leaves the state of the model as it
-- was before the call. Proofs are in the child modules.
pub mod Compact
pub mod Sets
use key_value_distributed_sy.Base.{
  ◌>>=◌, ℕ, zero, suc, ◌+◌, ◌*◌, ◌-◌, Bool, true, false, Option, none, some, List, [], ◌∷◌, ◌==◌,
  ltb, if◌then◌else◌, keep,
}
use key_value_distributed_sy.Base.Maps.{insert, erase, lookup}
use key_value_distributed_sy.Base.Text.{Text, same_text}
use key_value_distributed_sy.Kvs.Errors.{Result, ok, err, panicked, key_not_found}
use key_value_distributed_sy.Kvs.Log.{
  Command, set, remove, CmdMetadata, from_range, Codec, Bytes, Disk, same_gen, append_to, drop,
  LogReader, seek, LogWriter, to_writer, join, new_log_file,
}
use key_value_distributed_sy.Kvs.Load.{Index, old_len, sorted_generation}
use key_value_distributed_sy.Kvs.Reader.{Readers, KvReader}

abbrev pub mem_threshold : ℕ
mem_threshold = 1024 * 1024

pub record KvWriter : Type 0 where
  pub curr_gen : ℕ
  pub writer : LogWriter
  pub reader : KvReader
  pub index : Index
  pub uncompacted_space : ℕ

-- The writer with the log files.
pub record Shelf : Type 0 where
  pub kv : KvWriter
  pub disk : Disk

-- The variables of the loop of `compact`.
pub record Copying : Type 0 where
  pub readers : Readers
  pub compact_writer : LogWriter
  pub position : ℕ
  pub disk : Disk

abbrev pub remove_files : List ℕ → Disk → Disk
remove_files [] disk = disk
remove_files (gen ∷ gens) disk = remove_files gens (erase same_gen gen disk)

module _ (codec : Codec) where
  -- The body of the loop for an entry; `none` is a panic. An entry without a reader is left as it is;
  -- a reader without a file is not met, since the files behind open handles stay.
  unfoldable pub copy_entry :
      ℕ → CmdMetadata → Option LogReader → Option Bytes → Copying → Option (CmdMetadata × Copying)
  unfolding append_to insert
  copy_entry compact_gen cmd none file c = some (cmd, c)
  copy_entry compact_gen cmd (some _) none c = some (cmd, c)
  copy_entry compact_gen cmd (some found) (some file) c = do
    let reader : LogReader = if found.index == cmd.position then found else seek cmd.position
    copied ← codec.copy reader cmd.len (drop reader.offset file) c.compact_writer
    let end : ℕ = c.position + copied.len
    some (
      from_range compact_gen c.position end,
      record {
        readers = insert same_gen cmd.generation_num copied.source c.readers;
        compact_writer = copied.target;
        position = end;
        disk = append_to compact_gen copied.bytes c.disk;
      },
    )

  unfoldable pub copy_entries : ℕ → Index → Copying → Option (Index × Copying)
  unfolding copy_entry lookup
  copy_entries compact_gen [] c = some ([], c)
  copy_entries compact_gen (p ∷ index) c = do
    copied ←
        copy_entry compact_gen p.1 (lookup same_gen p.1.generation_num c.readers)
          (lookup same_gen p.1.generation_num c.disk) c
    rest ← copy_entries compact_gen index copied.1
    some ((p.0, copied.0) ∷ rest.0, rest.1)

  after_copy : KvWriter → Disk → Option (Index × Copying) → Shelf × Result Unit
  after_copy kv disk none = (record { kv = kv; disk = disk }, panicked)
  after_copy kv disk (some (index, c)) =
      let stale_gens = keep (λ gen. ltb gen (kv.curr_gen - 1)) (sorted_generation c.disk) in
      (
        record {
          kv = record kv {
            index = index;
            uncompacted_space = 0;
            reader = record (kv.reader) { readers = c.readers };
          };
          disk = remove_files stale_gens c.disk;
        },
        ok tt,
      )

  unfoldable pub compact : Shelf → Shelf × Result Unit
  unfolding new_log_file copy_entries after_copy sorted_generation erase
  compact s =
      let compact_gen : ℕ = s.kv.curr_gen + 1 in
      let curr_gen : ℕ = s.kv.curr_gen + 2 in
      let (writer, disk1) = new_log_file curr_gen s.disk in
      let (compact_writer, disk2) = new_log_file compact_gen disk1 in
      let kv : KvWriter = record (s.kv) { curr_gen = curr_gen; writer = writer } in
      after_copy kv disk2 (
        copy_entries compact_gen kv.index (record {
          readers = kv.reader.readers;
          compact_writer = compact_writer;
          position = 0;
          disk = disk2;
        }))

  -- `set` once the record is written.
  after_set : Shelf → Text → Bytes → LogWriter → Shelf × Result Unit
  after_set s key bytes writer =
      let kv : KvWriter = record (s.kv) {
        writer = writer;
        uncompacted_space = s.kv.uncompacted_space + old_len (lookup same_text key s.kv.index);
        index =
            insert same_text key (from_range s.kv.curr_gen s.kv.writer.index writer.index)
              s.kv.index;
      } in
      let s' : Shelf = record { kv = kv; disk = append_to s.kv.writer.generation bytes s.disk } in
      let compacted = compact s' in
      if ltb mem_threshold kv.uncompacted_space then compacted else (s', ok tt)

  unfoldable pub writer_set : Shelf → Text → Text → Shelf × Result Unit
  unfolding to_writer after_set compact lookup insert append_to
  writer_set s key value =
      let pieces = codec.pieces (set key value) in
      elim (to_writer s.kv.writer pieces) [
        | none ↦ (s, panicked)
        | some writer ↦ after_set s key (join pieces) writer
      ]

  remove_present : Shelf → Text → Option CmdMetadata → Shelf × Result Unit
  remove_present s key none = (s, err key_not_found)
  remove_present s key (some _) =
      let pieces = codec.pieces (remove key) in
      elim (to_writer s.kv.writer pieces) [
        | none ↦ (s, panicked)
        | some writer ↦ (
          record {
            kv = record (s.kv) { writer = writer; index = erase same_text key s.kv.index };
            disk = append_to s.kv.writer.generation (join pieces) s.disk;
          },
          ok tt,
        )
      ]

  unfoldable pub writer_remove : Shelf → Text → Shelf × Result Unit
  unfolding to_writer remove_present lookup erase append_to
  writer_remove s key = remove_present s key (lookup same_text key s.kv.index)
