-- ===== src/Kvs/Reader.antt =====
-- project_5/src/engines/kvstore/kv_reader.rs: the handles that read log files.
use key_value_distributed_sy.Base.{ℕ, Option, none, some, List, [], ◌∷◌, leb, if◌then◌else◌}
use key_value_distributed_sy.Base.Maps.{insert, lookup}
use key_value_distributed_sy.Kvs.Errors.{Result, err, panicked, io_error}
use key_value_distributed_sy.Kvs.Log.{
  Command, CmdMetadata, Codec, Bytes, Disk, same_gen, drop, LogReader, seek,
}

abbrev pub Readers : Type 0
Readers = List (ℕ × LogReader)

pub record KvReader : Type 0 where
  pub readers : Readers
  pub safe_point : ℕ

-- `Clone`: the clone shares the safe point, and starts without handles.
abbrev pub clone : KvReader → KvReader
clone r = record { readers = []; safe_point = r.safe_point }

-- The loop of `close_stale`: the first key is the one that the iterator gives.
unfoldable pub close_stale : ℕ → Readers → Readers
close_stale safe_point [] = []
close_stale safe_point (p ∷ readers) =
    let rest = close_stale safe_point readers in if leb safe_point p.0 then p ∷ readers else rest

-- A file that `File::open` finds is opened anew when there is a handle on it already.
unfoldable pub reopen : Option LogReader → Option Bytes → ℕ → Readers → Option Readers
reopen none file gen readers = some readers
reopen (some _) none gen readers = none
reopen (some _) (some _) gen readers = some (insert same_gen gen (seek 0) readers)

-- `seek`, `take` and the closure of `read_command` on the file behind a handle. The bytes of a file
-- that was removed stay readable through a handle that is open; here they are gone.
unfoldable pub read_file : Codec → CmdMetadata → Option Bytes → Result Command
read_file codec cmd none = err io_error
read_file codec cmd (some file) =
    codec.from_reader (seek cmd.position) cmd.len (drop cmd.position file)

-- `binding.get_mut(&cmd.generation_num).unwrap()` and what follows it.
unfoldable pub read_handle : Codec → CmdMetadata → Option Bytes → Option LogReader → Result Command
read_handle codec cmd file none = panicked
read_handle codec cmd file (some _) = read_file codec cmd file

unfoldable pub read_through :
    Codec → CmdMetadata → Option Bytes → KvReader → Option Readers → KvReader × Result Command
read_through codec cmd file r none = (r, err io_error)
read_through codec cmd file r (some readers) = (
  record r { readers = readers },
  read_handle codec cmd file (lookup same_gen cmd.generation_num readers),
)

unfoldable pub read_command : Codec → Disk → KvReader → CmdMetadata → KvReader × Result Command
unfolding close_stale reopen read_through read_handle read_file lookup insert
read_command codec disk r cmd =
    let readers = close_stale r.safe_point r.readers in
    let file = lookup same_gen cmd.generation_num disk in
    read_through codec cmd file (record r { readers = readers })
      (reopen (lookup same_gen cmd.generation_num readers) file cmd.generation_num readers)
