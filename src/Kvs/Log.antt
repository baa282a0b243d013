-- ===== src/Kvs/Log.antt =====
-- project_5/src/engines/kvstore/{command.rs, log_writer.rs, log_reader.rs}: commands, where they
-- stand in the log files, and the two handles on a log file. A file is the list of its bytes, and
-- the directory a map from the generations of its log files. Proofs are in the child modules.
pub mod Files
use key_value_distributed_sy.Base.{
  ◌>>=◌, ℕ, zero, suc, ◌+◌, ◌-◌, Bool, true, false, Option, none, some, List, [], ◌∷◌, ◌++◌, length,
  leb, ◌==◌, if◌then◌else◌, ◌≡◌,
}
use key_value_distributed_sy.Base.Maps
use key_value_distributed_sy.Base.Maps.{insert, lookup}
use key_value_distributed_sy.Base.Text.{Text}
use key_value_distributed_sy.Kvs.Errors.{Result, Decoded}

pub data Command : Type 0 where
  set : Text → Text → Command
  get : Text → Command
  remove : Text → Command

pub record CmdMetadata : Type 0 where
  pub generation_num : ℕ
  pub position : ℕ
  pub len : ℕ

-- `From<(u64, Range<u64>)>`; a range that ends before it starts would underflow.
abbrev pub from_range : ℕ → ℕ → ℕ → CmdMetadata
from_range generation_num start end = record {
  generation_num = generation_num;
  position = start;
  len = end - start;
}

abbrev pub Bytes : Type 0
Bytes = List ℕ

-- A handle that reads a log file: its position, and where in the file it really stands.
pub record LogReader : Type 0 where
  pub index : ℕ
  pub offset : ℕ

-- `LogReaderWithPos::seek` from the start.
abbrev pub seek : ℕ → LogReader
seek position = record { index = position; offset = position }

-- `LogReaderWithPos::read` of at most `n` bytes where `left` are left in the file: it answers its new
-- position.
unfoldable pub read : LogReader → ℕ → ℕ → LogReader × ℕ
read r n left =
    let index = r.index + 1 in
    (record { index = index; offset = r.offset + (if leb n left then n else left) }, index)

-- What a deserializer that asks for one byte at a time gets from a reader: some bytes, and then the
-- end, which is the answer 0; or some bytes, and then answers that are never 0, which leave its
-- buffer of one byte as it was, with a 0.
pub data Input : Type 0 where
  ending endless : Bytes → Input

-- A log file through a handle that was sought to its start and has read it to its end.
unfoldable pub input : Bytes → Input
unfolding read
input file =
    if (read (record { index = length file; offset = length file }) 1 0).1 == 0
    then ending file
    else endless file

-- A handle that appends to the log file of a generation.
pub record LogWriter : Type 0 where
  pub generation : ℕ
  pub index : ℕ

-- What `std::io::copy` did: the handles after it, the bytes that it wrote and the number it answers.
pub record Copied : Type 0 where
  pub source : LogReader
  pub target : LogWriter
  pub bytes : Bytes
  pub len : ℕ

-- What the store uses of serde_json and of the standard library: the pieces in which a command is
-- written; the command that is read through a handle and `take`, from the bytes where the handle
-- stands; the commands of a stream with the offset behind each; and `copy` from a handle, through
-- `take`, to another, where `none` is a panic.
pub record Codec : Type 0 where
  pub pieces : Command → List Bytes
  pub from_reader : LogReader → ℕ → Bytes → Result Command
  pub stream : Input → List (Decoded Command × ℕ)
  pub copy : LogReader → ℕ → Bytes → LogWriter → Option Copied

-- All that is written of a command.
abbrev pub join : List Bytes → Bytes
join [] = []
join (piece ∷ pieces) = piece ++ join pieces

abbrev pub to_bytes : Codec → Command → Bytes
to_bytes codec c = join (codec.pieces c)

abbrev pub same_gen : ℕ → ℕ → Bool
same_gen a b = a == b

-- The log files of the directory.
abbrev pub Disk : Type 0
Disk = List (ℕ × Bytes)

abbrev pub append_bytes : Option Bytes → Bytes → Bytes
append_bytes none bytes = bytes
append_bytes (some file) bytes = file ++ bytes

-- A write to a file that is open for appending.
unfoldable pub append_to : ℕ → Bytes → Disk → Disk
unfolding insert lookup
append_to gen bytes disk = insert same_gen gen (append_bytes (lookup same_gen gen disk) bytes) disk

abbrev pub take : ℕ → Bytes → Bytes
take zero xs = []
take (suc n) [] = []
take (suc n) (x ∷ xs) = x ∷ take n xs

abbrev pub drop : ℕ → Bytes → Bytes
drop zero xs = xs
drop (suc n) [] = []
drop (suc n) (x ∷ xs) = drop n xs

-- `LogWriterWithPos::write`: the bytes are written, and it answers its new position.
unfoldable pub write : LogWriter → Bytes → LogWriter × ℕ
write w buf = let index = w.index + 1 in (record w { index = index }, index)

-- `Write::write_all` of the standard library, on the bytes that are left: it drops as many bytes as
-- `write` answers, which panics when there are fewer.
unfoldable pub write_all : ℕ → LogWriter → Bytes → Option LogWriter
unfolding write
write_all zero w buf = none
write_all (suc fuel) w [] = some w
write_all (suc fuel) w (x ∷ buf) =
    let answer = write w (x ∷ buf) in
    let rest = write_all fuel answer.0 (drop answer.1 (x ∷ buf)) in
    if leb answer.1 (length (x ∷ buf)) then rest else none

-- `serde_json::to_writer`, which writes the pieces of a value one after the other.
unfoldable pub to_writer : LogWriter → List Bytes → Option LogWriter
unfolding write_all
to_writer w [] = some w
to_writer w (piece ∷ pieces) = do w' ← write_all (length piece + 1) w piece; to_writer w' pieces

-- `LogWriterWithPos::new_log_file`: the file is made when it is not there, and the position of a
-- file that is opened for appending starts at 0.
touch : Option Bytes → ℕ → Disk → Disk
touch none gen disk = insert same_gen gen [] disk
touch (some file) gen disk = disk

unfoldable pub new_log_file : ℕ → Disk → LogWriter × Disk
unfolding touch insert lookup
new_log_file gen disk =
    (record { generation = gen; index = 0 }, touch (lookup same_gen gen disk) gen disk)
