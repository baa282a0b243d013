-- ===== src/Kvs/Main.antt =====
-- project_5/src/bin/kvs-server.rs: the program that runs the server, and its choice of an engine.
use key_value_distributed_sy.Base.{
  ◌≡◌, refl, Bool, true, false, Option, none, some, List, if◌then◌else◌,
}
use key_value_distributed_sy.Base.Text.{Text}
use key_value_distributed_sy.Kvs.Errors.{CacheError, io_error, Result, ok, err, panicked}
use key_value_distributed_sy.Kvs.Log.{Codec, Disk}
use key_value_distributed_sy.Kvs.Store.{KvStore, open_store, store_engine}
use key_value_distributed_sy.Kvs.Server.{Wire, Incoming, run}

pub data Engines : Type 0 where
  kvs sled : Engines

abbrev pub same_engine : Engines → Engines → Bool
same_engine kvs kvs = true
same_engine kvs sled = false
same_engine sled kvs = false
same_engine sled sled = true

abbrev pub same_choice : Option Engines → Option Engines → Bool
same_choice none none = true
same_choice none (some b) = false
same_choice (some a) none = false
same_choice (some a) (some b) = same_engine a b

-- The file `engine` of the working directory.
pub data EngineFile : Type 0 where
  missing unreadable : EngineFile
  holding : Text → EngineFile

-- How the program ends: `exit(1)`, by `main`'s own check or after the error of `run_server`, a panic,
-- or without an error; or that it still serves.
pub data Exit : Type 0 where
  wrong_engine : Exit
  failed : CacheError → Exit
  crashed finished serving : Exit

-- What the macros of strum make of the names of the engines.
pub record Names : Type 0 where
  pub parse : Text → Option Engines
  pub display : Engines → Text

-- `parse` reads what `display` writes.
abbrev pub IsNaming : Names → Type 0
IsNaming names = (e : Engines) → names.parse (names.display e) ≡ some e

-- What the program meets: whether the file can be written, the error of making the thread pool, the
-- log files of the working directory, and what comes in.
pub record World : Type 0 where
  pub writes : Bool
  pub pool : Option CacheError
  pub disk : Disk
  pub incoming : List Incoming

module _ (names : Names) (codec : Codec) (wire : Wire) where
  unfoldable pub check_current_engine : EngineFile → Result (Option Engines)
  check_current_engine missing = ok none
  check_current_engine unreadable = err io_error
  check_current_engine (holding content) = ok (names.parse content)

  abbrev pub server_spawn : List Incoming → Result KvStore → Option (Result Unit)
  server_spawn incoming (ok store) = (run (store_engine codec) wire store incoming).1
  server_spawn incoming (err e) = some (err e)
  server_spawn incoming panicked = some panicked

  abbrev pub served : World → Option CacheError → Option (Result Unit)
  served world none = server_spawn world.incoming (open_store codec world.disk)
  served world (some e) = some (err e)

  -- The engine is `kvs`, whatever the options are; `none` while the server waits.
  unfoldable pub run_server : World → EngineFile → EngineFile × Option (Result Unit)
  run_server world file =
      if world.writes
      then (holding (names.display kvs), served world world.pool)
      else (file, some (err io_error))

  abbrev pub ended : EngineFile × Option (Result Unit) → EngineFile × Exit
  ended (file, none) = (file, serving)
  ended (file, some (ok u)) = (file, finished)
  ended (file, some (err e)) = (file, failed e)
  ended (file, some panicked) = (file, crashed)

  -- `opt.engine` once it is filled in from the file.
  abbrev pub filled : Option Engines → Option Engines → Option Engines
  filled none curr = curr
  filled (some e) curr = some e

  -- The check of `main`: whether the program goes on.
  abbrev pub is_right : Option Engines → Result (Option Engines) → Bool
  is_right opt (ok none) = true
  is_right opt (ok (some curr)) = same_choice (filled opt (some curr)) (some curr)
  is_right opt (err e) = true
  is_right opt panicked = true

  -- The program with `--engine opt`.
  unfoldable pub main : World → Option Engines → EngineFile → EngineFile × Exit
  unfolding check_current_engine run_server
  main world opt file =
      if is_right opt (check_current_engine file)
      then ended (run_server world file)
      else (file, wrong_engine)

  ended-file : (file : EngineFile) (res : Option (Result Unit)) → (ended (file, res)).0 ≡ file
  ended-file file none = refl
  ended-file file (some (ok u)) = refl
  ended-file file (some (err e)) = refl
  ended-file file (some panicked) = refl

  -- A run in a directory without the file `engine`, which can be written, serves the engine `kvs`,
  -- whichever engine was asked for, and records it. A later run that can write the file too, whatever
  -- log files and clients it meets, is refused when it asks for `sled`, and leaves the record as it is; when it asks for `kvs`
  -- or for no engine, it comes to what opening the store and serving its clients comes to there. It
  -- holds when the name of an engine is read back as that engine.
  pub main_records :
      (world later : World) (opt : Option Engines)
      → IsNaming names
      → world.writes ≡ true
      → later.writes ≡ true
      → (main world opt missing ≡ ended (holding (names.display kvs), served world world.pool))
        × (main later (some sled) (main world opt missing).0
            ≡ ((main world opt missing).0, wrong_engine))
        × (main later (some kvs) (main world opt missing).0
            ≡ ended ((main world opt missing).0, served later later.pool))
        × (main later none (main world opt missing).0
            ≡ ended ((main world opt missing).0, served later later.pool))
  unfolding main check_current_engine run_server
  main_records world later opt n w l =
      let file = ended-file (holding (names.display kvs)) (served world world.pool) in
      rw (w, l, file, n kvs) (refl, refl, refl, refl)
