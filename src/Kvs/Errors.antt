-- ===== src/Kvs/Errors.antt =====
-- project_5/src/error.rs: the errors of the store, and what an operation comes to.
use key_value_distributed_sy.Base.{Bool, true, false, [], ◌∷◌}
use key_value_distributed_sy.Base.Text.{Text}

pub data CacheError : Type 0 where
  not_found io_error serde_error malformed_data unexpected_error key_not_found : CacheError
  sled_error utf8 : CacheError
  server_error : Text → CacheError

-- A panic ends the thread.
pub data Result (A : Type 0) : Type 0 where
  ok : A → Result A
  err : CacheError → Result A
  panicked : Result A

-- serde_json's classes of errors.
pub data Category : Type 0 where
  io syntax data_error eof : Category

-- `From<serde_json::Error>`.
abbrev pub from_serde : Category → CacheError
from_serde syntax = malformed_data
from_serde data_error = malformed_data
from_serde io = unexpected_error
from_serde eof = unexpected_error

-- What serde_json makes of some bytes.
pub data Decoded (A : Type 0) : Type 0 where
  parsed : A → Decoded A
  refused : Category → Decoded A

abbrev pub is_ok : {A : Type 0} → Result A → Bool
is_ok (ok a) = true
is_ok (err x) = false
is_ok panicked = false

-- "Connection failed after max retries ".
abbrev pub too_many_retries : Text
too_many_retries =
    67 ∷ 111 ∷ 110 ∷ 110 ∷ 101 ∷ 99 ∷ 116 ∷ 105 ∷ 111 ∷ 110 ∷ 32 ∷ 102 ∷ 97 ∷ 105 ∷ 108 ∷ 101 ∷ 100
    ∷ 32 ∷ 97 ∷ 102 ∷ 116 ∷ 101 ∷ 114 ∷ 32 ∷ 109 ∷ 97 ∷ 120 ∷ 32 ∷ 114 ∷ 101 ∷ 116 ∷ 114 ∷ 105 ∷ 101
    ∷ 115 ∷ 32 ∷ []
