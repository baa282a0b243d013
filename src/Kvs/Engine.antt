-- ===== src/Kvs/Engine.antt =====
-- project_5/src/engines/mod.rs: the trait of the engines.
use key_value_distributed_sy.Base.{Option}
use key_value_distributed_sy.Base.Text.{Text}
use key_value_distributed_sy.Kvs.Errors.{Result}

-- The trait of the engines, over the state of one.
pub record KvsEngine (E : Type 0) : Type 0 where
  pub engine_set : E → Text → Text → E × Result Unit
  pub engine_get : E → Text → E × Result (Option Text)
  pub engine_remove : E → Text → E × Result Unit
