-- ===== src/Labrpc/Service.antt =====
-- crates/labrpc/src/server.rs: services by name, and the dispatch of a request to one of them. The
-- factories of handlers are arguments. Proofs are in the child module.
pub mod Dispatch
use key_value_distributed_sy.Base.{
  ℕ, ◌+◌, Bool, true, false, Option, none, some, List, [], ◌∷◌, ◌==◌, if◌then◌else◌,
}
use key_value_distributed_sy.Base.Text.{Text, same_text}
use key_value_distributed_sy.Labrpc.Network.{
  HashMap, insert, Failure, unimplemented, other, Reply, ok, err,
}

-- `HandlerFactory::handler` with the handler that it gives.
abbrev pub Factory : Type 0 → Type 0 → Type 0
Factory Req Resp = Text → Req → Reply Resp

pub record ServerBuilder (Req Resp : Type 0) : Type 0 where
  pub name : Text
  pub services : HashMap (Factory Req Resp)

pub record ServerCore (Req Resp : Type 0) : Type 0 where
  pub name : Text
  pub id : ℕ
  pub services : HashMap (Factory Req Resp)
  pub count : ℕ

-- `fq_name.split('.')`
prepend : ℕ → List Text → List Text
prepend c [] = []
prepend c (name ∷ names) = (c ∷ name) ∷ names

unfoldable pub split_dots : Text → List Text
unfolding prepend
split_dots [] = [] ∷ []
split_dots (c ∷ cs) = let names = split_dots cs in if c == 46 then [] ∷ names else prepend c names

module _ {Req Resp : Type 0} where
  abbrev pub new_builder : Text → ServerBuilder Req Resp
  new_builder name = record { name = name; services = λ _. none }

  add_to :
      ServerBuilder Req Resp
      → Text
      → Factory Req Resp
      → Option (Factory Req Resp)
      → ServerBuilder Req Resp × Reply Unit
  add_to builder service_name factory (some _) = (builder, err (other service_name))
  add_to builder service_name factory none =
      (record builder { services = insert builder.services service_name factory }, ok tt)

  unfoldable pub add_service :
      ServerBuilder Req Resp → Text → Factory Req Resp → ServerBuilder Req Resp × Reply Unit
  unfolding add_to
  add_service builder service_name factory =
      add_to builder service_name factory (builder.services service_name)

  -- `next_id` is what the counter `ID_ALLOC` holds; it holds one more afterwards.
  unfoldable pub build : ServerBuilder Req Resp → ℕ → ServerCore Req Resp × ℕ
  build builder next_id = (
    record { name = builder.name; id = next_id; services = builder.services; count = 0 },
    next_id + 1,
  )

  call_factory : Text → Text → Req → Option (Factory Req Resp) → Reply Resp
  call_factory fq_name method_name req none = err (unimplemented fq_name)
  call_factory fq_name method_name req (some factory) = factory method_name req

  dispatch_names : ServerCore Req Resp → Text → Req → List Text → Reply Resp
  dispatch_names server fq_name req [] = err (unimplemented fq_name)
  dispatch_names server fq_name req (service_name ∷ []) = err (unimplemented fq_name)
  dispatch_names server fq_name req (service_name ∷ method_name ∷ names) =
      call_factory fq_name method_name req (server.services service_name)

  unfoldable pub dispatch : ServerCore Req Resp → Text → Req → ServerCore Req Resp × Reply Resp
  unfolding dispatch_names call_factory split_dots
  dispatch server fq_name req = (
    record server { count = server.count + 1 },
    dispatch_names server fq_name req (split_dots fq_name),
  )
