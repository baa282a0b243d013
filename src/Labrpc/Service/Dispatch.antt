-- ===== src/Labrpc/Service/Dispatch.antt =====
-- A request reaches the method it names.
use key_value_distributed_sy.Base.{ℕ, ◌+◌, ◌≡◌, refl, false, none, [], ◌∷◌, ◌++◌, ◌==◌, All}
use key_value_distributed_sy.Base.Text.{Text, same_text_refl}
use key_value_distributed_sy.Labrpc.Network.{insert, unimplemented, other, ok, err}
use key_value_distributed_sy.Labrpc.Service.{
  Factory, ServerBuilder, ServerCore, prepend, split_dots, add_to, add_service, build, call_factory,
  dispatch_names, dispatch,
}

-- A name without a dot.
abbrev pub IsPlain : Text → Type 0
IsPlain = All (λ c. (c == 46) ≡ false)

split_dots-plain : (method : Text) → IsPlain method → split_dots method ≡ method ∷ []
unfolding split_dots prepend
split_dots-plain [] p = refl
split_dots-plain (c ∷ cs) p = rw (p.0, split_dots-plain cs p.1) refl

split_dots-two :
    (service method : Text)
    → IsPlain service
    → IsPlain method
    → split_dots (service ++ 46 ∷ method) ≡ service ∷ method ∷ []
unfolding split_dots prepend
split_dots-two [] method p q = rw (split_dots-plain method q) refl
split_dots-two (c ∷ cs) method p q = rw (p.0, split_dots-two cs method p.1 q) refl

-- A service registers under a name that is free, once; a server built then answers
-- `service.method` with the method of that service and counts the call. The names have no dot.
pub dispatch-add_service :
    {Req Resp : Type 0} (builder : ServerBuilder Req Resp) (service method : Text)
    (factory : Factory Req Resp) (next_id : ℕ) (req : Req)
    → IsPlain service
    → IsPlain method
    → builder.services service ≡ none
    → (built : ServerBuilder Req Resp) × (add_service builder service factory ≡ (built, ok tt))
      × ((again : Factory Req Resp)
          → add_service built service again ≡ (built, err (other service)))
      × ((dispatch (build built next_id).0 (service ++ 46 ∷ method) req).1 ≡ factory method req)
      × ((dispatch (build built next_id).0 (service ++ 46 ∷ method) req).0.count ≡ 1)
unfolding add_service add_to build dispatch dispatch_names call_factory
dispatch-add_service builder service method factory next_id req p q free = (
  record builder { services = insert builder.services service factory },
  rw free refl,
  λ again. rw (same_text_refl service) refl,
  rw (split_dots-two service method p q, same_text_refl service) refl,
  refl,
)

-- A request for a service that is not registered, or a request without a method, fails as
-- unimplemented, and the latter is counted. The names have no dot.
dispatch-unknown :
    {Req Resp : Type 0} (server : ServerCore Req Resp) (service method : Text) (req : Req)
    → IsPlain service
    → IsPlain method
    → server.services service ≡ none
    → ((dispatch server (service ++ 46 ∷ method) req).1
        ≡ err (unimplemented (service ++ 46 ∷ method)))
      × ((dispatch server service req).1 ≡ err (unimplemented service))
      × ((dispatch server service req).0.count ≡ server.count + 1)
unfolding dispatch dispatch_names call_factory
dispatch-unknown server service method req p q none_there = (
  rw (split_dots-two service method p q, none_there) refl,
  rw (split_dots-plain service p) refl,
  refl,
)
