-- ===== src/Labrpc/Calls/Tests.antt =====
-- The theorem on calls, on numbers as messages.
use key_value_distributed_sy.Base.{
  ℕ, ◌+◌, if◌then◌else◌, ◌≡◌, refl, true, false, none, some, [], ◌∷◌, ◌⊎◌, inl, inr,
}
use key_value_distributed_sy.Base.Text.{Text, same_text}
use key_value_distributed_sy.Labrpc.Network.{
  HashMap, NetworkCore, Server, is_server_dead, process_dispatched, Reply, ok, create,
  create_client, connect, enable, add_server,
}
use key_value_distributed_sy.Labrpc.Service.{ServerBuilder, new_builder, build, dispatch}
use key_value_distributed_sy.Labrpc.Calls.{Bytes, Messages, fq_name, call, add_methods}
use key_value_distributed_sy.Labrpc.Calls.Roundtrip.{IsCodec, outcome_of, call-dispatch}

abbrev first_of : Bytes → ℕ ⊎ ℕ
first_of [] = inl 1
first_of (b ∷ bytes) = inr b

abbrev messages : Messages ℕ ℕ
messages = record {
  encode_req = λ n. inr (n ∷ []);
  decode_req = first_of;
  encode_rsp = λ n. inr (n ∷ []);
  decode_rsp = first_of;
}

messages-IsCodec : IsCodec messages
messages-IsCodec = record {
  requests = λ n. (n ∷ [], refl, refl);
  responses = λ n. (n ∷ [], refl, refl);
}

abbrev client : Text
client = 99 ∷ []

abbrev kv : Text
kv = 107 ∷ []

abbrev add : Text
add = 97 ∷ []

abbrev server : Server
server = record { name = 115 ∷ []; id = 0 }

abbrev net : NetworkCore
net =
    add_server server
      (enable client true (connect client server.name (create_client client create)))

abbrev plus_one : ℕ → Reply ℕ
plus_one n = ok (n + 1)

abbrev methods : HashMap (ℕ → Reply ℕ)
methods name = if same_text name add then some plus_one else none

abbrev builder : ServerBuilder Bytes Bytes
builder = new_builder server.name

has_add : methods add ≡ some plus_one
unfolding same_text
has_add = refl

alive : is_server_dead net client server.name server.id ≡ some false
unfolding is_server_dead add_server enable connect create_client same_text
alive = refl

call-dispatch_example :
    call messages
      (λ buf. outcome_of (
        process_dispatched net client server false none none buf
          (dispatch
            (build (add_methods messages kv methods builder).0 3).0
            (fq_name kv add)
            buf).1))
      41
    ≡ ok 42
call-dispatch_example =
    call-dispatch messages messages-IsCodec builder kv add methods plus_one 3 net client server none
      41 (refl, tt) (refl, tt) refl has_add alive
