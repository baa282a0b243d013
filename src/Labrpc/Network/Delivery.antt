-- ===== src/Labrpc/Network/Delivery.antt =====
-- Which RPCs of the simulated network reach a server, and which replies come back.
use key_value_distributed_sy.Base.{
  ℕ, ◌+◌, ◌%◌, ◌≤◌, ◌<◌, ◌≡◌, ◌≢◌, refl, ap, ◌∙◌, sym, subst, Bool, true, false, ◌&&◌, ◌||◌, not,
  Option, none, some, some_inj, ltb, if◌then◌else◌, arith, Bool-cases, Option-cases, inl, inr, ◌⊎◌,
  ==_iff,
}
use key_value_distributed_sy.Base.Text.{Text, same_text, same_text_refl}
use key_value_distributed_sy.Labrpc.Network.{
  delay_of, stopped, timed_out, Server, NetworkCore, EndInfo, add_server, delete_server,
  create_client, connect, enable, end_info, server_of, is_gone, is_server_dead, Draws, Plan,
  give_up, drop_request, dispatch_to, reordering, plan_for, process_rpc, Failure, Reply, ok, err,
  Hooks, hook_before, hook_after, reply_to, after_answer, after_before, process_dispatched,
}

Reply-cases : {A : Type 0} (r : Reply A) → ((a : A) × (r ≡ ok a)) ⊎ ((e : Failure) × (r ≡ err e))
Reply-cases (ok a) = inl (a, refl)
Reply-cases (err e) = inr (e, refl)

-- The server that an answer came from is still there under its name.
abbrev pub IsServed : NetworkCore → Server → Type 0
IsServed net server =
    (s : Server) × (net.endpoints.servers server.name ≡ some (some s)) × (s.id ≡ server.id)

is_gone-IsServed :
    (net : NetworkCore) (server : Server) (o : Option (Option Server))
    → net.endpoints.servers server.name ≡ o
    → is_gone o server.id ≡ false
    → IsServed net server
unfolding is_gone
is_gone-IsServed net server none e g = cc
is_gone-IsServed net server (some none) e g = cc
is_gone-IsServed net server (some (some s)) e g =
    (s, e, (==_iff s.id server.id).0 (ground (arith, g)))

-- When an answer becomes a reply: the client is enabled, the server it came from is still there, and
-- the reply is not dropped.
abbrev pub IsDelivered : NetworkCore → Text → Server → Bool → Type 0
IsDelivered net client_name server drop_reply =
    (net.endpoints.enabled client_name ≡ some true) × IsServed net server × (drop_reply ≡ false)

-- How long before the reply the network was asked: no time, or that of a reordering.
abbrev pub IsHeldFor : Option ℕ → ℕ → Type 0
IsHeldFor none ms = ms ≡ 0
IsHeldFor (some d) ms = ms ≡ d

delay_of-IsHeldFor : (o : Option ℕ) → IsHeldFor o (delay_of o)
delay_of-IsHeldFor none = refl
delay_of-IsHeldFor (some d) = refl

module _ {Resp : Type 0} (net : NetworkCore) (client_name : Text) (server : Server)
    (drop_reply : Bool) (long_reordering : Option ℕ) where
  reply_to-ok :
      (dead : Bool) (answer resp : Resp) (ms : ℕ)
      → reply_to dead drop_reply long_reordering answer ≡ (ms, ok resp)
      → (dead ≡ false) × (drop_reply ≡ false) × (delay_of long_reordering ≡ ms)
  unfolding reply_to
  reply_to-ok true answer resp ms e = let bad : err stopped ≡ ok resp = ap (λ p. p.1) e in absurd cc
  reply_to-ok false answer resp ms e = elim (Bool-cases drop_reply) [
    | inl d ↦ let bad : err timed_out ≡ ok resp = sym (rw d refl) ∙ ap (λ p. p.1) e in absurd cc
    | inr d ↦ (refl, d, sym (rw d refl) ∙ ap (λ p. p.0) e)
  ]

  after_answer-ok :
      (r : Reply Resp) (resp : Resp) (ms : ℕ)
      → after_answer net client_name server drop_reply long_reordering r ≡ some (ms, ok resp)
      → IsDelivered net client_name server drop_reply × IsHeldFor long_reordering ms
  unfolding after_answer is_server_dead
  after_answer-ok (err e) resp ms h =
      let bad : err e ≡ ok resp = ap (λ p. p.1) (some_inj h) in absurd cc
  after_answer-ok (ok a) resp ms h = elim (Option-cases (net.endpoints.enabled client_name)) [
    | inl k ↦ ground (arith, k, h)
    | inr (b, k) ↦
        let dead : Bool = not b || is_gone (net.endpoints.servers server.name) server.id in
        let e : after_answer net client_name server drop_reply long_reordering (ok a)
            ≡ some (reply_to dead drop_reply long_reordering a) =
          rw (k, after_answer) refl in
        let (alive, d, held) = reply_to-ok dead a resp ms (some_inj (sym e ∙ h)) in
        (
          (
            k ∙ ap some (ground (arith, alive)),
            is_gone-IsServed net server _ refl (ground (arith, alive)),
            d,
          ),
          subst (IsHeldFor long_reordering) held (delay_of-IsHeldFor long_reordering),
        )
  ]

-- A reply with an answer comes back only when the network, asked as long before that as the reply is
-- held back for a reordering, had the client enabled and the server that was called under its name,
-- and the reply was not chosen to be dropped. What becomes of the network while the reply is held
-- back makes no difference.
pub process_dispatched-IsDelivered :
    {Req Resp : Type 0} (net : NetworkCore) (client_name : Text) (server : Server)
    (drop_reply : Bool) (long_reordering : Option ℕ) (hooks : Option (Hooks Req Resp)) (req : Req)
    (answer : Reply Resp) (resp : Resp) (ms : ℕ)
    → process_dispatched net client_name server drop_reply long_reordering hooks req answer
      ≡ some (ms, ok resp)
    → IsDelivered net client_name server drop_reply × IsHeldFor long_reordering ms
unfolding process_dispatched after_before
process_dispatched-IsDelivered net client_name server drop_reply long_reordering hooks req answer
      resp ms h =
    elim (Reply-cases (hook_before hooks req)) [
      | inr (e, k) ↦
          let stops : after_before net client_name server drop_reply long_reordering hooks answer
                (hook_before hooks req)
              ≡ some (0, err e) =
            rw k refl in
          let bad : err e ≡ ok resp = ap (λ p. p.1) (some_inj (sym stops ∙ h)) in absurd cc
      | inl (u, k) ↦
          let run : after_before net client_name server drop_reply long_reordering hooks answer
                (hook_before hooks req)
              ≡ after_answer net client_name server drop_reply long_reordering
                  (hook_after hooks answer) =
            rw k refl in
          after_answer-ok net client_name server drop_reply long_reordering
            (hook_after hooks answer) resp ms (sym run ∙ h)
    ]

deleted :
    (name : Text) (net : NetworkCore)
    → (s : Server) → ¬ ((delete_server name net).endpoints.servers name ≡ some (some s))
unfolding delete_server
deleted name net s e = elim (Option-cases (net.endpoints.servers name)) [
  | inl k ↦ let at : (delete_server name net).endpoints.servers name ≡ none = rw k k in cc (at, e)
  | inr (o, k) ↦
      let at : (delete_server name net).endpoints.servers name ≡ some none =
        rw (k, same_text_refl name) refl in
      cc (at, e)
]

-- When the network that the reply is checked against is one from which the server was deleted, no
-- answer comes back, whatever the hooks do.
process_dispatched-delete_server :
    {Req Resp : Type 0} (net : NetworkCore) (client_name : Text) (server : Server)
    (drop_reply : Bool) (long_reordering : Option ℕ) (hooks : Option (Hooks Req Resp)) (req : Req)
    (answer : Reply Resp) (resp : Resp) (ms : ℕ)
    → process_dispatched
        (delete_server server.name net)
        client_name
        server
        drop_reply
        long_reordering
        hooks
        req
        answer
      ≢ some (ms, ok resp)
process_dispatched-delete_server net client_name server drop_reply long_reordering hooks req answer
      resp ms h =
    let (d, held) =
      process_dispatched-IsDelivered (delete_server server.name net) client_name server drop_reply
        long_reordering hooks req answer resp ms h in
    deleted server.name net d.1.0 d.1.1

-- When the network that the reply is checked against is one to which another server, with the same
-- name and a different number, was added, no answer comes back, whatever the hooks do.
process_dispatched-add_server :
    {Req Resp : Type 0} (net : NetworkCore) (client_name : Text) (server new_server : Server)
    (drop_reply : Bool) (long_reordering : Option ℕ) (hooks : Option (Hooks Req Resp)) (req : Req)
    (answer : Reply Resp) (resp : Resp) (ms : ℕ)
    → new_server.name ≡ server.name
    → new_server.id ≢ server.id
    → process_dispatched
        (add_server new_server net)
        client_name
        server
        drop_reply
        long_reordering
        hooks
        req
        answer
      ≢ some (ms, ok resp)
unfolding add_server
process_dispatched-add_server net client_name server new_server drop_reply long_reordering hooks req
      answer resp ms same other_id h =
    let (d, held) =
      process_dispatched-IsDelivered (add_server new_server net) client_name server drop_reply
        long_reordering hooks req answer resp ms h in
    let at : same_text server.name new_server.name ≡ true =
      ap (same_text server.name) same ∙ same_text_refl server.name in
    let put : (add_server new_server net).endpoints.servers server.name ≡ some (some new_server) =
      rw at refl in
    let found : some (some new_server) ≡ some (some d.1.0) = sym put ∙ d.1.1 in
    other_id (ap (λ s. s.id) (some_inj (some_inj found)) ∙ d.1.2)

-- The bounds on the delays, in the units that the code counts them in.
abbrev pub IsBelow : ℕ → ℕ → Option ℕ → Type 0
IsBelow lo hi none = Unit
IsBelow lo hi (some d) = (lo ≤ d) × (d < hi)

abbrev pub IsBounded : Plan → Type 0
IsBounded (give_up ms) = ms < 7000
IsBounded (drop_request s) = s < 27
IsBounded (dispatch_to short_delay drop_reply long_reordering server) =
    IsBelow 0 27 short_delay × IsBelow 200 2200 long_reordering

reordering-IsBelow : (b : Bool) (d : Draws) → IsBelow 200 2200 (reordering b d)
unfolding reordering
reordering-IsBelow b d = elim (Bool-cases (b && ltb (d.reorder % 900) 600)) [
  | inl e ↦ rw e (omega arith, omega arith)
  | inr e ↦ rw e tt
]

plan_for-IsBounded :
    (net : NetworkCore) (info : EndInfo) (enabled : Bool) (server : Option Server) (d : Draws)
    → IsBounded (plan_for net info enabled server d)
unfolding plan_for
plan_for-IsBounded net info true (some server) d = elim (Bool-cases info.reliable) [
  | inl e ↦ rw e (tt, reordering-IsBelow info.long_reordering d)
  | inr e ↦ elim (Bool-cases (ltb (d.drop_request % 1000) 100)) [
    | inl g ↦ rw (e, g) (omega arith)
    | inr g ↦ rw (e, g) ((omega arith, omega arith), reordering-IsBelow info.long_reordering d)
  ]
]
plan_for-IsBounded net info true none d = elim (Bool-cases net.long_delays) [
  | inl e ↦ rw e (omega arith)
  | inr e ↦ rw e (omega arith)
]
plan_for-IsBounded net info false server d = elim (Bool-cases net.long_delays) [
  | inl e ↦ rw e (omega arith)
  | inr e ↦ rw e (omega arith)
]

-- If the code does not panic, then whatever the random numbers are, the RPC is counted, and it is given up within 7000 ms, a dropped request waits less
-- than 27 s, and a request that goes out waits less than 27 ms, its reply between 200 and 2199 ms.
process_rpc-IsBounded :
    (net net' : NetworkCore) (client_name : Text) (d : Draws) (plan : Plan)
    → process_rpc net client_name d ≡ some (net', plan)
    → IsBounded plan × (net'.count ≡ net.count + 1)
unfolding process_rpc
process_rpc-IsBounded net net' client_name d plan h =
    let counted : NetworkCore = record net { count = net.count + 1 } in
    elim (Option-cases (end_info counted client_name)) [
      | inl e ↦ let at : process_rpc net client_name d ≡ none = rw e refl in cc (at, h)
      | inr (info, e) ↦
          let at : process_rpc net client_name d
              ≡ some (counted, plan_for counted info info.enabled info.server d) =
            rw e refl in
          let same = some_inj (sym at ∙ h) in
          (
            subst IsBounded (ap (λ p. p.1) same)
                (plan_for-IsBounded counted info info.enabled info.server d),
            ap (λ p. p.0.count) (sym same),
          )
    ]

-- On a reliable network without reordering, an RPC of a client that was made, connected and enabled
-- reaches the server that was added then, without a delay and without a drop.
pub process_rpc-reliable :
    (net : NetworkCore) (client_name : Text) (server : Server) (d : Draws)
    → net.reliable ≡ true
    → net.long_reordering ≡ false
    → (net' : NetworkCore) × (process_rpc
          (add_server server (
            enable client_name true
              (connect client_name server.name (create_client client_name net))))
          client_name
          d
        ≡ some (net', dispatch_to none false none server))
unfolding process_rpc end_info server_of plan_for reordering add_server enable connect create_client
process_rpc-reliable net client_name server d r l =
    let ready : NetworkCore =
      add_server server (
        enable client_name true
          (connect client_name server.name (create_client client_name net))) in
    (
      record ready { count = net.count + 1 },
      rw (same_text_refl client_name, same_text_refl server.name, r, l) refl,
    )

end_info-disabled :
    (net : NetworkCore) (client_name : Text) (info : EndInfo)
    → net.endpoints.enabled client_name ≡ some false
    → end_info net client_name ≡ some info
    → info.enabled ≡ false
unfolding end_info
end_info-disabled net client_name info off h =
    elim (Option-cases (server_of net.endpoints (net.endpoints.connections client_name))) [
      | inl e ↦ let at : end_info net client_name ≡ none = rw e refl in cc (at, h)
      | inr (s, e) ↦
          let found : EndInfo = record {
            enabled = false;
            reliable = net.reliable;
            long_reordering = net.long_reordering;
            server = s;
          } in
          let at : end_info net client_name ≡ some found = rw (e, off) refl in
          ap (λ z. z.enabled) (sym (some_inj (sym at ∙ h)))
    ]

-- An RPC from a client that is disabled, if the code does not panic, is given up: it reaches no
-- server.
pub process_rpc-given_up :
    (net net' : NetworkCore) (client_name : Text) (d : Draws) (plan : Plan)
    → net.endpoints.enabled client_name ≡ some false
    → process_rpc net client_name d ≡ some (net', plan)
    → (ms : ℕ) × (plan ≡ give_up ms)
unfolding process_rpc plan_for
process_rpc-given_up net net' client_name d plan off h =
    let counted : NetworkCore = record net { count = net.count + 1 } in
    elim (Option-cases (end_info counted client_name)) [
      | inl e ↦ let at : process_rpc net client_name d ≡ none = rw e refl in cc (at, h)
      | inr (info, e) ↦
          let at : process_rpc net client_name d
              ≡ some (counted, plan_for counted info info.enabled info.server d) =
            rw e refl in
          (
            (if net.long_delays then d.timeout % 7000 else d.timeout % 100),
            ap (λ p. p.1) (sym (some_inj (sym at ∙ h)))
                ∙ ap (λ b. plan_for counted info b info.server d)
                    (end_info-disabled counted client_name info off e),
          )
    ]

-- Without hooks, an answer is a reply when the server is alive and the reply is not dropped.
pub process_dispatched-alive :
    {Req Resp : Type 0} (net : NetworkCore) (client_name : Text) (server : Server)
    (long_reordering : Option ℕ) (req : Req) (resp : Reply Resp)
    → is_server_dead net client_name server.name server.id ≡ some false
    → (ms : ℕ) × (process_dispatched net client_name server false long_reordering none req resp
        ≡ some (ms, resp))
unfolding process_dispatched after_before after_answer hook_before hook_after reply_to
process_dispatched-alive net client_name server long_reordering req (ok resp) alive =
    (delay_of long_reordering, rw alive refl)
process_dispatched-alive net client_name server long_reordering req (err e) alive = (0, refl)
