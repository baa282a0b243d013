-- ===== src/Kvs/Server/Requests.antt =====
-- project_5/src/server.rs: what the loop of `run` does with the clients that it accepts.
use key_value_distributed_sy.Base.{
  ◌+◌, ◌<◌, ◌≡◌, refl, ◌∙◌, false, Option, none, some, List, [], ◌∷◌, ◌++◌, lt→ltb, arith,
}
use key_value_distributed_sy.Kvs.Errors.{is_ok, Result, ok, err, panicked}
use key_value_distributed_sy.Kvs.Log.{Bytes}
use key_value_distributed_sy.Kvs.Engine.{KvsEngine}
use key_value_distributed_sy.Kvs.Server.{
  Wire, Socket, Incoming, bind_failed, accept_failed, accepted, Loop, started, turn, run_from, run,
  expected, max_retries, serve_client,
}
use key_value_distributed_sy.Kvs.Server.Retries.{
  failures, IsPaced, paused_loop, paused_loop-IsPaced, turn_failed, started-IsPaced,
}

module _ {E : Type 0} (api : KvsEngine E) (wire : Wire) where
  abbrev pub when_ok : E × Result Bytes → (E → Option E) → Option E
  when_ok (e, ok response) f = f e
  when_ok (e, err x) f = none
  when_ok (e, panicked) f = none

  -- The engine once every client in turn has been served; `none` when one is not.
  abbrev pub serve_all : E → List Incoming → Option E
  serve_all e [] = some e
  serve_all e (bind_failed ∷ xs) = none
  serve_all e (accept_failed ∷ xs) = serve_all e xs
  serve_all e (accepted tcp ∷ xs) =
      when_ok (serve_client api wire e tcp) (λ after. serve_all after xs)

  -- The loop has come to `t` when it goes on with `zs`.
  record Reaches (s : Loop E) (ys zs : List Incoming) (after : E) : Type 0 where
    t : Loop E
    engine : t.engine ≡ after
    paced : IsPaced t
    tries : t.retries ≡ s.retries + failures ys
    goes_on : run_from api wire s (ys ++ zs) ≡ run_from api wire t zs

  run_from-turn :
      (s t : Loop E) (x : Incoming) (xs : List Incoming)
      → s.retries < max_retries
      → turn api wire s x ≡ (t, none)
      → run_from api wire s (x ∷ xs) ≡ run_from api wire t xs
  unfolding run_from
  run_from-turn s t x xs h e = rw (lt→ltb s.retries max_retries h, e) refl

  when_ok-inv :
      (r : E × Result Bytes) (f : E → Option E) (after : E)
      → when_ok r f ≡ some after
      → (e : E) × (response : Bytes) × (r ≡ (e, ok response)) × (f e ≡ some after)
  when_ok-inv (e, ok response) f after w = (e, response, refl, w)
  when_ok-inv (e, err x) f after w = cc
  when_ok-inv (e, panicked) f after w = cc

  turn_served :
      (s : Loop E) (tcp : Socket) (e : E) (response : Bytes)
      → serve_client api wire s.engine tcp ≡ (e, ok response)
      → turn api wire s (accepted tcp) ≡ (record s { engine = e }, none)
  unfolding turn
  turn_served s tcp e response w = rw w refl

  run_from-Reaches :
      (s : Loop E) (ys zs : List Incoming) (after : E)
      → IsPaced s
      → s.retries + failures ys < max_retries
      → serve_all s.engine ys ≡ some after
      → Reaches s ys zs after
  run_from-Reaches s [] zs after p h w = record {
    t = s;
    engine = cc;
    paced = p;
    tries = omega arith;
    goes_on = refl;
  }
  run_from-Reaches s (bind_failed ∷ ys) zs after p h w = cc
  run_from-Reaches s (accept_failed ∷ ys) zs after p h w =
      let few : s.retries < max_retries = omega arith in
      let q = paused_loop-IsPaced s p few in
      let r = run_from-Reaches (paused_loop s) ys zs after q (omega arith) w in
      record {
        t = r.t;
        engine = r.engine;
        paced = r.paced;
        tries = let u = r.tries in omega arith;
        goes_on =
            run_from-turn s (paused_loop s) accept_failed (ys ++ zs) few
              (turn_failed api wire s p few)
            ∙ r.goes_on;
      }
  run_from-Reaches s (accepted tcp ∷ ys) zs after p h w =
      let few : s.retries < max_retries = omega arith in
      let (e, response, served, rest) =
        when_ok-inv (serve_client api wire s.engine tcp) (λ e. serve_all e ys) after w in
      let next : Loop E = record s { engine = e } in
      let q : IsPaced next = record { few = p.few; doubled = p.doubled; paused = p.paused } in
      let r = run_from-Reaches next ys zs after q h rest in
      record {
        t = r.t;
        engine = r.engine;
        paced = r.paced;
        tries = r.tries;
        goes_on =
            run_from-turn s next (accepted tcp) (ys ++ zs) few (turn_served s tcp e response served)
            ∙ r.goes_on;
      }

  turn_unserved :
      (s : Loop E) (r : E × Result Bytes)
      → is_ok r.1 ≡ false
      → expected api wire s r ≡ (record s { engine = r.0 }, some panicked)
  turn_unserved s (e, ok response) n = cc
  turn_unserved s (e, err x) n = refl
  turn_unserved s (e, panicked) n = refl

  run_from_unserved :
      (s : Loop E) (tcp : Socket) (zs : List Incoming)
      → s.retries < max_retries
      → is_ok (serve_client api wire s.engine tcp).1 ≡ false
      → run_from api wire s (accepted tcp ∷ zs)
        ≡ (record s { engine = (serve_client api wire s.engine tcp).0 }, some panicked)
  unfolding run_from turn
  run_from_unserved s tcp zs h n =
      rw (lt→ltb s.retries max_retries h, turn_unserved s (serve_client api wire s.engine tcp) n)
        refl

  -- As long as fewer than five failures of `accept` have come in, the clients are served one after
  -- the other, each by the engine that the one before it left; the first client that is not served,
  -- because reading, processing its request or answering it fails, ends the server by a panic, and
  -- those that come after it are not served.
  pub run_first_unserved :
      (e after : E) (ys zs : List Incoming) (tcp : Socket)
      → serve_all e ys ≡ some after
      → failures ys < max_retries
      → is_ok (serve_client api wire after tcp).1 ≡ false
      → ((run api wire e (ys ++ (accepted tcp ∷ zs))).1 ≡ some panicked)
        × ((run api wire e (ys ++ (accepted tcp ∷ zs))).0.engine
            ≡ (serve_client api wire after tcp).0)
        × ((run api wire e (ys ++ (accepted tcp ∷ zs))).0.retries ≡ failures ys)
  unfolding run
  run_first_unserved e after ys zs tcp w h n =
      let r =
        run_from-Reaches (started e) ys (accepted tcp ∷ zs) after (started-IsPaced api wire e)
          (omega arith) w in
      let few : r.t.retries < max_retries = let u = r.tries in omega arith in
      let ends = r.goes_on ∙ run_from_unserved r.t tcp zs few (rw r.engine n) in
      rw (ends, r.engine) (refl, refl, let u = r.tries in omega arith)
