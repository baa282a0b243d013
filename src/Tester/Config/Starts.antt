-- ===== src/Tester/Config/Starts.antt =====
-- A server that is started gets endpoints with new names, and the others keep theirs.
use key_value_distributed_sy.Base.{
  ℕ, zero, suc, ◌+◌, ◌<◌, ◌≡◌, refl, ap, ◌∙◌, sym, Bool, true, false, List, [], inl, inr, ◌==◌,
  ==_iff, Bool-cases, Option-cases, arith,
}
use key_value_distributed_sy.Base.Decimal.{to_string}
use key_value_distributed_sy.Base.Loops.{each, put}
use key_value_distributed_sy.Base.Text.{Text}
use key_value_distributed_sy.Labrpc.Network
use key_value_distributed_sy.Labrpc.Network.{
  NetworkCore, enable, delete_server, create_client, add_server,
}
use key_value_distributed_sy.Tester.Config.{
  Config, enable_if, disconnect, crash1, name_end, make_client, start1_ext,
}
use key_value_distributed_sy.Tester.Config.Ends.{is_enabled}
use key_value_distributed_sy.Tester.Config.Wired.{IsWired, put-same, put-other}
use key_value_distributed_sy.Tester.Config.Joined.{disconnect-IsWired}

pub is_enabled-delete_server :
    (name other : Text) (net : NetworkCore)
    → is_enabled (delete_server name net) other ≡ is_enabled net other
unfolding delete_server
is_enabled-delete_server name other net = elim (Option-cases (net.endpoints.servers name)) [
  | inl e ↦ rw e refl
  | inr (s, e) ↦ rw e refl
]

module _ {N : Type 0} where
  pub crash1-IsWired :
      (row : ℕ → Bool) (i : ℕ) (c : Config N) → IsWired row c → i < c.n → IsWired row (crash1 i c)
  unfolding crash1 disconnect
  crash1-IsWired row i c w inside =
      let d = disconnect-IsWired row c w i inside in
      record {
        ids = d.ids;
        inside = d.inside;
        named = d.named;
        old = d.old;
        apart = d.apart;
        unnamed = d.unnamed;
        wired = λ a b r h.
            is_enabled-delete_server (to_string i) (c.endnames a b) (disconnect i c).net
            ∙ d.wired a b r h;
      }

  -- After `k` of the new names.
  record IsNamed (i k : ℕ) (c d : Config N) : Type 0 where
    pub same_n : d.n ≡ c.n
    pub same_net : d.net ≡ c.net
    pub same_connected : d.connected ≡ c.connected
    pub next : d.next_id ≡ k + c.next_id
    pub others : (r : ℕ) → (r == i) ≡ false → d.endnames r ≡ c.endnames r
    pub fresh : (j : ℕ) → j < k → d.endnames i j ≡ to_string (j + c.next_id)

  each-IsNamed : (i k : ℕ) (c : Config N) → IsNamed i k c (each k (name_end i) c)
  each-IsNamed i zero c = record {
    same_n = refl;
    same_net = refl;
    same_connected = refl;
    next = omega arith;
    others = λ r e. refl;
    fresh = λ j h. absurd (omega arith);
  }
  each-IsNamed i (suc k) c =
      let w = each-IsNamed i k c in
      let d = each k (name_end i) c in
      record {
        same_n = w.same_n;
        same_net = w.same_net;
        same_connected = w.same_connected;
        next = ap suc w.next ∙ omega arith;
        others = λ r e. put-other d.endnames i _ r e ∙ w.others r e;
        fresh = λ j h.
            ap (λ f. f j)
              (put-same d.endnames i (put (d.endnames i) k (to_string d.next_id)) i refl)
            ∙ elim (Bool-cases (j == k)) [
              | inl e ↦
                  let at = (==_iff j k).0 e in
                  put-same (d.endnames i) k (to_string d.next_id) j at
                  ∙ ap to_string (w.next ∙ ap (λ m. m + c.next_id) (sym at))
              | inr e ↦ put-other (d.endnames i) k _ j e ∙ w.fresh j (ground (arith, e, h))
            ];
      }

  -- After `k` of the new clients.
  record IsServed (i k : ℕ) (c d : Config N) : Type 0 where
    pub same_n : d.n ≡ c.n
    pub same_connected : d.connected ≡ c.connected
    pub same_next : d.next_id ≡ c.next_id
    pub same_names : d.endnames ≡ c.endnames
    pub disabled :
        (x : Text)
        → is_enabled d.net x
          ≡ is_enabled (each k (λ j. enable_if true false (c.endnames i j)) c.net) x

  each-IsServed : (i k : ℕ) (c : Config N) → IsServed i k c (each k (make_client i) c)
  unfolding Network.connect create_client enable
  each-IsServed i zero c = record {
    same_n = refl;
    same_connected = refl;
    same_next = refl;
    same_names = refl;
    disabled = λ x. refl;
  }
  each-IsServed i (suc k) c =
      let w = each-IsServed i k c in
      record {
        same_n = w.same_n;
        same_connected = w.same_connected;
        same_next = w.same_next;
        same_names = w.same_names;
        disabled = λ x. rw (w.disabled x, w.same_names) refl;
      }

  -- A server that was crashed in `c` is started again in `d`.
  pub record IsStarted (i : ℕ) (c d : Config N) : Type 0 where
    pub same_n : d.n ≡ c.n
    pub same_connected : d.connected ≡ c.connected
    pub next : d.next_id ≡ c.n + c.next_id
    pub others : (r : ℕ) → (r == i) ≡ false → d.endnames r ≡ c.endnames r
    pub fresh : (j : ℕ) → j < c.n → d.endnames i j ≡ to_string (j + c.next_id)
    pub disabled :
        (x : Text)
        → is_enabled d.net x
          ≡ is_enabled (each c.n (λ j. enable_if true false (d.endnames i j)) c.net) x

  pub start1_ext-IsStarted :
      (make : List Text → ℕ → ℕ → N) (i : ℕ) (c : Config N)
      → IsStarted i (crash1 i c) (start1_ext make i c)
  unfolding start1_ext crash1 disconnect add_server
  start1_ext-IsStarted make i c =
      let crashed = crash1 i c in
      let cleared : Config N = record crashed { endnames = put crashed.endnames i (λ _. []) } in
      let a = each-IsNamed i c.n cleared in
      let named = each c.n (name_end i) cleared in
      let b = each-IsServed i c.n named in
      let served = each c.n (make_client i) named in
      record {
        same_n = b.same_n ∙ a.same_n;
        same_connected = b.same_connected ∙ a.same_connected;
        next = b.same_next ∙ a.next;
        others =
            λ r e. ap (λ f. f r) b.same_names ∙ a.others r e ∙ put-other crashed.endnames i _ r e;
        fresh = λ j h. ap (λ f. f i j) b.same_names ∙ a.fresh j h;
        disabled = λ x.
            b.disabled x
            ∙ ap
                (λ net.
                  is_enabled (each c.n (λ j. enable_if true false (named.endnames i j)) net) x)
                a.same_net
            ∙ ap (λ f. is_enabled (each c.n (λ j. enable_if true false (f i j)) crashed.net) x)
                (sym b.same_names);
      }
