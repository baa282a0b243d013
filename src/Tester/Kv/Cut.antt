-- ===== src/Tester/Kv/Cut.antt =====
-- The partition that the tester makes against the leader.
use key_value_distributed_sy.Base.{
  ◌>>=◌, ℕ, ◌*◌, ◌<◌, ◌≤◌, ◌≡◌, refl, ◌∙◌, Bool, true, false, not, Option, some, List, [], ◌∷◌,
  Bool-cases, Option-cases, inl, inr, if◌then◌else◌, length, has, arith,
}
use key_value_distributed_sy.Labrpc.Network.{NetworkCore, enable}
use key_value_distributed_sy.Tester.Config.Ends.{is_enabled}
use key_value_distributed_sy.Tester.Kv.{
  KvConfig, Ends, each_of, enable_end, disable_end, connect, disconnect, isolate, partition,
  unwrap_or, ends_of, leader, split,
}
use key_value_distributed_sy.Tester.Kv.Loops.{IsApart}
use key_value_distributed_sy.Tester.Kv.Groups.{IsDisjoint, linked, partition-linked}
use key_value_distributed_sy.Tester.Kv.Split.{make_partition-IsSplit, leader_before-lt}

-- An operation that gives a result.
abbrev Succeeds : {A : Type 0} → Option A → Type 0
Succeeds {A} o = (a : A) × (o ≡ some a)

bind-Succeeds :
    {A B : Type 0} (o : Option A) (f : A → Option B)
    → Succeeds o
    → ((a : A) → Succeeds (f a))
    → Succeeds (o >>= f)
bind-Succeeds o f (a, e) next = rw e (next a)

each_of-Succeeds :
    {S : Type 0} (js : List ℕ) (f : ℕ → S → Option S)
    → ((j : ℕ) → has j js ≡ true → (s : S) → Succeeds (f j s))
    → (s : S) → Succeeds (each_of js f s)
each_of-Succeeds [] f h s = (s, refl)
each_of-Succeeds (j ∷ js) f h s =
    bind-Succeeds (f j s) (each_of js f) (h j (ground arith) s)
      (each_of-Succeeds js f (λ k e. h k (ground (arith, e))))

module _ (ends : Ends) where
  -- The indices of a list are in bounds.
  abbrev IsInside : List ℕ → Type 0
  IsInside js = (j : ℕ) → has j js ≡ true → j < ends.n

  enable_end-Succeeds :
      (i j : ℕ) (on : Bool)
      → i < ends.n
      → j < ends.n
      → (net : NetworkCore) → Succeeds (enable_end ends i j on net)
  enable_end-Succeeds i j on h k net = (enable (ends.endnames i j) on net, ground (arith, h, k))

  disable_end-Succeeds :
      (row i j : ℕ)
      → row < ends.n
      → i < ends.n
      → j < ends.n
      → (net : NetworkCore) → Succeeds (disable_end ends row i j net)
  disable_end-Succeeds row i j r h k net =
      (enable (ends.endnames i j) false net, ground (arith, r, h, k))

  isolate-Succeeds :
      (own other : List ℕ)
      → IsInside own
      → IsInside other
      → (i : ℕ) → has i own ≡ true
      → (net : NetworkCore) → Succeeds (isolate ends own other i net)
  unfolding connect disconnect
  isolate-Succeeds own other own_in other_in i h net =
      let i_in = own_in i h in
      bind-Succeeds (disconnect ends i other net) (connect ends i own)
        (bind-Succeeds (each_of other (λ j. disable_end ends i i j) net)
          (each_of other (λ j. disable_end ends j j i))
          (each_of-Succeeds other (λ j. disable_end ends i i j)
            (λ j k. disable_end-Succeeds i i j i_in i_in (other_in j k)) net)
          (each_of-Succeeds other (λ j. disable_end ends j j i)
            (λ j k. disable_end-Succeeds j j i (other_in j k) (other_in j k) i_in)))
        (λ off.
          bind-Succeeds (each_of own (λ j. enable_end ends i j true) off)
            (each_of own (λ j. enable_end ends j i true))
            (each_of-Succeeds own (λ j. enable_end ends i j true)
              (λ j k. enable_end-Succeeds i j true i_in (own_in j k)) off)
            (each_of-Succeeds own (λ j. enable_end ends j i true)
              (λ j k. enable_end-Succeeds j i true (own_in j k) i_in)))

  partition-Succeeds :
      (p1 p2 : List ℕ)
      → IsInside p1
      → IsInside p2
      → (net : NetworkCore) → Succeeds (partition ends p1 p2 net)
  unfolding partition
  partition-Succeeds p1 p2 in1 in2 net =
      bind-Succeeds (each_of p1 (isolate ends p1 p2) net) (each_of p2 (isolate ends p2 p1))
        (each_of-Succeeds p1 (isolate ends p1 p2) (isolate-Succeeds p1 p2 in1 in2) net)
        (each_of-Succeeds p2 (isolate ends p2 p1) (isolate-Succeeds p2 p1 in2 in1))

-- Whether two servers are in the same group, of two.
abbrev pub same_group : List ℕ → ℕ → ℕ → Bool
same_group p a b = if has a p then has b p else not (has b p)

linked-same_group :
    (p1 p2 : List ℕ) (a b : ℕ) (before : Option Bool)
    → has a p2 ≡ not (has a p1)
    → has b p2 ≡ not (has b p1)
    → linked p1 p2 a b before ≡ some (same_group p1 a b)
linked-same_group p1 p2 a b before e f = elim (Bool-cases (has a p1)) [
  | inl g ↦ elim (Bool-cases (has b p1)) [
    | inl h ↦ rw (e, f, g, h) refl
    | inr h ↦ rw (e, f, g, h) refl
  ]
  | inr g ↦ elim (Bool-cases (has b p1)) [
    | inl h ↦ rw (e, f, g, h) refl
    | inr h ↦ rw (e, f, g, h) refl
  ]
]

module _ {N : Type 0} (is_leader : N → Bool) (c : KvConfig N) where
  -- The server that is taken for the leader.
  abbrev pub chosen : ℕ
  chosen = unwrap_or (leader is_leader c) 0

  chosen-lt : 0 < c.n → chosen < c.n
  chosen-lt h = elim (Option-cases (leader is_leader c)) [
    | inl e ↦ rw e h
    | inr (i, e) ↦ rw e (leader_before-lt is_leader c.kvservers c.n i e)
  ]

  -- With at least three servers, whose endpoints have names of their own: `partition` of the groups
  -- that `make_partition` makes succeeds, the first group has more than a half of the servers and
  -- does not have the leader, or server 0 when no server claims to be the leader, and after it the
  -- endpoint from one server to another is enabled exactly when they are in the same group.
  pub partition-split :
      IsApart (ends_of c)
      → 3 ≤ c.n
      → (c.n < 2 * length (split is_leader c).0)
        × (has chosen (split is_leader c).0 ≡ false)
        × (net : NetworkCore) × (partition
              (ends_of c)
              (split is_leader c).0
              (split is_leader c).1
              c.net
            ≡ some net)
        × ((a b : ℕ)
            → a < c.n
            → b < c.n
            → is_enabled net (c.endnames a b) ≡ some (same_group (split is_leader c).0 a b))
  partition-split apart size =
      let w = make_partition-IsSplit c.n chosen (chosen-lt (omega arith)) in
      let (p1, p2) = split is_leader c in
      let inside1 : IsInside (ends_of c) p1 =
        λ j h. let e = w.everywhere j in ground (arith, h, e) in
      let inside2 : IsInside (ends_of c) p2 =
        λ j h. let e = w.everywhere j in ground (arith, h, e) in
      let disjoint : IsDisjoint p1 p2 =
        λ j h k. let o = w.once j in absurd (ground (arith, h, k, o)) in
      let (net, done) = partition-Succeeds (ends_of c) p1 p2 inside1 inside2 c.net in
      let more = w.majority size in
      let led = w.leads in
      let once = w.once chosen in
      (
        omega arith,
        ground (arith, led, once),
        net,
        done,
        λ a b a_in b_in.
            partition-linked (ends_of c) p1 p2 c.net net apart disjoint done a b a_in b_in
            ∙ linked-same_group p1 p2 a b (is_enabled c.net (c.endnames a b))
                (let e = w.everywhere a in let o = w.once a in ground (arith, a_in, e, o))
                (let e = w.everywhere b in let o = w.once b in ground (arith, b_in, e, o)),
      )
