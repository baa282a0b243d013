-- ===== src/Tester/Kv/Loops.antt =====
-- What the loops of `connect` and `disconnect` do to an endpoint.
use key_value_distributed_sy.Base.{
  ℕ, ◌<◌, ◌≡◌, refl, ◌∙◌, sym, subst, Bool, true, false, ◌&&◌, Option, some, some_inj, List, ◌⊎◌,
  inl, inr, ltb, ◌==◌, Bool-cases, has, arith,
}
use key_value_distributed_sy.Base.Text.{same_text, same_text_sound}
use key_value_distributed_sy.Labrpc.Network.{NetworkCore, enable}
use key_value_distributed_sy.Tester.Config.Ends.{is_enabled, enabled-other, enabled-same}
use key_value_distributed_sy.Tester.Kv.{
  each_of, Ends, enable_end, disable_end, connect, disconnect, isolate,
}
use key_value_distributed_sy.Tester.Kv.Each.{bind-some, each_of-keeps, each_of-hits}

-- Different endpoints have different names.
abbrev pub IsApart : Ends → Type 0
IsApart ends =
    (i j k l : ℕ)
    → i < ends.n
    → j < ends.n
    → k < ends.n
    → l < ends.n
    → ends.endnames i j ≡ ends.endnames k l
    → (i ≡ k) × (j ≡ l)

disable_end-enable_end :
    (ends : Ends) (row i j : ℕ) (net net' : NetworkCore)
    → disable_end ends row i j net ≡ some net'
    → enable_end ends i j false net ≡ some net'
disable_end-enable_end ends row i j net net' e = elim (Bool-cases (ltb row ends.n)) [
  | inr q ↦ absurd (ground (arith, q, e))
  | inl q ↦ elim (Bool-cases (ends.n == 0)) [
    | inl z ↦ absurd (ground (arith, q, z))
    | inr z ↦ rw (sym e) (ground (arith, q, z))
  ]
]

module _ (ends : Ends) (apart : IsApart ends) (a b : ℕ) (a_in : a < ends.n)
    (b_in : b < ends.n) where
  abbrev state : NetworkCore → Option Bool
  state net = is_enabled net (ends.endnames a b)

  pub enable_end-hits :
      (on : Bool) (net net' : NetworkCore)
      → enable_end ends a b on net ≡ some net'
      → state net' ≡ some on
  enable_end-hits on net net' e =
      let done : enable_end ends a b on net ≡ some (enable (ends.endnames a b) on net) =
        ground (arith, a_in, b_in) in
      subst (λ net. state net ≡ some on) (some_inj (sym done ∙ e))
        (enabled-same net (ends.endnames a b) on)

  module _ (v : Option Bool) where
    pub enable_end-keeps :
        (i j : ℕ) (on : Bool) (net net' : NetworkCore)
        → ((i ≡ a) → (j ≡ b) → v ≡ some on)
        → enable_end ends i j on net ≡ some net'
        → state net ≡ v
        → state net' ≡ v
    enable_end-keeps i j on net net' fits e before =
        elim (Bool-cases (ltb i ends.n && ltb j ends.n)) [
          | inr q ↦ absurd (ground (arith, q, e))
          | inl q ↦
              let at : enable (ends.endnames i j) on net ≡ net' = ground (arith, q, e) in
              elim (Bool-cases (same_text (ends.endnames a b) (ends.endnames i j))) [
                | inl s ↦
                    let name = same_text_sound (ends.endnames a b) (ends.endnames i j) s in
                    let (p, r) =
                      apart i j a b (ground (arith, q)) (ground (arith, q)) a_in b_in (sym name) in
                    subst (λ net. state net ≡ v) at
                      (subst (λ x. is_enabled (enable (ends.endnames i j) on net) x ≡ v) (sym name)
                        (enabled-same net (ends.endnames i j) on ∙ sym (fits p r)))
                | inr s ↦
                    subst (λ net. state net ≡ v) at
                      (enabled-other net (ends.endnames i j) (ends.endnames a b) on s ∙ before)
              ]
        ]

    -- Whether a loop of server `i` over `j` reads the endpoint from one to the other.
    abbrev pub Touches : ℕ → ℕ → Type 0
    Touches i j = ((i ≡ a) × (j ≡ b)) ⊎ ((j ≡ a) × (i ≡ b))

    -- A loop of server `i` over `js` only makes the endpoint `on`, if at all, where that is `v`.
    abbrev pub Fits : ℕ → List ℕ → Bool → Type 0
    Fits i js on = (j : ℕ) → has j js ≡ true → Touches i j → v ≡ some on

    connect-keeps :
        (i : ℕ) (to : List ℕ) (net net' : NetworkCore)
        → Fits i to true
        → connect ends i to net ≡ some net'
        → state net ≡ v
        → state net' ≡ v
    unfolding connect
    connect-keeps i to net net' fits e before =
        let go = bind-some (each_of to (λ j. enable_end ends i j true) net) _ net' e in
        each_of-keeps (λ net. state net ≡ v) (λ j. enable_end ends j i true) to
          (λ j h s s'. enable_end-keeps j i true s s' (λ p q. fits j h (inr (p, q)))) go.0 net' go.2
          (each_of-keeps (λ net. state net ≡ v) (λ j. enable_end ends i j true) to
            (λ j h s s'. enable_end-keeps i j true s s' (λ p q. fits j h (inl (p, q)))) net go.0
            go.1 before)

    disconnect-keeps :
        (i : ℕ) (from : List ℕ) (net net' : NetworkCore)
        → Fits i from false
        → disconnect ends i from net ≡ some net'
        → state net ≡ v
        → state net' ≡ v
    unfolding disconnect
    disconnect-keeps i from net net' fits e before =
        let go = bind-some (each_of from (λ j. disable_end ends i i j) net) _ net' e in
        each_of-keeps (λ net. state net ≡ v) (λ j. disable_end ends j j i) from
          (λ j h s s' d.
            enable_end-keeps j i false s s' (λ p q. fits j h (inr (p, q)))
              (disable_end-enable_end ends j j i s s' d))
          go.0 net' go.2
          (each_of-keeps (λ net. state net ≡ v) (λ j. disable_end ends i i j) from
            (λ j h s s' d.
              enable_end-keeps i j false s s' (λ p q. fits j h (inl (p, q)))
                (disable_end-enable_end ends i i j s s' d))
            net go.0 go.1 before)

    pub isolate-keeps :
        (own other : List ℕ) (i : ℕ) (net net' : NetworkCore)
        → Fits i own true
        → Fits i other false
        → isolate ends own other i net ≡ some net'
        → state net ≡ v
        → state net' ≡ v
    isolate-keeps own other i net net' on off e before =
        let (mid, first, rest) =
          bind-some (disconnect ends i other net) (connect ends i own) net' e in
        connect-keeps i own mid net' on rest (disconnect-keeps i other net mid off first before)

  -- The loops of the server at either end reach the endpoint.
  abbrev pub Reaches : ℕ → List ℕ → Type 0
  Reaches i js = ((i ≡ a) × (has b js ≡ true)) ⊎ ((i ≡ b) × (has a js ≡ true))

  connect-hits :
      (i : ℕ) (to : List ℕ) (net net' : NetworkCore)
      → Reaches i to
      → connect ends i to net ≡ some net'
      → state net' ≡ some true
  unfolding connect
  connect-hits i to net net' (inl (p, h)) e =
      let go = bind-some (each_of to (λ j. enable_end ends i j true) net) _ net' e in
      each_of-keeps (λ net. state net ≡ some true) (λ j. enable_end ends j i true) to
        (λ j h s s'. enable_end-keeps (some true) j i true s s' (λ p q. refl)) go.0 net' go.2
        (each_of-hits (λ net. state net ≡ some true) (λ j. enable_end ends i j true) b to h
          (λ j h s s'. enable_end-keeps (some true) i j true s s' (λ p q. refl))
          (λ s s' d.
            enable_end-hits true s s' (subst (λ i. enable_end ends i b true s ≡ some s') p d))
          net go.0 go.1)
  connect-hits i to net net' (inr (p, h)) e =
      let go = bind-some (each_of to (λ j. enable_end ends i j true) net) _ net' e in
      each_of-hits (λ net. state net ≡ some true) (λ j. enable_end ends j i true) a to h
        (λ j h s s'. enable_end-keeps (some true) j i true s s' (λ p q. refl))
        (λ s s' d.
          enable_end-hits true s s' (subst (λ i. enable_end ends a i true s ≡ some s') p d))
        go.0 net' go.2

  disconnect-hits :
      (i : ℕ) (from : List ℕ) (net net' : NetworkCore)
      → Reaches i from
      → disconnect ends i from net ≡ some net'
      → state net' ≡ some false
  unfolding disconnect
  disconnect-hits i from net net' (inl (p, h)) e =
      let go = bind-some (each_of from (λ j. disable_end ends i i j) net) _ net' e in
      each_of-keeps (λ net. state net ≡ some false) (λ j. disable_end ends j j i) from
        (λ j h s s' d.
          enable_end-keeps (some false) j i false s s' (λ p q. refl)
            (disable_end-enable_end ends j j i s s' d))
        go.0 net' go.2
        (each_of-hits (λ net. state net ≡ some false) (λ j. disable_end ends i i j) b from h
          (λ j h s s' d.
            enable_end-keeps (some false) i j false s s' (λ p q. refl)
              (disable_end-enable_end ends i i j s s' d))
          (λ s s' d. enable_end-hits false s s' (
            subst (λ i. enable_end ends i b false s ≡ some s') p
              (disable_end-enable_end ends i i b s s' d)))
          net go.0 go.1)
  disconnect-hits i from net net' (inr (p, h)) e =
      let go = bind-some (each_of from (λ j. disable_end ends i i j) net) _ net' e in
      each_of-hits (λ net. state net ≡ some false) (λ j. disable_end ends j j i) a from h
        (λ j h s s' d.
          enable_end-keeps (some false) j i false s s' (λ p q. refl)
            (disable_end-enable_end ends j j i s s' d))
        (λ s s' d. enable_end-hits false s s' (
          subst (λ i. enable_end ends a i false s ≡ some s') p
            (disable_end-enable_end ends a a i s s' d)))
        go.0 net' go.2

  pub isolate-connects :
      (own other : List ℕ) (i : ℕ) (net net' : NetworkCore)
      → Reaches i own
      → isolate ends own other i net ≡ some net'
      → state net' ≡ some true
  isolate-connects own other i net net' at e =
      let (mid, first, rest) =
        bind-some (disconnect ends i other net) (connect ends i own) net' e in
      connect-hits i own mid net' at rest

  pub isolate-disconnects :
      (own other : List ℕ) (i : ℕ) (net net' : NetworkCore)
      → Reaches i other
      → Fits (some false) i own true
      → isolate ends own other i net ≡ some net'
      → state net' ≡ some false
  isolate-disconnects own other i net net' at on e =
      let (mid, first, rest) =
        bind-some (disconnect ends i other net) (connect ends i own) net' e in
      connect-keeps (some false) i own mid net' on rest (disconnect-hits i other net mid at first)
