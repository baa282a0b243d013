-- ===== src/Tester/Leaders/Claims.antt =====
-- What `check_one_leader` has seen when it returns a server.
use key_value_distributed_sy.Base.{
  ℕ, zero, suc, ◌+◌, ◌<◌, ◌≤◌, ◌≡◌, refl, ap, ◌∙◌, sym, subst, Bool, true, false, ◌&&◌, Option,
  none, some, some_inj, List, [], ◌∷◌, ◌++◌, ltb, ◌==◌, ==_iff, Bool-cases, Option-cases, inl, inr,
  if◌then◌else◌, length, arith,
}
use key_value_distributed_sy.Tester.Checks.{each_until}
use key_value_distributed_sy.Tester.Kv.Each.{bind-some}
use key_value_distributed_sy.Tester.Leaders.{
  State, Leaders, push_leader, push_claim, leader_turn, last_term, leaders_of, first_of, is_empty,
  found, leader_loop, check_one_leader,
}

-- The leaders of a term, none when the map does not have the term.
abbrev listed : ℕ → Leaders → List ℕ
listed term [] = []
listed term ((t, is) ∷ leaders) = let rest = listed term leaders in if t == term then is else rest

listed-push_leader :
    (term t i : ℕ) (leaders : Leaders)
    → listed term (push_leader t i leaders)
      ≡ (if t == term then listed term leaders ++ i ∷ [] else listed term leaders)
listed-push_leader term t i [] = refl
listed-push_leader term t i ((t', is) ∷ leaders) =
    let rest = listed-push_leader term t i leaders in
    elim (Bool-cases (t' == t)) [
      | inl e ↦
          let same = (==_iff t' t).0 e in
          elim (Bool-cases (t == term)) [
            | inl f ↦ let f' : (t' == term) ≡ true = ground (arith, same, f) in rw (e, f, f') refl
            | inr f ↦ let f' : (t' == term) ≡ false = ground (arith, same, f) in rw (e, f, f') refl
          ]
      | inr e ↦ elim (Bool-cases (t' == term)) [
        | inl f ↦ let f' : (t == term) ≡ false = ground (arith, e, f) in rw (e, f, f') refl
        | inr f ↦ rw (e, f) rest
      ]
    ]

module _ (connected : ℕ → Bool) (states : ℕ → Option State) where
  -- Whether a server, if it is connected, says that it leads in the term.
  abbrev pub leads : ℕ → Option State → Bool
  leads term none = false
  leads term (some state) = state.is_leader && (state.term == term)

  -- The connected servers below `m` that say so.
  abbrev pub claimers : ℕ → ℕ → List ℕ
  claimers term zero = []
  claimers term (suc m) =
      if connected m && leads term (states m) then claimers term m ++ m ∷ [] else claimers term m

  listed-push_claim :
      (term i : ℕ) (state : State) (leaders : Leaders)
      → listed term (push_claim i state leaders)
        ≡ (if leads term (some state) then listed term leaders ++ i ∷ [] else listed term leaders)
  listed-push_claim term i state leaders = elim (Bool-cases state.is_leader) [
    | inl e ↦ rw e (listed-push_leader term state.term i leaders)
    | inr e ↦ rw e refl
  ]

  collected-claimers :
      (m : ℕ) (leaders : Leaders)
      → each_until m (leader_turn connected states) [] ≡ some leaders
      → (term : ℕ) → listed term leaders ≡ claimers term m
  collected-claimers zero leaders e term = ap (listed term) (sym (some_inj e))
  collected-claimers (suc m) leaders e term =
      let (before, first, turn) =
        bind-some (each_until m (leader_turn connected states) []) (leader_turn connected states m)
          leaders e in
      let rest = collected-claimers m before first term in
      elim (Bool-cases (connected m)) [
        | inr c ↦
            let same : before ≡ leaders = some_inj (sym (rw (c, leader_turn) refl) ∙ turn) in
            rw c (ap (listed term) (sym same) ∙ rest)
        | inl c ↦ elim (Option-cases (states m)) [
          | inl s ↦
              let at : leader_turn connected states m before ≡ none = rw (c, s, leader_turn) refl in
              absurd cc
          | inr (state, s) ↦
              let same : push_claim m state before ≡ leaders =
                some_inj (sym (rw (c, s, leader_turn) refl) ∙ turn) in
              rw (c, s)
                (ap (listed term) (sym same)
                  ∙ listed-push_claim term m state before
                  ∙ ap (λ l. if leads term (some state) then l ++ m ∷ [] else l) rest)
        ]
      ]

-- No term has two leaders, and no later one has any.
abbrev IsLast : ℕ → Leaders → Type 0
IsLast last leaders = (t : ℕ) → (length (listed t leaders) ≤ 1) × (last < t → listed t leaders ≡ [])

last_term-IsLast :
    (leaders : Leaders) (start last : ℕ)
    → last_term leaders start ≡ some last
    → (start ≤ last) × IsLast last leaders
last_term-IsLast [] start last e =
    let same = some_inj e in (omega arith, λ t. (omega arith, λ h. refl))
last_term-IsLast ((t', is) ∷ leaders) start last e = elim (Bool-cases (ltb 1 (length is))) [
  | inl f ↦ absurd (ground (arith, f, e))
  | inr f ↦
      let next = if ltb start t' then t' else start in
      let (above, rest) = last_term-IsLast leaders next last (ground (arith, f, e)) in
      (
        ground (arith, above),
        λ t. elim (Bool-cases (t' == t)) [
          | inl g ↦ rw g (ground (arith, f), λ h. absurd (ground (arith, g, above, h)))
          | inr g ↦ rw g (rest t)
        ],
      )
]

leaders_of-listed :
    (term : ℕ) (leaders : Leaders) (is : List ℕ)
    → leaders_of term leaders ≡ some is
    → listed term leaders ≡ is
leaders_of-listed term [] is e = absurd cc
leaders_of-listed term ((t, is') ∷ leaders) is e = elim (Bool-cases (t == term)) [
  | inl f ↦ rw f (ground (arith, f, e))
  | inr f ↦ rw f (leaders_of-listed term leaders is (ground (arith, f, e)))
]

only_one : (i : ℕ) (is : List ℕ) → first_of is ≡ some i → length is ≤ 1 → is ≡ i ∷ []
only_one i [] e h = absurd cc
only_one i (j ∷ []) e h = ap (λ j. j ∷ []) (some_inj e)
only_one i (j ∷ k ∷ is) e h = absurd (omega arith)

empty : (leaders : Leaders) → is_empty leaders ≡ true → leaders ≡ []
empty [] e = refl
empty (l ∷ leaders) e = absurd cc

module _ (n : ℕ) (connected : ℕ → Bool) (states : ℕ → ℕ → Option State) where
  -- In the turn `k`, server `i` is the only one below `n` that leads in its term, no term has two
  -- leaders, and no later term has one.
  abbrev pub IsOneLeader : ℕ → ℕ → Type 0
  IsOneLeader k i =
      (last : ℕ) × (claimers connected (states k) last n ≡ i ∷ [])
      × ((t : ℕ)
          → (length (claimers connected (states k) t n) ≤ 1)
            × (last < t → claimers connected (states k) t n ≡ []))

  found-IsOneLeader :
      (k last i : ℕ) (leaders : Leaders)
      → each_until n (leader_turn connected (states k)) [] ≡ some leaders
      → last_term leaders 0 ≡ some last
      → found n connected states last leaders ≡ some i
      → IsOneLeader k i
  found-IsOneLeader k last i leaders e f g =
      let same = collected-claimers connected (states k) n leaders e in
      let (above, only) = last_term-IsLast leaders 0 last f in
      let (is, at, first) = bind-some (leaders_of last leaders) first_of i g in
      let here = leaders_of-listed last leaders is at in
      (
        last,
        sym (same last) ∙ here ∙ only_one i is first (subst (λ l. length l ≤ 1) here (only last).0),
        λ t. (subst (λ l. length l ≤ 1) (same t) (only t).0, λ h. sym (same t) ∙ (only t).1 h),
      )

  -- Nobody leads in the turns from `k` on and before `k'`.
  abbrev pub IsQuiet : ℕ → ℕ → Type 0
  IsQuiet k k' = (j t : ℕ) → k ≤ j → j < k' → claimers connected (states j) t n ≡ []

  leader_loop-IsOneLeader :
      (left k i : ℕ)
      → leader_loop n connected states left k [] ≡ some i
      → (k' : ℕ) × (k' < k + left) × IsQuiet k k' × IsOneLeader k' i
  leader_loop-IsOneLeader zero k i e = absurd cc
  leader_loop-IsOneLeader (suc left) k i e =
      let (collected, at, next) =
        bind-some (each_until n (leader_turn connected (states k)) []) _ i e in
      let (last, ends, answer) = bind-some (last_term collected 0) _ i next in
      elim (Bool-cases (is_empty collected)) [
        | inr f ↦ (
          k,
          omega arith,
          λ j t h l. absurd (omega arith),
          found-IsOneLeader k last i collected at ends (sym (rw f refl) ∙ answer),
        )
        | inl f ↦
            let none_here = empty collected f in
            let go_on : leader_loop n connected states left (suc k) collected ≡ some i =
              sym (rw f refl) ∙ answer in
            let (k', less, quiet, one) = leader_loop-IsOneLeader left (suc k) i (
              subst (λ l. leader_loop n connected states left (suc k) l ≡ some i) none_here
                go_on) in
            (
              k',
              omega arith,
              λ j t h l. elim (Bool-cases (j == k)) [
                | inl q ↦
                    ap (λ j. claimers connected (states j) t n) ((==_iff j k).0 q)
                    ∙ sym (collected-claimers connected (states k) n collected at t)
                    ∙ ap (listed t) none_here
                | inr q ↦ quiet j t (ground (arith, q, h)) l
              ],
              one,
            )
      ]

  -- When `check_one_leader` returns server i, then in one of its ten turns i was connected and the
  -- only leader of its term, no term had two leaders then and no later term had one, and in the turns
  -- before no connected server said that it led.
  pub check_one_leader_lem :
      (i : ℕ)
      → check_one_leader n connected states ≡ some i
      → (k : ℕ) × (k < 10) × IsQuiet 0 k × IsOneLeader k i
  unfolding check_one_leader
  check_one_leader_lem i e =
      let (k, less, quiet, one) = leader_loop-IsOneLeader 10 0 i e in (k, omega arith, quiet, one)
