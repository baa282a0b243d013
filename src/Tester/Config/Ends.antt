-- ===== src/Tester/Config/Ends.antt =====
-- Which endpoints loops over them enable.
use key_value_distributed_sy.Base.{
  ℕ, zero, suc, ◌<◌, ◌≡◌, ◌≢◌, refl, ap, ◌∙◌, sym, subst, Bool, true, false, Option, some, inl, inr,
  ◌==◌, ==_iff, Bool-cases, arith,
}
use key_value_distributed_sy.Base.Loops.{each}
use key_value_distributed_sy.Base.Text.{Text, same_text, same_text_sound, same_text_refl}
use key_value_distributed_sy.Labrpc.Network.{NetworkCore, enable}
use key_value_distributed_sy.Tester.Config.{enable_if}

-- Whether a name is enabled.
abbrev pub is_enabled : NetworkCore → Text → Option Bool
is_enabled net name = net.endpoints.enabled name

pub enabled-other :
    (net : NetworkCore) (name other : Text) (on : Bool)
    → same_text other name ≡ false
    → is_enabled (enable name on net) other ≡ is_enabled net other
unfolding enable
enabled-other net name other on e = rw e refl

pub enabled-same :
    (net : NetworkCore) (name : Text) (on : Bool) → is_enabled (enable name on net) name ≡ some on
unfolding enable
enabled-same net name on = rw (same_text_refl name) refl

-- What a loop that enables, or disables, some of `names` does to a name.
pub data Effect (on : Bool) (k : ℕ) (chosen : ℕ → Bool) (names : ℕ → Text)
    (before after : NetworkCore) (name : Text) : Type 0 where
  hit :
      (j : ℕ)
      → j < k
      → chosen j ≡ true
      → names j ≡ name
      → is_enabled after name ≡ some on
      → Effect on k chosen names before after name
  missed :
      ((j : ℕ) → j < k → chosen j ≡ true → names j ≢ name)
      → is_enabled after name ≡ is_enabled before name
      → Effect on k chosen names before after name

-- One more turn of the loop.
Effect-suc :
    (on : Bool) (k : ℕ) (chosen : ℕ → Bool) (names : ℕ → Text) (before after : NetworkCore)
    (name : Text)
    → ((chosen k ≡ true) → names k ≢ name)
    → (after' : NetworkCore) → is_enabled after' name ≡ is_enabled after name
    → Effect on k chosen names before after name
    → Effect on (suc k) chosen names before after' name
Effect-suc on k chosen names before after name other after' same (hit j h c e w) =
    hit j (omega arith) c e (same ∙ w)
Effect-suc on k chosen names before after name other after' same (missed m w) =
    missed
      (λ j h c. elim (Bool-cases (j == k)) [
        | inl t ↦
            let at = (==_iff j k).0 t in
            subst (λ j. names j ≢ name) (sym at) (other (subst (λ j. chosen j ≡ true) at c))
        | inr t ↦ m j (ground (arith, t, h)) c
      ])
      (same ∙ w)

pub each-Effect :
    (on : Bool) (k : ℕ) (chosen : ℕ → Bool) (names : ℕ → Text) (net : NetworkCore) (name : Text)
    → Effect on k chosen names net (each k (λ j. enable_if (chosen j) on (names j)) net) name
each-Effect on zero chosen names net name = missed (λ j h. absurd (omega arith)) refl
each-Effect on (suc k) chosen names net name =
    let before = each k (λ j. enable_if (chosen j) on (names j)) net in
    let effect = each-Effect on k chosen names net name in
    elim (Bool-cases (chosen k)) [
      | inr c ↦
          rw c (Effect-suc on k chosen names net before name (λ d. absurd cc) before refl effect)
      | inl c ↦ elim (Bool-cases (same_text name (names k))) [
        | inl e ↦
            let at = same_text_sound name (names k) e in
            rw c (
              hit k (omega arith) c (sym at) (
                subst (λ z. is_enabled (enable (names k) on before) z ≡ some on) (sym at)
                  (enabled-same before (names k) on)))
        | inr e ↦
            let apart : names k ≢ name =
              λ z. absurd (cc (e, ap (same_text name) z, same_text_refl name)) in
            rw c (
              Effect-suc on k chosen names net before name (λ d. apart) (enable (names k) on before)
                (enabled-other before (names k) name on e) effect)
      ]
    ]
