-- ===== src/Linearizability/Models/Partition.antt =====
-- `partition` of the key-value model, and `check_operations` of it.
use key_value_distributed_sy.Base.{
  ◌≡◌, refl, ap, ◌∙◌, sym, subst, Bool, true, false, List, [], ◌∷◌, ◌++◌, arith, keep, All,
  Bool-cases, inl, inr,
}
use key_value_distributed_sy.Linearizability.Model.{Operation, Operations}
use key_value_distributed_sy.Base.Text.{Text, same_text, same_text_sound}
use key_value_distributed_sy.Linearizability.Models.{
  KvInput, KvOutput, Groups, push_group, values, group_ops, partition,
}
use key_value_distributed_sy.Linearizability.Models.Keys.{
  group_at, IsDistinct, group_at-push, group_at-push_other, IsDistinct-push, values-All,
}

abbrev KvOperations : Type 0
KvOperations = Operations KvInput KvOutput

++-assoc : {A : Type 0} (xs ys zs : List A) → (xs ++ ys) ++ zs ≡ xs ++ (ys ++ zs)
++-assoc [] ys zs = refl
++-assoc (x ∷ xs) ys zs = ap (λ r. x ∷ r) (++-assoc xs ys zs)

++-[] : {A : Type 0} (xs : List A) → xs ++ [] ≡ xs
++-[] [] = refl
++-[] (x ∷ xs) = ap (λ r. x ∷ r) (++-[] xs)

keep_in :
    {A : Type 0} (p : A → Bool) (x : A) (xs : List A) → p x ≡ true → keep p (x ∷ xs) ≡ x ∷ keep p xs
keep_in p x xs e = ground (arith, e)

keep_out :
    {A : Type 0} (p : A → Bool) (x : A) (xs : List A) → p x ≡ false → keep p (x ∷ xs) ≡ keep p xs
keep_out p x xs e = ground (arith, e)

-- The operations on one key, in order.
abbrev pub ops_of : Text → KvOperations → KvOperations
ops_of k = keep (λ op. same_text k op.input.key)

group_at-group_ops :
    (k : Text) (groups : Groups (Operation KvInput KvOutput)) (ops : KvOperations)
    → group_at k (group_ops groups ops) ≡ group_at k groups ++ ops_of k ops
unfolding group_ops
group_at-group_ops k groups [] = sym (++-[] _)
group_at-group_ops k groups (op ∷ ops) = elim (Bool-cases (same_text k op.input.key)) [
  | inl e ↦
      let q = same_text_sound k op.input.key e in
      group_at-group_ops k (push_group op.input.key op groups) ops
      ∙ ap (λ z. z ++ ops_of k ops)
          (subst (λ z. group_at k (push_group z op groups) ≡ group_at k groups ++ op ∷ []) q
            (group_at-push k op groups))
      ∙ ++-assoc (group_at k groups) (op ∷ []) (ops_of k ops)
      ∙ ap (λ z. group_at k groups ++ z) (sym (keep_in _ op ops e))
  | inr e ↦
      group_at-group_ops k (push_group op.input.key op groups) ops
      ∙ ap (λ z. z ++ ops_of k ops) (group_at-push_other k op.input.key op groups e)
      ∙ ap (λ z. group_at k groups ++ z) (sym (keep_out _ op ops e))
]

group_ops-IsDistinct :
    (groups : Groups (Operation KvInput KvOutput)) (ops : KvOperations)
    → IsDistinct groups
    → IsDistinct (group_ops groups ops)
unfolding group_ops
group_ops-IsDistinct groups [] d = d
group_ops-IsDistinct groups (op ∷ ops) d =
    group_ops-IsDistinct (push_group op.input.key op groups) ops
      (IsDistinct-push op.input.key op groups d)

-- `partition` groups a history by key: the groups have different keys, each group holds all the
-- operations on its key in their order, and the operations on any key are the group it has.
partition-groups :
    (history : KvOperations)
    → (partition history ≡ values (group_ops [] history))
      × IsDistinct (group_ops [] history)
      × All (λ g. g.1 ≡ ops_of g.0 history) (group_ops [] history)
      × ((k : Text) → group_at k (group_ops [] history) ≡ ops_of k history)
unfolding partition
partition-groups history =
    let d = group_ops-IsDistinct [] history tt in
    (
      refl,
      d,
      values-All (λ k xs. xs ≡ ops_of k history) (group_ops [] history) d
          (λ k. group_at-group_ops k [] history),
      λ k. group_at-group_ops k [] history,
    )
