-- ===== src/Linearizability/Bitset/Laws.antt =====
-- The set operations of bitset.rs against membership of positions.
use Prim.Native.Nat.{bit_and, bit_or}
use key_value_distributed_sy.Base.{
  ℕ, zero, suc, ◌+◌, ◌-◌, ◌*◌, ◌/◌, ◌%◌, ◌^◌, ◌≤◌, ◌<◌, ◌≡◌, ◌↔◌, refl, ap, Bool, true, false,
  Option, none, some, List, [], ◌∷◌, ◌==◌, if◌then◌else◌, length, get_elem?, replicate, All, arith,
  length-set, inl, inr, ==_iff, Bool-cases, length-replicate, ◌∙◌,
}
use key_value_distributed_sy.Base
use key_value_distributed_sy.Base.Bits.{
  bit, bit-zero, bit-or_pow, or_pow-lt, and-not-or_pow, bit-and-not_pow, and-not_pow-lt,
}
use key_value_distributed_sy.Linearizability.Bitset.{
  Bitset, new, set, clear, equals, same_words, mem, word_bit, IsWords,
}

word_at : (b : Bitset) (i : ℕ) → i < length b → (w : ℕ) × (get_elem? b i ≡ some w)
word_at [] i h = elim h [ ]
word_at (w ∷ ws) zero h = (w, refl)
word_at (w ∷ ws) (suc i) h = word_at ws i (omega arith)

no_word_at : (b : Bitset) (i : ℕ) → length b ≤ i → get_elem? b i ≡ none
no_word_at [] i h = refl
no_word_at (w ∷ ws) zero h = elim h [ ]
no_word_at (w ∷ ws) (suc i) h = no_word_at ws i (omega arith)

IsWords-at : (b : Bitset) (i w : ℕ) → IsWords b → get_elem? b i ≡ some w → w < 2 ^ 64
IsWords-at [] i w h e = cc
IsWords-at (x ∷ xs) zero w h e = ground arith
IsWords-at (x ∷ xs) (suc i) w h e = IsWords-at xs i w h.1 e

IsWords-set : (b : Bitset) (i w : ℕ) → IsWords b → w < 2 ^ 64 → IsWords (Base.set b i w)
IsWords-set [] i w h k = tt
IsWords-set (x ∷ xs) zero w h k = (k, h.1)
IsWords-set (x ∷ xs) (suc i) w h k = (h.0, IsWords-set xs i w h.1 k)

get-set :
    (b : Bitset) (i j w : ℕ)
    → i < length b
    → get_elem? (Base.set b i w) j ≡ (if i == j then some w else get_elem? b j)
get-set [] i j w h = elim h [ ]
get-set (x ∷ xs) zero zero w h = refl
get-set (x ∷ xs) zero (suc j) w h = ground arith
get-set (x ∷ xs) (suc i) zero w h = ground arith
get-set (x ∷ xs) (suc i) (suc j) w h = get-set xs i j w (omega arith) ∙ ground arith

set_get : (b : Bitset) (i w : ℕ) → get_elem? b i ≡ some w → Base.set b i w ≡ b
set_get [] i w e = refl
set_get (x ∷ xs) zero w e = ground arith
set_get (x ∷ xs) (suc i) w e = ap (λ t. x ∷ t) (set_get xs i w e)

set_set : (b : Bitset) (i v w : ℕ) → Base.set (Base.set b i v) i w ≡ Base.set b i w
set_set [] i v w = refl
set_set (x ∷ xs) zero v w = refl
set_set (x ∷ xs) (suc i) v w = ap (λ t. x ∷ t) (set_set xs i v w)

mem-set_word :
    (b : Bitset) (i j w w' : ℕ) (v : Bool)
    → get_elem? b (i / 64) ≡ some w
    → i / 64 < length b
    → ((k : ℕ) → k < 64 → bit w' k ≡ (if i % 64 == k then v else bit w k))
    → mem (Base.set b (i / 64) w') j ≡ (if i == j then v else mem b j)
mem-set_word b i j w w' v e h law = ground (arith, get-set b (i / 64) (j / 64) w' h, law (j % 64))

set_at :
    (b : Bitset) (i w : ℕ)
    → get_elem? b (i / 64) ≡ some w
    → set b i ≡ some (Base.set b (i / 64) (bit_or w (2 ^ (i % 64))))
unfolding set
set_at b i w e = rw (e, set)

clear_at :
    (b : Bitset) (i w : ℕ)
    → get_elem? b (i / 64) ≡ some w
    → clear b i ≡ some (Base.set b (i / 64) (bit_and w (2 ^ 64 - 1 - 2 ^ (i % 64))))
unfolding clear
clear_at b i w e = rw (e, clear)

-- `set` at a position within the words succeeds: that position is in, no other position changes, and
-- the words stay as many, and within 64 bits if they were.
pub set_lem :
    (b : Bitset) (i : ℕ)
    → i < 64 * length b
    → (b' : Bitset) × (set b i ≡ some b')
      × (length b' ≡ length b)
      × ((j : ℕ) → mem b' j ≡ (if i == j then true else mem b j))
      × (IsWords b → IsWords b')
set_lem b i h =
    let (w, e) = word_at b (i / 64) (omega arith) in
    let w' = bit_or w (2 ^ (i % 64)) in
    (
      Base.set b (i / 64) w',
      set_at b i w e,
      length-set b (i / 64) w',
      λ j. mem-set_word b i j w w' true e (omega arith) (λ k p. bit-or_pow (i % 64) w k),
      λ ws.
          IsWords-set b (i / 64) w' ws
            (or_pow-lt 64 (i % 64) w (omega arith) (IsWords-at b _ w ws e)),
    )

-- `clear` at a position within the words succeeds: that position is out, no other position changes,
-- and the words stay as many, and within 64 bits if they were.
clear_lem :
    (b : Bitset) (i : ℕ)
    → i < 64 * length b
    → (b' : Bitset) × (clear b i ≡ some b')
      × (length b' ≡ length b)
      × ((j : ℕ) → mem b' j ≡ (if i == j then false else mem b j))
      × (IsWords b → IsWords b')
clear_lem b i h =
    let (w, e) = word_at b (i / 64) (omega arith) in
    let w' = bit_and w (2 ^ 64 - 1 - 2 ^ (i % 64)) in
    (
      Base.set b (i / 64) w',
      clear_at b i w e,
      length-set b (i / 64) w',
      λ j.
          mem-set_word b i j w w' false e (omega arith)
            (λ k p. bit-and-not_pow 64 (i % 64) w k (omega arith) p),
      λ ws. IsWords-set b (i / 64) w' ws (and-not_pow-lt 64 (i % 64) w (omega arith)),
    )

-- At a position beyond the words `set` and `clear` panic.
set-out : (b : Bitset) (i : ℕ) → 64 * length b ≤ i → (set b i ≡ none) × (clear b i ≡ none)
unfolding set clear
set-out b i h = let e = no_word_at b (i / 64) (omega arith) in (rw (e, set), rw (e, clear))

-- `clear` undoes `set` word for word, at a position within the words that was not in the set, when
-- the words are within 64 bits.
pub clear-set :
    (b b' : Bitset) (i : ℕ)
    → IsWords b
    → i < 64 * length b
    → mem b i ≡ false
    → set b i ≡ some b'
    → clear b' i ≡ some b
clear-set b b' i ws h out s =
    let (w, e) = word_at b (i / 64) (omega arith) in
    let k = i / 64 in
    let w' = bit_or w (2 ^ (i % 64)) in
    let at : b' ≡ Base.set b k w' = cc (set_at b i w e) in
    let law : bit_and w' (2 ^ 64 - 1 - 2 ^ (i % 64)) ≡ w =
      and-not-or_pow 64 (i % 64) w (omega arith) (IsWords-at b _ w ws e) (ground (arith, e)) in
    let got : get_elem? (Base.set b k w') k ≡ some w' =
      get-set b k k w' (omega arith) ∙ ground arith in
    rw at (
      clear_at (Base.set b k w') i w' got
      ∙ ap some (set_set b k w' _ ∙ ap (Base.set b k) law ∙ set_get b k w e))

same_words-eq : (b b2 : Bitset) → length b ≡ length b2 → same_words b b2 ≡ true → b ≡ b2
unfolding same_words
same_words-eq [] [] h k = refl
same_words-eq [] (y ∷ ys) h k = absurd (omega arith)
same_words-eq (x ∷ xs) [] h k = absurd (omega arith)
same_words-eq (x ∷ xs) (y ∷ ys) h k = ground (arith, same_words-eq xs ys)

same_words_refl : (b : Bitset) → same_words b b ≡ true
unfolding same_words
same_words_refl [] = refl
same_words_refl (x ∷ xs) = ground (arith, same_words_refl xs)

-- `equals` decides equality of the words.
pub equals_iff : (b b2 : Bitset) → (equals b b2 ≡ true) ↔ (b ≡ b2)
unfolding equals
equals_iff b b2 = (
  λ h. same_words-eq b b2 (ground arith) (ground arith),
  λ e. rw e (ground (arith, same_words_refl b2)),
)

zeros-IsWords : (n : ℕ) → IsWords (replicate n 0)
zeros-IsWords zero = tt
zeros-IsWords (suc n) = (omega arith, zeros-IsWords n)

zeros_at : (n i j : ℕ) → word_bit (get_elem? (replicate n 0) i) j ≡ false
zeros_at zero i j = refl
zeros_at (suc n) zero j = bit-zero j
zeros_at (suc n) (suc i) j = zeros_at n i j

-- A new set is empty, its words are within 64 bits, and they cover every position below the size
-- asked for.
pub new_lem :
    (n : ℕ) → (n ≤ 64 * length (new n)) × IsWords (new n) × ((j : ℕ) → mem (new n) j ≡ false)
unfolding new
new_lem n =
    let m : ℕ = n / 64 + (if n % 64 == 0 then 0 else 1) in
    (ground (arith, length-replicate m (zero)), zeros-IsWords m, λ j. zeros_at m (j / 64) (j % 64))
