-- ===== src/Linearizability/Bitset.antt =====
-- crates/linearizability/src/bitset.rs: a set of small numbers as a vector of 64-bit words. `none`
-- is the panic of an index that is out of bounds. Proofs are in the child modules.
pub mod Laws
use Prim.Native.Nat.{bit_and, bit_or, bit_xor}
use key_value_distributed_sy.Base.{
  ℕ, zero, suc, ◌+◌, ◌-◌, ◌*◌, ◌/◌, ◌%◌, ◌^◌, ◌<◌, ◌≡◌, refl, Bool, true, false, Option, none, some,
  List, [], ◌∷◌, ◌==◌, if◌then◌else◌, length, get_elem?, replicate, All,
}
use key_value_distributed_sy.Base
use key_value_distributed_sy.Base.Bits.{bit}

abbrev pub Bitset : Type 0
Bitset = List ℕ

unfoldable pub new : ℕ → Bitset
new bits = let extra : ℕ = if bits % 64 == 0 then 0 else 1 in replicate (bits / 64 + extra) 0

unfoldable pub bitset_index : ℕ → ℕ × ℕ
bitset_index pos = (pos / 64, pos % 64)

-- `self.0[major] |= 1 << minor`
unfoldable pub set : Bitset → ℕ → Option Bitset
unfolding bitset_index
set b pos =
    let (major, minor) = bitset_index pos in
    elim (get_elem? b major) [
      | none ↦ none
      | some w ↦ some (Base.set b major (bit_or w (2 ^ minor)))
    ]

-- `self.0[major] &= !(1 << minor)`
unfoldable pub clear : Bitset → ℕ → Option Bitset
unfolding bitset_index
clear b pos =
    let (major, minor) = bitset_index pos in
    elim (get_elem? b major) [
      | none ↦ none
      | some w ↦ some (Base.set b major (bit_and w (2 ^ 64 - 1 - 2 ^ minor)))
    ]

-- The body of the loop of `popcnt`, on one word.
unfoldable pub popcnt_word : ℕ → ℕ
popcnt_word b =
    let v1 : ℕ = bit_and b 0x5555_5555_5555_5555 + bit_and b 0xAAAA_AAAA_AAAA_AAAA / 2 ^ 1 in
    let v2 : ℕ = bit_and v1 0x3333_3333_3333_3333 + bit_and v1 0xCCCC_CCCC_CCCC_CCCC / 2 ^ 2 in
    let v3 : ℕ = bit_and v2 0x0F0F_0F0F_0F0F_0F0F + bit_and v2 0xF0F0_F0F0_F0F0_F0F0 / 2 ^ 4 in
    let v4 : ℕ = (v3 * 0x0101_0101_0101_0101) % 2 ^ 64 in bit_and (v4 / 2 ^ 56) 0xFF

unfoldable pub popcnt : Bitset → ℕ
popcnt [] = 0
popcnt (b ∷ bs) = popcnt_word b + popcnt bs

xor_all : ℕ → Bitset → ℕ
xor_all h [] = h
xor_all h (v ∷ vs) = xor_all (bit_xor h v) vs

unfoldable pub hash : Bitset → ℕ
unfolding popcnt popcnt_word xor_all
hash b = xor_all (popcnt b) b

-- The loop of `equals`, once the lengths agree.
same_words : Bitset → Bitset → Bool
same_words [] ys = true
same_words (x ∷ xs) [] = true
same_words (x ∷ xs) (y ∷ ys) = let rest = same_words xs ys in if x == y then rest else false

unfoldable pub equals : Bitset → Bitset → Bool
unfolding same_words
equals b b2 = if length b == length b2 then same_words b b2 else false

-- Whether a position is in the set: the reading of the words that the operations are held to.
abbrev pub word_bit : Option ℕ → ℕ → Bool
word_bit none k = false
word_bit (some w) k = bit w k

abbrev pub mem : Bitset → ℕ → Bool
mem b pos = word_bit (get_elem? b (pos / 64)) (pos % 64)

abbrev pub IsWords : Bitset → Type 0
IsWords = All (λ w. w < 2 ^ 64)

set_run : (set (0 ∷ 0 ∷ []) 65 ≡ some (0 ∷ 2 ∷ [])) × (set (0 ∷ []) 64 ≡ none)
unfolding set
set_run = (refl, refl)

hash_run : hash (0xFF00 ∷ 0x1 ∷ []) ≡ 0xFF08
unfolding hash
hash_run = refl
