-- ===== src/PriorityQueue/Mask.antt =====
-- The bitmap of the nonempty layers, by evaluation over its 16 values.
use bailey_forbes_flinstone.Base.{
  ℕ, ◌+◌, ◌*◌, ◌/◌, ◌%◌, ◌<◌, ◌≡◌, ◌≢◌, refl, Bool, true, false, not, ◌&&◌, ◌||◌, arith, ltb, ◌==◌,
  all_below, all_below_sound,
}
use bailey_forbes_flinstone.PriorityQueue.{set_bit, clear_bit, has_bit, ctz}

abbrev bool_eq : Bool → Bool → Bool
bool_eq true b = b
bool_eq false b = not b

-- a mask below 16 and two layers below 4, as one number below 256
abbrev mask_of : ℕ → ℕ
mask_of x = x / 16

abbrev layer_of : ℕ → ℕ
layer_of x = x / 4 % 4

abbrev other_of : ℕ → ℕ
other_of x = x % 4

abbrev set_ok : ℕ → Bool
set_ok x =
    ltb (set_bit (mask_of x) (layer_of x)) 16
    && bool_eq (has_bit (set_bit (mask_of x) (layer_of x)) (other_of x))
        (layer_of x == other_of x || has_bit (mask_of x) (other_of x))

abbrev clear_ok : ℕ → Bool
clear_ok x =
    ltb (clear_bit (mask_of x) (layer_of x)) 16
    && bool_eq (has_bit (clear_bit (mask_of x) (layer_of x)) (other_of x))
        (not (layer_of x == other_of x) && has_bit (mask_of x) (other_of x))

abbrev ctz_ok : ℕ → Bool
ctz_ok x =
    mask_of x == 0
    || ltb (ctz 64 (mask_of x)) 4
      && has_bit (mask_of x) (ctz 64 (mask_of x))
      && (not (ltb (other_of x) (ctz 64 (mask_of x))) || not (has_bit (mask_of x) (other_of x)))

abbrev zero_ok : ℕ → Bool
zero_ok x = not (has_bit (mask_of x) (other_of x)) || not (mask_of x == 0)

set_table : all_below 256 set_ok ≡ true
unfolding all_below set_bit has_bit
set_table = refl

clear_table : all_below 256 clear_ok ≡ true
unfolding all_below clear_bit has_bit
clear_table = refl

ctz_table : all_below 256 ctz_ok ≡ true
unfolding all_below ctz has_bit
ctz_table = refl

zero_table : all_below 256 zero_ok ≡ true
unfolding all_below has_bit
zero_table = refl

module _ (m l j : ℕ) (hm : m < 16) (hl : l < 4) (hj : j < 4) where
  abbrev coded : ℕ
  coded = m * 16 + l * 4 + j

  mask-coded : mask_of coded ≡ m
  mask-coded = omega arith

  layer-coded : layer_of coded ≡ l
  layer-coded = omega arith

  other-coded : other_of coded ≡ j
  other-coded = omega arith

  pub set_bit_lem : (set_bit m l < 16) × (has_bit (set_bit m l) j ≡ (l == j || has_bit m j))
  set_bit_lem =
      let t = all_below_sound 256 set_ok coded set_table (omega arith) in
      let t' = rw (mask-coded, layer-coded, other-coded) at t in ground arith

  pub clear_bit_lem :
      (clear_bit m l < 16) × (has_bit (clear_bit m l) j ≡ (not (l == j) && has_bit m j))
  clear_bit_lem =
      let t = all_below_sound 256 clear_ok coded clear_table (omega arith) in
      let t' = rw (mask-coded, layer-coded, other-coded) at t in ground arith

-- Counting trailing zeros finds the lowest nonempty layer.
pub ctz_lem :
    (m j : ℕ)
    → m < 16
    → m ≢ 0
    → j < 4
    → (ctz 64 m < 4) × (has_bit m (ctz 64 m) ≡ true) × (j < ctz 64 m → has_bit m j ≡ false)
ctz_lem m j hm nz hj =
    let t = all_below_sound 256 ctz_ok (coded m 0 j hm (omega arith) hj) ctz_table (omega arith) in
    let t' =
      rw (mask-coded m 0 j hm (omega arith) hj, other-coded m 0 j hm (omega arith) hj) at t in
    ground arith

pub has_bit_zero : (j : ℕ) → j < 4 → has_bit 0 j ≡ false
has_bit_zero j hj =
    let t = all_below_sound 256 zero_ok j zero_table (omega arith) in
    let e : j / 16 ≡ 0 = omega arith in
    let e' : j % 4 ≡ j = omega arith in let t' = rw (e, e') at t in ground arith
