-- ===== src/Mining/Cloud/Profit.antt =====
-- The accounts of `mining_cloud` (mining.c).
use transaction_models_minin.Common.{ℕ, zero, suc, ◌+◌, ◌*◌, ◌≤◌, ◌≡◌, refl, ap, subst, ◌∙◌, arith}
use transaction_models_minin.Common.Int.{
  ℤ, pos, ◌-ℤ◌, ◌+ℤ◌, add_int, sub_int, mul_int, ◌*ℤ◌, wrap32, add_int_bounds, sub_int_bounds,
  add_int_fits, FitsInt, pos_part, neg_part, int_max, int_laws, eq_of_parts,
}
use transaction_models_minin.Attendance.{mining_reward, max_pending}
use transaction_models_minin.Mining.Cloud.{
  CloudSums, no_rounds, cloud_round, cloud_rounds, cloud_sums,
}

add_pos : (a b : ℕ) → a + b ≤ int_max → add_int (pos a) (pos b) ≡ pos (a + b)
add_pos a b h =
    add_int_bounds (pos a) (pos b) (omega int_laws) (omega int_laws)
    ∙ eq_of_parts (pos a +ℤ pos b) (pos (a + b)) (omega int_laws)

add_difference :
    (a b c d : ℕ)
    → a + c ≤ int_max
    → b + d ≤ int_max
    → add_int (pos a -ℤ pos b) (pos c -ℤ pos d) ≡ pos (a + c) -ℤ pos (b + d)
add_difference a b c d h k =
    add_int_bounds (pos a -ℤ pos b) (pos c -ℤ pos d) (omega int_laws) (omega int_laws)
    ∙ eq_of_parts ((pos a -ℤ pos b) +ℤ (pos c -ℤ pos d)) (pos (a + c) -ℤ pos (b + d))
        (omega int_laws)

sub_difference :
    (r a b : ℕ)
    → r + b ≤ int_max
    → a ≤ int_max
    → sub_int (pos r) (pos a -ℤ pos b) ≡ pos (r + b) -ℤ pos a
sub_difference r a b h k =
    sub_int_bounds (pos r) (pos a -ℤ pos b) (omega int_laws) (omega int_laws)
    ∙ eq_of_parts (pos r -ℤ (pos a -ℤ pos b)) (pos (r + b) -ℤ pos a) (omega int_laws)

-- The three sums, of rewards, of what was charged and of what was given back by negative fees.
abbrev AddUp : ℕ → ℕ → ℕ → CloudSums → Type 0
AddUp gross charged refunded s =
    (s.gross_earnings ≡ pos gross)
    × (s.total_fees ≡ pos charged -ℤ pos refunded)
    × (s.net_profit ≡ pos (gross + refunded) -ℤ pos charged)

AddUp-eq :
    {a b c a' b' c' : ℕ} (s : CloudSums)
    → a ≡ a'
    → b ≡ b'
    → c ≡ c'
    → AddUp a b c s
    → AddUp a' b' c' s
AddUp-eq {a} {b} {c} {b' = b'} {c' = c'} s h k l sums =
    subst (λ z. AddUp z b' c' s) h
      (subst (λ z. AddUp a z c' s) k (subst (λ z. AddUp a b z s) l sums))

cloud_round-AddUp :
    (gross a b r fa fb : ℕ) (s : CloudSums)
    → gross + r + (b + fb) ≤ int_max
    → a + fa ≤ int_max
    → AddUp gross a b s
    → AddUp (gross + r) (a + fa) (b + fb) (cloud_round (pos r) (pos fa -ℤ pos fb) s)
unfolding cloud_round
cloud_round-AddUp gross a b r fa fb s h k (x, y, z) = (
  ap (λ g. add_int g (pos r)) x ∙ add_pos gross r (omega arith),
  ap (λ f. add_int f (pos fa -ℤ pos fb)) y ∙ add_difference a b fa fb k (omega arith),
  ap (λ n. add_int n (sub_int (pos r) (pos fa -ℤ pos fb))) z
      ∙ ap (add_int (pos (gross + b) -ℤ pos a)) (sub_difference r fa fb (omega arith) (omega arith))
      ∙ add_difference (gross + b) a (r + fb) fa (omega arith) k
      ∙ ap (λ n. pos n -ℤ pos (a + fa)) (omega arith),
)

cloud_rounds-AddUp :
    (n gross a b r fa fb : ℕ) (s : CloudSums)
    → gross + n * r + (b + n * fb) ≤ int_max
    → a + n * fa ≤ int_max
    → AddUp gross a b s
    → AddUp (gross + n * r) (a + n * fa) (b + n * fb) (cloud_rounds n (pos r) (pos fa -ℤ pos fb) s)
unfolding cloud_rounds
cloud_rounds-AddUp zero gross a b r fa fb s h k sums =
    AddUp-eq s (omega arith) (omega arith) (omega arith) sums
cloud_rounds-AddUp (suc n) gross a b r fa fb s h k sums =
    let s' = cloud_round (pos r) (pos fa -ℤ pos fb) s in
    AddUp-eq (cloud_rounds n (pos r) (pos fa -ℤ pos fb) s') (grind arith) (grind arith)
      (grind arith)
      (cloud_rounds-AddUp n (gross + r) (a + fa) (b + fb) r fa fb s' (grind arith) (grind arith)
        (cloud_round-AddUp gross a b r fa fb s (grind arith) (grind arith) sums))

times_reward : (n : ℕ) → n ≤ max_pending → mul_int mining_reward (pos n) ≡ pos (n * 20)
unfolding mul_int wrap32 ◌*ℤ◌
times_reward n h = ground arith

AddUp-of :
    (n gross a b : ℕ) {x : ℕ} {r f g : ℤ}
    → r ≡ pos x
    → f ≡ g
    → AddUp gross a b (cloud_rounds n (pos x) g no_rounds)
    → AddUp gross a b (cloud_rounds n r f no_rounds)
AddUp-of n gross a b h k sums = rw h (rw k sums)

as_difference : (f : ℤ) → f ≡ pos (pos_part f) -ℤ pos (neg_part f)
as_difference f = eq_of_parts f (pos (pos_part f) -ℤ pos (neg_part f)) (omega int_laws)

-- Where nothing overflows, cloud mining makes the reward of every pending block in each round and
-- owes both fees in each round, and the profit is the difference. The fees of a round may be negative,
-- and are then added to the profit.
pub cloud_sums-profit :
    (rounds blocks_to_mine : ℕ) (rental_fee maintenance_fee : ℤ)
    → blocks_to_mine ≤ max_pending
    → FitsInt (rental_fee +ℤ maintenance_fee)
    → rounds * pos_part (rental_fee +ℤ maintenance_fee) ≤ int_max
    → rounds * (blocks_to_mine * 20 + neg_part (rental_fee +ℤ maintenance_fee)) ≤ int_max
    → let fees = rental_fee +ℤ maintenance_fee in
      let s = cloud_sums rounds blocks_to_mine rental_fee maintenance_fee in
      (s.gross_earnings ≡ pos (rounds * (blocks_to_mine * 20)))
      × (s.total_fees ≡ pos (rounds * pos_part fees) -ℤ pos (rounds * neg_part fees))
      × (s.net_profit
          ≡ pos (rounds * (blocks_to_mine * 20 + neg_part fees)) -ℤ pos (rounds * pos_part fees))
unfolding cloud_sums ◌-ℤ◌
cloud_sums-profit rounds blocks rental maintenance k fits l m =
    let fees = rental +ℤ maintenance in
    let gross = blocks * 20 in
    let (x, y, z) =
      AddUp-of rounds (rounds * gross) (rounds * pos_part fees) (rounds * neg_part fees)
        (times_reward blocks k) (add_int_fits rental maintenance fits ∙ as_difference fees)
        (AddUp-eq
          (cloud_rounds rounds (pos gross) (pos (pos_part fees) -ℤ pos (neg_part fees)) no_rounds)
          (omega arith) (omega arith) (omega arith)
          (cloud_rounds-AddUp rounds 0 0 0 gross (pos_part fees) (neg_part fees) no_rounds
            (grind arith) (omega arith) (refl, refl, refl))) in
    (x, y, z ∙ ap (λ n. pos n -ℤ pos (rounds * pos_part fees)) (grind arith))
