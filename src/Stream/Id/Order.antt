-- ===== src/Stream/Id/Order.antt =====
-- The order of the stream IDs, and the successor of an ID.
use kore.Base.{◌≤◌, ◌≡◌, ◌≢◌, true, false, arith}
use kore.Stream.Id.{StreamId, lt_id, eq_id, next_id, u64_max, max_id}

pub eq_id_iff_0 : (a b : StreamId) → eq_id a b ≡ true → a ≡ b
unfolding eq_id
eq_id_iff_0 a b h = ground arith

pub eq_id_refl : (a : StreamId) → eq_id a a ≡ true
unfolding eq_id
eq_id_refl a = ground arith

pub lt_id_irrefl : (a : StreamId) → lt_id a a ≡ false
unfolding lt_id
lt_id_irrefl a = ground arith

pub lt_id_trans : (a b c : StreamId) → lt_id a b ≡ true → lt_id b c ≡ true → lt_id a c ≡ true
unfolding lt_id
lt_id_trans a b c h k = ground arith

pub lt_id_asymm : (a b : StreamId) → lt_id a b ≡ true → lt_id b a ≡ false
unfolding lt_id
lt_id_asymm a b h = ground arith

pub lt_id_total : (a b : StreamId) → lt_id a b ≡ false → lt_id b a ≡ false → a ≡ b
unfolding lt_id
lt_id_total a b h k = ground arith

-- a ≤ b and b < c.
pub le-lt_id_trans : (a b c : StreamId) → lt_id b a ≡ false → lt_id b c ≡ true → lt_id a c ≡ true
unfolding lt_id
le-lt_id_trans a b c h k = ground arith

pub lt-le_id_trans : (a b c : StreamId) → lt_id a b ≡ true → lt_id c b ≡ false → lt_id a c ≡ true
unfolding lt_id
lt-le_id_trans a b c h k = ground arith

pub le_id_trans : (a b c : StreamId) → lt_id b a ≡ false → lt_id c b ≡ false → lt_id c a ≡ false
unfolding lt_id
le_id_trans a b c h k = ground arith

-- Both parts are 64-bit numbers.
pub record IsWord (id : StreamId) : Type 0 where
  pub ms_fits : id.ms ≤ u64_max
  pub seq_fits : id.seq ≤ u64_max

-- Of the 64-bit IDs, `next_id id` is the least one above `id`, unless `id` is the maximum.
pub next_id_least :
    (id k : StreamId)
    → IsWord id
    → IsWord k
    → id ≢ max_id
    → (lt_id id (next_id id) ≡ true)
      × IsWord (next_id id)
      × (lt_id id k ≡ true → lt_id k (next_id id) ≡ false)
unfolding lt_id next_id
next_id_least id k w v ne = (ground (arith), ground arith, λ h. ground arith)
