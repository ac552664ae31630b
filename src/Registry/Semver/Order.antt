-- ===== src/Registry/Semver/Order.antt =====
-- `cmp` is a total order on versions.
use Prim.Native.Nat.{Ordering}
use fct.Base.{◌≡◌, true, false, arith, ◌↔◌}
use fct.Registry.Semver.{Semver, cmp, is_gt}

pub cmp-eq_iff : (a b : Semver) → (cmp a b ≡ Ordering.eq) ↔ (a ≡ b)
unfolding cmp
cmp-eq_iff a b = ground arith

-- Not above, twice.
pub not_gt_trans :
    (a b c : Semver) → is_gt (cmp a b) ≡ false → is_gt (cmp b c) ≡ false → is_gt (cmp a c) ≡ false
unfolding cmp
not_gt_trans a b c h k = ground arith

pub gt_not_gt : (a b : Semver) → is_gt (cmp a b) ≡ true → is_gt (cmp b a) ≡ false
unfolding cmp
gt_not_gt a b h = ground arith

pub not_gt_refl : (a : Semver) → is_gt (cmp a a) ≡ false
unfolding cmp
not_gt_refl a = ground arith
