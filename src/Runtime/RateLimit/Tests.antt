-- ===== src/Runtime/RateLimit/Tests.antt =====
-- Five failures, a flood, and a proxy's header.
use fct.Base.{◌+◌, ◌-◌, ◌*◌, ◌≤◌, ◌≡◌, ◌&&◌, refl, [], ◌∷◌, leb, ltb, lookup, arith}
use fct.Base.Text.{codes, cut_at, trim, trim_left, trim_right}
use fct.Runtime.RateLimit.{
  second, scale, Bucket, new_lockout, locked, meter, refilled, forwarded_ip, trim_space_ascii,
}
use fct.Runtime.RateLimit.Lock.{fail_all, last_of, fail_all-locked}
use fct.Runtime.RateLimit.Rate.{meter_all, meter_all-bounded}

abbrev two_left : Bucket
two_left = record { tokens = 2 * scale; last = 0 }

flood : (meter_all 10 60 two_left (0 ∷ 0 ∷ 0 ∷ 1000000000 ∷ [])).1 ≡ 3
unfolding meter_all meter refilled
flood = refl

proxied : forwarded_ip (codes " 10.0.0.1 , 10.0.0.2") ≡ codes "10.0.0.1"
unfolding forwarded_ip trim_space_ascii trim cut_at trim_left trim_right
proxied = refl

fail_all-locked_example :
    locked 300 "ada" (fail_all "ada" (1 ∷ 2 ∷ 3 ∷ 4 ∷ 5 ∷ []) new_lockout)
    ≡ (leb 5 5 && ltb 300 (5 + 900 * second))
unfolding new_lockout last_of lookup
fail_all-locked_example =
    fail_all-locked "ada" 1 (2 ∷ 3 ∷ 4 ∷ 5 ∷ []) new_lockout 300 refl
      (ground arith, (ground arith, (ground arith, (ground arith, tt))))

meter_all-bounded_example :
    (meter_all 10 60 two_left (0 ∷ 5 ∷ [])).1 * scale ≤ 2 * scale + (7 - 0) * 60
meter_all-bounded_example =
    meter_all-bounded 10 60 7 two_left (0 ∷ 5 ∷ []) (ground arith, (ground arith, ground arith))
