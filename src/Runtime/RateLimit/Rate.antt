-- ===== src/Runtime/RateLimit/Rate.antt =====
-- How many requests of one client a token bucket lets through.
use native.Mathlib.Nat.{add-mul}
use fct.Base.{
  ℕ, suc, ◌+◌, ◌-◌, ◌*◌, ◌≤◌, ◌≡◌, refl, sym, ap, ◌∙◌, subst, inl, inr, Bool, true, false, List, [],
  ◌∷◌, ltb, if◌then◌else◌, arith, Bool-cases,
}
use fct.Runtime.RateLimit.{Bucket, refilled, meter, scale}

-- The bucket after requests at the given times, and how many of them passed.
abbrev counted_in : Bool → ℕ → ℕ
counted_in true n = suc n
counted_in false n = n

unfoldable pub meter_all : ℕ → ℕ → Bucket → List ℕ → Bucket × ℕ
meter_all burst per_minute b [] = (b, 0)
meter_all burst per_minute b (now ∷ ts) =
    let met = meter burst per_minute now b in
    let rest = meter_all burst per_minute met.0 ts in (rest.0, counted_in met.1 rest.1)

-- Times in order, from one time on.
abbrev pub IsOrdered : ℕ → List ℕ → ℕ → Type 0
IsOrdered t [] end = t ≤ end
IsOrdered t (u ∷ ts) end = (t ≤ u) × IsOrdered u ts end

-- One request takes out of the bucket no more than was there or flowed in.
drain : (tokens room : ℕ) → tokens ≤ room → ltb tokens scale ≡ false → tokens - scale + scale ≤ room
drain tokens room h e = ground arith

record Costs (burst per_minute now : ℕ) (b : Bucket) (met : Bucket × Bool) : Type 0 where
  tokens : met.0.tokens + counted_in met.1 0 * scale ≤ b.tokens + (now - b.last) * per_minute
  last : met.0.last ≡ now
  full : met.0.tokens ≤ burst * scale

refilled-le :
    (burst per_minute now : ℕ) (b : Bucket)
    → (refilled burst per_minute now b ≤ b.tokens + (now - b.last) * per_minute)
      × (refilled burst per_minute now b ≤ burst * scale)
unfolding refilled
refilled-le burst per_minute now b = capped (b.tokens + (now - b.last) * per_minute) (burst * scale)
  where
    capped : (x c : ℕ) → ((if ltb c x then c else x) ≤ x) × ((if ltb c x then c else x) ≤ c)
    capped x c = (ground arith, ground arith)

meter-Costs :
    (burst per_minute now : ℕ) (b : Bucket)
    → Costs burst per_minute now b (meter burst per_minute now b)
unfolding meter
meter-Costs burst per_minute now b =
    let le = refilled-le burst per_minute now b in
    by_tokens (refilled burst per_minute now b) le.0 le.1
  where
    by_tokens :
        (t : ℕ)
        → t ≤ b.tokens + (now - b.last) * per_minute
        → t ≤ burst * scale
        → Costs burst per_minute now b (
            if ltb t scale
            then (record { tokens = t; last = now }, false)
            else (record { tokens = t - scale; last = now }, true))
    by_tokens t h k = elim (Bool-cases (ltb t scale)) [
      | inl e ↦ rw e (record { tokens = omega (arith, h); last = refl; full = k })
      | inr e ↦ rw e (record {
        tokens = omega (arith, h, drain t (b.tokens + (now - b.last) * per_minute) h e);
        last = refl;
        full = omega (arith, k);
      })
    ]

split-time : (a b c p : ℕ) → a ≤ b → b ≤ c → (b - a) * p + (c - b) * p ≡ (c - a) * p
split-time a b c p h k = sym (add-mul (b - a) (c - b) p) ∙ ap (λ d. d * p) (omega (arith, h, k))

ordered-le : (t : ℕ) (ts : List ℕ) (end : ℕ) → IsOrdered t ts end → t ≤ end
ordered-le t [] end h = h
ordered-le t (u ∷ ts) end h = omega (arith, h.0, ordered-le u ts end h.1)

-- What the first request costs and what the others cost.
add_up :
    (passed : Bool) (n after before flow later all_flow : ℕ)
    → after + counted_in passed 0 * scale ≤ before + flow
    → n * scale ≤ after + later
    → flow + later ≡ all_flow
    → counted_in passed n * scale ≤ before + all_flow
add_up true n after before flow later all_flow h k e = omega (arith, h, k, e)
add_up false n after before flow later all_flow h k e = omega (arith, h, k, e)

-- Of the requests that a client makes in order from the bucket's last use until `end`, those that
-- pass cost no more tokens than the bucket held and than flowed in at `per_minute` since.
pub meter_all-bounded :
    (burst per_minute end : ℕ) (b : Bucket) (ts : List ℕ)
    → IsOrdered b.last ts end
    → (meter_all burst per_minute b ts).1 * scale ≤ b.tokens + (end - b.last) * per_minute
unfolding meter_all
meter_all-bounded burst per_minute end b [] h = omega arith
meter_all-bounded burst per_minute end b (now ∷ ts) h =
    let met = meter burst per_minute now b in
    let c = meter-Costs burst per_minute now b in
    let rest =
      meter_all-bounded burst per_minute end met.0 ts
        (subst (λ t. IsOrdered t ts end) (sym c.last) h.1) in
    let gone = split-time b.last now end per_minute h.0 (ordered-le now ts end h.1) in
    add_up met.1 (meter_all burst per_minute met.0 ts).1 met.0.tokens (b.tokens)
      ((now - b.last) * per_minute) ((end - now) * per_minute) ((end - b.last) * per_minute)
      c.tokens
      (subst
        (λ t.
          (meter_all burst per_minute met.0 ts).1 * scale ≤ met.0.tokens + (end - t) * per_minute)
        c.last rest)
      gone

-- A bucket never holds more than the burst.
pub meter-full :
    (burst per_minute now : ℕ) (b : Bucket)
    → (meter burst per_minute now b).0.tokens ≤ burst * scale
meter-full burst per_minute now b = (meter-Costs burst per_minute now b).full
