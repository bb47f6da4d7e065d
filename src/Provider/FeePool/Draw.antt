-- ===== src/Provider/FeePool/Draw.antt =====
-- `feePoolDraw`: what a depositor gets out of a pool, and the shares that it burns. The limit may be
-- negative, since it is the balance less the escrow.
use native.Mathlib.Nat.{
  div-mul-le_self, le-div_iff_mul-le, le_of_mul-le-mul_right, mul-le-mul_left, mul-le-mul_right,
  mul-div_right, zero-div, zero-mul,
}
use native.Mathlib.Decide.{dec_lt}
use vaas.Base.{
  ℕ, ◌+◌, ◌-◌, ◌*◌, ◌/◌, ◌≤◌, ◌<◌, ◌≡◌, not, ◌||◌, arith, ltb, if◌then◌else◌, ◌⊎◌, inl, inr, suc,
  subst, ap, sym, ◌∙◌,
}
use vaas.Base.Int.{ℤ, pos, pos_part, ltb_ℤ, leb_ℤ}

-- The shares to burn when the claim does not fit under the limit, with their tokens.
unfoldable pub partial_draw : ℕ → ℕ → ℕ → ℕ × ℕ
partial_draw total balance limit =
    let burned = limit * total / balance in
    if not (ltb 0 burned) then (0, 0) else (burned, burned * balance / total)

unfoldable pub fee_pool_draw : ℕ → ℕ → ℕ → ℤ → ℕ × ℕ
unfolding partial_draw
fee_pool_draw shares total balance limit =
    if not (ltb 0 shares)
      || (not (ltb 0 total) || (not (ltb 0 balance) || not (ltb_ℤ (pos 0) limit)))
    then (0, 0)
    else let claim = shares * balance / total in
      if leb_ℤ (pos claim) limit
      then (shares, claim)
      else partial_draw total balance (pos_part limit)

-- A draw takes nothing, the whole claim, or the part that the limit allows.
abbrev Draws : ℕ → ℕ → ℕ → ℤ → ℕ × ℕ → Type 0
Draws shares total balance limit d =
    (d ≡ (0, 0))
    ⊎ ((0 < total)
        × (0 < balance)
        × (shares * balance / total ≤ pos_part limit)
        × (d ≡ (shares, shares * balance / total)))
    ⊎ ((0 < total)
        × (0 < balance)
        × (pos_part limit < shares * balance / total)
        × (d ≡ (
          pos_part limit * total / balance,
          pos_part limit * total / balance * balance / total,
        )))

fee_pool_draw-Draws :
    (shares total balance : ℕ) (limit : ℤ)
    → Draws shares total balance limit (fee_pool_draw shares total balance limit)
unfolding fee_pool_draw
fee_pool_draw-Draws s t b limit = ground arith

-- A burn that does not fit the whole claim is at most the holding.
part-le : (s t b l : ℕ) → 0 < t → 0 < b → l < s * b / t → l * t / b ≤ s
part-le s t b l ht hb h =
    let p : suc l * t ≤ s * b = (le-div_iff_mul-le ht).0 h in
    let q : l * t / b * b ≤ l * t = div-mul-le_self (l * t) b in
    le_of_mul-le-mul_right {k = b} (grind arith) hb

-- What a draw takes: it burns at most the holding, pays at most the limit and the balance, and
-- pays at most the burned part of the balance.
unfoldable pub Bounds : ℕ → ℕ → ℕ → ℤ → ℕ × ℕ → Type 0
Bounds shares total balance limit (burned, tokens) =
    (burned ≤ shares)
    × (tokens ≤ pos_part limit)
    × (tokens ≤ balance)
    × (tokens * total ≤ burned * balance)

-- The tokens of a burn of at most the total are at most the balance.
tokens-le :
    (burned total balance : ℕ) → 0 < total → burned ≤ total → burned * balance / total ≤ balance
tokens-le burned t b ht h =
    let q : burned * b / t * t ≤ burned * b = div-mul-le_self (burned * b) t in
    le_of_mul-le-mul_right {k = t} (grind arith) ht

-- Nor more than the limit that the burn was computed from.
tokens-le-limit :
    (l total balance : ℕ) → 0 < total → 0 < balance → l * total / balance * balance / total ≤ l
tokens-le-limit l t b ht hb =
    let p : l * t / b * b ≤ l * t = div-mul-le_self (l * t) b in
    let q : l * t / b * b / t * t ≤ l * t / b * b = div-mul-le_self (l * t / b * b) t in
    le_of_mul-le-mul_right {k = t} (omega arith) ht

-- No draw pays more than its limit.
pub draw-le-limit :
    (shares total balance : ℕ) (limit : ℤ)
    → (fee_pool_draw shares total balance limit).1 ≤ pos_part limit
draw-le-limit s t b limit = elim (fee_pool_draw-Draws s t b limit) [
  | inl e ↦ rw e (omega arith)
  | inr (inl (ht, hb, fits, e)) ↦ rw e fits
  | inr (inr (ht, hb, over, e)) ↦ rw e (tokens-le-limit (pos_part limit) t b ht hb)
]

pub fee_pool_draw-Bounds :
    (shares total balance : ℕ) (limit : ℤ)
    → shares ≤ total
    → Bounds shares total balance limit (fee_pool_draw shares total balance limit)
unfolding Bounds
fee_pool_draw-Bounds s t b limit h = elim (fee_pool_draw-Draws s t b limit) [
  | inl e ↦ rw e (omega arith)
  | inr (inl (ht, hb, fits, e)) ↦
      rw e (omega arith, fits, tokens-le s t b ht h, div-mul-le_self (s * b) t)
  | inr (inr (ht, hb, over, e)) ↦
      let burn : pos_part limit * t / b ≤ s = part-le s t b (pos_part limit) ht hb over in
      rw e (
        burn,
        tokens-le-limit (pos_part limit) t b ht hb,
        tokens-le (pos_part limit * t / b) t b ht (omega arith),
        div-mul-le_self (pos_part limit * t / b * b) t,
      )
]

-- With `left` shares and `rest` tokens remaining, a whole number of tokens for each share of the
-- old pool is one of the new pool.
claim-le_parts :
    (other burned left tokens rest q : ℕ)
    → 0 < burned + left
    → tokens * (burned + left) ≤ burned * (tokens + rest)
    → q * (burned + left) ≤ other * (tokens + rest)
    → q * left ≤ other * rest
claim-le_parts o u l t r q some_shares fair hq =
    let cross : (t + r) * l ≤ r * (u + l) = omega arith in
    let scaled : o * ((t + r) * l) ≤ o * (r * (u + l)) = mul-le-mul_left o cross in
    let grown : q * (u + l) * l ≤ o * (t + r) * l = mul-le-mul_right l hq in
    le_of_mul-le-mul_right {k = u + l} (omega arith) some_shares

-- A fair draw leaves each other holding a claim at least as large.
claim-le :
    (other total balance burned tokens : ℕ)
    → burned < total
    → tokens ≤ balance
    → tokens * total ≤ burned * balance
    → other * balance / total ≤ other * (balance - tokens) / (total - burned)
claim-le o t b burned tokens lt ht fair =
    let q : o * b / t * t ≤ o * b = div-mul-le_self (o * b) t in
    let et : t ≡ burned + (t - burned) = omega arith in
    let eb : b ≡ tokens + (b - tokens) = omega arith in
    (le-div_iff_mul-le {k = t - burned} (omega arith)).1 (
      claim-le_parts o burned (t - burned) tokens (b - tokens) (o * b / t) (omega arith)
        (subst (λ x. tokens * x ≤ burned * (tokens + (b - tokens))) et
          (subst (λ x. tokens * t ≤ burned * x) eb fair))
        (subst (λ x. o * b / t * x ≤ o * (tokens + (b - tokens))) et
          (subst (λ x. o * b / t * t ≤ o * x) eb q)))

-- Whoever burns the last share takes the whole balance.
draw_last :
    (shares total balance : ℕ) (limit : ℤ)
    → 0 < total
    → shares ≤ total
    → (fee_pool_draw shares total balance limit).0 ≡ total
    → (fee_pool_draw shares total balance limit).1 ≡ balance
draw_last s t b limit pt h last = elim (fee_pool_draw-Draws s t b limit) [
  | inl e ↦ absurd (omega (arith, last, ap (λ (d : ℕ × ℕ). d.0) e))
  | inr (inl (ht, hb, fits, e)) ↦
      let all : s ≡ t = sym (ap (λ (d : ℕ × ℕ). d.0) e) ∙ last in
      ap (λ (d : ℕ × ℕ). d.1) e ∙ ap (λ (x : ℕ). x * b / t) all ∙ mul-div_right b ht
  | inr (inr (ht, hb, over, e)) ↦
      let all : pos_part limit * t / b ≡ t = sym (ap (λ (d : ℕ × ℕ). d.0) e) ∙ last in
      let l : ℕ = pos_part limit in
      let low : l * t / b * b ≤ l * t = div-mul-le_self (l * t) b in
      let high : suc l * t ≤ s * b = (le-div_iff_mul-le ht).0 over in
      let top : s * b ≤ t * b = mul-le-mul_right b h in
      absurd (omega (arith, ap (λ (x : ℕ). x * b) all))
]

-- Whatever is drawn, another depositor's claim on the pool does not fall.
pub draw_keeps_claims :
    (shares total balance : ℕ) (limit : ℤ) (other : ℕ)
    → shares + other ≤ total
    → let (burned, tokens) = fee_pool_draw shares total balance limit in
      other * balance / total ≤ other * (balance - tokens) / (total - burned)
unfolding Bounds
draw_keeps_claims s t b limit o h =
    let bs = fee_pool_draw-Bounds s t b limit (omega arith) in
    elim (dec_lt (fee_pool_draw s t b limit).0 t) [
      | yes some_left ↦ claim-le o t b _ _ some_left bs.2 bs.3
      | no none_left ↦
          let nobody : o ≡ 0 = omega (arith, bs.0) in
          rw (nobody, zero-mul b, zero-div t) (omega arith)
    ]
