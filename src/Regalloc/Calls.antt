-- ===== src/Regalloc/Calls.antt =====
-- Values that are live across a call.
use fyra.Prelude.{
  ℕ, ◌<◌, ◌≤◌, ◌≡◌, refl, arith, inl, inr, Bool, true, false, ◌&&◌, Option, none, some, List, [],
  ◌∷◌, ==_iff, Bool-cases, leb,
}
use fyra.Regalloc.Pools.{
  Pools, has, take_register, free_register, from_xmm, from_callee, from_caller, choose_register,
  is_none, erase,
}
use fyra.Regalloc.Counts.{one, count, count-append, count-take_register}

-- No register of a list is one of the first eight, the caller-saved ones.
abbrev pub High : List ℕ → Type 0
High xs = (q : ℕ) → q < 8 → count q xs ≡ 0

pub record HighPools (pools : Pools) : Type 0 where
  pub callee : High pools.callee
  pub xmm : High pools.xmm

take_register-High :
    (preferred : Option ℕ) (xs : List ℕ) {r : ℕ} {rest : List ℕ}
    → High xs
    → take_register preferred xs ≡ some (r, rest)
    → High rest × (8 ≤ r)
take_register-High preferred xs {r} {rest} high e = (
  λ q small. omega (arith, high q small, count-take_register preferred q xs e),
  elim (Bool-cases (leb 8 r)) [
    | inl large ↦ ground arith
    | inr small ↦
        let low : r < 8 = ground arith in
        let same : one r r ≡ 1 = ground (arith, ==_iff r r) in
        absurd (omega (arith, high r low, same, count-take_register preferred r xs e))
  ],
)

-- What the choice of a register leaves; for a value that crosses a call it is a high one.
abbrev pub HighChoice : Bool → ℕ → Pools → Type 0
HighChoice across r pools = HighPools pools × (across ≡ true → 8 ≤ r)

choose-xmm :
    (across : Bool) (preferred : Option ℕ) (pools : Pools) (o : Option (ℕ × List ℕ)) {r : ℕ}
    {after : Pools}
    → HighPools pools
    → take_register preferred pools.xmm ≡ o
    → from_xmm pools o ≡ some (r, after)
    → HighChoice across r after
choose-xmm across preferred pools none high e h = absurd (cc)
choose-xmm across preferred pools (some (q, rest)) {r} {after} high e h =
    let same : q ≡ r = cc in
    let left : record pools { xmm = rest } ≡ after = cc in
    let (rest_high, large) = take_register-High preferred pools.xmm high.xmm e in
    rw (← same, ← left) (record { callee = high.callee; xmm = rest_high }, λ crosses. large)

choose-callee :
    (across : Bool) (preferred : Option ℕ) (pools : Pools) (o : Option (ℕ × List ℕ)) {r : ℕ}
    {after : Pools}
    → HighPools pools
    → take_register preferred pools.callee ≡ o
    → from_callee pools o ≡ some (r, after)
    → HighChoice across r after
choose-callee across preferred pools none high e h = absurd (cc)
choose-callee across preferred pools (some (q, rest)) {r} {after} high e h =
    let same : q ≡ r = cc in
    let left : record pools { callee = rest } ≡ after = cc in
    let (rest_high, large) = take_register-High preferred pools.callee high.callee e in
    rw (← same, ← left) (record { callee = rest_high; xmm = high.xmm }, λ crosses. large)

choose-caller :
    (pools : Pools) (o : Option (ℕ × List ℕ)) {r : ℕ} {after : Pools}
    → HighPools pools
    → from_caller pools o ≡ some (r, after)
    → HighChoice false r after
choose-caller pools none high h = absurd (cc)
choose-caller pools (some (q, rest)) {r} {after} high h =
    let left : record pools { caller = rest } ≡ after = cc in
    rw (← left) (record { callee = high.callee; xmm = high.xmm }, λ crosses. absurd (cc))

pub choose_register-High :
    (is_vector across : Bool) (preferred : Option ℕ) (pools : Pools) {r : ℕ} {after : Pools}
    → HighPools pools
    → choose_register is_vector across preferred pools ≡ some (r, after)
    → HighChoice across r after
unfolding choose_register
choose_register-High true across preferred pools high h =
    choose-xmm across preferred pools _ high refl h
choose_register-High false true preferred pools high h =
    choose-callee true preferred pools _ high refl h
choose_register-High false false preferred pools {r} {after} high h =
    elim (Bool-cases (has 0 pools.caller)) [
      | inl scratch ↦
          let h' : some (0, record pools { caller = erase 0 pools.caller }) ≡ some (r, after) =
            rw scratch at h in
          choose-caller pools (some (0, erase 0 pools.caller)) high h'
      | inr taken ↦
          let callee = from_callee pools (take_register preferred pools.callee) in
          elim (Bool-cases (is_none callee)) [
            | inl empty ↦
                choose-caller pools (take_register preferred pools.caller) high
                  (rw (taken, empty) at h)
            | inr there ↦ choose-callee false preferred pools _ high refl (rw (taken, there) at h)
          ]
    ]

pub free_register-High :
    (r : ℕ) (pools : Pools) → HighPools pools → HighPools (free_register r pools)
unfolding free_register
free_register-High r pools high = elim (Bool-cases (leb 100 r && leb r 115)) [
  | inl wide ↦ rw wide (record {
    callee = high.callee;
    xmm =
        λ q small. ground (arith, high.xmm q small, count-append q pools.xmm (r ∷ []), ==_iff r q);
  })
  | inr narrow ↦ elim (Bool-cases (leb 8 r)) [
    | inl large ↦
        rw (narrow, large)
          (record {
            callee = λ q small.
                ground
                  (arith, high.callee q small, count-append q pools.callee (r ∷ []), ==_iff r q);
            xmm = high.xmm;
          })
    | inr low ↦ rw (narrow, low) (record { callee = high.callee; xmm = high.xmm })
  ]
]
