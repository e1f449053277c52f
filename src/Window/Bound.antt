-- ===== src/Window/Bound.antt =====
-- However the calls are spaced, an interval shorter than the window has at most the limit.
use vaultproxy.Prelude.{
  ℕ, ◌+◌, ◌-◌, ◌≤◌, ◌<◌, ◌≡◌, refl, List, [], ◌∷◌, ◌++◌, arith, if◌then◌else◌, leb, ltb, length,
  Bool-cases, inl, inr,
}
use vaultproxy.Window.{prune, check_and_record}

-- The recorded instants from `from` on.
unfoldable pub since : ℕ → List ℕ → ℕ
since from [] = 0
since from (t ∷ ts) = (if leb from t then 1 else 0) + since from ts

pub since-le-length : (from : ℕ) (ts : List ℕ) → since from ts ≤ length ts
unfolding since
since-le-length from [] = omega arith
since-le-length from (t ∷ ts) = ground (arith, since-le-length from ts)

pub since-append :
    (from : ℕ) (ts us : List ℕ) → since from (ts ++ us) ≡ since from ts + since from us
unfolding since
since-append from [] us = omega arith
since-append from (t ∷ ts) us = ground (arith, since-append from ts us)

-- Within an interval shorter than the window nothing that was recorded in it is pruned.
pub since-prune :
    (from window now : ℕ) (ts : List ℕ)
    → from ≤ now
    → now < from + window
    → since from (prune window now ts) ≡ since from ts
unfolding since prune
since-prune from window now [] b h = refl
since-prune from window now (t ∷ ts) b h = elim (Bool-cases (ltb (now - t) window)) [
  | inl recent ↦ rw (recent, since) (omega (arith, since-prune from window now ts b h))
  | inr old ↦ rw (old, since) (ground (arith, since-prune from window now ts b h))
]

-- The calls at the given instants that are let through.
unfoldable pub allowed : ℕ → ℕ → List ℕ → List ℕ → ℕ
allowed max window ts [] = 0
allowed max window ts (now ∷ nows) =
    let (ts', answer) = check_and_record max window ts now in
    (if answer then 1 else 0) + allowed max window ts' nows

abbrev pub Within : ℕ → ℕ → List ℕ → Type 0
Within from window [] = Unit
Within from window (now ∷ nows) = (from ≤ now) × (now < from + window) × Within from window nows

record_step :
    (max window from now : ℕ) (ts : List ℕ)
    → from ≤ now
    → now < from + window
    → since from ts ≤ max
    → (since from (check_and_record max window ts now).0
        ≡ since from ts + (if (check_and_record max window ts now).1 then 1 else 0))
      × (since from (check_and_record max window ts now).0 ≤ max)
unfolding check_and_record
record_step max window from now ts b h k =
    let kept = since-prune from window now ts b h in
    let le = since-le-length from (prune window now ts) in
    let more = since-append from (prune window now ts) (now ∷ []) in
    let one : since from (now ∷ []) ≡ 1 = unfold since in ground arith in ground arith

pub allowed-since-le :
    (max window from : ℕ) (ts nows : List ℕ)
    → Within from window nows
    → since from ts ≤ max
    → allowed max window ts nows + since from ts ≤ max
unfolding allowed
allowed-since-le max window from ts [] w k = omega arith
allowed-since-le max window from ts (now ∷ nows) (b, h, w) k =
    let (more, le) = record_step max window from now ts b h k in
    let rest = allowed-since-le max window from (check_and_record max window ts now).0 nows w le in
    omega (arith, more, rest)
