-- ===== src/Verify/Scopes.antt =====
-- src/transport/verify.rs: the walk of `scope_covers_resource` over the ancestors of a resource.
use bolina_rs.Prelude.{
  ℕ, zero, suc, ◌+◌, ◌-◌, ◌≤◌, ◌<◌, ◌≡◌, ◌⊎◌, ◌↔◌, refl, ap, Bool, true, false, length, get_or,
  take, ◌==◌, arith, Bool-cases, inl, inr,
}
use bolina_rs.Prelude.Bytes.{Bytes}
use bolina_rs.Codec.Messages.{Cert}
use bolina_rs.Verify.{back_to_slash, cert_carries_scope, covers_from, scope_covers_resource}

-- No slash stands between where the inner loop stops and where it began.
back_to_slash_le : (n : ℕ) (r : Bytes) → back_to_slash n r ≤ n
unfolding back_to_slash
back_to_slash_le zero r = omega arith
back_to_slash_le (suc n) r = ground (arith, back_to_slash_le n r)

back_to_slash_hit :
    (n : ℕ) (r : Bytes) → 0 < back_to_slash n r → get_or r (back_to_slash n r - 1) 0 ≡ 47
unfolding back_to_slash
back_to_slash_hit zero r h = absurd (omega (arith, h))
back_to_slash_hit (suc n) r h = elim (Bool-cases (get_or r n 0 == 47)) [
  | inl hit ↦ rw hit (ground (arith, hit))
  | inr miss ↦ rw miss (back_to_slash_hit n r (rw miss at h))
]

back_to_slash_first :
    (n : ℕ) (r : Bytes) (k : ℕ) → k < n → get_or r k 0 ≡ 47 → k < back_to_slash n r
unfolding back_to_slash
back_to_slash_first zero r k below h = absurd (omega (arith, below))
back_to_slash_first (suc n) r k below h = elim (Bool-cases (get_or r n 0 == 47)) [
  | inl hit ↦ rw hit below
  | inr miss ↦ rw miss (back_to_slash_first n r k (ground (arith, miss, h, below)) h)
]

-- The lengths of the ancestors of a resource: the whole of it, and what stands before each slash.
pub record IsAncestor (r : Bytes) (end k : ℕ) : Type 0 where
  pub some_bytes : 0 < k
  pub within : k ≤ end
  pub at_end : (k ≡ end) ⊎ (get_or r k 0 ≡ 47)

IsAncestor-further :
    {r : Bytes} (end k : ℕ)
    → 0 < back_to_slash end r
    → IsAncestor r (back_to_slash end r - 1) k
    → IsAncestor r end k
IsAncestor-further {r} end k slash a = record {
  some_bytes = a.some_bytes;
  within = omega (arith, a.within, back_to_slash_le end r);
  at_end = inr (elim a.at_end [ inl e ↦ rw e (back_to_slash_hit end r slash) | inr s ↦ s ]);
}

module _ (hash : Bytes → Bytes) (ed25519 : Bytes → Bytes → Bytes → Bool) (c : Cert)
    (r : Bytes) where
  abbrev carries : ℕ → Bool
  carries k = cert_carries_scope c (take 8 (hash (take k r)))

  covers_from_sound :
      (fuel end : ℕ)
      → covers_from hash ed25519 fuel c r end ≡ true
      → (k : ℕ) × IsAncestor r end k × (carries k ≡ true)
  unfolding covers_from
  covers_from_sound zero end h = absurd (cc (h))
  covers_from_sound (suc fuel) end h = elim (Bool-cases (end == 0)) [
    | inl none_left ↦ absurd (cc (rw none_left at h))
    | inr left ↦ elim (Bool-cases (carries end)) [
      | inl hit ↦ (
        end,
        record { some_bytes = ground (arith, left); within = omega arith; at_end = inl refl },
        hit,
      )
      | inr miss ↦ elim (Bool-cases (back_to_slash end r == 0)) [
        | inl first ↦ absurd (cc (rw (left, miss, first) at h))
        | inr slash ↦
            let (k, a, hit) =
              covers_from_sound fuel (back_to_slash end r - 1) (rw (left, miss, slash) at h) in
            (k, IsAncestor-further end k (ground (arith, slash)) a, hit)
      ]
    ]
  ]

  covers_from_complete :
      (fuel end k : ℕ)
      → end < fuel
      → IsAncestor r end k
      → carries k ≡ true
      → covers_from hash ed25519 fuel c r end ≡ true
  unfolding covers_from
  covers_from_complete zero end k enough a h = absurd (omega (arith, enough))
  covers_from_complete (suc fuel) end k enough a h = elim (Bool-cases (carries end)) [
    | inl hit ↦
        (let left : (end == 0) ≡ false = ground (arith, a.some_bytes, a.within) in
          rw (left, hit) refl)
    | inr miss ↦
        let left : (end == 0) ≡ false = ground (arith, a.some_bytes, a.within) in
        let slash_k : (k < end) × (get_or r k 0 ≡ 47) = elim a.at_end [
          | inl e ↦ absurd (cc (ap carries e, h, miss))
          | inr s ↦ elim (Bool-cases (k == end)) [
            | inl e ↦
                (let same : k ≡ end = ground (arith, e) in absurd (cc (ap carries same, h, miss)))
            | inr ne ↦ (ground (arith, ne, a.within), s)
          ]
        ] in
        let further = back_to_slash_first end r k slash_k.0 slash_k.1 in
        let slash : (back_to_slash end r == 0) ≡ false = ground (arith, further) in
        rw (left, miss, slash)
          (covers_from_complete fuel (back_to_slash end r - 1) k
            (omega (arith, back_to_slash_le end r, further, enough))
            (record {
              some_bytes = a.some_bytes;
              within = omega (arith, further);
              at_end = inr slash_k.1;
            })
            h)
  ]

  -- A certificate covers a resource exactly when it carries the scope of one of its ancestors, itself
  -- included: the first eight bytes of the hash of a prefix that is not empty and that a slash or the
  -- end of the resource follows. The walk over them comes to its end within the fuel that it is given.
  pub scope_covers_resource_exact : (scope_covers_resource hash ed25519 c r ≡ true) ↔ (
      (k : ℕ) × IsAncestor r (length r) k
      × (cert_carries_scope c (take 8 (hash (take k r))) ≡ true))
  unfolding scope_covers_resource
  scope_covers_resource_exact = (
    covers_from_sound (length r + 1) (length r),
    λ (k, a, hit). covers_from_complete (length r + 1) (length r) k (omega arith) a hit,
  )
