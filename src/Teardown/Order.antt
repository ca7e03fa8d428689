-- ===== src/Teardown/Order.antt =====
-- The members of an object that can be used after their ends: those that some event uses, and that are
-- declared after the member which lets the event come, and those that the end of an earlier one uses.
use gemian_leds.Base.{
  ℕ, zero, suc, ◌-◌, ◌+◌, ◌≤◌, ◌<◌, ◌≡◌, ◌↔◌, ◌⊎◌, inl, inr, refl, subst, sym, List, [], ◌∷◌, ◌++◌,
  arith, ltb, not-ltb, Bool-cases,
}
use gemian_leds.Teardown.Objects.{
  Object, Ending, ended_of, whole, member_ends, dispatches, EndReach, at_start, and_then,
}

module _ {M : Type 0} where
  abbrev pub In : M → List M → Type 0
  In m [] = ⊥
  In m (k ∷ ks) = (k ≡ m) ⊎ In m ks

  In-append : (m : M) (ks ls : List M) → In m (ks ++ ls) → In m ks ⊎ In m ls
  In-append m [] ls h = inr h
  In-append m (k ∷ ks) ls (inl e) = inl (inl e)
  In-append m (k ∷ ks) ls (inr h) = elim (In-append m ks ls h) [
    | inl a ↦ inl (inr a)
    | inr b ↦ inr b
  ]

  In-append_right : (m : M) (ks ls : List M) → In m ls → In m (ks ++ ls)
  In-append_right m [] ls h = h
  In-append_right m (k ∷ ks) ls h = inr (In-append_right m ks ls h)

module _ {E M : Type 0} (o : Object E M) where
  -- An event uses the member, which ends before the event can no longer come; or the end of a member
  -- that is declared before uses it.
  abbrev pub Outlived : M → Type 0
  Outlived m =
      ((e : E) × In m (o.uses e) × (o.place (o.needs e) < o.place m))
      ⊎ ((k : M) × In m (o.end_uses k) × (o.place k < o.place m))

  abbrev pub Misused : M → Type 0
  Misused m = (s : Ending M) × EndReach o (whole o) s × In m s.used_ended

  In-ended_of :
      (m : M) (left : ℕ) (ms : List M) → In m (ended_of o left ms) → In m ms × (left ≤ o.place m)
  In-ended_of m left [] h = absurd h
  In-ended_of m left (k ∷ ks) h = elim (Bool-cases (ltb (o.place k) left)) [
    | inl e ↦ let (a, b) = In-ended_of m left ks (rw e at h) in (inr a, b)
    | inr e ↦ elim (let g : (k ≡ m) ⊎ In m (ended_of o left ks) = rw e at h in g) [
      | inl p ↦ (inl p, subst (λ j. left ≤ o.place j) p (ground arith))
      | inr q ↦ let (a, b) = In-ended_of m left ks q in (inr a, b)
    ]
  ]

  ended_of-In :
      (m : M) (left : ℕ) (ms : List M) → In m ms → left ≤ o.place m → In m (ended_of o left ms)
  ended_of-In m left [] used h = absurd used
  ended_of-In m left (k ∷ ks) (inl p) h =
      rw (not-ltb (o.place k) left (subst (λ j. left ≤ o.place j) (sym p) h)) (inl p)
  ended_of-In m left (k ∷ ks) (inr q) h = elim (Bool-cases (ltb (o.place k) left)) [
    | inl e ↦ rw e (ended_of-In m left ks q h)
    | inr e ↦ rw e (inr (ended_of-In m left ks q h))
  ]

  Outlived-used : (m : M) {s : Ending M} → EndReach o (whole o) s → In m s.used_ended → Outlived m
  Outlived-used m at_start h = absurd h
  Outlived-used m (and_then {t} r (member_ends n e k)) h =
      elim (In-append m t.used_ended _ (subst (λ (s : Ending M). In m s.used_ended) k h)) [
        | inl a ↦ Outlived-used m r a
        | inr b ↦
            let (used, late) = In-ended_of m t.left (o.end_uses n) b in inr (n, used, omega arith)
      ]
  Outlived-used m (and_then {t} r (dispatches e lives k)) h =
      elim (In-append m t.used_ended _ (subst (λ (s : Ending M). In m s.used_ended) k h)) [
        | inl a ↦ Outlived-used m r a
        | inr b ↦ let (used, late) = In-ended_of m t.left (o.uses e) b in inl (e, used, omega arith)
      ]

  -- Each place before the last one has its member.
  module _ (at : (n : ℕ) → n < o.count → (m : M) × (o.place m ≡ n)) where
    -- The members end until `n` of them are left.
    ends_to :
        (n k : ℕ) {s : Ending M}
        → EndReach o (whole o) s
        → s.left ≡ k + n
        → k + n ≤ o.count
        → (t : Ending M) × EndReach o (whole o) t × (t.left ≡ n)
    ends_to n zero {s} r e h = (s, r, omega arith)
    ends_to n (suc k) r e h =
        let (m, p) = at (k + n) (omega arith) in
        ends_to n k (and_then r (member_ends m (omega arith) refl)) p (omega arith)

    left_with : (n : ℕ) → n ≤ o.count → (t : Ending M) × EndReach o (whole o) t × (t.left ≡ n)
    left_with n h = ends_to n (o.count - n) at_start (omega arith) (omega arith)

    misuse : (m : M) → o.place m < o.count → Outlived m → Misused m
    misuse m h (inl (e, used, late)) =
        let (t, r, left) = left_with (o.place (o.needs e) + 1) (omega arith) in
        (
          record t { used_ended = t.used_ended ++ ended_of o t.left (o.uses e) },
          and_then r (dispatches e (omega arith) refl),
          In-append_right m t.used_ended _ (ended_of-In m t.left (o.uses e) used (omega arith)),
        )
    misuse m h (inr (k, used, late)) =
        let (t, r, left) = left_with (o.place k + 1) (omega arith) in
        (
          record t {
            left = o.place k;
            used_ended = t.used_ended ++ ended_of o t.left (o.end_uses k);
          },
          and_then r (member_ends k (omega arith) refl),
          In-append_right m t.used_ended _ (ended_of-In m t.left (o.end_uses k) used (omega arith)),
        )

    -- A member can be used after its end just if an event uses it that still comes then, or the end of
    -- an earlier member uses it.
    pub Misused-iff : (m : M) → o.place m < o.count → Misused m ↔ Outlived m
    Misused-iff m h = (λ (s, r, used). Outlived-used m r used, misuse m h)
