-- ===== src/Tournament/Roles.antt =====
-- The roles that `mergeRoles` and `revokeStaff` leave.
use tournament_hub.Common.{
  ◌≤◌, ◌≡◌, refl, ap, ◌∙◌, sym, subst, inl, inr, Bool, true, false, not, ◌&&◌, ◌||◌, List, [], ◌∷◌,
  arith, ltb, ◌==◌, ==_iff, Bool-cases, any, any-append, filter, count_if, count_if-append, length,
}
use tournament_hub.Tournament.{
  ParticipantRole, unknown, staff, role_code, same_role, add_role, add_roles, or_unknown,
  merge_roles, revoked,
}

abbrev pub has_role : ParticipantRole → List ParticipantRole → Bool
has_role r roles = any (same_role r) roles

-- A participant has a role, none twice, and `unknown` only alone.
pub record IsRoles (roles : List ParticipantRole) : Type 0 where
  pub some_role : 1 ≤ length roles
  pub once : (r : ParticipantRole) → count_if (same_role r) roles ≤ 1
  pub alone : (has_role unknown roles && ltb 1 (length roles)) ≡ false

-- Roles on the way: none twice, and `unknown` not among them.
record IsKnown (roles : List ParticipantRole) : Type 0 where
  once : (r : ParticipantRole) → count_if (same_role r) roles ≤ 1
  known : has_role unknown roles ≡ false

count_if-has_role :
    (r : ParticipantRole) (roles : List ParticipantRole)
    → has_role r roles ≡ false
    → count_if (same_role r) roles ≡ 0
count_if-has_role r [] h = refl
count_if-has_role r (x ∷ roles) h = ground (arith, h, count_if-has_role r roles)

add_role-IsKnown :
    (roles : List ParticipantRole) (r : ParticipantRole)
    → same_role unknown r ≡ false
    → IsKnown roles
    → IsKnown (add_role roles r)
add_role-IsKnown roles r h k = elim (Bool-cases (any (same_role r) roles)) [
  | inl e ↦ rw e k
  | inr e ↦ rw e (record {
    once = λ x.
        let split = count_if-append (same_role x) roles (r ∷ []) in
        elim (Bool-cases (same_role x r)) [
          | inl same ↦
              let codes = (==_iff (role_code x) (role_code r)).0 same in
              let absent : count_if (same_role x) roles ≡ 0 =
                ap (λ c. count_if (λ y. c == role_code y) roles) codes
                ∙ count_if-has_role r roles e in
              ground (arith, split, same, absent)
          | inr other ↦ ground (arith, split, other, k.once x)
        ];
    known = ground (arith, any-append (same_role unknown) roles (r ∷ []), k.known, h);
  })
]

add_roles-IsKnown :
    (roles incoming : List ParticipantRole)
    → has_role unknown incoming ≡ false
    → IsKnown roles
    → IsKnown (add_roles roles incoming)
unfolding add_roles
add_roles-IsKnown roles [] h k = k
add_roles-IsKnown roles (r ∷ incoming) h k =
    add_roles-IsKnown (add_role roles r) incoming (ground (arith, h))
      (add_role-IsKnown roles r (ground (arith, h)) k)

or_unknown-IsRoles : (roles : List ParticipantRole) → IsKnown roles → IsRoles (or_unknown roles)
or_unknown-IsRoles [] k = record { some_role = omega arith; once = λ r. ground arith; alone = refl }
or_unknown-IsRoles (x ∷ roles) k = record {
  some_role = omega arith;
  once = k.once;
  alone = ground (arith, k.known);
}

not_unknown :
    (roles : List ParticipantRole)
    → has_role unknown (filter (λ r. not (same_role unknown r)) roles) ≡ false
not_unknown [] = refl
not_unknown (r ∷ roles) = ground (arith, not_unknown roles)

pub merge_roles-IsRoles :
    (existing incoming : List ParticipantRole)
    → has_role unknown incoming ≡ false
    → IsRoles (merge_roles existing incoming)
unfolding merge_roles
merge_roles-IsRoles existing incoming h = or_unknown-IsRoles _ (
    add_roles-IsKnown _ incoming h (
      add_roles-IsKnown [] (filter (λ r. not (same_role unknown r)) existing) (not_unknown existing)
        (record { once = λ r. omega arith; known = refl })))

has_role-add_roles :
    (roles incoming : List ParticipantRole) (r : ParticipantRole)
    → (has_role r roles || has_role r incoming) ≡ true
    → has_role r (add_roles roles incoming) ≡ true
unfolding add_roles
has_role-add_roles roles [] r h = ground (arith, h)
has_role-add_roles roles (x ∷ incoming) r h =
    has_role-add_roles (add_role roles x) incoming r (elim (Bool-cases (any (same_role x) roles)) [
      | inl e ↦ elim (Bool-cases (same_role r x)) [
        | inl same ↦
            let codes = (==_iff (role_code r) (role_code x)).0 same in
            let there : any (same_role r) roles ≡ true =
              ap (λ c. any (λ y. c == role_code y) roles) codes ∙ e in
            ground (arith, e, there)
        | inr other ↦ ground (arith, e, other, h)
      ]
      | inr e ↦ ground (arith, e, h, any-append (same_role r) roles (x ∷ []))
    ])

has_role-or_unknown :
    (r : ParticipantRole) (roles : List ParticipantRole)
    → has_role r roles ≡ true
    → has_role r (or_unknown roles) ≡ true
has_role-or_unknown r [] h = cc
has_role-or_unknown r (x ∷ roles) h = h

has_role-known :
    (r : ParticipantRole) (roles : List ParticipantRole)
    → same_role unknown r ≡ false
    → has_role r roles ≡ true
    → has_role r (filter (λ x. not (same_role unknown x)) roles) ≡ true
has_role-known r [] k h = cc
has_role-known r (x ∷ roles) k h = elim (Bool-cases (same_role r x)) [
  | inl same ↦
      let codes = (==_iff (role_code r) (role_code x)).0 same in
      let known : same_role unknown x ≡ false = ap (λ c. role_code unknown == c) (sym codes) ∙ k in
      ground (arith, known, same)
  | inr other ↦ ground (arith, other, has_role-known r roles k (ground (arith, h, other)))
]

-- Merging loses no role but `unknown`.
pub merge_roles-has_role :
    (existing incoming : List ParticipantRole) (r : ParticipantRole)
    → same_role unknown r ≡ false
    → (has_role r existing || has_role r incoming) ≡ true
    → has_role r (merge_roles existing incoming) ≡ true
unfolding merge_roles
merge_roles-has_role existing incoming r k h =
    let kept = filter (λ x. not (same_role unknown x)) existing in
    has_role-or_unknown r (add_roles (add_roles [] kept) incoming) (
      has_role-add_roles (add_roles [] kept) incoming r (elim (Bool-cases (has_role r existing)) [
        | inl e ↦
            let base = has_role-add_roles [] kept r (has_role-known r existing k e) in
            ground (arith, base)
        | inr e ↦ ground (arith, h, e)
      ]))

count_if-filter_staff :
    (r : ParticipantRole) (roles : List ParticipantRole)
    → count_if (same_role r) (filter (λ x. not (same_role staff x)) roles)
      ≤ count_if (same_role r) roles
count_if-filter_staff r [] = omega arith
count_if-filter_staff r (x ∷ roles) = ground (arith, count_if-filter_staff r roles)

length-filter_staff :
    (roles : List ParticipantRole)
    → length (filter (λ x. not (same_role staff x)) roles) ≤ length roles
length-filter_staff [] = omega arith
length-filter_staff (x ∷ roles) = ground (arith, length-filter_staff roles)

has_role-filter_staff :
    (r : ParticipantRole) (roles : List ParticipantRole)
    → has_role r roles ≡ false
    → has_role r (filter (λ x. not (same_role staff x)) roles) ≡ false
has_role-filter_staff r [] h = refl
has_role-filter_staff r (x ∷ roles) h = ground (arith, h, has_role-filter_staff r roles)

or_unknown-kept :
    (roles : List ParticipantRole) → ltb 0 (length roles) ≡ true → or_unknown roles ≡ roles
or_unknown-kept [] h = cc
or_unknown-kept (x ∷ roles) h = refl

or_unknown-empty :
    (roles : List ParticipantRole) → ltb 0 (length roles) ≡ false → or_unknown roles ≡ unknown ∷ []
or_unknown-empty [] h = refl
or_unknown-empty (x ∷ roles) h = absurd (ground (arith, h))

unknown-IsRoles : IsRoles (unknown ∷ [])
unknown-IsRoles = record { some_role = omega arith; once = λ r. ground arith; alone = refl }

pub revoked-IsRoles : (roles : List ParticipantRole) → IsRoles roles → IsRoles (revoked roles)
revoked-IsRoles roles k =
    let left = filter (λ x. not (same_role staff x)) roles in
    elim (Bool-cases (ltb 0 (length left))) [
      | inr e ↦ subst IsRoles (sym (or_unknown-empty left e)) unknown-IsRoles
      | inl e ↦ subst IsRoles (sym (or_unknown-kept left e)) (record {
        some_role = ground (arith, e);
        once = λ r. omega (arith, k.once r, count_if-filter_staff r roles);
        alone = elim (Bool-cases (has_role unknown roles)) [
          | inl u ↦ ground (arith, k.alone, u, length-filter_staff roles)
          | inr u ↦ ground (arith, has_role-filter_staff unknown roles u)
        ];
      })
    ]
