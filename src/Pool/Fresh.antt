-- ===== src/Pool/Fresh.antt =====
-- The search of `nextIdentifier` for a name that no pool of the phase has.
use tournament_hub.Common.{
  ℕ, zero, suc, ◌≢◌, ◌++◌, subst, false, Option, none, or_else, any-append, ==_self, if◌then◌else◌,
  All, ◌≤◌, ◌<◌, ◌≡◌, refl, ap, ◌∙◌, sym, inl, inr, true, false, List, [], ◌∷◌, some, arith, ==_iff,
  leb, Bool-cases, any, count_if, count_if-le-length, length,
}
use tournament_hub.Common.Text.{trim}
use tournament_hub.Pool.{PhaseGroup}
use tournament_hub.Pool.Identifier.{
  is_empty, when_given, same_text, numbered, default_identifier, taken_identifiers, first_free,
  next_identifier,
}
use tournament_hub.Pool.Decimal.{number_of, number_of-numbered}

same_text→≡ : (s t : List ℕ) → same_text s t ≡ true → s ≡ t
unfolding same_text
same_text→≡ [] [] h = refl
same_text→≡ [] (c ∷ t) h = cc
same_text→≡ (c ∷ s) [] h = cc
same_text→≡ (c ∷ s) (d ∷ t) h =
    let head : c ≡ d = (==_iff c d).0 (ground (arith, h)) in
    let tail = same_text→≡ s t (ground (arith, h)) in cc (head, tail)

-- How many names stand for a number that is not below `n`.
abbrev beyond : ℕ → List (List ℕ) → ℕ
beyond n taken = count_if (λ text. leb n (number_of text)) taken

beyond-suc-le : (n : ℕ) (taken : List (List ℕ)) → beyond (suc n) taken ≤ beyond n taken
beyond-suc-le n [] = omega arith
beyond-suc-le n (text ∷ taken) = ground (arith, beyond-suc-le n taken)

beyond-suc-lt :
    (n : ℕ) (taken : List (List ℕ))
    → any (same_text (numbered n)) taken ≡ true
    → beyond (suc n) taken < beyond n taken
beyond-suc-lt n [] h = cc
beyond-suc-lt n (text ∷ taken) h = elim (Bool-cases (same_text (numbered n) text)) [
  | inl same ↦
      let number : number_of text ≡ n =
        sym (ap number_of (same_text→≡ (numbered n) text same)) ∙ number_of-numbered n in
      ground (arith, number, beyond-suc-le n taken)
  | inr other ↦ ground (arith, beyond-suc-lt n taken (ground (arith, h, other)))
]

first_free_total :
    (fuel number : ℕ) (taken : List (List ℕ))
    → beyond number taken < fuel
    → (k : ℕ) × (first_free fuel taken number ≡ some k)
      × (number ≤ k)
      × (any (same_text (numbered k)) taken ≡ false)
unfolding first_free
first_free_total zero number taken h = elim h [ ]
first_free_total (suc fuel) number taken h =
    elim (Bool-cases (any (same_text (numbered number)) taken)) [
      | inr free ↦ (number, ground (arith, free), omega arith, free)
      | inl used ↦
          let (k, run, le, free) =
            first_free_total fuel (suc number) taken
              (omega (arith, h, beyond-suc-lt number taken used)) in
          (k, ground (arith, used, run), omega (arith, le), free)
    ]

same_text_self : (s : List ℕ) → same_text s s ≡ true
unfolding same_text
same_text_self [] = refl
same_text_self (c ∷ s) = ground (arith, ==_self c, same_text_self s)

not_kept :
    (text kept : List ℕ)
    → is_empty text ≡ false
    → any (same_text text) (if is_empty kept then [] else kept ∷ []) ≡ false
    → text ≢ kept
not_kept text [] full h = λ e. cc (ap is_empty e, full)
not_kept text (c ∷ kept) full h = λ e.
    let same : same_text text (c ∷ kept) ≡ true =
      subst (λ t. same_text text t ≡ true) e (same_text_self text) in
    ground (arith, h, same)

-- The name of no pool, nor the identifier shown for one, each without the blanks around it.
abbrev pub IsFresh : List ℕ → List PhaseGroup → Type 0
IsFresh text = All (λ (pool : PhaseGroup).
    (text ≢ trim pool.name) × (text ≢ trim (or_else pool.display_identifier [])))

not_given :
    (text : List ℕ) (o : Option (List ℕ))
    → is_empty text ≡ false
    → any (same_text text) (when_given o) ≡ false
    → text ≢ trim (or_else o [])
unfolding trim
not_given text none full h = λ e. cc (ap is_empty e, full)
not_given text (some t) full h = not_kept text (trim t) full h

taken_identifiers-IsFresh :
    (text : List ℕ) (pools : List PhaseGroup)
    → is_empty text ≡ false
    → any (same_text text) (taken_identifiers pools) ≡ false
    → IsFresh text pools
unfolding taken_identifiers
taken_identifiers-IsFresh text [] full h = tt
taken_identifiers-IsFresh text (pool ∷ pools) full h =
    let shown = when_given pool.display_identifier in
    let named = when_given (some pool.name) in
    let split = any-append (same_text text) (shown ++ named) (taken_identifiers pools) in
    let within = any-append (same_text text) shown named in
    (
      (
        not_kept text (trim pool.name) full (ground (arith, h, split, within)),
        not_given text pool.display_identifier full (ground (arith, h, split, within)),
      ),
      taken_identifiers-IsFresh text pools full (ground (arith, h, split)),
    )

-- `nextIdentifier` returns on every phase, though its loop has no bound of its own, and the name that it
-- returns is neither the name of a pool of the phase nor the identifier shown for one, compared without
-- the blanks around them.
pub next_identifier_total :
    (pools : List PhaseGroup)
    → (text : List ℕ) × (next_identifier pools ≡ some text) × IsFresh text pools
unfolding next_identifier numbered
next_identifier_total [] = (default_identifier, refl, tt)
next_identifier_total (pool ∷ rest) =
    let taken = taken_identifiers (pool ∷ rest) in
    let (k, run, _, free) =
      first_free_total (suc (length taken)) (suc (length (pool ∷ rest))) taken (
        omega (
          arith,
          count_if-le-length (λ text. leb (suc (length (pool ∷ rest))) (number_of text)) taken,
        )) in
    (
      numbered k,
      ground (arith, run),
      taken_identifiers-IsFresh (numbered k) (pool ∷ rest) refl free,
    )
