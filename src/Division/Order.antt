-- ===== src/Division/Order.antt =====
-- The list of active entrants from which a bracket is generated.
use tournament_hub.Common.{ℕ, ◌≡◌, ◌∙◌, Bool, ◌&&◌, List, arith, filter, count_if, count_if-filter}
use tournament_hub.Common.Sort.{IsOrder, IsSorted, sort_by-IsSorted, count_if-sort_by}
use tournament_hub.Division.{
  DivisionEntrant, DivisionAggregate, stands_before, active_entrants, is_active,
}

module _ (name_before : List ℕ → List ℕ → Bool) (names : IsOrder name_before) where
  stands_before-IsOrder : IsOrder (stands_before name_before)
  stands_before-IsOrder = record {
    asymm = λ a b h. ground (arith, h, names.asymm a.name b.name);
    chain = λ a b c h k. ground (
      arith,
      h,
      k,
      names.asymm a.name b.name,
      names.asymm b.name a.name,
      names.asymm b.name c.name,
      names.asymm c.name b.name,
      names.asymm a.name c.name,
      names.asymm c.name a.name,
      names.chain a.name b.name c.name,
      names.chain c.name b.name a.name,
      names.chain b.name a.name c.name,
      names.chain c.name a.name b.name,
      names.chain a.name c.name b.name,
      names.chain b.name c.name a.name,
    );
  }

  -- The active entrants of a division stand in order of their seeds, then of their names, then of their
  -- ids, and each active entrant is there as often as in the division, when the comparison of names is an
  -- order.
  pub active_entrants-IsSorted :
      (a : DivisionAggregate)
      → IsSorted (stands_before name_before) (active_entrants name_before a)
        × ((p : DivisionEntrant → Bool)
            → count_if p (active_entrants name_before a)
              ≡ count_if (λ e. is_active e && p e) a.division.entrants)
  unfolding active_entrants
  active_entrants-IsSorted a = (
    sort_by-IsSorted (stands_before name_before) stands_before-IsOrder
        (filter is_active a.division.entrants),
    λ p.
        count_if-sort_by (stands_before name_before) p (filter is_active a.division.entrants)
        ∙ count_if-filter is_active p a.division.entrants,
  )
