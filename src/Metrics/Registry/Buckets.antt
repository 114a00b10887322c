-- ===== src/Metrics/Registry/Buckets.antt =====
-- The buckets of a histogram as they are rendered, against the values that were observed.
use split_bill_app.Prelude.{
  ℕ, suc, ◌+◌, ◌≡◌, refl, ap, subst, ◌∙◌, inl, inr, List, [], ◌∷◌, map, Bool, true, false,
  Bool-cases, length, All, sum_of, arith,
}
use mathlib.Core.List.{foldl}
use split_bill_app.Metrics.Table.{Text}
use split_bill_app.Metrics.Registry.{Doubles, HistogramSeries, bump, empty_series, record_value}
use split_bill_app.Metrics.Render.{Printing, bucket_line, bucket_lines}

module _ {N : Type 0} (doubles : Doubles N) where
  open doubles use {le, add, zero_double}

  abbrev pub one_if : Bool → ℕ
  one_if true = 1
  one_if false = 0

  -- How many of the values are at most the bound.
  abbrev pub at_most : N → List N → ℕ
  at_most bound values = sum_of (λ v. one_if (le v bound)) values

  -- The bounds ascend.
  abbrev pub Ascending : List N → Type 0
  Ascending [] = Unit
  Ascending (b ∷ bs) = All (λ c. le b c ≡ true) bs × Ascending bs

  -- The counts, summed up from `before` on, are the numbers that `f` gives for the bounds.
  Sums : ℕ → List N → List ℕ → (N → ℕ) → Type 0
  Sums before [] counts f = Unit
  Sums before (b ∷ bs) [] f = (before ≡ f b) × Sums before bs [] f
  Sums before (b ∷ bs) (c ∷ cs) f = (before + c ≡ f b) × Sums (before + c) bs cs f

  -- Everything that is rendered for the values observed in a new series.
  abbrev pub observed : List N → List N → HistogramSeries N
  observed buckets values =
      foldl (λ s v. record_value doubles buckets v s) (empty_series doubles buckets) values

  module _ (trans : (a b c : N) → le a b ≡ true → le b c ≡ true → le a c ≡ true) (v : N) where
    plus : (N → ℕ) → N → ℕ
    plus f b = f b + one_if (le v b)

    below_all :
        (b : N) (bs : List N)
        → le v b ≡ true
        → All (λ c. le b c ≡ true) bs
        → All (λ c. le v c ≡ true) bs
    below_all b [] h up = tt
    below_all b (c ∷ cs) h up = (trans v b c h up.0, below_all b cs h up.1)

    -- One more before the first bound is one more at every bound that is not below the value.
    shifted :
        (before after : ℕ) (bs : List N) (cs : List ℕ) (f : N → ℕ)
        → after ≡ suc before
        → All (λ c. le v c ≡ true) bs
        → Sums before bs cs f
        → Sums after bs cs (plus f)
    unfolding Sums plus
    shifted before after [] cs f e h s = tt
    shifted before after (b ∷ bs) [] f e h s =
        (ground (arith, h.0, s.0), shifted before after bs [] f e h.1 s.1)
    shifted before after (b ∷ bs) (c ∷ cs) f e h s = (
      ground (arith, h.0, s.0),
      shifted (before + c) (after + c) bs cs f (omega (arith, e)) h.1 s.1,
    )

    bump-Sums :
        (before : ℕ) (bs : List N) (cs : List ℕ) (f : N → ℕ)
        → Ascending bs
        → Sums before bs cs f
        → Sums before bs (bump doubles v bs cs) (plus f)
    unfolding Sums plus
    bump-Sums before [] cs f up s = tt
    bump-Sums before (b ∷ bs) [] f up s = elim (Bool-cases (le v b)) [
      | inl here ↦ rw here (
        ground (arith, s.0),
        shifted before (before + 1) bs [] f (omega arith) (below_all b bs here up.0) s.1,
      )
      | inr above ↦ rw above (
        ground (arith, s.0),
        subst (λ n. Sums n bs (bump doubles v bs []) (plus f)) (omega arith)
            (bump-Sums before bs [] f up.1 s.1),
      )
    ]
    bump-Sums before (b ∷ bs) (c ∷ cs) f up s = elim (Bool-cases (le v b)) [
      | inl here ↦ rw here (
        ground (arith, s.0),
        shifted (before + c) (before + suc c) bs cs f (omega arith) (below_all b bs here up.0) s.1,
      )
      | inr above ↦ rw above (ground (arith, s.0), bump-Sums (before + c) bs cs f up.1 s.1)
    ]

  Sums-same :
      (before : ℕ) (bs : List N) (cs : List ℕ) (f g : N → ℕ)
      → ((b : N) → f b ≡ g b)
      → Sums before bs cs f
      → Sums before bs cs g
  unfolding Sums
  Sums-same before [] cs f g e s = tt
  Sums-same before (b ∷ bs) [] f g e s = (s.0 ∙ e b, Sums-same before bs [] f g e s.1)
  Sums-same before (b ∷ bs) (c ∷ cs) f g e s = (s.0 ∙ e b, Sums-same (before + c) bs cs f g e s.1)

  none_yet : (bs : List N) → Sums 0 bs (map (λ _. 0) bs) (λ _. 0)
  unfolding Sums
  none_yet [] = tt
  none_yet (b ∷ bs) = (refl, none_yet bs)

  abbrev observe_all : List N → HistogramSeries N → List N → HistogramSeries N
  observe_all buckets entry values = foldl (λ s v. record_value doubles buckets v s) entry values

  observe_all-count :
      (bs values : List N) (entry : HistogramSeries N)
      → (observe_all bs entry values).count ≡ entry.count + length values
  observe_all-count bs [] entry = omega arith
  observe_all-count bs (v ∷ values) entry =
      omega (arith, observe_all-count bs values (record_value doubles bs v entry))

  module _ (trans : (a b c : N) → le a b ≡ true → le b c ≡ true → le a c ≡ true) where
    observe_all-Sums :
        (bs values : List N) (entry : HistogramSeries N) (f : N → ℕ)
        → Ascending bs
        → Sums 0 bs entry.counts f
        → Sums 0 bs (observe_all bs entry values).counts (λ b. f b + at_most b values)
    unfolding plus
    observe_all-Sums bs [] entry f up s = Sums-same 0 bs entry.counts f _ (λ b. omega arith) s
    observe_all-Sums bs (v ∷ values) entry f up s =
        let next = record_value doubles bs v entry in
        let more = bump-Sums trans v 0 bs entry.counts f up s in
        Sums-same 0 bs _ _ _ (λ b. omega arith)
          (observe_all-Sums bs values next (plus trans v f) up more)

  module _ (printing : Printing N) (name keys : Text) where
    cons_same : {l l' : Text} {ls ls' : List Text} → l ≡ l' → ls ≡ ls' → (l ∷ ls) ≡ (l' ∷ ls')
    cons_same e es i = e i ∷ es i

    lines_of-Sums :
        (before : ℕ) (bs : List N) (cs : List ℕ) (f : N → ℕ)
        → Sums before bs cs f
        → bucket_lines doubles printing name keys before bs cs
          ≡ map (λ b. bucket_line doubles printing name keys b (f b)) bs
    unfolding Sums
    lines_of-Sums before [] cs f s = refl
    lines_of-Sums before (b ∷ bs) [] f s =
        cons_same (ap (bucket_line doubles printing name keys b) s.0)
          (lines_of-Sums before bs [] f s.1)
    lines_of-Sums before (b ∷ bs) (c ∷ cs) f s =
        cons_same (ap (bucket_line doubles printing name keys b) s.0)
          (lines_of-Sums (before + c) bs cs f s.1)

    -- The values observed in a new series of a histogram with ascending bounds are counted right: in
    -- the rendered text the line of each bound has the number of the values that are at most that
    -- bound, and the total is the number of all values. The order of the doubles is transitive.
    pub bucket_lines-observed :
        (buckets values : List N)
        → ((a b c : N) → le a b ≡ true → le b c ≡ true → le a c ≡ true)
        → Ascending buckets
        → (bucket_lines doubles printing name keys 0 buckets (observed buckets values).counts
            ≡ map (λ b. bucket_line doubles printing name keys b (at_most b values)) buckets)
          × ((observed buckets values).count ≡ length values)
    bucket_lines-observed buckets values trans up =
        let start = empty_series doubles buckets in
        let sums = observe_all-Sums trans buckets values start (λ _. 0) up (none_yet buckets) in
        (
          lines_of-Sums 0 buckets (observed buckets values).counts (λ b. at_most b values)
              (Sums-same 0 buckets _ _ _ (λ b. omega arith) sums),
          omega (arith, observe_all-count buckets values start),
        )
