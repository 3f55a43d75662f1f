-- ===== src/Router/Choice.antt =====
-- What `select` and `select_ordered` choose.
use propagul.Prelude.{
  ℕ, ◌≡◌, ◌≢◌, ◌↔◌, ◌⊎◌, inl, inr, refl, ap, subst, subst₂, Bool, true, false, ◌||◌, Option, none,
  some, List, [], ◌∷◌, arith, Text, length, All, In, Bool-cases, keep,
}
use propagul.Prelude.Sorting.{
  sort_by, length-sort_by, IsSortedBy, In-sort_by, In-of_sort_by, sort_by-IsSortedBy,
}
use propagul.Router.Fleet.{
  BackendTarget, FleetState, has_model, is_stale, nodes_with_model, freer, nodes_by_free_vram,
}
use propagul.Router.Select.{Router, preferred, first, no_targets, choose, select}

pub preferred_asym :
    (r : Router) (t u : BackendTarget) → preferred r t u ≡ true → preferred r u t ≡ false
unfolding preferred
preferred_asym r t u h = ground arith

pub preferred_trans :
    (r : Router) (t u v : BackendTarget)
    → preferred r u t ≡ false
    → preferred r v u ≡ false
    → preferred r v t ≡ false
unfolding preferred
preferred_trans r t u v h k = ground arith

freer_asym : (t u : BackendTarget) → freer t u ≡ true → freer u t ≡ false
freer_asym t u h = ground arith

freer_trans : (t u v : BackendTarget) → freer u t ≡ false → freer v u ≡ false → freer v t ≡ false
freer_trans t u v h k = ground arith

-- `t` is among the targets, and none of them is better
abbrev pub IsBest :
    (BackendTarget → BackendTarget → Bool) → List BackendTarget → BackendTarget → Type 0
IsBest better ts t = In t ts × ((u : BackendTarget) → In u ts → better u t ≡ false)

In-keep :
    (p : BackendTarget → Bool) (t : BackendTarget) (ts : List BackendTarget)
    → In t (keep p ts)
    → In t ts × (p t ≡ true)
unfolding keep
In-keep p t [] h = absurd h
In-keep p t (u ∷ us) h = ground (arith, In-keep p t us)

In-of_keep :
    (p : BackendTarget → Bool) (t : BackendTarget) (ts : List BackendTarget)
    → In t ts
    → p t ≡ true
    → In t (keep p ts)
unfolding keep
In-of_keep p t [] h k = h
In-of_keep p t (u ∷ us) h k = ground (arith, In-of_keep p t us)

module _ (lt : BackendTarget → BackendTarget → Bool)
    (asym : (a b : BackendTarget) → lt a b ≡ true → lt b a ≡ false)
    (trans : (a b c : BackendTarget) → lt b a ≡ false → lt c b ≡ false → lt c a ≡ false) where
  All-In :
      (t u : BackendTarget) (ts : List BackendTarget)
      → All (λ y. lt y t ≡ false) ts
      → In u ts
      → lt u t ≡ false
  All-In t u [] h k = absurd k
  All-In t u (v ∷ vs) h (inl p) = subst (λ y. lt y t ≡ false) p h.0
  All-In t u (v ∷ vs) h (inr k) = All-In t u vs h.1 k

  irrefl : (t : BackendTarget) → lt t t ≡ false
  irrefl t = elim (Bool-cases (lt t t)) [ inl h ↦ asym t t h | inr h ↦ h ]

  first_sorted :
      (ts : List BackendTarget) (t : BackendTarget)
      → IsSortedBy lt ts
      → first ts ≡ some t
      → IsBest lt ts t
  first_sorted [] t s h = absurd (ground arith)
  first_sorted (x ∷ xs) t s h =
      let p : x ≡ t = ground arith in
      (
        inl p,
        λ u k.
            subst (λ y. lt u y ≡ false) p
              (elim k [
                | inl q ↦ subst (λ y. lt y x ≡ false) q (irrefl x)
                | inr later ↦ All-In x u xs s.0 later
              ]),
      )

  -- The first of the sorted list is a best item of the list.
  pub first-sort_by-IsBest :
      (ts : List BackendTarget) (t : BackendTarget)
      → first (sort_by lt ts) ≡ some t
      → IsBest lt ts t
  first-sort_by-IsBest ts t h =
      let (here, best) = first_sorted (sort_by lt ts) t (sort_by-IsSortedBy lt asym trans ts) h in
      (In-sort_by lt t ts here, λ u k. best u (In-of_sort_by lt u ts k))

-- What `select` owes its caller. Nothing, only if the fleet state is stale or empty. A target, only of
-- a fresh state: of the targets that have the model none is preferred to it; and if there are none,
-- no target has more free VRAM.
abbrev pub IsChosen : Router → Text → ℕ → Option BackendTarget → Type 0
IsChosen r model now none = (is_stale r.fleet now || no_targets r.fleet.targets) ≡ true
IsChosen r model now (some t) =
    (is_stale r.fleet now ≡ false)
    × (IsBest (preferred r) (nodes_with_model r.fleet model) t
        ⊎ (nodes_with_model r.fleet model ≡ []) × IsBest freer r.fleet.targets t)

by_vram :
    (r : Router) (t : BackendTarget)
    → first (nodes_by_free_vram r.fleet) ≡ some t
    → IsBest freer r.fleet.targets t
unfolding nodes_by_free_vram
by_vram r t h = first-sort_by-IsBest freer freer_asym freer_trans r.fleet.targets t h

choose-IsBest :
    (r : Router) (ts : List BackendTarget) (t : BackendTarget)
    → choose r ts ≡ some t
    → IsBest (preferred r) ts t ⊎ (ts ≡ []) × IsBest freer r.fleet.targets t
unfolding choose
choose-IsBest r [] t h = inr (refl, by_vram r t h)
choose-IsBest r (x ∷ []) t h =
    let p : x ≡ t = ground arith in
    inl (
      inl p,
      λ u k. elim k [
        | inl q ↦ subst₂ (λ a b. preferred r a b ≡ false) q p (self x)
        | inr none' ↦ absurd none'
      ],
    )
  where
    self : (y : BackendTarget) → preferred r y y ≡ false
    self y = irrefl (preferred r) (preferred_asym r) (preferred_trans r) y
choose-IsBest r (x ∷ y ∷ ts) t h =
    inl (first-sort_by-IsBest (preferred r) (preferred_asym r) (preferred_trans r) (x ∷ y ∷ ts) t h)

first-none : (ts : List BackendTarget) → first ts ≡ none → ts ≡ []
first-none [] h = refl
first-none (x ∷ xs) h = absurd (ground arith)

-- A sorted list is empty only if the list is.
sorted_none :
    (lt : BackendTarget → BackendTarget → Bool) (ts : List BackendTarget)
    → first (sort_by lt ts) ≡ none
    → no_targets ts ≡ true
sorted_none lt [] h = refl
sorted_none lt (x ∷ xs) h = absurd (
    omega (
      arith,
      length-sort_by lt (x ∷ xs),
      ap (length {A = BackendTarget}) (first-none (sort_by lt (x ∷ xs)) h),
    ))

choose-ne-none :
    (r : Router) (ts : List BackendTarget) → no_targets r.fleet.targets ≡ false → choose r ts ≢ none
unfolding choose nodes_by_free_vram
choose-ne-none r [] h e = ground (arith, sorted_none freer r.fleet.targets e)
choose-ne-none r (x ∷ []) h e = ground arith
choose-ne-none r (x ∷ y ∷ ts) h e = ground (arith, sorted_none (preferred r) (x ∷ y ∷ ts) e)

-- `select` keeps its promise, on every branch.
pub select-IsChosen :
    (r : Router) (model : Text) (now : ℕ) → IsChosen r model now (select r model now)
unfolding select
select-IsChosen r model now =
    elim (Bool-cases (is_stale r.fleet now || no_targets r.fleet.targets)) [
      | inl out ↦ rw out out
      | inr usable ↦ rw usable (chosen usable (choose r (nodes_with_model r.fleet model)) refl)
    ]
  where
    chosen :
        (is_stale r.fleet now || no_targets r.fleet.targets) ≡ false
        → (o : Option BackendTarget) → choose r (nodes_with_model r.fleet model) ≡ o
        → IsChosen r model now o
    chosen usable none e =
        absurd (choose-ne-none r (nodes_with_model r.fleet model) (ground arith) e)
    chosen usable (some t) e = (ground arith, choose-IsBest r (nodes_with_model r.fleet model) t e)

-- The candidates that have a model are the targets that do.
pub nodes_with_model_iff :
    (fleet : FleetState) (model : Text) (t : BackendTarget)
    → In t (nodes_with_model fleet model) ↔ (In t fleet.targets × (has_model t model ≡ true))
unfolding nodes_with_model
nodes_with_model_iff fleet model t = (
  In-keep (λ u. has_model u model) t fleet.targets,
  λ h. In-of_keep (λ u. has_model u model) t fleet.targets h.0 h.1,
)
