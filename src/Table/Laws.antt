-- ===== src/Table/Laws.antt =====
-- The laws of a table: what updates by key leave alone, and the loop that writes row by row as one pass.
use mathlib.Core.Path.{subst⁻¹}
use wfmcontrol_m.Prelude.{
  ℕ, ◌≡◌, refl, ap, sym, ◌≢◌, Bool, true, List, [], ◌∷◌, map, ◌∙◌, ◌++◌, ◌==◌, filter, count,
  if◌then◌else◌, All, arith, Bool-cases, inl, inr, ==_iff, any, false,
}
use wfmcontrol_m.Table.{update, update_each, IsKeyed, has_key}

module _ {ℓ} {A : Type ℓ} (key : A → ℕ) where
  -- An update keeps what its function keeps.
  pub count-update :
      (p : A → Bool) (i : ℕ) (f : A → A) (t : List A)
      → ((r : A) → p (f r) ≡ p r)
      → count p (update key i f t) ≡ count p t
  count-update p i f [] keep = refl
  count-update p i f (r ∷ t) keep = ground (arith, keep r, count-update p i f t keep)

  pub count-update_each :
      (p : A → Bool) (f : A → A) (ss t : List A)
      → ((r : A) → p (f r) ≡ p r)
      → count p (update_each key f ss t) ≡ count p t
  unfolding update_each
  count-update_each p f [] t keep = refl
  count-update_each p f (s ∷ ss) t keep = omega (
    arith,
    count-update_each p f ss (update key (key s) f t) keep,
    count-update p (key s) f t keep,
  )

  module _ {κ} (P : A → Type κ) where
    pub All-update :
        (i : ℕ) (f : A → A) (t : List A)
        → ((r : A) → key r ≡ i → P r → P (f r))
        → All P t
        → All P (update key i f t)
    All-update i f [] keep h = tt
    All-update i f (r ∷ t) keep (p, h) = elim (Bool-cases (key r == i)) [
      | inl e ↦ rw e (keep r ((==_iff _ _).0 e) p, All-update i f t keep h)
      | inr e ↦ rw e (p, All-update i f t keep h)
    ]

    -- A loop of updates over rows that satisfy `Q` needs only the case of such a row.
    pub All-update_each :
        (Q : A → Type κ) (f : A → A) (ss t : List A)
        → All Q ss
        → ((s r : A) → Q s → key r ≡ key s → P r → P (f r))
        → All P t
        → All P (update_each key f ss t)
    unfolding update_each
    All-update_each Q f [] t q keep h = h
    All-update_each Q f (s ∷ ss) t (q, qs) keep h =
        All-update_each Q f ss (update key (key s) f t) qs keep
          (All-update (key s) f t (λ r e p. keep s r q e p) h)

  module _ (f : A → A) (same : (r : A) → key (f r) ≡ key r) where
    keys-update :
        (k i : ℕ) (t : List A) → All (λ s. key s ≢ k) t → All (λ s. key s ≢ k) (update key i f t)
    keys-update k i t h = All-update (λ s. key s ≢ k) i f t (λ r _ n. rw same n) h

    pub IsKeyed-update : (i : ℕ) (t : List A) → IsKeyed key t → IsKeyed key (update key i f t)
    IsKeyed-update i [] h = tt
    IsKeyed-update i (r ∷ t) (new, h) = elim (Bool-cases (key r == i)) [
      | inl e ↦ rw (e, same r) (keys-update (key r) i t new, IsKeyed-update i t h)
      | inr e ↦ rw e (keys-update (key r) i t new, IsKeyed-update i t h)
    ]

    pub IsKeyed-update_each : (ss t : List A) → IsKeyed key t → IsKeyed key (update_each key f ss t)
    unfolding update_each
    IsKeyed-update_each [] t h = h
    IsKeyed-update_each (s ∷ ss) t h =
        IsKeyed-update_each ss (update key (key s) f t) (IsKeyed-update (key s) t h)

  -- An update of a key that is not there changes nothing.
  pub update_absent :
      (i : ℕ) (f : A → A) (t : List A) → All (λ s. key s ≢ i) t → update key i f t ≡ t
  update_absent i f [] h = refl
  update_absent i f (r ∷ t) (n, h) = ground (arith, update_absent i f t h)

  map_same : (t : List A) → map (λ r. r) t ≡ t
  map_same [] = refl
  map_same (r ∷ t) = ap (λ l. r ∷ l) (map_same t)

  pub filter_cong : (p q : A → Bool) (t : List A) → All (λ r. p r ≡ q r) t → filter p t ≡ filter q t
  filter_cong p q [] h = refl
  filter_cong p q (r ∷ t) (e, h) = rw (e, filter_cong p q t h)

  module _ (p : A → Bool) where
    pub All-filter {κ} : (P : A → Type κ) (t : List A) → All P t → All P (filter p t)
    All-filter P [] h = tt
    All-filter P (r ∷ t) (q, h) = elim (Bool-cases (p r)) [
      | inl e ↦ rw e (q, All-filter P t h)
      | inr e ↦ rw e (All-filter P t h)
    ]

    -- What a filter selects passes its test.
    pub All-filter_test : (t : List A) → All (λ r. p r ≡ true) (filter p t)
    All-filter_test [] = tt
    All-filter_test (r ∷ t) = elim (Bool-cases (p r)) [
      | inl e ↦ rw e (e, All-filter_test t)
      | inr e ↦ rw e (All-filter_test t)
    ]

  -- Rows with other keys stay where they are.
  update_each-cons :
      (f : A → A) (x : A) (ss t : List A)
      → All (λ s. key s ≢ key x) ss
      → update_each key f ss (x ∷ t) ≡ x ∷ update_each key f ss t
  unfolding update_each
  update_each-cons f x [] t h = refl
  update_each-cons f x (s ∷ ss) t (n, h) = elim (Bool-cases (key x == key s)) [
    | inl e ↦ absurd (n (sym ((==_iff _ _).0 e)))
    | inr e ↦ rw e (update_each-cons f x ss (update key (key s) f t) h)
  ]

  module _ (f : A → A) (same : (r : A) → key (f r) ≡ key r) where
    update_each-head :
        (r x : A) (ss t : List A)
        → key x ≡ key r
        → All (λ s. key s ≢ key r) ss
        → All (λ s. key s ≢ key r) t
        → update_each key f (r ∷ ss) (x ∷ t) ≡ f x ∷ update_each key f ss t
    unfolding update_each
    update_each-head r x ss t e hs ht =
        rw ((==_iff (key x) (key r)).1 e, update_absent (key r) f t ht)
          (update_each-cons f (f x) ss t (rw (same, e) hs))

    module _ (g : A → A) (same' : (r : A) → key (g r) ≡ key r) where
      map-new : (k : ℕ) (t : List A) → All (λ s. key s ≢ k) t → All (λ s. key s ≢ k) (map g t)
      map-new k [] h = tt
      map-new k (r ∷ t) (n, h) = (rw same' n, map-new k t h)

      -- Under distinct keys the loop over the rows selected from `t`, on the table that `g` made of
      -- `t`, is one pass.
      pub update_each-filter-map :
          (p : A → Bool) (t : List A)
          → IsKeyed key t
          → update_each key f (filter p t) (map g t) ≡ map (λ r. if p r then f (g r) else g r) t
      update_each-filter-map p [] h = unfold update_each in refl
      update_each-filter-map p (r ∷ t) (new, h) =
          let others = All-filter p (λ s. key s ≢ key r) t new in
          elim (Bool-cases (p r)) [
            | inl e ↦ rw e (
                update_each-head r (g r) (filter p t) (map g t) (same' r) others
                  (map-new (key r) t new)
                ∙ ap (λ l. f (g r) ∷ l) (update_each-filter-map p t h))
            | inr e ↦ rw e (
                update_each-cons f (g r) (filter p t) (map g t) (rw same' others)
                ∙ ap (λ l. g r ∷ l) (update_each-filter-map p t h))
          ]

    pub update_each-filter :
        (p : A → Bool) (t : List A)
        → IsKeyed key t
        → update_each key f (filter p t) t ≡ map (λ r. if p r then f r else r) t
    update_each-filter p t h =
        ap (update_each key f (filter p t)) (sym (map_same t))
        ∙ update_each-filter-map (λ r. r) (λ r. refl) p t h

  module _ (f : A → A) (same : (r : A) → key (f r) ≡ key r) (j : ℕ) where
    pub has_key-update : (i : ℕ) (t : List A) → has_key key j (update key i f t) ≡ has_key key j t
    has_key-update i [] = refl
    has_key-update i (r ∷ t) = ground (arith, same r, has_key-update i t)

    pub has_key-update_each :
        (ss t : List A) → has_key key j (update_each key f ss t) ≡ has_key key j t
    unfolding update_each
    has_key-update_each [] t = refl
    has_key-update_each (s ∷ ss) t =
        has_key-update_each ss (update key (key s) f t) ∙ has_key-update (key s) t

  pub has_key-append :
      (j : ℕ) (t : List A) (r : A) → has_key key j t ≡ true → has_key key j (t ++ r ∷ []) ≡ true
  has_key-append j [] r h = cc
  has_key-append j (s ∷ t) r h = ground (arith, has_key-append j t r)

  pub fresh-ne : (i j : ℕ) (t : List A) → All (λ r. key r ≢ i) t → has_key key j t ≡ true → i ≢ j
  fresh-ne i j [] n h = cc
  fresh-ne i j (r ∷ t) (n, ns) h = ground (arith, fresh-ne i j t ns)

  -- Membership of the selected keys decides the selection, for the rows of the table.
  chosen-cons :
      (p : A → Bool) (k : ℕ) (ks : List ℕ) (t : List A)
      → All (λ s. key s ≢ k) t
      → All (λ s. any (λ j. key s == j) ks ≡ p s) t
      → All (λ s. any (λ j. key s == j) (k ∷ ks) ≡ p s) t
  chosen-cons p k ks [] n h = tt
  chosen-cons p k ks (s ∷ t) (n, ns) (e, h) = (ground arith, chosen-cons p k ks t ns h)

  not_chosen :
      (k : ℕ) (ss : List A) → All (λ s. key s ≢ k) ss → any (λ j. k == j) (map key ss) ≡ false
  not_chosen k [] h = refl
  not_chosen k (s ∷ ss) (n, h) = ground (arith, not_chosen k ss h)

  pub chosen-filter :
      (p : A → Bool) (t : List A)
      → IsKeyed key t
      → All (λ s. any (λ j. key s == j) (map key (filter p t)) ≡ p s) t
  chosen-filter p [] h = tt
  chosen-filter p (r ∷ t) (new, h) =
      let ChosenFrom : List A → Type 0 =
        λ l. All (λ s. any (λ j. key s == j) (map key l) ≡ p s) (r ∷ t) in
      let others = All-filter p (λ s. key s ≢ key r) t new in
      elim (Bool-cases (p r)) [
        | inl e ↦ subst⁻¹ ChosenFrom {y = r ∷ filter p t} (rw e) (
          ground (arith, ==_iff (key r) (key r)),
          chosen-cons p (key r) _ t new (chosen-filter p t h),
        )
        | inr e ↦
            subst⁻¹ ChosenFrom {y = filter p t} (rw e)
              (rw e (not_chosen (key r) (filter p t) others), chosen-filter p t h)
      ]
