-- ===== src/Datalogger/Outbox/Tables.antt =====
-- The statements on a table as functions on the list of its rows, and what they keep.
use msap1_apu.Prelude.{
  refl, subst, arith, ℕ, zero, suc, ◌+◌, ◌≡◌, Bool, true, false, List, [], ◌∷◌, Option, none, some,
  if◌then◌else◌, All, Bool-cases, if_elim, inl, inr, take, map,
}

module _ {T : Type 0} where
  -- UPDATE ... WHERE.
  unfoldable pub update_where : (T → Bool) → (T → T) → List T → List T
  update_where test change [] = []
  update_where test change (x ∷ xs) = (if test x then change x else x) ∷ update_where test change xs

  -- SELECT ... WHERE.
  unfoldable pub select_where : (T → Bool) → List T → List T
  select_where test [] = []
  select_where test (x ∷ xs) = let rest = select_where test xs in if test x then x ∷ rest else rest

  -- DELETE ... WHERE.
  unfoldable pub delete_where : (T → Bool) → List T → List T
  delete_where test [] = []
  delete_where test (x ∷ xs) = let rest = delete_where test xs in if test x then rest else x ∷ rest

  unfoldable pub count_where : (T → Bool) → List T → ℕ
  count_where test [] = 0
  count_where test (x ∷ xs) = (if test x then 1 else 0) + count_where test xs

  unfoldable pub exists_where : (T → Bool) → List T → Bool
  exists_where test [] = false
  exists_where test (x ∷ xs) = if test x then true else exists_where test xs

  -- The first row.
  unfoldable pub find_where : (T → Bool) → List T → Option T
  find_where test [] = none
  find_where test (x ∷ xs) = if test x then some x else find_where test xs

  -- A property of all rows, under each statement.
  pub update_where-All :
      (P : T → Type 0) (test : T → Bool) (change : T → T)
      → ((x : T) → test x ≡ true → P x → P (change x))
      → (xs : List T) → All P xs
      → All P (update_where test change xs)
  unfolding update_where
  update_where-All P test change h [] all = tt
  update_where-All P test change h (x ∷ xs) all = (
    if_elim P (test x) (λ e. h x e all.0) (λ _. all.0),
    update_where-All P test change h xs all.1,
  )

  -- What an update makes of all rows.
  pub update_where_each :
      (P : T → Type 0) (test : T → Bool) (change : T → T)
      → ((x : T) → test x ≡ true → P (change x))
      → ((x : T) → test x ≡ false → P x)
      → (xs : List T) → All P (update_where test change xs)
  unfolding update_where
  update_where_each P test change changed kept [] = tt
  update_where_each P test change changed kept (x ∷ xs) =
      (if_elim P (test x) (changed x) (kept x), update_where_each P test change changed kept xs)

  pub delete_where-All :
      (P : T → Type 0) (test : T → Bool) (xs : List T) → All P xs → All P (delete_where test xs)
  unfolding delete_where
  delete_where-All P test [] all = tt
  delete_where-All P test (x ∷ xs) all =
      elim (test x) as (λ b. All P (if b then delete_where test xs else x ∷ delete_where test xs)) [
        | true ↦ delete_where-All P test xs all.1
        | false ↦ (all.0, delete_where-All P test xs all.1)
      ]

  -- A selected row passes the test.
  pub select_where-All :
      (P : T → Type 0) (test : T → Bool) (xs : List T)
      → All P xs
      → All (λ x. (test x ≡ true) × P x) (select_where test xs)
  unfolding select_where
  select_where-All P test [] all = tt
  select_where-All P test (x ∷ xs) all = elim (Bool-cases (test x)) [
    | inl e ↦ rw e ((e, all.0), select_where-All P test xs all.1)
    | inr e ↦ rw e (select_where-All P test xs all.1)
  ]

  pub All-take : (P : T → Type 0) (n : ℕ) (xs : List T) → All P xs → All P (take n xs)
  All-take P zero xs all = tt
  All-take P (suc n) [] all = tt
  All-take P (suc n) (x ∷ xs) all = (all.0, All-take P n xs all.1)

  pub every_row : (P : T → Type 0) → ((x : T) → P x) → (xs : List T) → All P xs
  every_row P h [] = tt
  every_row P h (x ∷ xs) = (h x, every_row P h xs)

  pub weaken_each : (P Q : T → Type 0) → ((x : T) → P x → Q x) → (xs : List T) → All P xs → All Q xs
  weaken_each P Q h [] all = tt
  weaken_each P Q h (x ∷ xs) all = (h x all.0, weaken_each P Q h xs all.1)

pub All-map :
    {S T : Type 0} (P : T → Type 0) (f : S → T) (xs : List S)
    → All (λ x. P (f x)) xs
    → All P (map f xs)
All-map P f [] all = tt
All-map P f (x ∷ xs) all = (all.0, All-map P f xs all.1)

-- A value of the first row that passes the test.
pub find_where-All :
    {T : Type 0} (P : T → Type 0) (test : T → Bool) (xs : List T)
    → All P xs
    → (x : T) → find_where test xs ≡ some x
    → P x × (test x ≡ true)
unfolding find_where
find_where-All P test [] all x = λ e. cc
find_where-All P test (y ∷ ys) all x = elim (Bool-cases (test y)) [
  | inl hit ↦ rw hit (λ e. subst (λ z. P z × (test z ≡ true)) (some-injective e) (all.0, hit))
  | inr miss ↦ rw miss (find_where-All P test ys all.1 x)
]
  where
    some-injective : {T : Type 0} {x y : T} → ◌≡◌ {A = Option T} (some x) (some y) → x ≡ y
    some-injective e = cc

pub find_where_exists :
    {T : Type 0} (test : T → Bool) (xs : List T)
    → exists_where test xs ≡ true
    → (x : T) × (find_where test xs ≡ some x)
unfolding find_where exists_where
find_where_exists test [] = λ h. cc
find_where_exists test (y ∷ ys) = elim (Bool-cases (test y)) [
  | inl hit ↦ rw hit (λ h. (y, refl))
  | inr miss ↦ rw miss (find_where_exists test ys)
]

-- A row stays where the statement spares it.
pub exists_where-update_where :
    {T : Type 0} (test other : T → Bool) (change : T → T)
    → ((x : T) → test x ≡ true → test (change x) ≡ true)
    → (xs : List T) → exists_where test xs ≡ true
    → exists_where test (update_where other change xs) ≡ true
unfolding exists_where update_where
exists_where-update_where test other change h [] e = e
exists_where-update_where test other change h (x ∷ xs) e =
    ground (arith, h x, exists_where-update_where test other change h xs)

pub exists_where-delete_where :
    {T : Type 0} (test other : T → Bool)
    → (xs : List T) → All (λ x. test x ≡ true → other x ≡ false) xs
    → exists_where test xs ≡ true
    → exists_where test (delete_where other xs) ≡ true
unfolding exists_where delete_where
exists_where-delete_where test other [] all e = e
exists_where-delete_where test other (x ∷ xs) all e =
    ground (arith, all.0, exists_where-delete_where test other xs all.1)

pub find_where-none :
    {T : Type 0} (test : T → Bool) (xs : List T)
    → find_where test xs ≡ none
    → exists_where test xs ≡ false
find_where-none test xs missing = elim (Bool-cases (exists_where test xs)) [
  | inl there ↦ (let (x, found) = find_where_exists test xs there in cc)
  | inr e ↦ e
]

pub exists_where_mono :
    {T : Type 0} (test other : T → Bool) (xs : List T)
    → All (λ x. test x ≡ true → other x ≡ true) xs
    → exists_where test xs ≡ true
    → exists_where other xs ≡ true
unfolding exists_where
exists_where_mono test other [] all e = e
exists_where_mono test other (x ∷ xs) all e =
    ground (arith, all.0, exists_where_mono test other xs all.1)
