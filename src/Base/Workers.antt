-- ===== src/Base/Workers.antt =====
-- A pool of workers over a batch: the indices stand in a channel, each worker takes the next one, works on that
-- item and writes its result into the same place. The calls of the workers happen in some order, which the
-- channel and the scheduler choose, and which is an argument here.
use Prim.Native.Nat.{ℕ, zero, suc, ◌<◌}
use mathlib.Core.Path.{◌≡◌, refl, ap, sym, ◌∙◌, subst}
use mathlib.Core.Logic.{◌⊎◌, inl, inr}
use mathlib.Core.Bool.{Bool, true, false, ◌||◌}
use mathlib.Core.Option.{Option, none, some}
use mathlib.Core.List.{List, [], ◌∷◌, map}
use native.Mathlib.Omega.{arith}
use rlaas.Base.Tests.{◌=ℕ◌, Bool-cases, Option-cases}
use rlaas.Base.Lists.{length}

module _ {A : Type 0} where
  abbrev pub get_elem? : List A → ℕ → Option A
  get_elem? [] i = none
  get_elem? (x ∷ xs) zero = some x
  get_elem? (x ∷ xs) (suc i) = get_elem? xs i

  -- `xs[i] = a`, where `i` is in range.
  unfoldable pub set_elem : List A → ℕ → A → List A
  set_elem [] i a = []
  set_elem (x ∷ xs) zero a = a ∷ xs
  set_elem (x ∷ xs) (suc i) a = x ∷ set_elem xs i a

  pub length-set_elem : (xs : List A) (i : ℕ) (a : A) → length (set_elem xs i a) ≡ length xs
  unfolding set_elem
  length-set_elem [] i a = refl
  length-set_elem (x ∷ xs) zero a = refl
  length-set_elem (x ∷ xs) (suc i) a = ap suc (length-set_elem xs i a)

  pub get_elem?-set_elem :
      (xs : List A) (i : ℕ) (a : A) → i < length xs → get_elem? (set_elem xs i a) i ≡ some a
  unfolding set_elem
  get_elem?-set_elem [] i a h = absurd (omega arith)
  get_elem?-set_elem (x ∷ xs) zero a h = refl
  get_elem?-set_elem (x ∷ xs) (suc i) a h = get_elem?-set_elem xs i a (omega arith)

  pub get_elem?-set_elem_other :
      (xs : List A) (i j : ℕ) (a : A)
      → (j =ℕ i) ≡ false
      → get_elem? (set_elem xs j a) i ≡ get_elem? xs i
  unfolding set_elem
  get_elem?-set_elem_other [] i j a h = refl
  get_elem?-set_elem_other (x ∷ xs) zero zero a h = absurd (ground arith)
  get_elem?-set_elem_other (x ∷ xs) zero (suc j) a h = refl
  get_elem?-set_elem_other (x ∷ xs) (suc i) zero a h = refl
  get_elem?-set_elem_other (x ∷ xs) (suc i) (suc j) a h =
      get_elem?-set_elem_other xs i j a (ground arith)

  pub get_elem?-lt : (xs : List A) (i : ℕ) (a : A) → get_elem? xs i ≡ some a → i < length xs
  get_elem?-lt [] i a h = absurd (grind (arith, h))
  get_elem?-lt (x ∷ xs) zero a h = omega arith
  get_elem?-lt (x ∷ xs) (suc i) a h = omega (arith, get_elem?-lt xs i a h)

-- An index stands in a list.
unfoldable pub mentions : ℕ → List ℕ → Bool
mentions i [] = false
mentions i (j ∷ js) = (j =ℕ i) || mentions i js

-- The items of two lists go together, one by one.
abbrev pub Matched : {A B : Type 0} → (A → B → Type 0) → List A → List B → Type 0
Matched P [] [] = Unit
Matched P [] (b ∷ ys) = ⊥
Matched P (a ∷ xs) [] = ⊥
Matched P (a ∷ xs) (b ∷ ys) = P a b × Matched P xs ys

pub Matched-of_places :
    {A B : Type 0} (P : A → B → Type 0) (xs : List A) (ys : List B)
    → length xs ≡ length ys
    → ((i : ℕ) (a : A) → get_elem? xs i ≡ some a → (b : B) × (get_elem? ys i ≡ some b) × P a b)
    → Matched P xs ys
Matched-of_places P [] [] e h = tt
Matched-of_places P [] (b ∷ ys) e h = absurd (omega arith)
Matched-of_places P (a ∷ xs) [] e h = absurd (omega arith)
Matched-of_places P (a ∷ xs) (b ∷ ys) e h =
    let (b', found, good) = h 0 a refl in
    let same : b' ≡ b = grind (arith, found) in
    (
      subst (λ x. P a x) same good,
      Matched-of_places P xs ys (omega arith) (λ i x at. h (suc i) x at),
    )

module _ {A B S : Type 0} (work : A → S → B × S) (xs : List A) where
  -- The results and the state after the calls on some places, in that order.
  unfoldable pub visit : List ℕ → List B → S → List B × S
  visit [] ys s = (ys, s)
  visit (i ∷ order) ys s = elim (get_elem? xs i) [
    | none ↦ visit order ys s
    | some a ↦ (let (b, s') = work a s in visit order (set_elem ys i b) s')
  ]

  length-visit : (order : List ℕ) (ys : List B) (s : S) → length (visit order ys s).0 ≡ length ys
  unfolding visit
  length-visit [] ys s = refl
  length-visit (i ∷ order) ys s = elim (Option-cases (get_elem? xs i)) [
    | inl out ↦ rw (out, visit) (length-visit order ys s)
    | inr (a, found) ↦
        rw (found, visit)
          (length-visit order (set_elem ys i (work a s).0) (work a s).1
            ∙ length-set_elem ys i (work a s).0)
  ]

  module _ (P : A → B → Type 0) (right : (a : A) (s : S) → P a (work a s).0) where
    -- What holds at a place that has been visited, and is never written otherwise.
    abbrev Done : List B → ℕ → A → Type 0
    Done ys i a = (b : B) × (get_elem? ys i ≡ some b) × P a b

    set-Done :
        (ys : List B) (i j : ℕ) (a a' : A) (s : S)
        → get_elem? xs i ≡ some a
        → get_elem? xs j ≡ some a'
        → i < length ys
        → ((j =ℕ i) ≡ true) ⊎ Done ys i a
        → Done (set_elem ys j (work a' s).0) i a
    set-Done ys i j a a' s at_i at_j small go = elim (Bool-cases (j =ℕ i)) [
      | inl same ↦
          let here : j ≡ i = ground arith in
          let one : a' ≡ a = grind (arith, at_i, at_j, ap (get_elem? xs) here) in
          (
            (work a' s).0,
            ap (λ k. get_elem? (set_elem ys k (work a' s).0) i) here
                ∙ get_elem?-set_elem ys i (work a' s).0 small,
            subst (λ x. P x (work a' s).0) one (right a' s),
          )
      | inr other ↦ elim go [
        | inl this ↦ absurd (grind (arith, this, other))
        | inr (b, found, good) ↦
            (b, get_elem?-set_elem_other ys i j (work a' s).0 other ∙ found, good)
      ]
    ]

    -- A place that is out of the batch is not the one that is looked at.
    skipped :
        (i j : ℕ) (a : A) (order : List ℕ) (ys : List B)
        → get_elem? xs i ≡ some a
        → get_elem? xs j ≡ none
        → (mentions i (j ∷ order) ≡ true) ⊎ Done ys i a
        → (mentions i order ≡ true) ⊎ Done ys i a
    unfolding mentions
    skipped i j a order ys at_i out (inr done) = inr done
    skipped i j a order ys at_i out (inl named) = elim (Bool-cases (j =ℕ i)) [
      | inl same ↦
          (let here : j ≡ i = ground arith in
            absurd (grind (arith, at_i, out, ap (get_elem? xs) here)))
      | inr other ↦ inl (rw (← named) (rw other refl))
    ]

    last_one :
        (i j : ℕ) (order : List ℕ) (ys : List B) (a : A)
        → mentions i order ≡ false
        → (mentions i (j ∷ order) ≡ true) ⊎ Done ys i a
        → ((j =ℕ i) ≡ true) ⊎ Done ys i a
    unfolding mentions
    last_one i j order ys a last (inr done) = inr done
    last_one i j order ys a last (inl named) = inl (ground arith)

    visit-Done :
        (order : List ℕ) (ys : List B) (s : S) (i : ℕ) (a : A)
        → get_elem? xs i ≡ some a
        → i < length ys
        → (mentions i order ≡ true) ⊎ Done ys i a
        → Done (visit order ys s).0 i a
    unfolding visit mentions
    visit-Done [] ys s i a at_i small go = elim go [
      | inl never ↦ absurd (grind (arith, never))
      | inr done ↦ done
    ]
    visit-Done (j ∷ order) ys s i a at_i small go = elim (Option-cases (get_elem? xs j)) [
      | inl out ↦
          rw (out, visit)
            (visit-Done order ys s i a at_i small (skipped i j a order ys at_i out go))
      | inr (a', at_j) ↦ elim (Bool-cases (mentions i order)) [
        | inl later ↦
            rw (at_j, visit)
              (visit-Done order (set_elem ys j (work a' s).0) (work a' s).1 i a at_i
                (omega (arith, length-set_elem ys j (work a' s).0)) (inl later))
        | inr last ↦
            rw (at_j, visit)
              (visit-Done order (set_elem ys j (work a' s).0) (work a' s).1 i a at_i
                (omega (arith, length-set_elem ys j (work a' s).0))
                (inr (set-Done ys i j a a' s at_i at_j small (last_one i j order ys a last go))))
      ]
    ]

    -- When every place of the batch is visited, each result goes with its item, in whichever order.
    pub visit-Matched :
        (order : List ℕ) (ys : List B) (s : S)
        → length xs ≡ length ys
        → ((i : ℕ) → i < length xs → mentions i order ≡ true)
        → Matched P xs (visit order ys s).0
    visit-Matched order ys s same covers =
        Matched-of_places P xs (visit order ys s).0 (same ∙ sym (length-visit order ys s))
          λ i a at_i.
            let small = get_elem?-lt xs i a at_i in
            visit-Done order ys s i a at_i (omega (arith, small)) (inl (covers i small))

-- A match by a function is a map.
pub Matched-map :
    {A B : Type 0} (f : A → B) (xs : List A) (ys : List B)
    → Matched (λ a b. b ≡ f a) xs ys
    → ys ≡ map f xs
Matched-map f [] [] m = refl
Matched-map f [] (y ∷ ys) m = elim m [ ]
Matched-map f (x ∷ xs) [] m = elim m [ ]
Matched-map f (x ∷ xs) (y ∷ ys) m = cc (m.0, Matched-map f xs ys m.1)
