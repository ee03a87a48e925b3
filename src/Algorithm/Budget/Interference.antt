-- ===== src/Algorithm/Budget/Interference.antt =====
-- The loop of fixedwindow.go and quota.go among other clients, which act before each call of the store.
use Prim.Native.Nat.{ℕ, zero, suc, ◌<◌, ◌*◌}
use rlaas.Base.{List, [], ◌∷◌, String, true, false, ◌≡◌, ◌⊎◌, arith, inl, inr, Bool-cases}
use rlaas.Base.Lists.{length}
use rlaas.Base.Int.{pos, ltb_ℤ, ◌+ℤ◌, ◌=ℤ◌, ◌≤ℤ◌, =ℤ_iff, +ℤ_parts}
use rlaas.Base.Int64.{Int64, InRange, ◌+w◌, ◌-w◌, +w_exact_below}
use rlaas.Base.Exec.{Result, ok}
use rlaas.Model.{Decision}
use rlaas.Store.{CounterStore}
use rlaas.Store.Laws.{CounterLaws}
use rlaas.Store.World.{act, shared, interrupted, later}
use rlaas.Algorithm.Budget.{Budget, spend}
use rlaas.Algorithm.Budget.Exact.{answer}

-- Every action of the others keeps `P`.
abbrev pub AllKeep : {S : Type 0} → (S → Type 0) → List (S → S) → Type 0
AllKeep P [] = Unit
AllKeep P (f ∷ fs) = ((s : _) → P s → P (f s)) × AllKeep P fs

interrupted-keeps :
    {S : Type 0} (P : S → Type 0) (s : S) (fs : List (S → S))
    → AllKeep P fs
    → P s
    → P (interrupted s fs)
interrupted-keeps P s [] all h = h
interrupted-keeps P s (f ∷ fs) all h = all.0 s h

later-keeps :
    {S : Type 0} (P : S → Type 0) (fs : List (S → S)) → AllKeep P fs → AllKeep P (later fs)
later-keeps P [] all = all
later-keeps P (f ∷ fs) all = all.1

-- The loop ended with an answer of its own, not for contention.
abbrev pub Settled : Budget → Result Decision → Type 0
Settled b r = (r ≡ ok b.exceeded) ⊎ ((left : Int64) × (r ≡ ok (b.granted left)))

answer-Settled : (b : Budget) (v : Int64) → Settled b (ok (answer b v))
answer-Settled b v = elim (Bool-cases (ltb_ℤ b.limit (v +w b.cost))) [
  | inl over ↦ inl (rw over)
  | inr room ↦ inr (b.limit -w (v +w b.cost), rw room)
]

-- The counter lies between 0 and the limit.
abbrev pub Within : {S : Type 0} → (S → String → Int64) → Budget → S → Type 0
Within value b s = (pos 0 ≤ℤ value s b.key) × (value s b.key ≤ℤ b.limit)

module _ {S : Type 0} (c : CounterStore S) (value : S → String → Int64) (laws : CounterLaws c value)
    (b : Budget) where
  abbrev Held : S → Type 0
  Held = Within value b

  get-Held : (s : S) → Held s → Held (c.get b.key s).1
  get-Held s h = ground (arith, laws.value-get b.key b.key s)

  swap-Held :
      (s : S) (v : Int64)
      → pos 0 ≤ℤ b.cost
      → InRange (b.limit +ℤ b.cost)
      → pos 0 ≤ℤ v
      → v ≤ℤ b.limit
      → ltb_ℤ b.limit (v +w b.cost) ≡ false
      → Held s
      → Held (c.compare_and_swap b.key v (v +w b.cost) b.ttl s).1
  swap-Held s v hc hr low high room h = ground (
    arith,
    laws.value-swap b.key b.key v (v +w b.cost) b.ttl s,
    +w_exact_below v b.limit b.cost low hc high hr,
    +ℤ_parts v b.cost,
  )

  pub spend_keeps :
      (n : ℕ) (s : S) (fs : List (S → S))
      → pos 0 ≤ℤ b.cost
      → InRange (b.limit +ℤ b.cost)
      → Held s
      → AllKeep Held fs
      → Held (spend (shared c) b n (record { state = s; pending = fs })).1.state
  unfolding spend act shared
  spend_keeps zero s fs hc hr h all = h
  spend_keeps (suc n) s fs hc hr h all = ground (
    arith,
    laws.get_ok b.key s0,
    get-Held s0 h0,
    laws.swap_ok b.key v (v +w b.cost) b.ttl s1,
    swap-Held s1 v hc hr h0.0 h0.1,
    h1,
    spend_keeps n (c.compare_and_swap b.key v (v +w b.cost) b.ttl s1).1 (later (later fs)) hc hr,
    later-keeps Held (later fs) rest,
  )
    where
      s0 : S
      s0 = interrupted s fs

      h0 : Held s0
      h0 = interrupted-keeps Held s fs all h

      rest : AllKeep Held (later fs)
      rest = later-keeps Held fs all

      v : Int64
      v = value s0 b.key

      s1 : S
      s1 = interrupted (c.get b.key s0).1 (later fs)

      h1 : Held s1
      h1 = interrupted-keeps Held (c.get b.key s0).1 (later fs) rest (get-Held s0 h0)

  -- One attempt, with the actions `f` and `g` of the others before its two calls: an answer of its
  -- own, or the rest of the loop.
  attempt :
      (n : ℕ) (s : S) (fs : List (S → S))
      → let s0 = interrupted s fs in
        let s1 = interrupted (c.get b.key s0).1 (later fs) in
        let v = value s0 b.key in
        let s2 = (c.compare_and_swap b.key v (v +w b.cost) b.ttl s1).1 in
        let r = (spend (shared c) b (suc n) (record { state = s; pending = fs })).0 in
        (r ≡ ok (answer b v))
        ⊎ ((r ≡ (spend (shared c) b n (record { state = s2; pending = later (later fs) })).0)
            × ((value s1 b.key =ℤ v) ≡ false))
  unfolding spend act shared
  attempt n s fs = ground (arith, laws.get_ok b.key s0, laws.swap_ok b.key v (v +w b.cost) b.ttl s1)
    where
      s0 : S
      s0 = interrupted s fs

      v : Int64
      v = value s0 b.key

      s1 : S
      s1 = interrupted (c.get b.key s0).1 (later fs)

  undisturbed : (s : S) → (value (c.get b.key s).1 b.key =ℤ value s b.key) ≡ true
  undisturbed s =
      (=ℤ_iff (value (c.get b.key s).1 b.key) (value s b.key)).1 (laws.value-get b.key b.key s)

  -- After fewer than two actions for each attempt the loop has an answer of its own.
  pub spend_settles :
      (n : ℕ) (s : S) (fs : List (S → S))
      → length fs < 2 * n
      → Settled b (spend (shared c) b n (record { state = s; pending = fs })).0
  spend_settles zero s fs h = absurd (omega arith)
  spend_settles (suc n) s [] h = elim (attempt n s []) [
    | inl e ↦ rw e (answer-Settled b (value s b.key))
    | inr e ↦ cc (undisturbed s, e.1)
  ]
  spend_settles (suc n) s (f ∷ []) h = elim (attempt n s (f ∷ [])) [
    | inl e ↦ rw e (answer-Settled b (value (f s) b.key))
    | inr e ↦ cc (undisturbed (f s), e.1)
  ]
  spend_settles (suc n) s (f ∷ g ∷ fs) h = elim (attempt n s (f ∷ g ∷ fs)) [
    | inl e ↦ rw e (answer-Settled b (value (f s) b.key))
    | inr e ↦ rw e.0 (
        spend_settles n
          (c.compare_and_swap b.key (value (f s) b.key) (value (f s) b.key +w b.cost) b.ttl
            (g (c.get b.key (f s)).1)).1
          fs (omega arith))
  ]
