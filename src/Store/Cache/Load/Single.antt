-- ===== src/Store/Cache/Load/Single.antt =====
-- What `GetOrLoad` of internal/store/cache/policy_cache.go keeps.
use Prim.Native.Nat.{ℕ, zero, suc, ◌+◌, ◌≤◌}
use rlaas.Base.{
  String, List, [], ◌∷◌, ◌++◌, Bool, true, false, Option, none, some, ◌==◌, ◌≡◌, refl, ap, ◌∙◌, sym,
  arith, eq_iff, Bool-cases, inl, inr,
}
use rlaas.Base.Maps.{put, remove}
use rlaas.Base.Workers.{get_elem?, set_elem}
use rlaas.Store.Cache.{PolicyCache}
use rlaas.Store.Cache.Load.{
  Answer, Caller, calling, missed, waiting, loading, answered, stored, closing, returned, Flights,
  idle, moved, At, Step, enter, hit, miss, join, lead, load, store, keep, wake_others, clean_up,
  wake, other_call, Reach, here, next,
}

one_if : Bool → ℕ
one_if true = 1
one_if false = 0

-- Whether a caller has the load of a namespace in its hands.
unfoldable pub leads : String → Caller → ℕ
unfolding one_if
leads ns (loading n c) = one_if (n == ns)
leads ns (answered n c r) = one_if (n == ns)
leads ns (stored n c r) = one_if (n == ns)
leads ns (closing n c r) = one_if (n == ns)
leads ns (calling n) = 0
leads ns (missed n) = 0
leads ns (waiting n c) = 0
leads ns (returned n r) = 0

unfoldable pub leaders : String → List Caller → ℕ
unfolding leads
leaders ns [] = 0
leaders ns (p ∷ ps) = leads ns p + leaders ns ps

leaders-append :
    (ns : String) (ps : List Caller) (p : Caller)
    → leaders ns (ps ++ p ∷ []) ≡ leaders ns ps + leads ns p
unfolding leaders
leaders-append ns [] p = omega arith
leaders-append ns (q ∷ ps) p = omega (arith, leaders-append ns ps p)

leaders-set :
    (ns : String) (ps : List Caller) (i : ℕ) (p q : Caller)
    → get_elem? ps i ≡ some p
    → leaders ns (set_elem ps i q) + leads ns p ≡ leaders ns ps + leads ns q
unfolding leaders set_elem
leaders-set ns [] i p q at = absurd (grind (arith, at))
leaders-set ns (r ∷ ps) zero p q at =
    omega (arith, ap {B = ℕ} (λ o. elim o [ none ↦ 0 | some x ↦ leads ns x ]) at)
leaders-set ns (r ∷ ps) (suc i) p q at = omega (arith, leaders-set ns ps i p q at)

flag : Option ℕ → ℕ
flag none = 0
flag (some c) = 1

-- One caller has the load of a namespace in its hands if there is a call for it, else none.
pub IsSingle : Flights → Type 0
unfolding flag
IsSingle st = (ns : String) → leaders ns st.callers ≡ flag (st.sf_calls ns)

flag-le : (o : Option ℕ) → flag o ≤ 1
unfolding flag
flag-le none = omega arith
flag-le (some c) = omega arith

idle-IsSingle : (cache : PolicyCache) → IsSingle (idle cache)
unfolding IsSingle idle leaders
idle-IsSingle cache ns = refl

-- A step that leaves the calls alone and moves a caller without giving the load up.
moved-IsSingle :
    (st : Flights) (i : ℕ) (p q : Caller)
    → At st i p
    → ((ns : String) → leads ns p ≡ leads ns q)
    → IsSingle st
    → IsSingle (moved i q st)
unfolding IsSingle moved
moved-IsSingle st i p q at same v ns =
    omega (arith, leaders-set ns st.callers i p q at, same ns, v ns)

lead-IsSingle :
    (st : Flights) (i : ℕ) (n : String)
    → At st i (missed n)
    → st.sf_calls n ≡ none
    → IsSingle st
    → IsSingle (record (moved i (loading n st.next_call) st) {
      sf_calls = put st.sf_calls n st.next_call;
      next_call = suc st.next_call;
    })
unfolding IsSingle moved flag leads one_if
lead-IsSingle st i n at free v ns =
    let count = leaders-set ns st.callers i (missed n) (loading n st.next_call) at in
    elim (Bool-cases (n == ns)) [
      | inl own ↦
          let none_yet : leaders ns st.callers ≡ 0 =
            v ns ∙ ap flag (ap st.sf_calls (sym ((eq_iff n ns).0 own)) ∙ free) in
          rw own (omega (arith, count, none_yet, ap one_if own))
      | inr other ↦ rw other (omega (arith, count, v ns, ap one_if other))
    ]

clean_up-IsSingle :
    (st : Flights) (i : ℕ) (n : String) (c : ℕ) (r : Answer)
    → At st i (closing n c r)
    → IsSingle st
    → IsSingle (record (moved i (returned n r) st) { sf_calls = remove st.sf_calls n })
unfolding IsSingle moved flag leads one_if
clean_up-IsSingle st i n c r at v ns =
    let count = leaders-set ns st.callers i (closing n c r) (returned n r) at in
    elim (Bool-cases (n == ns)) [
      | inl own ↦ rw own (omega (arith, count, v ns, flag-le (st.sf_calls ns), ap one_if own))
      | inr other ↦ rw other (omega (arith, count, v ns, ap one_if other))
    ]

Step-IsSingle : {st u : Flights} → Step st u → IsSingle st → IsSingle u
unfolding IsSingle leads
Step-IsSingle {st} (enter n) v = λ ns. omega (arith, leaders-append ns st.callers (calling n), v ns)
Step-IsSingle {st} (hit i n now ps at found) v = moved-IsSingle st i _ _ at (λ ns. refl) v
Step-IsSingle {st} (miss i n now at gone) v = moved-IsSingle st i _ _ at (λ ns. refl) v
Step-IsSingle {st} (join i n c at there) v = moved-IsSingle st i _ _ at (λ ns. refl) v
Step-IsSingle {st} (lead i n at free) v = lead-IsSingle st i n at free v
Step-IsSingle {st} (load i n c r at) v = moved-IsSingle st i _ _ at (λ ns. refl) v
Step-IsSingle {st} (store i n c now ps at) v = moved-IsSingle st i _ _ at (λ ns. refl) v
Step-IsSingle {st} (keep i n c why at) v = moved-IsSingle st i _ _ at (λ ns. refl) v
Step-IsSingle {st} (wake_others i n c r at) v = moved-IsSingle st i _ _ at (λ ns. refl) v
Step-IsSingle {st} (clean_up i n c r at) v = clean_up-IsSingle st i n c r at v
Step-IsSingle {st} (wake i n c r at there) v = moved-IsSingle st i _ _ at (λ ns. refl) v
Step-IsSingle {st} (other_call cache) v = v

Reach-IsSingle : {st u : Flights} → Reach st u → IsSingle st → IsSingle u
Reach-IsSingle here v = v
Reach-IsSingle (next r st) v = Step-IsSingle st (Reach-IsSingle r v)

-- However the callers' steps interleave, at most one caller at a time has the load of a namespace in its hands,
-- from its entry in the table of calls to the removal of that entry.
pub one_load_at_a_time :
    (cache : PolicyCache) (ns : String) {st : Flights}
    → Reach (idle cache) st
    → leaders ns st.callers ≤ 1
unfolding IsSingle
one_load_at_a_time cache ns {st} r =
    omega (arith, Reach-IsSingle r (idle-IsSingle cache) ns, flag-le (st.sf_calls ns))
