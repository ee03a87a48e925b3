-- ===== src/Control/Leases/Once.antt =====
-- The life of a lease in the registry of internal/adapter/http/controlplane.go.
use rlaas.Base.{
  String, List, [], ◌∷◌, Bool, true, false, Option, none, some, ◌==◌, ◌≡◌, ◌≢◌, refl, arith, eq_iff,
  ◌∙◌, Bool-cases, inl, inr, sym, Option-cases,
}
use Prim.Native.String.append
use mathlib.Core.Path.{subst, ap}
use rlaas.Base.Lists.{All}
use rlaas.Base.Exec.{Result, ok, err}
use rlaas.Model.{RequestContext, Decision}
use rlaas.Control.Leases.{
  LeaseEvaluator, LeaseRegistry, lease_id_of, put_lease, pop, refuse, hand_out, acquire_handler,
  give_back, release_handler, released,
}

pub data Call : Type 0 where
  acquire : Result RequestContext → String → Call
  release : Result String → Call

-- The call does not draw the id.
abbrev pub Undrawn : String → Call → Type 0
Undrawn id (acquire decoded random) = (lease_id_of random == id) ≡ false
Undrawn id (release decoded) = Unit

-- The call neither draws the id nor names it for release.
abbrev pub Untouched : String → Call → Type 0
Untouched id (acquire decoded random) = (lease_id_of random == id) ≡ false
Untouched id (release (ok other)) = (other == id) ≡ false
Untouched id (release (err why)) = Unit

module _ {R : Type 0} where
  hand_out-other :
      {S : Type 0} (e : LeaseEvaluator S R) (id random : String) (r : Result (Decision × Option R))
      (m : LeaseRegistry R)
      → (lease_id_of random == id) ≡ false
      → (hand_out e random r m).1 id ≡ m id
  unfolding hand_out put_lease
  hand_out-other e id random (err why) m other = refl
  hand_out-other e id random (ok (d, none)) m other = refl
  hand_out-other e id random (ok (d, some fn)) m other = elim (Bool-cases d.allowed) [
    | inl granted ↦ rw granted (rw other refl)
    | inr refused ↦ rw refused refl
  ]

  pop-same : (id : String) (m : LeaseRegistry R) → (pop id m).1 id ≡ none
  unfolding pop
  pop-same id m = elim (Option-cases (m id)) [
    | inl gone ↦ rw gone (rw gone refl)
    | inr (fn, held) ↦ rw held (rw ((eq_iff id id).1 refl) refl)
  ]

  pop-other : (id j : String) (m : LeaseRegistry R) → (j == id) ≡ false → (pop j m).1 id ≡ m id
  unfolding pop
  pop-other id j m other = elim (Option-cases (m j)) [
    | inl gone ↦ rw gone refl
    | inr (fn, held) ↦ rw held (rw other refl)
  ]

  pop-none : (id j : String) (m : LeaseRegistry R) → m id ≡ none → (pop j m).1 id ≡ none
  pop-none id j m gone = elim (Bool-cases (j == id)) [
    | inl same ↦ subst (λ k. (pop k m).1 id ≡ none) (sym ((eq_iff j id).0 same)) (pop-same id m)
    | inr other ↦ pop-other id j m other ∙ gone
  ]

module _ {S R : Type 0} (e : LeaseEvaluator S R) where
  unfoldable pub call : Call → LeaseRegistry R × S → LeaseRegistry R × S
  call (acquire decoded random) x = (acquire_handler e decoded random x).1
  call (release decoded) x = (release_handler e decoded x).1

  unfoldable pub call_all : List Call → LeaseRegistry R × S → LeaseRegistry R × S
  unfolding call
  call_all [] x = x
  call_all (c ∷ cs) x = call_all cs (call c x)

  call-Untouched :
      (id : String) (c : Call) (m : LeaseRegistry R) (s : S)
      → Untouched id c
      → (call c (m, s)).0 id ≡ m id
  unfolding call acquire_handler release_handler
  call-Untouched id (acquire (err why) random) m s h = refl
  call-Untouched id (acquire (ok req) random) m s h = hand_out-other e id random _ m h
  call-Untouched id (release (err why)) m s h = refl
  call-Untouched id (release (ok j)) m s h = elim (Bool-cases (j == "")) [
    | inl blank ↦ rw (blank, call, release_handler) refl
    | inr name ↦ rw (name, call, release_handler) (pop-other id j m h)
  ]

  call-Undrawn :
      (id : String) (c : Call) (m : LeaseRegistry R) (s : S)
      → Undrawn id c
      → m id ≡ none
      → (call c (m, s)).0 id ≡ none
  unfolding call acquire_handler release_handler
  call-Undrawn id (acquire (err why) random) m s h gone = gone
  call-Undrawn id (acquire (ok req) random) m s h gone = hand_out-other e id random _ m h ∙ gone
  call-Undrawn id (release (err why)) m s h gone = gone
  call-Undrawn id (release (ok j)) m s h gone = elim (Bool-cases (j == "")) [
    | inl blank ↦ rw (blank, call, release_handler) gone
    | inr name ↦ rw (name, call, release_handler) (pop-none id j m gone)
  ]

  call_all-Untouched :
      (id : String) (cs : List Call) (m : LeaseRegistry R) (s : S)
      → All (Untouched id) cs
      → (call_all cs (m, s)).0 id ≡ m id
  unfolding call_all
  call_all-Untouched id [] m s h = refl
  call_all-Untouched id (c ∷ cs) m s (h, hs) =
      call_all-Untouched id cs (call c (m, s)).0 (call c (m, s)).1 hs ∙ call-Untouched id c m s h

  call_all-Undrawn :
      (id : String) (cs : List Call) (m : LeaseRegistry R) (s : S)
      → All (Undrawn id) cs
      → m id ≡ none
      → (call_all cs (m, s)).0 id ≡ none
  unfolding call_all
  call_all-Undrawn id [] m s h gone = gone
  call_all-Undrawn id (c ∷ cs) m s (h, hs) gone =
      call_all-Undrawn id cs (call c (m, s)).0 (call c (m, s)).1 hs (call-Undrawn id c m s h gone)

  release_held :
      (id : String) (fn : R) (m : LeaseRegistry R) (s : S)
      → (id == "") ≡ false
      → m id ≡ some fn
      → ((release_handler e (ok id) (m, s)).0 ≡ released e (e.run fn s).0)
        × ((release_handler e (ok id) (m, s)).1.1 ≡ (e.run fn s).1)
        × ((release_handler e (ok id) (m, s)).1.0 id ≡ none)
  unfolding release_handler give_back pop
  release_held id fn m s name held = rw name (rw held (refl, refl, rw ((eq_iff id id).1 refl) refl))

  release_gone :
      (id : String) (m : LeaseRegistry R) (s : S)
      → (id == "") ≡ false
      → m id ≡ none
      → release_handler e (ok id) (m, s) ≡ (refuse 404 "lease not found", (m, s))
  unfolding release_handler give_back pop
  release_gone id m s name gone = rw name (rw gone refl)

  starts : String → Bool
  starts String.[] = false
  starts (String.◌∷◌ c s) = true

  lease_name_not_blank : (random : String) → lease_id_of random ≢ ""
  unfolding lease_id_of starts
  lease_name_not_blank random e =
      absurd (grind (arith, ap starts (sym (append.cons "l" "ease-" random) ∙ e)))

  lease_name : (random : String) → (lease_id_of random == "") ≡ false
  unfolding lease_id_of
  lease_name random = elim (Bool-cases (lease_id_of random == "")) [
    | inl blank ↦ absurd (lease_name_not_blank random ((eq_iff (lease_id_of random) "").0 blank))
    | inr name ↦ name
  ]

  hand_out-own :
      (random : String) (d : Decision) (fn : R) (m : LeaseRegistry R)
      → d.allowed ≡ true
      → (hand_out e random (ok (d, some fn)) m).1 (lease_id_of random) ≡ some fn
  unfolding hand_out put_lease
  hand_out-own random d fn m granted = rw granted (rw ((eq_iff (lease_id_of random) _).1 refl) refl)

-- After a call of acquire that got a lease, whatever calls come that neither draw its id nor release it, releasing
-- the id runs just that lease's function and answers by its result; and whatever calls follow that do not draw the
-- id again, a further release of it is answered with 404 and changes nothing.
pub lease_released_once :
    {S R : Type 0} (e : LeaseEvaluator S R) (req : RequestContext) (random : String)
    → (m : LeaseRegistry R) (s s' : S) (d : Decision) (fn : R) (between after : List Call)
    → e.start_concurrency_lease req s ≡ (ok (d, some fn), s')
    → d.allowed ≡ true
    → All (Untouched (lease_id_of random)) between
    → All (Undrawn (lease_id_of random)) after
    → let id = lease_id_of random in
      let x = call_all e between (acquire_handler e (ok req) random (m, s)).1 in
      let y = release_handler e (ok id) x in
      let z = call_all e after y.1 in
      (y.0 ≡ released e (e.run fn x.1).0)
      × (y.1.1 ≡ (e.run fn x.1).1)
      × (release_handler e (ok id) z ≡ (refuse 404 "lease not found", z))
unfolding acquire_handler
lease_released_once e req random m s s' d fn between after got granted h k =
    let id = lease_id_of random in
    let start = (acquire_handler e (ok req) random (m, s)).1 in
    let x = call_all e between start in
    let y = (release_handler e (ok id) x).1 in
    let z = call_all e after y in
    let drawn : start.0 id ≡ some fn = rw got (hand_out-own e random d fn m granted) in
    let held = call_all-Untouched e id between start.0 start.1 h ∙ drawn in
    let (says, runs, gone) = release_held e id fn x.0 x.1 (lease_name e random) held in
    (
      says,
      runs,
      release_gone e id z.0 z.1 (lease_name e random) (call_all-Undrawn e id after y.0 y.1 k gone),
    )
