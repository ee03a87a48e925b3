-- ===== src/Base/TextOrder.antt =====
-- The order of texts, which is total.
use Prim.Native.Char.{Char, code}
use Prim.Native.Nat.{Ordering, compare as compare_ℕ}
use Prim.Native.String
use Prim.Native.String.{compare}
use Prim.Native.String.compare.{nil-cons, cons-nil, cons-cons}
use rlaas.Base.{String, Bool, true, false, ◌≡◌, refl, arith, ltb, if◌then◌else◌}

-- `a > b`.
unfoldable pub text_gt : String → String → Bool
text_gt a b = elim (compare a b) [ Ordering.gt ↦ true | _ ↦ false ]

compare-cons :
    (c d : Char) (s t : String)
    → compare (String.◌∷◌ c s) (String.◌∷◌ d t)
      ≡ String.then (compare_ℕ (code c) (code d)) (compare s t)
compare-cons c d s t = cons-cons c d s t

gt-cons :
    (c d : Char) (s t : String)
    → text_gt (String.◌∷◌ c s) (String.◌∷◌ d t) ≡ (
        if ltb (code d) (code c)
        then true
        else if ltb (code c) (code d)
        then false
        else text_gt s t)
unfolding text_gt
gt-cons c d s t = ground (arith, compare-cons c d s t)

gt-nil : (t : String) → text_gt String.[] t ≡ false
unfolding text_gt
gt-nil String.[] = refl
gt-nil (String.◌∷◌ d t) = rw (nil-cons d t, text_gt)

cons-gt_nil : (c : Char) (s : String) → text_gt (String.◌∷◌ c s) String.[] ≡ true
unfolding text_gt
cons-gt_nil c s = rw (cons-nil c s, text_gt)

pub text_gt-asym : (a b : String) → text_gt a b ≡ true → text_gt b a ≡ false
text_gt-asym String.[] b h = cc (gt-nil b)
text_gt-asym (String.◌∷◌ c s) String.[] h = gt-nil (String.◌∷◌ c s)
text_gt-asym (String.◌∷◌ c s) (String.◌∷◌ d t) h =
    ground (arith, gt-cons c d s t, gt-cons d c t s, text_gt-asym s t)

-- If `a` is not above `b`, and `b` not above `c`, then `a` is not above `c`.
pub text_gt-neg_trans :
    (a b c : String) → text_gt a b ≡ false → text_gt b c ≡ false → text_gt a c ≡ false
text_gt-neg_trans String.[] b c h k = gt-nil c
text_gt-neg_trans (String.◌∷◌ x a) String.[] c h k = cc (cons-gt_nil x a)
text_gt-neg_trans (String.◌∷◌ x a) (String.◌∷◌ y b) String.[] h k = cc (cons-gt_nil y b)
text_gt-neg_trans (String.◌∷◌ x a) (String.◌∷◌ y b) (String.◌∷◌ z c) h k =
    ground (arith, gt-cons x y a b, gt-cons y z b c, gt-cons x z a c, text_gt-neg_trans a b c)
