-- ===== src/Errors/Laws.antt =====
-- Which errors `errors.Is` tells apart.
use go_builder_relayer_clien.Prelude.{
  ℕ, zero, suc, ◌≡◌, refl, ◌↔◌, Bool, true, false, some, List, [], ◌∷◌, arith, text_eq, text_eq_iff,
  text_eq_refl, ◌&&◌, get_elem?, not,
}
use go_builder_relayer_clien.Errors.Sdk.{SdkError, sdk_is}
use go_builder_relayer_clien.Errors.Predefined.{predefined}

-- no error of the list has the code of `e`
fresh : SdkError → List SdkError → Bool
fresh e [] = true
fresh e (f ∷ fs) = not (text_eq e.code f.code) && fresh e fs

distinct : List SdkError → Bool
distinct [] = true
distinct (e ∷ es) = fresh e es && distinct es

sdk_is_refl : (e : SdkError) → sdk_is e e ≡ true
unfolding sdk_is
sdk_is_refl e = text_eq_refl e.code

fresh-ne :
    (e f : SdkError) (fs : List SdkError) (j : ℕ)
    → fresh e fs ≡ true
    → get_elem? fs j ≡ some f
    → (sdk_is e f ≡ false) × (sdk_is f e ≡ false)
unfolding fresh sdk_is
fresh-ne e f [] j h g = cc
fresh-ne e f (x ∷ fs) zero h g =
    ground (arith, text_eq_iff e.code f.code, text_eq_iff f.code e.code)
fresh-ne e f (x ∷ fs) (suc j) h g = fresh-ne e f fs j (ground arith) g

distinct-Is :
    (es : List SdkError) (i j : ℕ) (e f : SdkError)
    → distinct es ≡ true
    → get_elem? es i ≡ some e
    → get_elem? es j ≡ some f
    → (sdk_is e f ≡ true) ↔ (i ≡ j)
unfolding distinct
distinct-Is [] i j e f d p q = cc
distinct-Is (x ∷ es) zero zero e f d p q = ground (arith, sdk_is_refl x)
distinct-Is (x ∷ es) zero (suc j) e f d p q = ground (arith, fresh-ne x f es j)
distinct-Is (x ∷ es) (suc i) zero e f d p q = ground (arith, fresh-ne x e es i)
distinct-Is (x ∷ es) (suc i) (suc j) e f d p q = ground (arith, distinct-Is es i j e f)

distinct-predefined : distinct predefined ≡ true
unfolding distinct fresh text_eq
distinct-predefined = refl

-- Of the 42 errors that pkg/errors declares, `Is` matches one with another exactly if both are the
-- same error of the list.
pub Is-predefined :
    (i j : ℕ) (e f : SdkError)
    → get_elem? predefined i ≡ some e
    → get_elem? predefined j ≡ some f
    → (sdk_is e f ≡ true) ↔ (i ≡ j)
Is-predefined i j e f p q = distinct-Is predefined i j e f distinct-predefined p q
