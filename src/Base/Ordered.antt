-- ===== src/Base/Ordered.antt =====
-- The order in which a `std::map` or `std::multimap` is gone through: by the normal forms of the
-- keys, compared byte by byte. An association list stands for the container's content.
use mathlib.Core.Bool.{Bool, true, false}
use mathlib.Core.List.{[], ◌∷◌}
use native.Mathlib.Omega.{arith}
use suda_gureum.Base.AssocMap.{AssocMap}
use suda_gureum.Base.Lists.{All}
use suda_gureum.Base.Tests.{ltb, if◌then◌else◌}
use suda_gureum.Base.Text.{Bytes}

-- `<` of `std::string` on the normal forms.
abbrev pub less : Bytes → Bytes → Bool
less [] [] = false
less [] (b ∷ bs) = true
less (a ∷ as') [] = false
less (a ∷ as') (b ∷ bs) = if ltb a b then true else if ltb b a then false else less as' bs

module _ {ℓ} {V : Type ℓ} (norm : Bytes → Bytes) where
  abbrev pub insert_ordered : Bytes × V → AssocMap V → AssocMap V
  insert_ordered e [] = e ∷ []
  insert_ordered e (f ∷ fs) =
      if less (norm f.0) (norm e.0) then f ∷ insert_ordered e fs else e ∷ f ∷ fs

  pub in_order : AssocMap V → AssocMap V
  in_order [] = []
  in_order (e ∷ es) = insert_ordered e (in_order es)

  module _ {κ} (P : Bytes × V → Type κ) where
    insert_ordered-All :
        (e : Bytes × V) (es : AssocMap V) → P e → All P es → All P (insert_ordered e es)
    insert_ordered-All e [] h hs = (h, tt)
    insert_ordered-All e (f ∷ fs) h (hf, hs) = ground (arith, insert_ordered-All e fs h hs)

    -- Nothing is added.
    pub in_order-All : (es : AssocMap V) → All P es → All P (in_order es)
    unfolding in_order
    in_order-All [] h = tt
    in_order-All (e ∷ es) (he, h) = insert_ordered-All e (in_order es) he (in_order-All es h)
