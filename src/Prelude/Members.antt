-- ===== src/Prelude/Members.antt =====
-- The entries of an association list without repeated keys are what its keys look up.
use mathlib.Core.Path.{◌≡◌, sym, ◌∙◌}
use mathlib.Core.Logic.{Lift, ◌≢◌, ◌⊎◌, inl, inr}
use mathlib.Core.List.{List, [], ◌∷◌}
use mathlib.Core.Option.{some}
use ores_middleware.Prelude.Lists.{All}
use ores_middleware.Prelude.Maps.{lookup, IsUnique, lookup-head, lookup-tail}

abbrev pub In {ℓ} : {A : Type ℓ} → A → List A → Type ℓ
In w [] = Lift ⊥
In w (x ∷ m) = (w ≡ x) ⊎ In w m

module _ {ℓ} {K V : Type ℓ} (dec : Discrete K) where
  In-ne : (j : K) (w : K × V) (m : List (K × V)) → All (λ e. e.0 ≢ j) m → In w m → w.0 ≢ j
  In-ne j w [] h at = absurd at.lower
  In-ne j w (x ∷ m) (h, hs) (inl e) = rw e h
  In-ne j w (x ∷ m) (h, hs) (inr at) = In-ne j w m hs at

  pub lookup_of_In :
      (w : K × V) (m : List (K × V)) → IsUnique dec m → In w m → lookup dec w.0 m ≡ some w.1
  lookup_of_In w [] u at = absurd at.lower
  lookup_of_In w (x ∷ m) (u, us) (inl e) = rw e (lookup-head dec x.0 x.1 m)
  lookup_of_In w (x ∷ m) (u, us) (inr at) =
      lookup-tail dec w.0 x.0 x.1 m (λ e. In-ne x.0 w m u at (sym e)) ∙ lookup_of_In w m us at
