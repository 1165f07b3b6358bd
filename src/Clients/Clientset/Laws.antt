-- ===== src/Clients/Clientset/Laws.antt =====
-- What a clientset is made of, and when none is made.
use knative_source.Base.{◌≡◌, Bool, true, not, ◌&&◌, is_some, str_eq}
use knative_source.Base.Int.{ℤ, pos, ltb_ℤ}
use knative_source.Base.Result.{Result}
use knative_source.Clients.Clientset.{RestTypes, RestConfig, RestLib}

module _ (k : RestTypes) (lib : RestLib k) where
  -- The configuration asks for a limiter of its own.
  abbrev pub is_limited : RestConfig k → Bool
  is_limited c = not (is_some c.rate_limiter) && lib.is_positive c.qps

  -- `P` holds of the state through each call that makes a limiter of a positive rate and burst.
  abbrev pub KeepsLimiters : (k.State → Type 0) → Type 0
  KeepsLimiters P =
      (qps : k.Rate) (burst : ℤ) (s : k.State)
      → lib.is_positive qps ≡ true
      → ltb_ℤ (pos 0) burst ≡ true
      → P s
      → P (lib.new_rate_limiter qps burst s).1
